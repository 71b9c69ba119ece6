-- ===== src/Relay/Connection/Sequence/Ordered.antt =====
-- No frame is lost, repeated or taken out of order: `onLine` and `onApplicationFrame` in
-- roomsd/src/federation/relay-connection.ts.
use wardroom.Base.{
  ℕ, ◌+◌, ◌≡◌, refl, sym, ◌∙◌, subst, String, true, false, Option, none, some, List, [], ◌∷◌, arith,
  length, ◌==◌, Bool-cases, inl, inr, ◌⊎◌,
}
use wardroom.Relay.{
  RelayDirection, initiator_to_responder, responder_to_initiator, RelayWireFrame, handshake_init,
  handshake_accept, handshake_reject, sequenced, Body,
}
use wardroom.Relay.Connection.{
  RelayDisconnectReason, Machine, RelayConnectionInput, RelayConnection, peer_direction, fail,
  Outcome, returns, throws,
}
use wardroom.Relay.Connection.Handshaking.{Fresh}
use wardroom.Relay.Connection.Receiving.{
  Handler, same_id, same_direction, on_application_frame, on_frame,
}
use wardroom.Relay.Connection.Sequence.{Stays, Leaves, on_body-Stays, on_frames, Consecutive}

-- An end that has given up.
abbrev GaveUp : Outcome → Type 0
GaveUp (returns c) = c.destroyed ≡ true
GaveUp (throws c) = ⊥

same_direction-eq : (d e : RelayDirection) → same_direction d e ≡ true → d ≡ e
same_direction-eq initiator_to_responder initiator_to_responder h = refl
same_direction-eq initiator_to_responder responder_to_initiator h = absurd (ground arith)
same_direction-eq responder_to_initiator initiator_to_responder h = absurd (ground arith)
same_direction-eq responder_to_initiator responder_to_initiator h = refl

same_id-eq : (o : Option String) (i : String) → same_id o i ≡ true → some i ≡ o
same_id-eq none i h = absurd (ground arith)
same_id-eq (some own) i h = ground arith

fail-GaveUp :
    {n : ℕ} {id : Option String} (r : RelayDisconnectReason) {c : RelayConnection}
    → Stays n id c
    → GaveUp (returns (fail r c))
unfolding fail
fail-GaveUp r s = ground arith

heard :
    {n : ℕ} {id : Option String} (now : ℕ) {c : RelayConnection}
    → Stays n id c
    → Stays n id (record c { last_any_received_at = now })
heard now s = ground arith

module _ (m : Machine) (input : RelayConnectionInput) (handler : Handler) where
  abbrev Next : ℕ → Option String → RelayWireFrame → Type 0
  Next n id (sequenced i d seq b) = (some i ≡ id) × (d ≡ peer_direction input.role) × (seq ≡ n + 1)
  Next n id f = ⊥

  on_application_frame-Next :
      {n : ℕ} {id : Option String} (now : ℕ) (i : String) (d : RelayDirection) (seq : ℕ) (b : Body)
      {c : RelayConnection}
      → Stays n id c
      → (Next n id (sequenced i d seq b)
          × Leaves (n + 1) id (on_application_frame m input handler now i d seq b c))
        ⊎ GaveUp (on_application_frame m input handler now i d seq b c)
  unfolding on_application_frame
  on_application_frame-Next {n} {id} now i d seq b {c} s =
      elim (Bool-cases (same_id c.connection_id i)) [
        | inr e ↦ rw (e, GaveUp, Leaves) (inr (fail-GaveUp _ s))
        | inl e ↦ elim (Bool-cases (same_direction d (peer_direction input.role))) [
          | inr k ↦ rw (e, k, GaveUp, Leaves) (inr (fail-GaveUp _ s))
          | inl k ↦ elim (Bool-cases (seq == c.incoming_seq + 1)) [
            | inr l ↦ rw (e, k, l, GaveUp, Leaves) (inr (fail-GaveUp _ s))
            | inl l ↦
                let numbered : seq ≡ n + 1 = ground (arith, s.incoming) in
                let later : Stays (n + 1) id (record c { incoming_seq = seq }) = ground arith in
                rw (e, k, l, Leaves)
                  (inl (
                    (
                      same_id-eq c.connection_id i e ∙ s.same_connection,
                      same_direction-eq d (peer_direction input.role) k,
                      numbered,
                    ),
                    on_body-Stays m input handler now b later,
                  ))
          ]
        ]
      ]

  on_frame-Next :
      {n : ℕ} {id : Option String} (now : ℕ) (fresh : Fresh) (f : RelayWireFrame)
      {c : RelayConnection}
      → Stays n id c
      → (Next n id f × Leaves (n + 1) id (on_frame m input handler now fresh f c))
        ⊎ GaveUp (on_frame m input handler now fresh f c)
  unfolding on_frame
  on_frame-Next now fresh (sequenced i d seq b) {c} s =
      rw (s.awake, Leaves, GaveUp)
        (on_application_frame-Next now i d seq b {c = record c { last_any_received_at = now }}
          (ground arith))
  on_frame-Next now fresh (handshake_init i) {c} s =
      rw (s.awake, GaveUp) (inr (fail-GaveUp _ (heard now s)))
  on_frame-Next now fresh (handshake_accept a) {c} s =
      rw (s.awake, GaveUp) (inr (fail-GaveUp _ (heard now s)))
  on_frame-Next now fresh (handshake_reject r) {c} s =
      rw (s.awake, GaveUp) (inr (fail-GaveUp _ (heard now s)))

  Outcome-cases :
      (o : Outcome)
      → ((c : RelayConnection) × (o ≡ returns c)) ⊎ ((c : RelayConnection) × (o ≡ throws c))
  Outcome-cases (returns c) = inl (c, refl)
  Outcome-cases (throws c) = inr (c, refl)

  on_frames-dead :
      (now : ℕ) (fresh : Fresh) (fs : List RelayWireFrame) (c : RelayConnection)
      → c.destroyed ≡ true
      → on_frames m input handler now fresh fs c ≡ returns c
  unfolding on_frames
  on_frames-dead now fresh [] c h = refl
  on_frames-dead now fresh (f ∷ fs) c h = ground arith

  on_frames-cons :
      (now : ℕ) (fresh : Fresh) (f : RelayWireFrame) (fs : List RelayWireFrame)
      (c c' : RelayConnection)
      → c.destroyed ≡ false
      → on_frame m input handler now fresh f c ≡ returns c'
      → on_frames m input handler now fresh (f ∷ fs) c ≡ on_frames m input handler now fresh fs c'
  unfolding on_frames
  on_frames-cons now fresh f fs c c' live k = ground arith

  Consecutive-cons :
      (n : ℕ) (id : Option String) (f : RelayWireFrame) (fs : List RelayWireFrame)
      → Next n id f
      → Consecutive m input handler (n + 1) id (peer_direction input.role) fs
      → Consecutive m input handler n id (peer_direction input.role) (f ∷ fs)
  Consecutive-cons n id (sequenced i d seq b) fs (same, from, number) h = (same, from, number, h)
  Consecutive-cons n id (handshake_init i) fs h k = h
  Consecutive-cons n id (handshake_accept a) fs h k = h
  Consecutive-cons n id (handshake_reject r) fs h k = h

  -- The frames that an end behind its handshake takes without giving up are those of its connection
  -- and of the other end's direction, with consecutive numbers.
  pub on_frames-Consecutive :
      {n : ℕ} {id : Option String} (now : ℕ) (fresh : Fresh) (fs : List RelayWireFrame)
      (c : RelayConnection) {c' : RelayConnection}
      → Stays n id c
      → on_frames m input handler now fresh fs c ≡ returns c'
      → c'.destroyed ≡ false
      → Consecutive m input handler n id (peer_direction input.role) fs
        × (c'.incoming_seq ≡ n + length fs)
  unfolding on_frames
  on_frames-Consecutive now fresh [] c s e alive = (tt, ground (arith, s.incoming))
  on_frames-Consecutive {n} {id} now fresh (f ∷ fs) c {c'} s e alive =
      elim (Bool-cases c.destroyed) [
        | inl dead ↦ absurd (ground arith)
        | inr live ↦ elim (Outcome-cases (on_frame m input handler now fresh f c)) [
          | inr (c'', k) ↦ absurd (ground arith)
          | inl (c'', k) ↦
              let later : on_frames m input handler now fresh fs c'' ≡ returns c' =
                sym (on_frames-cons now fresh f fs c c'' live k) ∙ e in
              elim (on_frame-Next now fresh f s) [
                | inr gave_up ↦
                    let dead : c''.destroyed ≡ true = subst GaveUp k gave_up in
                    absurd (ground (arith, on_frames-dead now fresh fs c'' dead))
                | inl (next, leaves) ↦
                    let (others, count) =
                      on_frames-Consecutive {n = n + 1} {id = id} now fresh fs c''
                        (subst (Leaves (n + 1) id) k leaves) later alive in
                    (Consecutive-cons n id f fs next others, omega arith)
              ]
        ]
      ]

-- ===== src/Relay/Connection/Authenticity.antt =====
-- Whom an end takes for the other end: `onHandshakeInit` and `onHandshakeAccept` in
-- roomsd/src/federation/relay-connection.ts.
use Prim.Native.String.{◌++◌}
use wardroom.Base.{
  ℕ, ◌≡◌, ◌≢◌, refl, String, Bool, true, Option, none, some, arith, Option-cases, inl, inr, ◌⊎◌,
}
use wardroom.Relay.Connection.Sending.{enqueue, write_frame}
use wardroom.Relay.{
  handshake_reject, handshake_accept, RelayWireFrame, RelayHandshakeInit, RelayHandshakeAccept,
}
use wardroom.Relay.Reading.{Units}
use wardroom.Relay.Connection.{
  handshaking, connected, closed, RelayDisconnectReason, PeerTrust, Identity, Machine,
  RelayConnectionInput, RelayConnection, fail, returns,
}
use wardroom.Relay.Connection.Handshaking.{
  reason_from_reject_code, Fresh, Verdict, refuses, trusts, reject_handshake, init_verdict,
  init_transcript_of, accept_transcript_of, answer, accept_of, become_connected, on_handshake_init,
  accept_fault, on_handshake_accept,
}

-- What vouches for a key: it is the one of the fingerprint and the authority that are presented,
-- this machine has the authority on record as active with that fingerprint and this transport, and
-- the signature is by that key.
pub record IsVouched (m : Machine) (trust : Option PeerTrust) (authority fingerprint : String)
    (der : Units) (signed : Bool) : Type 0 where
  pub presented : m.fingerprint_for_der der ≡ fingerprint
  pub named : "authority-" ++ m.fingerprint_for_der der ≡ authority
  pub record_of : PeerTrust
  pub on_record : trust ≡ some record_of
  pub pinned : record_of.fingerprint ≡ m.fingerprint_for_der der
  pub transport : record_of.policy_kind ≡ "loopbackSsh"
  pub signature : signed ≡ true

fail-closed : (r : RelayDisconnectReason) (c : RelayConnection) → (fail r c).state ≡ closed
unfolding fail
fail-closed r c = ground arith

module _ (m : Machine) (input : RelayConnectionInput) where
  reject_handshake-ne_connected :
      (id code message : String) (c c' : RelayConnection)
      → reject_handshake m input id code message c ≡ returns c'
      → c'.state ≢ connected
  unfolding reject_handshake
  reject_handshake-ne_connected id code message c c' e k = ground (
    arith,
    fail-closed (reason_from_reject_code code) (
        write_frame m input
          (handshake_reject (record { connection_id = id; code = code; message = message })) c),
  )

  Verdict-cases :
      (v : Verdict)
      → ((code : String) × (message : String) × (v ≡ refuses code message))
        ⊎ ((trust : PeerTrust) × (v ≡ trusts trust))
  Verdict-cases (refuses code message) = inl (code, message, refl)
  Verdict-cases (trusts trust) = inr (trust, refl)

  init_verdict-trusts :
      (now : ℕ) (dir own : String) (i : RelayHandshakeInit) (trust : PeerTrust)
      → init_verdict m input now dir own i ≡ trusts trust
      → (i.responder_authority_id ≡ own)
        × (i.initiator_authority_id ≢ own)
        × ((der : Units) × (m.canonical_der i.initiator_public_key_spki_b64 ≡ some der)
            × IsVouched m
                (m.active_trust now i.initiator_authority_id dir)
                i.initiator_authority_id
                i.initiator_fingerprint
                der
                (m.verify der (init_transcript_of i) i.signature))
  unfolding init_verdict
  init_verdict-trusts now dir own i trust e =
      elim (Option-cases (m.canonical_der i.initiator_public_key_spki_b64)) [
        | inl k ↦ absurd (ground arith)
        | inr (der, k) ↦ elim (Option-cases (m.active_trust now i.initiator_authority_id dir)) [
          | inl l ↦ absurd (ground arith)
          | inr (pinned, l) ↦ (
            ground arith,
            ground arith,
            (
              der,
              k,
              record {
                presented = ground arith;
                named = ground arith;
                record_of = pinned;
                on_record = l;
                pinned = ground arith;
                transport = ground arith;
                signature = ground arith;
              },
            ),
          )
        ]
      ]

  write_frame-peer :
      (f : RelayWireFrame) (c : RelayConnection)
      → (write_frame m input f c).peer_authority_id ≡ c.peer_authority_id
  unfolding write_frame enqueue fail
  write_frame-peer f c = ground arith

  connected_peer :
      (now : ℕ) (fresh : Fresh) (own : Identity) (i : RelayHandshakeInit) (trust : PeerTrust)
      (der : Option Units) (c c' : RelayConnection)
      → answer m input now fresh own i trust der c ≡ returns c'
      → c'.peer_authority_id ≡ some i.initiator_authority_id
  unfolding answer become_connected
  connected_peer now fresh own i trust none c c' e = absurd (ground arith)
  connected_peer now fresh own i trust (some der) c c' e = ground (
    arith,
    write_frame-peer
        (handshake_accept (accept_of m input own (m.fingerprint_for_der der) fresh.nonce trust i))
        (record c { peer_authority_id = some i.initiator_authority_id }),
  )

  -- A responder that is connected by an init is the machine that the init is addressed to, is not the
  -- machine that sent it, and the key of the init is vouched for, by a signature of the init.
  pub on_handshake_init-IsVouched :
      (now : ℕ) (fresh : Fresh) (i : RelayHandshakeInit) (c c' : RelayConnection)
      → on_handshake_init m input now fresh i c ≡ returns c'
      → c'.state ≡ connected
      → (dir : String) × (own : Identity) × (der : Units) × (m.identity_of dir ≡ some own)
        × (i.responder_authority_id ≡ own.authority_id)
        × (i.initiator_authority_id ≢ own.authority_id)
        × (m.canonical_der i.initiator_public_key_spki_b64 ≡ some der)
        × IsVouched m
            (m.active_trust now i.initiator_authority_id dir)
            i.initiator_authority_id
            i.initiator_fingerprint
            der
            (m.verify der (init_transcript_of i) i.signature)
        × (c'.peer_authority_id ≡ some i.initiator_authority_id)
  unfolding on_handshake_init become_connected
  on_handshake_init-IsVouched now fresh i c c' e k =
      let named = record c { connection_id = some i.connection_id } in
      elim (Option-cases (m.resolve_dir i.state_dir)) [
        | inl h ↦ absurd (
            ground (
              arith,
              reject_handshake-ne_connected i.connection_id "malformedHandshake"
                  "handshake rejected" named c',
            ))
        | inr (dir, h) ↦ elim (Option-cases (m.identity_of dir)) [
          | inl g ↦
              let placed = record named {
                resolved_remote_state_dir = some dir;
                negotiated_heartbeat_interval_ms = i.heartbeat_interval_ms;
              } in
              absurd (
                ground (
                  arith,
                  reject_handshake-ne_connected i.connection_id "malformedHandshake"
                      "handshake rejected" placed c',
                ))
          | inr (own, g) ↦ elim (Verdict-cases (init_verdict m input now dir own.authority_id i)) [
            | inl (code, message, f) ↦
                let placed = record named {
                  resolved_remote_state_dir = some dir;
                  negotiated_heartbeat_interval_ms = i.heartbeat_interval_ms;
                  own_authority_id = some own.authority_id;
                } in
                absurd (
                  ground
                    (arith, reject_handshake-ne_connected i.connection_id code message placed c'))
            | inr (trust, f) ↦
                let (addressed, other, (der, key, vouched)) =
                  init_verdict-trusts now dir own.authority_id i trust f in
                (
                  dir,
                  own,
                  der,
                  g,
                  addressed,
                  other,
                  key,
                  vouched,
                  connected_peer now fresh own i trust (m.canonical_der own.public_key)
                      (record named {
                        resolved_remote_state_dir = some dir;
                        negotiated_heartbeat_interval_ms = i.heartbeat_interval_ms;
                        own_authority_id = some own.authority_id;
                      })
                      c' (ground arith),
                )
          ]
        ]
      ]

  accept_fault-none :
      (now : ℕ) (p : RelayHandshakeInit) (a : RelayHandshakeAccept)
      → accept_fault m input now (some p) a ≡ none
      → (a.connection_id ≡ p.connection_id)
        × (a.initiator_authority_id ≡ p.initiator_authority_id)
        × (a.initiator_nonce ≡ p.nonce)
        × (a.responder_authority_id ≡ p.responder_authority_id)
        × ((der : Units) × (m.canonical_der a.responder_public_key_spki_b64 ≡ some der)
            × IsVouched m
                (m.active_trust now a.responder_authority_id input.local_state_dir)
                a.responder_authority_id
                a.responder_fingerprint
                der
                (m.verify der (accept_transcript_of a) a.signature))
  unfolding accept_fault
  accept_fault-none now p a e =
      elim (Option-cases (m.active_trust now a.responder_authority_id input.local_state_dir)) [
        | inl k ↦ absurd (ground arith)
        | inr (pinned, k) ↦ elim (Option-cases (m.canonical_der a.responder_public_key_spki_b64)) [
          | inl l ↦ absurd (ground arith)
          | inr (der, l) ↦ (
            ground arith,
            ground arith,
            ground arith,
            ground arith,
            (
              der,
              l,
              record {
                presented = ground arith;
                named = ground arith;
                record_of = pinned;
                on_record = k;
                pinned = ground arith;
                transport = ground arith;
                signature = ground arith;
              },
            ),
          )
        ]
      ]

  no_init :
      (now : ℕ) (a : RelayHandshakeAccept) (o : Option RelayHandshakeInit)
      → o ≡ none
      → accept_fault m input now o a ≡ none
      → ⊥
  unfolding accept_fault
  no_init now a o k e = ground arith

  fault_of-connected :
      (now : ℕ) (a : RelayHandshakeAccept) (c : RelayConnection)
      → c.state ≡ handshaking
      → (on_handshake_accept m input now a c).state ≡ connected
      → accept_fault m input now c.pending_init a ≡ none
  unfolding on_handshake_accept
  fault_of-connected now a c s e = elim (Option-cases (accept_fault m input now c.pending_init a)) [
    | inl k ↦ k
    | inr (reason, k) ↦ absurd (ground (arith, fail-closed reason c))
  ]

  -- An initiator that is connected by an accept had sent an init, the accept repeats its connection,
  -- its own authority and its nonce and is from the authority that was dialed, and the key of the
  -- accept is vouched for, by a signature of the accept.
  pub on_handshake_accept-IsVouched :
      (now : ℕ) (a : RelayHandshakeAccept) (c : RelayConnection)
      → c.state ≡ handshaking
      → (on_handshake_accept m input now a c).state ≡ connected
      → (p : RelayHandshakeInit) × (c.pending_init ≡ some p)
        × (a.connection_id ≡ p.connection_id)
        × (a.initiator_authority_id ≡ p.initiator_authority_id)
        × (a.initiator_nonce ≡ p.nonce)
        × (a.responder_authority_id ≡ p.responder_authority_id)
        × ((der : Units) × (m.canonical_der a.responder_public_key_spki_b64 ≡ some der)
            × IsVouched m
                (m.active_trust now a.responder_authority_id input.local_state_dir)
                a.responder_authority_id
                a.responder_fingerprint
                der
                (m.verify der (accept_transcript_of a) a.signature))
  on_handshake_accept-IsVouched now a c s e =
      let clear = fault_of-connected now a c s e in
      elim (Option-cases c.pending_init) [
        | inl k ↦ absurd (no_init now a c.pending_init k clear)
        | inr (p, k) ↦
            let (same, own, nonce, dialed, vouched) = accept_fault-none now p a (rw k at clear) in
            (p, k, same, own, nonce, dialed, vouched)
      ]

-- ===== src/Relay/Connection/Sequence.antt =====
-- The order in which an end takes frames: `onApplicationFrame` in
-- roomsd/src/federation/relay-connection.ts.
pub mod Ordered
use wardroom.Base.{
  ℕ, suc, ◌+◌, ◌≡◌, refl, sym, String, Bool, true, false, not, ◌&&◌, ◌||◌, Option, none, some, List,
  [], ◌∷◌, ◌++◌, if◌then◌else◌, arith, length, ◌==◌, ◌===◌, Option-cases, Bool-cases, inl, inr,
}
use wardroom.Relay.{
  echo_request, echo_response, status_request, status_response, heartbeat, drain, close,
  protocol_error, channel_command, channel_result, inventory_command, inventory_result, initiator,
  responder, RelayDirection, RelayRole, RelayWireFrame, Body, sequenced,
}
use wardroom.Relay.Connection.{
  RelayConnectionState, RelayDisconnectReason, Machine, RelayConnectionInput, RelayConnection,
  is_closed, is_handshaking, is_connected, is_draining, is_some_text, peer_direction, fail, Outcome,
  returns, throws,
}
use wardroom.Relay.Connection.Sending.{
  enqueue, write_frame, next_frame, trust_dir, revalidate_peer, sent_or, send_sequenced_frame,
  send_body, close_with, revalidate_peer_trust_or_close,
}
use wardroom.Relay.Connection.Handshaking.{Fresh}
use wardroom.Relay.Connection.Receiving.{
  Handler, Reaction, send_all, settle, optionally, necessarily, respond, react, on_body,
  on_application_frame, on_frame, same_direction,
}

-- An end behind its handshake, that has taken `n` frames of a connection.
pub record Stays (n : ℕ) (id : Option String) (c : RelayConnection) : Type 0 where
  pub incoming : c.incoming_seq ≡ n
  pub same_connection : c.connection_id ≡ id
  pub awake : is_handshaking c.state ≡ false
  pub sound : c.destroyed ≡ is_closed c.state

-- A call that returns or throws.
abbrev pub Leaves : ℕ → Option String → Outcome → Type 0
Leaves n id (returns c) = Stays n id c
Leaves n id (throws c) = Stays n id c

fail-Stays :
    {n : ℕ} {id : Option String} (r : RelayDisconnectReason) {c : RelayConnection}
    → Stays n id c
    → Stays n id (fail r c)
unfolding fail
fail-Stays r s = ground arith

module _ (m : Machine) (input : RelayConnectionInput) where
  enqueue-Stays :
      {n : ℕ} {id : Option String} (f : RelayWireFrame) {c : RelayConnection}
      → Stays n id c
      → Stays n id (enqueue m input f c)
  unfolding enqueue fail
  enqueue-Stays f s = ground arith

  write_frame-Stays :
      {n : ℕ} {id : Option String} (f : RelayWireFrame) {c : RelayConnection}
      → Stays n id c
      → Stays n id (write_frame m input f c)
  unfolding write_frame enqueue fail
  write_frame-Stays f s = ground arith

  send_sequenced_frame-Stays :
      {n : ℕ} {id : Option String} (b : Body) {c c' : RelayConnection}
      → Stays n id c
      → send_sequenced_frame m input b c ≡ some c'
      → Stays n id c'
  unfolding send_sequenced_frame
  send_sequenced_frame-Stays b {c} s e = ground (
    arith,
    write_frame-Stays (next_frame m input b c) {c = record c { outgoing_seq = c.outgoing_seq + 1 }}
        (record {
          incoming = s.incoming;
          same_connection = s.same_connection;
          awake = s.awake;
          sound = s.sound;
        }),
  )

  close_with-Stays :
      {n : ℕ} {id : Option String} (r : RelayDisconnectReason) (message : String)
      {c : RelayConnection}
      → Stays n id c
      → Stays n id (close_with m input r message c)
  unfolding close_with
  close_with-Stays {n} {id} r message {c} s =
      let sent : Stays n id (sent_or m input c (send_sequenced_frame m input (close message) c)) =
        elim (Option-cases (send_sequenced_frame m input (close message) c)) [
          | inl e ↦ rw e s
          | inr (c', e) ↦ rw e (send_sequenced_frame-Stays (close message) s e)
        ] in
      elim (Bool-cases (is_closed c.state)) [
        | inl e ↦ rw e s
        | inr e ↦ elim (Bool-cases (is_some_text c.connection_id)) [
          | inl k ↦ rw (e, k) (fail-Stays r sent)
          | inr k ↦ rw (e, k) (fail-Stays r s)
        ]
      ]

  revalidate_peer-Stays :
      {n : ℕ} {id : Option String} (now : ℕ) (peer : Option String) {c : RelayConnection}
      → Stays n id c
      → Stays n id (revalidate_peer m input now peer c)
  unfolding revalidate_peer
  revalidate_peer-Stays now none s = s
  revalidate_peer-Stays now (some peer) {c} s =
      elim (Option-cases (m.active_trust now peer (trust_dir m input c))) [
        | inl k ↦ rw (k, revalidate_peer) (close_with-Stays _ _ s)
        | inr (trust, k) ↦ rw (k, revalidate_peer) s
      ]

  revalidate-Stays :
      {n : ℕ} {id : Option String} (now : ℕ) {c : RelayConnection}
      → Stays n id c
      → Stays n id (revalidate_peer_trust_or_close m input now c)
  unfolding revalidate_peer_trust_or_close
  revalidate-Stays now {c} s = revalidate_peer-Stays now c.peer_authority_id s

  send_body-Stays :
      {n : ℕ} {id : Option String} (b : Body) {c c' : RelayConnection}
      → Stays n id c
      → send_body m input b c ≡ some c'
      → Stays n id c'
  unfolding send_body
  send_body-Stays b {c} {c'} s e = ground (arith, send_sequenced_frame-Stays b {c = c} {c' = c'} s)

  module _ (handler : Handler) where
    send_all-Stays :
        {n : ℕ} {id : Option String} (bs : List Body) (c : RelayConnection)
        → Stays n id c
        → Leaves n id (send_all m input handler bs c)
    unfolding send_all
    send_all-Stays [] c s = s
    send_all-Stays (b ∷ bs) c s = elim (Option-cases (send_body m input b c)) [
      | inl e ↦ rw (e, Leaves) s
      | inr (c', e) ↦ rw (e, Leaves) (send_all-Stays bs c' (send_body-Stays b s e))
    ]

    settle-Stays :
        {n : ℕ} {id : Option String} (threw : Bool) (o : Outcome)
        → Leaves n id o
        → Stays n id (settle m input handler threw o)
    settle-Stays threw (throws c) s = fail-Stays _ s
    settle-Stays true (returns c) s = fail-Stays _ s
    settle-Stays false (returns c) s = s

    react-Stays :
        {n : ℕ} {id : Option String} (r : Reaction) {c : RelayConnection}
        → Stays n id c
        → Stays n id (react m input handler r c)
    unfolding react
    react-Stays r {c} s = settle-Stays r.threw _ (send_all-Stays r.sends c s)

    optionally-Stays :
        {n : ℕ} {id : Option String} (h : Option (Body → Reaction)) (b : Body) {c : RelayConnection}
        → Stays n id c
        → Stays n id (optionally m input handler h b c)
    optionally-Stays none b s = s
    optionally-Stays (some h) b s = react-Stays (h b) s

    necessarily-Stays :
        {n : ℕ} {id : Option String} (h : Option (Body → Reaction)) (b : Body) {c : RelayConnection}
        → Stays n id c
        → Stays n id (necessarily m input handler h b c)
    necessarily-Stays none b s = fail-Stays _ s
    necessarily-Stays (some h) b s = react-Stays (h b) s

    respond-Stays :
        {n : ℕ} {id : Option String} (role : RelayRole) (b : Body) {c : RelayConnection}
        → Stays n id c
        → Leaves n id (respond m input handler role b c)
    respond-Stays initiator b s = fail-Stays _ s
    respond-Stays responder b {c} s = elim (Option-cases (send_sequenced_frame m input b c)) [
      | inl e ↦ rw (e, Leaves) s
      | inr (c', e) ↦ rw (e, Leaves) (send_sequenced_frame-Stays b s e)
    ]

    pub on_body-Stays :
        {n : ℕ} {id : Option String} (now : ℕ) (b : Body) {c : RelayConnection}
        → Stays n id c
        → Leaves n id (on_body m input handler now b c)
    unfolding on_body
    on_body-Stays now (echo_request payload) s = respond-Stays input.role _ s
    on_body-Stays now (echo_response payload) s = ground arith
    on_body-Stays now status_request s = respond-Stays input.role _ s
    on_body-Stays now (status_response status) s = ground arith
    on_body-Stays now heartbeat {c} s =
        revalidate-Stays now {c = record c { last_heartbeat_received_at = some now }} (ground arith)
    on_body-Stays now drain s = close_with-Stays _ _ s
    on_body-Stays now (close reason) s = fail-Stays _ s
    on_body-Stays now (protocol_error code message) s = fail-Stays _ s
    on_body-Stays now (channel_command _ _ _ _ _) s = necessarily-Stays handler.handle_channel _ s
    on_body-Stays now (channel_result _ _ _ _ _) s = necessarily-Stays handler.handle_channel _ s
    on_body-Stays now (inventory_command _ _ _ _ _ _) s =
        necessarily-Stays handler.handle_inventory _ s
    on_body-Stays now (inventory_result _ _ _) s = necessarily-Stays handler.handle_inventory _ s
    on_body-Stays now _ s = optionally-Stays handler.handle_terminal _ s

    -- Frames that arrive one by one, as the loop over the lines takes them.
    unfoldable pub on_frames : ℕ → Fresh → List RelayWireFrame → RelayConnection → Outcome
    on_frames now fresh [] c = returns c
    on_frames now fresh (f ∷ fs) c =
        if c.destroyed then returns c else elim (on_frame m input handler now fresh f c) [
          | throws c' ↦ throws c'
          | returns c' ↦ on_frames now fresh fs c'
        ]

    -- Frames of one connection and one direction, with the numbers from `n + 1` on.
    abbrev pub Consecutive : ℕ → Option String → RelayDirection → List RelayWireFrame → Type 0
    Consecutive n id direction [] = Unit
    Consecutive n id direction (sequenced i d seq b ∷ fs) =
        (some i ≡ id) × (d ≡ direction) × (seq ≡ n + 1) × Consecutive (n + 1) id direction fs
    Consecutive n id direction (f ∷ fs) = ⊥

-- ===== src/Relay/Connection/Sending.antt =====
-- What an end sends: the queue for a slow stream, the numbers of frames, the heartbeat and the
-- graceful end, in roomsd/src/federation/relay-connection.ts.
use wardroom.Base.{
  ℕ, ◌+◌, String, Bool, ◌&&◌, ◌||◌, Option, none, some, List, [], ◌∷◌, ◌++◌, if◌then◌else◌, ltb,
  leb, ◌-◌, length,
}
use wardroom.Relay.{Body, RelayWireFrame, sequenced, heartbeat, drain, close}
use wardroom.Relay.Reading.{utf8_length, relay_max_frame_bytes}
use wardroom.Relay.Connection.{
  draining, RelayDisconnectReason, graceful_close, peer_trust_revoked, queue_overflow, Machine,
  RelayConnectionInput, RelayConnection, own_direction, is_closed, is_connected, is_draining,
  is_initiator, dir_of, is_some_text, or_empty, fail, Outcome, returns, throws, outcome_of,
}

module _ (m : Machine) (input : RelayConnectionInput) where
  -- `line.length`, with the newline of the line.
  abbrev pub size_of : RelayWireFrame → ℕ
  size_of f = length (m.line_of f) + 1

  unfoldable pub enqueue : RelayWireFrame → RelayConnection → RelayConnection
  enqueue f c =
      if ltb input.max_queued_frames (length c.outgoing_queue + 1)
        || ltb input.max_queued_bytes (c.queued_bytes + size_of f)
      then fail queue_overflow c
      else record c {
        outgoing_queue = c.outgoing_queue ++ f ∷ [];
        queued_bytes = c.queued_bytes + size_of f;
      }

  abbrev pub written_to : RelayWireFrame → RelayConnection → RelayConnection
  written_to f c = record c { written = c.written ++ f ∷ [] }

  write_behind : RelayWireFrame → RelayConnection → List RelayWireFrame → RelayConnection
  write_behind f c (_ ∷ _) = enqueue f c
  write_behind f c [] =
      if m.accepts (c.written ++ f ∷ []) then written_to f c else enqueue f (written_to f c)

  unfoldable pub write_frame : RelayWireFrame → RelayConnection → RelayConnection
  unfolding write_behind
  write_frame f c = if c.destroyed then c else write_behind f c c.outgoing_queue

  -- `encodeRelayFrame`: whether it returns.
  abbrev pub encodes : RelayWireFrame → Bool
  encodes f = leb (utf8_length (m.line_of f)) relay_max_frame_bytes

  -- The frame that `sendSequencedFrame` makes of a body.
  abbrev pub next_frame : Body → RelayConnection → RelayWireFrame
  next_frame body c =
      sequenced (or_empty c.connection_id) (own_direction input.role) (c.outgoing_seq + 1) body

  -- `sendSequencedFrame`; `none` is a thrown error, before anything changes.
  unfoldable pub send_sequenced_frame : Body → RelayConnection → Option RelayConnection
  send_sequenced_frame body c =
      if encodes (next_frame body c)
      then some (write_frame (next_frame body c) (record c { outgoing_seq = c.outgoing_seq + 1 }))
      else none

  abbrev pub sent_or : RelayConnection → Option RelayConnection → RelayConnection
  sent_or c none = c
  sent_or c (some c') = c'

  -- `close`: the frame is a best effort.
  unfoldable pub close_with :
      RelayDisconnectReason → (message : String) → RelayConnection → RelayConnection
  close_with reason message c =
      if is_closed c.state
      then c
      else fail reason (
          if is_some_text c.connection_id
          then sent_or c (send_sequenced_frame (close message) c)
          else c)

  -- `flushQueue`: one line of the queue, and the others while the stream accepts them.
  flush_from : List RelayWireFrame → RelayConnection → RelayConnection
  flush_from [] c = record c { outgoing_queue = [] }
  flush_from (f ∷ fs) c =
      let after = record c {
        outgoing_queue = fs;
        queued_bytes = c.queued_bytes - size_of f;
        written = c.written ++ f ∷ [];
      } in
      let rest = flush_from fs after in if m.accepts (c.written ++ f ∷ []) then rest else after

  unfoldable pub flush_queue : RelayConnection → RelayConnection
  unfolding flush_from
  flush_queue c = flush_from c.outgoing_queue c

  -- The requests of an application; only the initiator of a connection makes them.
  unfoldable pub send_request : Body → RelayConnection → Option RelayConnection
  send_request body c =
      if is_initiator input.role && is_connected c.state then send_sequenced_frame body c else none

  -- `sendTerminal`, `sendChannel` and `sendInventory`
  unfoldable pub send_body : Body → RelayConnection → Option RelayConnection
  send_body body c =
      if is_connected c.state || is_draining c.state then send_sequenced_frame body c else none

  -- The directory in which the end looks its peers up.
  abbrev pub trust_dir : RelayConnection → String
  trust_dir c = dir_of input.role input.local_state_dir c.resolved_remote_state_dir

  unfoldable pub revalidate_peer : ℕ → Option String → RelayConnection → RelayConnection
  revalidate_peer now none c = c
  revalidate_peer now (some peer) c = elim (m.active_trust now peer (trust_dir c)) [
    | none ↦
        close_with peer_trust_revoked
          "peer trust is no longer active (revoked or not yet re-established)" c
    | some trust ↦ c
  ]

  -- `revalidatePeerTrustOrClose`
  unfoldable pub revalidate_peer_trust_or_close : ℕ → RelayConnection → RelayConnection
  unfolding revalidate_peer
  revalidate_peer_trust_or_close now c = revalidate_peer now c.peer_authority_id c

  abbrev then_heartbeat : ℕ → RelayConnection → Option RelayConnection → Outcome
  then_heartbeat now before none = throws before
  then_heartbeat now before (some c) =
      returns (revalidate_peer_trust_or_close now (record c { last_heartbeat_sent_at = some now }))

  unfoldable pub send_heartbeat : ℕ → RelayConnection → Outcome
  send_heartbeat now c =
      if is_connected c.state || is_draining c.state
      then then_heartbeat now c (send_sequenced_frame heartbeat c)
      else returns c

  -- `drain`, and the timer that it starts.
  unfoldable pub start_drain : RelayConnection → Outcome
  start_drain c =
      let c' = record c { state = draining } in
      if is_connected c.state then outcome_of c' (send_sequenced_frame drain c') else returns c

  unfoldable pub drain_elapsed : RelayConnection → RelayConnection
  drain_elapsed c =
      if is_draining c.state then close_with graceful_close "drain grace period elapsed" c else c

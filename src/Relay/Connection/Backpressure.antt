-- ===== src/Relay/Connection/Backpressure.antt =====
-- A frame that is written while the stream is full: `writeFrame` and `flushQueue` in
-- roomsd/src/federation/relay-connection.ts, and `onApplicationFrame` at the other end.
use wardroom.Base.{◌+◌, ◌≤◌, ◌≡◌, true, false, some, [], ◌∷◌, ◌++◌, arith, append_assoc}
use wardroom.Relay.{Body}
use wardroom.Relay.Connection.{Machine, RelayConnectionInput, RelayConnection}
use wardroom.Relay.Connection.Sending.{
  size_of, encodes, next_frame, enqueue, write_frame, send_sequenced_frame, flush_queue,
}

module _ (m : Machine) (input : RelayConnectionInput) where
  -- A frame for which the stream answers that it is full stands twice in what was written, as soon
  -- as the queue is flushed.
  pub flush_queue-send_sequenced_frame :
      (b : Body) (c : RelayConnection)
      → c.destroyed ≡ false
      → c.outgoing_queue ≡ []
      → encodes m input (next_frame m input b c) ≡ true
      → 1 ≤ input.max_queued_frames
      → c.queued_bytes + size_of m input (next_frame m input b c) ≤ input.max_queued_bytes
      → m.accepts (c.written ++ next_frame m input b c ∷ []) ≡ false
      → (c' : RelayConnection) × (send_sequenced_frame m input b c ≡ some c')
        × ((flush_queue m input c').written
            ≡ c.written ++ next_frame m input b c ∷ next_frame m input b c ∷ [])
  unfolding send_sequenced_frame write_frame enqueue flush_queue
  flush_queue-send_sequenced_frame b c live empty fits room bytes full = (
    record c {
      outgoing_seq = c.outgoing_seq + 1;
      written = c.written ++ next_frame m input b c ∷ [];
      outgoing_queue = next_frame m input b c ∷ [];
      queued_bytes = c.queued_bytes + size_of m input (next_frame m input b c);
    },
    ground arith,
    ground
        (arith, append_assoc c.written (next_frame m input b c ∷ []) (next_frame m input b c ∷ [])),
  )

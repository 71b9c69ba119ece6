-- ===== src/Relay/Connection/Completing.antt =====
-- How a handshake completes between two machines: `start`, `onHandshakeInit` and `onHandshakeAccept` of
-- roomsd/src/federation/relay-connection.ts.
pub mod Knowing
use wardroom.Base.{ℕ, ◌≡◌, String, true, false, none, some, List, [], ◌∷◌, ◌++◌, ===_refl}
use wardroom.Relay.{
  RelayWireFrame, handshake_init, handshake_accept, RelayHandshakeInit, RelayHandshakeAccept,
}
use wardroom.Relay.Connection.{
  Transcript, Machine, RelayConnectionInput, RelayConnection, handshaking, connected,
}
use wardroom.Relay.Connection.Handshaking.{
  init_transcript_of, accept_transcript_of, echoes, accept_fault,
}

-- An end of a connection that was made and has not done anything since, with a stream that takes a frame.
pub record IsFresh (m : Machine) (f : RelayWireFrame) (c : RelayConnection) : Type 0 where
  pub waiting : c.state ≡ handshaking
  pub alive : c.destroyed ≡ false
  pub clear : c.outgoing_queue ≡ []
  pub takes : m.accepts (c.written ++ f ∷ []) ≡ true

-- An end that is connected, by an id and to a peer, with one frame written after others.
abbrev pub IsUp :
    (id peer : String) → List RelayWireFrame → RelayWireFrame → RelayConnection → Type 0
IsUp id peer before f c =
    (c.state ≡ connected)
    × (c.destroyed ≡ false)
    × (c.connection_id ≡ some id)
    × (c.peer_authority_id ≡ some peer)
    × (c.written ≡ before ++ f ∷ [])

module _ (here there : Machine) (dialing listening : RelayConnectionInput) where
  -- An end that has offered an init.
  abbrev dialed_from : RelayHandshakeInit → RelayConnection → RelayConnection
  dialed_from i c = record c {
    connection_id = some i.connection_id;
    peer_authority_id = some i.responder_authority_id;
    pending_init = some i;
    written = c.written ++ handshake_init i ∷ [];
  }

  -- An end that has answered an init.
  abbrev answered_from :
      ℕ
      → (own dir : String) → RelayHandshakeInit
      → RelayHandshakeAccept
      → RelayConnection
      → RelayConnection
  answered_from later own dir i a d = record d {
    state = connected;
    connection_id = some i.connection_id;
    resolved_remote_state_dir = some dir;
    negotiated_heartbeat_interval_ms = i.heartbeat_interval_ms;
    own_authority_id = some own;
    peer_authority_id = some i.initiator_authority_id;
    connected_at = some later;
    last_any_received_at = later;
    written = d.written ++ handshake_accept a ∷ [];
  }

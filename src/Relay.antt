-- ===== src/Relay.antt =====
-- The frames of a relay connection: roomsd/src/federation/relay-protocol.ts.
pub mod Fields
pub mod Bodies
pub mod Terminal
pub mod Handshake
pub mod Parsing
pub mod Reading
pub mod Connection
mod Tests
use wardroom.Base.{ℕ, String, Bool, Option}
use wardroom.Json.{Value}

pub data RelayDirection : Type 0 where
  initiator_to_responder responder_to_initiator : RelayDirection

pub data RelayRole : Type 0 where
  initiator responder : RelayRole

-- A transport policy is kept as the value that was validated.
pub record RelayHandshakeInit : Type 0 where
  pub connection_id : String
  pub initiator_authority_id : String
  pub initiator_fingerprint : String
  pub initiator_public_key_spki_b64 : String
  pub initiator_transport_policy : Value
  pub responder_authority_id : String
  pub state_dir : Option String
  pub heartbeat_interval_ms : Option ℕ
  pub nonce : String
  pub issued_at : String
  pub expires_at : String
  pub signature : String

pub record RelayHandshakeAccept : Type 0 where
  pub connection_id : String
  pub initiator_authority_id : String
  pub initiator_fingerprint : String
  pub initiator_public_key_spki_b64 : String
  pub initiator_transport_policy : Value
  pub responder_authority_id : String
  pub responder_fingerprint : String
  pub responder_public_key_spki_b64 : String
  pub responder_transport_policy : Value
  pub initiator_nonce : String
  pub responder_nonce : String
  pub issued_at : String
  pub expires_at : String
  pub signature : String

pub record RelayHandshakeReject : Type 0 where
  pub connection_id : String
  pub code : String
  pub message : String

pub record RelayPeerStatus : Type 0 where
  pub connection_id : String
  pub authority_id : String
  pub peer_authority_id : String
  pub role : RelayRole
  pub connected_at : String
  pub uptime_ms : ℕ

-- The runtime that terminal traffic is about.
pub record TerminalScope : Type 0 where
  pub home_authority_id : String
  pub session_id : String
  pub runtime_id : String
  pub generation : ℕ

-- What the frames hold beside `connectionId`, `direction` and `seq`. The reason of `terminalClose` is
-- not validated, and an operation, a resource or an outcome is tested by the text that `String` gives
-- and kept as the value that it is.
pub data Body : Type 0 where
  echo_request echo_response : (payload : String) → Body
  status_request heartbeat drain : Body
  status_response : RelayPeerStatus → Body
  close : (reason : String) → Body
  protocol_error : (code message : String) → Body
  channel_command :
      (request_id home_authority_id : String) (operation : Value)
      (actor_session_id payload : String)
      → Body
  channel_result :
      (request_id : String) (ok : Bool) (chunk_index : ℕ) (final : Bool) (payload : String) → Body
  inventory_command :
      (request_id authority_id : String) (resource : Value) (cursor limit : ℕ)
      (include_ended : Bool)
      → Body
  inventory_result : (request_id : String) (ok : Bool) (payload : String) → Body
  terminal_open :
      (stream_id home_authority_id session_id capability mode output_cursor : String) → Body
  terminal_open_ack : (stream_id : String) → TerminalScope → (output_cursor : String) → Body
  terminal_output : (stream_id : String) → TerminalScope → (output_cursor bytes : String) → Body
  terminal_gap : (stream_id : String) → TerminalScope → (replay_from head : String) → Body
  terminal_input :
      (stream_id : String) → TerminalScope → (capability_id input_seq bytes : String) → Body
  terminal_input_ack : (stream_id input_seq : String) → (outcome : Value) → Body
  terminal_resize :
      (stream_id : String) → TerminalScope → (capability_id : String) (columns rows : ℕ) → Body
  terminal_resize_ack : (stream_id : String) → Body
  terminal_detach : (stream_id : String) → TerminalScope → Body
  terminal_close : (stream_id : String) → (reason : Value) → Body

pub data RelayWireFrame : Type 0 where
  handshake_init : RelayHandshakeInit → RelayWireFrame
  handshake_accept : RelayHandshakeAccept → RelayWireFrame
  handshake_reject : RelayHandshakeReject → RelayWireFrame
  sequenced : (connection_id : String) → RelayDirection → (seq : ℕ) → Body → RelayWireFrame

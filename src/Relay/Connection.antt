-- ===== src/Relay/Connection.antt =====
-- One end of a relay connection: `RelayConnection` of roomsd/src/federation/relay-connection.ts, its
-- state, what it sends and how it ends. Timers are events of their own; what `status()` reports and
-- the messages that stay on this machine are left out, and so are errors of the file system.
pub mod Sending
pub mod Handshaking
pub mod Receiving
pub mod Starting
mod Sequence
mod Backpressure
mod Authenticity
mod Completing
mod Tests
use wardroom.Base.{
  ℕ, suc, ◌+◌, String, Bool, true, false, ◌&&◌, ◌||◌, not, Option, none, some, List, [], ◌∷◌, ◌++◌,
  if◌then◌else◌, ltb, leb, ◌-◌, length,
}
use wardroom.Json.{Value}
use wardroom.Federation.{Platform}
use wardroom.Relay.{
  RelayDirection, initiator_to_responder, responder_to_initiator, RelayRole, initiator, responder,
  RelayHandshakeInit, Body, RelayWireFrame, sequenced, echo_request, status_request, heartbeat,
  drain, close,
}
use wardroom.Relay.Reading.{Units, Bytes, utf8_length, relay_max_frame_bytes}

pub data RelayConnectionState : Type 0 where
  handshaking connected draining closed : RelayConnectionState

-- The reasons that this file gives, and one for each way in which a transport ends.
pub data RelayDisconnectReason : Type 0 where
  graceful_close peer_closed peer_drained : RelayDisconnectReason
  child_exited child_signaled child_spawn_failed transport_error : RelayDisconnectReason
  handshake_timeout handshake_rejected handshake_expired malformed_handshake : RelayDisconnectReason
  wrong_destination wrong_peer wrong_connection wrong_direction : RelayDisconnectReason
  key_mismatch peer_not_active peer_trust_mismatch peer_trust_revoked : RelayDisconnectReason
  invalid_signature protocol_downgrade sequence_violation unknown_field : RelayDisconnectReason
  oversize_frame queue_overflow idle_timeout protocol_error : RelayDisconnectReason

-- The part of a peer's record that a connection reads.
pub record PeerTrust : Type 0 where
  pub fingerprint : String
  pub policy_kind : String
  pub transport_policy : Value

-- What a signature of the handshake is made of: the domain of its use and the fields in order.
pub data Transcript : Type 0 where
  init_transcript :
      (connection_id initiator_authority_id initiator_fingerprint initiator_key : String)
      (initiator_policy : Value) (responder_authority_id nonce issued_at expires_at : String)
      → Transcript
  accept_transcript :
      (connection_id initiator_authority_id initiator_fingerprint initiator_key : String)
      (initiator_policy : Value)
      (responder_authority_id responder_fingerprint responder_key : String)
      (responder_policy : Value) (initiator_nonce responder_nonce issued_at expires_at : String)
      → Transcript

pub record Identity : Type 0 where
  pub authority_id : String
  pub public_key : String
  pub sign : Transcript → String

-- The machine that an end runs on: texts of JSON, keys, files and the stream to the other end.
pub record Machine : Type 0 where
  pub platform : Platform
  -- `toString("utf8")` of a buffer.
  pub text_of : Bytes → Units
  -- `parseEnrollmentArtifactJson`, and the message of its error.
  pub parse_json : Units → Option Value
  pub parse_error : Units → String
  -- `JSON.stringify` of a frame.
  pub line_of : RelayWireFrame → Units
  -- The `kind` of a frame.
  pub kind_of : RelayWireFrame → String
  -- What `duplex.write` answers to the last of the lines that were written.
  pub accepts : List RelayWireFrame → Bool
  -- `JSON.stringify` of a transport policy.
  pub policy_text : Value → String
  -- `resolveRoomsStateDir`, of the end's own directory where none is given.
  pub resolve_dir : Option String → Option String
  pub identity_of : (dir : String) → Option Identity
  pub canonical_der : (key : String) → Option Units
  pub key_error : (key : String) → String
  pub fingerprint_for_der : Units → String
  pub verify : (der : Units) → Transcript → (signature : String) → Bool
  -- `readActivePeerTrust`, at a time.
  pub active_trust : (now : ℕ) (peer dir : String) → Option PeerTrust
  pub iso : ℕ → String

pub record RelayConnectionInput : Type 0 where
  pub role : RelayRole
  pub local_state_dir : String
  pub dialed_peer : Option String
  pub remote_state_dir_for_peer : Option String
  pub ttl_seconds : Option ℕ
  pub heartbeat_interval_ms : Option ℕ
  pub max_queued_frames : ℕ
  pub max_queued_bytes : ℕ

-- `written` are the frames that were given to `duplex.write`, in order, and `replies` the bodies that
-- `onEchoReply` and `onStatusReply` were called with.
pub record RelayConnection : Type 0 where
  pub state : RelayConnectionState
  pub connection_id : Option String
  pub own_authority_id : Option String
  pub peer_authority_id : Option String
  pub resolved_remote_state_dir : Option String
  pub negotiated_heartbeat_interval_ms : Option ℕ
  pub connected_at : Option ℕ
  pub outgoing_seq : ℕ
  pub incoming_seq : ℕ
  pub last_heartbeat_sent_at : Option ℕ
  pub last_heartbeat_received_at : Option ℕ
  pub last_any_received_at : ℕ
  pub disconnect_reason : Option RelayDisconnectReason
  pub pending_init : Option RelayHandshakeInit
  pub outgoing_queue : List RelayWireFrame
  pub queued_bytes : ℕ
  pub destroyed : Bool
  pub buffer : Units
  pub written : List RelayWireFrame
  pub replies : List Body

abbrev pub own_direction : RelayRole → RelayDirection
own_direction initiator = initiator_to_responder
own_direction responder = responder_to_initiator

abbrev pub peer_direction : RelayRole → RelayDirection
peer_direction initiator = responder_to_initiator
peer_direction responder = initiator_to_responder

abbrev pub is_closed : RelayConnectionState → Bool
is_closed closed = true
is_closed _ = false

abbrev pub is_connected : RelayConnectionState → Bool
is_connected connected = true
is_connected _ = false

abbrev pub is_draining : RelayConnectionState → Bool
is_draining draining = true
is_draining _ = false

abbrev pub is_handshaking : RelayConnectionState → Bool
is_handshaking handshaking = true
is_handshaking _ = false

abbrev pub is_initiator : RelayRole → Bool
is_initiator initiator = true
is_initiator responder = false

abbrev pub dir_of : RelayRole → String → Option String → String
dir_of initiator own remote = own
dir_of responder own none = own
dir_of responder own (some remote) = remote

abbrev pub is_some_text : Option String → Bool
is_some_text none = false
is_some_text (some s) = true

abbrev pub or_empty : Option String → String
or_empty none = ""
or_empty (some s) = s

unfoldable pub fail : RelayDisconnectReason → RelayConnection → RelayConnection
fail reason c =
    if is_closed c.state
    then c
    else record c { state = closed; disconnect_reason = some reason; destroyed = true }

-- Whether a call returns or lets an exception out, with what it left behind.
pub data Outcome : Type 0 where
  returns throws : RelayConnection → Outcome

abbrev pub outcome_of : RelayConnection → Option RelayConnection → Outcome
outcome_of c none = throws c
outcome_of c (some c') = returns c'

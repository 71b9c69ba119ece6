-- ===== src/Relay/Parsing.antt =====
-- `parseRelayFrame` of roomsd/src/federation/relay-protocol.ts, from the value that the line is parsed
-- to. `now` is the time at which transport policies are validated.
pub mod Held
pub mod Bounds
mod Bodies
mod Handshakes
pub mod Accepted
use wardroom.Base.{
  ℕ, String, Bool, true, false, not, Option, none, some, List, [], ◌∷◌, ◌++◌, if◌then◌else◌, ◌===◌,
}
use wardroom.Json.{Value, text, array, object, Fields, get}
use wardroom.Federation.{Platform}
use wardroom.Federation.Policy.{record_of}
use wardroom.Relay.{
  RelayHandshakeInit, RelayHandshakeAccept, RelayHandshakeReject, RelayPeerStatus, TerminalScope,
  Body, RelayWireFrame, handshake_init, handshake_accept, handshake_reject, sequenced, echo_request,
  echo_response, status_request, heartbeat, drain, status_response, close, protocol_error,
  channel_command, channel_result, inventory_command, inventory_result, terminal_open,
  terminal_open_ack, terminal_output, terminal_gap, terminal_input, terminal_input_ack,
  terminal_resize, terminal_resize_ack, terminal_detach, terminal_close,
}
use wardroom.Relay.Fields.{
  ◌>>=◌, ◌>>◌, guard, assert_exact_keys, str, bounded_str, authority_field, fingerprint_field,
  base64_field, nonce_field, connection_id_field, bounded_base64, counter_field, one_of, shown_as,
  whole_between, whole_from, max_safe_integer, boolean_field, direction_field, role_field,
  seq_field, state_dir_field, heartbeat_interval_ms_field, version_field, channel_field,
  timestamp_field, window_field, transport_policy_field,
}
use wardroom.Relay.Bodies.{
  switch, frame_of, validate_inventory_command, validate_inventory_result, validate_channel_command,
  validate_channel_result, validate_protocol_error, validate_status_response,
}
use wardroom.Relay.Terminal.{terminal_cases}
use wardroom.Relay.Handshake.{
  validate_handshake_init, validate_handshake_accept, validate_handshake_reject,
}

-- A `kind` that is no text belongs to no case.
abbrev pub kind_of : Option Value → Option String
kind_of (some (text s)) = some s
kind_of _ = none

module _ (platform : Platform) (now : ℕ) where
  abbrev pub kinds : Fields → List (String × Option RelayWireFrame)
  kinds fs =
      ("relayHandshakeInit", validate_handshake_init platform now fs)
      ∷ ("relayHandshakeAccept", validate_handshake_accept platform now fs)
      ∷ ("relayHandshakeReject", validate_handshake_reject fs)
      ∷ (
        "echoRequest",
        frame_of fs ("payload" ∷ [])
            (bounded_str 4096 (get "payload" fs) >>= λ s. some (echo_request s)),
      )
      ∷ (
        "echoResponse",
        frame_of fs ("payload" ∷ [])
            (bounded_str 4096 (get "payload" fs) >>= λ s. some (echo_response s)),
      )
      ∷ ("statusRequest", frame_of fs [] (some status_request))
      ∷ ("statusResponse", frame_of fs ("status" ∷ []) (validate_status_response platform fs))
      ∷ ("heartbeat", frame_of fs [] (some heartbeat))
      ∷ ("drain", frame_of fs [] (some drain))
      ∷ (
        "close",
        frame_of fs ("reason" ∷ []) (bounded_str 512 (get "reason" fs) >>= λ s. some (close s)),
      )
      ∷ ("protocolError", frame_of fs ("code" ∷ "message" ∷ []) (validate_protocol_error fs))
      ∷ (
        "channelCommand",
        frame_of fs
            ("requestId" ∷ "homeAuthorityId" ∷ "operation" ∷ "actorSessionId" ∷ "payload" ∷ [])
            (validate_channel_command fs),
      )
      ∷ (
        "channelResult",
        frame_of fs ("requestId" ∷ "ok" ∷ "chunkIndex" ∷ "final" ∷ "payload" ∷ [])
            (validate_channel_result fs),
      )
      ∷ (
        "inventoryCommand",
        frame_of fs
            ("requestId" ∷ "authorityId" ∷ "resource" ∷ "cursor" ∷ "limit" ∷ "includeEnded" ∷ [])
            (validate_inventory_command fs),
      )
      ∷ (
        "inventoryResult",
        frame_of fs ("requestId" ∷ "ok" ∷ "payload" ∷ []) (validate_inventory_result fs),
      )
      ∷ terminal_cases fs

  -- `parseRelayFrame`, behind the parser of JSON.
  unfoldable pub parse_relay_record : Value → Option RelayWireFrame
  parse_relay_record v = do
    fs ← record_of (some v)
    kind ← kind_of (get "kind" fs)
    switch kind (kinds fs)

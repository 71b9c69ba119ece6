-- ===== src/Relay/Parsing/Bodies.antt =====
-- Every body that is accepted is bounded: the validators of the kinds of frames in
-- roomsd/src/federation/relay-protocol.ts.
use wardroom.Base.{[], ◌∷◌, arith}
use wardroom.Json.{Fields, get}
use wardroom.Federation.{Platform}
use wardroom.Federation.Policy.{record_of}
use wardroom.Relay.Fields.{max_safe_integer}
use wardroom.Relay.Bodies.{
  peer_status_fields, validate_inventory_command, validate_inventory_result,
  validate_channel_command, validate_channel_result, validate_protocol_error,
  validate_status_response,
}
use wardroom.Relay.Terminal.{
  scope_field, validate_terminal_open, validate_terminal_open_ack, validate_terminal_output,
  validate_terminal_gap, validate_terminal_input, validate_terminal_input_ack,
  validate_terminal_resize, validate_terminal_detach, validate_terminal_close,
}
use wardroom.Relay.Parsing.Held.{
  Holds, >>=-any, bounded_str-Fits, bounded_base64-IsEncoded, counter_field-IsCounter,
  authority_field-Passes, whole_between-Within, whole_from-le, one_of-contains,
  connection_id_field-Passes,
}
use wardroom.Relay.Parsing.Bounds.{IsScope, IsStatus, IsBoundedBody}

scope_field-IsScope : (fs : Fields) → Holds IsScope (scope_field fs)
unfolding scope_field
scope_field-IsScope fs = ground (
  arith,
  authority_field-Passes (get "homeAuthorityId" fs),
  bounded_str-Fits 256 (get "sessionId" fs),
  bounded_str-Fits 256 (get "runtimeId" fs),
  whole_from-le 1 (get "generation" fs),
)

pub validate_inventory_result-IsBounded :
    (fs : Fields) → Holds IsBoundedBody (validate_inventory_result fs)
unfolding validate_inventory_result
validate_inventory_result-IsBounded fs = ground (
  arith,
  bounded_str-Fits 128 (get "requestId" fs),
  bounded_base64-IsEncoded 8192 (get "payload" fs),
)

pub validate_channel_command-IsBounded :
    (fs : Fields) → Holds IsBoundedBody (validate_channel_command fs)
unfolding validate_channel_command
validate_channel_command-IsBounded fs = ground (
  arith,
  bounded_str-Fits 128 (get "requestId" fs),
  authority_field-Passes (get "homeAuthorityId" fs),
  bounded_str-Fits 512 (get "actorSessionId" fs),
  bounded_base64-IsEncoded 8192 (get "payload" fs),
)

pub validate_channel_result-IsBounded :
    (fs : Fields) → Holds IsBoundedBody (validate_channel_result fs)
unfolding validate_channel_result
validate_channel_result-IsBounded fs = ground (
  arith,
  bounded_str-Fits 128 (get "requestId" fs),
  whole_between-Within 0 max_safe_integer (get "chunkIndex" fs),
  bounded_base64-IsEncoded 8192 (get "payload" fs),
)

pub validate_inventory_command-IsBounded :
    (fs : Fields) → Holds IsBoundedBody (validate_inventory_command fs)
unfolding validate_inventory_command
validate_inventory_command-IsBounded fs = ground (
  arith,
  whole_between-Within 0 max_safe_integer (get "cursor" fs),
  whole_between-Within 1 20 (get "limit" fs),
  bounded_str-Fits 128 (get "requestId" fs),
  authority_field-Passes (get "authorityId" fs),
)

pub validate_protocol_error-IsBounded :
    (fs : Fields) → Holds IsBoundedBody (validate_protocol_error fs)
unfolding validate_protocol_error
validate_protocol_error-IsBounded fs =
    ground (arith, bounded_str-Fits 128 (get "code" fs), bounded_str-Fits 512 (get "message" fs))

pub validate_terminal_open-IsBounded :
    (fs : Fields) → Holds IsBoundedBody (validate_terminal_open fs)
unfolding validate_terminal_open
validate_terminal_open-IsBounded fs = ground (
  arith,
  bounded_str-Fits 128 (get "streamId" fs),
  authority_field-Passes (get "homeAuthorityId" fs),
  bounded_str-Fits 256 (get "sessionId" fs),
  counter_field-IsCounter (get "outputCursor" fs),
  bounded_base64-IsEncoded 8192 (get "capability" fs),
  one_of-contains ("observe" ∷ "controller" ∷ []) (get "mode" fs),
)

pub validate_terminal_open_ack-IsBounded :
    (fs : Fields) → Holds IsBoundedBody (validate_terminal_open_ack fs)
unfolding validate_terminal_open_ack
validate_terminal_open_ack-IsBounded fs = ground (
  arith,
  bounded_str-Fits 128 (get "streamId" fs),
  scope_field-IsScope fs,
  counter_field-IsCounter (get "outputCursor" fs),
)

pub validate_terminal_output-IsBounded :
    (fs : Fields) → Holds IsBoundedBody (validate_terminal_output fs)
unfolding validate_terminal_output
validate_terminal_output-IsBounded fs = ground (
  arith,
  bounded_str-Fits 128 (get "streamId" fs),
  scope_field-IsScope fs,
  counter_field-IsCounter (get "outputCursor" fs),
  bounded_base64-IsEncoded 8192 (get "bytes" fs),
)

pub validate_terminal_gap-IsBounded : (fs : Fields) → Holds IsBoundedBody (validate_terminal_gap fs)
unfolding validate_terminal_gap
validate_terminal_gap-IsBounded fs = ground (
  arith,
  bounded_str-Fits 128 (get "streamId" fs),
  scope_field-IsScope fs,
  counter_field-IsCounter (get "replayFrom" fs),
  counter_field-IsCounter (get "head" fs),
)

pub validate_terminal_input-IsBounded :
    (fs : Fields) → Holds IsBoundedBody (validate_terminal_input fs)
unfolding validate_terminal_input
validate_terminal_input-IsBounded fs = ground (
  arith,
  bounded_str-Fits 128 (get "streamId" fs),
  scope_field-IsScope fs,
  bounded_str-Fits 256 (get "capabilityId" fs),
  counter_field-IsCounter (get "inputSeq" fs),
  bounded_base64-IsEncoded 8192 (get "bytes" fs),
)

pub validate_terminal_input_ack-IsBounded :
    (fs : Fields) → Holds IsBoundedBody (validate_terminal_input_ack fs)
unfolding validate_terminal_input_ack
validate_terminal_input_ack-IsBounded fs =
    ground
      (arith, bounded_str-Fits 128 (get "streamId" fs), counter_field-IsCounter (get "inputSeq" fs))

pub validate_terminal_resize-IsBounded :
    (fs : Fields) → Holds IsBoundedBody (validate_terminal_resize fs)
unfolding validate_terminal_resize
validate_terminal_resize-IsBounded fs = ground (
  arith,
  bounded_str-Fits 128 (get "streamId" fs),
  scope_field-IsScope fs,
  bounded_str-Fits 256 (get "capabilityId" fs),
  whole_between-Within 1 1000 (get "columns" fs),
  whole_between-Within 1 1000 (get "rows" fs),
)

pub validate_terminal_detach-IsBounded :
    (fs : Fields) → Holds IsBoundedBody (validate_terminal_detach fs)
unfolding validate_terminal_detach
validate_terminal_detach-IsBounded fs =
    ground (arith, bounded_str-Fits 128 (get "streamId" fs), scope_field-IsScope fs)

pub validate_terminal_close-IsBounded :
    (fs : Fields) → Holds IsBoundedBody (validate_terminal_close fs)
unfolding validate_terminal_close
validate_terminal_close-IsBounded fs = ground (arith, bounded_str-Fits 128 (get "streamId" fs))

module _ (platform : Platform) where
  peer_status_fields-IsStatus : (fs : Fields) → Holds IsStatus (peer_status_fields platform fs)
  unfolding peer_status_fields
  peer_status_fields-IsStatus fs = ground (
    arith,
    connection_id_field-Passes (get "connectionId" fs),
    authority_field-Passes (get "authorityId" fs),
    authority_field-Passes (get "peerAuthorityId" fs),
  )

  pub validate_status_response-IsBounded :
      (fs : Fields) → Holds IsBoundedBody (validate_status_response platform fs)
  unfolding validate_status_response
  validate_status_response-IsBounded fs =
      >>=-any IsBoundedBody (record_of (get "status" fs)) _
        λ status. ground (arith, peer_status_fields-IsStatus status)

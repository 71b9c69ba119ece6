-- ===== src/Relay/Bodies.antt =====
-- The bodies of application, channel and inventory frames: their validators in
-- roomsd/src/federation/relay-protocol.ts.
use wardroom.Base.{if◌then◌else◌, ◌===◌, none, ℕ, String, Option, some, List, [], ◌∷◌}
use wardroom.Json.{Fields, get}
use wardroom.Federation.{Platform}
use wardroom.Federation.Policy.{record_of}
use wardroom.Relay.{
  RelayPeerStatus, Body, RelayWireFrame, sequenced, status_response, protocol_error,
  channel_command, channel_result, inventory_command, inventory_result,
}
use wardroom.Relay.Fields.{
  ◌>>=◌, ◌>>◌, assert_exact_keys, bounded_str, authority_field, connection_id_field, bounded_base64,
  shown_as, whole_between, whole_from, max_safe_integer, boolean_field, direction_field, role_field,
  seq_field, timestamp_field,
}

abbrev pub relay_max_terminal_bytes : ℕ
relay_max_terminal_bytes = 8192

-- The keys of every sequenced frame, with others.
abbrev pub with_common : List String → List String
with_common ks = "kind" ∷ "connectionId" ∷ "direction" ∷ "seq" ∷ ks

-- A sequenced frame: its own fields, and the common ones.
unfoldable pub frame_of : Fields → List String → Option Body → Option RelayWireFrame
frame_of fs ks body = do
  assert_exact_keys fs (with_common ks)
  b ← body
  connection_id ← connection_id_field (get "connectionId" fs)
  direction ← direction_field (get "direction" fs)
  seq ← seq_field (get "seq" fs)
  some (sequenced connection_id direction seq b)

-- A `switch` over texts; what stands under no label throws.
abbrev pub switch : String → List (String × Option RelayWireFrame) → Option RelayWireFrame
switch kind [] = none
switch kind ((label, result) ∷ cases) = if kind === label then result else switch kind cases

abbrev pub resources : List String
resources = "channels" ∷ "sessions" ∷ "providers" ∷ []

abbrev pub operations : List String
operations = "register" ∷ "leave" ∷ "send" ∷ "directSend" ∷ "snapshot" ∷ "messages" ∷ []

unfoldable pub validate_inventory_command : Fields → Option Body
validate_inventory_command fs = do
  resource ← shown_as resources (get "resource" fs)
  cursor ← whole_between 0 max_safe_integer (get "cursor" fs)
  limit ← whole_between 1 20 (get "limit" fs)
  include_ended ← boolean_field (get "includeEnded" fs)
  request_id ← bounded_str 128 (get "requestId" fs)
  authority_id ← authority_field (get "authorityId" fs)
  some (inventory_command request_id authority_id resource cursor limit include_ended)

unfoldable pub validate_inventory_result : Fields → Option Body
validate_inventory_result fs = do
  ok ← boolean_field (get "ok" fs)
  request_id ← bounded_str 128 (get "requestId" fs)
  payload ← bounded_base64 relay_max_terminal_bytes (get "payload" fs)
  some (inventory_result request_id ok payload)

unfoldable pub validate_channel_command : Fields → Option Body
validate_channel_command fs = do
  operation ← shown_as operations (get "operation" fs)
  request_id ← bounded_str 128 (get "requestId" fs)
  home ← authority_field (get "homeAuthorityId" fs)
  actor ← bounded_str 512 (get "actorSessionId" fs)
  payload ← bounded_base64 relay_max_terminal_bytes (get "payload" fs)
  some (channel_command request_id home operation actor payload)

unfoldable pub validate_channel_result : Fields → Option Body
validate_channel_result fs = do
  ok ← boolean_field (get "ok" fs)
  chunk_index ← whole_between 0 max_safe_integer (get "chunkIndex" fs)
  final ← boolean_field (get "final" fs)
  request_id ← bounded_str 128 (get "requestId" fs)
  payload ← bounded_base64 relay_max_terminal_bytes (get "payload" fs)
  some (channel_result request_id ok chunk_index final payload)

unfoldable pub validate_protocol_error : Fields → Option Body
validate_protocol_error fs = do
  code ← bounded_str 128 (get "code" fs)
  message ← bounded_str 512 (get "message" fs)
  some (protocol_error code message)

module _ (platform : Platform) where
  unfoldable pub peer_status_fields : Fields → Option RelayPeerStatus
  peer_status_fields fs = do
    assert_exact_keys fs (
        "connectionId" ∷ "authorityId" ∷ "peerAuthorityId" ∷ "role" ∷ "connectedAt" ∷ "uptimeMs"
        ∷ [])
    connection_id ← connection_id_field (get "connectionId" fs)
    authority_id ← authority_field (get "authorityId" fs)
    peer ← authority_field (get "peerAuthorityId" fs)
    role ← role_field (get "role" fs)
    connected_at ← timestamp_field platform (get "connectedAt" fs)
    uptime_ms ← whole_from 0 (get "uptimeMs" fs)
    some (record {
      connection_id = connection_id;
      authority_id = authority_id;
      peer_authority_id = peer;
      role = role;
      connected_at = connected_at;
      uptime_ms = uptime_ms;
    })

  unfoldable pub validate_status_response : Fields → Option Body
  unfolding peer_status_fields
  validate_status_response fs = do
    status ← record_of (get "status" fs)
    s ← peer_status_fields status
    some (status_response s)

-- ===== src/Relay/Parsing/Bounds.antt =====
-- The bounds that a frame keeps once it is accepted: `parseRelayFrame` of
-- roomsd/src/federation/relay-protocol.ts.
use wardroom.Base.{◌≤◌, String, ◌≡◌, false, some, Option, List, [], ◌∷◌, ◌===◌}
use wardroom.Json.{Fields, get, exact_keys, contains}
use wardroom.Federation.{Platform}
use wardroom.Federation.Patterns.{is_authority_id, is_uuid, is_encoded, is_fingerprint, is_nonce}
use wardroom.Relay.{
  RelayHandshakeInit, RelayHandshakeAccept, RelayHandshakeReject, RelayPeerStatus, TerminalScope,
  Body, RelayWireFrame, handshake_init, handshake_accept, handshake_reject, sequenced, echo_request,
  echo_response, status_request, heartbeat, drain, status_response, close, protocol_error,
  channel_command, channel_result, inventory_command, inventory_result, terminal_open,
  terminal_open_ack, terminal_output, terminal_gap, terminal_input, terminal_input_ack,
  terminal_resize, terminal_resize_ack, terminal_detach, terminal_close,
}
use wardroom.Relay.Fields.{
  guard, seq_field, connection_id_field, direction_field, window_field, max_safe_integer,
  is_safe_remote_path,
}
use wardroom.Relay.Bodies.{frame_of, with_common}
use wardroom.Relay.Parsing.Held.{
  Holds, >>=-Holds, >>=-any, Fits, Within, Passes, IsEncoded, IsCounter, whole_from-le,
  connection_id_field-Passes,
}

abbrev IsAuthority : String → Type 0
IsAuthority s = Passes is_authority_id s

abbrev pub IsScope : TerminalScope → Type 0
IsScope s =
    IsAuthority s.home_authority_id
    × Fits 256 s.session_id
    × Fits 256 s.runtime_id
    × (1 ≤ s.generation)

abbrev pub IsStatus : RelayPeerStatus → Type 0
IsStatus s =
    Passes is_uuid s.connection_id × IsAuthority s.authority_id × IsAuthority s.peer_authority_id

-- What is bounded in the body of a frame: names of authorities, ids, payloads, texts for a reader,
-- counters and numbers. The kinds without a field have no bound.
abbrev pub IsBoundedBody : Body → Type 0
IsBoundedBody (echo_request s) = Fits 4096 s
IsBoundedBody (echo_response s) = Fits 4096 s
IsBoundedBody status_request = Unit
IsBoundedBody (status_response s) = IsStatus s
IsBoundedBody heartbeat = Unit
IsBoundedBody drain = Unit
IsBoundedBody (close s) = Fits 512 s
IsBoundedBody (protocol_error code message) = Fits 128 code × Fits 512 message
IsBoundedBody (channel_command id home op actor payload) =
    Fits 128 id × IsAuthority home × Fits 512 actor × IsEncoded 8192 payload
IsBoundedBody (channel_result id ok i final payload) =
    Fits 128 id × (i ≤ max_safe_integer) × IsEncoded 8192 payload
IsBoundedBody (inventory_command id authority resource cursor limit ended) =
    Fits 128 id × IsAuthority authority × (cursor ≤ max_safe_integer) × Within 1 20 limit
IsBoundedBody (inventory_result id ok payload) = Fits 128 id × IsEncoded 8192 payload
IsBoundedBody (terminal_open stream home session capability mode cursor) =
    Fits 128 stream
    × IsAuthority home
    × Fits 256 session
    × IsEncoded 8192 capability
    × Passes (contains ("observe" ∷ "controller" ∷ [])) mode
    × IsCounter cursor
IsBoundedBody (terminal_open_ack stream scope cursor) =
    Fits 128 stream × IsScope scope × IsCounter cursor
IsBoundedBody (terminal_output stream scope cursor bytes) =
    Fits 128 stream × IsScope scope × IsCounter cursor × IsEncoded 8192 bytes
IsBoundedBody (terminal_gap stream scope replay_from head) =
    Fits 128 stream × IsScope scope × IsCounter replay_from × IsCounter head
IsBoundedBody (terminal_input stream scope capability seq bytes) =
    Fits 128 stream × IsScope scope × Fits 256 capability × IsCounter seq × IsEncoded 8192 bytes
IsBoundedBody (terminal_input_ack stream seq outcome) = Fits 128 stream × IsCounter seq
IsBoundedBody (terminal_resize stream scope capability columns rows) =
    Fits 128 stream
    × IsScope scope
    × Fits 256 capability
    × Within 1 1000 columns
    × Within 1 1000 rows
IsBoundedBody (terminal_resize_ack stream) = Fits 128 stream
IsBoundedBody (terminal_detach stream scope) = Fits 128 stream × IsScope scope
IsBoundedBody (terminal_close stream reason) = Fits 128 stream

abbrev pub IsReject : RelayHandshakeReject → Type 0
IsReject r = Passes is_uuid r.connection_id × Fits 128 r.code × Fits 512 r.message

module _ (platform : Platform) where
  abbrev pub IsInit : RelayHandshakeInit → Type 0
  IsInit i =
      Passes is_uuid i.connection_id
      × IsAuthority i.initiator_authority_id
      × IsAuthority i.responder_authority_id
      × ((i.initiator_authority_id === i.responder_authority_id) ≡ false)
      × Passes is_fingerprint i.initiator_fingerprint
      × Passes is_encoded i.initiator_public_key_spki_b64
      × Holds (Passes is_safe_remote_path) i.state_dir
      × Holds (Within 100 300000) i.heartbeat_interval_ms
      × Passes is_nonce i.nonce
      × (window_field platform i.issued_at i.expires_at ≡ some tt)
      × Passes is_encoded i.signature

  abbrev pub IsAccept : RelayHandshakeAccept → Type 0
  IsAccept a =
      Passes is_uuid a.connection_id
      × IsAuthority a.initiator_authority_id
      × IsAuthority a.responder_authority_id
      × ((a.initiator_authority_id === a.responder_authority_id) ≡ false)
      × Passes is_fingerprint a.initiator_fingerprint
      × Passes is_encoded a.initiator_public_key_spki_b64
      × Passes is_fingerprint a.responder_fingerprint
      × Passes is_encoded a.responder_public_key_spki_b64
      × Passes is_nonce a.initiator_nonce
      × Passes is_nonce a.responder_nonce
      × (window_field platform a.issued_at a.expires_at ≡ some tt)
      × Passes is_encoded a.signature

  -- A sequenced frame has an id of its connection, a number from 1 and a bounded body.
  abbrev pub IsBoundedFrame : RelayWireFrame → Type 0
  IsBoundedFrame (handshake_init i) = IsInit i
  IsBoundedFrame (handshake_accept a) = IsAccept a
  IsBoundedFrame (handshake_reject r) = IsReject r
  IsBoundedFrame (sequenced id direction seq body) =
      Passes is_uuid id × (1 ≤ seq) × IsBoundedBody body

  pub frame_of-IsBounded :
      (fs : Fields) (ks : List String) (body : Option Body)
      → Holds IsBoundedBody body
      → Holds IsBoundedFrame (frame_of fs ks body)
  unfolding frame_of
  frame_of-IsBounded fs ks body h =
      >>=-any IsBoundedFrame (guard (exact_keys fs (with_common ks) [])) _ λ _.
        >>=-Holds IsBoundedBody IsBoundedFrame body _ h λ b bounded.
          >>=-Holds (Passes is_uuid) IsBoundedFrame (connection_id_field (get "connectionId" fs)) _
            (connection_id_field-Passes (get "connectionId" fs))
            λ id is_id. >>=-any IsBoundedFrame (direction_field (get "direction" fs)) _ λ direction.
              >>=-Holds (λ n. 1 ≤ n) IsBoundedFrame (seq_field (get "seq" fs)) _
                (whole_from-le 1 (get "seq" fs)) λ seq from_one. (is_id, from_one, bounded)

-- ===== src/Relay/Connection/Receiving.antt =====
-- What an end does with the frames that arrive: `onData`, `onLine` and `onApplicationFrame` of
-- roomsd/src/federation/relay-connection.ts. A handler is known by the bodies that it sends at once
-- and by whether it throws (its echo and its status return); what it sends later is an event of its
-- own. The clock does not run backwards.
use wardroom.Base.{
  ℕ, ◌+◌, ◌-◌, String, Bool, true, false, not, Option, none, some, List, [], ◌∷◌, if◌then◌else◌,
  ltb, ◌==◌, ◌===◌,
}
use mathlib.Core.List
use wardroom.Relay.{
  RelayDirection, initiator_to_responder, responder_to_initiator, RelayRole, initiator, responder,
  RelayPeerStatus, Body, echo_request, echo_response, status_request, status_response, heartbeat,
  drain, close, protocol_error, channel_command, channel_result, inventory_command,
  inventory_result, RelayWireFrame, sequenced,
}
use wardroom.Relay.Reading.{Units, utf8_length, relay_max_frame_bytes, Bytes, bytes, push}
use wardroom.Relay.Parsing.{parse_relay_record}
use wardroom.Relay.Connection.{
  peer_closed, peer_drained, wrong_direction, sequence_violation, oversize_frame, idle_timeout,
  handshake_timeout, wrong_connection, peer_not_active, protocol_downgrade, RelayDisconnectReason,
  PeerTrust, Identity, Machine, RelayConnectionInput, RelayConnection, RelayConnectionState,
  handshaking, connected, is_handshaking, is_closed, peer_direction, own_direction, or_empty, fail,
  Outcome, returns, throws, outcome_of,
}
use wardroom.Relay.Connection as Ends
use wardroom.Relay.Connection.Sending.{
  send_sequenced_frame, send_body, close_with, revalidate_peer_trust_or_close,
}
use wardroom.Relay.Connection.Handshaking.{
  Fresh, id_or_unknown, reject_handshake, on_handshake_frame,
}

-- A handler of frames: what it sends before it returns, and whether it throws.
pub record Reaction : Type 0 where
  pub sends : List Body
  pub threw : Bool

pub record Handler : Type 0 where
  pub handle_echo : String → String
  pub handle_status : RelayPeerStatus → RelayPeerStatus
  pub handle_terminal : Option (Body → Reaction)
  pub handle_channel : Option (Body → Reaction)
  pub handle_inventory : Option (Body → Reaction)

abbrev pub same_direction : RelayDirection → RelayDirection → Bool
same_direction initiator_to_responder initiator_to_responder = true
same_direction responder_to_initiator responder_to_initiator = true
same_direction _ _ = false

abbrev pub same_id : Option String → String → Bool
same_id none id = false
same_id (some own) id = id === own

abbrev or_zero : Option ℕ → ℕ
or_zero none = 0
or_zero (some n) = n

abbrev pub received : Body → RelayConnection → RelayConnection
received b c = record c { replies = List.◌++◌ c.replies (b ∷ []) }

module _ (m : Machine) (input : RelayConnectionInput) (handler : Handler) where
  -- The frames that a handler sends; one that is refused lets an exception out of the handler.
  unfoldable pub send_all : List Body → RelayConnection → Outcome
  send_all [] c = returns c
  send_all (b ∷ bs) c = elim (send_body m input b c) [ none ↦ throws c | some c' ↦ send_all bs c' ]

  abbrev pub settle : (threw : Bool) → Outcome → RelayConnection
  settle threw (throws c) = fail Ends.protocol_error c
  settle threw (returns c) = if threw then fail Ends.protocol_error c else c

  unfoldable pub react : Reaction → RelayConnection → RelayConnection
  react r c = settle r.threw (send_all r.sends c)

  abbrev pub optionally : Option (Body → Reaction) → Body → RelayConnection → RelayConnection
  optionally none b c = c
  optionally (some h) b c = react (h b) c

  abbrev pub necessarily : Option (Body → Reaction) → Body → RelayConnection → RelayConnection
  necessarily none b c = fail Ends.protocol_error c
  necessarily (some h) b c = react (h b) c

  status_of : ℕ → RelayConnection → RelayPeerStatus
  status_of now c = record {
    connection_id = or_empty c.connection_id;
    authority_id = or_empty c.own_authority_id;
    peer_authority_id = or_empty c.peer_authority_id;
    role = responder;
    connected_at = m.iso (or_zero c.connected_at);
    uptime_ms = now - or_zero c.connected_at;
  }

  abbrev pub respond : RelayRole → Body → RelayConnection → Outcome
  respond initiator b c = returns (fail Ends.protocol_error c)
  respond responder b c = outcome_of c (send_sequenced_frame m input b c)

  -- The `switch` of `onApplicationFrame`.
  unfoldable pub on_body : ℕ → Body → RelayConnection → Outcome
  unfolding status_of
  on_body now (echo_request payload) c =
      respond input.role (echo_response (handler.handle_echo payload)) c
  on_body now (echo_response payload) c = returns (received (echo_response payload) c)
  on_body now status_request c =
      respond input.role (status_response (handler.handle_status (status_of now c))) c
  on_body now (status_response s) c = returns (received (status_response s) c)
  on_body now heartbeat c = returns (
      revalidate_peer_trust_or_close m input now
        (record c { last_heartbeat_received_at = some now }))
  on_body now drain c = returns (close_with m input peer_drained "peer initiated graceful drain" c)
  on_body now (close reason) c = returns (fail peer_closed c)
  on_body now (protocol_error code message) c = returns (fail Ends.protocol_error c)
  on_body now (channel_command id home op actor payload) c =
      returns (necessarily handler.handle_channel (channel_command id home op actor payload) c)
  on_body now (channel_result id ok i final payload) c =
      returns (necessarily handler.handle_channel (channel_result id ok i final payload) c)
  on_body now (inventory_command id authority resource cursor limit ended) c = returns (
      necessarily handler.handle_inventory
        (inventory_command id authority resource cursor limit ended) c)
  on_body now (inventory_result id ok payload) c =
      returns (necessarily handler.handle_inventory (inventory_result id ok payload) c)
  on_body now terminal c = returns (optionally handler.handle_terminal terminal c)

  -- `onApplicationFrame`, of a sequenced frame.
  unfoldable pub on_application_frame :
      ℕ → (connection_id : String) → RelayDirection → (seq : ℕ) → Body → RelayConnection → Outcome
  on_application_frame now id direction seq body c =
      if not (same_id c.connection_id id)
      then returns (fail wrong_connection c)
      else if not (same_direction direction (peer_direction input.role))
      then returns (fail wrong_direction c)
      else if not (seq == c.incoming_seq + 1)
      then returns (fail sequence_violation c)
      else on_body now body (record c { incoming_seq = seq })

  abbrev pub after_handshake : ℕ → RelayWireFrame → RelayConnection → Outcome
  after_handshake now (sequenced id direction seq body) c =
      on_application_frame now id direction seq body c
  after_handshake now f c = returns (fail protocol_downgrade c)

  -- A frame that was parsed.
  unfoldable pub on_frame : ℕ → Fresh → RelayWireFrame → RelayConnection → Outcome
  on_frame now fresh f c =
      let c' = record c { last_any_received_at = now } in
      if is_handshaking c.state
      then on_handshake_frame m input input.role now fresh f c'
      else after_handshake now f c'

  -- `parseRelayFrame`, with the parser of JSON.
  abbrev parsed : ℕ → Units → Option RelayWireFrame
  parsed now line =
      if ltb relay_max_frame_bytes (utf8_length line)
      then none
      else elim (m.parse_json line) [ none ↦ none | some v ↦ parse_relay_record m.platform now v ]

  abbrev malformed : RelayRole → Units → RelayConnection → Outcome
  malformed initiator line c = returns (fail Ends.protocol_error c)
  malformed responder line c =
      if is_handshaking c.state
      then reject_handshake m input (id_or_unknown c.connection_id) "malformedHandshake"
          (m.parse_error line) c
      else returns (fail Ends.protocol_error c)

  abbrev by_parse : ℕ → Fresh → Units → Option RelayWireFrame → RelayConnection → Outcome
  by_parse now fresh line none c = malformed input.role line c
  by_parse now fresh line (some f) c = on_frame now fresh f c

  unfoldable pub on_line : ℕ → Fresh → Units → RelayConnection → Outcome
  on_line now fresh line c = by_parse now fresh line (parsed now line) c

  -- The loop of `onData` over the lines of a chunk.
  unfoldable pub on_lines : ℕ → Fresh → List Units → RelayConnection → Outcome
  on_lines now fresh [] c = returns c
  on_lines now fresh (line ∷ lines) c =
      if c.destroyed then returns c else elim (on_line now fresh line c) [
        | throws c' ↦ throws c'
        | returns c' ↦ on_lines now fresh lines c'
      ]

  abbrev by_push : ℕ → Fresh → Option (List Units × Units) → RelayConnection → Outcome
  by_push now fresh none c = returns (fail oversize_frame c)
  by_push now fresh (some (lines, rest)) c = on_lines now fresh lines (record c { buffer = rest })

  unfoldable pub on_data : ℕ → Fresh → Bytes → RelayConnection → Outcome
  on_data now fresh chunk c =
      if c.destroyed then returns c else by_push now fresh (push m.text_of c.buffer (bytes chunk)) c

-- ===== src/Relay/Connection/Tests.antt =====
-- Two ends on one machine: a handshake, frames in order, and a stream that is full.
mod Meeting
use wardroom.Base.{
  ◌≡◌, ◌≢◌, refl, String, true, false, none, some, List, [], ◌∷◌, arith, leb, length, text_discrete,
  ◌===◌, ◌==◌, if◌then◌else◌,
}
use wardroom.Json.{null}
use wardroom.Federation.{Platform}
use wardroom.Relay.{
  RelayRole, initiator, responder, initiator_to_responder, RelayHandshakeInit, RelayHandshakeAccept,
  RelayWireFrame, sequenced, echo_request, heartbeat,
}
use wardroom.Relay.Reading.{Units, bytes_from}
use wardroom.Relay.Connection.{
  handshaking, connected, PeerTrust, Identity, Machine, RelayConnectionInput, RelayConnection, fail,
  Outcome, returns,
}
use wardroom.Relay.Connection.Sending.{
  encodes, next_frame, enqueue, write_frame, send_sequenced_frame, close_with, flush_queue,
  revalidate_peer, revalidate_peer_trust_or_close,
}
use wardroom.Relay.Connection.Handshaking.{
  Fresh, accept_of, init_transcript_of, accept_transcript_of, init_verdict, answer,
  become_connected, on_handshake_init, accept_fault, on_handshake_accept, reject_handshake,
  on_handshake_frame,
}
use wardroom.Relay.Connection.Receiving.{
  Handler, send_all, react, on_body, on_application_frame, on_frame,
}
use wardroom.Relay.Connection.Sequence.{Stays, on_frames, Consecutive}
use wardroom.Relay.Connection.Sequence.Ordered.{on_frames-Consecutive}
use wardroom.Relay.Connection.Backpressure.{flush_queue-send_sequenced_frame}
use wardroom.Relay.Connection.Authenticity.{
  IsVouched, on_handshake_init-IsVouched, on_handshake_accept-IsVouched,
}

runs : Unit {0}
unfolding text_discrete fail bytes_from enqueue write_frame send_sequenced_frame close_with
    flush_queue revalidate_peer revalidate_peer_trust_or_close init_verdict answer become_connected
    on_handshake_init accept_fault on_handshake_accept reject_handshake on_handshake_frame send_all
    react on_body on_application_frame on_frame on_frames
runs = tt

-- Keys are their own fingerprints; `ab` is the key of the one end and `cd` that of the other.
abbrev platform : Platform
platform = record {
  date = λ s. if s === "later" then some 70000 else some 10000;
  ip_version = λ s. 0;
}

abbrev trusted : PeerTrust
trusted = record { fingerprint = "ab"; policy_kind = "loopbackSsh"; transport_policy = null }

abbrev one_id : String
one_id = "11111111-1111-1111-1111-111111111111"

abbrev here : Identity
here = record { authority_id = "authority-cd"; public_key = "cd"; sign = λ t. "signed" }

-- The stream takes two frames before it is full, and a key of one letter has no canonical form.
abbrev machine : Machine
machine = record {
  platform = platform;
  text_of = λ bs. bs;
  parse_json = λ u. none;
  parse_error = λ u. "no JSON";
  line_of = λ f. b'{' ∷ b'}' ∷ [];
  kind_of = λ f. "frame";
  accepts = λ fs. leb (length fs) 2;
  policy_text = λ v. "null";
  resolve_dir = λ d. some "/rooms";
  identity_of = λ d. some here;
  canonical_der =
      λ k. if k === "ab" then some (1 ∷ []) else if k === "cd" then some (1 ∷ 2 ∷ []) else none;
  key_error = λ k. "no key";
  fingerprint_for_der = λ u. if length u == 1 then "ab" else "cd";
  verify = λ d t s. s === "signed";
  active_trust = λ now peer dir. some trusted;
  iso = λ n. "now";
}

abbrev role_input : RelayRole → RelayConnectionInput
role_input role = record {
  role = role;
  local_state_dir = "/rooms";
  dialed_peer = none;
  remote_state_dir_for_peer = none;
  ttl_seconds = none;
  heartbeat_interval_ms = none;
  max_queued_frames = 4;
  max_queued_bytes = 100;
}

abbrev fresh : Fresh
fresh = record { connection_id = one_id; nonce = "0" }

abbrev idle : RelayConnection
idle = record {
  state = handshaking;
  connection_id = none;
  own_authority_id = none;
  peer_authority_id = none;
  resolved_remote_state_dir = none;
  negotiated_heartbeat_interval_ms = none;
  connected_at = none;
  outgoing_seq = 0;
  incoming_seq = 0;
  last_heartbeat_sent_at = none;
  last_heartbeat_received_at = none;
  last_any_received_at = 0;
  disconnect_reason = none;
  pending_init = none;
  outgoing_queue = [];
  queued_bytes = 0;
  destroyed = false;
  buffer = [];
  written = [];
  replies = [];
}

abbrev init : RelayHandshakeInit
init = record {
  connection_id = one_id;
  initiator_authority_id = "authority-ab";
  initiator_fingerprint = "ab";
  initiator_public_key_spki_b64 = "ab";
  initiator_transport_policy = null;
  responder_authority_id = "authority-cd";
  state_dir = none;
  heartbeat_interval_ms = none;
  nonce = "0";
  issued_at = "soon";
  expires_at = "later";
  signature = "signed";
}

abbrev up : RelayConnection
up = record idle {
  state = connected;
  connection_id = some one_id;
  own_authority_id = some "authority-cd";
  peer_authority_id = some "authority-ab";
  resolved_remote_state_dir = some "/rooms";
  connected_at = some 20000;
  last_any_received_at = 20000;
}

abbrev answered : Outcome
answered = on_handshake_init machine (role_input responder) 20000 fresh init idle

abbrev state_after : Outcome → RelayConnection
state_after (Outcome.returns c) = c
state_after (Outcome.throws c) = c

answered-returns : answered ≡ returns (state_after answered)
unfolding runs
answered-returns = refl

answered_connected : (state_after answered).state ≡ connected
unfolding runs
answered_connected = refl

on_handshake_init-IsVouched_example :
    (dir : String) × (own : Identity) × (der : Units) × (machine.identity_of dir ≡ some own)
    × (init.responder_authority_id ≡ own.authority_id)
    × (init.initiator_authority_id ≢ own.authority_id)
    × (machine.canonical_der init.initiator_public_key_spki_b64 ≡ some der)
    × IsVouched machine
        (machine.active_trust 20000 init.initiator_authority_id dir)
        init.initiator_authority_id
        init.initiator_fingerprint
        der
        (machine.verify der (init_transcript_of init) init.signature)
    × ((state_after answered).peer_authority_id ≡ some init.initiator_authority_id)
on_handshake_init-IsVouched_example =
    on_handshake_init-IsVouched machine (role_input responder) 20000 fresh init idle
      (state_after answered) answered-returns answered_connected

abbrev accept : RelayHandshakeAccept
accept = accept_of machine (role_input responder) here "cd" "1" trusted init

abbrev initiator_machine : Machine
initiator_machine = record machine {
  active_trust = λ now peer dir. some (record trusted { fingerprint = "cd" });
}

abbrev dialing : RelayConnection
dialing = record idle { connection_id = some one_id; pending_init = some init }

accepted_connected :
    (on_handshake_accept initiator_machine (role_input initiator) 20000 accept dialing).state
    ≡ connected
unfolding runs
accepted_connected = refl

on_handshake_accept-IsVouched_example :
    (p : RelayHandshakeInit) × (dialing.pending_init ≡ some p)
    × (accept.connection_id ≡ p.connection_id)
    × (accept.initiator_authority_id ≡ p.initiator_authority_id)
    × (accept.initiator_nonce ≡ p.nonce)
    × (accept.responder_authority_id ≡ p.responder_authority_id)
    × ((der : Units) × (initiator_machine.canonical_der accept.responder_public_key_spki_b64
          ≡ some der)
        × IsVouched initiator_machine
            (initiator_machine.active_trust 20000 accept.responder_authority_id "/rooms")
            accept.responder_authority_id
            accept.responder_fingerprint
            der
            (initiator_machine.verify der (accept_transcript_of accept) accept.signature))
on_handshake_accept-IsVouched_example =
    on_handshake_accept-IsVouched initiator_machine (role_input initiator) 20000 accept dialing refl
      accepted_connected

abbrev handler : Handler
handler = record {
  handle_echo = λ s. s;
  handle_status = λ s. s;
  handle_terminal = none;
  handle_channel = none;
  handle_inventory = none;
}

abbrev arriving : List RelayWireFrame
arriving =
    sequenced one_id initiator_to_responder 1 (echo_request "hi")
    ∷ sequenced one_id initiator_to_responder 2 heartbeat
    ∷ []

abbrev taken : Outcome
taken = on_frames machine (role_input responder) handler 30000 fresh arriving up

up-Stays : Stays 0 (some one_id) up
up-Stays = record { incoming = refl; same_connection = refl; awake = refl; sound = refl }

taken-returns : taken ≡ returns (state_after taken)
unfolding runs
taken-returns = refl

taken_alive : (state_after taken).destroyed ≡ false
unfolding runs
taken_alive = refl

on_frames-Consecutive_example :
    Consecutive machine
      (role_input responder)
      handler
      0
      (some one_id)
      initiator_to_responder
      arriving
    × ((state_after taken).incoming_seq ≡ 2)
on_frames-Consecutive_example =
    on_frames-Consecutive machine (role_input responder) handler 30000 fresh arriving up up-Stays
      taken-returns taken_alive

-- A stream that is full at once.
abbrev narrow : Machine
narrow = record machine { accepts = λ fs. false }

narrow_fits :
    encodes narrow (role_input responder) (next_frame narrow (role_input responder) heartbeat up)
    ≡ true
unfolding runs
narrow_fits = refl

flush_queue-send_sequenced_frame_example :
    (c' : RelayConnection) × (send_sequenced_frame narrow (role_input responder) heartbeat up
      ≡ some c')
    × ((flush_queue narrow (role_input responder) c').written
        ≡ next_frame narrow (role_input responder) heartbeat up
          ∷ next_frame narrow (role_input responder) heartbeat up
          ∷ [])
flush_queue-send_sequenced_frame_example =
    flush_queue-send_sequenced_frame narrow (role_input responder) heartbeat up refl refl
      narrow_fits (omega arith) (omega arith) refl

-- ===== src/Relay/Connection/Starting.antt =====
-- How an end starts, and what its clocks and its transport do to it: `start`, the timers and
-- `onTransportClose` of roomsd/src/federation/relay-connection.ts. The end of a timer is an event.
use wardroom.Base.{ℕ, ◌+◌, ◌*◌, ◌-◌, Option, none, some, if◌then◌else◌, ltb}
use wardroom.Relay.{initiator, responder, RelayRole, RelayHandshakeInit, handshake_init}
use wardroom.Relay.Reading.{Units}
use wardroom.Relay.Connection.{
  RelayDisconnectReason, handshake_timeout, idle_timeout, peer_not_active, PeerTrust,
  init_transcript, Identity, Machine, RelayConnectionInput, RelayConnection, is_handshaking,
  or_empty, fail, Outcome, returns, throws,
}
use wardroom.Relay.Connection.Sending.{encodes, write_frame}
use wardroom.Relay.Connection.Handshaking.{bounded_ttl, Fresh}

module _ (m : Machine) (input : RelayConnectionInput) where
  -- The init that an initiator offers.
  abbrev pub offered :
      ℕ → Fresh → Identity → PeerTrust → (ttl_seconds : ℕ) → Units → RelayHandshakeInit
  offered now fresh own trust ttl der =
      let fingerprint = m.fingerprint_for_der der in
      let peer = or_empty input.dialed_peer in
      let issued_at = m.iso now in
      let expires_at = m.iso (now + ttl * 1000) in
      record {
        connection_id = fresh.connection_id;
        initiator_authority_id = own.authority_id;
        initiator_fingerprint = fingerprint;
        initiator_public_key_spki_b64 = own.public_key;
        initiator_transport_policy = trust.transport_policy;
        responder_authority_id = peer;
        state_dir = input.remote_state_dir_for_peer;
        heartbeat_interval_ms = input.heartbeat_interval_ms;
        nonce = fresh.nonce;
        issued_at = issued_at;
        expires_at = expires_at;
        signature = own.sign (
            init_transcript fresh.connection_id own.authority_id fingerprint own.public_key
              trust.transport_policy peer fresh.nonce issued_at expires_at);
      }

  dial : RelayHandshakeInit → RelayConnection → Outcome
  dial i c =
      let c' = record c {
        connection_id = some i.connection_id;
        peer_authority_id = some i.responder_authority_id;
        pending_init = some i;
      } in
      if encodes m input (handshake_init i)
      then returns (write_frame m input (handshake_init i) c')
      else throws c'

  with_key : ℕ → Fresh → Identity → PeerTrust → Option ℕ → Option Units → RelayConnection → Outcome
  with_key now fresh own trust none der c = throws c
  with_key now fresh own trust (some ttl) none c = throws c
  with_key now fresh own trust (some ttl) (some der) c =
      dial (offered now fresh own trust ttl der) c

  with_identity : ℕ → Fresh → PeerTrust → Option Identity → RelayConnection → Outcome
  with_identity now fresh trust none c = throws c
  with_identity now fresh trust (some own) c =
      with_key now fresh own trust (bounded_ttl input.ttl_seconds) (m.canonical_der own.public_key)
        c

  with_trust : ℕ → Fresh → Option PeerTrust → RelayConnection → Outcome
  with_trust now fresh none c = returns (fail peer_not_active c)
  with_trust now fresh (some trust) c =
      with_identity now fresh trust (m.identity_of input.local_state_dir) c

  start_as : RelayRole → ℕ → Fresh → RelayConnection → Outcome
  start_as responder now fresh c = returns c
  start_as initiator now fresh c =
      with_trust now fresh (m.active_trust now (or_empty input.dialed_peer) input.local_state_dir) c

  unfoldable pub start : ℕ → Fresh → RelayConnection → Outcome
  unfolding start_as with_trust with_identity with_key dial
  start now fresh c = start_as input.role now fresh c

-- The end of the time for the handshake.
unfoldable pub handshake_elapsed : RelayConnection → RelayConnection
handshake_elapsed c = if is_handshaking c.state then fail handshake_timeout c else c

-- The check for silence, which a connection makes while it is up.
unfoldable pub idle_check : (now idle_timeout_ms : ℕ) → RelayConnection → RelayConnection
idle_check now limit c = if ltb limit (now - c.last_any_received_at) then fail idle_timeout c else c

-- `onTransportClose`
unfoldable pub transport_close : RelayDisconnectReason → RelayConnection → RelayConnection
transport_close reason c = fail reason c

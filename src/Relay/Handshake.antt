-- ===== src/Relay/Handshake.antt =====
-- The frames of the handshake: their validators in roomsd/src/federation/relay-protocol.ts. `now` is
-- the time at which transport policies are validated.
use wardroom.Base.{ℕ, not, Option, some, [], ◌∷◌, ◌===◌}
use wardroom.Json.{Fields, get}
use wardroom.Federation.{Platform}
use wardroom.Relay.{RelayWireFrame, handshake_init, handshake_accept, handshake_reject}
use wardroom.Relay.Fields.{
  ◌>>=◌, ◌>>◌, guard, assert_exact_keys, bounded_str, authority_field, fingerprint_field,
  base64_field, nonce_field, connection_id_field, state_dir_field, heartbeat_interval_ms_field,
  version_field, channel_field, timestamp_field, window_field, transport_policy_field,
}

unfoldable pub validate_handshake_reject : Fields → Option RelayWireFrame
validate_handshake_reject fs = do
  assert_exact_keys fs ("kind" ∷ "connectionId" ∷ "code" ∷ "message" ∷ [])
  connection_id ← connection_id_field (get "connectionId" fs)
  code ← bounded_str 128 (get "code" fs)
  message ← bounded_str 512 (get "message" fs)
  some (handshake_reject (record { connection_id = connection_id; code = code; message = message }))

module _ (platform : Platform) (now : ℕ) where
  unfoldable pub validate_handshake_init : Fields → Option RelayWireFrame
  validate_handshake_init fs = do
    assert_exact_keys fs (
        "kind" ∷ "version" ∷ "channel" ∷ "connectionId" ∷ "initiatorAuthorityId"
        ∷ "initiatorFingerprint" ∷ "initiatorPublicKeySpkiB64" ∷ "initiatorTransportPolicy"
        ∷ "responderAuthorityId" ∷ "stateDir" ∷ "heartbeatIntervalMs" ∷ "nonce" ∷ "issuedAt"
        ∷ "expiresAt" ∷ "signature" ∷ [])
    version_field (get "version" fs)
    channel_field (get "channel" fs)
    connection_id ← connection_id_field (get "connectionId" fs)
    initiator ← authority_field (get "initiatorAuthorityId" fs)
    responder ← authority_field (get "responderAuthorityId" fs)
    guard (not (initiator === responder))
    fingerprint ← fingerprint_field (get "initiatorFingerprint" fs)
    key ← base64_field (get "initiatorPublicKeySpkiB64" fs)
    policy ← transport_policy_field platform now (get "initiatorTransportPolicy" fs)
    state_dir ← state_dir_field (get "stateDir" fs)
    interval ← heartbeat_interval_ms_field (get "heartbeatIntervalMs" fs)
    nonce ← nonce_field (get "nonce" fs)
    issued_at ← timestamp_field platform (get "issuedAt" fs)
    expires_at ← timestamp_field platform (get "expiresAt" fs)
    window_field platform issued_at expires_at
    signature ← base64_field (get "signature" fs)
    some (
        handshake_init (record {
          connection_id = connection_id;
          initiator_authority_id = initiator;
          initiator_fingerprint = fingerprint;
          initiator_public_key_spki_b64 = key;
          initiator_transport_policy = policy;
          responder_authority_id = responder;
          state_dir = state_dir;
          heartbeat_interval_ms = interval;
          nonce = nonce;
          issued_at = issued_at;
          expires_at = expires_at;
          signature = signature;
        }))

  unfoldable pub validate_handshake_accept : Fields → Option RelayWireFrame
  validate_handshake_accept fs = do
    assert_exact_keys fs (
        "kind" ∷ "version" ∷ "channel" ∷ "connectionId" ∷ "initiatorAuthorityId"
        ∷ "initiatorFingerprint" ∷ "initiatorPublicKeySpkiB64" ∷ "initiatorTransportPolicy"
        ∷ "responderAuthorityId" ∷ "responderFingerprint" ∷ "responderPublicKeySpkiB64"
        ∷ "responderTransportPolicy" ∷ "initiatorNonce" ∷ "responderNonce" ∷ "issuedAt"
        ∷ "expiresAt" ∷ "signature" ∷ [])
    version_field (get "version" fs)
    channel_field (get "channel" fs)
    connection_id ← connection_id_field (get "connectionId" fs)
    initiator ← authority_field (get "initiatorAuthorityId" fs)
    responder ← authority_field (get "responderAuthorityId" fs)
    guard (not (initiator === responder))
    fingerprint ← fingerprint_field (get "initiatorFingerprint" fs)
    key ← base64_field (get "initiatorPublicKeySpkiB64" fs)
    policy ← transport_policy_field platform now (get "initiatorTransportPolicy" fs)
    other_fingerprint ← fingerprint_field (get "responderFingerprint" fs)
    other_key ← base64_field (get "responderPublicKeySpkiB64" fs)
    other_policy ← transport_policy_field platform now (get "responderTransportPolicy" fs)
    nonce ← nonce_field (get "initiatorNonce" fs)
    other_nonce ← nonce_field (get "responderNonce" fs)
    issued_at ← timestamp_field platform (get "issuedAt" fs)
    expires_at ← timestamp_field platform (get "expiresAt" fs)
    window_field platform issued_at expires_at
    signature ← base64_field (get "signature" fs)
    some (
        handshake_accept (record {
          connection_id = connection_id;
          initiator_authority_id = initiator;
          initiator_fingerprint = fingerprint;
          initiator_public_key_spki_b64 = key;
          initiator_transport_policy = policy;
          responder_authority_id = responder;
          responder_fingerprint = other_fingerprint;
          responder_public_key_spki_b64 = other_key;
          responder_transport_policy = other_policy;
          initiator_nonce = nonce;
          responder_nonce = other_nonce;
          issued_at = issued_at;
          expires_at = expires_at;
          signature = signature;
        }))

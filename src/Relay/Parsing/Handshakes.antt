-- ===== src/Relay/Parsing/Handshakes.antt =====
-- Every frame of the handshake that is accepted is bounded: the validators of
-- roomsd/src/federation/relay-protocol.ts.
use wardroom.Base.{ℕ, Bool, true, false, not, ◌≡◌, refl, Option, none, some, arith, ◌===◌}
use wardroom.Json.{Fields, get}
use wardroom.Federation.{Platform}
use wardroom.Federation.Patterns.{is_authority_id, is_uuid, is_encoded, is_fingerprint, is_nonce}
use wardroom.Relay.Handshake.{
  validate_handshake_init, validate_handshake_accept, validate_handshake_reject,
}
use wardroom.Relay.Fields.{
  guard, assert_exact_keys, authority_field, fingerprint_field, base64_field, nonce_field,
  connection_id_field, state_dir_field, heartbeat_interval_ms_field, version_field, channel_field,
  timestamp_field, window_field, transport_policy_field, is_safe_remote_path,
}
use wardroom.Relay.Parsing.Held.{
  Holds, >>=-any, >>=-Holds, Within, Passes, bounded_str-Fits, guard-Holds, authority_field-Passes,
  connection_id_field-Passes, fingerprint_field-Passes, base64_field-Passes, nonce_field-Passes,
  state_dir_field-Holds, heartbeat_interval_ms_field-Within,
}
use wardroom.Relay.Parsing.Bounds.{IsBoundedFrame}

some-unit : (o : Option (Unit {0})) → Holds (λ u. o ≡ some tt) o
some-unit none = tt
some-unit (some tt) = refl

unlike : (b : Bool) → not b ≡ true → b ≡ false
unlike b e = ground arith

module _ (platform : Platform) where
  pub validate_handshake_reject-IsBounded :
      (fs : Fields) → Holds (IsBoundedFrame platform) (validate_handshake_reject fs)
  unfolding validate_handshake_reject
  validate_handshake_reject-IsBounded fs = ground (
    arith,
    connection_id_field-Passes (get "connectionId" fs),
    bounded_str-Fits 128 (get "code" fs),
    bounded_str-Fits 512 (get "message" fs),
  )

  pub validate_handshake_init-IsBounded :
      (now : ℕ) (fs : Fields)
      → Holds (IsBoundedFrame platform) (validate_handshake_init platform now fs)
  unfolding validate_handshake_init
  validate_handshake_init-IsBounded now fs =
      >>=-any (IsBoundedFrame platform) (assert_exact_keys fs _) _ λ _.
        >>=-any (IsBoundedFrame platform) (version_field (get "version" fs)) _ λ _.
          >>=-any (IsBoundedFrame platform) (channel_field (get "channel" fs)) _ λ _.
            >>=-Holds (Passes is_uuid) (IsBoundedFrame platform)
              (connection_id_field (get "connectionId" fs)) _
              (connection_id_field-Passes (get "connectionId" fs))
              λ id id_ok.
                >>=-Holds (Passes is_authority_id) (IsBoundedFrame platform)
                  (authority_field (get "initiatorAuthorityId" fs)) _
                  (authority_field-Passes (get "initiatorAuthorityId" fs))
                  λ initiator initiator_ok.
                    >>=-Holds (Passes is_authority_id) (IsBoundedFrame platform)
                      (authority_field (get "responderAuthorityId" fs)) _
                      (authority_field-Passes (get "responderAuthorityId" fs))
                      λ responder responder_ok.
                        >>=-Holds (λ u. not (initiator === responder) ≡ true)
                          (IsBoundedFrame platform) (guard (not (initiator === responder))) _
                          (guard-Holds (not (initiator === responder)))
                          λ differ differ_ok.
                            >>=-Holds (Passes is_fingerprint) (IsBoundedFrame platform)
                              (fingerprint_field (get "initiatorFingerprint" fs)) _
                              (fingerprint_field-Passes (get "initiatorFingerprint" fs))
                              λ fingerprint fingerprint_ok.
                                >>=-Holds (Passes is_encoded) (IsBoundedFrame platform)
                                  (base64_field (get "initiatorPublicKeySpkiB64" fs)) _
                                  (base64_field-Passes (get "initiatorPublicKeySpkiB64" fs))
                                  λ key key_ok.
                                    >>=-any (IsBoundedFrame platform)
                                      (transport_policy_field platform now
                                        (get "initiatorTransportPolicy" fs))
                                      _
                                      λ policy.
                                        >>=-Holds (Holds (Passes is_safe_remote_path))
                                          (IsBoundedFrame platform)
                                          (state_dir_field (get "stateDir" fs)) _
                                          (state_dir_field-Holds (get "stateDir" fs))
                                          λ state_dir state_dir_ok.
                                            >>=-Holds (Holds (Within 100 300000))
                                              (IsBoundedFrame platform)
                                              (heartbeat_interval_ms_field
                                                (get "heartbeatIntervalMs" fs))
                                              _
                                              (heartbeat_interval_ms_field-Within
                                                (get "heartbeatIntervalMs" fs))
                                              λ interval interval_ok.
                                                >>=-Holds (Passes is_nonce)
                                                  (IsBoundedFrame platform)
                                                  (nonce_field (get "nonce" fs)) _
                                                  (nonce_field-Passes (get "nonce" fs))
                                                  λ nonce nonce_ok.
                                                    >>=-any (IsBoundedFrame platform)
                                                      (timestamp_field platform (get "issuedAt" fs))
                                                      _
                                                      λ issued_at.
                                                        >>=-any (IsBoundedFrame platform)
                                                          (timestamp_field platform
                                                            (get "expiresAt" fs))
                                                          _
                                                          λ expires_at.
                                                            >>=-Holds
                                                            (λ u.
                                                            window_field platform issued_at
                                                            expires_at
                                                            ≡ some tt)
                                                            (IsBoundedFrame platform)
                                                            (window_field platform issued_at
                                                            expires_at)
                                                            _
                                                            (some-unit (
                                                            window_field platform issued_at
                                                            expires_at))
                                                            λ window window_ok.
                                                            >>=-Holds (Passes is_encoded)
                                                            (IsBoundedFrame platform)
                                                            (base64_field (get "signature" fs)) _
                                                            (base64_field-Passes
                                                            (get "signature" fs))
                                                            λ signature signature_ok. (
                                                            id_ok,
                                                            initiator_ok,
                                                            responder_ok,
                                                            unlike (initiator === responder)
                                                            differ_ok,
                                                            fingerprint_ok,
                                                            key_ok,
                                                            state_dir_ok,
                                                            interval_ok,
                                                            nonce_ok,
                                                            window_ok,
                                                            signature_ok,
                                                            )

  pub validate_handshake_accept-IsBounded :
      (now : ℕ) (fs : Fields)
      → Holds (IsBoundedFrame platform) (validate_handshake_accept platform now fs)
  unfolding validate_handshake_accept
  validate_handshake_accept-IsBounded now fs =
      >>=-any (IsBoundedFrame platform) (assert_exact_keys fs _) _ λ _.
        >>=-any (IsBoundedFrame platform) (version_field (get "version" fs)) _ λ _.
          >>=-any (IsBoundedFrame platform) (channel_field (get "channel" fs)) _ λ _.
            >>=-Holds (Passes is_uuid) (IsBoundedFrame platform)
              (connection_id_field (get "connectionId" fs)) _
              (connection_id_field-Passes (get "connectionId" fs))
              λ id id_ok.
                >>=-Holds (Passes is_authority_id) (IsBoundedFrame platform)
                  (authority_field (get "initiatorAuthorityId" fs)) _
                  (authority_field-Passes (get "initiatorAuthorityId" fs))
                  λ initiator initiator_ok.
                    >>=-Holds (Passes is_authority_id) (IsBoundedFrame platform)
                      (authority_field (get "responderAuthorityId" fs)) _
                      (authority_field-Passes (get "responderAuthorityId" fs))
                      λ responder responder_ok.
                        >>=-Holds (λ u. not (initiator === responder) ≡ true)
                          (IsBoundedFrame platform) (guard (not (initiator === responder))) _
                          (guard-Holds (not (initiator === responder)))
                          λ differ differ_ok.
                            >>=-Holds (Passes is_fingerprint) (IsBoundedFrame platform)
                              (fingerprint_field (get "initiatorFingerprint" fs)) _
                              (fingerprint_field-Passes (get "initiatorFingerprint" fs))
                              λ fingerprint fingerprint_ok.
                                >>=-Holds (Passes is_encoded) (IsBoundedFrame platform)
                                  (base64_field (get "initiatorPublicKeySpkiB64" fs)) _
                                  (base64_field-Passes (get "initiatorPublicKeySpkiB64" fs))
                                  λ key key_ok.
                                    >>=-any (IsBoundedFrame platform)
                                      (transport_policy_field platform now
                                        (get "initiatorTransportPolicy" fs))
                                      _
                                      λ policy.
                                        >>=-Holds (Passes is_fingerprint) (IsBoundedFrame platform)
                                          (fingerprint_field (get "responderFingerprint" fs)) _
                                          (fingerprint_field-Passes (get "responderFingerprint" fs))
                                          λ other_fingerprint other_fingerprint_ok.
                                            >>=-Holds (Passes is_encoded) (IsBoundedFrame platform)
                                              (base64_field (get "responderPublicKeySpkiB64" fs)) _
                                              (base64_field-Passes
                                                (get "responderPublicKeySpkiB64" fs))
                                              λ other_key other_key_ok.
                                                >>=-any (IsBoundedFrame platform)
                                                  (transport_policy_field platform now
                                                    (get "responderTransportPolicy" fs))
                                                  _
                                                  λ other_policy.
                                                    >>=-Holds (Passes is_nonce)
                                                      (IsBoundedFrame platform)
                                                      (nonce_field (get "initiatorNonce" fs)) _
                                                      (nonce_field-Passes (get "initiatorNonce" fs))
                                                      λ nonce nonce_ok.
                                                        >>=-Holds (Passes is_nonce)
                                                          (IsBoundedFrame platform)
                                                          (nonce_field (get "responderNonce" fs)) _
                                                          (nonce_field-Passes
                                                            (get "responderNonce" fs))
                                                          λ other_nonce other_nonce_ok.
                                                            >>=-any (IsBoundedFrame platform)
                                                            (timestamp_field platform
                                                            (get "issuedAt" fs))
                                                            _
                                                            λ issued_at.
                                                            >>=-any (IsBoundedFrame platform)
                                                            (timestamp_field platform
                                                            (get "expiresAt" fs))
                                                            _
                                                            λ expires_at.
                                                            >>=-Holds
                                                            (λ u.
                                                            window_field platform issued_at
                                                            expires_at
                                                            ≡ some tt)
                                                            (IsBoundedFrame platform)
                                                            (window_field platform issued_at
                                                            expires_at)
                                                            _
                                                            (some-unit (
                                                            window_field platform issued_at
                                                            expires_at))
                                                            λ window window_ok.
                                                            >>=-Holds (Passes is_encoded)
                                                            (IsBoundedFrame platform)
                                                            (base64_field (get "signature" fs)) _
                                                            (base64_field-Passes
                                                            (get "signature" fs))
                                                            λ signature signature_ok. (
                                                            id_ok,
                                                            initiator_ok,
                                                            responder_ok,
                                                            unlike (initiator === responder)
                                                            differ_ok,
                                                            fingerprint_ok,
                                                            key_ok,
                                                            other_fingerprint_ok,
                                                            other_key_ok,
                                                            nonce_ok,
                                                            other_nonce_ok,
                                                            window_ok,
                                                            signature_ok,
                                                            )

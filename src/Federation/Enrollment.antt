-- ===== src/Federation/Enrollment.antt =====
-- The artifacts by which two machines enrol: `validateEnrollmentOffer`, `…Challenge`, `…Accept` and
-- `…Confirm` of roomsd/src/federation/codec.ts.
use wardroom.Base.{
  ℕ, ◌-◌, String, Bool, false, ◌&&◌, ◌||◌, not, Option, none, some, [], ◌∷◌, ltb, leb, ◌===◌,
  byte_length,
}
use wardroom.Json.{Value, Fields, get, exact_keys}
use wardroom.Federation.{Platform}
use wardroom.Federation.Policy.{
  record_of, is_version, non_blank, is_one_of, base64_field, fingerprint_field, nonce_field,
  enrollment_id_field, timestamp, validate_transport_policy,
}
use wardroom.Federation.Envelope.{has_kind, differ}

abbrev pub enrollment_max_artifact_bytes : ℕ
enrollment_max_artifact_bytes = 8192

abbrev pub enrollment_max_ttl_ms : ℕ
enrollment_max_ttl_ms = 3600000

-- `assertBoundedEnrollmentArtifact`
unfoldable pub is_bounded_artifact : String → Bool
is_bounded_artifact serialized = leb (byte_length serialized) enrollment_max_artifact_bytes

abbrev same_as : Option String → Option String → Bool
same_as (some s) (some t) = s === t
same_as _ _ = false

abbrev peer_of : Option Fields → Option String
peer_of none = none
peer_of (some fs) = non_blank (get "peerAuthorityId" fs)

abbrev names_peer : Option Fields → Bool
names_peer none = false
names_peer (some fs) = is_one_of ("loopbackSsh" ∷ "tailscalePeer" ∷ []) (get "kind" fs)

-- `transportPeerMatches`, of a policy and the authority of the other party.
unfoldable pub transport_peer_matches : Option Value → Option String → Bool
transport_peer_matches policy expected =
    not (names_peer (record_of policy)) || same_as (peer_of (record_of policy)) expected

abbrev is_window_of : ℕ → Option ℕ → Option ℕ → Bool
is_window_of longest (some start) (some stop) = ltb start stop && leb (stop - start) longest
is_window_of longest _ _ = false

module _ (platform : Platform) where
  -- `enrollmentWindow`
  unfoldable pub enrollment_window : Fields → Bool
  enrollment_window fs =
      is_window_of enrollment_max_ttl_ms (timestamp platform (get "issuedAt" fs))
        (timestamp platform (get "expiresAt" fs))

  -- A party's policy is one that is known, for the authority of the other party.
  policy_for : ℕ → String → String → Fields → Bool
  policy_for now policy peer fs =
      validate_transport_policy platform now (get policy fs)
      && transport_peer_matches (get policy fs) (non_blank (get peer fs))

  offer_fields : ℕ → Option Fields → Bool
  offer_fields now none = false
  offer_fields now (some fs) =
      exact_keys fs
        ("kind" ∷ "version" ∷ "enrollmentId" ∷ "origin" ∷ "destination" ∷ "originPublicKeySpkiB64"
          ∷ "originFingerprint" ∷ "originTransportPolicy" ∷ "originNonce" ∷ "issuedAt" ∷ "expiresAt"
          ∷ "signature" ∷ [])
        []
      && has_kind "enrollmentOffer" fs
      && is_version (get "version" fs)
      && enrollment_id_field (get "enrollmentId" fs)
      && differ (non_blank (get "origin" fs)) (non_blank (get "destination" fs))
      && base64_field (get "originPublicKeySpkiB64" fs)
      && fingerprint_field (get "originFingerprint" fs)
      && policy_for now "originTransportPolicy" "destination" fs
      && nonce_field (get "originNonce" fs)
      && enrollment_window fs
      && base64_field (get "signature" fs)

  -- `validateEnrollmentOffer`
  unfoldable pub validate_enrollment_offer : ℕ → Option Value → Bool
  unfolding offer_fields policy_for enrollment_window
  validate_enrollment_offer now v = offer_fields now (record_of v)

  transcript_fields : String → ℕ → Option Fields → Bool
  transcript_fields kind now none = false
  transcript_fields kind now (some fs) =
      exact_keys fs
        ("kind" ∷ "version" ∷ "enrollmentId" ∷ "origin" ∷ "destination" ∷ "originPublicKeySpkiB64"
          ∷ "originFingerprint" ∷ "originTransportPolicy" ∷ "destinationPublicKeySpkiB64"
          ∷ "destinationFingerprint" ∷ "destinationTransportPolicy" ∷ "originNonce"
          ∷ "destinationNonce" ∷ "issuedAt" ∷ "expiresAt" ∷ "signature" ∷ [])
        []
      && has_kind kind fs
      && is_version (get "version" fs)
      && enrollment_id_field (get "enrollmentId" fs)
      && differ (non_blank (get "origin" fs)) (non_blank (get "destination" fs))
      && base64_field (get "originPublicKeySpkiB64" fs)
      && fingerprint_field (get "originFingerprint" fs)
      && policy_for now "originTransportPolicy" "destination" fs
      && base64_field (get "destinationPublicKeySpkiB64" fs)
      && fingerprint_field (get "destinationFingerprint" fs)
      && policy_for now "destinationTransportPolicy" "origin" fs
      && nonce_field (get "originNonce" fs)
      && nonce_field (get "destinationNonce" fs)
      && enrollment_window fs
      && base64_field (get "signature" fs)

  -- `validateEnrollmentTranscript`, for a challenge, an accept or a confirm.
  unfoldable pub validate_enrollment_transcript : String → ℕ → Option Value → Bool
  unfolding transcript_fields policy_for enrollment_window
  validate_enrollment_transcript kind now v = transcript_fields kind now (record_of v)

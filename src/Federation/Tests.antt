-- ===== src/Federation/Tests.antt =====
-- An error that one machine reports to another.
use wardroom.Base.{
  ◌≡◌, ◌≢◌, refl, String, true, none, some, is_some, text_discrete, blank, is_space, if◌then◌else◌,
  ◌===◌,
}
use wardroom.Json.{Value, whole, text, object, end, field, get, keys, contains, exact_keys}
use wardroom.Federation.{Platform}
use wardroom.Federation.Policy.{record_of}
use wardroom.Federation.Envelope.{
  authority_keys, validate_payload, validate_home, validate_envelope,
}
use wardroom.Federation.Envelope.Parties.{party, payload_of, key_of, validate_envelope-parties}

runs : Unit {0}
unfolding text_discrete is_space blank get keys contains exact_keys validate_payload validate_home
    validate_envelope
runs = tt

abbrev platform : Platform
platform = record { date = λ s. if s === "later" then some 20 else some 10; ip_version = λ s. 0 }

abbrev home : String → Value
home authority = object (field "authorityId" (text authority) end)

abbrev envelope : Value
envelope = object (
    field "version" (whole 1) (
      field "envelopeId" (text "e1") (
        field "requestId" (text "r1") (
          field "deduplicationId" (text "d1") (
            field "createdAt" (text "soon") (
              field "expiresAt" (text "later") (
                field "origin" (home "a") (
                  field "destination" (home "b") (
                    field "payload"
                      (object (
                        field "kind" (text "error")
                          (field "code" (text "unavailable") (field "message" (text "gone") end))))
                      end)))))))))

envelope_accepted : validate_envelope platform 15 (some envelope) ≡ true
unfolding runs
envelope_accepted = refl

home_reserved : contains authority_keys "home" ≡ true
unfolding runs
home_reserved = refl

validate_envelope-parties_example :
    (origin : String) × (destination : String) × (party "origin" (some envelope) ≡ some origin)
    × (party "destination" (some envelope) ≡ some destination)
    × (origin ≢ destination)
    × (is_some (record_of (payload_of (some envelope))) ≡ true)
    × (key_of "home" (payload_of (some envelope)) ≡ none)
validate_envelope-parties_example =
    validate_envelope-parties platform 15 (some envelope) "home" envelope_accepted home_reserved

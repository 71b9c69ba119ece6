-- ===== src/Federation/Trust.antt =====
-- The records of peers: roomsd/src/federation/peer-trust.ts. A directory of files is the list of what
-- stands under each authority, as a value of JSON; errors of the file system and of this machine's own identity are left out. `none` is a
-- thrown error, before anything is written.
pub mod Changing
mod Keeping
mod History
mod Tests
use Prim.Native.String.{◌++◌}
use wardroom.Base.{
  ℕ, String, Bool, true, false, ◌&&◌, ◌||◌, not, Option, none, some, List, [], ◌∷◌, if◌then◌else◌,
  ◌===◌, is_some, blank, ◌>>=◌,
}
use wardroom.Json.{Value, null, whole, text, object, Fields, end, field, get, exact_keys}
use wardroom.Federation.{Platform}
use wardroom.Federation.Patterns.{is_authority_id}
use wardroom.Federation.Policy.{record_of, is_version, validate_transport_policy}
use wardroom.Federation.Enrollment.{transport_peer_matches}

pub data PeerTrustState : Type 0 where
  pending confirming active revoked : PeerTrustState

pub record PeerTrustRecord : Type 0 where
  pub authority_id : String
  pub public_key_pem : String
  pub fingerprint : String
  pub transport_policy : Value
  pub state : PeerTrustState
  pub created_at : String
  pub updated_at : String
  pub revoked_at : Option String
  pub revoked_reason : Option String

-- The keys and the clock: the fingerprint of a text that is an Ed25519 key, `JSON.stringify` of a
-- policy, and `toISOString` of an instant.
pub record Machine : Type 0 where
  pub platform : Platform
  pub fingerprint_of : (pem : String) → Option String
  pub policy_text : Value → String
  pub iso : ℕ → String

-- What is known of a peer when it is enrolled.
pub record Proposal : Type 0 where
  pub authority_id : String
  pub public_key_pem : String
  pub transport_policy : Value

-- The states that a proof of enrolment leads to.
pub data ProvenState : Type 0 where
  to_confirming to_active : ProvenState

abbrev pub Files : Type 0
Files = List (String × Value)

abbrev pub state_of : ProvenState → PeerTrustState
state_of to_confirming = confirming
state_of to_active = active

abbrev pub is_revoked : PeerTrustState → Bool
is_revoked revoked = true
is_revoked _ = false

abbrev pub is_active : PeerTrustState → Bool
is_active active = true
is_active _ = false

-- `existing.state === "active" || existing.state === input.toState`
abbrev pub is_reached : ProvenState → PeerTrustState → Bool
is_reached to active = true
is_reached to_confirming confirming = true
is_reached to _ = false

abbrev pub state_text : PeerTrustState → String
state_text pending = "pending"
state_text confirming = "confirming"
state_text active = "active"
state_text revoked = "revoked"

unfoldable pub state_field : Option Value → Option PeerTrustState
state_field (some (text s)) =
    if s === "pending"
    then some pending
    else if s === "confirming"
    then some confirming
    else if s === "active"
    then some active
    else if s === "revoked"
    then some revoked
    else none
state_field _ = none

abbrev text_field : Option Value → Option String
text_field (some (text s)) = some s
text_field _ = none

-- A text or `null`.
abbrev pub nullable_field : Option Value → Option (Option String)
nullable_field (some null) = some none
nullable_field (some (text s)) = some (some s)
nullable_field _ = none

abbrev pub nullable : Option String → Value
nullable none = null
nullable (some s) = text s

abbrev pub record_keys : List String
record_keys =
    "version" ∷ "authorityId" ∷ "publicKeyPem" ∷ "fingerprint" ∷ "transportPolicy" ∷ "state"
    ∷ "createdAt" ∷ "updatedAt" ∷ "revokedAt" ∷ "revokedReason" ∷ []

-- What `JSON.stringify` writes of a record.
abbrev pub value_of : PeerTrustRecord → Value
value_of r = object (
    field "version" (whole 1) (
      field "authorityId" (text r.authority_id) (
        field "publicKeyPem" (text r.public_key_pem) (
          field "fingerprint" (text r.fingerprint) (
            field "transportPolicy" r.transport_policy (
              field "state" (text (state_text r.state)) (
                field "createdAt" (text r.created_at) (
                  field "updatedAt" (text r.updated_at) (
                    field "revokedAt" (nullable r.revoked_at)
                      (field "revokedReason" (nullable r.revoked_reason) end))))))))))

-- The fields of `parseRecord`, with their types.
fields_of : Fields → Option PeerTrustRecord
fields_of fs =
    if not (exact_keys fs record_keys [] && is_version (get "version" fs)) then none else do
      authority_id ← text_field (get "authorityId" fs)
      public_key_pem ← text_field (get "publicKeyPem" fs)
      fingerprint ← text_field (get "fingerprint" fs)
      transport_policy ← get "transportPolicy" fs
      state ← state_field (get "state" fs)
      created_at ← text_field (get "createdAt" fs)
      updated_at ← text_field (get "updatedAt" fs)
      revoked_at ← nullable_field (get "revokedAt" fs)
      revoked_reason ← nullable_field (get "revokedReason" fs)
      some (record {
        authority_id = authority_id;
        public_key_pem = public_key_pem;
        fingerprint = fingerprint;
        transport_policy = transport_policy;
        state = state;
        created_at = created_at;
        updated_at = updated_at;
        revoked_at = revoked_at;
        revoked_reason = revoked_reason;
      })

unfoldable pub record_fields : Value → Option PeerTrustRecord
unfolding fields_of
record_fields v = elim (record_of (some v)) [ none ↦ none | some fs ↦ fields_of fs ]

-- The value that stands under an authority.
unfoldable pub find : String → Files → Option Value
find a [] = none
find a ((b, v) ∷ files) = if b === a then some v else find a files

-- `writeRecord`
unfoldable pub write_record : String → Value → Files → Files
write_record a v [] = (a, v) ∷ []
write_record a v ((b, w) ∷ files) =
    if b === a then (a, v) ∷ files else (b, w) ∷ write_record a v files

module _ (m : Machine) where
  is_date : String → Bool
  is_date s = is_some (m.platform.date s)

  revocation : PeerTrustState → Option String → Option String → Bool
  revocation revoked (some at) (some reason) = is_date at && not (blank reason)
  revocation revoked _ _ = false
  revocation _ none none = true
  revocation _ _ _ = false

  abbrev pub is_key_of : String → String → Option String → Bool
  is_key_of authority fingerprint none = false
  is_key_of authority fingerprint (some f) =
      f === fingerprint && is_authority_id authority && authority === "authority-" ++ f

  -- `boundPeerKey`, and that it gives a fingerprint.
  unfoldable pub bound_peer_key : (authority pem fingerprint : String) → Bool
  bound_peer_key authority pem fingerprint =
      not (blank pem) && is_key_of authority fingerprint (m.fingerprint_of pem)

  -- `boundTransportPolicy`, at a time.
  unfoldable pub bound_transport_policy : ℕ → (authority : String) → Value → Bool
  bound_transport_policy now authority policy =
      validate_transport_policy m.platform now (some policy)
      && transport_peer_matches (some policy) (some authority)

  -- The tests of `parseRecord`.
  unfoldable pub is_sound : ℕ → (authority : String) → PeerTrustRecord → Bool
  unfolding revocation is_date
  is_sound now authority r =
      r.authority_id === authority
      && is_date r.created_at
      && is_date r.updated_at
      && revocation r.state r.revoked_at r.revoked_reason
      && bound_peer_key r.authority_id r.public_key_pem r.fingerprint
      && bound_transport_policy now r.authority_id r.transport_policy

  abbrev pub tested : ℕ → String → Option PeerTrustRecord → Option PeerTrustRecord
  tested now authority none = none
  tested now authority (some r) = if is_sound now authority r then some r else none

  -- `parseRecord`, behind the parser of JSON.
  unfoldable pub parse_record : ℕ → (authority : String) → Value → Option PeerTrustRecord
  parse_record now authority v = tested now authority (record_fields v)

  abbrev pub parsed : ℕ → String → Option Value → Option (Option PeerTrustRecord)
  parsed now authority none = some none
  parsed now authority (some v) = elim (parse_record now authority v) [
    | none ↦ none
    | some r ↦ some (some r)
  ]

  -- `tryReadRecord`; `some none` is a missing file.
  unfoldable pub try_read_record : ℕ → String → Files → Option (Option PeerTrustRecord)
  try_read_record now authority files = parsed now authority (find authority files)

  abbrev if_active : Option (Option PeerTrustRecord) → Option (Option PeerTrustRecord)
  if_active (some (some r)) = if is_active r.state then some (some r) else some none
  if_active o = o

  -- `readActivePeerTrust`
  unfoldable pub read_active_peer_trust : ℕ → String → Files → Option (Option PeerTrustRecord)
  read_active_peer_trust now authority files =
      if is_authority_id authority then if_active (try_read_record now authority files) else none

  abbrev or_throw : Option (Option PeerTrustRecord) → Option PeerTrustRecord
  or_throw (some (some r)) = some r
  or_throw _ = none

  -- `readRecordOrThrow`, as `readPeerTrust` calls it.
  unfoldable pub read_peer_trust : ℕ → String → Files → Option PeerTrustRecord
  read_peer_trust now authority files =
      if is_authority_id authority then or_throw (try_read_record now authority files) else none

-- ===== src/Federation/Policy.antt =====
-- Fields and transport policies: `validateTransportPolicy` and the field tests of
-- roomsd/src/federation/codec.ts. A validator that returns is `true`, one that throws `false`.
use Prim.Native.Char.{code}
use wardroom.Base.{
  ℕ, ◌+◌, String, Bool, true, false, ◌&&◌, ◌||◌, not, Option, none, some, List, [], ◌∷◌,
  if◌then◌else◌, leb, ◌==◌, ◌===◌, is_some, blank, trim,
}
use wardroom.Json.{Value, whole, text, object, Fields, get, contains, exact_keys}
use wardroom.Federation.{Platform}
use wardroom.Federation.Patterns.{
  length, is_digit, all_chars, drop_prefix, is_decimal, is_fingerprint, is_nonce, is_encoded,
  is_uuid, value_from,
}

-- `record(value, field)`
abbrev pub record_of : Option Value → Option Fields
record_of (some (object fs)) = some fs
record_of _ = none

-- `nonBlankField`
abbrev pub non_blank : Option Value → Option String
non_blank (some (text s)) = if blank s then none else some s
non_blank _ = none

abbrev pub text_of : Option Value → Option String
text_of (some (text s)) = some s
text_of _ = none

abbrev pub is_text : Option Value → Bool
is_text v = is_some (text_of v)

-- A value that is one of some texts.
abbrev pub is_one_of : List String → Option Value → Bool
is_one_of ks (some (text s)) = contains ks s
is_one_of ks _ = false

abbrev pub holds : (String → Bool) → Option String → Bool
holds p none = false
holds p (some s) = p s

-- `value === FEDERATION_PROTOCOL_VERSION`
abbrev pub is_version : Option Value → Bool
is_version (some (whole n)) = n == 1
is_version _ = false

abbrev pub is_whole_between : ℕ → ℕ → Option Value → Bool
is_whole_between lo hi (some (whole n)) = leb lo n && leb n hi
is_whole_between lo hi _ = false

-- `authorityField`
abbrev pub authority_field : Option Value → Bool
authority_field v = is_some (non_blank v)

abbrev pub nonce_field : Option Value → Bool
nonce_field v = holds is_nonce (non_blank v)

abbrev pub fingerprint_field : Option Value → Bool
fingerprint_field v = holds is_fingerprint (non_blank v)

abbrev pub base64_field : Option Value → Bool
base64_field v = holds is_encoded (non_blank v)

abbrev pub enrollment_id_field : Option Value → Bool
enrollment_id_field v = holds is_uuid (non_blank v)

abbrev pub cursor_field : Option Value → Bool
cursor_field v = holds is_decimal (text_of v)

-- A value that may be missing.
abbrev pub optional : (Option Value → Bool) → Option Value → Bool
optional p none = true
optional p (some v) = p (some v)

abbrev starts_with : String → String → Bool
starts_with prefix s = is_some (drop_prefix prefix s)

abbrev pub absolute_path : Option Value → Bool
absolute_path v = holds (starts_with "/") (non_blank v)

-- The parts of a text between occurrences of a character.
unfoldable pub split_at : ℕ → String → List String
split_at c String.[] = "" ∷ []
split_at c (String.◌∷◌ d s) = elim (split_at c s) [
  | [] ↦ []
  | part ∷ parts ↦ if code d == c then "" ∷ part ∷ parts else String.◌∷◌ d part ∷ parts
]

-- `value.includes(needle)`
unfoldable pub includes : String → String → Bool
includes needle String.[] = needle === ""
includes needle (String.◌∷◌ c s) = starts_with needle (String.◌∷◌ c s) || includes needle s

abbrev lower : ℕ → ℕ
lower c = if leb b'A' c && leb c b'Z' then c + 32 else c

-- `value.toLowerCase().startsWith(prefix)`, for a prefix without capitals.
unfoldable pub starts_with_any_case : String → String → Bool
starts_with_any_case String.[] s = true
starts_with_any_case (String.◌∷◌ c p) String.[] = false
starts_with_any_case (String.◌∷◌ c p) (String.◌∷◌ d s) =
    lower (code d) == code c && starts_with_any_case p s

abbrev is_number_between : ℕ → ℕ → String → Bool
is_number_between lo hi s =
    all_chars is_digit s
    && leb 1 (length s)
    && leb (length s) 3
    && leb lo (value_from 0 s)
    && leb (value_from 0 s) hi

-- `100.` and a second part from 64 to 127, of two or three digits that do not start with 0.
abbrev is_tailscale_parts : List String → Bool
is_tailscale_parts (a ∷ b ∷ c ∷ d ∷ []) =
    a === "100"
    && (is_decimal b && is_number_between 64 127 b)
    && is_number_between 0 255 c
    && is_number_between 0 255 d
is_tailscale_parts _ = false

module _ (platform : Platform) where
  open platform use {date, ip_version}

  is_tailscale_text : String → Bool
  is_tailscale_text s =
      if includes "://" s || not (trim s === s)
      then false
      else if ip_version s == 4
      then is_tailscale_parts (split_at b'.' s)
      else ip_version s == 6 && starts_with_any_case "fd7a:115c:a1e0:" s

  -- `isTailscaleAddress`
  unfoldable pub is_tailscale_address : Option Value → Bool
  unfolding is_tailscale_text split_at includes starts_with_any_case
  is_tailscale_address v = holds is_tailscale_text (text_of v)

  abbrev date_of : Option String → Option ℕ
  date_of none = none
  date_of (some s) = date s

  -- `timestamp`
  abbrev pub timestamp : Option Value → Option ℕ
  timestamp v = date_of (non_blank v)

  abbrev no_later : ℕ → Option ℕ → Bool
  no_later now none = false
  no_later now (some at) = leb at now

  local_unix_policy : Fields → Bool
  local_unix_policy fs = exact_keys fs ("kind" ∷ "path" ∷ []) [] && absolute_path (get "path" fs)

  loopback_ssh_policy : Fields → Bool
  loopback_ssh_policy fs =
      exact_keys fs
        ("kind" ∷ "peerAuthorityId" ∷ "sshDestination" ∷ "sshUser" ∷ "localEndpoint" ∷ "localPort"
          ∷ [])
        []
      && authority_field (get "peerAuthorityId" fs)
      && is_some (non_blank (get "sshDestination" fs))
      && is_some (non_blank (get "sshUser" fs))
      && is_one_of ("127.0.0.1" ∷ "::1" ∷ "localhost" ∷ []) (get "localEndpoint" fs)
      && is_whole_between 1 65535 (get "localPort" fs)

  tailscale_policy : ℕ → Fields → Bool
  tailscale_policy now fs =
      exact_keys fs ("kind" ∷ "peerAuthorityId" ∷ "address" ∷ "nodeIdentity" ∷ "verifiedAt" ∷ []) []
      && is_tailscale_address (get "address" fs)
      && authority_field (get "peerAuthorityId" fs)
      && is_some (non_blank (get "nodeIdentity" fs))
      && no_later now (timestamp (get "verifiedAt" fs))

  policy_fields : ℕ → Option Fields → Bool
  policy_fields now none = false
  policy_fields now (some fs) =
      if is_one_of ("localUnix" ∷ []) (get "kind" fs)
      then local_unix_policy fs
      else if is_one_of ("loopbackSsh" ∷ []) (get "kind" fs)
      then loopback_ssh_policy fs
      else is_one_of ("tailscalePeer" ∷ []) (get "kind" fs) && tailscale_policy now fs

  -- `validateTransportPolicy`
  unfoldable pub validate_transport_policy : ℕ → Option Value → Bool
  unfolding policy_fields local_unix_policy loopback_ssh_policy tailscale_policy
  validate_transport_policy now v = policy_fields now (record_of v)

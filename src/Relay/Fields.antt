-- ===== src/Relay/Fields.antt =====
-- The field validators of roomsd/src/federation/relay-protocol.ts. `none` is a RelayProtocolError.
use wardroom.Base.{
  ℕ, ◌-◌, String, Bool, true, false, ◌&&◌, ◌||◌, not, Option, none, some, List, [], ◌∷◌,
  if◌then◌else◌, ltb, leb, ◌==◌, ◌===◌, is_some, byte_length,
}
use wardroom.Json.{
  Value, null, boolean, whole, text, array, Items, nil, cons, Fields, contains, exact_keys,
}
use wardroom.Federation.{Platform}
use wardroom.Federation.Patterns.{
  length, all_chars, between, is_digit, is_authority_id, is_decimal, is_encoded, is_fingerprint,
  is_nonce, is_uuid,
}
use wardroom.Federation.Policy.{split_at, validate_transport_policy}
use wardroom.Relay.{
  RelayDirection, initiator_to_responder, responder_to_initiator, RelayRole, initiator, responder,
}
pub use wardroom.Base.{◌>>=◌}

infixl 5 ◌>>◌
abbrev pub ◌>>◌ {ℓ} : {B : Type ℓ} → Option (Unit {0}) → Option B → Option B
m >> k = m >>= λ _. k

-- `if (!test) throw new RelayProtocolError(…)`
abbrev pub guard : Bool → Option (Unit {0})
guard true = some tt
guard false = none

-- `assertExactKeys`
abbrev pub assert_exact_keys : Fields → List String → Option (Unit {0})
assert_exact_keys fs allowed = guard (exact_keys fs allowed [])

unfoldable pub str : Option Value → Option String
str (some (text s)) = if s === "" then none else some s
str _ = none

-- A text that passes a test.
abbrev pub tested : (String → Bool) → Option String → Option String
tested p none = none
tested p (some s) = if p s then some s else none

unfoldable pub bounded_str : ℕ → Option Value → Option String
unfolding str
bounded_str max v = tested (λ s. leb (byte_length s) max) (str v)

unfoldable pub authority_field : Option Value → Option String
unfolding str
authority_field v = tested is_authority_id (str v)

unfoldable pub fingerprint_field : Option Value → Option String
unfolding str
fingerprint_field v = tested is_fingerprint (str v)

unfoldable pub base64_field : Option Value → Option String
unfolding str
base64_field v = tested is_encoded (str v)

unfoldable pub nonce_field : Option Value → Option String
unfolding str
nonce_field v = tested is_nonce (str v)

unfoldable pub connection_id_field : Option Value → Option String
unfolding str
connection_id_field v = tested is_uuid (str v)

unfoldable pub bounded_base64 : ℕ → Option Value → Option String
unfolding bounded_str
bounded_base64 max v = tested is_encoded (bounded_str max v)

-- An unsigned decimal integer of at most 32 bytes.
unfoldable pub counter_field : Option Value → Option String
unfolding bounded_str
counter_field v = tested is_decimal (bounded_str 32 v)

unfoldable pub one_of : List String → Option Value → Option String
one_of ks (some (text s)) = if contains ks s then some s else none
one_of ks _ = none

-- `String(value)`, where it can be a word: of a text, and of an array of one value that is shown so.
mutual
  shown : Value → Option String
  shown (text s) = some s
  shown (array vs) = shown_items vs
  shown _ = none

  shown_items : Items → Option String
  shown_items (cons v nil) = shown v
  shown_items _ = none

abbrev is_word_of : List String → Option String → Bool
is_word_of ks none = false
is_word_of ks (some s) = contains ks s

-- A value with `[…].includes(String(value))`.
unfoldable pub shown_as : List String → Option Value → Option Value
unfolding shown
shown_as ks none = none
shown_as ks (some v) = if is_word_of ks (shown v) then some v else none

unfoldable pub whole_between : ℕ → ℕ → Option Value → Option ℕ
whole_between lo hi (some (whole n)) = if leb lo n && leb n hi then some n else none
whole_between lo hi _ = none

unfoldable pub whole_from : ℕ → Option Value → Option ℕ
whole_from lo (some (whole n)) = if leb lo n then some n else none
whole_from lo _ = none

-- `Number.MAX_SAFE_INTEGER`
abbrev pub max_safe_integer : ℕ
max_safe_integer = 9007199254740991

unfoldable pub boolean_field : Option Value → Option Bool
boolean_field (some (boolean b)) = some b
boolean_field _ = none

unfoldable pub direction_field : Option Value → Option RelayDirection
direction_field (some (text s)) =
    if s === "initiatorToResponder"
    then some initiator_to_responder
    else if s === "responderToInitiator"
    then some responder_to_initiator
    else none
direction_field _ = none

unfoldable pub role_field : Option Value → Option RelayRole
role_field (some (text s)) =
    if s === "initiator" then some initiator else if s === "responder" then some responder else none
role_field _ = none

-- `seqField`
abbrev pub seq_field : Option Value → Option ℕ
seq_field v = whole_from 1 v

-- `[A-Za-z0-9._\-/]`
abbrev is_path_char : ℕ → Bool
is_path_char c =
    between b'A' b'Z' c
    || between b'a' b'z' c
    || is_digit c
    || c == b'.'
    || c == b'_'
    || c == b'-'
    || c == b'/'

abbrev starts_with_slash : String → Bool
starts_with_slash String.[] = false
starts_with_slash (String.◌∷◌ c s) = Prim.Native.Char.code c == b'/'

-- `assertSafeRemoteAbsolutePath` of roomsd/src/federation/remote-command-port.ts.
unfoldable pub is_safe_remote_path : String → Bool
is_safe_remote_path s =
    leb (length s) 1024
    && (starts_with_slash s && all_chars is_path_char s)
    && not (contains (split_at b'/' s) "..")

unfoldable pub state_dir_field : Option Value → Option (Option String)
state_dir_field (some null) = some none
state_dir_field (some (text s)) = if is_safe_remote_path s then some (some s) else none
state_dir_field _ = none

unfoldable pub heartbeat_interval_ms_field : Option Value → Option (Option ℕ)
heartbeat_interval_ms_field (some null) = some none
heartbeat_interval_ms_field (some (whole n)) =
    if leb 100 n && leb n 300000 then some (some n) else none
heartbeat_interval_ms_field _ = none

abbrev pub version_field : Option Value → Option (Unit {0})
version_field v = elim (whole_between 3 3 v) [ none ↦ none | some n ↦ some tt ]

abbrev pub channel_field : Option Value → Option (Unit {0})
channel_field v = elim (one_of ("sshStdio" ∷ []) v) [ none ↦ none | some s ↦ some tt ]

module _ (platform : Platform) where
  abbrev is_date : String → Bool
  is_date s = is_some (platform.date s)

  unfoldable pub timestamp_field : Option Value → Option String
  unfolding str
  timestamp_field v = tested is_date (str v)

  abbrev within : Option ℕ → Option ℕ → Bool
  within (some start) (some stop) = ltb start stop && leb (stop - start) 300000
  within _ _ = false

  -- `windowField`
  unfoldable pub window_field : String → String → Option (Unit {0})
  window_field issued_at expires_at =
      guard (within (platform.date issued_at) (platform.date expires_at))

  -- `transportPolicyField`, at the time `now`.
  unfoldable pub transport_policy_field : ℕ → Option Value → Option Value
  transport_policy_field now v = if validate_transport_policy platform now v then v else none

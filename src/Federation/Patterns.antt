-- ===== src/Federation/Patterns.antt =====
-- The regular expressions of roomsd/src/federation/codec.ts, relay-protocol.ts and
-- remote-command-port.ts, and the fields that are tested by them.
use Prim.Native.Char.{code}
use Prim.Native.String.{[], ◌∷◌}
use wardroom.Base.{
  ℕ, zero, suc, ◌+◌, ◌-◌, ◌*◌, ◌%◌, String, Bool, true, false, ◌&&◌, ◌||◌, not, Option, none, some,
  if◌then◌else◌, leb, ◌==◌, ◌===◌,
}

-- The characters of a text, all of them ASCII where a pattern has passed.
unfoldable pub length : String → ℕ
length [] = 0
length (c ∷ s) = suc (length s)

unfoldable pub all_chars : (ℕ → Bool) → String → Bool
all_chars p [] = true
all_chars p (c ∷ s) = p (code c) && all_chars p s

abbrev pub between : ℕ → ℕ → ℕ → Bool
between lo hi c = leb lo c && leb c hi

abbrev pub is_digit : ℕ → Bool
is_digit c = between b'0' b'9' c

-- `[0-9a-f]`
abbrev pub is_hex : ℕ → Bool
is_hex c = is_digit c || between b'a' b'f' c

-- `[A-Za-z0-9+/]`
abbrev pub is_base64 : ℕ → Bool
is_base64 c = between b'A' b'Z' c || between b'a' b'z' c || is_digit c || c == b'+' || c == b'/'

-- `^[0-9a-f]{64}$`
unfoldable pub is_fingerprint : String → Bool
unfolding all_chars length
is_fingerprint s = all_chars is_hex s && length s == 64

-- `^[0-9a-f]+$`, of at least 64 characters.
unfoldable pub is_nonce : String → Bool
unfolding all_chars length
is_nonce s = all_chars is_hex s && leb 64 (length s)

unfoldable pub drop_prefix : String → String → Option String
drop_prefix [] s = some s
drop_prefix (c ∷ p) [] = none
drop_prefix (c ∷ p) (d ∷ s) = if code c == code d then drop_prefix p s else none

abbrev fingerprint_rest : Option String → Bool
fingerprint_rest none = false
fingerprint_rest (some s) = is_fingerprint s

-- `^authority-[0-9a-f]{64}$`
unfoldable pub is_authority_id : String → Bool
unfolding drop_prefix
is_authority_id s = fingerprint_rest (drop_prefix "authority-" s)

-- At most two `=` and nothing behind them.
abbrev pub is_padding : String → Bool
is_padding s = s === "" || s === "=" || s === "=="

-- What stands behind the characters of base64.
unfoldable pub drop_base64 : String → String
drop_base64 [] = []
drop_base64 (c ∷ s) = if is_base64 (code c) then drop_base64 s else c ∷ s

abbrev starts_base64 : String → Bool
starts_base64 [] = false
starts_base64 (c ∷ s) = is_base64 (code c)

-- `^[A-Za-z0-9+/]+={0,2}$`, of a length that four divides.
unfoldable pub is_encoded : String → Bool
unfolding drop_base64 length
is_encoded s = starts_base64 s && is_padding (drop_base64 s) && length s % 4 == 0

-- A group of `n` hexadecimal digits and what follows it.
unfoldable pub drop_hex : ℕ → String → Option String
drop_hex zero s = some s
drop_hex (suc n) [] = none
drop_hex (suc n) (c ∷ s) = if is_hex (code c) then drop_hex n s else none

abbrev after_dash : Option String → Option String
after_dash none = none
after_dash (some s) = drop_prefix "-" s

abbrev then_hex : ℕ → Option String → Option String
then_hex n none = none
then_hex n (some s) = drop_hex n s

abbrev is_end : Option String → Bool
is_end none = false
is_end (some s) = s === ""

-- `^[0-9a-f]{8}-[0-9a-f]{4}-[0-9a-f]{4}-[0-9a-f]{4}-[0-9a-f]{12}$`
unfoldable pub is_uuid : String → Bool
unfolding drop_hex drop_prefix
is_uuid s = is_end (
    then_hex 12 (
      after_dash (
        then_hex 4
          (after_dash (then_hex 4 (after_dash (then_hex 4 (after_dash (drop_hex 8 s)))))))))

abbrev no_leading_zero : String → Bool
no_leading_zero [] = false
no_leading_zero (c ∷ []) = true
no_leading_zero (c ∷ d ∷ s) = not (code c == b'0')

-- `^(0|[1-9][0-9]*)$`
unfoldable pub is_decimal : String → Bool
unfolding all_chars
is_decimal s = no_leading_zero s && all_chars is_digit s

unfoldable pub value_from : ℕ → String → ℕ
value_from n [] = n
value_from n (c ∷ s) = value_from (n * 10 + (code c - b'0')) s

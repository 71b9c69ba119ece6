-- ===== src/Base/Text.antt =====
-- Texts: a decision of equality, and the blank texts, those that `trim` empties.
use Prim.Native.Char.{Char, code}
use Prim.Native.String.{String, [], ◌∷◌}
use Prim.Native.Nat.{ℕ, ◌+◌}
use mathlib.Core.Path.{◌≡◌, refl}
use mathlib.Core.Bool.{Bool, true, false, ◌&&◌, ◌||◌}
use native.Mathlib.Omega.{arith}
use text.Mathlib.Text.{◌==◌ as str_eq}
use text.Mathlib.TextEquality.{eq_iff}
use wardroom.Base.Tests.{◌==◌, ltb, leb, is_yes, if◌then◌else◌}

decide_by : (s t : String) (b : Bool) → str_eq s t ≡ b → Dec (s ≡ t)
decide_by s t true e = yes ((eq_iff s t).0 e)
decide_by s t false e = no (λ p. ground (arith, eq_iff s t))

unfoldable pub text_discrete : Discrete String
unfolding decide_by
text_discrete s t = decide_by s t (str_eq s t) refl

-- The white space of ECMAScript's `trim`.
unfoldable pub is_space : Char → Bool
is_space c =
    let n = code c in
    (leb 9 n && leb n 13)
    || n == 32
    || n == 160
    || n == 0x1680
    || (leb 0x2000 n && leb n 0x200a)
    || n == 0x2028
    || n == 0x2029
    || n == 0x202f
    || n == 0x205f
    || n == 0x3000
    || n == 0xfeff

-- `!text.trim()`
unfoldable pub blank : String → Bool
blank [] = true
blank (c ∷ s) = is_space c && blank s

-- `Buffer.byteLength(text, "utf8")`
unfoldable pub byte_length : String → ℕ
byte_length [] = 0
byte_length (c ∷ s) =
    let n = code c in
    (if ltb n 0x80 then 1 else if ltb n 0x800 then 2 else if ltb n 0x10000 then 3 else 4)
    + byte_length s

-- `text.trim()`
unfoldable pub trim_end : String → String
trim_end [] = []
trim_end (c ∷ s) = if blank (c ∷ s) then [] else c ∷ trim_end s

unfoldable pub trim : String → String
trim [] = []
trim (c ∷ s) = if is_space c then trim s else trim_end (c ∷ s)

-- The order of SQLite's BINARY collation: bytes of UTF-8, which is the order of code points.
unfoldable pub text_leb : String → String → Bool
text_leb [] t = true
text_leb (c ∷ s) [] = false
text_leb (c ∷ s) (d ∷ t) = (ltb (code c) (code d)) || (code c == code d && text_leb s t)

-- `s === t`
infix 50 ◌===◌
abbrev pub ◌===◌ : String → String → Bool
s === t = is_yes (text_discrete s t)

pub ===_refl : (s : String) → (s === s) ≡ true
===_refl s = ground arith

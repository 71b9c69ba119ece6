-- ===== src/Relay/Parsing/Held.antt =====
-- What holds of a field that is accepted: the field validators of
-- roomsd/src/federation/relay-protocol.ts.
use wardroom.Base.{
  ℕ, ◌≤◌, String, ◌≡◌, refl, Bool, true, false, Option, none, some, List, ◌&&◌, Bool-cases,
  if◌then◌else◌, leb, leb→le, arith, inl, inr, byte_length,
}
use wardroom.Json.{Value, null, text, whole, contains}
use wardroom.Federation.Patterns.{
  is_encoded, is_decimal, is_authority_id, is_uuid, is_fingerprint, is_nonce,
}
use wardroom.Relay.Fields.{
  ◌>>=◌, guard, str, tested, bounded_str, bounded_base64, counter_field, authority_field,
  connection_id_field, fingerprint_field, base64_field, nonce_field, one_of, is_safe_remote_path,
  state_dir_field, heartbeat_interval_ms_field, whole_between, whole_from,
}

-- What holds of a result, if there is one.
abbrev pub Holds {ℓ κ} : {A : Type ℓ} → (A → Type κ) → Option A → Type κ
Holds P none = Unit
Holds P (some a) = P a

pub if-Holds {ℓ κ} :
    {A : Type ℓ} (P : A → Type κ) (b : Bool) (x y : Option A)
    → Holds P x
    → Holds P y
    → Holds P (if b then x else y)
if-Holds P true x y h k = h
if-Holds P false x y h k = k

pub >>=-Holds {ℓ κ ι} :
    {A : Type ℓ} {B : Type κ} (Q : A → Type ι) (P : B → Type ι) (m : Option A) (f : A → Option B)
    → Holds Q m
    → ((a : A) → Q a → Holds P (f a))
    → Holds P (m >>= f)
>>=-Holds Q P none f h k = tt
>>=-Holds Q P (some a) f h k = k a h

abbrev pub Fits : ℕ → String → Type 0
Fits n s = byte_length s ≤ n

pub >>=-any {ℓ κ ι} :
    {A : Type ℓ} {B : Type κ} (P : B → Type ι) (m : Option A) (f : A → Option B)
    → ((a : A) → Holds P (f a))
    → Holds P (m >>= f)
>>=-any P none f k = tt
>>=-any P (some a) f k = k a

tested-Holds {κ} :
    (P : String → Type κ) (p : String → Bool) (o : Option String)
    → ((s : String) → p s ≡ true → P s)
    → Holds P (tested p o)
tested-Holds P p none h = tt
tested-Holds P p (some s) h = elim (Bool-cases (p s)) [ inl e ↦ rw e (h s e) | inr e ↦ rw e tt ]

pub bounded_str-Fits : (n : ℕ) (v : Option Value) → Holds (Fits n) (bounded_str n v)
unfolding bounded_str
bounded_str-Fits n v =
    tested-Holds (Fits n) (λ s. leb (byte_length s) n) (str v) (λ s e. leb→le _ _ e)

-- A text of which two things hold.
tested-both {κ ι} :
    (P : String → Type κ) (Q : String → Type ι) (p : String → Bool) (o : Option String)
    → Holds Q o
    → ((s : String) → p s ≡ true → P s)
    → Holds (λ s. P s × Q s) (tested p o)
tested-both P Q p none h k = tt
tested-both P Q p (some s) h k = elim (Bool-cases (p s)) [
  | inl e ↦ rw e (k s e, h)
  | inr e ↦ rw e tt
]

-- A text that a test accepts.
abbrev pub Passes : (String → Bool) → String → Type 0
Passes p s = p s ≡ true

abbrev pub IsEncoded : ℕ → String → Type 0
IsEncoded n s = Passes is_encoded s × Fits n s

abbrev pub IsCounter : String → Type 0
IsCounter s = Passes is_decimal s × Fits 32 s

pub bounded_base64-IsEncoded : (n : ℕ) (v : Option Value) → Holds (IsEncoded n) (bounded_base64 n v)
unfolding bounded_base64
bounded_base64-IsEncoded n v =
    tested-both (Passes is_encoded) (Fits n) is_encoded (bounded_str n v) (bounded_str-Fits n v)
      (λ s e. e)

pub counter_field-IsCounter : (v : Option Value) → Holds IsCounter (counter_field v)
unfolding counter_field
counter_field-IsCounter v =
    tested-both (Passes is_decimal) (Fits 32) is_decimal (bounded_str 32 v) (bounded_str-Fits 32 v)
      (λ s e. e)

tested-Passes : (p : String → Bool) (o : Option String) → Holds (Passes p) (tested p o)
tested-Passes p o = tested-Holds (Passes p) p o (λ s e. e)

pub authority_field-Passes : (v : Option Value) → Holds (Passes is_authority_id) (authority_field v)
unfolding authority_field
authority_field-Passes v = tested-Passes is_authority_id (str v)

pub connection_id_field-Passes : (v : Option Value) → Holds (Passes is_uuid) (connection_id_field v)
unfolding connection_id_field
connection_id_field-Passes v = tested-Passes is_uuid (str v)

pub fingerprint_field-Passes :
    (v : Option Value) → Holds (Passes is_fingerprint) (fingerprint_field v)
unfolding fingerprint_field
fingerprint_field-Passes v = tested-Passes is_fingerprint (str v)

pub base64_field-Passes : (v : Option Value) → Holds (Passes is_encoded) (base64_field v)
unfolding base64_field
base64_field-Passes v = tested-Passes is_encoded (str v)

pub nonce_field-Passes : (v : Option Value) → Holds (Passes is_nonce) (nonce_field v)
unfolding nonce_field
nonce_field-Passes v = tested-Passes is_nonce (str v)

pub one_of-contains :
    (ks : List String) (v : Option Value) → Holds (Passes (contains ks)) (one_of ks v)
unfolding one_of
one_of-contains ks (some (text s)) = elim (Bool-cases (contains ks s)) [
  | inl e ↦ rw e e
  | inr e ↦ rw e tt
]
one_of-contains ks _ = tt

-- A guard that lets a value through.
pub guard-Holds : (b : Bool) → Holds (λ u. b ≡ true) (guard b)
guard-Holds true = refl
guard-Holds false = tt

pub state_dir_field-Holds :
    (v : Option Value) → Holds (Holds (Passes is_safe_remote_path)) (state_dir_field v)
unfolding state_dir_field
state_dir_field-Holds (some null) = tt
state_dir_field-Holds (some (text s)) = elim (Bool-cases (is_safe_remote_path s)) [
  | inl e ↦ rw e e
  | inr e ↦ rw e tt
]
state_dir_field-Holds _ = tt

abbrev pub Within : ℕ → ℕ → ℕ → Type 0
Within lo hi n = (lo ≤ n) × (n ≤ hi)

pub whole_between-Within :
    (lo hi : ℕ) (v : Option Value) → Holds (Within lo hi) (whole_between lo hi v)
unfolding whole_between
whole_between-Within lo hi (some (whole n)) = elim (Bool-cases (leb lo n && leb n hi)) [
  | inl e ↦ rw e (ground arith)
  | inr e ↦ rw e tt
]
whole_between-Within lo hi _ = tt

pub whole_from-le : (lo : ℕ) (v : Option Value) → Holds (λ n. lo ≤ n) (whole_from lo v)
unfolding whole_from
whole_from-le lo (some (whole n)) = elim (Bool-cases (leb lo n)) [
  | inl e ↦ rw e (leb→le _ _ e)
  | inr e ↦ rw e tt
]
whole_from-le lo _ = tt

pub heartbeat_interval_ms_field-Within :
    (v : Option Value) → Holds (Holds (Within 100 300000)) (heartbeat_interval_ms_field v)
unfolding heartbeat_interval_ms_field
heartbeat_interval_ms_field-Within (some null) = tt
heartbeat_interval_ms_field-Within (some (whole n)) =
    elim (Bool-cases (leb 100 n && leb n 300000)) [ inl e ↦ rw e (ground arith) | inr e ↦ rw e tt ]
heartbeat_interval_ms_field-Within _ = tt

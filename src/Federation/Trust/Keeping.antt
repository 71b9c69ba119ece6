-- ===== src/Federation/Trust/Keeping.antt =====
-- A record that was written is read as it is, at any later time: `writeRecord`, `tryReadRecord` and
-- `parseRecord` of roomsd/src/federation/peer-trust.ts.
use wardroom.Base.{
  ℕ, ◌≤◌, ◌≡◌, ◌≢◌, refl, sym, ◌∙◌, ap, String, true, Option, none, some, [], ◌∷◌, arith,
  Option-cases, inl, inr, text_discrete, ===_refl,
}
use wardroom.Json.{Value, text, get, keys, contains, exact_keys}
use wardroom.Federation.Policy.{record_of, timestamp, validate_transport_policy}
use wardroom.Federation.Trust.{
  PeerTrustState, pending, confirming, active, revoked, PeerTrustRecord, Machine, Files, state_text,
  state_field, nullable, nullable_field, value_of, record_fields, find, write_record,
  bound_transport_policy, is_sound, tested, parse_record, parsed, try_read_record,
}

pub find-write_record_same :
    (a : String) (v : Value) (files : Files) → find a (write_record a v files) ≡ some v
unfolding find write_record
find-write_record_same a v [] = ground (arith, ===_refl a)
find-write_record_same a v ((b, w) ∷ files) =
    ground (arith, ===_refl a, find-write_record_same a v files)

pub find-write_record_other :
    (a b : String) (v : Value) (files : Files)
    → a ≢ b
    → find b (write_record a v files) ≡ find b files
unfolding find write_record
find-write_record_other a b v [] h = ground arith
find-write_record_other a b v ((c, w) ∷ files) h =
    ground (arith, find-write_record_other a b v files h)

state_field-state_text : (s : PeerTrustState) → state_field (some (text (state_text s))) ≡ some s
unfolding state_field text_discrete
state_field-state_text pending = refl
state_field-state_text confirming = refl
state_field-state_text active = refl
state_field-state_text revoked = refl

nullable_field-nullable : (o : Option String) → nullable_field (some (nullable o)) ≡ some o
nullable_field-nullable none = refl
nullable_field-nullable (some s) = refl

record_fields-value_of : (r : PeerTrustRecord) → record_fields (value_of r) ≡ some r
unfolding record_fields exact_keys keys contains get text_discrete
record_fields-value_of r =
    rw
      (
        state_field-state_text r.state,
        nullable_field-nullable r.revoked_at,
        nullable_field-nullable r.revoked_reason,
      )
      refl

module _ (m : Machine) where
  policy-later :
      (t n : ℕ) (v : Option Value)
      → t ≤ n
      → validate_transport_policy m.platform t v ≡ true
      → validate_transport_policy m.platform n v ≡ true
  unfolding validate_transport_policy
  policy-later t n v le h = elim (Option-cases (record_of v)) [
    | inl k ↦ absurd (ground arith)
    | inr (fs, k) ↦ elim (Option-cases (timestamp m.platform (get "verifiedAt" fs))) [
      | inl l ↦ ground arith
      | inr (at, l) ↦ ground arith
    ]
  ]

  pub is_sound-later :
      (t n : ℕ) (a : String) (r : PeerTrustRecord)
      → t ≤ n
      → is_sound m t a r ≡ true
      → is_sound m n a r ≡ true
  unfolding is_sound bound_transport_policy
  is_sound-later t n a r le h = ground (arith, policy-later t n (some r.transport_policy) le)

  parse_record-is_sound :
      (t : ℕ) (a : String) (v : Value) (r : PeerTrustRecord)
      → parse_record m t a v ≡ some r
      → (record_fields v ≡ some r) × (is_sound m t a r ≡ true)
  unfolding parse_record
  parse_record-is_sound t a v r e = elim (Option-cases (record_fields v)) [
    | inl k ↦ absurd (ground arith)
    | inr (s, k) ↦ (ground arith, ground arith)
  ]

  -- A record that is read was sound then.
  pub try_read_record-is_sound :
      (t : ℕ) (a : String) (files : Files) (r : PeerTrustRecord)
      → try_read_record m t a files ≡ some (some r)
      → is_sound m t a r ≡ true
  unfolding try_read_record
  try_read_record-is_sound t a files r e = elim (Option-cases (find a files)) [
    | inl k ↦ absurd (ground arith)
    | inr (v, k) ↦ elim (Option-cases (parse_record m t a v)) [
      | inl l ↦ absurd (ground arith)
      | inr (s, l) ↦ ground (arith, parse_record-is_sound t a v s l)
    ]
  ]

  -- A record that is read now is read later.
  pub try_read_record-later :
      (t n : ℕ) (a : String) (files : Files) (r : PeerTrustRecord)
      → t ≤ n
      → try_read_record m t a files ≡ some (some r)
      → try_read_record m n a files ≡ some (some r)
  unfolding try_read_record parse_record
  try_read_record-later t n a files r le e = elim (Option-cases (find a files)) [
    | inl k ↦ absurd (ground arith)
    | inr (v, k) ↦ elim (Option-cases (record_fields v)) [
      | inl l ↦ absurd (ground arith)
      | inr (s, l) ↦ ground (arith, is_sound-later t n a s le)
    ]
  ]

  parse_record-value_of :
      (n : ℕ) (a : String) (r : PeerTrustRecord)
      → is_sound m n a r ≡ true
      → parse_record m n a (value_of r) ≡ some r
  unfolding parse_record
  parse_record-value_of n a r h = ap (tested m n a) (record_fields-value_of r) ∙ rw h refl

  -- A sound record that is written is read.
  pub try_read_record-write_record :
      (n : ℕ) (a : String) (r : PeerTrustRecord) (files : Files)
      → is_sound m n a r ≡ true
      → try_read_record m n a (write_record a (value_of r) files) ≡ some (some r)
  unfolding try_read_record
  try_read_record-write_record n a r files h =
      ap (parsed m n a) (find-write_record_same a (value_of r) files)
      ∙ rw (parse_record-value_of n a r h, parsed) refl

  -- What is written under another authority does not matter.
  pub try_read_record-other :
      (n : ℕ) (a b : String) (v : Value) (files : Files)
      → b ≢ a
      → try_read_record m n a (write_record b v files) ≡ try_read_record m n a files
  unfolding try_read_record
  try_read_record-other n a b v files h = rw (find-write_record_other b a v files h) refl

  -- What is read is what was written.
  pub try_read_record-written :
      (t : ℕ) (a : String) (r s : PeerTrustRecord) (files : Files)
      → try_read_record m t a (write_record a (value_of s) files) ≡ some (some r)
      → r ≡ s
  unfolding try_read_record
  try_read_record-written t a r s files e =
      let found : parsed m t a (some (value_of s)) ≡ some (some r) =
        sym (ap (parsed m t a) (find-write_record_same a (value_of s) files)) ∙ e in
      elim (Option-cases (parse_record m t a (value_of s))) [
        | inl l ↦ absurd (ground arith)
        | inr (u, l) ↦
            ground (arith, parse_record-is_sound t a (value_of s) u l, record_fields-value_of s)
      ]

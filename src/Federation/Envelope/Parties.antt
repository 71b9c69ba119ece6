-- ===== src/Federation/Envelope/Parties.antt =====
-- What an accepted envelope is safe from: `validateEnvelope` of roomsd/src/federation/codec.ts.
use wardroom.Base.{
  ℕ, String, ◌≡◌, ◌≢◌, refl, sym, subst, Bool, true, false, ◌&&◌, not, Option, none, some, List, [],
  ◌∷◌, arith, is_some, Option-cases, inl, inr, ◌⊎◌,
}
use wardroom.Json.{
  Value, null, boolean, whole, other_number, text, array, object, Fields, end, field, get, keys,
  contains, every,
}
use wardroom.Federation.{Platform}
use wardroom.Federation.Policy.{record_of}
use wardroom.Federation.Envelope.{
  authority_keys, differ, validate_payload, validate_home, validate_envelope,
}

-- The authorities between which an envelope goes.
abbrev pub party : String → Option Value → Option String
party k v = elim (record_of v) [ none ↦ none | some fs ↦ validate_home (get k fs) ]

abbrev pub payload_of : Option Value → Option Value
payload_of v = elim (record_of v) [ none ↦ none | some fs ↦ get "payload" fs ]

abbrev key_in : String → Option Fields → Option Value
key_in k none = none
key_in k (some fs) = get k fs

abbrev pub key_of : String → Option Value → Option Value
key_of k v = key_in k (record_of v)

-- A key that the keys of an object do not contain is not there.
get-keys : (k : String) (fs : Fields) → contains (keys fs) k ≡ false → get k fs ≡ none
unfolding get keys contains
get-keys k end h = refl
get-keys k (field j v fs) h = ground (arith, get-keys k fs)

every-contains :
    (p : String → Bool) (ks : List String) (k : String)
    → every p ks ≡ true
    → p k ≡ false
    → contains ks k ≡ false
unfolding contains
every-contains p [] k h n = refl
every-contains p (j ∷ ks) k h n = ground (arith, every-contains p ks k)

differ-ne :
    (o q : Option String)
    → differ o q ≡ true
    → (s : String) × (t : String) × (o ≡ some s) × (q ≡ some t) × (s ≢ t)
differ-ne (some s) (some t) h = (s, t, refl, refl, λ e. ground arith)
differ-ne none q h = absurd (ground arith)
differ-ne (some s) none h = absurd (ground arith)

validate_payload-object : (v : Option Value) → validate_payload v ≡ true → record_of v ≢ none
unfolding validate_payload
validate_payload-object v h e = ground arith

-- A payload that is accepted names no authority.
validate_payload-keys :
    (v : Option Value) (fs : Fields) (k : String)
    → validate_payload v ≡ true
    → record_of v ≡ some fs
    → contains authority_keys k ≡ true
    → get k fs ≡ none
unfolding validate_payload
validate_payload-keys v fs k h e c = get-keys k fs (
    every-contains (λ j. not (contains authority_keys j)) (keys fs) k (ground arith) (ground arith))

and-parts : (a b : Bool) → (a && b) ≡ true → (a ≡ true) × (b ≡ true)
and-parts true b h = (refl, h)
and-parts false b h = absurd (ground arith)

record_of-cases :
    (v : Option Value) → (record_of v ≡ none) ⊎ ((fs : Fields) × (v ≡ some (object fs)))
record_of-cases none = inl refl
record_of-cases (some (object fs)) = inr (fs, refl)
record_of-cases (some null) = inl refl
record_of-cases (some (boolean b)) = inl refl
record_of-cases (some (whole n)) = inl refl
record_of-cases (some (other_number s)) = inl refl
record_of-cases (some (text s)) = inl refl
record_of-cases (some (array xs)) = inl refl

validate_envelope-object :
    (platform : Platform) (now : ℕ) (v : Option Value)
    → validate_envelope platform now v ≡ true
    → record_of v ≢ none
unfolding validate_envelope
validate_envelope-object platform now v h e = ground arith

-- The parts of the test that this is about.
validate_envelope-parts :
    (platform : Platform) (now : ℕ) (fs : Fields)
    → validate_envelope platform now (some (object fs)) ≡ true
    → (differ (validate_home (get "origin" fs)) (validate_home (get "destination" fs)) ≡ true)
      × (validate_payload (get "payload" fs) ≡ true)
unfolding validate_envelope
validate_envelope-parts platform now fs h =
    let (rest, payload) = and-parts _ _ h in ((and-parts _ _ rest).1, payload)

-- An envelope that is accepted goes from one authority to another one, and its payload is an object
-- that has none of the keys that name authorities.
pub validate_envelope-parties :
    (platform : Platform) (now : ℕ) (v : Option Value) (k : String)
    → validate_envelope platform now v ≡ true
    → contains authority_keys k ≡ true
    → (origin : String) × (destination : String) × (party "origin" v ≡ some origin)
      × (party "destination" v ≡ some destination)
      × (origin ≢ destination)
      × (is_some (record_of (payload_of v)) ≡ true)
      × (key_of k (payload_of v) ≡ none)
validate_envelope-parties platform now v k h c = elim (record_of-cases v) [
  | inl no_object ↦ absurd (validate_envelope-object platform now v h no_object)
  | inr (fs, e) ↦
      let (apart, good) = validate_envelope-parts platform now fs (rw e at h) in
      let (s, t, from, to, ne) = differ-ne _ _ apart in
      elim (Option-cases (record_of (get "payload" fs))) [
        | inl no_object ↦ absurd (validate_payload-object (get "payload" fs) good no_object)
        | inr (ps, f) ↦
            let none_such = validate_payload-keys (get "payload" fs) ps k good f c in
            (
              s,
              t,
              rw e from,
              rw e to,
              ne,
              rw e (subst (λ (o : Option Fields). is_some o ≡ true) (sym f) refl),
              rw e (subst (λ (o : Option Fields). key_in k o ≡ none) (sym f) none_such),
            )
      ]
]

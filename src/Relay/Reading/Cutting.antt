-- ===== src/Relay/Reading/Cutting.antt =====
-- The lines of texts in a row, and how a text fits that goes on: the loop of `RelayFrameReader.push` in
-- roomsd/src/federation/relay-protocol.ts.
use wardroom.Base.{
  ℕ, ◌≤◌, ◌≡◌, refl, sym, subst, ap, ◌∙◌, Bool, some, List, [], ◌∷◌, ◌++◌, arith, All, Bool-cases,
  inl, inr, ◌==◌, append_assoc, false,
}
use wardroom.Relay.Reading.{
  Units, utf8_length, bytes_from, cut, push_text, relay_max_frame_bytes, onto, is_high,
}

abbrev pub Cut : Type 0
Cut = List Units × Units

-- What a text adds to the lines in front of it.
abbrev pub after : List Units → Cut → Cut
after ls (ms, rest) = (ls ++ ms, rest)

onto-after :
    (c : ℕ) (ls : List Units) (r : Units) (o : Cut)
    → onto c (after (r ∷ ls) o) ≡ after ((c ∷ r) ∷ ls) o
onto-after c ls r (ms, rest) = refl

after-nil : (o : Cut) → after [] o ≡ o
after-nil (ms, rest) = refl

after-after : (ls ms : List Units) (o : Cut) → after ls (after ms o) ≡ after (ls ++ ms) o
after-after ls ms (ns, rest) = rw append_assoc refl

onto-append :
    (c : ℕ) (o : Cut) (ys : Units)
    → (c == b'\n') ≡ false
    → onto c (after o.0 (cut (o.1 ++ ys))) ≡ after (onto c o).0 (cut ((onto c o).1 ++ ys))
unfolding cut
onto-append c ([], rest) ys e =
    rw (after-nil (cut (rest ++ ys)), e, after-nil (onto c (cut (rest ++ ys)))) refl
onto-append c (l ∷ ls, rest) ys e = onto-after c ls l (cut (rest ++ ys))

-- The lines of two texts in a row.
pub cut-append : (xs ys : Units) → cut (xs ++ ys) ≡ after (cut xs).0 (cut ((cut xs).1 ++ ys))
unfolding cut
cut-append [] ys = sym (after-nil (cut ys))
cut-append (c ∷ xs) ys = elim (Bool-cases (c == b'\n')) [
  | inl e ↦ rw (e, cut-append xs ys) refl
  | inr e ↦ rw (e, cut-append xs ys) (onto-append c (cut xs) ys e)
]

-- What follows the last newline has none.
unfoldable pub IsOpen : Units → Type 0
IsOpen xs = cut xs ≡ ([], xs)

onto-IsOpen : (c : ℕ) (o : Cut) → (c == b'\n') ≡ false → IsOpen o.1 → IsOpen (onto c o).1
unfolding IsOpen cut
onto-IsOpen c ([], rest) e h = rw (e, h) refl
onto-IsOpen c (l ∷ ls, rest) e h = h

pub cut-IsOpen : (xs : Units) → IsOpen (cut xs).1
unfolding IsOpen cut
cut-IsOpen [] = refl
cut-IsOpen (c ∷ xs) = elim (Bool-cases (c == b'\n')) [
  | inl e ↦ rw e (cut-IsOpen xs)
  | inr e ↦ rw e (onto-IsOpen c (cut xs) e (cut-IsOpen xs))
]

-- A part of a text is no longer than the text.
bytes_from-append : (p : Bool) (xs ys : Units) → bytes_from p xs ≤ bytes_from p (xs ++ ys)
unfolding bytes_from
bytes_from-append p [] ys = omega arith
bytes_from-append p (c ∷ xs) ys = omega (arith, bytes_from-append (is_high c) xs ys)

abbrev pub FitsIn : Units → Type 0
FitsIn line = utf8_length line ≤ relay_max_frame_bytes

-- Every line fits, and what follows them too.
abbrev pub IsFit : Cut → Type 0
IsFit (lines, rest) = All FitsIn lines × FitsIn rest

abbrev first_line : Cut → Units
first_line ([], rest) = rest
first_line (l ∷ ls, rest) = l

first_line-onto : (c : ℕ) (o : Cut) → first_line (onto c o) ≡ c ∷ first_line o
first_line-onto c ([], rest) = refl
first_line-onto c (l ∷ ls, rest) = refl

onto-inverse : (c : ℕ) (o : Cut) (xs : Units) → onto c o ≡ ([], c ∷ xs) → o ≡ ([], xs)
onto-inverse c ([], rest) xs h = ground arith
onto-inverse c (l ∷ ls, rest) xs h = absurd (ground arith)

pub IsOpen-tail : (c : ℕ) (xs : Units) → IsOpen (c ∷ xs) → ((c == b'\n') ≡ false) × IsOpen xs
unfolding IsOpen cut
IsOpen-tail c xs h = elim (Bool-cases (c == b'\n')) [
  | inl e ↦ absurd (ground arith)
  | inr e ↦ (e, onto-inverse c (cut xs) xs (rw e at h))
]

-- An open text begins the first line of whatever goes on from it.
first_line-open :
    (xs ys : Units) → IsOpen xs → (more : Units) × (first_line (cut (xs ++ ys)) ≡ xs ++ more)
unfolding cut
first_line-open [] ys h = (first_line (cut ys), refl)
first_line-open (c ∷ xs) ys h =
    let (e, opened) = IsOpen-tail c xs h in
    let (more, begins) = first_line-open xs ys opened in
    (more, rw e (first_line-onto c (cut (xs ++ ys)) ∙ ap (λ (t : Units). c ∷ t) begins))

first_line-FitsIn : (o : Cut) → IsFit o → FitsIn (first_line o)
first_line-FitsIn ([], rest) h = h.1
first_line-FitsIn (l ∷ ls, rest) h = h.0.0

open-FitsIn : (xs ys : Units) → IsOpen xs → IsFit (cut (xs ++ ys)) → FitsIn xs
open-FitsIn xs ys opened h =
    let (more, begins) = first_line-open xs ys opened in
    omega (
      arith,
      bytes_from-append false xs more,
      subst FitsIn begins (first_line-FitsIn (cut (xs ++ ys)) h),
    )

pub after-IsFit : (ls : List Units) (o : Cut) → IsFit (after ls o) → IsFit o
after-IsFit [] (ms, rest) h = h
after-IsFit (l ∷ ls) (ms, rest) h = after-IsFit ls (ms, rest) (h.0.1, h.1)

pub push_text-cut :
    (buffer chunk later : Units)
    → IsFit (cut ((buffer ++ chunk) ++ later))
    → push_text buffer chunk ≡ some (cut (buffer ++ chunk))
unfolding push_text
push_text-cut buffer chunk later h =
    let all = buffer ++ chunk in
    let rest =
      after-IsFit (cut all).0 (cut ((cut all).1 ++ later)) (rw (cut-append all later) at h) in
    let fits = open-FitsIn (cut all).1 later (cut-IsOpen all) rest in ground arith

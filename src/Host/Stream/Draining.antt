-- ===== src/Host/Stream/Draining.antt =====
-- One chunk or two: the loop of `push` in `HostFrameDecoder` of roomsd/src/runtime/host/codec.ts.
use wardroom.Base.{
  ℕ, zero, suc, ◌+◌, ◌<◌, ◌≡◌, refl, Option, none, some, List, [], ◌∷◌, ◌++◌, arith, length,
  length-append, Option-cases, inl, inr, ◌⊎◌,
}
use wardroom.Host.{Bytes, HostFrame, u32_of, split, Round, waits, bad, yields, round, drain}

pub split-length :
    (n : ℕ) (bs xs ys : Bytes) → split n bs ≡ some (xs, ys) → length bs ≡ n + length ys
unfolding split
split-length zero bs xs ys e = ground arith
split-length (suc n) [] xs ys e = absurd (ground arith)
split-length (suc n) (b ∷ bs) xs ys e = elim (Option-cases (split n bs)) [
  | inl no_split ↦ absurd (ground arith)
  | inr ((us, vs), found) ↦ ground (arith, split-length n bs us vs found)
]

split-append :
    (n : ℕ) (bs xs ys more : Bytes)
    → split n bs ≡ some (xs, ys)
    → split n (bs ++ more) ≡ some (xs, ys ++ more)
unfolding split
split-append zero bs xs ys more e = ground arith
split-append (suc n) [] xs ys more e = absurd (ground arith)
split-append (suc n) (b ∷ bs) xs ys more e = elim (Option-cases (split n bs)) [
  | inl no_split ↦ absurd (ground arith)
  | inr ((us, vs), found) ↦ ground (arith, split-append n bs us vs more found)
]

pub Round-cases :
    (o : Round) → (o ≡ waits) ⊎ (o ≡ bad) ⊎ ((f : HostFrame) × (rest : Bytes) × (o ≡ yields f rest))
Round-cases waits = inl refl
Round-cases bad = inr (inl refl)
Round-cases (yields f rest) = inr (inr (f, rest, refl))

pub round-shorter :
    (buffer rest : Bytes) (f : HostFrame)
    → round buffer ≡ yields f rest
    → length rest < length buffer
unfolding round
round-shorter [] rest f e = absurd (ground arith)
round-shorter (a ∷ []) rest f e = absurd (ground arith)
round-shorter (a ∷ b ∷ []) rest f e = absurd (ground arith)
round-shorter (a ∷ b ∷ c ∷ []) rest f e = absurd (ground arith)
round-shorter (a ∷ b ∷ c ∷ d ∷ bs) rest f e = elim (Option-cases (split (u32_of a b c d) bs)) [
  | inl no_split ↦ absurd (ground arith)
  | inr ((xs, ys), found) ↦ ground (arith, split-length (u32_of a b c d) bs xs ys found)
]

pub round-append_yields :
    (buffer more rest : Bytes) (f : HostFrame)
    → round buffer ≡ yields f rest
    → round (buffer ++ more) ≡ yields f (rest ++ more)
unfolding round
round-append_yields [] more rest f e = absurd (ground arith)
round-append_yields (a ∷ []) more rest f e = absurd (ground arith)
round-append_yields (a ∷ b ∷ []) more rest f e = absurd (ground arith)
round-append_yields (a ∷ b ∷ c ∷ []) more rest f e = absurd (ground arith)
round-append_yields (a ∷ b ∷ c ∷ d ∷ bs) more rest f e =
    elim (Option-cases (split (u32_of a b c d) bs)) [
      | inl no_split ↦ absurd (ground arith)
      | inr ((xs, ys), found) ↦ ground (arith, split-append (u32_of a b c d) bs xs ys more found)
    ]

pub round-append_bad : (buffer more : Bytes) → round buffer ≡ bad → round (buffer ++ more) ≡ bad
unfolding round
round-append_bad [] more e = absurd (ground arith)
round-append_bad (a ∷ []) more e = absurd (ground arith)
round-append_bad (a ∷ b ∷ []) more e = absurd (ground arith)
round-append_bad (a ∷ b ∷ c ∷ []) more e = absurd (ground arith)
round-append_bad (a ∷ b ∷ c ∷ d ∷ bs) more e = elim (Option-cases (split (u32_of a b c d) bs)) [
  | inl no_split ↦ ground arith
  | inr ((xs, ys), found) ↦ ground (arith, split-append (u32_of a b c d) bs xs ys more found)
]

-- Fuel beyond the buffer's length changes nothing.
pub drain-enough :
    (f g : ℕ) (buffer : Bytes)
    → length buffer < f
    → length buffer < g
    → drain f buffer ≡ drain g buffer
unfolding drain
drain-enough zero g buffer h k = absurd (omega arith)
drain-enough (suc f) zero buffer h k = absurd (omega arith)
drain-enough (suc f) (suc g) buffer h k = elim (Round-cases (round buffer)) [
  | inl e ↦ ground arith
  | inr (inl e) ↦ ground arith
  | inr (inr (x, rest, e)) ↦ ground (arith, round-shorter buffer rest x e, drain-enough f g rest)
]

abbrev Frames : Type 0
Frames = Option (List HostFrame × Bytes)

abbrev prefix : List HostFrame → Frames → Frames
prefix fs none = none
prefix fs (some (gs, left)) = some (fs ++ gs, left)

prefix-nil : (o : Frames) → prefix [] o ≡ o
prefix-nil none = refl
prefix-nil (some (gs, left)) = refl

prefix-cons :
    (f : HostFrame) (fs : List HostFrame) (o : Frames)
    → prefix (f ∷ fs) o ≡ prefix (f ∷ []) (prefix fs o)
prefix-cons f fs none = refl
prefix-cons f fs (some (gs, left)) = refl

pub drain-append :
    (f g h : ℕ) (b c left : Bytes) (fs : List HostFrame)
    → length b < f
    → length (b ++ c) < g
    → length (left ++ c) < h
    → drain f b ≡ some (fs, left)
    → drain g (b ++ c) ≡ prefix fs (drain h (left ++ c))
unfolding drain
drain-append zero g h b c left fs lf lg lh e = absurd (omega arith)
drain-append (suc f) zero h b c left fs lf lg lh e = absurd (omega arith)
drain-append (suc f) (suc g) h b c left fs lf lg lh e = elim (Round-cases (round b)) [
  | inl w ↦
      let none_yet : fs ≡ [] = ground arith in
      let same : left ≡ b = ground arith in
      rw (none_yet, same, prefix-nil (drain h (b ++ c)))
        (drain-enough (suc g) h (b ++ c) lg (ground arith))
  | inr (inl w) ↦ absurd (ground arith)
  | inr (inr (x, rest, w)) ↦
      let shorter = round-shorter b rest x w in
      let longer = round-append_yields b c rest x w in
      elim (Option-cases (drain f rest)) [
        | inl stopped ↦ absurd (ground arith)
        | inr ((gs, last), went) ↦
            let fit : length (rest ++ c) < g =
              omega (arith, length-append rest c, length-append b c) in
            let one = drain-append f g h rest c last gs (omega arith) fit (ground arith) went in
            let heads : fs ≡ x ∷ gs = ground arith in
            let same : left ≡ last = ground arith in
            rw (heads, same)
              (elim (Option-cases (drain h (last ++ c))) [
                | inl e₁ ↦ ground arith
                | inr (r, e₁) ↦ ground arith
              ])
      ]
]

pub drain-append_none :
    (f g : ℕ) (b c : Bytes)
    → length b < f
    → length (b ++ c) < g
    → drain f b ≡ none
    → drain g (b ++ c) ≡ none
unfolding drain
drain-append_none zero g b c lf lg e = absurd (omega arith)
drain-append_none (suc f) zero b c lf lg e = absurd (omega arith)
drain-append_none (suc f) (suc g) b c lf lg e = elim (Round-cases (round b)) [
  | inl w ↦ absurd (ground arith)
  | inr (inl w) ↦ ground (arith, round-append_bad b c)
  | inr (inr (x, rest, w)) ↦
      let fit = length-append rest c in
      ground (
        arith,
        length-append b c,
        fit,
        round-shorter b rest x w,
        round-append_yields b c rest x w,
        drain-append_none f g rest c,
      )
]

pub drain-waits :
    (f : ℕ) (b left : Bytes) (fs : List HostFrame)
    → length b < f
    → drain f b ≡ some (fs, left)
    → round left ≡ waits
unfolding drain
drain-waits zero b left fs lf e = absurd (omega arith)
drain-waits (suc f) b left fs lf e = elim (Round-cases (round b)) [
  | inl w ↦ ground arith
  | inr (inl w) ↦ absurd (ground arith)
  | inr (inr (x, rest, w)) ↦ elim (Option-cases (drain f rest)) [
    | inl stopped ↦ absurd (ground arith)
    | inr ((gs, last), went) ↦ ground (arith, round-shorter b rest x w, drain-waits f rest last gs)
  ]
]

pub drain-waiting : (f : ℕ) (b : Bytes) → round b ≡ waits → drain (suc f) b ≡ some ([], b)
unfolding drain
drain-waiting f b w = ground arith

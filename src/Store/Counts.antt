-- ===== src/Store/Counts.antt =====
-- Counts of membership rows under updates, and searches in sorted columns.
use wardroom.Base.{
  ◌+◌, ◌≤◌, String, ◌≡◌, refl, ◌∙◌, Bool, true, false, ◌&&◌, ◌||◌, List, [], ◌∷◌, map,
  if◌then◌else◌, any, select, update_where, arith, All, ap, sym, Bool-cases, inl, inr,
}
use wardroom.Contracts.{Membership}
use wardroom.Store.{
  count_where, insert_distinct, sort_distinct, active_of, active_row, Database,
  active_membership_channels, is_active_member,
}

-- The row that `update_where` leaves.
abbrev pub updated {ℓ} : {A : Type ℓ} → (A → Bool) → (A → A) → A → A
updated q f x = if q x then f x else x

module _ {ℓ} {A : Type ℓ} where
  pub any-update_where :
      (p q : A → Bool) (f : A → A)
      → ((x : A) → p (updated q f x) ≡ p x)
      → (xs : List A) → any p (update_where q f xs) ≡ any p xs
  any-update_where p q f h [] = refl
  any-update_where p q f h (x ∷ xs) = ground (arith, h x, any-update_where p q f h xs)

  pub All-update_where {κ μ} :
      (P : A → Type κ) (Q : A → Type μ) (q : A → Bool) (f : A → A)
      → ((x : A) → P x → Q (updated q f x))
      → (xs : List A) → All P xs
      → All Q (update_where q f xs)
  All-update_where P Q q f h [] a = tt
  All-update_where P Q q f h (x ∷ xs) (p, a) = (h x p, All-update_where P Q q f h xs a)

  pub All-map {κ μ} :
      (P : A → Type κ) (Q : A → Type μ)
      → ((x : A) → P x → Q x)
      → (xs : List A) → All P xs
      → All Q xs
  All-map P Q h [] a = tt
  All-map P Q h (x ∷ xs) (p, a) = (h x p, All-map P Q h xs a)

  pub any-update_none :
      (p q : A → Bool) (f : A → A)
      → ((x : A) → p (updated q f x) ≡ false)
      → (xs : List A) → any p (update_where q f xs) ≡ false
  any-update_none p q f h [] = refl
  any-update_none p q f h (x ∷ xs) = ground (arith, h x, any-update_none p q f h xs)

-- A count after an update is at most a sum of counts before it.
pub count-update-le :
    (p p₁ p₂ q : Membership → Bool) (f : Membership → Membership)
    → ((m : Membership) → p (updated q f m) ≡ true → p₁ m || p₂ m ≡ true)
    → (ms : List Membership)
    → count_where p (update_where q f ms) ≤ count_where p₁ ms + count_where p₂ ms
count-update-le p p₁ p₂ q f h [] = omega arith
count-update-le p p₁ p₂ q f h (m ∷ ms) = ground (arith, h m, count-update-le p p₁ p₂ q f h ms)

pub count-update_mono :
    (p p' q : Membership → Bool) (f : Membership → Membership)
    → ((m : Membership) → p (updated q f m) ≡ true → p' m ≡ true)
    → (ms : List Membership) → count_where p (update_where q f ms) ≤ count_where p' ms
count-update_mono p p' q f h [] = omega arith
count-update_mono p p' q f h (m ∷ ms) = ground (arith, h m, count-update_mono p p' q f h ms)

pub count_mono :
    (p p' : Membership → Bool)
    → ((m : Membership) → p m ≡ true → p' m ≡ true)
    → (ms : List Membership) → count_where p ms ≤ count_where p' ms
count_mono p p' h [] = omega arith
count_mono p p' h (m ∷ ms) = ground (arith, h m, count_mono p p' h ms)

pub count-eq-zero :
    (p : Membership → Bool) (ms : List Membership) → any p ms ≡ false → count_where p ms ≡ 0
count-eq-zero p [] h = refl
count-eq-zero p (m ∷ ms) h = ground (arith, count-eq-zero p ms)

any-insert_distinct :
    (p : String → Bool) (s : String) (ss : List String)
    → any p (insert_distinct s ss) ≡ (p s || any p ss)
unfolding insert_distinct
any-insert_distinct p s [] = refl
any-insert_distinct p s (t ∷ ts) = ground (arith, any-insert_distinct p s ts)

-- Sorting a column and dropping repetitions changes no search.
any-sort_distinct : (p : String → Bool) (ss : List String) → any p (sort_distinct ss) ≡ any p ss
unfolding sort_distinct
any-sort_distinct p [] = refl
any-sort_distinct p (s ∷ ss) =
    any-insert_distinct p s (sort_distinct ss) ∙ ap (λ b. p s || b) (any-sort_distinct p ss)

any-active_channels :
    (p : String → Bool) (c s : String) (ms : List Membership)
    → any p (map (λ (m : Membership). m.channel_id) (select (active_of s) ms)) ≡ false
    → any (active_row c s) ms ≡ true
    → p c ≡ false
any-active_channels p c s [] h k = ground arith
any-active_channels p c s (m ∷ ms) h k = ground (arith, any-active_channels p c s ms)

-- A search of the member's channels that finds nothing says so of each channel it is active in.
pub any-active_membership_channels :
    (p : String → Bool) (db : Database) (c s : String)
    → any p (active_membership_channels db s) ≡ false
    → is_active_member db c s ≡ true
    → p c ≡ false
unfolding active_membership_channels is_active_member
any-active_membership_channels p db c s h k =
    any-active_channels p c s db.memberships (sym (any-sort_distinct p _) ∙ h) k

found-active_channel :
    (p : String → Bool) (s : String) (ms : List Membership)
    → any p (map (λ (m : Membership). m.channel_id) (select (active_of s) ms)) ≡ true
    → (c : String) × (any (active_row c s) ms ≡ true) × (p c ≡ true)
found-active_channel p s [] h = cc
found-active_channel p s (m ∷ ms) h = elim (Bool-cases (active_of s m && p m.channel_id)) [
  | inl here ↦ (m.channel_id, ground arith, ground arith)
  | inr other ↦ let (c, row, q) = found-active_channel p s ms (ground arith) in (c, ground arith, q)
]

-- A search that finds something found a channel that the member is active in.
pub found-active_membership_channel :
    (p : String → Bool) (db : Database) (s : String)
    → any p (active_membership_channels db s) ≡ true
    → (c : String) × (is_active_member db c s ≡ true) × (p c ≡ true)
unfolding active_membership_channels is_active_member
found-active_membership_channel p db s h =
    found-active_channel p s db.memberships (sym (any-sort_distinct p _) ∙ h)

-- ===== src/Subscriptions/Feed/Ascending.antt =====
-- Cursors that grow: what `enqueueChanges` of roomsd/src/api/subscriptions/subscription.ts leaves of
-- them as it is.
use wardroom.Base.{
  ℕ, suc, ◌≤◌, ◌<◌, ◌≡◌, refl, Bool, false, List, [], ◌∷◌, arith, All, select, Bool-cases, inl, inr,
  any,
}
use wardroom.Contracts.{Change}
use wardroom.Store.Feed.{IsNumbered}
use wardroom.Subscriptions.{has_cursor, unique_after, sort_changes}

-- Cursors above `k` that grow.
abbrev pub IsAscending : ℕ → List Change → Type 0
IsAscending k [] = Unit
IsAscending k (c ∷ cs) = (k < c.cursor) × IsAscending c.cursor cs

pub IsAscending-weaken : (j k : ℕ) (cs : List Change) → j ≤ k → IsAscending k cs → IsAscending j cs
IsAscending-weaken j k [] h a = tt
IsAscending-weaken j k (c ∷ cs) h (l, a) = (omega arith, a)

pub select-IsAscending :
    (p : Change → Bool) (k : ℕ) (cs : List Change) → IsAscending k cs → IsAscending k (select p cs)
select-IsAscending p k [] a = tt
select-IsAscending p k (c ∷ cs) (l, a) =
    let tail = select-IsAscending p c.cursor cs a in
    let lower = IsAscending-weaken k c.cursor (select p cs) (omega arith) tail in
    elim (Bool-cases (p c)) [ inl hit ↦ rw hit (l, tail) | inr miss ↦ rw miss lower ]

pub IsNumbered-IsAscending : (k : ℕ) (cs : List Change) → IsNumbered k cs → IsAscending k cs
IsNumbered-IsAscending k [] n = tt
IsNumbered-IsAscending k (c ∷ cs) (e, n) = (omega arith, rw e (IsNumbered-IsAscending (suc k) cs n))

-- Every cursor of the list is at most `k`.
abbrev pub IsBelow : ℕ → List Change → Type 0
IsBelow k = All (λ (c : Change). c.cursor ≤ k)

pub IsBelow-weaken : (j k : ℕ) (cs : List Change) → j ≤ k → IsBelow j cs → IsBelow k cs
IsBelow-weaken j k [] h b = tt
IsBelow-weaken j k (c ∷ cs) h (l, b) = (omega arith, IsBelow-weaken j k cs h b)

pub not_among : (k n : ℕ) (cs : List Change) → IsBelow k cs → k < n → any (has_cursor n) cs ≡ false
not_among k n [] b h = refl
not_among k n (c ∷ cs) (l, b) h = ground (arith, not_among k n cs b h)

pub unique_after-IsAscending :
    (after k : ℕ) (earlier cs : List Change)
    → after ≤ k
    → IsBelow k earlier
    → IsAscending k cs
    → unique_after after earlier cs ≡ cs
unfolding unique_after
unique_after-IsAscending after k earlier [] h b a = refl
unique_after-IsAscending after k earlier (c ∷ cs) h b (l, a) =
    let new = not_among k c.cursor earlier b l in
    let rest =
      unique_after-IsAscending after c.cursor (c ∷ earlier) cs (omega arith)
        (omega arith, IsBelow-weaken k c.cursor earlier (omega arith) b) a in
    ground arith

pub sort_changes-IsAscending : (k : ℕ) (cs : List Change) → IsAscending k cs → sort_changes cs ≡ cs
unfolding sort_changes
sort_changes-IsAscending k [] a = refl
sort_changes-IsAscending k (c ∷ []) a = refl
sort_changes-IsAscending k (c ∷ d ∷ cs) (l, (m, a)) =
    let rest = sort_changes-IsAscending c.cursor (d ∷ cs) (m, a) in ground arith

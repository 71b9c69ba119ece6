-- ===== src/Store/Leaving.antt =====
-- What leaving does to the rows of a member.
use wardroom.Base.{
  ◌≤◌, ◌<◌, String, ◌≡◌, Bool, true, false, some, List, [], ◌∷◌, any, update_where, arith,
  Option-cases, inl, inr,
}
use wardroom.Contracts.{Membership, MutationReceipt}
use wardroom.Store.{
  Repository, done, Times, count_where, active_row, is_active_member, append_change,
}
use wardroom.Store.Memberships.{newest, key_taken, leave_row, leave_membership}
use wardroom.Store.Counts.{count-update_mono}

pub any-le-count :
    (p : Membership → Bool) (ms : List Membership) → any p ms ≡ true → 1 ≤ count_where p ms
any-le-count p [] h = cc
any-le-count p (m ∷ ms) h = ground (arith, any-le-count p ms)

abbrev key_of : Membership → Membership → Bool
key_of m = key_taken m.channel_id m.session_id m.joined_at

module _ (p : Membership → Bool) (f : Membership → Membership)
    (h : (n : Membership) → p (f n) ≡ false) (m : Membership) where
  fewer : (ms : List Membership) → count_where p (update_where (key_of m) f ms) ≤ count_where p ms
  fewer ms = count-update_mono p p (key_of m) f (λ n. ground (arith, h n)) ms

  -- The newest row that passes a test is one of them: to take it out leaves fewer.
  newest-update :
      (ms : List Membership)
      → newest p ms ≡ some m
      → count_where p (update_where (key_of m) f ms) < count_where p ms
  unfolding newest
  newest-update [] e = cc
  newest-update (x ∷ xs) e = elim (Option-cases (newest p xs)) [
    | inl none_left ↦ ground (arith, h x, fewer xs, newest-update xs)
    | inr (n, found) ↦ ground (arith, h x, fewer xs, newest-update xs)
  ]

newest-passes :
    (p : Membership → Bool) (ms : List Membership) (m : Membership)
    → newest p ms ≡ some m
    → p m ≡ true
unfolding newest
newest-passes p [] m e = cc
newest-passes p (x ∷ xs) m e = elim (Option-cases (newest p xs)) [
  | inl none_left ↦ ground (arith, newest-passes p xs m)
  | inr (n, found) ↦ ground (arith, newest-passes p xs m)
]

-- Where a session is an active member at most once, leaving ends it.
pub leave_membership-left :
    (c s : String) (t : Times) (r r' : Repository) (receipt : MutationReceipt)
    → count_where (active_row c s) r.memberships ≤ 1
    → leave_membership c s t r ≡ done receipt r'
    → is_active_member r'.db c s ≡ false
unfolding leave_membership append_change is_active_member
leave_membership-left c s t r r' receipt one e =
    elim (Option-cases (newest (active_row c s) r.memberships)) [
      | inl missing ↦ absurd (ground arith)
      | inr (m, found) ↦
          let here = newest-passes (active_row c s) r.memberships m found in
          let same : (m.channel_id ≡ c) × (m.session_id ≡ s) = (ground arith, ground arith) in
          let left =
            newest-update (active_row c s) (leave_row t.at) (λ n. ground arith) m r.memberships
              found in
          let gone =
            any-le-count (active_row c s)
              (update_where (key_taken c s m.joined_at) (leave_row t.at) r.memberships) in
          ground (arith, gone, rw same.0 at (rw same.1 at left))
    ]

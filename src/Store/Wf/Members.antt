-- ===== src/Store/Wf/Members.antt =====
-- Joining and leaving keep the tables well formed.
use wardroom.Base.{
  ℕ, String, ◌≡◌, false, Option, some, ◌∷◌, any, update_where, arith, Bool-cases, Option-cases, inl,
  inr,
}
use wardroom.Contracts.{SessionRole, planner, reviewer}
use wardroom.Store.{Database, Repository, Times, count_where, holds_role, active_row}
use wardroom.Store.Sessions.{is_open_channel, is_live_session}
use wardroom.Store.Memberships.{
  new_membership, key_taken, insert_membership, newest, leave_row, leave_membership,
}
use wardroom.Store.Counts.{All-update_where, count-eq-zero}
use wardroom.Store.Wf.{Placed, Single, Keeps, IsWellFormed, append_change-Keeps, Single-mono}

-- The seat that a role asks for is free.
abbrev pub IsFree : Database → String → Option SessionRole → Type 0
IsFree db channel role =
    (role ≡ some planner → count_where (holds_role channel planner) db.memberships ≡ 0)
    × (role ≡ some reviewer → count_where (holds_role channel reviewer) db.memberships ≡ 0)

module _ (channel session : String) (role : Option SessionRole) where
  new-Single :
      (at : ℕ) (db : Database)
      → IsFree db channel role
      → any (active_row channel session) db.memberships ≡ false
      → Single db.memberships
      → Single (new_membership channel session at role ∷ db.memberships)
  new-Single at db free e (a, b, d) = (
    λ c s. ground (arith, a c s, count-eq-zero (active_row channel session) db.memberships e),
    λ c. ground (arith, b c, free.0),
    λ c. ground (arith, d c, free.1),
  )

  pub insert_membership-Keeps :
      (t : Times) (r : Repository)
      → IsFree r.db channel role
      → IsWellFormed r.db
      → Keeps (insert_membership channel session role t r)
  unfolding insert_membership
  insert_membership-Keeps t r free w = elim (Bool-cases (is_open_channel r.db channel)) [
    | inr e ↦ rw (e, insert_membership) tt
    | inl e ↦ elim (Bool-cases (is_live_session r.db session)) [
      | inr l ↦ rw (e, l, insert_membership) tt
      | inl l ↦ elim (Bool-cases (any (active_row channel session) r.memberships)) [
        | inl old ↦ rw (e, l, old, insert_membership) w
        | inr new ↦ elim (Bool-cases (any (key_taken channel session t.at) r.memberships)) [
          | inl dup ↦ rw (e, l, new, dup, insert_membership) tt
          | inr key ↦
              let db : Database = record r.db {
                memberships = new_membership channel session t.at role ∷ r.memberships;
              } in
              rw (e, l, new, key, insert_membership)
                (append_change-Keeps db r _ (some channel) t.noted (record {
                  placed = (λ _. (l, e), w.placed);
                  single = new-Single t.at r.db free new w.single;
                }))
        ]
      ]
    ]
  ]

abbrev left_by : String → String → ℕ → ℕ → Database → Database
left_by channel session joined at db = record db {
  memberships = update_where (key_taken channel session joined) (leave_row at) db.memberships;
}

left_by-IsWellFormed :
    (channel session : String) (joined at : ℕ) (db : Database)
    → IsWellFormed db
    → IsWellFormed (left_by channel session joined at db)
left_by-IsWellFormed channel session joined at db w = record {
  placed =
      All-update_where (Placed db) (Placed db) (key_taken channel session joined) (leave_row at)
        (λ m p a. ground (arith, p)) db.memberships w.placed;
  single =
      Single-mono (key_taken channel session joined) (leave_row at) (λ c s m. ground arith)
        (λ c role m. ground arith) db.memberships w.single;
}

pub leave_membership-Keeps :
    (channel session : String) (t : Times) (r : Repository)
    → IsWellFormed r.db
    → Keeps (leave_membership channel session t r)
unfolding leave_membership
leave_membership-Keeps channel session t r w =
    elim (Option-cases (newest (active_row channel session) r.memberships)) [
      | inl e ↦ rw (e, leave_membership) tt
      | inr (m, e) ↦
          rw (e, leave_membership)
            (append_change-Keeps (left_by channel session m.joined_at t.at r.db) r _ (some channel)
              t.noted (left_by-IsWellFormed channel session m.joined_at t.at r.db w))
    ]

-- ===== src/Store/Wf/Roles.antt =====
-- A change of role keeps the tables well formed, where no other seat is taken.
pub mod Demoting
use wardroom.Base.{
  ◌+◌, ◌≤◌, String, ◌≡◌, ◌≢◌, ◌⊎◌, refl, sym, ◌∙◌, Bool, true, ◌&&◌, not, some, List, [], ◌∷◌, map,
  any, select, ◌===◌, arith, Bool-cases, Option-cases, inl, inr, All,
}
use wardroom.Contracts.{
  SessionRole, role_discrete, operator, planner, worker, reviewer, Session, Membership,
}
use wardroom.Store.{
  Database, Repository, Times, count_where, holds_role, holds_role_beside, active_row, active_of,
  is_active_member, current_session,
}
use wardroom.Store.Sessions.{is_live, is_live_session, session_role}
use wardroom.Store.Memberships.{
  assign_role, take_role, take_member_role, demote_all, replaced_planners, update_session_role,
}
use wardroom.Store.Counts.{
  any-update_where, All-update_where, count-update-le, count-update_mono, count_mono, count-eq-zero,
}
use wardroom.Store.Wf.{Placed, Single, Keeps, IsWellFormed, append_change-Keeps}
use wardroom.Store.Wf.Roles.Demoting.{
  among, assign_role-Placed, assign_role-active, assign_role-count, assign_role-others,
  assign_role-own, demote-IsWellFormed, demote_all-IsWellFormed, demote_all-active,
  demote_all-beside, none_left, handoff,
}

-- The seats that a promotion of `session` fills are free in every channel that it is active in,
-- but for a planner's in `channel` itself.
abbrev pub IsSeatFree : Database → String → String → SessionRole → Type 0
IsSeatFree db channel session role =
    (c : String)
    → is_active_member db c session ≡ true
    → (role ≡ planner
        → (c ≡ channel) ⊎ (count_where (holds_role_beside c planner session) db.memberships ≡ 0))
      × (role ≡ reviewer → count_where (holds_role_beside c reviewer session) db.memberships ≡ 0)

-- One channel's seat after the session took it.
seat_bound :
    (role : SessionRole) (c x : String) (db : Database)
    → Single db.memberships
    → count_where (holds_role c role) db.memberships ≤ 1
    → (any (active_row c x) db.memberships ≡ true
        → count_where (holds_role_beside c role x) db.memberships ≡ 0)
    → count_where (holds_role c role) (assign_role x role db).memberships ≤ 1
seat_bound role c x db w held free = elim (Bool-cases (any (active_row c x) db.memberships)) [
  | inl e ↦ omega (arith, assign_role-own x role c db, w.0 c x, free e)
  | inr e ↦ omega (
    arith,
    assign_role-own x role c db,
    count-eq-zero (active_row c x) db.memberships e,
    count_mono (holds_role_beside c role x) (holds_role c role) (λ m. ground arith) db.memberships,
  )
]

-- The seats after one assignment, from a bound for the seat of the assigned role.
seat_after :
    (x : String) (role seat : SessionRole) (db : Database)
    → ((c : String) → count_where (holds_role c seat) db.memberships ≤ 1)
    → (role ≡ seat
        → (c : String) → count_where (holds_role c role) (assign_role x role db).memberships ≤ 1)
    → (c : String) → count_where (holds_role c seat) (assign_role x role db).memberships ≤ 1
seat_after x role seat db held own c = elim (role_discrete role seat) [
  | yes e ↦ rw (← e) (own e c)
  | no e ↦ omega (arith, assign_role-others x role seat c db e, held c)
]

assigned-IsWellFormed :
    (x : String) (role : SessionRole) (db : Database)
    → IsWellFormed db
    → (role ≡ planner
        → (c : String) → count_where (holds_role c role) (assign_role x role db).memberships ≤ 1)
    → (role ≡ reviewer
        → (c : String) → count_where (holds_role c role) (assign_role x role db).memberships ≤ 1)
    → IsWellFormed (assign_role x role db)
assigned-IsWellFormed x role db w p q = record {
  placed = assign_role-Placed x role db w.placed;
  single = (
    λ c s. omega (arith, assign_role-count x role c s db, w.single.0 c s),
    seat_after x role planner db w.single.1 p,
    seat_after x role reviewer db w.single.2 q,
  );
}

module _ (channel x : String) (db : Database) (w : IsWellFormed db) where
  -- The promotion to planner, after the demotions.
  planner_bound :
      IsSeatFree db channel x planner
      → (c : String)
      → count_where
          (holds_role c planner)
          (assign_role x planner
            (demote_all (replaced_planners db channel x planner) db)).memberships
        ≤ 1
  unfolding is_active_member
  planner_bound free c =
      let ids = replaced_planners db channel x planner in
      let w' = demote_all-IsWellFormed ids db w in
      seat_bound planner c x (demote_all ids db) w'.single (w'.single.1 c) (λ e.
        elim ((free c (sym (demote_all-active ids c x db) ∙ e)).0 refl) [
          | inl same ↦ rw same (handoff channel x db)
          | inr none_beside ↦ omega (
            arith,
            demote_all-beside ids c x db,
            count_mono (λ m. holds_role_beside c planner x m && not (among ids m.session_id))
                (holds_role_beside c planner x) (λ m. ground arith) db.memberships,
            none_beside,
          )
        ])

  reviewer_bound :
      IsSeatFree db channel x reviewer
      → (c : String)
      → count_where (holds_role c reviewer) (assign_role x reviewer db).memberships ≤ 1
  unfolding is_active_member
  reviewer_bound free c =
      seat_bound reviewer c x db w.single (w.single.2 c) (λ e. (free c e).1 refl)

  promoted-IsWellFormed :
      (role : SessionRole)
      → IsSeatFree db channel x role
      → IsWellFormed (assign_role x role (demote_all (replaced_planners db channel x role) db))
  unfolding replaced_planners demote_all
  promoted-IsWellFormed planner free =
      let ids = replaced_planners db channel x planner in
      assigned-IsWellFormed x planner (demote_all ids db) (demote_all-IsWellFormed ids db w)
        (λ _. planner_bound free) (λ e. cc)
  promoted-IsWellFormed reviewer free =
      assigned-IsWellFormed x reviewer db w (λ e. cc) (λ _. reviewer_bound free)
  promoted-IsWellFormed operator free = assigned-IsWellFormed x operator db w (λ e. cc) (λ e. cc)
  promoted-IsWellFormed worker free = assigned-IsWellFormed x worker db w (λ e. cc) (λ e. cc)

pub update_session_role-Keeps :
    (channel session : String) (role : SessionRole) (t : Times) (r : Repository)
    → IsSeatFree r.db channel session role
    → IsWellFormed r.db
    → Keeps (update_session_role channel session role t r)
unfolding update_session_role
update_session_role-Keeps channel session role t r free w =
    elim (Option-cases (session_role (current_session r.db session))) [
      | inl e ↦ rw (e, update_session_role) tt
      | inr (before, e) ↦
          rw (e, update_session_role)
            (append_change-Keeps
              (assign_role session role
                (demote_all (replaced_planners r.db channel session role) r.db))
              r _ (some channel) t.noted (promoted-IsWellFormed channel session r.db w role free))
    ]

-- ===== src/Store/Wf/Roles/Demoting.antt =====
-- Assignments of a role and the demotions of replaced planners, in `updateSessionRole` of
-- roomsd/src/storage/repository.ts.
use wardroom.Base.{
  ◌+◌, ◌≤◌, String, ◌≡◌, ◌≢◌, refl, ◌∙◌, Bool, true, ◌&&◌, not, List, [], ◌∷◌, map, any, select,
  ◌===◌, arith, All,
}
use wardroom.Contracts.{SessionRole, planner, worker, reviewer, Session, Membership}
use wardroom.Store.{Database, count_where, holds_role, holds_role_beside, active_row, active_of}
use wardroom.Store.Sessions.{is_live, is_live_session}
use wardroom.Store.Memberships.{
  assign_role, take_role, take_member_role, demote_all, replaced_planners,
}
use wardroom.Store.Counts.{
  any-update_where, All-update_where, count-update-le, count-update_mono, count_mono,
}
use wardroom.Store.Wf.{Placed, IsWellFormed}

-- `ids.includes(s)`
abbrev pub among : List String → String → Bool
among ids s = any (λ (i : String). i === s) ids

pub assign_role-Placed :
    (id : String) (role : SessionRole) (db : Database)
    → All (Placed db) db.memberships
    → All (Placed (assign_role id role db)) (assign_role id role db).memberships
assign_role-Placed id role db =
    All-update_where (Placed db) (Placed (assign_role id role db)) (active_of id)
      (take_member_role role) (λ m p a. ground (arith, p, live m.session_id)) db.memberships
  where
    live : (y : String) → is_live_session (assign_role id role db) y ≡ is_live_session db y
    live y =
        any-update_where (λ (s : Session). s.id === y && is_live s) (λ (s : Session). s.id === id)
          (take_role role) (λ s. ground arith) db.sessions

pub assign_role-active :
    (id : String) (role : SessionRole) (c s : String) (db : Database)
    → any (active_row c s) (assign_role id role db).memberships
      ≡ any (active_row c s) db.memberships
assign_role-active id role c s db =
    any-update_where (active_row c s) (active_of id) (take_member_role role) (λ m. ground arith)
      db.memberships

pub assign_role-count :
    (id : String) (role : SessionRole) (c s : String) (db : Database)
    → count_where (active_row c s) (assign_role id role db).memberships
      ≤ count_where (active_row c s) db.memberships
assign_role-count id role c s db =
    count-update_mono (active_row c s) (active_row c s) (active_of id) (take_member_role role)
      (λ m. ground arith) db.memberships

-- Another role than the one assigned is held by no more rows than before.
pub assign_role-others :
    (id : String) (role other : SessionRole) (c : String) (db : Database)
    → role ≢ other
    → count_where (holds_role c other) (assign_role id role db).memberships
      ≤ count_where (holds_role c other) db.memberships
assign_role-others id role other c db h =
    count-update_mono (holds_role c other) (holds_role c other) (active_of id)
      (take_member_role role) (λ m. ground arith) db.memberships

-- The assigned role is held by the others that held it, and by the session.
pub assign_role-own :
    (id : String) (role : SessionRole) (c : String) (db : Database)
    → count_where (holds_role c role) (assign_role id role db).memberships
      ≤ count_where (holds_role_beside c role id) db.memberships
        + count_where (active_row c id) db.memberships
assign_role-own id role c db =
    count-update-le (holds_role c role) (holds_role_beside c role id) (active_row c id)
      (active_of id) (take_member_role role) (λ m. ground arith) db.memberships

pub demote-IsWellFormed :
    (id : String) (db : Database) → IsWellFormed db → IsWellFormed (assign_role id worker db)
demote-IsWellFormed id db w = record {
  placed = assign_role-Placed id worker db w.placed;
  single = (
    λ c s. omega (arith, assign_role-count id worker c s db, w.single.0 c s),
    λ c. omega (arith, assign_role-others id worker planner c db (λ e. cc), w.single.1 c),
    λ c. omega (arith, assign_role-others id worker reviewer c db (λ e. cc), w.single.2 c),
  );
}

pub demote_all-IsWellFormed :
    (ids : List String) (db : Database) → IsWellFormed db → IsWellFormed (demote_all ids db)
unfolding demote_all
demote_all-IsWellFormed [] db w = w
demote_all-IsWellFormed (id ∷ ids) db w =
    demote_all-IsWellFormed ids (assign_role id worker db) (demote-IsWellFormed id db w)

pub demote_all-active :
    (ids : List String) (c s : String) (db : Database)
    → any (active_row c s) (demote_all ids db).memberships ≡ any (active_row c s) db.memberships
unfolding demote_all
demote_all-active [] c s db = refl
demote_all-active (id ∷ ids) c s db =
    demote_all-active ids c s (assign_role id worker db) ∙ assign_role-active id worker c s db

-- The planners beside `x` that are left after the demotions are not among the demoted.
pub demote_all-beside :
    (ids : List String) (c x : String) (db : Database)
    → count_where (holds_role_beside c planner x) (demote_all ids db).memberships
      ≤ count_where
          (λ m. holds_role_beside c planner x m && not (among ids m.session_id))
          db.memberships
unfolding demote_all
demote_all-beside [] c x db = count_mono _ _ (λ m. ground arith) db.memberships
demote_all-beside (id ∷ ids) c x db = omega (
  arith,
  demote_all-beside ids c x (assign_role id worker db),
  count-update_mono (λ m. holds_role_beside c planner x m && not (among ids m.session_id))
      (λ m. holds_role_beside c planner x m && not (among (id ∷ ids) m.session_id)) (active_of id)
      (take_member_role worker) (λ m. ground arith) db.memberships,
)

-- No row passes a test whose session is not listed, where the list names all that pass.
pub none_left :
    (p : Membership → Bool) (ids : List String) (ms : List Membership)
    → ((s : String)
        → among (map (λ (n : Membership). n.session_id) (select p ms)) s ≡ true
        → among ids s ≡ true)
    → count_where (λ m. p m && not (among ids m.session_id)) ms ≡ 0
none_left p ids [] h = refl
none_left p ids (m ∷ ms) h =
    let rest = none_left p ids ms (λ s k. ground (arith, h s)) in
    ground (arith, h m.session_id, rest)

-- After the demotions that a promotion in `c` makes, nobody beside `x` is a planner of `c`.
pub handoff :
    (c x : String) (db : Database)
    → count_where
        (holds_role_beside c planner x)
        (demote_all (replaced_planners db c x planner) db).memberships
      ≡ 0
unfolding replaced_planners
handoff c x db = omega (
  arith,
  demote_all-beside (replaced_planners db c x planner) c x db,
  none_left (holds_role_beside c planner x) (replaced_planners db c x planner) db.memberships
      (λ s k. k),
)

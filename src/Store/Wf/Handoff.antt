-- ===== src/Store/Wf/Handoff.antt =====
-- A promotion to planner hands the seat of the channel over.
use wardroom.Base.{
  ◌≤◌, String, ◌≡◌, ◌≢◌, ap, ◌∙◌, false, ◌&&◌, List, any, arith, Bool-cases, inl, inr,
}
use wardroom.Contracts.{has_role, planner, Membership, MutationReceipt}
use wardroom.Store.{
  Database, Repository, done, Times, count_where, holds_role_beside, active_row, active_of,
  is_active_member_as, append_change,
}
use wardroom.Store.Memberships.{
  assign_role, take_member_role, demote_all, replaced_planners, update_session_role,
}
use wardroom.Store.Counts.{count-update_mono, count_mono}
use wardroom.Store.Leaving.{any-le-count}
use wardroom.Store.Wf.Roles.Demoting.{handoff}

beside_after :
    (c x : String) (db : Database)
    → count_where (holds_role_beside c planner x) (assign_role x planner db).memberships
      ≤ count_where (holds_role_beside c planner x) db.memberships
beside_after c x db =
    count-update_mono (holds_role_beside c planner x) (holds_role_beside c planner x) (active_of x)
      (take_member_role planner) (λ m. ground arith) db.memberships

planner_row-beside :
    (c x s : String) (ms : List Membership)
    → s ≢ x
    → count_where (λ m. active_row c s m && has_role planner m.role) ms
      ≤ count_where (holds_role_beside c planner x) ms
planner_row-beside c x s ms h =
    count_mono (λ m. active_row c s m && has_role planner m.role) (holds_role_beside c planner x)
      (λ m. ground arith) ms

-- After a promotion of `x` in `c` no other session is an active planner of `c`.
pub update_session_role-alone :
    (c x : String) (t : Times) (r r' : Repository) (receipt : MutationReceipt) (s : String)
    → s ≢ x
    → update_session_role c x planner t r ≡ done receipt r'
    → is_active_member_as r'.db c s planner ≡ false
unfolding update_session_role append_change is_active_member_as
update_session_role-alone c x t r r' receipt s h e =
    let db = demote_all (replaced_planners r.db c x planner) r.db in
    let ms = (assign_role x planner db).memberships in
    let rows : r'.memberships ≡ ms = ground arith in
    elim (Bool-cases (any (λ m. active_row c s m && has_role planner m.role) ms)) [
      | inr absent ↦ ap (any (λ m. active_row c s m && has_role planner m.role)) rows ∙ absent
      | inl there ↦ absurd (
          omega (
            arith,
            any-le-count (λ m. active_row c s m && has_role planner m.role) ms there,
            planner_row-beside c x s ms h,
            beside_after c x db,
            handoff c x r.db,
          ))
    ]

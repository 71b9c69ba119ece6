-- ===== src/Store/Wf.antt =====
-- The well-formed tables, and the operations that keep them so.
pub mod Channels
pub mod Members
pub mod Roles
pub mod Handoff
use wardroom.Base.{
  ℕ, suc, ◌+◌, ◌≤◌, String, ◌≡◌, refl, ◌∙◌, Bool, true, false, ◌&&◌, ◌||◌, not, Option, none, some,
  List, [], ◌∷◌, if◌then◌else◌, is_some, ◌===◌, any, first, update_where, arith, All, Bool-cases,
  inl, inr, ◌≢◌,
}
use wardroom.Contracts.{
  SessionRole, planner, worker, reviewer, has_role, Session, Channel, Membership, MutationReceipt,
  LifecycleState, active, closed, Payload,
}
use wardroom.Store.{
  Database, Repository, Outcome, done, thrown, M, Times, count_where, holds_role, holds_role_beside,
  active_row, active_in, active_of, is_active, append_change, unchanged, current_session,
  current_channel, known_channel,
}
use wardroom.Store.Sessions.{
  SessionInput, new_session, insert_session, mark_session_ended, is_live_session, is_open,
  is_open_channel, is_live, end_session_row, end_membership,
}
use wardroom.Store.Channels.{
  insert_channel, close_channel, update_channel_label, update_channel_broadcast_policy,
  update_channel_coordination_policy, set_channel,
}
use wardroom.Store.Memberships.{insert_membership, leave_membership}
use wardroom.Store.Counts.{
  updated, any-update_where, All-update_where, All-map, count-update_mono, count-eq-zero,
}

-- An active member is a live session in an open channel.
abbrev pub Placed : Database → Membership → Type 0
Placed db m =
    is_active m ≡ true
    → (is_live_session db m.session_id ≡ true) × (is_open_channel db m.channel_id ≡ true)

-- No session is twice an active member of a channel, and no channel has two active planners or two
-- active reviewers.
abbrev pub Single : List Membership → Type 0
Single ms =
    ((c s : String) → count_where (active_row c s) ms ≤ 1)
    × ((c : String) → count_where (holds_role c planner) ms ≤ 1)
    × ((c : String) → count_where (holds_role c reviewer) ms ≤ 1)

pub record IsWellFormed (db : Database) : Type 0 where
  pub placed : All (Placed db) db.memberships
  pub single : Single db.memberships

-- The tables after an operation, if it does not throw.
abbrev pub Keeps : Outcome MutationReceipt → Type 0
Keeps (done receipt r) = IsWellFormed r.db
Keeps (thrown e told) = Unit

-- A change that is noted after the tables `db` are stored.
pub append_change-Keeps :
    (db : Database) (r : Repository) (payload : Payload) (channel : Option String) (noted : ℕ)
    → IsWellFormed db
    → Keeps (append_change payload channel noted (record r { db = db }))
unfolding append_change
append_change-Keeps db r payload channel noted w = elim (Bool-cases (known_channel db channel)) [
  | inl e ↦ rw (e, append_change) (record { placed = w.placed; single = w.single })
  | inr e ↦ rw (e, append_change) tt
]

pub Single-mono :
    (q : Membership → Bool) (f : Membership → Membership)
    → ((c s : String) (m : Membership)
        → active_row c s (updated q f m) ≡ true
        → active_row c s m ≡ true)
    → ((c : String) (role : SessionRole) (m : Membership)
        → holds_role c role (updated q f m) ≡ true
        → holds_role c role m ≡ true)
    → (ms : List Membership) → Single ms
    → Single (update_where q f ms)
Single-mono q f h k ms (a, b, e) = (
  λ c s. omega (arith, count-update_mono (active_row c s) (active_row c s) q f (h c s) ms, a c s),
  λ c. omega (
    arith,
    count-update_mono (holds_role c planner) (holds_role c planner) q f (k c planner) ms,
    b c,
  ),
  λ c. omega (
    arith,
    count-update_mono (holds_role c reviewer) (holds_role c reviewer) q f (k c reviewer) ms,
    e c,
  ),
)

-- Where sessions stay live and channels open, rows stay placed.
pub Placed-mono :
    (db db' : Database)
    → ((id : String) → is_live_session db id ≡ true → is_live_session db' id ≡ true)
    → ((id : String) → is_open_channel db id ≡ true → is_open_channel db' id ≡ true)
    → (ms : List Membership) → All (Placed db) ms
    → All (Placed db') ms
Placed-mono db db' live opened =
    All-map (Placed db) (Placed db')
      (λ m p e. let (l, o) = p e in (live m.session_id l, opened m.channel_id o))

pub insert_session-Keeps :
    (input : SessionInput) (t : Times) (r : Repository)
    → IsWellFormed r.db
    → Keeps (insert_session input t r)
unfolding insert_session
insert_session-Keeps input t r w = elim (Bool-cases (is_some (current_session r.db input.id))) [
  | inl e ↦ rw (e, insert_session) tt
  | inr e ↦
      let db : Database = record r.db { sessions = new_session input t.at ∷ r.sessions } in
      rw (e, insert_session)
        (append_change-Keeps db r _ none t.noted (record {
          placed = Placed-mono r.db db (λ id h. ground arith) (λ id h. h) r.memberships w.placed;
          single = w.single;
        }))
]

end_rows-live :
    (x y : String) (at : ℕ) (ss : List Session)
    → x ≢ y
    → any
        (λ (s : Session). s.id === y && is_live s)
        (update_where (λ (s : Session). s.id === x) (end_session_row at) ss)
      ≡ any (λ (s : Session). s.id === y && is_live s) ss
end_rows-live x y at ss h =
    any-update_where (λ (s : Session). s.id === y && is_live s) (λ (s : Session). s.id === x)
      (end_session_row at) (λ s. ground arith) ss

-- The tables in which a session and its memberships have ended.
abbrev ended : String → ℕ → Database → Database
ended id at db = record db {
  sessions = update_where (λ (s : Session). s.id === id) (end_session_row at) db.sessions;
  memberships = update_where (active_of id) (end_membership at) db.memberships;
}

ended-IsWellFormed :
    (id : String) (at : ℕ) (db : Database) → IsWellFormed db → IsWellFormed (ended id at db)
ended-IsWellFormed id at db w = record {
  placed =
      All-update_where (Placed db) (Placed (ended id at db)) (active_of id) (end_membership at)
        (λ m p a. ground (arith, end_rows-live id m.session_id at db.sessions)) db.memberships
        w.placed;
  single =
      Single-mono (active_of id) (end_membership at) (λ c s m. ground arith)
        (λ c role m. ground arith) db.memberships w.single;
}

pub mark_session_ended-Keeps :
    (id : String) (t : Times) (r : Repository)
    → IsWellFormed r.db
    → Keeps (mark_session_ended id t r)
unfolding mark_session_ended
mark_session_ended-Keeps id t r w = elim (Bool-cases (is_live_session r.db id)) [
  | inr e ↦ rw (e, mark_session_ended) tt
  | inl e ↦
      rw (e, mark_session_ended)
        (append_change-Keeps (ended id t.at r.db) r _ none t.noted
          (ended-IsWellFormed id t.at r.db w))
]

-- ===== src/Store/Memberships.antt =====
-- The membership operations of RoomsRepository in roomsd/src/storage/repository.ts.
use wardroom.Base.{
  ℕ, String, Bool, ◌&&◌, ◌==◌, leb, Option, none, some, List, [], ◌∷◌, map, not, if◌then◌else◌,
  ◌===◌, any, select, update_where,
}
use wardroom.Contracts.{
  SessionRole, planner, worker, Session, Membership, membership_joined, membership_left,
  session_role_updated, MutationReceipt, channel_not_found, session_not_found, not_member,
  unknown_session, constraint,
}
use wardroom.Store.{
  Database, M, ◌>>=◌, ◌>>◌, require, throw_if, get, put, Times, current_session, active_row,
  active_of, holds_role_beside, append_change, unchanged,
}
use wardroom.Store.Sessions.{is_live_session, is_open_channel, session_role}

abbrev pub new_membership : String → String → ℕ → Option SessionRole → Membership
new_membership channel session at role = record {
  channel_id = channel;
  session_id = session;
  joined_at = at;
  left_at = none;
  session_ended_at = none;
  role = role;
}

-- `PRIMARY KEY(channel_id, session_id, joined_at)`
abbrev pub key_taken : String → String → ℕ → Membership → Bool
key_taken channel session at m =
    m.channel_id === channel && m.session_id === session && m.joined_at == at

add_membership : Database → String → String → Option SessionRole → Times → M MutationReceipt
add_membership db channel session role t = do
  throw_if (any (key_taken channel session t.at) db.memberships) constraint
  put (record db { memberships = new_membership channel session t.at role ∷ db.memberships })
  append_change (membership_joined channel session t.at role) (some channel) t.noted

unfoldable pub insert_membership : String → String → Option SessionRole → Times → M MutationReceipt
unfolding add_membership
insert_membership channel session role t = do
  db ← get
  throw_if (not (is_open_channel db channel)) channel_not_found
  throw_if (not (is_live_session db session)) session_not_found
  if any (active_row channel session) db.memberships
      then unchanged
      else add_membership db channel session role t

-- `ORDER BY joined_at DESC LIMIT 1` over the rows that pass a test.
pub later : Membership → Option Membership → Membership
later m none = m
later m (some n) = if leb n.joined_at m.joined_at then m else n

unfoldable pub newest : (Membership → Bool) → List Membership → Option Membership
unfolding later
newest p [] = none
newest p (m ∷ ms) = if p m then some (later m (newest p ms)) else newest p ms

abbrev pub leave_row : ℕ → Membership → Membership
leave_row at m = record m { left_at = some at }

unfoldable pub leave_membership : String → String → Times → M MutationReceipt
leave_membership channel session t = do
  db ← get
  joined ← require (newest (active_row channel session) db.memberships) not_member
  put (record db {
    memberships =
        update_where (key_taken channel session joined.joined_at) (leave_row t.at) db.memberships;
  })
  append_change (membership_left channel session t.at joined.role) (some channel) t.noted

abbrev pub take_role : SessionRole → Session → Session
take_role role s = record s { role = some role }

abbrev pub take_member_role : SessionRole → Membership → Membership
take_member_role role m = record m { role = some role }

-- One pair of updates: the session's role, and that of its active memberships.
abbrev pub assign_role : String → SessionRole → Database → Database
assign_role session role db = record db {
  sessions = update_where (λ (s : Session). s.id === session) (take_role role) db.sessions;
  memberships = update_where (active_of session) (take_member_role role) db.memberships;
}

unfoldable pub demote_all : List String → Database → Database
demote_all [] db = db
demote_all (id ∷ ids) db = demote_all ids (assign_role id worker db)

unfoldable pub replaced_planners : Database → String → String → SessionRole → List String
replaced_planners db channel session planner =
    map (λ (m : Membership). m.session_id)
      (select (holds_role_beside channel planner session) db.memberships)
replaced_planners db channel session _ = []

unfoldable pub update_session_role : String → String → SessionRole → Times → M MutationReceipt
update_session_role channel session role t = do
  db ← get
  before ← require (session_role (current_session db session)) unknown_session
  let replaced = replaced_planners db channel session role
  put (assign_role session role (demote_all replaced db))
  append_change (session_role_updated channel session (some before) role replaced) (some channel)
      t.noted

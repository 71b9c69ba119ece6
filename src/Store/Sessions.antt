-- ===== src/Store/Sessions.antt =====
-- The session operations of RoomsRepository in roomsd/src/storage/repository.ts.
use wardroom.Base.{
  ℕ, String, Bool, true, false, ◌&&◌, ◌||◌, not, Option, none, some, List, [], ◌∷◌, map,
  if◌then◌else◌, is_some, ◌===◌, any, select, update_where, text_leb,
}
use wardroom.Contracts.{
  SessionRole, operator, has_role, SessionDeliveryMode, runtime, active, closed, Session, Channel,
  Membership, session_registered, session_ended, session_reactivated, MutationReceipt,
  session_already_exists, unknown_session, operator_session_not_recoverable,
}
use wardroom.Store.{
  Database, M, ◌>>=◌, ◌>>◌, throw_if, get, put, Times, current_session, current_channel, active_of,
  append_change, unchanged,
}

pub record SessionInput : Type 0 where
  pub id : String
  pub display_name : Option String
  pub role : Option SessionRole
  pub external_id : Option String
  pub delivery_mode : Option SessionDeliveryMode
  pub external_owner : Option String
  pub external_agent_id : Option String

abbrev or_runtime : Option SessionDeliveryMode → SessionDeliveryMode
or_runtime none = runtime
or_runtime (some mode) = mode

abbrev pub new_session : SessionInput → ℕ → Session
new_session input at = record {
  id = input.id;
  registered_at = at;
  ended_at = none;
  display_name = input.display_name;
  role = input.role;
  external_id = input.external_id;
  delivery_mode = or_runtime input.delivery_mode;
  external_owner = input.external_owner;
  external_agent_id = input.external_agent_id;
}

unfoldable pub insert_session : SessionInput → Times → M MutationReceipt
insert_session input t = do
  db ← get
  throw_if (is_some (current_session db input.id)) session_already_exists
  put (record db { sessions = new_session input t.at ∷ db.sessions })
  append_change
      (session_registered input.id t.at input.display_name input.role input.external_id
        (or_runtime input.delivery_mode))
      none t.noted

abbrev pub is_live : Session → Bool
is_live s = not (is_some s.ended_at)

abbrev pub is_live_session : Database → String → Bool
is_live_session db id = any (λ (s : Session). s.id === id && is_live s) db.sessions

abbrev pub end_session_row : ℕ → Session → Session
end_session_row at s = record s { ended_at = some at }

abbrev pub end_membership : ℕ → Membership → Membership
end_membership at m = record m { session_ended_at = some at }

-- `ORDER BY channel_id`
insert_row :
    String × Option SessionRole
    → List (String × Option SessionRole)
    → List (String × Option SessionRole)
insert_row x [] = x ∷ []
insert_row x (y ∷ ys) = if text_leb x.0 y.0 then x ∷ y ∷ ys else y ∷ insert_row x ys

sort_rows : List (String × Option SessionRole) → List (String × Option SessionRole)
sort_rows [] = []
sort_rows (x ∷ xs) = insert_row x (sort_rows xs)

unfoldable pub mark_session_ended : String → Times → M MutationReceipt
unfolding sort_rows insert_row
mark_session_ended id t = do
  db ← get
  throw_if (not (is_live_session db id)) unknown_session
  put (record db {
    sessions = update_where (λ (s : Session). s.id === id) (end_session_row t.at) db.sessions;
    memberships = update_where (active_of id) (end_membership t.at) db.memberships;
  })
  append_change
      (session_ended id t.at (
        sort_rows (
          map (λ (m : Membership). (m.channel_id, m.role)) (select (active_of id) db.memberships))))
      none t.noted

-- The rows that `reactivateOperatorSession` changes.
abbrev pub needs_revival : String → Session → Bool
needs_revival id s =
    s.id === id && (is_some s.ended_at || is_some s.external_owner || is_some s.external_agent_id)

abbrev pub is_open : Option Channel → Bool
is_open none = false
is_open (some c) = elim c.lifecycle_state [ active ↦ true | closed ↦ false ]

abbrev pub is_open_channel : Database → String → Bool
is_open_channel db id = is_open (current_channel db id)

abbrev pub revivable : Database → String → Membership → Bool
revivable db id m =
    m.session_id === id
    && has_role operator m.role
    && not (is_some m.left_at)
    && is_some m.session_ended_at
    && is_open_channel db m.channel_id

abbrev pub revive_session : Session → Session
revive_session s = record s { ended_at = none; external_owner = none; external_agent_id = none }

abbrev pub revive_membership : Membership → Membership
revive_membership m = record m { session_ended_at = none }

abbrev pub session_role : Option Session → Option SessionRole
session_role none = none
session_role (some s) = s.role

revive : Database → String → Times → M MutationReceipt
revive db id t = do
  put (record db {
    sessions = update_where (needs_revival id) revive_session db.sessions;
    memberships = update_where (revivable db id) revive_membership db.memberships;
  })
  append_change (session_reactivated id t.at) none t.noted

unfoldable pub reactivate_operator_session : String → Times → M MutationReceipt
unfolding revive
reactivate_operator_session id t = do
  db ← get
  throw_if (not (has_role operator (session_role (current_session db id))))
      operator_session_not_recoverable
  if any (needs_revival id) db.sessions || any (revivable db id) db.memberships
      then revive db id t
      else unchanged

-- ===== src/Store/Registering.antt =====
-- `registerSession` of RoomsRepository in roomsd/src/storage/repository.ts: a session that is brought
-- into a channel for a caller of another authority or process.
pub mod Binding
pub mod Phantom
use wardroom.Base.{
  String, Bool, true, false, ◌&&◌, ◌||◌, not, Option, none, some, if◌then◌else◌, is_some, ◌===◌,
  update_where, trim, List, first, select, leb,
}
use wardroom.Contracts.{
  SessionRole, SessionDeliveryMode, runtime, log, Session, Membership, session_delivery_updated,
  channel_not_found, session_not_found, not_member, invalid_external_provenance,
  external_id_already_bound, external_provenance_already_bound,
}
use wardroom.Store.{
  Database, M, ◌>>=◌, ◌>>◌, return, throw_if, require, get, put, Times, current_session,
  current_channel, is_active_member, append_change,
}
use wardroom.Store.Replies.{same_text}
use wardroom.Store.Sessions.{SessionInput, insert_session}
use wardroom.Store.Memberships.{insert_membership, newest}

-- A text that counts: the empty one is falsy.
abbrev pub filled : Option String → Option String
filled none = none
filled (some s) = if s === "" then none else some s

-- `text?.trim() || null`
abbrev pub trimmed : Option String → Option String
trimmed none = none
trimmed (some s) = filled (some (trim s))

pub record Registration : Type 0 where
  pub channel_id : String
  pub session_id : String
  pub role : SessionRole
  pub external_id : Option String
  pub delivery_mode : Option SessionDeliveryMode
  pub external_owner : Option String
  pub external_agent_id : Option String

pub record Registered : Type 0 where
  pub session : Session
  pub membership : Membership
  pub idempotent : Bool

abbrev pub is_session : String → Session → Bool
is_session id s = s.id === id

-- `UPDATE sessions SET … WHERE id = ?`
abbrev pub update_session : String → (Session → Session) → M (Unit {0})
update_session id f r =
    put (record r.db { sessions = update_where (is_session id) f r.db.sessions }) r

abbrev pub same_mode : SessionDeliveryMode → SessionDeliveryMode → Bool
same_mode runtime runtime = true
same_mode log log = true
same_mode runtime log = false
same_mode log runtime = false

abbrev pub set_external_id : String → Session → Session
set_external_id given s = record s { external_id = some given }

abbrev pub set_mode : SessionDeliveryMode → Session → Session
set_mode mode s = record s { delivery_mode = mode }

abbrev pub set_owner : String → Option String → Session → Session
set_owner owner agent s = record s { external_owner = some owner; external_agent_id = agent }

-- Binding an existing mailbox to a caller.
unfoldable pub bind_external_id : String → Session → Option String → M (Unit {0})
bind_external_id id existing none = return tt
bind_external_id id existing (some given) = elim (filled existing.external_id) [
  | none ↦ update_session id (set_external_id given)
  | some current ↦ throw_if (not (current === given)) external_id_already_bound
]

unfoldable pub change_delivery :
    String → Session → Option SessionDeliveryMode → Times → M (Unit {0})
change_delivery id existing none t = return tt
change_delivery id existing (some mode) t =
    if same_mode existing.delivery_mode mode
    then return tt
    else update_session id (set_mode mode)
      >> append_change (session_delivery_updated id mode) none t.noted
      >>= λ _. return tt

unfoldable pub bind_owner : String → Session → Option String → Option String → M (Unit {0})
bind_owner id existing none agent = return tt
bind_owner id existing (some owner) agent = elim (filled existing.external_owner) [
  | none ↦ update_session id (set_owner owner agent)
  | some bound ↦
      throw_if (not (bound === owner) || not (same_text existing.external_agent_id agent))
        external_provenance_already_bound
]

session_input : Registration → Option String → Option String → SessionInput
session_input input owner agent = record {
  id = input.session_id;
  display_name = none;
  role = some input.role;
  external_id = input.external_id;
  delivery_mode = input.delivery_mode;
  external_owner = owner;
  external_agent_id = agent;
}

-- The session's row: a new one, or the existing one with what it is bound to.
unfoldable pub settle_session :
    Registration → Option String → Option String → Times → Option Session → M (Unit {0})
unfolding session_input
settle_session input owner agent t none =
    insert_session (session_input input owner agent) t >>= λ _. return tt
settle_session input owner agent t (some existing) = do
  bind_external_id input.session_id existing (filled input.external_id)
  change_delivery input.session_id existing input.delivery_mode t
  bind_owner input.session_id existing owner agent

-- `if (!this.isActiveMember(…)) this.insertMembership(…)`
unfoldable pub ensure_member : Registration → Times → M (Unit {0})
ensure_member input t = do
  db ← get
  if is_active_member db input.channel_id input.session_id
      then return tt
      else insert_membership input.channel_id input.session_id (some input.role) t >>= λ _.
          return tt

abbrev of_pair : String → String → Membership → Bool
of_pair channel id m = m.channel_id === channel && m.session_id === id

-- `t` are the clock readings of the session's change, `u` those of the membership's.
unfoldable pub register_session_in : Registration → Times → Times → M Registered
register_session_in input t u = do
  db ← get
  throw_if (not (is_some (current_channel db input.channel_id))) channel_not_found
  let existing = current_session db input.session_id
  let owner = trimmed input.external_owner
  let agent = trimmed input.external_agent_id
  throw_if (is_some owner && not (is_some agent) || not (is_some owner) && is_some agent)
      invalid_external_provenance
  settle_session input owner agent t existing
  ensure_member input u
  after ← get
  session ← require (current_session after input.session_id) session_not_found
  membership ←
      require (newest (of_pair input.channel_id input.session_id) after.memberships) not_member
  return (record { session = session; membership = membership; idempotent = is_some existing })

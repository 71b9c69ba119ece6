-- ===== src/Application/Access.antt =====
-- The authority tests of `RoomsApplication` in roomsd/src/domain/application.ts: each reads the
-- tables as they stand before the command writes. The actor that `currentSession` finds by its id
-- has that id, so `actor.id` is the context's.
use wardroom.Base.{
  ltb, String, Bool, true, false, ◌&&◌, ◌||◌, not, Option, none, some, is_yes, is_some, ◌===◌, any,
}
use wardroom.Contracts.{
  SessionRole, operator, planner, worker, reviewer, has_role, role_discrete, Session, Channel,
  planner_authorization_required, owner_authorization_required, already_member,
}
use wardroom.Store.{
  Database, M, ◌>>◌, throw_if, current_session, current_channel, is_active_member,
  is_active_member_as, active_membership_count, active_membership_count_except,
  active_membership_channels,
}

pub record Context : Type 0 where
  pub actor_session_id : String
  pub role : SessionRole

abbrev pub live_as : SessionRole → Option Session → Bool
live_as role none = false
live_as role (some s) = not (is_some s.ended_at) && has_role role s.role

-- `!actor || actor.endedAt || actor.role !== context.role`, negated.
abbrev pub authentic : Database → Context → Bool
authentic db ctx = live_as ctx.role (current_session db ctx.actor_session_id)

-- `actor && (actor.endedAt || actor.role !== context.role)`
abbrev pub contradicts : Option Session → SessionRole → Bool
contradicts none role = false
contradicts (some s) role = is_some s.ended_at || not (has_role role s.role)

abbrev pub is_role : SessionRole → SessionRole → Bool
is_role wanted role = is_yes (role_discrete role wanted)

-- `value === id`, for a value that may be null.
abbrev pub is_text : String → Option String → Bool
is_text id none = false
is_text id (some s) = s === id

-- A present owner that is not `id`.
abbrev pub owned_by_other : String → Option Channel → Bool
owned_by_other id none = false
owned_by_other id (some c) =
    is_some c.owner_operator_session_id && not (is_text id c.owner_operator_session_id)

-- `join`: the tests on roles and on the seats that are taken.
unfoldable pub check_seat :
    Database → Channel → String → Option SessionRole → Context → M (Unit {0})
check_seat db channel channel_id role ctx = do
  let owner =
      is_role operator ctx.role && is_text ctx.actor_session_id channel.owner_operator_session_id
  let supervises = is_role planner ctx.role && is_active_member db channel_id ctx.actor_session_id
  throw_if (has_role worker role && not supervises) planner_authorization_required
  throw_if (not (has_role worker role) && not owner) owner_authorization_required
  throw_if
      ((has_role planner role && ltb 0 (active_membership_count db channel_id planner))
        || (has_role reviewer role && ltb 0 (active_membership_count db channel_id reviewer)))
      already_member

abbrev pub owns_channel : Database → String → String → Bool
owns_channel db actor channel = elim (current_channel db channel) [
  | none ↦ false
  | some c ↦ is_text actor c.owner_operator_session_id
]

-- The operator's own session, a member of none of the channels, or one that shares a channel.
abbrev pub operator_may_end : Database → Context → String → Session → Bool
operator_may_end db ctx id target =
    let channels = active_membership_channels db id in
    is_text ctx.actor_session_id target.external_owner
    || not (any (λ (c : String). true) channels)
    || any
        (λ c.
          owns_channel db ctx.actor_session_id c
          || is_active_member_as db c ctx.actor_session_id operator)
        channels

abbrev pub planner_may_end : Database → Context → String → Session → Bool
planner_may_end db ctx id target =
    not (is_some target.ended_at)
    && has_role worker target.role
    && any
        (λ c.
          is_active_member_as db c ctx.actor_session_id planner
          && is_active_member_as db c id worker)
        (active_membership_channels db ctx.actor_session_id)

-- The owner, or any operator that is an active member.
abbrev pub may_manage : Database → Context → String → Bool
may_manage db ctx channel_id =
    let channel = current_channel db channel_id in
    live_as operator (current_session db ctx.actor_session_id)
    && is_role operator ctx.role
    && not (
        owned_by_other ctx.actor_session_id channel
        && not (is_some channel && is_active_member_as db channel_id ctx.actor_session_id operator))

-- Another session holds the seat in an affected channel; a planner handoff in `channel_id` is meant.
abbrev pub seat_taken : Database → String → String → SessionRole → String → Bool
seat_taken db channel_id session_id role affected =
    not (is_role planner role && affected === channel_id)
    && (is_role planner role || is_role reviewer role)
    && ltb 0 (active_membership_count_except db affected role session_id)

-- ===== src/Application.antt =====
-- `RoomsApplication` of roomsd/src/domain/application.ts: who may run which command.
-- Each method is one transaction; the tests read the tables before anything is written.
pub mod Access
pub mod Feed
pub mod Seats
pub mod History
pub mod Resolving
pub mod Authority
pub mod Effects
pub mod Tests
use wardroom.Base.{
  String, ◌&&◌, ◌||◌, not, Option, none, some, if◌then◌else◌, is_yes, is_some, ◌===◌, any, blank,
}
use wardroom.Contracts.{
  SessionRole, operator, planner, role_discrete, MutationReceipt, unauthorized, unauthorized_actor,
  unknown_channel, unknown_session, channel_closed, already_member, owner_authorization_required,
  not_member, invalid_role, invalid_broadcast_policy, invalid_coordination_policy,
  control_kind_required, request_id_required, CanonicalMessageCommitInput,
  sender_session_id_required, empty_message,
}
use wardroom.Store.{
  Database, Outcome, M, ◌>>=◌, ◌>>◌, throw, require, throw_if, get, Times, current_session,
  current_channel, is_active_member, active_membership_channels,
}
use wardroom.Store.Sessions.{insert_session, mark_session_ended}
use wardroom.Store.Channels.{
  insert_channel, is_closed, close_channel, update_channel_label, update_channel_broadcast_policy,
  update_channel_coordination_policy,
}
use wardroom.Store.Memberships.{insert_membership, leave_membership, update_session_role}
use wardroom.Store.Messages.{MessageReceipt, commit_message}
use wardroom.Store.Controls.{ControlInput, ControlReceipt, commit_control}
use Access.{
  Context, live_as, authentic, contradicts, is_role, check_seat, operator_may_end, planner_may_end,
  may_manage, seat_taken,
}

unfoldable pub register_session : String → Option String → Context → Times → M MutationReceipt
register_session id display_name ctx t = do
  db ← get
  throw_if (contradicts (current_session db ctx.actor_session_id) ctx.role) unauthorized
  throw_if (not (id === ctx.actor_session_id)) unauthorized
  insert_session
      (record {
        id = id;
        display_name = display_name;
        role = some ctx.role;
        external_id = none;
        delivery_mode = none;
        external_owner = none;
        external_agent_id = none;
      })
      t

unfoldable pub register_channel : String → Context → Times → M MutationReceipt
register_channel id ctx t = do
  db ← get
  throw_if
      (not (is_yes (role_discrete ctx.role operator))
        || not (live_as operator (current_session db ctx.actor_session_id)))
      unauthorized
  insert_channel id (some ctx.actor_session_id) t

unfoldable pub join : String → String → Context → Times → M MutationReceipt
join channel_id session_id ctx t = do
  db ← get
  channel ← require (current_channel db channel_id) unknown_channel
  throw_if (is_closed channel.lifecycle_state) channel_closed
  throw_if (not (authentic db ctx)) unauthorized_actor
  target ← require (current_session db session_id) unknown_session
  throw_if (is_some target.ended_at) unknown_session
  check_seat db channel channel_id target.role ctx
  insert_membership channel_id session_id target.role t

end_by_operator : Database → String → Context → Times → M MutationReceipt
end_by_operator db id ctx t = do
  target ← require (current_session db id) unknown_session
  throw_if (not (operator_may_end db ctx id target)) unauthorized
  mark_session_ended id t

end_by_planner : Database → String → Context → Times → M MutationReceipt
end_by_planner db id ctx t = do
  target ← require (current_session db id) unauthorized
  throw_if (not (planner_may_end db ctx id target)) unauthorized
  mark_session_ended id t

end_other : SessionRole → Database → String → Context → Times → M MutationReceipt
end_other operator db id ctx t = end_by_operator db id ctx t
end_other planner db id ctx t = end_by_planner db id ctx t
end_other _ db id ctx t = throw unauthorized

unfoldable pub end_session : String → Context → Times → M MutationReceipt
unfolding end_other end_by_operator end_by_planner
end_session id ctx t = do
  db ← get
  throw_if (not (authentic db ctx)) unauthorized
  if ctx.actor_session_id === id then mark_session_ended id t else end_other ctx.role db id ctx t

unfoldable pub close_channel_as : String → Context → Times → M MutationReceipt
close_channel_as channel_id ctx t = do
  db ← get
  throw_if (not (may_manage db ctx channel_id)) unauthorized
  close_channel channel_id t

unfoldable pub label_channel : String → Option String → Context → Times → M MutationReceipt
label_channel channel_id label ctx t = do
  db ← get
  throw_if (not (may_manage db ctx channel_id)) unauthorized
  throw_if (not (is_some (current_channel db channel_id))) unknown_channel
  update_channel_label channel_id label t

unfoldable pub set_channel_broadcast_policy : String → String → Context → Times → M MutationReceipt
set_channel_broadcast_policy channel_id policy ctx t = do
  db ← get
  throw_if (not (may_manage db ctx channel_id)) unauthorized
  throw_if (not (is_some (current_channel db channel_id))) unknown_channel
  throw_if (not (policy === "all") && not (policy === "privileged")) invalid_broadcast_policy
  update_channel_broadcast_policy channel_id policy t

unfoldable pub set_channel_coordination_policy :
    String → String → Context → Times → M MutationReceipt
set_channel_coordination_policy channel_id policy ctx t = do
  db ← get
  throw_if (not (may_manage db ctx channel_id)) unauthorized
  throw_if (not (is_some (current_channel db channel_id))) unknown_channel
  throw_if (not (policy === "open") && not (policy === "lead-upstream")) invalid_coordination_policy
  update_channel_coordination_policy channel_id policy t

unfoldable pub leave : String → String → Context → Times → M MutationReceipt
leave channel_id session_id ctx t = do
  db ← get
  throw_if
      (not (authentic db ctx)
        || (not (ctx.actor_session_id === session_id) && not (is_role operator ctx.role)))
      unauthorized
  throw_if (not (is_active_member db channel_id session_id)) not_member
  leave_membership channel_id session_id t

unfoldable pub update_session_role_as :
    String → String → SessionRole → Context → Times → M MutationReceipt
update_session_role_as channel_id session_id role ctx t = do
  db ← get
  throw_if
      (not (is_some (current_channel db channel_id))
        || not (authentic db ctx)
        || not (may_manage db ctx channel_id))
      owner_authorization_required
  target ← require (current_session db session_id) unknown_session
  throw_if (is_some target.ended_at) unknown_session
  throw_if (is_role operator role) invalid_role
  throw_if
      (any (seat_taken db channel_id session_id role) (active_membership_channels db session_id))
      already_member
  update_session_role channel_id session_id role t

unfoldable pub commit_control_as : ControlInput → String → Context → Times → M ControlReceipt
commit_control_as input id ctx t = do
  throw_if (blank input.kind) control_kind_required
  throw_if (blank input.request_id) request_id_required
  db ← get
  throw_if (not (authentic db ctx) || not (input.sender_session_id === ctx.actor_session_id))
      unauthorized
  channel ← require (current_channel db input.channel_id) unknown_channel
  throw_if (is_closed channel.lifecycle_state) channel_closed
  throw_if (not (is_active_member db input.channel_id ctx.actor_session_id)) not_member
  commit_control input id t

unfoldable pub commit_message_as : CanonicalMessageCommitInput → String → Times → M MessageReceipt
commit_message_as input id t = do
  throw_if (blank input.sender_session_id) sender_session_id_required
  throw_if (blank input.body) empty_message
  commit_message input id t

-- The methods that test their caller's context, and the dispatch to them.
pub data Command : Type 0 where
  registers_session : (id : String) (display_name : Option String) → Command
  registers_channel : (id : String) → Command
  joins leaves : (channel_id session_id : String) → Command
  ends_session : (id : String) → Command
  closes_channel : (channel_id : String) → Command
  labels_channel : (channel_id : String) (label : Option String) → Command
  sets_broadcast_policy sets_coordination_policy : (channel_id policy : String) → Command
  updates_role : (channel_id session_id : String) (role : SessionRole) → Command
  commits_control : ControlInput → (id : String) → Command

unfoldable pub perform : Command → Context → Times → M MutationReceipt
perform (registers_session id name) ctx t = register_session id name ctx t
perform (registers_channel id) ctx t = register_channel id ctx t
perform (joins channel session) ctx t = join channel session ctx t
perform (leaves channel session) ctx t = leave channel session ctx t
perform (ends_session id) ctx t = end_session id ctx t
perform (closes_channel channel) ctx t = close_channel_as channel ctx t
perform (labels_channel channel label) ctx t = label_channel channel label ctx t
perform (sets_broadcast_policy channel policy) ctx t =
    set_channel_broadcast_policy channel policy ctx t
perform (sets_coordination_policy channel policy) ctx t =
    set_channel_coordination_policy channel policy ctx t
perform (updates_role channel session role) ctx t =
    update_session_role_as channel session role ctx t
perform (commits_control input id) ctx t =
    commit_control_as input id ctx t >>= λ result r. Outcome.done result.receipt r

-- ===== src/Application/Feed.antt =====
-- What the listeners of a command hear.
use wardroom.Base.{arith, append-nil}
use wardroom.Store.{Repository, Times}
use wardroom.Store.Controls.{commit_control}
use wardroom.Store.Feed.{
  Sound, append_change-Sound, insert_session-Sound, mark_session_ended-Sound, insert_channel-Sound,
  close_channel-Sound, update_channel_label-Sound, update_channel_broadcast_policy-Sound,
  update_channel_coordination_policy-Sound, insert_membership-Sound, leave_membership-Sound,
  update_session_role-Sound,
}
use wardroom.Application.Access.{Context, check_seat}
use wardroom.Application.{
  Command, registers_session, registers_channel, joins, leaves, ends_session, closes_channel,
  labels_channel, sets_broadcast_policy, sets_coordination_policy, updates_role, commits_control,
  perform, register_session, register_channel, join, leave, end_session, close_channel_as,
  label_channel, set_channel_broadcast_policy, set_channel_coordination_policy,
  update_session_role_as, commit_control_as,
}

-- A command that succeeds adds to the table of changes exactly the changes of its receipt, and the
-- listeners hear exactly these; one that throws tells the listeners nothing.
pub perform-Sound :
    (c : Command) (ctx : Context) (t : Times) (r : Repository) → Sound r (perform c ctx t r)
unfolding perform register_session register_channel join leave end_session close_channel_as
    label_channel set_channel_broadcast_policy set_channel_coordination_policy
    update_session_role_as commit_control_as check_seat commit_control
perform-Sound (registers_session id name) ctx t r = grind (arith, insert_session-Sound)
perform-Sound (registers_channel id) ctx t r = grind (arith, insert_channel-Sound)
perform-Sound (joins channel session) ctx t r = grind (arith, insert_membership-Sound)
perform-Sound (leaves channel session) ctx t r = grind (arith, leave_membership-Sound)
perform-Sound (ends_session id) ctx t r = grind (arith, mark_session_ended-Sound)
perform-Sound (closes_channel channel) ctx t r = grind (arith, close_channel-Sound)
perform-Sound (labels_channel channel label) ctx t r = grind (arith, update_channel_label-Sound)
perform-Sound (sets_broadcast_policy channel policy) ctx t r =
    grind (arith, update_channel_broadcast_policy-Sound)
perform-Sound (sets_coordination_policy channel policy) ctx t r =
    grind (arith, update_channel_coordination_policy-Sound)
perform-Sound (updates_role channel session role) ctx t r = grind (arith, update_session_role-Sound)
perform-Sound (commits_control input id) ctx t r = grind (arith, append_change-Sound r, append-nil)

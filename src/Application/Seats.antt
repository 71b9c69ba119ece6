-- ===== src/Application/Seats.antt =====
-- The commands keep the tables well formed.
use wardroom.Base.{String, ◌≡◌, false, Option, any, arith, Bool-cases, inl, inr}
use wardroom.Contracts.{SessionRole, Channel}
use wardroom.Store.{
  Database, Repository, done, Times, active_membership_count, active_membership_count_except,
  active_membership_channels,
}
use wardroom.Store.Controls.{commit_control}
use wardroom.Store.Counts.{any-active_membership_channels}
use wardroom.Store.Wf.{
  IsWellFormed, Keeps, append_change-Keeps, insert_session-Keeps, mark_session_ended-Keeps,
}
use wardroom.Store.Wf.Channels.{
  insert_channel-Keeps, close_channel-Keeps, update_channel_label-Keeps,
  update_channel_broadcast_policy-Keeps, update_channel_coordination_policy-Keeps,
}
use wardroom.Store.Wf.Members.{IsFree, insert_membership-Keeps, leave_membership-Keeps}
use wardroom.Store.Wf.Roles.{IsSeatFree, update_session_role-Keeps}
use wardroom.Application.Access.{Context, check_seat, seat_taken}
use wardroom.Application.{
  Command, registers_session, registers_channel, joins, leaves, ends_session, closes_channel,
  labels_channel, sets_broadcast_policy, sets_coordination_policy, updates_role, commits_control,
  perform, register_session, register_channel, join, leave, end_session, close_channel_as,
  label_channel, set_channel_broadcast_policy, set_channel_coordination_policy,
  update_session_role_as, commit_control_as,
}

-- `check_seat` lets a role pass only if its seat is free.
check_seat-IsFree :
    (db : Database) (channel : Channel) (id : String) (role : Option SessionRole) (ctx : Context)
    (r r' : Repository)
    → check_seat db channel id role ctx r ≡ done tt r'
    → IsFree db id role
unfolding check_seat active_membership_count
check_seat-IsFree db channel id role ctx r r' e = (λ p. ground arith, λ p. ground arith)

-- A search for taken seats that finds none leaves them free.
seat_taken-IsSeatFree :
    (db : Database) (channel session : String) (role : SessionRole)
    → any (seat_taken db channel session role) (active_membership_channels db session) ≡ false
    → IsSeatFree db channel session role
unfolding active_membership_count_except
seat_taken-IsSeatFree db channel session role e c h =
    let free =
      any-active_membership_channels (seat_taken db channel session role) db c session e h in
    (λ p. ground (arith, free), λ p. ground (arith, free))

check_seat-same :
    (db : Database) (channel : Channel) (id : String) (role : Option SessionRole) (ctx : Context)
    (r r' : Repository)
    → check_seat db channel id role ctx r ≡ done tt r'
    → r' ≡ r
unfolding check_seat
check_seat-same db channel id role ctx r r' e = ground arith

join-Keeps :
    (channel session : String) (ctx : Context) (t : Times) (r : Repository)
    → IsWellFormed r.db
    → Keeps (join channel session ctx t r)
unfolding join
join-Keeps channel session ctx t r w =
    grind (arith, check_seat-same, check_seat-IsFree, insert_membership-Keeps)

update_session_role_as-Keeps :
    (channel session : String) (role : SessionRole) (ctx : Context) (t : Times) (r : Repository)
    → IsWellFormed r.db
    → Keeps (update_session_role_as channel session role ctx t r)
unfolding update_session_role_as
update_session_role_as-Keeps channel session role ctx t r w =
    elim (Bool-cases
      (any (seat_taken r.db channel session role) (active_membership_channels r.db session))) [
        | inl e ↦ ground (arith, e)
        | inr e ↦
            let kept =
              update_session_role-Keeps channel session role t r
                (seat_taken-IsSeatFree r.db channel session role e) w in
            ground (arith, e, kept)
      ]

-- A command that does not throw keeps the tables well formed.
pub perform-Keeps :
    (c : Command) (ctx : Context) (t : Times) (r : Repository)
    → IsWellFormed r.db
    → Keeps (perform c ctx t r)
unfolding perform register_session register_channel leave end_session close_channel_as label_channel
    set_channel_broadcast_policy set_channel_coordination_policy commit_control_as commit_control
perform-Keeps (registers_session id name) ctx t r w = grind (arith, insert_session-Keeps)
perform-Keeps (registers_channel id) ctx t r w = grind (arith, insert_channel-Keeps)
perform-Keeps (joins channel session) ctx t r w = join-Keeps channel session ctx t r w
perform-Keeps (leaves channel session) ctx t r w = grind (arith, leave_membership-Keeps)
perform-Keeps (ends_session id) ctx t r w = grind (arith, mark_session_ended-Keeps)
perform-Keeps (closes_channel channel) ctx t r w = grind (arith, close_channel-Keeps)
perform-Keeps (labels_channel channel label) ctx t r w = grind (arith, update_channel_label-Keeps)
perform-Keeps (sets_broadcast_policy channel policy) ctx t r w =
    grind (arith, update_channel_broadcast_policy-Keeps)
perform-Keeps (sets_coordination_policy channel policy) ctx t r w =
    grind (arith, update_channel_coordination_policy-Keeps)
perform-Keeps (updates_role channel session role) ctx t r w =
    update_session_role_as-Keeps channel session role ctx t r w
perform-Keeps (commits_control input id) ctx t r w = grind (arith, append_change-Keeps r.db r)

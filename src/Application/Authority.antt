-- ===== src/Application/Authority.antt =====
-- What a command that went through says of its caller, and what it did.
use wardroom.Base.{String, ◌≡◌, ◌≢◌, ◌⊎◌, true, Option, none, some, arith, Bool-cases, inl, inr}
use wardroom.Contracts.{
  SessionRole, planner, worker, operator, has_role, Session, Channel, MutationReceipt, active,
}
use wardroom.Store.{
  Outcome-cases, Database, Repository, Outcome, done, thrown, Times, current_session,
  current_channel, is_active_member, append_change,
}
use wardroom.Store.Memberships.{insert_membership}
use wardroom.Application.Access.{Context, authentic, contradicts, check_seat}
use wardroom.Application.{
  Command, registers_session, registers_channel, joins, leaves, ends_session, closes_channel,
  labels_channel, sets_broadcast_policy, sets_coordination_policy, updates_role, commits_control,
  perform, register_session, register_channel, join, leave, end_session, close_channel_as,
  label_channel, set_channel_broadcast_policy, set_channel_coordination_policy,
  update_session_role_as, commit_control_as,
}

-- An error, whichever it is.
abbrev pub IsThrown : Outcome MutationReceipt → Type 0
IsThrown (done receipt r) = ⊥
IsThrown (thrown e told) = Unit

--Once the caller's session is registered and has ended, or has another role than the one it
-- claims, every command of that caller throws.
pub perform-IsThrown :
    (c : Command) (ctx : Context) (t : Times) (r : Repository) (actor : Session)
    → current_session r.db ctx.actor_session_id ≡ some actor
    → contradicts (some actor) ctx.role ≡ true
    → IsThrown (perform c ctx t r)
unfolding perform register_session register_channel join leave end_session close_channel_as
    label_channel set_channel_broadcast_policy set_channel_coordination_policy
    update_session_role_as commit_control_as
perform-IsThrown (registers_session id name) ctx t r actor e h = ground arith
perform-IsThrown (registers_channel id) ctx t r actor e h = ground arith
perform-IsThrown (joins channel session) ctx t r actor e h = ground arith
perform-IsThrown (leaves channel session) ctx t r actor e h = ground arith
perform-IsThrown (ends_session id) ctx t r actor e h = ground arith
perform-IsThrown (closes_channel channel) ctx t r actor e h = ground arith
perform-IsThrown (labels_channel channel label) ctx t r actor e h = ground arith
perform-IsThrown (sets_broadcast_policy channel policy) ctx t r actor e h = ground arith
perform-IsThrown (sets_coordination_policy channel policy) ctx t r actor e h = ground arith
perform-IsThrown (updates_role channel session role) ctx t r actor e h = ground arith
perform-IsThrown (commits_control input id) ctx t r actor e h = ground arith

-- Who may bring a session of a role into a channel: an active planner member brings workers, and
-- the owning operator everybody else.
abbrev pub MayJoin : Database → Context → String → Channel → Option SessionRole → Type 0
MayJoin db ctx channel_id channel role =
    ((role ≡ some worker)
      × (ctx.role ≡ planner)
      × (is_active_member db channel_id ctx.actor_session_id ≡ true))
    ⊎ ((role ≢ some worker)
        × (ctx.role ≡ operator)
        × (channel.owner_operator_session_id ≡ some ctx.actor_session_id))

check_seat-MayJoin :
    (db : Database) (ctx : Context) (channel_id : String) (channel : Channel)
    (role : Option SessionRole) (r r' : Repository)
    → check_seat db channel channel_id role ctx r ≡ done tt r'
    → MayJoin db ctx channel_id channel role
unfolding check_seat
check_seat-MayJoin db ctx channel_id channel role r r' e =
    elim (Bool-cases (has_role worker role)) [
      | inl w ↦ inl (ground arith, ground arith, ground arith)
      | inr o ↦ inr (ground arith, ground arith, ground arith)
    ]

insert_membership-member :
    (channel_id session_id : String) (role : Option SessionRole) (t : Times) (r r' : Repository)
    (receipt : MutationReceipt)
    → insert_membership channel_id session_id role t r ≡ done receipt r'
    → is_active_member r'.db channel_id session_id ≡ true
unfolding insert_membership is_active_member append_change
insert_membership-member channel_id session_id role t r r' receipt e = ground arith

--A join that goes through was asked for by a live caller of the claimed role, for a live session
-- and an open channel, by an active planner member (of a worker) or by the owning operator (of
-- anybody else); and the session is an active member afterwards.
pub join_authorized :
    (channel_id session_id : String) (ctx : Context) (t : Times) (r r' : Repository)
    (receipt : MutationReceipt) (channel : Channel) (target : Session)
    → current_channel r.db channel_id ≡ some channel
    → current_session r.db session_id ≡ some target
    → join channel_id session_id ctx t r ≡ done receipt r'
    → (authentic r.db ctx ≡ true)
      × (target.ended_at ≡ none)
      × (channel.lifecycle_state ≡ active)
      × MayJoin r.db ctx channel_id channel target.role
      × (is_active_member r'.db channel_id session_id ≡ true)
unfolding join
join_authorized channel_id session_id ctx t r r' receipt channel target ec es e =
    elim (Outcome-cases (check_seat r.db channel channel_id target.role ctx r)) [
      | inr (code, told, refused) ↦ absurd (ground arith)
      | inl (u, r₁, passed) ↦ (
        ground arith,
        ground arith,
        ground arith,
        check_seat-MayJoin r.db ctx channel_id channel target.role r r₁ passed,
        ground (arith, insert_membership-member channel_id session_id target.role t r₁ r' receipt),
      )
    ]

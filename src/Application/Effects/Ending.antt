-- ===== src/Application/Effects/Ending.antt =====
-- Who ends a session: `endSession` of roomsd/src/domain/application.ts.
use wardroom.Base.{
  String, ◌≡◌, ◌⊎◌, true, false, ◌&&◌, ◌||◌, some, any, arith, Bool-cases, inl, inr, ◌===◌,
}
use wardroom.Contracts.{planner, worker, operator, role_discrete, Session, MutationReceipt}
use wardroom.Store.{
  Database, Repository, done, Times, current_session, is_active_member, is_active_member_as,
  append_change, active_membership_channels,
}
use wardroom.Store.Sessions.{mark_session_ended, is_live_session, is_live, end_session_row}
use wardroom.Store.Counts.{
  any-update_none, any-active_membership_channels, found-active_membership_channel,
}
use wardroom.Store.Wf.{IsWellFormed}
use wardroom.Application.Access.{Context, is_text, owns_channel, operator_may_end, planner_may_end}
use wardroom.Application.{perform, ends_session, end_session}
use wardroom.Application.Effects.{not_active, done-IsWellFormed}

mark_session_ended-ended :
    (id : String) (t : Times) (r r' : Repository) (receipt : MutationReceipt)
    → mark_session_ended id t r ≡ done receipt r'
    → is_live_session r'.db id ≡ false
unfolding mark_session_ended append_change
mark_session_ended-ended id t r r' receipt e = ground (
  arith,
  any-update_none (λ (s : Session). s.id === id && is_live s) (λ (s : Session). s.id === id)
      (end_session_row t.at) (λ s. ground arith) r.sessions,
)

-- What an operator must have to end another session: the session is its own, or a member of no
-- channel, or a member of a channel that the operator owns or is an active operator of.
abbrev pub OperatorReaches : Database → Context → String → Session → Type 0
OperatorReaches db ctx id target =
    (target.external_owner ≡ some ctx.actor_session_id)
    ⊎ ((c : String) → is_active_member db c id ≡ false)
    ⊎ ((c : String) × (is_active_member db c id ≡ true)
        × ((owns_channel db ctx.actor_session_id c
              || is_active_member_as db c ctx.actor_session_id operator)
            ≡ true))

operator_may_end-OperatorReaches :
    (db : Database) (ctx : Context) (id : String) (target : Session)
    → operator_may_end db ctx id target ≡ true
    → OperatorReaches db ctx id target
operator_may_end-OperatorReaches db ctx id target h =
    elim (Bool-cases (is_text ctx.actor_session_id target.external_owner)) [
      | inl own ↦ inl (ground arith)
      | inr other ↦
          elim (Bool-cases (any (λ (c : String). true) (active_membership_channels db id))) [
            | inr none_active ↦ inr (
                inl (λ c. elim (Bool-cases (is_active_member db c id)) [
                  | inl there ↦ absurd (
                      ground (
                        arith,
                        any-active_membership_channels (λ _. true) db c id none_active there,
                      ))
                  | inr absent ↦ absent
                ]))
            | inl some_active ↦ inr (
                inr (
                  found-active_membership_channel
                    (λ c.
                      owns_channel db ctx.actor_session_id c
                      || is_active_member_as db c ctx.actor_session_id operator)
                    db id (ground arith)))
          ]
    ]

-- What a planner must have: a channel of which it is an active planner and the session a worker.
abbrev pub PlannerSupervises : Database → Context → String → Type 0
PlannerSupervises db ctx id =
    (c : String) × (is_active_member_as db c ctx.actor_session_id planner ≡ true)
    × (is_active_member_as db c id worker ≡ true)

planner_may_end-PlannerSupervises :
    (db : Database) (ctx : Context) (id : String) (target : Session)
    → planner_may_end db ctx id target ≡ true
    → PlannerSupervises db ctx id
planner_may_end-PlannerSupervises db ctx id target h =
    let (c, member, both) =
      found-active_membership_channel
        (λ c.
          is_active_member_as db c ctx.actor_session_id planner
          && is_active_member_as db c id worker)
        db ctx.actor_session_id (ground arith) in
    (c, ground arith, ground arith)

end_session-ended :
    (id : String) (ctx : Context) (t : Times) (r r' : Repository) (receipt : MutationReceipt)
    → end_session id ctx t r ≡ done receipt r'
    → is_live_session r'.db id ≡ false
unfolding end_session
end_session-ended id ctx t r r' receipt e =
    ground (arith, mark_session_ended-ended id t r r' receipt)

--A session that is ended in well-formed tables is ended by itself, by an operator that owns it or
-- shares a channel with it or whose target is in no channel, or by a planner in one of whose
-- channels it is a worker; afterwards it is not live and an active member of no channel.
pub end_session_authorized :
    (id : String) (ctx : Context) (t : Times) (r r' : Repository) (receipt : MutationReceipt)
    (target : Session)
    → IsWellFormed r.db
    → current_session r.db id ≡ some target
    → end_session id ctx t r ≡ done receipt r'
    → ((ctx.actor_session_id ≡ id)
        ⊎ ((ctx.role ≡ operator) × OperatorReaches r.db ctx id target)
        ⊎ ((ctx.role ≡ planner) × PlannerSupervises r.db ctx id))
      × (is_live_session r'.db id ≡ false)
      × ((c : String) → is_active_member r'.db c id ≡ false)
unfolding end_session perform
end_session_authorized id ctx t r r' receipt target w found e = (
  elim (Bool-cases (ctx.actor_session_id === id)) [
    | inl own ↦ inl (ground arith)
    | inr other ↦ elim (role_discrete ctx.role operator) [
      | yes o ↦ inr (inl (o, operator_may_end-OperatorReaches r.db ctx id target (ground arith)))
      | no o ↦ elim (role_discrete ctx.role planner) [
        | yes p ↦ inr (inr (p, planner_may_end-PlannerSupervises r.db ctx id target (ground arith)))
        | no p ↦ absurd (ground arith)
      ]
    ]
  ],
  end_session-ended id ctx t r r' receipt e,
  λ c.
      not_active r'.db c id (done-IsWellFormed (ends_session id) ctx t r r' receipt w e)
        (inl (end_session-ended id ctx t r r' receipt e)),
)

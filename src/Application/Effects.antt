-- ===== src/Application/Effects.antt =====
-- What ending, closing and leaving leave behind.
pub mod Ending
use wardroom.Base.{
  ℕ, String, ◌≡◌, ◌≢◌, ◌⊎◌, refl, true, false, ◌&&◌, ◌||◌, none, some, List, [], ◌∷◌, any, first,
  arith, Bool-cases, Option-cases, inl, inr, ◌===◌, All, update_where, subst,
}
use wardroom.Contracts.{
  SessionRole, planner, worker, operator, role_discrete, Session, Channel, MutationReceipt,
  Membership,
}
use wardroom.Store.{
  Database, Repository, done, Times, current_session, current_channel, is_active_member,
  is_active_member_as, active_row, append_change, active_membership_channels,
}
use wardroom.Store.Sessions.{
  mark_session_ended, is_live_session, is_open_channel, is_live, end_session_row, is_open,
}
use wardroom.Store.Channels.{close_channel, close_row}
use wardroom.Store.Leaving.{leave_membership-left}
use wardroom.Store.Counts.{
  any-update_none, any-active_membership_channels, found-active_membership_channel,
}
use wardroom.Store.Memberships.{update_session_role}
use wardroom.Store.Wf.Handoff.{update_session_role-alone}
use wardroom.Store.Wf.{IsWellFormed, Placed, Keeps}
use wardroom.Application.Access.{
  Context, authentic, is_text, owns_channel, operator_may_end, planner_may_end,
}
use wardroom.Application.{
  Command, perform, ends_session, closes_channel, leave, update_session_role_as, end_session,
  close_channel_as,
}
use wardroom.Application.Seats.{perform-Keeps}

pub rows-Placed :
    (db : Database) (c s : String) (ms : List Membership)
    → All (Placed db) ms
    → any (active_row c s) ms ≡ true
    → (is_live_session db s ≡ true) × (is_open_channel db c ≡ true)
rows-Placed db c s [] a h = cc
rows-Placed db c s (m ∷ ms) (p, a) h = ground (arith, p, rows-Placed db c s ms a)

-- In well-formed tables an active member is live and its channel is open.
pub is_active_member-Placed :
    (db : Database) (c s : String)
    → IsWellFormed db
    → is_active_member db c s ≡ true
    → (is_live_session db s ≡ true) × (is_open_channel db c ≡ true)
unfolding is_active_member
is_active_member-Placed db c s w h = rows-Placed db c s db.memberships w.placed h

-- Neither the ended nor the members of a closed channel are active.
pub not_active :
    (db : Database) (c s : String)
    → IsWellFormed db
    → (is_live_session db s ≡ false) ⊎ (is_open_channel db c ≡ false)
    → is_active_member db c s ≡ false
not_active db c s w h = elim (Bool-cases (is_active_member db c s)) [
  | inr absent ↦ absent
  | inl there ↦ let placed = is_active_member-Placed db c s w there in absurd (ground arith)
]

pub done-IsWellFormed :
    (command : Command) (ctx : Context) (t : Times) (r r' : Repository) (receipt : MutationReceipt)
    → IsWellFormed r.db
    → perform command ctx t r ≡ done receipt r'
    → IsWellFormed r'.db
done-IsWellFormed command ctx t r r' receipt w e = subst Keeps e (perform-Keeps command ctx t r w)

close_row-open :
    (id : String) (at : ℕ) (cs : List Channel)
    → is_open (
        first
          (λ (c : Channel). c.id === id)
          (update_where (λ (c : Channel). c.id === id) (close_row at) cs))
      ≡ false
close_row-open id at [] = refl
close_row-open id at (c ∷ cs) = ground (arith, close_row-open id at cs)

close_channel-closed :
    (id : String) (t : Times) (r r' : Repository) (receipt : MutationReceipt)
    → close_channel id t r ≡ done receipt r'
    → is_open_channel r'.db id ≡ false
unfolding close_channel append_change
close_channel-closed id t r r' receipt e = ground (arith, close_row-open id t.at r.channels)

--A channel that is closed in well-formed tables is closed by a live operator that owns it or is
-- an active operator of it, or that closes a channel without an owner; afterwards it is not open
-- and nobody is an active member of it.
pub close_channel_authorized :
    (id : String) (ctx : Context) (t : Times) (r r' : Repository) (receipt : MutationReceipt)
    (channel : Channel)
    → IsWellFormed r.db
    → current_channel r.db id ≡ some channel
    → close_channel_as id ctx t r ≡ done receipt r'
    → (ctx.role ≡ operator)
      × (authentic r.db ctx ≡ true)
      × ((channel.owner_operator_session_id ≡ some ctx.actor_session_id)
          ⊎ (channel.owner_operator_session_id ≡ none)
          ⊎ (is_active_member_as r.db id ctx.actor_session_id operator ≡ true))
      × (is_open_channel r'.db id ≡ false)
      × ((s : String) → is_active_member r'.db id s ≡ false)
unfolding close_channel_as perform
close_channel_authorized id ctx t r r' receipt channel w found e =
    let shut : is_open_channel r'.db id ≡ false =
      ground (arith, close_channel-closed id t r r' receipt) in
    (
      ground arith,
      ground arith,
      manager,
      shut,
      λ s.
          not_active r'.db id s (done-IsWellFormed (closes_channel id) ctx t r r' receipt w e)
            (inr shut),
    )
  where
    manager :
        (channel.owner_operator_session_id ≡ some ctx.actor_session_id)
        ⊎ (channel.owner_operator_session_id ≡ none)
        ⊎ (is_active_member_as r.db id ctx.actor_session_id operator ≡ true)
    manager = elim (Bool-cases (is_active_member_as r.db id ctx.actor_session_id operator)) [
      | inl member ↦ inr (inr member)
      | inr stranger ↦ elim (Option-cases channel.owner_operator_session_id) [
        | inl unowned ↦ inr (inl unowned)
        | inr (o, owner) ↦ inl (ground arith)
      ]
    ]

--A session that leaves a channel, in well-formed tables, was an active member of it and is none
-- afterwards.
pub leave-left :
    (c s : String) (ctx : Context) (t : Times) (r r' : Repository) (receipt : MutationReceipt)
    → IsWellFormed r.db
    → leave c s ctx t r ≡ done receipt r'
    → (is_active_member r.db c s ≡ true) × (is_active_member r'.db c s ≡ false)
unfolding leave
leave-left c s ctx t r r' receipt w e =
    (ground arith, ground (arith, leave_membership-left c s t r r' receipt (w.single.0 c s)))

--A change of role that goes through is asked for by a live operator and never gives the role of
-- operator; where it makes a planner, no other session is an active planner of that channel
-- afterwards.
pub update_session_role-handoff :
    (c s : String) (role : SessionRole) (ctx : Context) (t : Times) (r r' : Repository)
    (receipt : MutationReceipt)
    → update_session_role_as c s role ctx t r ≡ done receipt r'
    → (authentic r.db ctx ≡ true)
      × (ctx.role ≡ operator)
      × (role ≢ operator)
      × (role ≡ planner
          → (other : String) → other ≢ s
          → is_active_member_as r'.db c other planner ≡ false)
unfolding update_session_role_as
update_session_role-handoff c s role ctx t r r' receipt e = (
  ground arith,
  ground arith,
  λ o. ground arith,
  λ p other h.
      let promoted : update_session_role c s planner t r ≡ done receipt r' = ground arith in
      update_session_role-alone c s t r r' receipt other h promoted,
)

-- ===== src/Store/Resolving/Rows.antt =====
-- The operations that leave the rows of threads alone: those on sessions, channels, memberships and
-- roles.
use wardroom.Base.{ℕ, String, ◌≡◌, refl, Option, List, [], ◌∷◌, arith}
use wardroom.Contracts.{Payload, SessionRole, worker}
use wardroom.Store.{Database, Repository, Times, append_change}
use wardroom.Store.Sessions.{SessionInput, insert_session, mark_session_ended}
use wardroom.Store.Channels.{
  insert_channel, close_channel, update_channel_label, update_channel_broadcast_policy,
  update_channel_coordination_policy,
}
use wardroom.Store.Memberships.{
  insert_membership, leave_membership, assign_role, demote_all, update_session_role,
}
use wardroom.Store.Resolving.{KeepsThreads}

pub append_change-KeepsThreads :
    (base r : Repository) (payload : Payload) (channel : Option String) (noted : ℕ)
    → r.threads ≡ base.threads
    → KeepsThreads base (append_change payload channel noted r)
unfolding append_change
append_change-KeepsThreads base r payload channel noted h = ground arith

demote_all-threads : (ids : List String) (db : Database) → (demote_all ids db).threads ≡ db.threads
unfolding demote_all
demote_all-threads [] db = refl
demote_all-threads (id ∷ ids) db = demote_all-threads ids (assign_role id worker db)

pub insert_session-KeepsThreads :
    (input : SessionInput) (t : Times) (r : Repository) → KeepsThreads r (insert_session input t r)
unfolding insert_session
insert_session-KeepsThreads input t r = grind (arith, append_change-KeepsThreads r)

pub mark_session_ended-KeepsThreads :
    (id : String) (t : Times) (r : Repository) → KeepsThreads r (mark_session_ended id t r)
unfolding mark_session_ended
mark_session_ended-KeepsThreads id t r = grind (arith, append_change-KeepsThreads r)

pub insert_channel-KeepsThreads :
    (id : String) (owner : Option String) (t : Times) (r : Repository)
    → KeepsThreads r (insert_channel id owner t r)
unfolding insert_channel
insert_channel-KeepsThreads id owner t r = grind (arith, append_change-KeepsThreads r)

pub close_channel-KeepsThreads :
    (id : String) (t : Times) (r : Repository) → KeepsThreads r (close_channel id t r)
unfolding close_channel
close_channel-KeepsThreads id t r = grind (arith, append_change-KeepsThreads r)

pub update_channel_label-KeepsThreads :
    (id : String) (label : Option String) (t : Times) (r : Repository)
    → KeepsThreads r (update_channel_label id label t r)
unfolding update_channel_label
update_channel_label-KeepsThreads id label t r = grind (arith, append_change-KeepsThreads r)

pub update_channel_broadcast_policy-KeepsThreads :
    (id policy : String) (t : Times) (r : Repository)
    → KeepsThreads r (update_channel_broadcast_policy id policy t r)
unfolding update_channel_broadcast_policy
update_channel_broadcast_policy-KeepsThreads id policy t r =
    grind (arith, append_change-KeepsThreads r)

pub update_channel_coordination_policy-KeepsThreads :
    (id policy : String) (t : Times) (r : Repository)
    → KeepsThreads r (update_channel_coordination_policy id policy t r)
unfolding update_channel_coordination_policy
update_channel_coordination_policy-KeepsThreads id policy t r =
    grind (arith, append_change-KeepsThreads r)

pub insert_membership-KeepsThreads :
    (channel session : String) (role : Option SessionRole) (t : Times) (r : Repository)
    → KeepsThreads r (insert_membership channel session role t r)
unfolding insert_membership
insert_membership-KeepsThreads channel session role t r =
    grind (arith, append_change-KeepsThreads r)

pub leave_membership-KeepsThreads :
    (channel session : String) (t : Times) (r : Repository)
    → KeepsThreads r (leave_membership channel session t r)
unfolding leave_membership
leave_membership-KeepsThreads channel session t r = grind (arith, append_change-KeepsThreads r)

pub update_session_role-KeepsThreads :
    (channel session : String) (role : SessionRole) (t : Times) (r : Repository)
    → KeepsThreads r (update_session_role channel session role t r)
unfolding update_session_role
update_session_role-KeepsThreads channel session role t r =
    grind (arith, append_change-KeepsThreads r, demote_all-threads)

-- ===== src/Store/Feed.antt =====
-- The feed of changes: what an operation appends to the table is what its receipt carries and what
-- the listeners hear.
use wardroom.Base.{
  All, none, ℕ, suc, ◌+◌, String, ◌≡◌, refl, Option, List, [], ◌∷◌, ◌++◌, append-nil, arith, sym,
  subst, length,
}
use wardroom.Contracts.{Change, Payload, MutationReceipt, SessionRole, worker}
use wardroom.Store.{
  Database, Repository, Outcome, done, thrown, Times, latest_cursor, append_change, unchanged,
}
use wardroom.Store.Sessions.{
  SessionInput, insert_session, mark_session_ended, reactivate_operator_session,
}
use wardroom.Store.Channels.{
  insert_channel, close_channel, reopen_channel, update_channel_label,
  update_channel_broadcast_policy, update_channel_coordination_policy,
}
use wardroom.Store.Replies.{message_of}
use wardroom.Store.Memberships.{
  insert_membership, leave_membership, assign_role, demote_all, update_session_role,
}

-- The cursors of the changes are the numbers that follow `k`, in order.
abbrev pub IsNumbered : ℕ → List Change → Type 0
IsNumbered k [] = Unit
IsNumbered k (c ∷ cs) = (c.cursor ≡ suc k) × IsNumbered (suc k) cs

-- From `r` to `r'` the table and the listeners got just the changes of the receipt.
pub record Advances (r : Repository) (receipt : MutationReceipt) (r' : Repository) : Type 0 where
  pub feed : r'.changes ≡ r.changes ++ receipt.changes
  pub heard : r'.told ≡ r.told ++ receipt.changes
  pub numbered : IsNumbered (latest_cursor r.changes) receipt.changes

-- A change that is no message.
abbrev pub IsQuiet : Change → Type 0
IsQuiet c = message_of c.payload ≡ none

-- The same of an outcome that appends no message; where it is an error, the listeners heard nothing.
abbrev pub Sound : Repository → Outcome MutationReceipt → Type 0
Sound r (done receipt r') = Advances r receipt r' × All IsQuiet receipt.changes
Sound r (thrown e told) = told ≡ r.told

pub IsNumbered-append :
    (k : ℕ) (xs ys : List Change)
    → IsNumbered k xs
    → IsNumbered (k + length xs) ys
    → IsNumbered k (xs ++ ys)
IsNumbered-append k [] ys h u = subst (λ n. IsNumbered n ys) (omega arith) u
IsNumbered-append k (x ∷ xs) ys (e, h) u =
    (e, IsNumbered-append (suc k) xs ys h (subst (λ n. IsNumbered n ys) (omega arith) u))

latest-IsNumbered_from :
    (k : ℕ) (x : Change) (xs : List Change)
    → IsNumbered k (x ∷ xs)
    → latest_cursor (x ∷ xs) ≡ k + length (x ∷ xs)
latest-IsNumbered_from k x [] (e, h) = omega arith
latest-IsNumbered_from k x (y ∷ ys) (e, h) = omega (arith, latest-IsNumbered_from (suc k) y ys h)

pub latest-IsNumbered : (xs : List Change) → IsNumbered 0 xs → latest_cursor xs ≡ length xs
latest-IsNumbered [] h = refl
latest-IsNumbered (x ∷ xs) h = omega (arith, latest-IsNumbered_from 0 x xs h)

abbrev pub Appends : Repository → Outcome MutationReceipt → Type 0
Appends r (done receipt r') = Advances r receipt r'
Appends r (thrown e told) = told ≡ r.told

pub append_change-Appends :
    (base r : Repository) (payload : Payload) (channel : Option String) (noted : ℕ)
    → r.changes ≡ base.changes
    → r.told ≡ base.told
    → Appends base (append_change payload channel noted r)
unfolding append_change
append_change-Appends base r payload channel noted e h = ground arith

pub append_change-Sound :
    (base r : Repository) (payload : Payload) (channel : Option String) (noted : ℕ)
    → message_of payload ≡ none
    → r.changes ≡ base.changes
    → r.told ≡ base.told
    → Sound base (append_change payload channel noted r)
unfolding append_change
append_change-Sound base r payload channel noted q e h = ground arith

pub unchanged-Sound : (r : Repository) → Sound r (unchanged r)
unchanged-Sound r =
    (record { feed = sym (append-nil _); heard = sym (append-nil _); numbered = tt }, tt)

pub insert_session-Sound :
    (input : SessionInput) (t : Times) (r : Repository) → Sound r (insert_session input t r)
unfolding insert_session
insert_session-Sound input t r = grind (arith, append_change-Sound r)

pub mark_session_ended-Sound :
    (id : String) (t : Times) (r : Repository) → Sound r (mark_session_ended id t r)
unfolding mark_session_ended
mark_session_ended-Sound id t r = grind (arith, append_change-Sound r, unchanged-Sound)

pub reactivate_operator_session-Sound :
    (id : String) (t : Times) (r : Repository) → Sound r (reactivate_operator_session id t r)
unfolding reactivate_operator_session
reactivate_operator_session-Sound id t r = grind (arith, append_change-Sound r, unchanged-Sound)

pub insert_channel-Sound :
    (id : String) (owner : Option String) (t : Times) (r : Repository)
    → Sound r (insert_channel id owner t r)
unfolding insert_channel
insert_channel-Sound id owner t r = grind (arith, append_change-Sound r, unchanged-Sound)

pub close_channel-Sound :
    (id : String) (t : Times) (r : Repository) → Sound r (close_channel id t r)
unfolding close_channel
close_channel-Sound id t r = grind (arith, append_change-Sound r, unchanged-Sound)

pub reopen_channel-Sound :
    (id : String) (t : Times) (r : Repository) → Sound r (reopen_channel id t r)
unfolding reopen_channel
reopen_channel-Sound id t r = grind (arith, append_change-Sound r, unchanged-Sound)

pub update_channel_label-Sound :
    (id : String) (label : Option String) (t : Times) (r : Repository)
    → Sound r (update_channel_label id label t r)
unfolding update_channel_label
update_channel_label-Sound id label t r = grind (arith, append_change-Sound r, unchanged-Sound)

pub update_channel_broadcast_policy-Sound :
    (id : String) (policy : String) (t : Times) (r : Repository)
    → Sound r (update_channel_broadcast_policy id policy t r)
unfolding update_channel_broadcast_policy
update_channel_broadcast_policy-Sound id policy t r =
    grind (arith, append_change-Sound r, unchanged-Sound)

pub update_channel_coordination_policy-Sound :
    (id : String) (policy : String) (t : Times) (r : Repository)
    → Sound r (update_channel_coordination_policy id policy t r)
unfolding update_channel_coordination_policy
update_channel_coordination_policy-Sound id policy t r =
    grind (arith, append_change-Sound r, unchanged-Sound)

pub insert_membership-Sound :
    (channel : String) (session : String) (role : Option SessionRole) (t : Times) (r : Repository)
    → Sound r (insert_membership channel session role t r)
unfolding insert_membership
insert_membership-Sound channel session role t r =
    grind (arith, append_change-Sound r, unchanged-Sound)

pub leave_membership-Sound :
    (channel : String) (session : String) (t : Times) (r : Repository)
    → Sound r (leave_membership channel session t r)
unfolding leave_membership
leave_membership-Sound channel session t r = grind (arith, append_change-Sound r, unchanged-Sound)

demote_all-changes : (ids : List String) (db : Database) → (demote_all ids db).changes ≡ db.changes
unfolding demote_all
demote_all-changes [] db = refl
demote_all-changes (id ∷ ids) db = demote_all-changes ids (assign_role id worker db)

pub update_session_role-Sound :
    (channel : String) (session : String) (role : SessionRole) (t : Times) (r : Repository)
    → Sound r (update_session_role channel session role t r)
unfolding update_session_role
update_session_role-Sound channel session role t r =
    grind (arith, append_change-Sound r, unchanged-Sound, demote_all-changes)

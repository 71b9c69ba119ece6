-- ===== src/Application/Resolving.antt =====
-- What the commands and the requests do to a resolved thread.
use wardroom.Base.{String, ◌≡◌, Bool, true, false, List, [], ◌∷◌, ◌∙◌, arith, All}
use wardroom.Contracts.{MutationReceipt}
use wardroom.Store.{Repository, Outcome, done, thrown, Times, settle, write}
use wardroom.Store.Controls.{commit_control}
use wardroom.Store.Resolving.{
  KeepsThreads, Rests, Sound-Rests, is_resolved_thread, replies, reopens_thread,
  commit_message-Rests, set_thread_state-Rests,
}
use wardroom.Store.Resolving.Rows.{
  append_change-KeepsThreads, insert_session-KeepsThreads, mark_session_ended-KeepsThreads,
  insert_channel-KeepsThreads, close_channel-KeepsThreads, update_channel_label-KeepsThreads,
  update_channel_broadcast_policy-KeepsThreads, update_channel_coordination_policy-KeepsThreads,
  insert_membership-KeepsThreads, leave_membership-KeepsThreads, update_session_role-KeepsThreads,
}
use wardroom.Application.Access.{Context, check_seat}
use wardroom.Application.{
  Command, registers_session, registers_channel, joins, leaves, ends_session, closes_channel,
  labels_channel, sets_broadcast_policy, sets_coordination_policy, updates_role, commits_control,
  perform, register_session, register_channel, join, leave, end_session, close_channel_as,
  label_channel, set_channel_broadcast_policy, set_channel_coordination_policy,
  update_session_role_as, commit_control_as, commit_message_as,
}
use wardroom.Application.Feed.{perform-Sound}
use wardroom.Application.History.{Request, answer, serve, run}

perform-KeepsThreads :
    (c : Command) (ctx : Context) (t : Times) (r : Repository) → KeepsThreads r (perform c ctx t r)
unfolding perform register_session register_channel join leave end_session close_channel_as
    label_channel set_channel_broadcast_policy set_channel_coordination_policy
    update_session_role_as commit_control_as check_seat commit_control
perform-KeepsThreads (registers_session id name) ctx t r =
    grind (arith, insert_session-KeepsThreads)
perform-KeepsThreads (registers_channel id) ctx t r = grind (arith, insert_channel-KeepsThreads)
perform-KeepsThreads (joins channel session) ctx t r = grind (arith, insert_membership-KeepsThreads)
perform-KeepsThreads (leaves channel session) ctx t r = grind (arith, leave_membership-KeepsThreads)
perform-KeepsThreads (ends_session id) ctx t r = grind (arith, mark_session_ended-KeepsThreads)
perform-KeepsThreads (closes_channel channel) ctx t r = grind (arith, close_channel-KeepsThreads)
perform-KeepsThreads (labels_channel channel label) ctx t r =
    grind (arith, update_channel_label-KeepsThreads)
perform-KeepsThreads (sets_broadcast_policy channel policy) ctx t r =
    grind (arith, update_channel_broadcast_policy-KeepsThreads)
perform-KeepsThreads (sets_coordination_policy channel policy) ctx t r =
    grind (arith, update_channel_coordination_policy-KeepsThreads)
perform-KeepsThreads (updates_role channel session role) ctx t r =
    grind (arith, update_session_role-KeepsThreads)
perform-KeepsThreads (commits_control input id) ctx t r =
    grind (arith, append_change-KeepsThreads r)

-- Whether a request asks to reopen the thread.
abbrev pub reopens : String → Request → Bool
reopens root (Request.sets_thread other actor state channel t) = reopens_thread state other root
reopens root (Request.commands c ctx t) = false
reopens root (Request.sends input id t) = false

answer-Rests :
    (root : String) (q : Request) (r : Repository)
    → reopens root q ≡ false
    → is_resolved_thread r.db root ≡ true
    → Rests root r (answer q r)
unfolding answer commit_message_as
answer-Rests root (Request.commands c ctx t) r d h =
    Sound-Rests root r _ (perform-Sound c ctx t r) (perform-KeepsThreads c ctx t r) h
answer-Rests root (Request.sends input id t) r d h =
    ground (arith, commit_message-Rests root input id t r h)
answer-Rests root (Request.sets_thread other actor state channel t) r d h =
    ground (arith, set_thread_state-Rests root other actor state channel t r d h)

settle-Rests :
    (root : String) (r : Repository) (o : Outcome MutationReceipt)
    → Rests root r o
    → is_resolved_thread r.db root ≡ true
    → (is_resolved_thread (settle r o).db root ≡ true)
      × (replies root (settle r o) ≡ replies root r)
settle-Rests root r (done receipt r') s h = s
settle-Rests root r (thrown e told) s h = (h, ground arith)

--Once a thread is resolved, and as long as no request asks to reopen it, it stays resolved
-- whatever commands, messages and thread requests are served, and the stored replies of the
-- thread stay the same.
pub run-Rests :
    (root : String) (r : Repository) (qs : List Request)
    → All (λ q. reopens root q ≡ false) qs
    → is_resolved_thread r.db root ≡ true
    → (is_resolved_thread (run r qs).db root ≡ true) × (replies root (run r qs) ≡ replies root r)
unfolding run write serve
run-Rests root r [] ds h = (h, ground arith)
run-Rests root r (q ∷ qs) (d, ds) h =
    let (still, same) = settle-Rests root r (answer q r) (answer-Rests root q r d h) h in
    let (last, kept) = run-Rests root (serve r q) qs ds still in (last, kept ∙ same)

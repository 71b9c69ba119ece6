-- ===== src/Application/Tests/Messages.antt =====
-- Runs of the requests that send messages and resolve threads, and the theorems at these inputs.
use wardroom.Base.{◌≡◌, refl, true, false, none, some, List, [], ◌∷◌, length, byte_length}
use wardroom.Contracts.{
  worker, MessageEvent, CanonicalMessageCommitInput, absent, text, opened, resolved,
}
use wardroom.Store.{Repository, done, write}
use wardroom.Store.Replies.{reply_event_id, reply_to, reply_to_parent, resolve_reply_metadata}
use wardroom.Store.Messages.{new_event, commit_message}
use wardroom.Store.Threads.{message_by_id, thread_lifecycle, set_rows, set_thread_state}
use wardroom.Store.Threading.{IsThreaded}
use wardroom.Store.Retrying.{commit_message-again}
use wardroom.Application.{registers_session, commit_message_as}
use wardroom.Application.History.{Request, serve, run, run-IsThreaded}
use wardroom.Store.Resolving.{is_resolved_thread, replies}
use wardroom.Application.Resolving.{run-Rests}
use wardroom.Application.Tests.{methods, demo, t}

messages : Unit {0}
unfolding methods reply_event_id reply_to reply_to_parent resolve_reply_metadata commit_message
    message_by_id thread_lifecycle set_rows set_thread_state commit_message_as byte_length serve
    write
messages = tt

abbrev hello : CanonicalMessageCommitInput
hello = record {
  channel_id = some "demo";
  sender_session_id = "pl";
  body = "hello";
  target = none;
  reply_to_event_id = absent;
  correlation =
      some (record { deduplication_key = some "k"; reply_to_event_id = absent; rest = "" });
  delivery_statuses = none;
  attachment_references = none;
}

abbrev reply : CanonicalMessageCommitInput
reply = record hello { reply_to_event_id = text "e1"; correlation = none }

abbrev talk : List Request
talk =
    Request.sends hello "e1" t
    ∷ Request.sends reply "e2" t
    ∷ Request.sends (record reply { reply_to_event_id = text "e2" }) "e3" t
    ∷ Request.sets_thread "e1" "wk" resolved none t
    ∷ Request.sends reply "e4" t
    ∷ Request.sets_thread "e1" "wk" opened none t
    ∷ Request.sends reply "e5" t
    ∷ []

-- The reply to the resolved thread is refused.
talk_test : length (run demo talk).changes ≡ 12
unfolding messages
talk_test = refl

demo-IsThreaded : IsThreaded demo.changes
demo-IsThreaded = (tt, (tt, (tt, (tt, (tt, (tt, tt))))))

run-IsThreaded_example : IsThreaded (run demo talk).changes
run-IsThreaded_example = run-IsThreaded demo talk demo-IsThreaded

abbrev said : MessageEvent
said =
    new_event hello
      (record {
        reply_to_event_id = none;
        thread_root_event_id = none;
        correlation = hello.correlation;
      })
      "e1" 10

-- The same message again, with another fresh id.
commit_message-again_example :
    commit_message hello "e9" t (serve demo (Request.sends hello "e1" t))
    ≡ done
        (record {
          receipt = record { cursor = 7; did_append = false; changes = [] };
          event = said;
          was_deduplicated = true;
        })
        (serve demo (Request.sends hello "e1" t))
unfolding messages
commit_message-again_example = commit_message-again hello "e1" "e9" "k" t t demo _ _ refl refl

-- The conversation until the thread is resolved.
abbrev settled : Repository
settled = run demo (
    Request.sends hello "e1" t
    ∷ Request.sends reply "e2" t
    ∷ Request.sets_thread "e1" "wk" resolved none t
    ∷ [])

abbrev late : List Request
late =
    Request.sends reply "e3" t
    ∷ Request.sends (record reply { reply_to_event_id = text "e2" }) "e4" t
    ∷ Request.commands (registers_session "new" none)
        (record { actor_session_id = "new"; role = worker }) t
    ∷ Request.sets_thread "e1" "wk" resolved none t
    ∷ []

late_test : length (replies "e1" settled) ≡ 1
unfolding messages
late_test = refl

run-Rests_example :
    (is_resolved_thread (run settled late).db "e1" ≡ true)
    × (replies "e1" (run settled late) ≡ replies "e1" settled)
unfolding messages
run-Rests_example = run-Rests "e1" settled late (refl, (refl, (refl, (refl, tt)))) refl

-- ===== src/Store/Threads.antt =====
-- The life cycle of message threads: `threadLifecycle`, `setThreadState` and `messageById` of
-- RoomsRepository in roomsd/src/storage/repository.ts.
use wardroom.Base.{
  ℕ, String, Bool, true, false, ◌&&◌, ◌||◌, not, Option, none, some, List, [], ◌∷◌, if◌then◌else◌,
  is_some, ◌===◌, first, any, update_where, blank,
}
use wardroom.Contracts.{
  Payload, MessageEvent, Change, MutationReceipt, ThreadLifecycle, ThreadState, resolved, opened,
  thread_resolved, thread_reopened, unknown_session, unknown_message, not_thread_root,
  thread_channel_required, not_member,
}
use wardroom.Store.{
  M, ◌>>=◌, ◌>>◌, return, throw_if, require, get, put, Times, is_active_member, append_change,
  latest_cursor,
}
use wardroom.Store.Sessions.{is_live_session}
use wardroom.Store.Replies.{message_of, is_message, thread_row, reply_event_id, field_of}

-- `channelId ? … AND channel_id=? : …`: neither null nor the empty text restricts the search.
abbrev pub in_column : Option String → Change → Bool
in_column none c = true
in_column (some id) c =
    id === "" || elim c.channel_id [ none ↦ false | some channel ↦ channel === id ]

unfoldable pub message_by_id : String → Option String → M MessageEvent
message_by_id id channel = do
  throw_if (blank id) unknown_message
  db ← get
  row ← require (first (λ c. in_column channel c && is_message id c) db.changes) unknown_message
  require (message_of row.payload) unknown_message

abbrev pub fresh_thread : String → String → ThreadLifecycle
fresh_thread root channel = record {
  thread_root_event_id = root;
  channel_id = channel;
  state = opened;
  resolved_at = none;
  resolved_by_session_id = none;
  reopened_at = none;
  reopened_by_session_id = none;
  updated_at = none;
}

abbrev thread_or : Option ThreadLifecycle → ThreadLifecycle → ThreadLifecycle
thread_or none t = t
thread_or (some s) t = s

abbrev filled : Option String → Option String
filled none = none
filled (some s) = if s === "" then none else some s

unfoldable pub thread_lifecycle : String → Option String → M ThreadLifecycle
thread_lifecycle root channel = do
  event ← message_by_id root channel
  reply ← reply_event_id (field_of event.reply_to_event_id)
  throw_if (is_some reply) not_thread_root
  home ← require (filled event.channel_id) thread_channel_required
  db ← get
  return (thread_or (thread_row db root) (fresh_thread root home))

abbrev pub is_row : String → ThreadLifecycle → Bool
is_row root t = t.thread_root_event_id === root

abbrev pub resolve_row : String → ℕ → ThreadLifecycle → ThreadLifecycle
resolve_row actor at t = record t {
  state = resolved;
  resolved_at = some at;
  resolved_by_session_id = some actor;
  updated_at = some at;
}

abbrev pub reopen_thread_row : String → ℕ → ThreadLifecycle → ThreadLifecycle
reopen_thread_row actor at t = record t {
  state = opened;
  reopened_at = some at;
  reopened_by_session_id = some actor;
  updated_at = some at;
}

-- The rows after `INSERT … ON CONFLICT DO UPDATE`, or after the `UPDATE`.
unfoldable pub set_rows :
    ThreadState → String → String → String → ℕ → List ThreadLifecycle → List ThreadLifecycle
set_rows resolved root channel actor at rows =
    if any (is_row root) rows
    then update_where (is_row root) (resolve_row actor at) rows
    else resolve_row actor at (fresh_thread root channel) ∷ rows
set_rows opened root channel actor at rows =
    update_where (is_row root) (reopen_thread_row actor at) rows

abbrev pub same_state : ThreadState → ThreadState → Bool
same_state resolved resolved = true
same_state opened opened = true
same_state resolved opened = false
same_state opened resolved = false

pub record ThreadReceipt : Type 0 where
  pub receipt : MutationReceipt
  pub thread : ThreadLifecycle

abbrev noted_as : ThreadState → ThreadLifecycle → Payload
noted_as resolved t = thread_resolved t
noted_as opened t = thread_reopened t

change_state : ThreadState → ThreadLifecycle → String → String → Times → M ThreadReceipt
change_state state current root actor t = do
  db ← get
  put (record db { threads = set_rows state root current.channel_id actor t.at db.threads })
  thread ← thread_lifecycle root (some current.channel_id)
  receipt ← append_change (noted_as state thread) (some current.channel_id) t.noted
  return (record { receipt = receipt; thread = thread })

keep_state : ThreadLifecycle → M ThreadReceipt
keep_state current r =
    return
      (record {
        receipt = record { cursor = latest_cursor r.changes; did_append = false; changes = [] };
        thread = current;
      })
      r

unfoldable pub set_thread_state :
    String → String → ThreadState → Option String → Times → M ThreadReceipt
unfolding change_state keep_state
set_thread_state root actor state channel t = do
  db ← get
  throw_if (not (is_live_session db actor)) unknown_session
  current ← thread_lifecycle root channel
  throw_if (not (is_active_member db current.channel_id actor)) not_member
  if same_state current.state state
      then keep_state current
      else change_state state current root actor t

unfoldable pub resolve_thread : String → String → Option String → Times → M ThreadReceipt
resolve_thread root actor channel t = set_thread_state root actor resolved channel t

unfoldable pub reopen_thread : String → String → Option String → Times → M ThreadReceipt
reopen_thread root actor channel t = set_thread_state root actor opened channel t

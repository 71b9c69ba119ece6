-- ===== src/Store/Replies.antt =====
-- `resolveReplyMetadata` of RoomsRepository in
-- roomsd/src/storage/repository.ts. The stored events were written by `commitMessage`; events
-- imported from an older store are left out. A deduplication key is a text.
use wardroom.Base.{
  ltb, String, Bool, true, false, ◌&&◌, ◌||◌, not, Option, none, some, if◌then◌else◌, is_some,
  ◌===◌, first, blank, byte_length,
}
use wardroom.Contracts.{
  Field, absent, text, other, Correlation, CanonicalMessageCommitInput, MessageEvent, Payload,
  message_sent, Change, ThreadLifecycle, ThreadState, resolved, opened, invalid_reply_to_event_id,
  invalid_reply_metadata, stale_reply, invalid_reply_parent, thread_already_resolved,
}
use wardroom.Store.{Database, M, ◌>>=◌, ◌>>◌, return, throw, throw_if, require, get}

abbrev pub same_text : Option String → Option String → Bool
same_text none none = true
same_text (some s) (some t) = s === t
same_text none (some _) = false
same_text (some _) none = false

-- `replyEventId`
unfoldable pub reply_event_id : Field → M (Option String)
reply_event_id absent = return none
reply_event_id other = throw invalid_reply_to_event_id
reply_event_id (text s) =
    if blank s || ltb 512 (byte_length s) then throw invalid_reply_to_event_id else return (some s)

abbrev pub field_of : Option String → Field
field_of none = absent
field_of (some s) = text s

abbrev pub legacy_reply : Option Correlation → Field
legacy_reply none = absent
legacy_reply (some c) = c.reply_to_event_id

-- The messages of the table of changes, with the column that they stand under.
abbrev pub message_of : Payload → Option MessageEvent
message_of (message_sent e) = some e
message_of _ = none

abbrev pub has_id : String → Option MessageEvent → Bool
has_id id none = false
has_id id (some e) = e.id === id

abbrev pub is_message : String → Change → Bool
is_message id c = has_id id (message_of c.payload)

abbrev event_in : Option Change → Option MessageEvent
event_in none = none
event_in (some c) = message_of c.payload

abbrev pub is_resolved : ThreadState → Bool
is_resolved resolved = true
is_resolved opened = false

abbrev pub thread_row : Database → String → Option ThreadLifecycle
thread_row db root = first (λ (t : ThreadLifecycle). t.thread_root_event_id === root) db.threads

abbrev pub resolved_row : Option ThreadLifecycle → Bool
resolved_row none = false
resolved_row (some t) = is_resolved t.state

abbrev pub or_else : Option String → Option String → Option String
or_else none t = t
or_else (some s) t = some s

abbrev pub get_or : Option String → String → String
get_or none d = d
get_or (some s) d = s

abbrev disagree : Option String → Option String → Bool
disagree (some s) (some t) = not (s === t)
disagree _ _ = false

pub record ReplyMetadata : Type 0 where
  pub reply_to_event_id : Option String
  pub thread_root_event_id : Option String
  pub correlation : Option Correlation

-- `{ ...(correlationRecord ?? {}), replyToEventId }`
abbrev with_reply : Option Correlation → String → Correlation
with_reply none id = record { deduplication_key = none; reply_to_event_id = text id; rest = "" }
with_reply (some c) id = record c { reply_to_event_id = text id }

-- The part of `resolveReplyMetadata` behind the lookup of the parent's row.
unfoldable pub reply_to_parent :
    Database → CanonicalMessageCommitInput → String → Option String → MessageEvent → M ReplyMetadata
reply_to_parent db input id column parent = do
  throw_if (not (same_text column input.channel_id)) stale_reply
  parent_reply ← reply_event_id (field_of parent.reply_to_event_id)
  parent_root ← reply_event_id (field_of parent.thread_root_event_id)
  throw_if (is_some parent_reply && not (is_some parent_root)) invalid_reply_parent
  let root = get_or parent_root id
  throw_if (resolved_row (thread_row db root)) thread_already_resolved
  return (record {
    reply_to_event_id = some id;
    thread_root_event_id = some root;
    correlation = some (with_reply input.correlation id);
  })

unfoldable pub reply_to : Database → CanonicalMessageCommitInput → Option String → M ReplyMetadata
reply_to db input none = return (record {
  reply_to_event_id = none;
  thread_root_event_id = none;
  correlation = input.correlation;
})
reply_to db input (some id) = do
  row ← require (first (is_message id) db.changes) stale_reply
  parent ← require (message_of row.payload) stale_reply
  reply_to_parent db input id row.channel_id parent

unfoldable pub resolve_reply_metadata : CanonicalMessageCommitInput → M ReplyMetadata
unfolding reply_to reply_to_parent
resolve_reply_metadata input = do
  db ← get
  canonical ← reply_event_id input.reply_to_event_id
  legacy ← reply_event_id (legacy_reply input.correlation)
  throw_if (disagree canonical legacy) invalid_reply_metadata
  reply_to db input (or_else canonical legacy)

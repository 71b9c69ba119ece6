-- ===== src/Store/Messages.antt =====
-- `commitMessage` of RoomsRepository in roomsd/src/storage/repository.ts. The random event id is an
-- argument.
use wardroom.Base.{
  ℕ, String, Bool, true, false, ◌&&◌, ◌||◌, not, Option, none, some, List, [], ◌∷◌, map,
  if◌then◌else◌, is_some, ◌===◌, first, select,
}
use wardroom.Contracts.{
  DeliveryStatus, delivered, queued, undeliverable, Target, Correlation,
  CanonicalMessageCommitInput, MessageEvent, message_sent, Change, MutationReceipt, unknown_session,
}
use wardroom.Store.{
  Database, M, ◌>>=◌, ◌>>◌, return, throw_if, get, Times, current_session, append_change,
}
use wardroom.Store.Replies.{message_of, or_else, ReplyMetadata, resolve_reply_metadata}

pub record MessageReceipt : Type 0 where
  pub receipt : MutationReceipt
  pub event : MessageEvent
  pub was_deduplicated : Bool

abbrev pub target_session : Target → Option String
target_session target = or_else target.session_id target.legacy_session_id

-- `!recipientSessionId || !this.currentSession(recipientSessionId)`
abbrev unknown_recipient : Database → Option String → Bool
unknown_recipient db none = true
unknown_recipient db (some id) = id === "" || not (is_some (current_session db id))

abbrev pub bad_recipient : Database → Option Target → Bool
bad_recipient db none = false
bad_recipient db (some target) =
    (target.kind === "direct" || target.kind === "directToSession")
    && unknown_recipient db (target_session target)

-- A deduplication key that counts: the empty text is falsy.
abbrev pub key_of : Option Correlation → Option String
key_of none = none
key_of (some c) = elim c.deduplication_key [
  | none ↦ none
  | some key ↦ if key === "" then none else some key
]

abbrev holds_key : String → Option String → Bool
holds_key key none = false
holds_key key (some k) = k === key

abbrev pub sent_with : String → Option MessageEvent → Bool
sent_with key none = false
sent_with key (some e) = holds_key key (key_of e.correlation)

-- The changes that the query for an earlier message with the key finds.
abbrev pub is_prior : Option String → Change → Bool
is_prior none c = false
is_prior (some key) c = sent_with key (message_of c.payload)

abbrev all_some : List String → List (Option String)
all_some = map some

abbrev listed : Option (List String) → List String
listed none = []
listed (some ids) = ids

abbrev pub recipients_of : Option Target → List (Option String)
recipients_of none = []
recipients_of (some target) =
    if target.kind === "direct"
    then target.session_id ∷ []
    else all_some (listed target.session_ids)

-- The property name of a recipient.
abbrev pub property_name : Option String → String
property_name none = "undefined"
property_name (some id) = id

abbrev all_delivered : List (Option String) → List (String × DeliveryStatus)
all_delivered = map (λ id. (property_name id, delivered))

abbrev pub statuses_of :
    Option (List (String × DeliveryStatus)) → List (Option String) → List (String × DeliveryStatus)
statuses_of none recipients = all_delivered recipients
statuses_of (some statuses) recipients = statuses

abbrev is_delivered : Option (String × DeliveryStatus) → Bool
is_delivered none = false
is_delivered (some (id, status)) = elim status [
  | delivered ↦ true
  | queued ↦ false
  | undeliverable ↦ false
]

-- `statuses[id] === "delivered"`
abbrev pub reached : List (String × DeliveryStatus) → Option String → Bool
reached statuses id =
    is_delivered (first (λ (s : String × DeliveryStatus). s.0 === property_name id) statuses)

abbrev pub new_event : CanonicalMessageCommitInput → ReplyMetadata → String → ℕ → MessageEvent
new_event input reply id at =
    let recipients = recipients_of input.target in
    let statuses = statuses_of input.delivery_statuses recipients in
    record {
      id = id;
      channel_id = input.channel_id;
      sender_session_id = input.sender_session_id;
      body = input.body;
      target = input.target;
      attachment_references = listed input.attachment_references;
      delivered_recipient_session_ids = select (reached statuses) recipients;
      recipient_statuses = statuses;
      correlation = reply.correlation;
      reply_to_event_id = reply.reply_to_event_id;
      thread_root_event_id = reply.thread_root_event_id;
      occurred_at = at;
    }

send : CanonicalMessageCommitInput → ReplyMetadata → String → Times → M MessageReceipt
send input reply id t = do
  receipt ← append_change (message_sent (new_event input reply id t.at)) input.channel_id t.noted
  return (record {
    receipt = receipt;
    event = new_event input reply id t.at;
    was_deduplicated = false;
  })

abbrev pub repeat_of : Change → MessageEvent → MessageReceipt
repeat_of prior event = record {
  receipt = record { cursor = prior.cursor; did_append = false; changes = [] };
  event = event;
  was_deduplicated = true;
}

-- What the store answers when the key was used before: the earlier event.
answer : Option Change → M MessageReceipt → M MessageReceipt
answer none next = next
answer (some prior) next = elim (message_of prior.payload) [
  | none ↦ next
  | some event ↦ return (repeat_of prior event)
]

unfoldable pub commit_message : CanonicalMessageCommitInput → String → Times → M MessageReceipt
unfolding send answer
commit_message input id t = do
  db ← get
  throw_if (bad_recipient db input.target) unknown_session
  reply ← resolve_reply_metadata input
  answer (first (is_prior (key_of reply.correlation)) db.changes) (send input reply id t)

-- ===== src/Store/Threading.antt =====
-- Replies lead to roots: the messages of a table of changes as a forest. The messages were stored by
-- `commitMessage` of roomsd/src/storage/repository.ts.
pub mod Replying
pub mod Sending
use wardroom.Base.{
  ℕ, suc, String, ◌≡◌, refl, sym, ap, ◌∙◌, subst, Bool, true, false, ◌&&◌, not, Option, none, some,
  List, [], ◌∷◌, ◌++◌, any, first, is_some, arith, All, Option-cases, Bool-cases, inl, inr,
  All-append, text_discrete,
}
use wardroom.Contracts.{
  CanonicalMessageCommitInput, MessageEvent, Payload, message_sent, Change, MutationReceipt, Field,
  text, absent,
}
use wardroom.Store.{
  Database, Repository, Outcome, done, thrown, Outcome-cases, Times, ◌>>=◌, append_change,
  known_channel, latest_cursor,
}
use wardroom.Store.Replies.{
  message_of, is_message, same_text, field_of, get_or, or_else, legacy_reply, reply_event_id,
  ReplyMetadata, reply_to_parent, reply_to, resolve_reply_metadata, thread_row, resolved_row,
}
use wardroom.Store.Messages.{MessageReceipt, new_event, commit_message}
use wardroom.Store.Feed.{Advances, Sound, IsQuiet}
use wardroom.Store.Counts.{All-map}
use wardroom.Store.Reading.{reply_event_id-Reads, resolve_reply_metadata-Reads}

abbrev pub is_root : Option MessageEvent → Bool
is_root none = false
is_root (some e) = not (is_some e.reply_to_event_id)

-- A message under this id and channel that is no reply.
abbrev pub is_root_message : String → Option String → Change → Bool
is_root_message root column c =
    is_message root c && same_text c.channel_id column && is_root (message_of c.payload)

-- Reply metadata that lead to a root among the changes, of the same channel.
abbrev pub Leads : List Change → Option String → Option String → Option String → Type 0
Leads cs column none root = root ≡ none
Leads cs column (some parent) root =
    (id : String) × (root ≡ some id) × (any (is_root_message id column) cs ≡ true)

abbrev pub Threaded : List Change → Option String → Option MessageEvent → Type 0
Threaded cs column none = Unit
Threaded cs column (some e) =
    (e.channel_id ≡ column) × Leads cs column e.reply_to_event_id e.thread_root_event_id

-- Every message stands under its own channel; one that is no reply has no root, and one that is a
-- reply has a root which is among the messages of the same channel and no reply itself.
abbrev pub IsThreaded : List Change → Type 0
IsThreaded cs = All (λ c. Threaded cs c.channel_id (message_of c.payload)) cs

any-append : (p : Change → Bool) (xs ys : List Change) → any p xs ≡ true → any p (xs ++ ys) ≡ true
any-append p [] ys h = cc
any-append p (x ∷ xs) ys h = ground (arith, any-append p xs ys)

pub Leads-append :
    (cs ys : List Change) (column reply root : Option String)
    → Leads cs column reply root
    → Leads (cs ++ ys) column reply root
Leads-append cs ys column none root h = h
Leads-append cs ys column (some parent) root (id, e, h) =
    (id, e, any-append (is_root_message id column) cs ys h)

Threaded-append :
    (cs ys : List Change) (column : Option String) (e : Option MessageEvent)
    → Threaded cs column e
    → Threaded (cs ++ ys) column e
Threaded-append cs ys column none h = h
Threaded-append cs ys column (some e) (same, h) =
    (same, Leads-append cs ys column e.reply_to_event_id e.thread_root_event_id h)

-- Appending changes that are themselves threaded.
pub IsThreaded-append :
    (cs ys : List Change)
    → IsThreaded cs
    → All (λ c. Threaded (cs ++ ys) c.channel_id (message_of c.payload)) ys
    → IsThreaded (cs ++ ys)
IsThreaded-append cs ys w new =
    All-append (λ c. Threaded (cs ++ ys) c.channel_id (message_of c.payload)) cs ys
      (All-map (λ c. Threaded cs c.channel_id (message_of c.payload))
        (λ c. Threaded (cs ++ ys) c.channel_id (message_of c.payload))
        (λ c. Threaded-append cs ys c.channel_id (message_of c.payload)) cs w)
      new

-- The messages are threaded after the outcome.
abbrev pub Threads {ℓ} : {A : Type ℓ} → Outcome A → Type 0
Threads (done result r) = IsThreaded r.changes
Threads (thrown e told) = Unit

-- A change that is no message is under no condition.
Threaded-IsQuiet :
    (cs : List Change) (c : Change) → IsQuiet c → Threaded cs c.channel_id (message_of c.payload)
Threaded-IsQuiet cs c quiet = rw quiet tt

pub Advances-IsThreaded :
    (r r' : Repository) (receipt : MutationReceipt)
    → Advances r receipt r'
    → All IsQuiet receipt.changes
    → IsThreaded r.changes
    → IsThreaded r'.changes
Advances-IsThreaded r r' receipt a quiet w =
    let cs = r.changes ++ receipt.changes in
    rw a.feed (
      IsThreaded-append r.changes receipt.changes w (
        All-map IsQuiet (λ c. Threaded cs c.channel_id (message_of c.payload)) (Threaded-IsQuiet cs)
          receipt.changes quiet))

-- Outcomes that append no message.
pub Sound-Threads :
    (r : Repository) (o : Outcome MutationReceipt) → Sound r o → IsThreaded r.changes → Threads o
Sound-Threads r (done receipt r') s w = Advances-IsThreaded r r' receipt s.0 s.1 w
Sound-Threads r (thrown e told) s w = tt

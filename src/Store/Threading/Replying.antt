-- ===== src/Store/Threading/Replying.antt =====
-- What reply metadata lead to: `resolveReplyMetadata` of roomsd/src/storage/repository.ts.
use wardroom.Base.{
  String, ◌≡◌, refl, subst, Bool, true, Option, none, some, List, [], ◌∷◌, any, first, arith, All,
  Option-cases, Bool-cases, inl, inr,
}
use wardroom.Contracts.{CanonicalMessageCommitInput, MessageEvent, Change}
use wardroom.Store.{Database, Repository, done, Outcome-cases}
use wardroom.Store.Replies.{
  message_of, is_message, same_text, get_or, or_else, legacy_reply, reply_event_id, ReplyMetadata,
  reply_to_parent, reply_to, resolve_reply_metadata,
}
use wardroom.Store.Reading.{reply_event_id-Reads}
use wardroom.Store.Threading.{is_root_message, Leads, Threaded, IsThreaded}

module _ {κ} (P : Change → Type κ) (p : Change → Bool) where
  first-All : (cs : List Change) (c : Change) → first p cs ≡ some c → All P cs → P c
  first-All [] c e a = cc
  first-All (x ∷ xs) c e (here, rest) = elim (Bool-cases (p x)) [
    | inl hit ↦ subst P (ground arith) here
    | inr miss ↦ first-All xs c (ground arith) rest
  ]

pub first-passes :
    (p : Change → Bool) (cs : List Change) (c : Change) → first p cs ≡ some c → p c ≡ true
first-passes p [] c e = cc
first-passes p (x ∷ xs) c e = ground (arith, first-passes p xs c)

first-any :
    (p q : Change → Bool) (cs : List Change) (c : Change)
    → first p cs ≡ some c
    → q c ≡ true
    → any q cs ≡ true
first-any p q [] c e h = cc
first-any p q (x ∷ xs) c e h = ground (arith, first-any p q xs c)

-- The root that a reply to `parent` gets is among the roots of the parent's channel.
root_of_parent :
    (cs : List Change) (id : String) (row : Change) (parent : MessageEvent)
    (reply root : Option String)
    → first (is_message id) cs ≡ some row
    → message_of row.payload ≡ some parent
    → parent.reply_to_event_id ≡ reply
    → Leads cs row.channel_id reply root
    → any (is_root_message (get_or root id) row.channel_id) cs ≡ true
root_of_parent cs id row parent none root found sent none_above lead =
    let hit = first-passes (is_message id) cs row found in
    rw lead
      (first-any (is_message id) (is_root_message id row.channel_id) cs row found (ground arith))
root_of_parent cs id row parent (some p) root found sent above (q, e, lead) = rw e lead

same_text-eq : (s t : Option String) → same_text s t ≡ true → s ≡ t
same_text-eq s t h = ground arith

Leads-intro :
    (cs : List Change) (column reply root : Option String) (p q : String)
    → reply ≡ some p
    → root ≡ some q
    → any (is_root_message q column) cs ≡ true
    → Leads cs column reply root
Leads-intro cs column reply root p q e f h = rw (e, f) (q, refl, h)

reply_to_parent-Leads :
    (db : Database) (input : CanonicalMessageCommitInput) (id : String) (row : Change)
    (parent : MessageEvent) (r r' : Repository) (meta : ReplyMetadata)
    → first (is_message id) db.changes ≡ some row
    → message_of row.payload ≡ some parent
    → Leads db.changes row.channel_id parent.reply_to_event_id parent.thread_root_event_id
    → reply_to_parent db input id row.channel_id parent r ≡ done meta r'
    → Leads db.changes input.channel_id meta.reply_to_event_id meta.thread_root_event_id
unfolding reply_to_parent reply_event_id
reply_to_parent-Leads db input id row parent r r' meta found sent lead e =
    let same : row.channel_id ≡ input.channel_id =
      same_text-eq row.channel_id input.channel_id (ground arith) in
    Leads-intro db.changes input.channel_id meta.reply_to_event_id meta.thread_root_event_id id
      (get_or parent.thread_root_event_id id) (ground arith) (ground arith)
      (rw (← same) (
        root_of_parent db.changes id row parent parent.reply_to_event_id parent.thread_root_event_id
          found sent refl lead))

reply_to-Leads :
    (db : Database) (input : CanonicalMessageCommitInput) (reply : Option String)
    (r r' : Repository) (meta : ReplyMetadata)
    → IsThreaded db.changes
    → reply_to db input reply r ≡ done meta r'
    → Leads db.changes input.channel_id meta.reply_to_event_id meta.thread_root_event_id
unfolding reply_to
reply_to-Leads db input none r r' meta w e =
    let no_root : meta.thread_root_event_id ≡ none = ground arith in
    let no_reply : meta.reply_to_event_id ≡ none = ground arith in rw no_reply no_root
reply_to-Leads db input (some id) r r' meta w e =
    elim (Option-cases (first (is_message id) db.changes)) [
      | inl missing ↦ absurd (ground arith)
      | inr (row, found) ↦ elim (Option-cases (message_of row.payload)) [
        | inl silent ↦ absurd (ground arith)
        | inr (parent, sent) ↦
            let placed =
              first-All (λ c. Threaded db.changes c.channel_id (message_of c.payload))
                (is_message id) db.changes row found w in
            reply_to_parent-Leads db input id row parent r r' meta found sent (rw sent at placed).1
              (ground arith)
      ]
    ]

-- What is resolved before the parent is looked up only reads.
pub resolve_reply_metadata-reply_to :
    (input : CanonicalMessageCommitInput) (r r' : Repository) (meta : ReplyMetadata)
    → resolve_reply_metadata input r ≡ done meta r'
    → (reply : Option String) × (reply_to r.db input reply r ≡ done meta r')
unfolding resolve_reply_metadata
resolve_reply_metadata-reply_to input r r' meta e =
    let reads₁ = reply_event_id-Reads input.reply_to_event_id r in
    let reads₂ = reply_event_id-Reads (legacy_reply input.correlation) r in
    elim (Outcome-cases (reply_event_id input.reply_to_event_id r)) [
      | inr (code, told, bad) ↦ absurd (ground arith)
      | inl (canonical, r₁, good) ↦
          elim (Outcome-cases (reply_event_id (legacy_reply input.correlation) r)) [
            | inr (code, told, bad) ↦ absurd (ground arith)
            | inl (legacy, r₂, fine) ↦ (or_else canonical legacy, ground arith)
          ]
    ]

pub resolve_reply_metadata-Leads :
    (input : CanonicalMessageCommitInput) (r r' : Repository) (meta : ReplyMetadata)
    → IsThreaded r.changes
    → resolve_reply_metadata input r ≡ done meta r'
    → Leads r.changes input.channel_id meta.reply_to_event_id meta.thread_root_event_id
resolve_reply_metadata-Leads input r r' meta w e =
    let (reply, e') = resolve_reply_metadata-reply_to input r r' meta e in
    reply_to-Leads r.db input reply r r' meta w e'

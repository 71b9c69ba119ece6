-- ===== src/Store/Retrying.antt =====
-- A message that is sent again: the deduplication key of `commitMessage` of
-- roomsd/src/storage/repository.ts.
pub mod Resolution
use wardroom.Base.{
  ℕ, String, ◌≡◌, refl, subst, ◌⊎◌, append-nil, Bool, true, false, Option, none, some, List, [],
  ◌∷◌, ◌++◌, first, arith, Option-cases, Bool-cases, inl, inr,
}
use wardroom.Contracts.{
  CanonicalMessageCommitInput, MessageEvent, message_sent, Change, ErrorCode, constraint, Target,
  MutationReceipt, Field, absent, text, other,
}
use wardroom.Store.{
  Database, Repository, done, thrown, Outcome-cases, Times, append_change, known_channel,
}
use wardroom.Store.Replies.{
  message_of, is_message, reply_event_id, ReplyMetadata, reply_to_parent, reply_to,
  resolve_reply_metadata, or_else, legacy_reply,
}
use wardroom.Store.Messages.{
  MessageReceipt, new_event, key_of, is_prior, commit_message, bad_recipient, repeat_of,
}
use wardroom.Store.Reading.{reply_event_id-Reads, resolve_reply_metadata-Reads}
use wardroom.Store.Threading.Replying.{first-passes, resolve_reply_metadata-reply_to}
use wardroom.Store.Threading.Sending.{stored}
use wardroom.Store.Retrying.Resolution.{
  Later, first-append, first-append_none, reply_event_id-anywhere, reply_to_parent-Later,
  reply_to-Later, resolve_reply_metadata-Later,
}

-- A deduplication key outlives the reply metadata.
reply_to-key :
    (db : Database) (input : CanonicalMessageCommitInput) (reply : Option String)
    (r r₁ : Repository) (meta : ReplyMetadata) (key : String)
    → key_of input.correlation ≡ some key
    → reply_to db input reply r ≡ done meta r₁
    → key_of meta.correlation ≡ some key
unfolding reply_to reply_to_parent reply_event_id
reply_to-key db input none r r₁ meta key k e =
    let same : meta.correlation ≡ input.correlation = ground arith in rw (same, k) refl
reply_to-key db input (some id) r r₁ meta key k e = elim (Option-cases input.correlation) [
  | inl bare ↦ absurd (ground arith)
  | inr (c, given) ↦ ground arith
]

-- The message that a key was sent with is found again by the key.
is_prior-stored :
    (e : MessageEvent) (key : String) (c : Change)
    → c.payload ≡ message_sent e
    → key_of e.correlation ≡ some key
    → is_prior (some key) c ≡ true
is_prior-stored e key c p k = ground arith

commit_message-found :
    (input : CanonicalMessageCommitInput) (id key : String) (t : Times) (r : Repository)
    (meta : ReplyMetadata) (c : Change) (e : MessageEvent)
    → bad_recipient r.db input.target ≡ false
    → resolve_reply_metadata input r ≡ done meta r
    → key_of meta.correlation ≡ some key
    → first (is_prior (some key)) r.changes ≡ some c
    → message_of c.payload ≡ some e
    → commit_message input id t r ≡ done (repeat_of c e) r
unfolding commit_message
commit_message-found input id key t r meta c e h₁ h₂ h₃ h₄ h₅ = ground arith

bad_recipient-Later :
    (r r' : Repository) (target : Option Target)
    → r'.db.sessions ≡ r.db.sessions
    → bad_recipient r.db target ≡ false
    → bad_recipient r'.db target ≡ false
bad_recipient-Later r r' target same h = ground arith

-- The change that is stored is the last one.
append_change-Later :
    (e : MessageEvent) (channel : Option String) (noted : ℕ) (r : Repository)
    → ((receipt : MutationReceipt) × (r' : Repository) × (append_change
            (message_sent e)
            channel
            noted
            r
          ≡ done receipt r')
        × Later r r' (stored r e channel noted ∷ [])
        × (receipt.cursor ≡ (stored r e channel noted).cursor))
      ⊎ ((code : ErrorCode) × (told : List Change) × (append_change (message_sent e) channel noted r
            ≡ thrown code told))
unfolding append_change
append_change-Later e channel noted r = elim (Bool-cases (known_channel r.db channel)) [
  | inr unknown ↦ inr (constraint, r.told, ground arith)
  | inl known ↦
      let c = stored r e channel noted in
      inl (
        record { cursor = c.cursor; did_append = true; changes = c ∷ [] },
        record { db = record r.db { changes = r.changes ++ c ∷ [] }; told = r.told ++ c ∷ [] },
        ground arith,
        (refl, refl, refl),
        refl,
      )
]

-- What was resolved, when the message is new and when it is not.
commit_message-cases :
    (input : CanonicalMessageCommitInput) (id key : String) (t : Times) (r r' : Repository)
    (result : MessageReceipt)
    → key_of input.correlation ≡ some key
    → commit_message input id t r ≡ done result r'
    → (meta : ReplyMetadata) × (more : List Change) × (c : Change) × (bad_recipient r.db
          input.target
        ≡ false)
      × (resolve_reply_metadata input r ≡ done meta r)
      × (key_of meta.correlation ≡ some key)
      × Later r r' more
      × (first (is_prior (some key)) r'.changes ≡ some c)
      × (message_of c.payload ≡ some result.event)
      × (c.cursor ≡ result.receipt.cursor)
unfolding commit_message
commit_message-cases input id key t r r' result k e =
    elim (Outcome-cases (resolve_reply_metadata input r)) [
      | inr (code, told, bad) ↦ absurd (ground arith)
      | inl (meta, r₁, good) ↦
          let same : r₁ ≡ r = ground (arith, resolve_reply_metadata-Reads input r) in
          let (reply, found) = resolve_reply_metadata-reply_to input r r₁ meta good in
          let kept = reply_to-key r.db input reply r r₁ meta key k found in
          let welcome : bad_recipient r.db input.target ≡ false = ground arith in
          elim (Option-cases (first (is_prior (some key)) r.changes)) [
            | inl missing ↦
                let c = stored r (new_event input meta id t.at) input.channel_id t.noted in
                let fresh = is_prior-stored (new_event input meta id t.at) key c refl kept in
                elim (append_change-Later (new_event input meta id t.at) input.channel_id t.noted
                  r) [
                    | inr (code, told, bad) ↦ absurd (ground arith)
                    | inl (receipt, r₂, fine, grown, at) ↦
                        let now : r₂ ≡ r' = ground arith in
                        let event : result.event ≡ new_event input meta id t.at = ground arith in
                        let receipts : result.receipt ≡ receipt = ground arith in
                        let found : first (is_prior (some key)) r₂.changes ≡ some c =
                          rw
                            (
                              grown.2,
                              first-append_none (is_prior (some key)) r.changes (c ∷ []) missing,
                            )
                            (ground arith) in
                        (
                          meta,
                          c ∷ [],
                          c,
                          welcome,
                          ground arith,
                          kept,
                          subst (λ q. Later r q (c ∷ [])) now grown,
                          rw (← now) found,
                          ground arith,
                          ground arith,
                        )
                  ]
            | inr (c, prior) ↦ elim (Option-cases (message_of c.payload)) [
              | inl silent ↦
                  let hit = first-passes (is_prior (some key)) r.changes c prior in
                  absurd (ground arith)
              | inr (ev, sent) ↦ (
                meta,
                [],
                c,
                welcome,
                ground arith,
                kept,
                ground (arith, append-nil r.changes),
                ground arith,
                ground arith,
                ground arith,
              )
            ]
          ]
    ]

--When a message with a deduplication key was accepted, the same message sent again (with whatever
-- fresh id and clock) is answered with the first event and cursor, as a repeat, and neither the
-- tables nor the listeners change.
pub commit_message-again :
    (input : CanonicalMessageCommitInput) (id id' key : String) (t t' : Times) (r r' : Repository)
    (result : MessageReceipt)
    → key_of input.correlation ≡ some key
    → commit_message input id t r ≡ done result r'
    → commit_message input id' t' r'
      ≡ done
          (record {
            receipt = record { cursor = result.receipt.cursor; did_append = false; changes = [] };
            event = result.event;
            was_deduplicated = true;
          })
          r'
unfolding commit_message
commit_message-again input id id' key t t' r r' result k e =
    let (meta, more, c, welcome, good, kept, later, found, sent, at) =
      commit_message-cases input id key t r r' result k e in
    rw (← at) (
      commit_message-found input id' key t' r' meta c result.event
        (bad_recipient-Later r r' input.target later.0 welcome)
        (resolve_reply_metadata-Later input r r r' more meta later good) kept found sent)

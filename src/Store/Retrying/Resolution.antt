-- ===== src/Store/Retrying/Resolution.antt =====
-- Reply metadata that a later repository resolves to the same: `resolveReplyMetadata` of
-- roomsd/src/storage/repository.ts.
use wardroom.Base.{
  String, ◌≡◌, refl, Bool, Option, none, some, List, [], ◌∷◌, ◌++◌, first, arith, Option-cases, inl,
  inr,
}
use wardroom.Contracts.{
  CanonicalMessageCommitInput, MessageEvent, Change, Field, absent, text, other,
}
use wardroom.Store.{Database, Repository, done, Outcome-cases}
use wardroom.Store.Replies.{
  message_of, is_message, reply_event_id, ReplyMetadata, reply_to_parent, reply_to,
  resolve_reply_metadata, or_else, legacy_reply,
}
use wardroom.Store.Reading.{reply_event_id-Reads}

-- A later repository with the same sessions and threads, and more changes.
abbrev pub Later : Repository → Repository → List Change → Type 0
Later r r' more =
    (r'.db.sessions ≡ r.db.sessions)
    × (r'.db.threads ≡ r.db.threads)
    × (r'.changes ≡ r.changes ++ more)

pub first-append :
    (p : Change → Bool) (xs ys : List Change) (c : Change)
    → first p xs ≡ some c
    → first p (xs ++ ys) ≡ some c
first-append p [] ys c e = cc
first-append p (x ∷ xs) ys c e = ground (arith, first-append p xs ys c)

pub first-append_none :
    (p : Change → Bool) (xs ys : List Change) → first p xs ≡ none → first p (xs ++ ys) ≡ first p ys
first-append_none p [] ys e = refl
first-append_none p (x ∷ xs) ys e = ground (arith, first-append_none p xs ys)

-- What a reply id is read as does not depend on the store.
pub reply_event_id-anywhere :
    (f : Field) (r r₁ s : Repository) (id : Option String)
    → reply_event_id f r ≡ done id r₁
    → reply_event_id f s ≡ done id s
unfolding reply_event_id
reply_event_id-anywhere absent r r₁ s id e = ground arith
reply_event_id-anywhere other r r₁ s id e = ground arith
reply_event_id-anywhere (text t) r r₁ s id e = ground arith

pub reply_to_parent-Later :
    (db db' : Database) (input : CanonicalMessageCommitInput) (id : String) (column : Option String)
    (parent : MessageEvent) (r r₁ s : Repository) (meta : ReplyMetadata)
    → db'.threads ≡ db.threads
    → reply_to_parent db input id column parent r ≡ done meta r₁
    → reply_to_parent db' input id column parent s ≡ done meta s
unfolding reply_to_parent reply_event_id
reply_to_parent-Later db db' input id column parent r r₁ s meta same e = ground arith

pub reply_to-Later :
    (input : CanonicalMessageCommitInput) (reply : Option String) (r r₁ q s s' : Repository)
    (more : List Change) (meta : ReplyMetadata)
    → Later r s more
    → reply_to r.db input reply q ≡ done meta r₁
    → reply_to s.db input reply s' ≡ done meta s'
unfolding reply_to
reply_to-Later input none r r₁ q s s' more meta later e = ground arith
reply_to-Later input (some id) r r₁ q s s' more meta later e =
    elim (Option-cases (first (is_message id) r.changes)) [
      | inl missing ↦ absurd (ground arith)
      | inr (row, found) ↦
          let again = first-append (is_message id) r.changes more row found in
          elim (Option-cases (message_of row.payload)) [
            | inl silent ↦ absurd (ground arith)
            | inr (parent, sent) ↦ ground (
              arith,
              again,
              reply_to_parent-Later r.db s.db input id row.channel_id parent q r₁ s' meta later.1,
            )
          ]
    ]

pub resolve_reply_metadata-Later :
    (input : CanonicalMessageCommitInput) (r r₁ s : Repository) (more : List Change)
    (meta : ReplyMetadata)
    → Later r s more
    → resolve_reply_metadata input r ≡ done meta r₁
    → resolve_reply_metadata input s ≡ done meta s
unfolding resolve_reply_metadata
resolve_reply_metadata-Later input r r₁ s more meta later e =
    let reads₁ = reply_event_id-Reads input.reply_to_event_id r in
    let reads₂ = reply_event_id-Reads (legacy_reply input.correlation) r in
    elim (Outcome-cases (reply_event_id input.reply_to_event_id r)) [
      | inr (code, told, bad) ↦ absurd (ground arith)
      | inl (canonical, r₂, good) ↦
          elim (Outcome-cases (reply_event_id (legacy_reply input.correlation) r)) [
            | inr (code, told, bad) ↦ absurd (ground arith)
            | inl (legacy, r₃, fine) ↦ ground (
              arith,
              reply_event_id-anywhere input.reply_to_event_id r r₂ s canonical good,
              reply_event_id-anywhere (legacy_reply input.correlation) r r₃ s legacy fine,
              reply_to-Later input (or_else canonical legacy) r r₁ r s s more meta later,
            )
          ]
    ]

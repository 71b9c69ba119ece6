-- ===== src/Store/Resolving.antt =====
-- Resolved threads: no message is stored into one. `resolveReplyMetadata`, `commitMessage` and
-- `setThreadState` of roomsd/src/storage/repository.ts.
pub mod Rows
use wardroom.Base.{
  ℕ, suc, String, ◌≡◌, refl, Bool, true, false, Option, none, some, List, [], ◌∷◌, ◌++◌, arith, All,
  select, ◌===◌, update_where, first, any, append-nil, Option-cases, Bool-cases, inl, inr, ◌⊎◌,
  text_discrete,
}
use wardroom.Contracts.{
  CanonicalMessageCommitInput, MessageEvent, Payload, message_sent, Change, MutationReceipt,
  ThreadLifecycle, ThreadState, resolved, opened,
}
use wardroom.Store.{
  Database, Repository, Outcome, done, thrown, Outcome-cases, Times, append_change, latest_cursor,
}
use wardroom.Store.Replies.{
  message_of, is_message, thread_row, resolved_row, reply_to, reply_to_parent, reply_event_id,
  ReplyMetadata, resolve_reply_metadata, is_resolved,
}
use wardroom.Store.Messages.{new_event, commit_message}
use wardroom.Store.Threads.{
  ThreadReceipt, is_row, set_rows, resolve_row, reopen_thread_row, fresh_thread, set_thread_state,
  thread_lifecycle,
}
use wardroom.Store.Feed.{Advances, Sound, IsQuiet}
use wardroom.Store.Reading.{thread_lifecycle-Reads, resolve_reply_metadata-Reads}
use wardroom.Store.Threading.Replying.{resolve_reply_metadata-reply_to}

abbrev holds_root : String → Option String → Bool
holds_root root none = false
holds_root root (some s) = s === root

abbrev replies_in : String → Option MessageEvent → Bool
replies_in root none = false
replies_in root (some e) = holds_root root e.thread_root_event_id

-- A stored reply of the thread.
abbrev pub in_thread : String → Change → Bool
in_thread root c = replies_in root (message_of c.payload)

abbrev pub replies : String → Repository → List Change
replies root r = select (in_thread root) r.changes

abbrev pub is_resolved_thread : Database → String → Bool
is_resolved_thread db root = resolved_row (thread_row db root)

-- The thread is as it was: resolved, with the same replies.
abbrev pub Rests {ℓ} : {A : Type ℓ} → String → Repository → Outcome A → Type 0
Rests root r (done a r') =
    (is_resolved_thread r'.db root ≡ true) × (replies root r' ≡ replies root r)
Rests root r (thrown e told) = Unit

-- Resolving a row, or reopening another one, leaves a resolved row resolved.
update_where-resolve :
    (root other actor : String) (at : ℕ) (rows : List ThreadLifecycle)
    → resolved_row (first (is_row root) rows) ≡ true
    → resolved_row (first (is_row root) (update_where (is_row other) (resolve_row actor at) rows))
      ≡ true
update_where-resolve root other actor at [] h = h
update_where-resolve root other actor at (t ∷ rows) h =
    ground (arith, update_where-resolve root other actor at rows)

update_where-reopen :
    (root other actor : String) (at : ℕ) (rows : List ThreadLifecycle)
    → (other === root) ≡ false
    → resolved_row (first (is_row root) rows) ≡ true
    → resolved_row
        (first (is_row root) (update_where (is_row other) (reopen_thread_row actor at) rows))
      ≡ true
update_where-reopen root other actor at [] d h = h
update_where-reopen root other actor at (t ∷ rows) d h =
    ground (arith, update_where-reopen root other actor at rows)

-- Whether a request with this state would reopen the thread.
abbrev pub reopens_thread : ThreadState → String → String → Bool
reopens_thread resolved other root = false
reopens_thread opened other root = other === root

set_rows-resolved :
    (state : ThreadState) (root other channel actor : String) (at : ℕ) (rows : List ThreadLifecycle)
    → reopens_thread state other root ≡ false
    → resolved_row (first (is_row root) rows) ≡ true
    → resolved_row (first (is_row root) (set_rows state other channel actor at rows)) ≡ true
unfolding set_rows
set_rows-resolved resolved root other channel actor at rows d h =
    ground (arith, update_where-resolve root other actor at rows)
set_rows-resolved opened root other channel actor at rows d h =
    update_where-reopen root other actor at rows d h

select-IsQuiet :
    (root : String) (xs ys : List Change)
    → All IsQuiet ys
    → select (in_thread root) (xs ++ ys) ≡ select (in_thread root) xs
select-IsQuiet root (x ∷ xs) ys q = ground (arith, select-IsQuiet root xs ys q)
select-IsQuiet root [] [] q = refl
select-IsQuiet root [] (y ∷ ys) (q, qs) = ground (arith, select-IsQuiet root [] ys qs)

abbrev pub KeepsThreads {ℓ} : {A : Type ℓ} → Repository → Outcome A → Type 0
KeepsThreads r (done a r') = r'.threads ≡ r.threads
KeepsThreads r (thrown e told) = Unit

-- What appends no message and sets no thread leaves a resolved thread as it is.
pub Sound-Rests :
    (root : String) (r : Repository) (o : Outcome MutationReceipt)
    → Sound r o
    → KeepsThreads r o
    → is_resolved_thread r.db root ≡ true
    → Rests root r o
Sound-Rests root r (thrown e told) s k h = tt
Sound-Rests root r (done receipt r') s k h =
    (ground arith, rw s.0.feed (select-IsQuiet root r.changes receipt.changes s.1))

-- The root that a new reply gets is not resolved.
reply_to-unresolved :
    (db : Database) (input : CanonicalMessageCommitInput) (reply : Option String)
    (r r' : Repository) (meta : ReplyMetadata) (root : String)
    → reply_to db input reply r ≡ done meta r'
    → meta.thread_root_event_id ≡ some root
    → is_resolved_thread db root ≡ false
unfolding reply_to reply_to_parent reply_event_id
reply_to-unresolved db input none r r' meta root e h = absurd (ground arith)
reply_to-unresolved db input (some id) r r' meta root e h = ground arith

holds_root-some : (root : String) (o : Option String) → holds_root root o ≡ true → o ≡ some root
holds_root-some root none h = absurd (ground arith)
holds_root-some root (some s) h = ground arith

resolve_reply_metadata-unresolved :
    (input : CanonicalMessageCommitInput) (r r' : Repository) (meta : ReplyMetadata) (root : String)
    → resolve_reply_metadata input r ≡ done meta r'
    → is_resolved_thread r.db root ≡ true
    → holds_root root meta.thread_root_event_id ≡ false
resolve_reply_metadata-unresolved input r r' meta root e h =
    let (reply, e') = resolve_reply_metadata-reply_to input r r' meta e in
    elim (Bool-cases (holds_root root meta.thread_root_event_id)) [
      | inr away ↦ away
      | inl within ↦
          let unresolved =
            reply_to-unresolved r.db input reply r r' meta root e'
              (holds_root-some root meta.thread_root_event_id within) in
          absurd (ground arith)
    ]

select-last :
    (p : Change → Bool) (xs : List Change) (c : Change)
    → p c ≡ false
    → select p (xs ++ c ∷ []) ≡ select p xs
select-last p [] c h = ground arith
select-last p (x ∷ xs) c h = ground (arith, select-last p xs c)

append_change-Rests :
    (root : String) (base r : Repository) (payload : Payload) (channel : Option String) (noted : ℕ)
    → replies_in root (message_of payload) ≡ false
    → r.changes ≡ base.changes
    → is_resolved_thread r.db root ≡ true
    → Rests root base (append_change payload channel noted r)
unfolding append_change
append_change-Rests root base r payload channel noted q same h = ground (
  arith,
  select-last (in_thread root) r.changes
      (record {
        cursor = suc (latest_cursor r.changes);
        payload = payload;
        channel_id = channel;
        occurred_at = noted;
      })
      q,
)

pub commit_message-Rests :
    (root : String) (input : CanonicalMessageCommitInput) (id : String) (t : Times) (r : Repository)
    → is_resolved_thread r.db root ≡ true
    → Rests root r (commit_message input id t r)
unfolding commit_message
commit_message-Rests root input id t r h = elim (Outcome-cases (resolve_reply_metadata input r)) [
  | inr (code, told, bad) ↦ ground arith
  | inl (meta, r₁, good) ↦
      let away = resolve_reply_metadata-unresolved input r r₁ meta root good h in
      let same : r₁ ≡ r = ground (arith, resolve_reply_metadata-Reads input r) in
      ground (
        arith,
        append_change-Rests root r r (message_sent (new_event input meta id t.at)) input.channel_id
            t.noted away refl h,
      )
]

pub set_thread_state-Rests :
    (root other actor : String) (state : ThreadState) (channel : Option String) (t : Times)
    (r : Repository)
    → reopens_thread state other root ≡ false
    → is_resolved_thread r.db root ≡ true
    → Rests root r (set_thread_state other actor state channel t r)
unfolding set_thread_state
set_thread_state-Rests root other actor state channel t r d h =
    let reads = thread_lifecycle-Reads other channel r in
    elim (Outcome-cases (thread_lifecycle other channel r)) [
      | inr (code, told, bad) ↦ ground arith
      | inl (current, r₁, good) ↦
          let rows = set_rows state other current.channel_id actor t.at r.threads in
          let stays =
            set_rows-resolved state root other current.channel_id actor t.at r.threads d h in
          let changed : Repository = record r { db = record r.db { threads = rows } } in
          let reads_again = thread_lifecycle-Reads other (some current.channel_id) changed in
          grind (arith, append_change-Rests root r)
    ]

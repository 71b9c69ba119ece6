-- ===== src/Store/Reading.antt =====
-- The operations that only read: whatever they answer, the tables and the listeners are as before.
use wardroom.Base.{ℕ, String, ◌≡◌, refl, Option, List, arith, append-nil, sym, All, subst}
use wardroom.Contracts.{
  Payload, Membership, Field, absent, text, other, CanonicalMessageCommitInput, ThreadState,
}
use wardroom.Store.{Database, Repository, Outcome, done, thrown, Times, append_change}
use wardroom.Store.Replies.{reply_event_id, resolve_reply_metadata}
use wardroom.Store.Messages.{MessageReceipt, commit_message}
use wardroom.Store.Threads.{ThreadReceipt, message_by_id, thread_lifecycle, set_thread_state}
use wardroom.Store.Feed.{Advances, IsQuiet, append_change-Sound, append_change-Appends}
use wardroom.Store.Wf.{IsWellFormed, Placed, Placed-mono, Single}

abbrev pub Reads {ℓ} : {A : Type ℓ} → Repository → Outcome A → Type 0
Reads r (done a r') = r' ≡ r
Reads r (thrown e told) = told ≡ r.told

pub reply_event_id-Reads : (f : Field) (r : Repository) → Reads r (reply_event_id f r)
unfolding reply_event_id
reply_event_id-Reads absent r = refl
reply_event_id-Reads other r = refl
reply_event_id-Reads (text s) r = ground arith

pub resolve_reply_metadata-Reads :
    (input : CanonicalMessageCommitInput) (r : Repository)
    → Reads r (resolve_reply_metadata input r)
unfolding resolve_reply_metadata
resolve_reply_metadata-Reads input r = grind (arith, reply_event_id-Reads)

pub message_by_id-Reads :
    (id : String) (channel : Option String) (r : Repository) → Reads r (message_by_id id channel r)
unfolding message_by_id
message_by_id-Reads id channel r = ground arith

pub thread_lifecycle-Reads :
    (root : String) (channel : Option String) (r : Repository)
    → Reads r (thread_lifecycle root channel r)
unfolding thread_lifecycle
thread_lifecycle-Reads root channel r = grind (arith, reply_event_id-Reads, message_by_id-Reads)

-- The receipt alone, of the operations that return more.
abbrev pub Sends : Repository → Outcome MessageReceipt → Type 0
Sends r (done result r') = Advances r result.receipt r'
Sends r (thrown e told) = told ≡ r.told

pub commit_message-Sends :
    (input : CanonicalMessageCommitInput) (id : String) (t : Times) (r : Repository)
    → Sends r (commit_message input id t r)
unfolding commit_message
commit_message-Sends input id t r =
    grind (arith, resolve_reply_metadata-Reads, append_change-Appends r, append-nil)

abbrev pub Changes : Repository → Outcome ThreadReceipt → Type 0
Changes r (done result r') = Advances r result.receipt r' × All IsQuiet result.receipt.changes
Changes r (thrown e told) = told ≡ r.told

pub set_thread_state-Changes :
    (root actor : String) (state : ThreadState) (channel : Option String) (t : Times)
    (r : Repository)
    → Changes r (set_thread_state root actor state channel t r)
unfolding set_thread_state
set_thread_state-Changes root actor state channel t r =
    grind (arith, thread_lifecycle-Reads, append_change-Sound r, append-nil)

-- The rows that well-formedness is about are as before.
abbrev pub SameRows : Database → Database → Type 0
SameRows db db' =
    (db'.sessions ≡ db.sessions) × (db'.channels ≡ db.channels) × (db'.memberships ≡ db.memberships)

abbrev pub KeepsRows {ℓ} : {A : Type ℓ} → Repository → Outcome A → Type 0
KeepsRows r (done a r') = SameRows r.db r'.db
KeepsRows r (thrown e told) = Unit

append_change-KeepsRows :
    (base r : Repository) (payload : Payload) (channel : Option String) (noted : ℕ)
    → SameRows base.db r.db
    → KeepsRows base (append_change payload channel noted r)
unfolding append_change
append_change-KeepsRows base r payload channel noted h = ground arith

pub commit_message-KeepsRows :
    (input : CanonicalMessageCommitInput) (id : String) (t : Times) (r : Repository)
    → KeepsRows r (commit_message input id t r)
unfolding commit_message
commit_message-KeepsRows input id t r =
    grind (arith, resolve_reply_metadata-Reads, append_change-KeepsRows r)

pub set_thread_state-KeepsRows :
    (root actor : String) (state : ThreadState) (channel : Option String) (t : Times)
    (r : Repository)
    → KeepsRows r (set_thread_state root actor state channel t r)
unfolding set_thread_state
set_thread_state-KeepsRows root actor state channel t r =
    grind (arith, thread_lifecycle-Reads, append_change-KeepsRows r)

Placed-SameRows :
    (db db' : Database)
    → SameRows db db'
    → (ms : List Membership) → All (Placed db) ms
    → All (Placed db') ms
Placed-SameRows db db' (s, c, _) = Placed-mono db db' (λ id l. ground arith) (λ id o. ground arith)

pub IsWellFormed-SameRows :
    (db db' : Database) → SameRows db db' → IsWellFormed db → IsWellFormed db'
IsWellFormed-SameRows db db' same w = record {
  placed =
      subst (All (Placed db')) (sym same.2) (Placed-SameRows db db' same db.memberships w.placed);
  single = subst Single (sym same.2) w.single;
}

-- ===== src/Store/Threading/Sending.antt =====
-- `commitMessage` of roomsd/src/storage/repository.ts and the threads that it stores messages in.
use wardroom.Base.{ℕ, suc, String, ◌≡◌, refl, Option, [], ◌∷◌, arith, Bool-cases, inl, inr}
use wardroom.Contracts.{CanonicalMessageCommitInput, MessageEvent, message_sent, Change}
use wardroom.Store.{Repository, Outcome-cases, Times, append_change, known_channel, latest_cursor}
use wardroom.Store.Replies.{resolve_reply_metadata}
use wardroom.Store.Messages.{new_event, commit_message}
use wardroom.Store.Reading.{resolve_reply_metadata-Reads}
use wardroom.Store.Threading.{Leads, IsThreaded, Leads-append, IsThreaded-append, Threads}
use wardroom.Store.Threading.Replying.{resolve_reply_metadata-Leads}

abbrev pub stored : Repository → MessageEvent → Option String → ℕ → Change
stored r e channel noted = record {
  cursor = suc (latest_cursor r.changes);
  payload = message_sent e;
  channel_id = channel;
  occurred_at = noted;
}

append_change-Threads :
    (e : MessageEvent) (channel : Option String) (noted : ℕ) (r : Repository)
    → IsThreaded r.changes
    → e.channel_id ≡ channel
    → Leads r.changes channel e.reply_to_event_id e.thread_root_event_id
    → Threads (append_change (message_sent e) channel noted r)
unfolding append_change
append_change-Threads e channel noted r w same lead =
    let change = stored r e channel noted in
    elim (Bool-cases (known_channel r.db channel)) [
      | inr unknown ↦ rw unknown tt
      | inl known ↦ rw known (
          IsThreaded-append r.changes (change ∷ []) w (
            (
              same,
              Leads-append r.changes (change ∷ []) channel e.reply_to_event_id
                  e.thread_root_event_id lead,
            ),
            tt,
          ))
    ]

-- A message that is stored keeps the messages threaded.
pub commit_message-Threads :
    (input : CanonicalMessageCommitInput) (id : String) (t : Times) (r : Repository)
    → IsThreaded r.changes
    → Threads (commit_message input id t r)
unfolding commit_message
commit_message-Threads input id t r w = elim (Outcome-cases (resolve_reply_metadata input r)) [
  | inr (code, told, bad) ↦ ground arith
  | inl (meta, r₁, good) ↦
      let lead = resolve_reply_metadata-Leads input r r₁ meta w good in
      let same : r₁ ≡ r = ground (arith, resolve_reply_metadata-Reads input r) in
      grind (
        arith,
        append_change-Threads (new_event input meta id t.at) input.channel_id t.noted r w refl lead,
      )
]

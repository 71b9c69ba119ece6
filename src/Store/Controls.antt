-- ===== src/Store/Controls.antt =====
-- `commitControl` of RoomsRepository in roomsd/src/storage/repository.ts.
use wardroom.Base.{ℕ, String, Bool, true, false, ◌&&◌, none, some, List, ◌===◌, first}
use wardroom.Contracts.{Change, Payload, control_committed, MutationReceipt}
use wardroom.Store.{Outcome, M, ◌>>=◌, get, Times, append_change}

-- The `payload` of a control is opaque text.
pub record ControlInput : Type 0 where
  pub channel_id : String
  pub sender_session_id : String
  pub kind : String
  pub payload : String
  pub request_id : String

pub record ControlReceipt : Type 0 where
  pub receipt : MutationReceipt
  pub event : Payload
  pub was_deduplicated : Bool

abbrev pub in_channel : String → Change → Bool
in_channel id c = elim c.channel_id [ none ↦ false | some channel ↦ channel === id ]

abbrev pub same_request : ControlInput → Payload → Bool
same_request input (control_committed id channel sender kind payload request at) =
    sender === input.sender_session_id && request === input.request_id
same_request input _ = false

abbrev pub prior_control : ControlInput → Change → Bool
prior_control input c = in_channel input.channel_id c && same_request input c.payload

-- `{ id, ...input, occurredAt: now() }`
abbrev pub control_event : ControlInput → String → ℕ → Payload
control_event input id at =
    control_committed id input.channel_id input.sender_session_id input.kind input.payload
      input.request_id at

add_control : ControlInput → String → Times → M ControlReceipt
add_control input id t = do
  receipt ← append_change (control_event input id t.at) (some input.channel_id) t.noted
  λ r.
      Outcome.done
        (record {
          receipt = receipt;
          event = control_event input id t.at;
          was_deduplicated = false;
        })
        r

-- `id` is the new `control_<uuid>`.
unfoldable pub commit_control : ControlInput → String → Times → M ControlReceipt
unfolding add_control
commit_control input id t = do
  db ← get
  elim (first (prior_control input) db.changes) [
    | none ↦ add_control input id t
    | some prior ↦ λ r.
        Outcome.done
          (record {
            receipt = record { cursor = prior.cursor; did_append = false; changes = List.[] };
            event = prior.payload;
            was_deduplicated = true;
          })
          r
  ]

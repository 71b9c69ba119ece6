-- ===== src/Subscriptions.antt =====
-- One watcher of a channel: `Session` of roomsd/src/api/subscriptions/subscription.ts, from a
-- snapshot. Its source calls it with each batch of committed changes, its reader asks for the next
-- item. What the source answers at the start is an argument.
pub mod Feed
mod Tests
use wardroom.Base.{
  ℕ, String, Bool, true, false, ◌&&◌, ◌||◌, not, Option, none, some, List, [], ◌∷◌, ◌++◌,
  if◌then◌else◌, ltb, leb, ◌==◌, ◌===◌, any, select, length,
}
use wardroom.Contracts.{Change}

-- A snapshot is known by its cursor.
pub data SnapshotOrDelta : Type 0 where
  snapshot : (cursor : ℕ) → SnapshotOrDelta
  delta : (changes : List Change) (cursor : ℕ) → SnapshotOrDelta

pub record SubscriptionInput : Type 0 where
  pub channel_id : String
  pub after_cursor : Option ℕ
  pub filter : Option (Change → Bool)
  pub max_buffered : ℕ

-- `waiting` says that a reader waits for `next`.
pub record Session : Type 0 where
  pub queue : List SnapshotOrDelta
  pub is_closed : Bool
  pub delivered : Option ℕ
  pub acknowledged : Option ℕ
  pub waiting : Bool

-- What a reader's promise resolves to.
pub data Answer : Type 0 where
  value : SnapshotOrDelta → Answer
  ended : Answer

abbrev in_channel : String → Option String → Bool
in_channel id none = true
in_channel id (some column) = column === id

abbrev passes : Option (Change → Bool) → Change → Bool
passes none c = true
passes (some p) c = p c

abbrev pub is_visible : SubscriptionInput → Change → Bool
is_visible input c = in_channel input.channel_id c.channel_id && passes input.filter c

-- `after ?? "0"`
abbrev pub bound_of : Option ℕ → ℕ
bound_of none = 0
bound_of (some n) = n

abbrev or_delivered : Option ℕ → Option ℕ → Option ℕ
or_delivered none n = n
or_delivered (some m) n = some m

abbrev pub has_cursor : ℕ → Change → Bool
has_cursor n c = c.cursor == n

-- The changes behind a cursor, each cursor once; `earlier` are those in front.
unfoldable pub unique_after : ℕ → List Change → List Change → List Change
unique_after after earlier [] = []
unique_after after earlier (c ∷ cs) =
    let rest = unique_after after (c ∷ earlier) cs in
    if ltb after c.cursor && not (any (has_cursor c.cursor) earlier) then c ∷ rest else rest

insert_change : Change → List Change → List Change
insert_change c [] = c ∷ []
insert_change c (d ∷ ds) = if leb c.cursor d.cursor then c ∷ d ∷ ds else d ∷ insert_change c ds

unfoldable pub sort_changes : List Change → List Change
unfolding insert_change
sort_changes [] = []
sort_changes (c ∷ cs) = insert_change c (sort_changes cs)

abbrev pub last_cursor : ℕ → List Change → ℕ
last_cursor n [] = n
last_cursor n (c ∷ cs) = last_cursor c.cursor cs

unfoldable pub close : Session → Session × List Answer
close s = if s.is_closed then (s, []) else (
  record s { is_closed = true; queue = []; waiting = false },
  if s.waiting then ended ∷ [] else [],
)

abbrev pub deliver : Session → SnapshotOrDelta → List SnapshotOrDelta → Session
deliver s (snapshot n) rest = record s { queue = rest }
deliver s (delta cs n) rest = record s { queue = rest; delivered = some n }

unfoldable pub next : Session → Session × List Answer
next s = elim s.queue [
  | x ∷ rest ↦ (deliver s x rest, value x ∷ [])
  | [] ↦ if s.is_closed then (s, ended ∷ []) else (record s { waiting = true }, [])
]

-- What follows the sort: one more delta in the queue, for the reader that waits, or the close.
unfoldable pub push : SubscriptionInput → Session → List Change → Session × List Answer
push input s [] = (s, [])
push input s (c ∷ cs) =
    let fuller = record s { queue = s.queue ++ delta (c ∷ cs) (last_cursor c.cursor cs) ∷ [] } in
    if ltb input.max_buffered (length fuller.queue)
    then close fuller
    else if s.waiting
    then next (record fuller { waiting = false })
    else (fuller, [])

unfoldable pub enqueue_changes : SubscriptionInput → Session → List Change → Session × List Answer
enqueue_changes input s changes =
    let filtered = select (is_visible input) changes in
    let after = bound_of (or_delivered input.after_cursor s.delivered) in
    if s.is_closed then (s, []) else push input s (sort_changes (unique_after after [] filtered))

-- After `start` without a cursor, from a snapshot at a cursor.
abbrev pub started : ℕ → Session
started cursor = record {
  queue = snapshot cursor ∷ [];
  is_closed = false;
  delivered = some cursor;
  acknowledged = none;
  waiting = false;
}

pub data Event : Type 0 where
  commits : List Change → Event
  asks : Event

unfoldable pub handle : SubscriptionInput → Session → Event → Session × List Answer
handle input s (commits changes) = enqueue_changes input s changes
handle input s asks = next s

-- The session after the events, and the answers in order.
unfoldable pub play : SubscriptionInput → Session → List Event → Session × List Answer
unfolding handle
play input s [] = (s, [])
play input s (e ∷ es) =
    let (s', answers) = handle input s e in
    let (s'', more) = play input s' es in (s'', answers ++ more)

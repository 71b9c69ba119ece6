-- ===== src/Subscriptions/Tests.antt =====
-- A reader of three committed changes, one of which stands under another channel.
use wardroom.Base.{
  ℕ, String, ◌≡◌, refl, true, none, some, List, [], ◌∷◌, ◌++◌, ◌⊎◌, arith, text_discrete,
}
use wardroom.Contracts.{Change, Payload}
use wardroom.Subscriptions.{
  SubscriptionInput, started, Event, commits, asks, handle, play, enqueue_changes, push, next,
  close, unique_after, sort_changes,
}
use wardroom.Subscriptions.Feed.{received, queued, visible, play-received}

runs : Unit {0}
unfolding play handle enqueue_changes push next close unique_after sort_changes text_discrete
runs = tt

abbrev input : SubscriptionInput
input = record { channel_id = "demo"; after_cursor = none; filter = none; max_buffered = 128 }

abbrev closing : ℕ → String → Change
closing n id = record {
  cursor = n;
  payload = Payload.channel_closed id 10;
  channel_id = some id;
  occurred_at = 11;
}

abbrev events : List Event
events =
    asks
    ∷ asks
    ∷ commits (closing 5 "demo" ∷ [])
    ∷ commits (closing 6 "other" ∷ [])
    ∷ commits (closing 7 "demo" ∷ [])
    ∷ []

received_test : received (play input (started 4) events).1 ≡ closing 5 "demo" ∷ []
unfolding runs
received_test = refl

play-received_example :
    (rest : List Change) × (received (play input (started 4) events).1 ++ rest
      ≡ visible input events)
    × (((play input (started 4) events).0.is_closed ≡ true)
        ⊎ (rest ≡ queued (play input (started 4) events).0.queue))
play-received_example =
    play-received input 4 events refl
      ((omega arith, tt), ((omega arith, tt), ((omega arith, tt), tt)))

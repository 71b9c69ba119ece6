-- ===== src/Subscriptions/Feed.antt =====
-- No change is lost or repeated on the way from the source to the reader of
-- roomsd/src/api/subscriptions/subscription.ts.
pub mod Ascending
use wardroom.Base.{
  ℕ, suc, ◌≤◌, ◌<◌, ◌≡◌, refl, subst, ltb, Bool, true, false, none, List, [], ◌∷◌, ◌++◌, arith, All,
  All-append, select, length, Bool-cases, inl, inr, any, append-nil, append_assoc, sym, ◌⊎◌,
}
use wardroom.Contracts.{Change}
use wardroom.Store.Feed.{IsNumbered}
use wardroom.Subscriptions.{
  SnapshotOrDelta, snapshot, delta, SubscriptionInput, Session, Answer, value, ended, is_visible,
  bound_of, has_cursor, unique_after, sort_changes, last_cursor, push, close, next, enqueue_changes,
  started, Event, commits, asks, handle, play,
}
use wardroom.Subscriptions.Feed.Ascending.{
  IsAscending, IsAscending-weaken, select-IsAscending, IsNumbered-IsAscending, IsBelow,
  IsBelow-weaken, not_among, unique_after-IsAscending, sort_changes-IsAscending,
}

abbrev pub changes_of : SnapshotOrDelta → List Change
changes_of (snapshot n) = []
changes_of (delta cs n) = cs

abbrev pub queued : List SnapshotOrDelta → List Change
queued [] = []
queued (x ∷ xs) = changes_of x ++ queued xs

-- The changes that the reader got.
abbrev pub received : List Answer → List Change
received [] = []
received (value x ∷ ys) = changes_of x ++ received ys
received (ended ∷ ys) = received ys

abbrev cursor_of : SnapshotOrDelta → ℕ
cursor_of (snapshot n) = n
cursor_of (delta cs n) = n

-- The session has delivered and holds no cursor above `m`.
abbrev pub Reaches : ℕ → Session → Type 0
Reaches m s = (bound_of s.delivered ≤ m) × All (λ x. cursor_of x ≤ m) s.queue

-- From `s`, with the new changes, the reader got what it got; the rest is queued or the session is
-- closed.
abbrev Moves : Session → List Change → Session × List Answer → Type 0
Moves s new (s', answers) =
    (rest : List Change) × (received answers ++ rest ≡ queued s.queue ++ new)
    × (((s'.is_closed ≡ true) × (s'.queue ≡ []))
        ⊎ ((s'.is_closed ≡ false) × (rest ≡ queued s'.queue)))

queued-append :
    (xs : List SnapshotOrDelta) (cs : List Change) (n : ℕ)
    → queued (xs ++ delta cs n ∷ []) ≡ queued xs ++ cs
queued-append [] cs n = append-nil cs
queued-append (x ∷ xs) cs n =
    rw (queued-append xs cs n) (sym (append_assoc (changes_of x) (queued xs) cs))

queue-cases :
    (xs : List SnapshotOrDelta)
    → (xs ≡ []) ⊎ ((x : SnapshotOrDelta) × (ys : List SnapshotOrDelta) × (xs ≡ x ∷ ys))
queue-cases [] = inl refl
queue-cases (x ∷ xs) = inr (x, xs, refl)

next-Moves : (s : Session) → s.is_closed ≡ false → Moves s [] (next s)
unfolding next
next-Moves s still = elim (queue-cases s.queue) [
  | inl e ↦ ([], ground arith, inr (ground arith, ground arith))
  | inr (snapshot n, xs, e) ↦
      (queued xs, ground (arith, append-nil (queued xs)), inr (ground arith, ground arith))
  | inr (delta cs n, xs, e) ↦ (
    queued xs,
    ground (arith, append-nil cs, append-nil (cs ++ queued xs)),
    inr (ground arith, ground arith),
  )
]

push-Moves :
    (input : SubscriptionInput) (s : Session) (cs : List Change)
    → s.is_closed ≡ false
    → Moves s cs (push input s cs)
unfolding push close
push-Moves input s [] o =
    (queued s.queue, ground (arith, append-nil (queued s.queue)), inr (o, refl))
push-Moves input s (c ∷ cs) o =
    let x : SnapshotOrDelta = delta (c ∷ cs) (last_cursor c.cursor cs) in
    let fuller : Session = record s { queue = s.queue ++ x ∷ [] } in
    let all = queued-append s.queue (c ∷ cs) (last_cursor c.cursor cs) in
    elim (Bool-cases (ltb input.max_buffered (length fuller.queue))) [
      | inl full ↦ elim (Bool-cases s.waiting) [
        | inl w ↦ (queued s.queue ++ c ∷ cs, ground arith, inl (ground arith, ground arith))
        | inr b ↦ (queued s.queue ++ c ∷ cs, ground arith, inl (ground arith, ground arith))
      ]
      | inr fits ↦ elim (Bool-cases s.waiting) [
        | inr b ↦ (queued fuller.queue, ground arith, inr (ground arith, ground arith))
        | inl w ↦
            let (rest, e, out) = next-Moves (record fuller { waiting = false }) o in
            (rest, ground (arith, append-nil (queued fuller.queue)), ground arith)
      ]
    ]

enqueue_changes-Moves :
    (input : SubscriptionInput) (s : Session) (m : ℕ) (cs : List Change)
    → input.after_cursor ≡ none
    → s.is_closed ≡ false
    → Reaches m s
    → IsAscending m cs
    → Moves s (select (is_visible input) cs) (enqueue_changes input s cs)
unfolding enqueue_changes
enqueue_changes-Moves input s m cs h o (d, q) a =
    let seen = select (is_visible input) cs in
    let up = select-IsAscending (is_visible input) m cs a in
    let same = unique_after-IsAscending (bound_of s.delivered) m [] seen d tt up in
    let sorted = sort_changes-IsAscending m seen up in
    let pushed : enqueue_changes input s cs ≡ push input s seen = ground arith in
    subst (Moves s seen) (sym pushed) (push-Moves input s seen o)

next-Reaches : (m : ℕ) (s : Session) → Reaches m s → Reaches m (next s).0
unfolding next
next-Reaches m s (d, q) = elim (queue-cases s.queue) [
  | inl e ↦ elim (Bool-cases s.is_closed) [ inl c ↦ rw (e, c) (d, tt) | inr c ↦ rw (e, c) (d, tt) ]
  | inr (snapshot n, xs, e) ↦ rw e (d, (rw e at q).1)
  | inr (delta cs n, xs, e) ↦ rw e ((rw e at q).0, (rw e at q).1)
]

last_cursor-above : (m : ℕ) (cs : List Change) → IsAscending m cs → m ≤ last_cursor m cs
last_cursor-above m [] a = omega arith
last_cursor-above m (c ∷ cs) (l, a) = omega (arith, last_cursor-above c.cursor cs a)

last_cursor-select :
    (p : Change → Bool) (k m : ℕ) (cs : List Change)
    → k ≤ m
    → IsAscending m cs
    → last_cursor k (select p cs) ≤ last_cursor m cs
last_cursor-select p k m [] h a = h
last_cursor-select p k m (c ∷ cs) h (l, a) = elim (Bool-cases (p c)) [
  | inl hit ↦ rw hit (last_cursor-select p c.cursor c.cursor cs (omega arith) a)
  | inr miss ↦ rw miss (last_cursor-select p k c.cursor cs (omega arith) a)
]

Reaches-weaken_queue :
    (j k : ℕ) (xs : List SnapshotOrDelta)
    → j ≤ k
    → All (λ x. cursor_of x ≤ j) xs
    → All (λ x. cursor_of x ≤ k) xs
Reaches-weaken_queue j k [] h q = tt
Reaches-weaken_queue j k (x ∷ xs) h (l, q) = (omega arith, Reaches-weaken_queue j k xs h q)

push-Reaches :
    (input : SubscriptionInput) (m m' : ℕ) (s : Session) (cs : List Change)
    → m ≤ m'
    → last_cursor m cs ≤ m'
    → Reaches m s
    → Reaches m' (push input s cs).0
unfolding push close
push-Reaches input m m' s [] h l (d, q) = (omega arith, Reaches-weaken_queue m m' s.queue h q)
push-Reaches input m m' s (c ∷ cs) h l (d, q) =
    let x : SnapshotOrDelta = delta (c ∷ cs) (last_cursor c.cursor cs) in
    let fuller : Session = record s { queue = s.queue ++ x ∷ [] } in
    let whole =
      All-append (λ x. cursor_of x ≤ m') s.queue (x ∷ []) (Reaches-weaken_queue m m' s.queue h q)
        (l, tt) in
    let low : bound_of s.delivered ≤ m' = omega arith in
    let given = next-Reaches m' (record fuller { waiting = false }) (low, whole) in
    elim (Bool-cases (ltb input.max_buffered (length fuller.queue))) [
      | inl full ↦ elim (Bool-cases s.is_closed) [
        | inl c ↦ rw (full, c) (low, whole)
        | inr c ↦ rw (full, c) (low, tt)
      ]
      | inr fits ↦ elim (Bool-cases s.waiting) [
        | inl w ↦ rw (fits, w) given
        | inr b ↦ rw (fits, b) (low, whole)
      ]
    ]

-- Batches of changes whose cursors grow, from one batch to the next as well.
abbrev pub IsCommitted : ℕ → List Event → Type 0
IsCommitted m [] = Unit
IsCommitted m (asks ∷ es) = IsCommitted m es
IsCommitted m (commits cs ∷ es) = IsAscending m cs × IsCommitted (last_cursor m cs) es

-- The committed changes that the subscription asks for.
abbrev pub visible : SubscriptionInput → List Event → List Change
visible input [] = []
visible input (asks ∷ es) = visible input es
visible input (commits cs ∷ es) = select (is_visible input) cs ++ visible input es

abbrev IsOver : Session → Type 0
IsOver s = (s.is_closed ≡ true) × (s.queue ≡ [])

handle-IsOver :
    (input : SubscriptionInput) (s : Session) (e : Event)
    → IsOver s
    → ((handle input s e).0 ≡ s) × (received (handle input s e).1 ≡ [])
unfolding handle enqueue_changes next
handle-IsOver input s asks o = (ground arith, ground arith)
handle-IsOver input s (commits cs) o = (ground arith, ground arith)

received-append : (xs ys : List Answer) → received (xs ++ ys) ≡ received xs ++ received ys
received-append [] ys = refl
received-append (value x ∷ xs) ys =
    rw (received-append xs ys) (sym (append_assoc (changes_of x) (received xs) (received ys)))
received-append (ended ∷ xs) ys = received-append xs ys

play-IsOver :
    (input : SubscriptionInput) (s : Session) (es : List Event)
    → IsOver s
    → IsOver (play input s es).0 × (received (play input s es).1 ≡ [])
unfolding play
play-IsOver input s [] o = (o, refl)
play-IsOver input s (e ∷ es) o =
    let (same, quiet) = handle-IsOver input s e o in
    let s' = (handle input s e).0 in
    let answers = (handle input s e).1 in
    let (last, silent) = play-IsOver input s' es (subst IsOver (sym same) o) in
    (last, rw (received-append answers (play input s' es).1, quiet, silent) refl)

-- One event of a session that is open.
handle-Moves :
    (input : SubscriptionInput) (s : Session) (m : ℕ) (e : Event)
    → input.after_cursor ≡ none
    → s.is_closed ≡ false
    → Reaches m s
    → IsCommitted m (e ∷ [])
    → Moves s (visible input (e ∷ [])) (handle input s e)
unfolding handle
handle-Moves input s m asks h o r c = next-Moves s o
handle-Moves input s m (commits cs) h o r (a, c) =
    subst (λ new. Moves s new (enqueue_changes input s cs)) (sym (append-nil _))
      (enqueue_changes-Moves input s m cs h o r a)

abbrev reach_after : ℕ → Event → ℕ
reach_after m asks = m
reach_after m (commits cs) = last_cursor m cs

handle-Reaches :
    (input : SubscriptionInput) (s : Session) (m : ℕ) (e : Event) (es : List Event)
    → input.after_cursor ≡ none
    → s.is_closed ≡ false
    → Reaches m s
    → IsCommitted m (e ∷ es)
    → Reaches (reach_after m e) (handle input s e).0
unfolding handle enqueue_changes
handle-Reaches input s m asks es h o r c = next-Reaches m s r
handle-Reaches input s m (commits cs) es h o r (a, c) =
    let seen = select (is_visible input) cs in
    let up = select-IsAscending (is_visible input) m cs a in
    let same = unique_after-IsAscending (bound_of s.delivered) m [] seen r.0 tt up in
    let sorted = sort_changes-IsAscending m seen up in
    let pushed : enqueue_changes input s cs ≡ push input s seen = ground arith in
    subst (λ (q : Session × List Answer). Reaches (last_cursor m cs) q.0) (sym pushed)
      (push-Reaches input m (last_cursor m cs) s seen (last_cursor-above m cs a)
        (last_cursor-select (is_visible input) m m cs (omega arith) a) r)

tail-IsCommitted :
    (m : ℕ) (e : Event) (es : List Event)
    → IsCommitted m (e ∷ es)
    → IsCommitted m (e ∷ []) × IsCommitted (reach_after m e) es
tail-IsCommitted m asks es c = (tt, c)
tail-IsCommitted m (commits cs) es (a, c) = ((a, tt), c)

visible-cons :
    (input : SubscriptionInput) (e : Event) (es : List Event)
    → visible input (e ∷ es) ≡ visible input (e ∷ []) ++ visible input es
visible-cons input asks es = refl
visible-cons input (commits cs) es =
    sym (append_assoc (select (is_visible input) cs) [] (visible input es))

received_twice :
    (a b : List Answer) (rest rest' q new₁ new₂ : List Change)
    → received a ++ rest ≡ q ++ new₁
    → received b ++ rest' ≡ rest ++ new₂
    → received (a ++ b) ++ rest' ≡ q ++ (new₁ ++ new₂)
received_twice a b rest rest' q new₁ new₂ e f = ground (
  arith,
  received-append a b,
  append_assoc (received a) (received b) rest',
  append_assoc (received a) rest new₂,
  append_assoc q new₁ new₂,
)

play-Moves :
    (input : SubscriptionInput) (s : Session) (m : ℕ) (es : List Event)
    → input.after_cursor ≡ none
    → s.is_closed ≡ false
    → Reaches m s
    → IsCommitted m es
    → Moves s (visible input es) (play input s es)
unfolding play
play-Moves input s m [] h o r c = (queued s.queue, sym (append-nil _), inr (o, refl))
play-Moves input s m (e ∷ es) h o r c =
    let (now, later) = tail-IsCommitted m e es c in
    let s' = (handle input s e).0 in
    let answers = (handle input s e).1 in
    let more = (play input s' es).1 in
    let (rest, moved, out) = handle-Moves input s m e h o r now in
    let new = visible input (e ∷ []) in
    elim out [
      | inl over ↦
          let (last, silent) = play-IsOver input s' es over in
          (
            rest ++ visible input es,
            rw (visible-cons input e es) (
                received_twice answers more rest (rest ++ visible input es) (queued s.queue) new
                  (visible input es) moved (rw silent refl)),
            inl last,
          )
      | inr (still, kept) ↦
          let (rest', moved', out') =
            play-Moves input s' (reach_after m e) es h still (handle-Reaches input s m e es h o r c)
              later in
          (
            rest',
            rw (visible-cons input e es) (
                received_twice answers more rest rest' (queued s.queue) new (visible input es) moved
                  (rw kept moved')),
            out',
          )
    ]

--A subscription that starts from a snapshot and then hears batches of changes with growing
-- cursors beyond the snapshot's gives its reader the visible changes in order, none lost or
-- repeated; while it is not closed, those that the reader has not got yet are in its queue.
pub play-received :
    (input : SubscriptionInput) (cursor : ℕ) (es : List Event)
    → input.after_cursor ≡ none
    → IsCommitted cursor es
    → (rest : List Change) × (received (play input (started cursor) es).1 ++ rest
        ≡ visible input es)
      × (((play input (started cursor) es).0.is_closed ≡ true)
          ⊎ (rest ≡ queued (play input (started cursor) es).0.queue))
play-received input cursor es h c =
    let reached : Reaches cursor (started cursor) = (omega arith, (omega arith, tt)) in
    let (rest, moved, out) = play-Moves input (started cursor) cursor es h refl reached c in
    (rest, moved, elim out [ inl over ↦ inl over.0 | inr (still, kept) ↦ inr kept ])

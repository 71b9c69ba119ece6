-- ===== src/Store/Wf/Channels.antt =====
-- The channel operations keep the tables well formed.
use wardroom.Base.{
  ℕ, String, ◌≡◌, refl, Option, some, List, [], ◌∷◌, ◌===◌, first, update_where, arith, Bool-cases,
  Option-cases, inl, inr,
}
use wardroom.Contracts.{Channel, Payload}
use wardroom.Store.{Database, Repository, Times, active_in, append_change, current_channel}
use wardroom.Store.Sessions.{is_open, end_membership}
use wardroom.Store.Channels.{
  new_channel, insert_channel, known_owner, close_channel, close_row, is_closed, set_channel,
  update_channel_label, same_label, update_channel_broadcast_policy,
  update_channel_coordination_policy,
}
use wardroom.Store.Counts.{All-update_where}
use wardroom.Store.Wf.{Placed, Keeps, IsWellFormed, append_change-Keeps, Single-mono, Placed-mono}

-- An update of the row `x` that keeps the id leaves the others open, and `x` too if it keeps the
-- life cycle.
open_update :
    (x y : String) (f : Channel → Channel) (cs : List Channel)
    → ((c : Channel) → (f c).id ≡ c.id)
    → ((c : Channel) → x ≡ y → (f c).lifecycle_state ≡ c.lifecycle_state)
    → is_open
        (first (λ (c : Channel). c.id === y) (update_where (λ (c : Channel). c.id === x) f cs))
      ≡ is_open (first (λ (c : Channel). c.id === y) cs)
open_update x y f [] h k = refl
open_update x y f (c ∷ cs) h k = ground (arith, h c, k c, open_update x y f cs h k)

pub set_channel-IsWellFormed :
    (db : Database) (id : String) (f : Channel → Channel)
    → ((c : Channel) → (f c).id ≡ c.id)
    → ((c : Channel) → (f c).lifecycle_state ≡ c.lifecycle_state)
    → IsWellFormed db
    → IsWellFormed (set_channel db id f)
set_channel-IsWellFormed db id f h k w = record {
  placed =
      Placed-mono db (set_channel db id f) (λ x l. l)
        (λ x o. ground (arith, open_update id x f db.channels h (λ c _. k c))) db.memberships
        w.placed;
  single = w.single;
}

pub insert_channel-Keeps :
    (id : String) (owner : Option String) (t : Times) (r : Repository)
    → IsWellFormed r.db
    → Keeps (insert_channel id owner t r)
unfolding insert_channel
insert_channel-Keeps id owner t r w = elim (Option-cases (current_channel r.db id)) [
  | inr (c, e) ↦ rw (e, insert_channel) tt
  | inl e ↦ elim (Bool-cases (known_owner r.db owner)) [
    | inr u ↦ rw (e, u, insert_channel) tt
    | inl u ↦
        let db : Database = record r.db { channels = new_channel id owner t.at ∷ r.channels } in
        rw (e, u, insert_channel)
          (append_change-Keeps db r _ (some id) t.noted (record {
            placed = Placed-mono r.db db (λ x l. l) (λ x o. ground arith) r.memberships w.placed;
            single = w.single;
          }))
  ]
]

abbrev closed_in : String → ℕ → Database → Database
closed_in id at db = record (set_channel db id (close_row at)) {
  memberships = update_where (active_in id) (end_membership at) db.memberships;
}

closed_in-IsWellFormed :
    (id : String) (at : ℕ) (db : Database) → IsWellFormed db → IsWellFormed (closed_in id at db)
closed_in-IsWellFormed id at db w = record {
  placed =
      All-update_where (Placed db) (Placed (closed_in id at db)) (active_in id) (end_membership at)
        (λ m p a. ground (
          arith,
          open_update id m.channel_id (close_row at) db.channels (λ c. refl)
              (λ c (e : id ≡ m.channel_id). absurd (ground arith)),
        ))
        db.memberships w.placed;
  single =
      Single-mono (active_in id) (end_membership at) (λ c s m. ground arith)
        (λ c role m. ground arith) db.memberships w.single;
}

pub close_channel-Keeps :
    (id : String) (t : Times) (r : Repository) → IsWellFormed r.db → Keeps (close_channel id t r)
unfolding close_channel
close_channel-Keeps id t r w = elim (Option-cases (current_channel r.db id)) [
  | inl e ↦ rw (e, close_channel) tt
  | inr (c, e) ↦ elim (Bool-cases (is_closed c.lifecycle_state)) [
    | inl k ↦ rw (e, k, close_channel) w
    | inr k ↦
        rw (e, k, close_channel)
          (append_change-Keeps (closed_in id t.at r.db) r _ (some id) t.noted
            (closed_in-IsWellFormed id t.at r.db w))
  ]
]

-- The shape of the operations that read a column of a channel and set it where it differs.
module _ (id : String) (t : Times) (r : Repository) (w : IsWellFormed r.db) (f : Channel → Channel)
    (payload : Payload) (h : (c : Channel) → (f c).id ≡ c.id)
    (k : (c : Channel) → (f c).lifecycle_state ≡ c.lifecycle_state) where
  set-Keeps :
      Keeps (append_change payload (some id) t.noted (record r { db = set_channel r.db id f }))
  set-Keeps =
      append_change-Keeps (set_channel r.db id f) r payload (some id) t.noted
        (set_channel-IsWellFormed r.db id f h k w)

pub update_channel_label-Keeps :
    (id : String) (label : Option String) (t : Times) (r : Repository)
    → IsWellFormed r.db
    → Keeps (update_channel_label id label t r)
unfolding update_channel_label
update_channel_label-Keeps id label t r w = elim (Option-cases (current_channel r.db id)) [
  | inl e ↦ rw (e, update_channel_label) tt
  | inr (c, e) ↦ elim (Bool-cases (same_label c.label label)) [
    | inl k ↦ rw (e, k, update_channel_label) w
    | inr k ↦
        rw (e, k, update_channel_label)
          (set-Keeps id t r w (λ c. record c { label = label }) _ (λ c. refl) (λ c. refl))
  ]
]

pub update_channel_broadcast_policy-Keeps :
    (id policy : String) (t : Times) (r : Repository)
    → IsWellFormed r.db
    → Keeps (update_channel_broadcast_policy id policy t r)
unfolding update_channel_broadcast_policy
update_channel_broadcast_policy-Keeps id policy t r w =
    elim (Option-cases (current_channel r.db id)) [
      | inl e ↦ rw (e, update_channel_broadcast_policy) tt
      | inr (c, e) ↦ elim (Bool-cases (c.broadcast_policy === policy)) [
        | inl k ↦ rw (e, k, update_channel_broadcast_policy) w
        | inr k ↦
            rw (e, k, update_channel_broadcast_policy)
              (set-Keeps id t r w (λ c. record c { broadcast_policy = policy }) _ (λ c. refl)
                (λ c. refl))
      ]
    ]

pub update_channel_coordination_policy-Keeps :
    (id policy : String) (t : Times) (r : Repository)
    → IsWellFormed r.db
    → Keeps (update_channel_coordination_policy id policy t r)
unfolding update_channel_coordination_policy
update_channel_coordination_policy-Keeps id policy t r w =
    elim (Option-cases (current_channel r.db id)) [
      | inl e ↦ rw (e, update_channel_coordination_policy) tt
      | inr (c, e) ↦ elim (Bool-cases (c.coordination_policy === policy)) [
        | inl k ↦ rw (e, k, update_channel_coordination_policy) w
        | inr k ↦
            rw (e, k, update_channel_coordination_policy)
              (set-Keeps id t r w (λ c. record c { coordination_policy = policy }) _ (λ c. refl)
                (λ c. refl))
      ]
    ]

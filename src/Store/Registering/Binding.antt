-- ===== src/Store/Registering/Binding.antt =====
-- What a session that exists stays bound to when it is registered again.
use wardroom.Base.{
  String, ◌≡◌, refl, true, Option, none, some, List, [], ◌∷◌, ◌⊎◌, inl, inr, arith, subst, sym, ◌∙◌,
  first, update_where, Option-cases, Bool-cases,
}
use wardroom.Contracts.{Session, SessionDeliveryMode}
use wardroom.Store.{
  Repository, done, Outcome-cases, Times, current_session, is_active_member, append_change,
}
use wardroom.Store.Memberships.{insert_membership}
use wardroom.Store.Registering.{
  trimmed, filled, is_session, set_external_id, set_mode, set_owner, same_mode, bind_external_id,
  change_delivery, bind_owner, settle_session, ensure_member, Registration, Registered,
  register_session_in,
}

-- What was bound is bound to the same.
abbrev pub Kept : Option String → Option String → Type 0
Kept old new = (filled old ≡ none) ⊎ (new ≡ old)

module _ (id : String) (f : Session → Session) where
  first-update :
      (rows : List Session) (s : Session)
      → ((x : Session) → (f x).id ≡ x.id)
      → first (is_session id) rows ≡ some s
      → first (is_session id) (update_where (is_session id) f rows) ≡ some (f s)
  first-update [] s k e = cc
  first-update (x ∷ rows) s k e = let same = k x in ground (arith, first-update rows s k)

-- The caller that asks is the one that the session is bound to, where both are given.
abbrev pub Agrees : Option String → Option String → Type 0
Agrees bound asked = (filled bound ≡ none) ⊎ (filled asked ≡ none) ⊎ (filled asked ≡ filled bound)

bind_external_id-Agrees :
    (id : String) (s : Session) (asked : Option String) (r r' : Repository)
    → bind_external_id id s (filled asked) r ≡ done tt r'
    → Agrees s.external_id asked
unfolding bind_external_id
bind_external_id-Agrees id s asked r r' e = elim (Option-cases (filled asked)) [
  | inl silent ↦ inr (inl silent)
  | inr (given, heard) ↦ elim (Option-cases (filled s.external_id)) [
    | inl free ↦ inl free
    | inr (bound, taken) ↦ inr (inr (ground arith))
  ]
]

bind_external_id-row :
    (id : String) (s s₀ : Session) (given : Option String) (r r' : Repository)
    → current_session r.db id ≡ some s
    → s.external_id ≡ s₀.external_id
    → bind_external_id id s₀ given r ≡ done tt r'
    → (s' : Session) × (current_session r'.db id ≡ some s')
      × Kept s₀.external_id s'.external_id
      × (s'.external_owner ≡ s.external_owner)
      × (s'.role ≡ s.role)
unfolding bind_external_id
bind_external_id-row id s s₀ none r r' row same e = (s, ground arith, inr same, refl, refl)
bind_external_id-row id s s₀ (some given) r r' row same e =
    let updated = first-update id (set_external_id given) r.sessions s (λ x. refl) row in
    elim (Option-cases (filled s₀.external_id)) [
      | inl free ↦ (set_external_id given s, ground arith, inl free, refl, refl)
      | inr (bound, taken) ↦ (s, ground arith, inr same, refl, refl)
    ]

change_delivery-row :
    (id : String) (s s₀ : Session) (mode : Option SessionDeliveryMode) (t : Times)
    (r r' : Repository)
    → current_session r.db id ≡ some s
    → change_delivery id s₀ mode t r ≡ done tt r'
    → (s' : Session) × (current_session r'.db id ≡ some s')
      × (s'.external_id ≡ s.external_id)
      × (s'.external_owner ≡ s.external_owner)
      × (s'.role ≡ s.role)
unfolding change_delivery append_change
change_delivery-row id s s₀ none t r r' row e = (s, ground arith, refl, refl, refl)
change_delivery-row id s s₀ (some mode) t r r' row e =
    let updated = first-update id (set_mode mode) r.sessions s (λ x. refl) row in
    elim (Bool-cases (same_mode s₀.delivery_mode mode)) [
      | inl same ↦ (s, ground arith, refl, refl, refl)
      | inr new ↦ (set_mode mode s, ground arith, refl, refl, refl)
    ]

bind_owner-row :
    (id : String) (s s₀ : Session) (owner agent : Option String) (r r' : Repository)
    → current_session r.db id ≡ some s
    → s.external_owner ≡ s₀.external_owner
    → bind_owner id s₀ owner agent r ≡ done tt r'
    → (s' : Session) × (current_session r'.db id ≡ some s')
      × Kept s₀.external_owner s'.external_owner
      × (s'.external_id ≡ s.external_id)
      × (s'.role ≡ s.role)
unfolding bind_owner
bind_owner-row id s s₀ none agent r r' row same e = (s, ground arith, inr same, refl, refl)
bind_owner-row id s s₀ (some owner) agent r r' row same e =
    let updated = first-update id (set_owner owner agent) r.sessions s (λ x. refl) row in
    elim (Option-cases (filled s₀.external_owner)) [
      | inl free ↦ (set_owner owner agent s, ground arith, inl free, refl, refl)
      | inr (bound, taken) ↦ (s, ground arith, inr same, refl, refl)
    ]

settle_session-row :
    (input : Registration) (owner agent : Option String) (t : Times) (s : Session)
    (r r' : Repository)
    → current_session r.db input.session_id ≡ some s
    → settle_session input owner agent t (some s) r ≡ done tt r'
    → (s' : Session) × (current_session r'.db input.session_id ≡ some s')
      × Kept s.external_id s'.external_id
      × Kept s.external_owner s'.external_owner
      × (s'.role ≡ s.role)
      × Agrees s.external_id input.external_id
unfolding settle_session
settle_session-row input owner agent t s r r' row e =
    let id = input.session_id in
    elim (Outcome-cases (bind_external_id id s (filled input.external_id) r)) [
      | inr (code, told, bad) ↦ absurd (ground arith)
      | inl (tt, r₁, first_done) ↦
          elim (Outcome-cases (change_delivery id s input.delivery_mode t r₁)) [
            | inr (code, told, bad) ↦ absurd (ground arith)
            | inl (tt, r₂, then_done) ↦
                let (s₁, row₁, kept₁, own₁, role₁) =
                  bind_external_id-row id s s (filled input.external_id) r r₁ row refl first_done in
                let (s₂, row₂, ext₂, own₂, role₂) =
                  change_delivery-row id s₁ s input.delivery_mode t r₁ r₂ row₁ then_done in
                let (s₃, row₃, kept₃, ext₃, role₃) =
                  bind_owner-row id s₂ s owner agent r₂ r' row₂ (own₂ ∙ own₁) (ground arith) in
                (
                  s₃,
                  row₃,
                  subst (Kept s.external_id) (sym (ext₃ ∙ ext₂)) kept₁,
                  kept₃,
                  role₃ ∙ role₂ ∙ role₁,
                  bind_external_id-Agrees id s input.external_id r r₁ first_done,
                )
          ]
    ]

ensure_member-member :
    (input : Registration) (t : Times) (r r' : Repository)
    → ensure_member input t r ≡ done tt r'
    → (is_active_member r'.db input.channel_id input.session_id ≡ true)
      × (r'.db.sessions ≡ r.db.sessions)
unfolding ensure_member insert_membership is_active_member append_change
ensure_member-member input t r r' e = (ground arith, ground arith)

--When a session that exists is registered into a channel, the caller that asks is the one that
-- the session is bound to, where both are given; an external caller or owner that it is bound to
-- stays, its role stays, and it is an active member of the channel afterwards.
pub register_session_in-bound :
    (input : Registration) (t u : Times) (r r' : Repository) (s : Session) (result : Registered)
    → current_session r.db input.session_id ≡ some s
    → register_session_in input t u r ≡ done result r'
    → Agrees s.external_id input.external_id
      × Kept s.external_id result.session.external_id
      × Kept s.external_owner result.session.external_owner
      × (result.session.role ≡ s.role)
      × (current_session r'.db input.session_id ≡ some result.session)
      × (is_active_member r'.db input.channel_id input.session_id ≡ true)
unfolding register_session_in
register_session_in-bound input t u r r' s result row e =
    let owner = trimmed input.external_owner in
    let agent = trimmed input.external_agent_id in
    elim (Outcome-cases (settle_session input owner agent t (some s) r)) [
      | inr (code, told, bad) ↦ absurd (ground arith)
      | inl (tt, r₁, settled) ↦ elim (Outcome-cases (ensure_member input u r₁)) [
        | inr (code, told, bad) ↦ absurd (ground arith)
        | inl (tt, r₂, joined) ↦
            let (s', row', kept, owned, role, agreed) =
              settle_session-row input owner agent t s r r₁ row settled in
            let (member, same) = ensure_member-member input u r₁ r₂ joined in
            let row₂ : current_session r₂.db input.session_id ≡ some s' = rw same row' in
            let last : r₂ ≡ r' = ground arith in
            let is : s' ≡ result.session = ground arith in
            (
              agreed,
              subst (λ (q : Session). Kept s.external_id q.external_id) is kept,
              subst (λ (q : Session). Kept s.external_owner q.external_owner) is owned,
              ground arith,
              ground arith,
              ground arith,
            )
      ]
    ]

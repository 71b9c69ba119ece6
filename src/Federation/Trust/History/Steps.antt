-- ===== src/Federation/Trust/History/Steps.antt =====
-- What one call makes of the record of a peer: roomsd/src/federation/peer-trust.ts.
use wardroom.Base.{
  ℕ, ◌≤◌, ◌≡◌, ◌≢◌, refl, sym, ◌∙◌, subst, String, true, false, ◌&&◌, not, none, some, arith,
  Option-cases, Bool-cases, inl, inr, ◌⊎◌, text_discrete, ===_refl, is_some, blank,
}
use wardroom.Federation.Patterns.{is_authority_id}
use wardroom.Federation.Trust.{
  PeerTrustState, pending, active, revoked, PeerTrustRecord, Machine, Proposal, ProvenState,
  to_active, state_of, is_revoked, is_reached, Files, value_of, write_record, bound_peer_key,
  bound_transport_policy, is_sound, try_read_record,
}
use wardroom.Federation.Trust.Keeping.{
  try_read_record-is_sound, try_read_record-write_record, try_read_record-other,
}
use wardroom.Federation.Trust.Changing.{
  Returned, files_of, same_pin, new_record, prepare_peer_trust, advance_peer_trust,
  revoke_peer_trust,
}
use wardroom.Federation.Trust.History.Following.{
  state_of-ne_revoked, state_of-active, rank, Follows, Follows-refl, rank-revoked, rank-reached,
  rank_le,
}

module _ (m : Machine) where
  -- Instants are written as dates that are read.
  abbrev pub IsDated : Type 0
  IsDated = (n : ℕ) → is_some (m.platform.date (m.iso n)) ≡ true

  -- The files after a call about an authority: they are the same, or a sound record of it was
  -- written that follows the one before, and that has an origin if it is active.
  abbrev pub Changes :
      (PeerTrustRecord → Type 0) → ℕ → (authority : String) → Files → Returned → Type 0
  Changes Origin n a files o =
      (files_of m files o ≡ files)
      ⊎ ((s : PeerTrustRecord) × (files_of m files o ≡ write_record a (value_of s) files)
          × (is_sound m n a s ≡ true)
          × (s.state ≡ active → Origin s)
          × ((r : PeerTrustRecord) → try_read_record m n a files ≡ some (some r) → Follows r s))

  -- A record in place of the one that is read.
  moved :
      (n : ℕ) (a : String) (files : Files) (r s q : PeerTrustRecord)
      → try_read_record m n a files ≡ some (some r)
      → try_read_record m n a files ≡ some (some q)
      → (r.state ≡ revoked → s ≡ r)
      → s.public_key_pem ≡ r.public_key_pem
      → s.fingerprint ≡ r.fingerprint
      → s.transport_policy ≡ r.transport_policy
      → s.created_at ≡ r.created_at
      → rank r.state ≤ rank s.state
      → Follows q s
  moved n a files r s q e g final key fingerprint policy origin further =
      let same : r ≡ q = ground arith in
      subst (λ (x : PeerTrustRecord). Follows x s) same
        (record {
          same_key = key;
          same_fingerprint = fingerprint;
          same_policy = policy;
          same_origin = origin;
          further = further;
          final = final;
        })

  -- What a call about one authority leaves for any other or the same.
  pub after :
      (n : ℕ) (b : String) (Origin : PeerTrustRecord → Type 0) (files : Files) (o : Returned)
      → Changes Origin n b files o
      → (a : String) (r : PeerTrustRecord) → try_read_record m n a files ≡ some (some r)
      → (s : PeerTrustRecord) × (try_read_record m n a (files_of m files o) ≡ some (some s))
        × Follows r s
  after n b Origin files o (inl same) a r e = (r, rw same e, Follows-refl r)
  after n b Origin files o (inr (s, wrote, sound, origin, follows)) a r e =
      elim (text_discrete b a) [
        | Dec.yes here ↦ (
          s,
          rw wrote (
              subst
                (λ (x : String).
                  try_read_record m n x (write_record b (value_of s) files) ≡ some (some s))
                here (try_read_record-write_record m n b s files sound)),
          follows r
              (subst (λ (x : String). try_read_record m n x files ≡ some (some r)) (sym here) e),
        )
        | Dec.no elsewhere ↦ (
          r,
          rw wrote (try_read_record-other m n a b (value_of s) files elsewhere ∙ e),
          Follows-refl r,
        )
      ]

  module _ (dated : IsDated) where
    new_record-is_sound :
        (n : ℕ) (f : String) (p : Proposal) (to : PeerTrustState)
        → to ≢ revoked
        → (bound_peer_key m p.authority_id p.public_key_pem f
            && bound_transport_policy m n p.authority_id p.transport_policy)
          ≡ true
        → is_sound m n p.authority_id (new_record m n f p to) ≡ true
    unfolding is_sound
    new_record-is_sound n f p to ne h = ground (arith, dated n, ===_refl p.authority_id)

    pub prepare-Changes :
        (n : ℕ) (p : Proposal) (files : Files)
        → Changes (λ s. ⊥) n p.authority_id files (prepare_peer_trust m n p files)
    unfolding prepare_peer_trust
    prepare-Changes n p files = elim (Option-cases (m.fingerprint_of p.public_key_pem)) [
      | inl k ↦ inl (ground arith)
      | inr (f, k) ↦
          elim (Bool-cases (
            bound_peer_key m p.authority_id p.public_key_pem f
            && bound_transport_policy m n p.authority_id p.transport_policy)) [
              | inr l ↦ inl (ground arith)
              | inl l ↦ elim (Option-cases (try_read_record m n p.authority_id files)) [
                | inl e ↦ inl (ground arith)
                | inr (none, e) ↦ inr (
                  new_record m n f p pending,
                  ground arith,
                  new_record-is_sound n f p pending (λ q. ground arith) l,
                  (λ q. absurd (ground arith)),
                  λ r g. absurd (ground arith),
                )
                | inr (some r, e) ↦ inl (ground arith)
              ]
            ]
    ]

    advanced-is_sound :
        (n : ℕ) (a : String) (r : PeerTrustRecord) (to : ProvenState)
        → is_revoked r.state ≡ false
        → is_sound m n a r ≡ true
        → is_sound m n a (record r { state = state_of to; updated_at = m.iso n }) ≡ true
    unfolding is_sound
    advanced-is_sound n a r to h e = ground (arith, dated n)

    revoked-is_sound :
        (n : ℕ) (a reason : String) (r : PeerTrustRecord)
        → blank reason ≡ false
        → is_sound m n a r ≡ true
        → is_sound m n a (record r {
          state = revoked;
          updated_at = m.iso n;
          revoked_at = some (m.iso n);
          revoked_reason = some reason;
        })
          ≡ true
    unfolding is_sound
    revoked-is_sound n a reason r h e = ground (arith, dated n)

    is_sound-authority :
        (n : ℕ) (a : String) (r : PeerTrustRecord) → is_sound m n a r ≡ true → r.authority_id ≡ a
    unfolding is_sound
    is_sound-authority n a r e = ground arith

    pub advance-Changes :
        (n : ℕ) (p : Proposal) (to : ProvenState) (files : Files)
        → Changes
            (λ s. (to ≡ to_active) × (p.public_key_pem ≡ s.public_key_pem))
            n
            p.authority_id
            files
            (advance_peer_trust m n p to files)
    unfolding advance_peer_trust
    advance-Changes n p to files = elim (Option-cases (m.fingerprint_of p.public_key_pem)) [
      | inl k ↦ inl (ground arith)
      | inr (f, k) ↦
          elim (Bool-cases (
            bound_peer_key m p.authority_id p.public_key_pem f
            && bound_transport_policy m n p.authority_id p.transport_policy)) [
              | inr l ↦ inl (ground arith)
              | inl l ↦ elim (Option-cases (try_read_record m n p.authority_id files)) [
                | inl e ↦ inl (ground arith)
                | inr (none, e) ↦ inr (
                  new_record m n f p (state_of to),
                  ground arith,
                  new_record-is_sound n f p (state_of to) (state_of-ne_revoked to) l,
                  (λ q. (state_of-active to q, refl)),
                  λ r g. absurd (ground arith),
                )
                | inr (some r, e) ↦ elim (Bool-cases (is_revoked r.state)) [
                  | inl d ↦ inl (ground arith)
                  | inr d ↦ elim (Bool-cases (same_pin m f p r)) [
                    | inr q ↦ inl (ground arith)
                    | inl q ↦ elim (Bool-cases (is_reached to r.state)) [
                      | inl z ↦ inl (ground arith)
                      | inr z ↦
                          let sound = try_read_record-is_sound m n p.authority_id files r e in
                          let here = is_sound-authority n p.authority_id r sound in
                          let next = record r { state = state_of to; updated_at = m.iso n } in
                          inr (
                            next,
                            ground arith,
                            advanced-is_sound n p.authority_id r to d sound,
                            (λ y. (state_of-active to y, ground arith)),
                            λ s g.
                                moved n p.authority_id files r next s e g
                                  (λ e'. absurd (rank-revoked r.state d e')) refl refl refl refl
                                  (rank-reached to r.state d z),
                          )
                    ]
                  ]
                ]
              ]
            ]
    ]

    pub revoke-Changes :
        (n : ℕ) (a reason : String) (files : Files)
        → Changes (λ s. ⊥) n a files (revoke_peer_trust m n a reason files)
    unfolding revoke_peer_trust
    revoke-Changes n a reason files = elim (Bool-cases (is_authority_id a && not (blank reason))) [
      | inr k ↦ inl (ground arith)
      | inl k ↦ elim (Option-cases (try_read_record m n a files)) [
        | inl e ↦ inl (ground arith)
        | inr (none, e) ↦ inl (ground arith)
        | inr (some r, e) ↦ elim (Bool-cases (is_revoked r.state)) [
          | inl d ↦ inl (ground arith)
          | inr d ↦
              let sound = try_read_record-is_sound m n a files r e in
              let here = is_sound-authority n a r sound in
              let next = record r {
                state = revoked;
                updated_at = m.iso n;
                revoked_at = some (m.iso n);
                revoked_reason = some reason;
              } in
              inr (
                next,
                ground arith,
                revoked-is_sound n a reason r (ground arith) sound,
                (λ y. absurd (ground arith)),
                λ s g.
                    moved n a files r next s e g (λ e'. absurd (rank-revoked r.state d e')) refl
                      refl refl refl (rank_le r.state),
              )
        ]
      ]
    ]

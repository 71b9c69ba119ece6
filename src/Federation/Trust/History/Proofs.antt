-- ===== src/Federation/Trust/History/Proofs.antt =====
-- Which peers become active: roomsd/src/federation/peer-trust.ts.
use wardroom.Base.{
  ℕ, ◌≡◌, sym, ◌∙◌, ap, subst, String, none, some, List, [], ◌∷◌, arith, Option-cases, Bool-cases,
  inl, inr, ◌⊎◌, text_discrete,
}
use wardroom.Federation.Trust.{
  active, is_active, PeerTrustRecord, Machine, to_active, Files, value_of, write_record, find,
  try_read_record, read_active_peer_trust,
}
use wardroom.Federation.Trust.Keeping.{try_read_record-other, try_read_record-written}
use wardroom.Federation.Trust.Changing.{
  Returned, files_of, prepare_peer_trust, advance_peer_trust, revoke_peer_trust, Call, prepares,
  advances, revokes, serve, history,
}
use wardroom.Federation.Trust.History.Steps.{
  IsDated, Changes, prepare-Changes, advance-Changes, revoke-Changes,
}

-- A call that makes an authority active on a proof for a key.
abbrev pub Proves : (authority pem : String) → Call → Type 0
Proves a pem (advances p to) = (to ≡ to_active) × (p.authority_id ≡ a) × (p.public_key_pem ≡ pem)
Proves a pem call = ⊥

-- One of some calls proves.
abbrev pub Proved : (authority pem : String) → List (ℕ × Call) → Type 0
Proved a pem [] = ⊥
Proved a pem ((n, call) ∷ calls) = Proves a pem call ⊎ Proved a pem calls

module _ (m : Machine) where
  -- What is active in files has a reason.
  abbrev Justified : (String → Type 0) → (authority : String) → Files → Type 0
  Justified Reason a files =
      (t : ℕ) (r : PeerTrustRecord)
      → try_read_record m t a files ≡ some (some r)
      → r.state ≡ active
      → Reason r.public_key_pem

  after-Justified :
      (Reason New : String → Type 0) (Origin : PeerTrustRecord → Type 0) (n : ℕ) (a b : String)
      (files : Files) (o : Returned)
      → Changes m Origin n b files o
      → ((s : PeerTrustRecord) → b ≡ a → Origin s → New s.public_key_pem)
      → Justified Reason a files
      → Justified (λ pem. Reason pem ⊎ New pem) a (files_of m files o)
  after-Justified Reason New Origin n a b files o (inl same) made h t r e k =
      inl (h t r (rw same at e) k)
  after-Justified Reason New Origin n a b files o (inr (s, wrote, sound, origin, follows)) made h t
        r e k =
      elim (text_discrete b a) [
        | Dec.no elsewhere ↦ inl (
            h t r
              (sym (try_read_record-other m t a b (value_of s) files elsewhere) ∙ (rw wrote at e))
              k)
        | Dec.yes here ↦
            let read : try_read_record m t a (write_record a (value_of s) files) ≡ some (some r) =
              subst
                (λ (x : String).
                  try_read_record m t a (write_record x (value_of s) files) ≡ some (some r))
                here (rw wrote at e) in
            let same = try_read_record-written m t a r s files read in
            inr (
              subst (λ (x : PeerTrustRecord). New x.public_key_pem) (sym same)
                (made s here (origin (ap (λ (x : PeerTrustRecord). x.state) (sym same) ∙ k))))
      ]

  module _ (dated : IsDated m) where
    serve-Justified :
        (Reason : String → Type 0) (n : ℕ) (call : Call) (a : String) (files : Files)
        → Justified Reason a files
        → Justified (λ pem. Reason pem ⊎ Proves a pem call) a (serve m n call files)
    unfolding serve
    serve-Justified Reason n (prepares p) a files h =
        after-Justified Reason (λ pem. ⊥) (λ s. ⊥) n a p.authority_id files
          (prepare_peer_trust m n p files) (prepare-Changes m dated n p files) (λ s e f. f) h
    serve-Justified Reason n (advances p to) a files h =
        after-Justified Reason (λ pem. Proves a pem (advances p to))
          (λ s. (to ≡ to_active) × (p.public_key_pem ≡ s.public_key_pem)) n a p.authority_id files
          (advance_peer_trust m n p to files) (advance-Changes m dated n p to files)
          (λ s e f. (f.0, e, f.1)) h
    serve-Justified Reason n (revokes b reason) a files h =
        after-Justified Reason (λ pem. ⊥) (λ s. ⊥) n a b files
          (revoke_peer_trust m n b reason files) (revoke-Changes m dated n b reason files)
          (λ s e f. f) h

    regroup : {A B C : Type 0} → (A ⊎ B) ⊎ C → A ⊎ (B ⊎ C)
    regroup (inl (inl a)) = inl a
    regroup (inl (inr b)) = inr (inl b)
    regroup (inr c) = inr (inr c)

    history-Justified :
        (Reason : String → Type 0) (calls : List (ℕ × Call)) (a : String) (files : Files)
        → Justified Reason a files
        → Justified (λ pem. Reason pem ⊎ Proved a pem calls) a (history m calls files)
    unfolding history
    history-Justified Reason [] a files h t r e k = inl (h t r e k)
    history-Justified Reason ((n, call) ∷ calls) a files h t r e k = regroup (
        history-Justified (λ pem. Reason pem ⊎ Proves a pem call) calls a (serve m n call files)
          (serve-Justified Reason n call a files h) t r e k)

    nothing-Justified : (a : String) → Justified (λ pem. ⊥) a []
    unfolding try_read_record find
    nothing-Justified a t r e k = ground arith

    active-read :
        (t : ℕ) (a : String) (files : Files) (r : PeerTrustRecord)
        → read_active_peer_trust m t a files ≡ some (some r)
        → (try_read_record m t a files ≡ some (some r)) × (r.state ≡ active)
    unfolding read_active_peer_trust
    active-read t a files r e = elim (Option-cases (try_read_record m t a files)) [
      | inl k ↦ absurd (ground arith)
      | inr (none, k) ↦ absurd (ground arith)
      | inr (some s, k) ↦ elim (Bool-cases (is_active s.state)) [
        | inl l ↦ (ground arith, ground arith)
        | inr l ↦ absurd (ground arith)
      ]
    ]

    from_nothing : {A : Type 0} → ⊥ ⊎ A → A
    from_nothing (inl x) = absurd x
    from_nothing (inr a) = a

    -- A peer that is found active after any calls on an empty directory was advanced to active by one of
    -- them, on a proof for the key of its record. Instants are written as dates that are read.
    pub history-Proved :
        (calls : List (ℕ × Call)) (t : ℕ) (a : String) (r : PeerTrustRecord)
        → read_active_peer_trust m t a (history m calls []) ≡ some (some r)
        → Proved a r.public_key_pem calls
    history-Proved calls t a r e =
        let (read, is) = active-read t a (history m calls []) r e in
        from_nothing (history-Justified (λ pem. ⊥) calls a [] (nothing-Justified a) t r read is)

-- ===== src/Federation/Trust/History.antt =====
-- What becomes of a record of a peer, whatever is called: roomsd/src/federation/peer-trust.ts.
pub mod Following
pub mod Steps
pub mod Proofs
use wardroom.Base.{
  ℕ, ◌≤◌, ◌≡◌, ◌≢◌, refl, sym, ◌∙◌, ap, subst, String, Bool, true, false, ◌&&◌, ◌||◌, not, Option,
  none, some, List, [], ◌∷◌, if◌then◌else◌, ◌===◌, arith, Option-cases, Bool-cases, inl, inr, ◌⊎◌,
  text_discrete, ===_refl, is_some, blank,
}
use wardroom.Json.{Value}
use wardroom.Federation.Patterns.{is_authority_id}
use wardroom.Federation.Trust.{
  PeerTrustState, pending, confirming, active, revoked, PeerTrustRecord, Machine, Proposal,
  ProvenState, to_confirming, to_active, state_of, is_revoked, is_reached, Files, value_of,
  write_record, bound_peer_key, bound_transport_policy, is_sound, try_read_record,
}
use wardroom.Federation.Trust.Keeping.{
  try_read_record-is_sound, try_read_record-later, try_read_record-write_record,
  try_read_record-other,
}
use wardroom.Federation.Trust.Changing.{
  Returned, files_of, same_pin, new_record, prepare_peer_trust, advance_peer_trust,
  revoke_peer_trust, Call, prepares, advances, revokes, returned, serve, history,
}
use wardroom.Federation.Trust.History.Following.{Follows, Follows-refl, Follows-trans}
use wardroom.Federation.Trust.History.Steps.{
  IsDated, after, prepare-Changes, advance-Changes, revoke-Changes,
}

-- Calls at times that do not decrease, from one instant to another.
abbrev pub IsFrom : ℕ → List (ℕ × Call) → ℕ → Type 0
IsFrom t [] t' = t ≤ t'
IsFrom t ((n, call) ∷ calls) t' = (t ≤ n) × IsFrom n calls t'

module _ (m : Machine) where
  module _ (dated : IsDated m) where
    serve-Follows :
        (n : ℕ) (call : Call) (files : Files) (a : String) (r : PeerTrustRecord)
        → try_read_record m n a files ≡ some (some r)
        → (s : PeerTrustRecord) × (try_read_record m n a (serve m n call files) ≡ some (some s))
          × Follows r s
    unfolding serve
    serve-Follows n (prepares p) files a r e =
        after m n p.authority_id (λ s. ⊥) files (prepare_peer_trust m n p files)
          (prepare-Changes m dated n p files) a r e
    serve-Follows n (advances p to) files a r e =
        after m n p.authority_id (λ s. (to ≡ to_active) × (p.public_key_pem ≡ s.public_key_pem))
          files (advance_peer_trust m n p to files) (advance-Changes m dated n p to files) a r e
    serve-Follows n (revokes b reason) files a r e =
        after m n b (λ s. ⊥) files (revoke_peer_trust m n b reason files)
          (revoke-Changes m dated n b reason files) a r e

    -- A record that is there stays there, whatever is called at whatever later times: it keeps the
    -- key, the fingerprint, the policy and the time at which it was made, its state goes from pending to
    -- confirming to active to revoked and never back, and once it is revoked nothing of it changes.
    -- Instants are written as dates that are read.
    pub history-Follows :
        (t t' : ℕ) (calls : List (ℕ × Call)) (files : Files) (a : String) (r : PeerTrustRecord)
        → IsFrom t calls t'
        → try_read_record m t a files ≡ some (some r)
        → (s : PeerTrustRecord) × (try_read_record m t' a (history m calls files) ≡ some (some s))
          × Follows r s
    unfolding history
    history-Follows t t' [] files a r le e =
        (r, try_read_record-later m t t' a files r le e, Follows-refl r)
    history-Follows t t' ((n, call) ∷ calls) files a r (le, later) e =
        let (s, read, follows) =
          serve-Follows n call files a r (try_read_record-later m t n a files r le e) in
        let (u, read', follows') =
          history-Follows n t' calls (serve m n call files) a s later read in
        (u, read', Follows-trans r s u follows follows')

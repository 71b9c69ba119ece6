-- ===== src/Federation/Trust/History/Following.antt =====
-- How the record of a peer may go on: the states of roomsd/src/federation/peer-trust.ts.
use wardroom.Base.{ℕ, ◌≤◌, ◌≡◌, ◌≢◌, refl, ◌∙◌, ap, false, arith}
use wardroom.Federation.Trust.{
  PeerTrustState, pending, confirming, active, revoked, PeerTrustRecord, ProvenState, to_confirming,
  to_active, state_of, is_revoked, is_reached,
}

pub state_of-ne_revoked : (to : ProvenState) → state_of to ≢ revoked
state_of-ne_revoked to_confirming e = ground arith
state_of-ne_revoked to_active e = ground arith

pub state_of-active : (to : ProvenState) → state_of to ≡ active → to ≡ to_active
state_of-active to_active e = refl
state_of-active to_confirming e = absurd (ground arith)

-- How far a record has come; a revoked one cannot go on.
abbrev pub rank : PeerTrustState → ℕ
rank pending = 0
rank confirming = 1
rank active = 2
rank revoked = 3

-- A later record of the same peer: the same pin and origin, a state that is no earlier one, and no
-- change at all once it was revoked.
pub record Follows (r s : PeerTrustRecord) : Type 0 where
  pub same_key : s.public_key_pem ≡ r.public_key_pem
  pub same_fingerprint : s.fingerprint ≡ r.fingerprint
  pub same_policy : s.transport_policy ≡ r.transport_policy
  pub same_origin : s.created_at ≡ r.created_at
  pub further : rank r.state ≤ rank s.state
  pub final : r.state ≡ revoked → s ≡ r

pub Follows-refl : (r : PeerTrustRecord) → Follows r r
Follows-refl r = record {
  same_key = refl;
  same_fingerprint = refl;
  same_policy = refl;
  same_origin = refl;
  further = omega arith;
  final = λ e. refl;
}

pub Follows-trans : (r s t : PeerTrustRecord) → Follows r s → Follows s t → Follows r t
Follows-trans r s t f g = record {
  same_key = g.same_key ∙ f.same_key;
  same_fingerprint = g.same_fingerprint ∙ f.same_fingerprint;
  same_policy = g.same_policy ∙ f.same_policy;
  same_origin = g.same_origin ∙ f.same_origin;
  further = omega (arith, f.further, g.further);
  final = λ e. g.final (ap (λ (x : PeerTrustRecord). x.state) (f.final e) ∙ e) ∙ f.final e;
}

pub rank-revoked : (s : PeerTrustState) → is_revoked s ≡ false → s ≢ revoked
rank-revoked s h e = ground arith

pub rank-reached :
    (to : ProvenState) (s : PeerTrustState)
    → is_revoked s ≡ false
    → is_reached to s ≡ false
    → rank s ≤ rank (state_of to)
rank-reached to pending h k = omega arith
rank-reached to_confirming confirming h k = omega arith
rank-reached to_active confirming h k = omega arith
rank-reached to active h k = absurd (ground arith)
rank-reached to revoked h k = absurd (ground arith)

pub rank_le : (s : PeerTrustState) → rank s ≤ 3
rank_le pending = omega arith
rank_le confirming = omega arith
rank_le active = omega arith
rank_le revoked = omega arith

-- ===== src/Federation/Trust/Changing.antt =====
-- What changes the records of peers: `preparePeerTrust`, `advancePeerTrustFromEnrollmentProof` and
-- `revokePeerTrust` of roomsd/src/federation/peer-trust.ts, and a history of their calls.
use wardroom.Base.{
  ℕ, String, Bool, ◌&&◌, not, Option, none, some, List, [], ◌∷◌, if◌then◌else◌, ◌===◌, blank,
}
use wardroom.Federation.Patterns.{is_authority_id}
use wardroom.Federation.Trust.{
  PeerTrustState, pending, revoked, PeerTrustRecord, Machine, Proposal, ProvenState, state_of,
  is_revoked, is_reached, Files, value_of, write_record, bound_peer_key, bound_transport_policy,
  try_read_record,
}

-- A call that returns: the record that it gives, and the files.
abbrev pub Returned : Type 0
Returned = Option (PeerTrustRecord × Files)

pub data Call : Type 0 where
  prepares : Proposal → Call
  advances : Proposal → ProvenState → Call
  revokes : (authority reason : String) → Call

module _ (m : Machine) where
  -- Whether a record is pinned to the key and the policy of a proposal.
  abbrev pub same_pin : (fingerprint : String) → Proposal → PeerTrustRecord → Bool
  same_pin fingerprint p r =
      r.fingerprint === fingerprint
      && r.public_key_pem === p.public_key_pem
      && m.policy_text r.transport_policy === m.policy_text p.transport_policy

  -- `writeRecord`, and the record.
  abbrev pub written : PeerTrustRecord → Files → Returned
  written r files = some (r, write_record r.authority_id (value_of r) files)

  abbrev pub new_record : ℕ → (fingerprint : String) → Proposal → PeerTrustState → PeerTrustRecord
  new_record now fingerprint p state = record {
    authority_id = p.authority_id;
    public_key_pem = p.public_key_pem;
    fingerprint = fingerprint;
    transport_policy = p.transport_policy;
    state = state;
    created_at = m.iso now;
    updated_at = m.iso now;
    revoked_at = none;
    revoked_reason = none;
  }

  -- The tests of a proposal, and what goes on with its fingerprint.
  abbrev with_key : ℕ → Proposal → (String → Returned) → Option String → Returned
  with_key now p next none = none
  with_key now p next (some fingerprint) =
      if bound_peer_key m p.authority_id p.public_key_pem fingerprint
        && bound_transport_policy m now p.authority_id p.transport_policy
      then next fingerprint
      else none

  prepared :
      ℕ → Proposal → (fingerprint : String) → Files → Option (Option PeerTrustRecord) → Returned
  prepared now p fingerprint files none = none
  prepared now p fingerprint files (some none) =
      written (new_record now fingerprint p pending) files
  prepared now p fingerprint files (some (some r)) =
      if is_revoked r.state
      then none
      else if same_pin fingerprint p r
      then some (r, files)
      else none

  unfoldable pub prepare_peer_trust : ℕ → Proposal → Files → Returned
  unfolding prepared
  prepare_peer_trust now p files =
      with_key now p (λ f. prepared now p f files (try_read_record m now p.authority_id files))
        (m.fingerprint_of p.public_key_pem)

  advanced :
      ℕ
      → Proposal
      → ProvenState
      → (fingerprint : String) → Files
      → Option (Option PeerTrustRecord)
      → Returned
  advanced now p to fingerprint files none = none
  advanced now p to fingerprint files (some none) =
      written (new_record now fingerprint p (state_of to)) files
  advanced now p to fingerprint files (some (some r)) =
      if is_revoked r.state
      then none
      else if not (same_pin fingerprint p r)
      then none
      else if is_reached to r.state
      then some (r, files)
      else written (record r { state = state_of to; updated_at = m.iso now }) files

  unfoldable pub advance_peer_trust : ℕ → Proposal → ProvenState → Files → Returned
  unfolding advanced
  advance_peer_trust now p to files =
      with_key now p (λ f. advanced now p to f files (try_read_record m now p.authority_id files))
        (m.fingerprint_of p.public_key_pem)

  revoking : ℕ → (reason : String) → Files → Option (Option PeerTrustRecord) → Returned
  revoking now reason files none = none
  revoking now reason files (some none) = none
  revoking now reason files (some (some r)) =
      if is_revoked r.state
      then some (r, files)
      else written
          (record r {
            state = revoked;
            updated_at = m.iso now;
            revoked_at = some (m.iso now);
            revoked_reason = some reason;
          })
          files

  unfoldable pub revoke_peer_trust : ℕ → (authority reason : String) → Files → Returned
  unfolding revoking
  revoke_peer_trust now authority reason files =
      if is_authority_id authority && not (blank reason)
      then revoking now reason files (try_read_record m now authority files)
      else none

  abbrev pub files_of : Files → Returned → Files
  files_of files none = files
  files_of files (some (r, files')) = files'

  abbrev pub returned : ℕ → Call → Files → Returned
  returned now (prepares p) files = prepare_peer_trust now p files
  returned now (advances p to) files = advance_peer_trust now p to files
  returned now (revokes authority reason) files = revoke_peer_trust now authority reason files

  -- The files after a call; one that throws leaves them as they are.
  unfoldable pub serve : ℕ → Call → Files → Files
  serve now call files = files_of files (returned now call files)

  -- Calls at their times.
  unfoldable pub history : List (ℕ × Call) → Files → Files
  unfolding serve
  history [] files = files
  history ((now, call) ∷ calls) files = history calls (serve now call files)

-- ===== src/Federation/Trust/Tests.antt =====
-- A peer that is enrolled, confirmed by a proof, and revoked.
use wardroom.Base.{
  ◌≡◌, refl, ℕ, String, none, some, List, [], ◌∷◌, text_discrete, blank, is_space, ◌===◌,
  if◌then◌else◌, arith,
}
use wardroom.Json.{text, object, end, field, get, keys, contains, exact_keys}
use wardroom.Federation.Patterns.{length, all_chars, drop_prefix, is_fingerprint, is_authority_id}
use wardroom.Federation.Policy.{validate_transport_policy}
use wardroom.Federation.Enrollment.{transport_peer_matches}
use wardroom.Federation.Trust.{
  pending, active, revoked, read_active_peer_trust, PeerTrustRecord, Machine, Proposal,
  to_confirming, to_active, Files, state_field, record_fields, find, write_record, bound_peer_key,
  bound_transport_policy, is_sound, parse_record, try_read_record,
}
use wardroom.Federation.Trust.Changing.{
  new_record, prepare_peer_trust, advance_peer_trust, revoke_peer_trust, Call, prepares, advances,
  revokes, serve, history,
}
use wardroom.Federation.Trust.History.{history-Follows}
use wardroom.Federation.Trust.History.Proofs.{Proved, history-Proved}
use wardroom.Federation.Trust.History.Following.{Follows}

runs : Unit {0}
unfolding text_discrete blank is_space get keys contains exact_keys length all_chars drop_prefix
    is_fingerprint is_authority_id validate_transport_policy transport_peer_matches state_field
    record_fields find write_record bound_peer_key bound_transport_policy is_sound parse_record
    try_read_record read_active_peer_trust prepare_peer_trust advance_peer_trust revoke_peer_trust
    serve history
runs = tt

abbrev fingerprint : String
fingerprint = "0123456789abcdef0123456789abcdef0123456789abcdef0123456789abcdef"

abbrev peer : String
peer = "authority-0123456789abcdef0123456789abcdef0123456789abcdef0123456789abcdef"

abbrev machine : Machine
machine = record {
  platform = record { date = λ s. some 0; ip_version = λ s. 0 };
  fingerprint_of = λ pem. if pem === "key" then some fingerprint else none;
  policy_text = λ v. "{}";
  iso = λ n. "then";
}

abbrev proposal : Proposal
proposal = record {
  authority_id = peer;
  public_key_pem = "key";
  transport_policy = object (field "kind" (text "localUnix") (field "path" (text "/rooms") end));
}

abbrev first : PeerTrustRecord
first = new_record machine 5 fingerprint proposal pending

abbrev prepared : Files
prepared = serve machine 5 (prepares proposal) []

prepared-read : try_read_record machine 5 peer prepared ≡ some (some first)
unfolding runs
prepared-read = refl

abbrev calls : List (ℕ × Call)
calls =
    (6, advances proposal to_confirming)
    ∷ (7, advances proposal to_active)
    ∷ (8, revokes peer "lost")
    ∷ (9, advances proposal to_active)
    ∷ []

abbrev last : PeerTrustRecord
last = record first {
  state = revoked;
  updated_at = "then";
  revoked_at = some "then";
  revoked_reason = some "lost";
}

calls_test : try_read_record machine 10 peer (history machine calls prepared) ≡ some (some last)
unfolding runs
calls_test = refl

history-Follows_example :
    (s : PeerTrustRecord) × (try_read_record machine 10 peer (history machine calls prepared)
      ≡ some (some s))
    × Follows first s
history-Follows_example =
    history-Follows machine (λ n. refl) 5 10 calls prepared peer first
      (omega arith, (omega arith, (omega arith, (omega arith, omega arith)))) prepared-read

abbrev enrolled : List (ℕ × Call)
enrolled =
    (5, prepares proposal)
    ∷ (6, advances proposal to_confirming)
    ∷ (7, advances proposal to_active)
    ∷ []

abbrev trusted : PeerTrustRecord
trusted = record first { state = active; updated_at = "then" }

enrolled-read :
    read_active_peer_trust machine 9 peer (history machine enrolled []) ≡ some (some trusted)
unfolding runs
enrolled-read = refl

history-Proved_example : Proved peer "key" enrolled
history-Proved_example = history-Proved machine (λ n. refl) enrolled 9 peer trusted enrolled-read

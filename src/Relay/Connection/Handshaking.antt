-- ===== src/Relay/Connection/Handshaking.antt =====
-- The handshake of a connection: `onHandshakeInit`, `onHandshakeAccept` and the rejections
-- of roomsd/src/federation/relay-connection.ts.
use Prim.Native.String.{◌++◌}
use wardroom.Base.{
  ℕ, ◌-◌, String, Bool, false, ◌&&◌, ◌||◌, not, Option, none, some, if◌then◌else◌, ltb, leb, ◌===◌,
}
use wardroom.Relay.{
  RelayRole, initiator, responder, RelayHandshakeInit, RelayHandshakeAccept, RelayWireFrame,
  handshake_init, handshake_accept, handshake_reject,
}
use wardroom.Relay.Connection.{
  connected, RelayDisconnectReason, handshake_rejected, handshake_expired, malformed_handshake,
  wrong_destination, wrong_peer, wrong_connection, key_mismatch, peer_not_active,
  peer_trust_mismatch, invalid_signature, protocol_downgrade, protocol_error, PeerTrust, Transcript,
  init_transcript, accept_transcript, Identity, Machine, RelayConnectionInput, RelayConnection,
  fail, Outcome, returns, throws,
}
use wardroom.Relay.Reading.{Units}
use wardroom.Relay.Connection.Sending.{encodes, write_frame}

abbrev pub unknown_connection_id : String
unknown_connection_id = "00000000-0000-0000-0000-000000000000"

abbrev pub relay_clock_skew_tolerance_ms : ℕ
relay_clock_skew_tolerance_ms = 30000

-- `boundedTtl`
unfoldable pub bounded_ttl : Option ℕ → Option ℕ
bounded_ttl none = some 60
bounded_ttl (some n) = if ltb n 10 || ltb 300 n then none else some n

unfoldable pub reason_from_reject_code : String → RelayDisconnectReason
reason_from_reject_code code =
    if code === "wrongDestination"
    then wrong_destination
    else if code === "keyMismatch"
    then key_mismatch
    else if code === "peerNotActive"
    then peer_not_active
    else if code === "peerTrustMismatch"
    then peer_trust_mismatch
    else if code === "handshakeExpired"
    then handshake_expired
    else if code === "invalidSignature"
    then invalid_signature
    else if code === "protocolDowngrade"
    then protocol_downgrade
    else if code === "malformedHandshake"
    then malformed_handshake
    else handshake_rejected

-- `trustMatchesPresented`
abbrev pub trust_matches_presented : PeerTrust → (presented : String) → Bool
trust_matches_presented trust presented =
    trust.fingerprint === presented && trust.policy_kind === "loopbackSsh"

abbrev is_past : ℕ → Option ℕ → Bool
is_past now none = false
is_past now (some at) = leb at now

abbrev is_far_ahead : ℕ → Option ℕ → Bool
is_far_ahead now none = false
is_far_ahead now (some at) = ltb relay_clock_skew_tolerance_ms (at - now)

abbrev pub init_transcript_of : RelayHandshakeInit → Transcript
init_transcript_of i =
    init_transcript i.connection_id i.initiator_authority_id i.initiator_fingerprint
      i.initiator_public_key_spki_b64 i.initiator_transport_policy i.responder_authority_id i.nonce
      i.issued_at i.expires_at

abbrev pub accept_transcript_of : RelayHandshakeAccept → Transcript
accept_transcript_of a =
    accept_transcript a.connection_id a.initiator_authority_id a.initiator_fingerprint
      a.initiator_public_key_spki_b64 a.initiator_transport_policy a.responder_authority_id
      a.responder_fingerprint a.responder_public_key_spki_b64 a.responder_transport_policy
      a.initiator_nonce a.responder_nonce a.issued_at a.expires_at

-- What an end finds of what the other one presents.
pub data Verdict : Type 0 where
  refuses : (code message : String) → Verdict
  trusts : PeerTrust → Verdict

-- What is random in a handshake.
pub record Fresh : Type 0 where
  pub connection_id : String
  pub nonce : String

unfoldable pub become_connected : ℕ → RelayConnection → RelayConnection
become_connected now c = record c {
  state = connected;
  connected_at = some now;
  last_any_received_at = now;
}

abbrev pub id_or_unknown : Option String → String
id_or_unknown none = unknown_connection_id
id_or_unknown (some id) = id

module _ (m : Machine) (input : RelayConnectionInput) where
  unfoldable pub reject_handshake :
      (connection_id code message : String) → RelayConnection → Outcome
  reject_handshake connection_id code message c =
      let f =
        handshake_reject
          (record { connection_id = connection_id; code = code; message = message }) in
      if encodes m input f
      then returns (fail (reason_from_reject_code code) (write_frame m input f c))
      else throws c

  -- The last tests of an init: its age and its signature.
  fresh_verdict : ℕ → RelayHandshakeInit → (der : Units) → PeerTrust → Verdict
  fresh_verdict now i der trust =
      if is_past now (m.platform.date i.expires_at)
      then refuses "handshakeExpired" "handshake init has expired"
      else if is_far_ahead now (m.platform.date i.issued_at)
      then refuses "handshakeExpired" "handshake init issuedAt is too far in the future"
      else if m.verify der (init_transcript_of i) i.signature
      then trusts trust
      else refuses "invalidSignature" "handshake init signature is invalid"

  trust_verdict : ℕ → RelayHandshakeInit → (der : Units) → Option PeerTrust → Verdict
  trust_verdict now i der none =
      refuses "peerNotActive" ("no active local peer trust for " ++ i.initiator_authority_id)
  trust_verdict now i der (some trust) =
      if trust_matches_presented trust (m.fingerprint_for_der der)
      then fresh_verdict now i der trust
      else refuses "peerTrustMismatch"
          "presented key/transport policy does not match the locally pinned peer trust record"

  key_verdict : ℕ → (dir : String) → RelayHandshakeInit → Option Units → Verdict
  key_verdict now dir i none = refuses "keyMismatch" (m.key_error i.initiator_public_key_spki_b64)
  key_verdict now dir i (some der) =
      let fingerprint = m.fingerprint_for_der der in
      if fingerprint === i.initiator_fingerprint
        && "authority-" ++ fingerprint === i.initiator_authority_id
      then trust_verdict now i der (m.active_trust now i.initiator_authority_id dir)
      else refuses "keyMismatch"
          "initiator fingerprint/authority id does not match its presented public key"

  -- The tests of `onHandshakeInit` behind the end's own identity.
  unfoldable pub init_verdict : ℕ → (dir own : String) → RelayHandshakeInit → Verdict
  unfolding key_verdict trust_verdict fresh_verdict
  init_verdict now dir own i =
      if not (i.responder_authority_id === own)
      then refuses "wrongDestination" "handshake is not addressed to this Rooms identity"
      else if i.initiator_authority_id === own
      then refuses "wrongDestination" "reflection: initiator cannot be this Rooms identity"
      else key_verdict now dir i (m.canonical_der i.initiator_public_key_spki_b64)

  -- The answer to an init that is trusted.
  abbrev pub accept_of :
      Identity
      → (fingerprint nonce : String) → PeerTrust
      → RelayHandshakeInit
      → RelayHandshakeAccept
  accept_of own fingerprint nonce trust i = record {
    connection_id = i.connection_id;
    initiator_authority_id = i.initiator_authority_id;
    initiator_fingerprint = i.initiator_fingerprint;
    initiator_public_key_spki_b64 = i.initiator_public_key_spki_b64;
    initiator_transport_policy = i.initiator_transport_policy;
    responder_authority_id = own.authority_id;
    responder_fingerprint = fingerprint;
    responder_public_key_spki_b64 = own.public_key;
    responder_transport_policy = trust.transport_policy;
    initiator_nonce = i.nonce;
    responder_nonce = nonce;
    issued_at = i.issued_at;
    expires_at = i.expires_at;
    signature = own.sign (
        accept_transcript i.connection_id i.initiator_authority_id i.initiator_fingerprint
          i.initiator_public_key_spki_b64 i.initiator_transport_policy own.authority_id fingerprint
          own.public_key trust.transport_policy i.nonce nonce i.issued_at i.expires_at);
  }

  unfoldable pub answer :
      ℕ
      → Fresh
      → Identity
      → RelayHandshakeInit
      → PeerTrust
      → Option Units
      → RelayConnection
      → Outcome
  answer now fresh own i trust none c = throws c
  answer now fresh own i trust (some der) c =
      let f = handshake_accept (accept_of own (m.fingerprint_for_der der) fresh.nonce trust i) in
      let c' = record c { peer_authority_id = some i.initiator_authority_id } in
      if encodes m input f
      then returns (become_connected now (write_frame m input f c'))
      else throws c'

  by_verdict : ℕ → Fresh → Identity → RelayHandshakeInit → Verdict → RelayConnection → Outcome
  by_verdict now fresh own i (refuses code message) c =
      reject_handshake i.connection_id code message c
  by_verdict now fresh own i (trusts trust) c =
      answer now fresh own i trust (m.canonical_der own.public_key) c

  with_identity :
      ℕ → Fresh → RelayHandshakeInit → (dir : String) → Option Identity → RelayConnection → Outcome
  with_identity now fresh i dir none c =
      reject_handshake i.connection_id "malformedHandshake" "handshake rejected" c
  with_identity now fresh i dir (some own) c =
      by_verdict now fresh own i (init_verdict now dir own.authority_id i)
        (record c { own_authority_id = some own.authority_id })

  in_dir : ℕ → Fresh → RelayHandshakeInit → Option String → RelayConnection → Outcome
  in_dir now fresh i none c =
      reject_handshake i.connection_id "malformedHandshake" "handshake rejected" c
  in_dir now fresh i (some dir) c = with_identity now fresh i dir (m.identity_of dir) (record c {
    resolved_remote_state_dir = some dir;
    negotiated_heartbeat_interval_ms = i.heartbeat_interval_ms;
  })

  unfoldable pub on_handshake_init : ℕ → Fresh → RelayHandshakeInit → RelayConnection → Outcome
  unfolding in_dir with_identity by_verdict answer
  on_handshake_init now fresh i c =
      in_dir now fresh i (m.resolve_dir i.state_dir)
        (record c { connection_id = some i.connection_id })

  -- Whether an accept repeats what this end offered.
  abbrev pub echoes : RelayHandshakeInit → RelayHandshakeAccept → Bool
  echoes p a =
      a.initiator_authority_id === p.initiator_authority_id
      && a.initiator_fingerprint === p.initiator_fingerprint
      && a.initiator_public_key_spki_b64 === p.initiator_public_key_spki_b64
      && m.policy_text a.initiator_transport_policy === m.policy_text p.initiator_transport_policy
      && a.initiator_nonce === p.nonce
      && a.issued_at === p.issued_at
      && a.expires_at === p.expires_at

  accepted_key : RelayHandshakeAccept → PeerTrust → Option Units → Option RelayDisconnectReason
  accepted_key a trust none = some key_mismatch
  accepted_key a trust (some der) =
      let fingerprint = m.fingerprint_for_der der in
      if not (
        fingerprint === a.responder_fingerprint
        && "authority-" ++ fingerprint === a.responder_authority_id)
      then some key_mismatch
      else if not (trust_matches_presented trust fingerprint)
      then some peer_trust_mismatch
      else if m.verify der (accept_transcript_of a) a.signature
      then none
      else some invalid_signature

  accepted_trust : RelayHandshakeAccept → Option PeerTrust → Option RelayDisconnectReason
  accepted_trust a none = some peer_not_active
  accepted_trust a (some trust) =
      accepted_key a trust (m.canonical_der a.responder_public_key_spki_b64)

  -- The tests of `onHandshakeAccept`; the reason of the first that fails.
  unfoldable pub accept_fault :
      ℕ → Option RelayHandshakeInit → RelayHandshakeAccept → Option RelayDisconnectReason
  unfolding accepted_trust accepted_key
  accept_fault now none a = some wrong_connection
  accept_fault now (some p) a =
      if not (a.connection_id === p.connection_id)
      then some wrong_connection
      else if not (echoes p a)
      then some protocol_error
      else if not (a.responder_authority_id === p.responder_authority_id)
      then some wrong_peer
      else if is_past now (m.platform.date a.expires_at)
      then some handshake_expired
      else accepted_trust a (m.active_trust now a.responder_authority_id input.local_state_dir)

  abbrev by_fault : ℕ → Option RelayDisconnectReason → RelayConnection → RelayConnection
  by_fault now none c = become_connected now c
  by_fault now (some reason) c = fail reason c

  unfoldable pub on_handshake_accept : ℕ → RelayHandshakeAccept → RelayConnection → RelayConnection
  on_handshake_accept now a c = by_fault now (accept_fault now c.pending_init a) c

  -- `onHandshakeFrame`
  unfoldable pub on_handshake_frame :
      RelayRole → ℕ → Fresh → RelayWireFrame → RelayConnection → Outcome
  on_handshake_frame responder now fresh (handshake_init i) c = on_handshake_init now fresh i c
  on_handshake_frame responder now fresh f c =
      reject_handshake (id_or_unknown c.connection_id) "protocolDowngrade"
        ("expected relayHandshakeInit, received " ++ m.kind_of f) c
  on_handshake_frame initiator now fresh (handshake_reject r) c =
      returns (fail handshake_rejected c)
  on_handshake_frame initiator now fresh (handshake_accept a) c =
      returns (on_handshake_accept now a c)
  on_handshake_frame initiator now fresh f c = returns (fail protocol_downgrade c)

-- ===== src/Relay/Connection/Completing/Knowing.antt =====
-- What two machines have to know of each other for a handshake to pass the tests of `onHandshakeInit` and
-- `onHandshakeAccept` of roomsd/src/federation/relay-connection.ts.
use Prim.Native.String.{◌++◌}
use wardroom.Base.{ℕ, ◌+◌, ◌*◌, ◌≤◌, ◌<◌, ◌≡◌, ◌≢◌, refl, String, true, none, some, arith, ===_refl}
use wardroom.Relay.{RelayHandshakeInit}
use wardroom.Relay.Reading.{Units}
use wardroom.Relay.Connection.{
  PeerTrust, Transcript, Identity, Machine, RelayConnectionInput, RelayConnection,
}
use wardroom.Relay.Connection.Handshaking.{
  trusts, Fresh, init_transcript_of, accept_transcript_of, init_verdict, accept_of, echoes,
  accept_fault, become_connected, on_handshake_accept,
}
use wardroom.Relay.Connection.Starting.{offered}

-- What a machine knows of the owner of an identity: the key is read as it is and names the authority,
-- what the owner signs is verified, and the authority is on record with this key and this transport.
pub record Knows (m : Machine) (now : ℕ) (dir : String) (own : Identity) (der : Units)
    (trust : PeerTrust) : Type 0 where
  pub key : m.canonical_der own.public_key ≡ some der
  pub names : own.authority_id ≡ "authority-" ++ m.fingerprint_for_der der
  pub signs : (t : Transcript) → m.verify der t (own.sign t) ≡ true
  pub on_record : m.active_trust now own.authority_id dir ≡ some trust
  pub pinned : trust.fingerprint ≡ m.fingerprint_for_der der
  pub transport : trust.policy_kind ≡ "loopbackSsh"

module _ (here there : Machine) (dialing listening : RelayConnectionInput) where
  -- The init that is offered to a machine that knows the one that offers it, that has another identity
  -- and whose clock reads a time from 30 seconds before the offer up to its end, is trusted there.
  pub init_verdict-offered :
      (now later : ℕ) (fresh : Fresh) (own : Identity) (pin trust : PeerTrust) (ttl : ℕ)
      (der : Units) (dir peer : String)
      → Knows there later dir own der trust
      → here.fingerprint_for_der der ≡ there.fingerprint_for_der der
      → dialing.dialed_peer ≡ some peer
      → own.authority_id ≢ peer
      → there.platform.date (here.iso now) ≡ some now
      → there.platform.date (here.iso (now + ttl * 1000)) ≡ some (now + ttl * 1000)
      → now ≤ later + 30000
      → later < now + ttl * 1000
      → init_verdict there listening later dir peer (offered here dialing now fresh own pin ttl der)
        ≡ trusts trust
  unfolding init_verdict
  init_verdict-offered now later fresh own pin trust ttl der dir peer k same to other issued expires
        soon open' =
      ground (
        arith,
        k.names,
        k.key,
        k.on_record,
        k.pinned,
        k.transport,
        k.signs (init_transcript_of (offered here dialing now fresh own pin ttl der)),
      )

  -- The accept that a machine gives to an init connects the end that has offered it, where the machine of
  -- that end knows the one that answers, dialed it, and the init has not expired.
  pub on_handshake_accept-accept_of :
      (now at : ℕ) (own : Identity) (pin trust : PeerTrust) (der : Units) (nonce : String)
      (i : RelayHandshakeInit) (c : RelayConnection)
      → Knows here now dialing.local_state_dir own der trust
      → c.pending_init ≡ some i
      → here.fingerprint_for_der der ≡ there.fingerprint_for_der der
      → i.responder_authority_id ≡ own.authority_id
      → here.platform.date i.expires_at ≡ some at
      → now < at
      → on_handshake_accept here dialing now
          (accept_of there listening own (there.fingerprint_for_der der) nonce pin i)
          c
        ≡ become_connected now c
  unfolding on_handshake_accept accept_fault
  on_handshake_accept-accept_of now at own pin trust der nonce i c k pending same to expires open' =
      let echo : echoes here dialing i
            (accept_of there listening own (there.fingerprint_for_der der) nonce pin i)
          ≡ true =
        rw
          (
            ===_refl i.initiator_authority_id,
            ===_refl i.initiator_fingerprint,
            ===_refl i.initiator_public_key_spki_b64,
            ===_refl (here.policy_text i.initiator_transport_policy),
            ===_refl i.nonce,
            ===_refl i.issued_at,
            ===_refl i.expires_at,
          )
          refl in
      let clear : accept_fault here dialing now (some i)
            (accept_of there listening own (there.fingerprint_for_der der) nonce pin i)
          ≡ none =
        ground (
          arith,
          echo,
          ===_refl i.connection_id,
          k.names,
          k.key,
          k.on_record,
          k.pinned,
          k.transport,
          k.signs (
              accept_transcript_of
                (accept_of there listening own (there.fingerprint_for_der der) nonce pin i)),
        ) in
      rw (pending, clear) refl

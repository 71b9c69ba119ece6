-- ===== src/Relay/Connection/Tests/Meeting.antt =====
-- Two machines that meet. An instant is written as a text of that length.
use wardroom.Base.{ℕ, zero, suc, String, some, [], ◌∷◌}
use wardroom.Federation.{Platform}
use wardroom.Federation.Patterns.{length}
use wardroom.Relay.{initiator, responder, RelayHandshakeInit, RelayHandshakeAccept}
use wardroom.Relay.Connection.{Identity, Machine, RelayConnectionInput}
use wardroom.Relay.Connection.Handshaking.{accept_of}
use wardroom.Relay.Connection.Starting.{offered}
use wardroom.Relay.Connection.Tests.{machine, trusted, fresh, role_input, here}

written : ℕ → String
written zero = ""
written (suc n) = String.◌∷◌ "1" (written n)

abbrev platform : Platform
platform = record { date = λ s. some (length s); ip_version = λ s. 0 }

abbrev caller : Identity
caller = record { authority_id = "authority-ab"; public_key = "ab"; sign = λ t. "signed" }

-- The machine of `ab`, which has `cd` on record, and the machine of `cd`, which has `ab`.
abbrev calling : Machine
calling = record machine {
  platform = platform;
  iso = written;
  identity_of = λ dir. some caller;
  active_trust = λ now peer dir. some (record trusted { fingerprint = "cd" });
}

abbrev called : Machine
called = record machine { platform = platform; iso = written }

abbrev dialing : RelayConnectionInput
dialing = record (role_input initiator) { dialed_peer = some "authority-cd" }

abbrev offer : RelayHandshakeInit
offer = offered calling dialing 10 fresh caller (record trusted { fingerprint = "cd" }) 60 (1 ∷ [])

abbrev reply : RelayHandshakeAccept
reply = accept_of called (role_input responder) here "cd" "0" trusted offer

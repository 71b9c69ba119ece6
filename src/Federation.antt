-- ===== src/Federation.antt =====
-- What the machines of a federation tell each other: roomsd/src/federation/codec.ts. `Date.parse` and
-- `isIP` of the platform are parameters; an instant is a number of milliseconds.
pub mod Patterns
pub mod Policy
pub mod Envelope
pub mod Enrollment
pub mod Trust
mod Tests
use wardroom.Base.{ℕ, String, Option}

-- `date` gives no instant for a text that is no date; `ip_version` is 4, 6 or 0.
pub record Platform : Type 0 where
  pub date : String → Option ℕ
  pub ip_version : String → ℕ

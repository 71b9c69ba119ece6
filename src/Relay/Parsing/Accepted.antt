-- ===== src/Relay/Parsing/Accepted.antt =====
-- Every kind of frame that is accepted is bounded: the cases of `parseRelayFrame` in
-- roomsd/src/federation/relay-protocol.ts.
use wardroom.Base.{String, Option}
use wardroom.Json.{Fields}
use wardroom.Federation.{Platform}
use wardroom.Relay.{RelayWireFrame}
use wardroom.Relay.Parsing.Held.{Holds}
use wardroom.Relay.Parsing.Bounds.{IsBoundedFrame}

module _ (platform : Platform) where
  -- The claim about a case of the switch.
  record Keeps (case : String × Option RelayWireFrame) : Type 0 where
    kept : Holds (IsBoundedFrame platform) case.1

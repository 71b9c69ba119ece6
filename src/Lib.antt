-- ===== src/Lib.antt =====
-- A verification library of Wardroom, a local-first coordination service for agents: the daemon
-- `roomsd`, which is the authority for sessions, channels, membership, order and history.
--
-- Parts and files (paths are from the root of the repository):
-- - Contracts: roomsd/src/domain/contracts.ts, the types.
-- - Store and its children Sessions, Channels, Memberships, Controls, Replies, Messages, Threads and
--   Registering: the operations of RoomsRepository in roomsd/src/storage/repository.ts. The SQLite
--   tables are lists of rows (the keys and references of roomsd/src/storage/migrations.ts that the
--   operations run into are written out), `write` is a transaction that commits or rolls back, and
--   the listeners of `onChange` are a log that survives a rollback. The lemmas about these
--   operations stand in Store/Feed (what is appended and heard), Counts, Leaving and Wf (members and
--   roles), Reading and Threading (replies and their roots), Retrying (deduplication keys),
--   Resolving (resolved threads) and Registering/Binding and Registering/Phantom (registrations).
-- - Application: roomsd/src/domain/application.ts, `RoomsApplication`, whose methods test the
--   caller's authority (Application/Access) and call the store. `Command` and `perform` are the
--   dispatch to its methods, and Application/History serves sequences of requests: commands,
--   messages, and threads to resolve or reopen. `registerSession` of the repository, which no method
--   of RoomsApplication calls, is not among them.
-- - Subscriptions: roomsd/src/api/subscriptions/subscription.ts, `Session`, one watcher that starts from
--   a snapshot. It hears the changes that the store commits; `play` runs its events in order.
-- - Json: the values that the two codecs below read. The parser of the text is not modelled.
-- - Federation: roomsd/src/federation/codec.ts, what machines tell each other: patterns and fields
--   (Federation/Patterns, Federation/Policy with `validateTransportPolicy`), envelopes with their
--   payloads (Federation/Envelope) and enrolment artifacts (Federation/Enrollment).
--   Federation/Trust: roomsd/src/federation/peer-trust.ts, the records of peers, what reads them, and
--   what changes them (Federation/Trust/Changing); the lemmas stand in Keeping and History.
-- - Relay: roomsd/src/federation/relay-protocol.ts, the frames between two connected machines: their
--   fields and validators (Relay/Fields, Bodies, Terminal, Handshake), `parseRelayFrame`
--   (Relay/Parsing) and `RelayFrameReader` (Relay/Reading).
-- - Relay/Connection: roomsd/src/federation/relay-connection.ts, one end of such a connection: what it
--   sends (Sending), how it starts (Starting), the handshake (Handshaking) and what it does with a
--   buffer that arrives (Receiving). The lemmas stand in Sequence, Backpressure, Authenticity and
--   Completing.
-- - Host: roomsd/src/runtime/host/codec.ts, the frames between the daemon and a runtime host and the
--   messages in them (Host/Messages); the lemmas on streams stand in Host/Stream.
-- - Lifecycle/Blueprints: roomsd/src/storage/blueprint-repository.ts, who may suspend or resume a
--   channel: claims, leases and fence tokens of a suspension (Suspending) and of its return
--   (Resuming), and the members that are left (Retaining), for the rows of one channel; the lemmas
--   stand in Leases, for sequences of calls (Leases/Calls). `markSuspending`, which nothing calls,
--   takes a suspension from whoever has it; the lemmas about a lease leave it out.
--
-- Conventions. Identifiers are native texts. An instant is a number of milliseconds where the source
-- keeps ISO text; `now()` is an argument of each operation (`Times`: its own reading and that of
-- `appendChange`), and so are the random ids. A cursor is its number; SQLite's bound of 2^63 rows is
-- left out. Payloads of changes are data in place of JSON, and an object that maps names to values
-- is the list of its entries. The operations are total functions. The loop of the host's decoder
-- (`Host.drain`) has one round of fuel more than its buffer has bytes, and each round takes five
-- bytes or stops; no other function has fuel.
--
-- In Federation and Relay a validator that throws gives `false` or `none`. `Platform` has
-- `Date.parse` and `isIP`, where instants are counted from the earliest date, so that they are
-- natural numbers; `Machine` has the decoder of UTF-8, the parser and the printer of JSON, the
-- keys and their signatures, the records of peers and the stream to the other end. A text that is
-- cut into lines is the list of its UTF-16 units, a buffer the list of its bytes, other texts are
-- native ones. A signed text is known by what it is made of (`Transcript`). `Outcome` tells a call
-- that returns from one that lets an exception out.
--
-- Not modelled: imports from the older store, paging and search of messages, federated admissions, the
-- exchange of enrolment artifacts, the parser of JSON (roomsd/src/federation/codec.ts), provider adapters
-- and the processes of hosts, profiles, provisioning and the command line: they are next, or input
-- and output.
pub mod Application
pub mod Base
pub mod Contracts
pub mod Store
pub mod Subscriptions
pub mod Host
pub mod Json
pub mod Lifecycle
pub mod Federation
pub mod Relay

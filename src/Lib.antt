-- ===== src/Lib.antt =====
-- AI Block: the runtime that carries commands of a server to the actor hosts that run invocations.
--
-- The parts and how they interact. The runtime server keeps a gateway with one connection per actor
-- and host instance (apps/runtime-server/src/modules/host-gateway). On the other side an actor host
-- keeps one connection to the server, a command processor and a supervisor of its backend
-- (apps/actor-host/src/server-connection, apps/actor-host/src/backend/supervisor.ts). They exchange
-- the messages of packages/runtime-contracts/src/host and actor: the host says hello, the server
-- acknowledges and commands, each side numbers its messages from 0 and acknowledges what it receives.
-- Beside them the server stores projects and the revisions of their definition bricks in SQLite
-- (apps/runtime-server/src/modules/project). Actor templates name exact revisions of such bricks
-- (apps/runtime-server/src/modules/actor): a template is validated against the bricks, stored as a
-- revision with two digests, and later validated again and compiled into a snapshot.
--
-- The files.
-- Prelude: library names, Boolean tests, maps, growing logs, and calls that return or throw.
-- Protocol: the payloads and the envelope, from packages/runtime-contracts/src/{host,actor,error}.
-- Gateway: host-gateway.ts and ports.ts. State holds the store of connections, which the code tells
--   apart by object identity, and the four maps into it; Write is `write`, Receive is `receive` and
--   `send`, Operations is `openConnection` and `sendCommand`, and the step relation of all calls. The
--   other modules prove: Moves splits each call into small changes, Indexed, Traffic, Receipts,
--   Commands and Lifecycle are about the maps, the messages sent, the answer to a message, the pending
--   commands and the life of a connection.
-- Supervisor: backend/supervisor.ts and adapter.ts. Operations has the methods and a function for each
--   callback of a promise, Steps lets them happen in any order, JsonValue is `sameJsonValue`.
-- ActorHost: server-connection.ts (Connection) and command-processor.ts (Commands, Redaction).
-- Project: values.ts, errors.ts and ports.ts (Values), the SQL statements and the transaction of
--   persistence.ts with the schema of v1.ts (Sql), its repositories, and application.ts (Application);
--   Transactions, Ensures, Revisions and Exact prove what a transaction, a revision and an exact
--   read leave.
--
-- Actor: modules/actor. Values and Canonical are values.ts; Report, Slots, Validation and
--   Candidate are validation.ts: its issues, the references of a template, the loop that resolves
--   them, and the checks of the bodies; Compiler is compiler.ts; Revisions, Unit and Application
--   are application.ts with ports.ts. Resolved, Sound, Checks and Validated build up what a valid
--   report promises; Provenance is about what a stored revision recorded, Compiled and Compiles
--   are about snapshots, Digests about stored revisions, and Service, Revising and Compiling about
--   the operations; Resolver is the adapter from the project module's exact read,
--   modules/project/infrastructure/actor-definition-brick-resolver.ts. A work of a transaction is
--   described by what it gives if it ends with a value (Gives), as the works of the project module
--   are (Ensures).
--
-- Contracts: packages/runtime-contracts/src/validation/decode.ts. Surrogates is its check of strings,
--   Pointer the path of an issue, and Issues what it makes of the validator's errors (Once: each once).
--
-- Conventions. Identifiers and timestamps are natural numbers, which the code only compares for
-- equality. What a port does is an argument: an answer, or a throw with an `Error` or another
-- value. The gateway and the host take the answers per connection and sequence number, which no
-- two writes share. A call of a transport may run the failure listener before it returns or
-- throws; only the function that unsubscribes that listener is taken to return, as that of the
-- WebSocket adapter does, which deletes the listener from a set. Promises are explicit: a pending
-- one is `none`, and a callback is a step that may come at any time after its promise has settled.
-- A body of a definition brick is its JSON text. A text that the code walks or orders is the list
-- of its UTF-16 code units. Loops over lists are structural; only the decimal digits of an index
-- are printed with fuel, one more than the index, which is enough since a tenth of a positive
-- number is smaller.
--
-- Not modelled: `decodeContract`, but for its strings, paths and issues, and the schemas (an input is
-- decoded or undecodable, and the check of an outgoing envelope is an answer), the sockets of the two
-- WebSocket adapters, the backends and their processes, the implementation of the actor module's unit
-- of work, which the repository does not have, the SHA-256 digests, the refusal of circular and sparse
-- values before a digest, the lists of bricks and of revisions, the opening of the database and its
-- mutex (transactions come one after the other). Sequence numbers have no upper bound here, while
-- they are doubles in the code. A fact sink or a transport that calls the gateway again from within
-- its own call, other than by the failure listener, is left out.
pub mod Prelude
pub mod Protocol
pub mod Gateway
pub mod Supervisor
pub mod ActorHost
pub mod Project
pub mod Actor
pub mod Contracts

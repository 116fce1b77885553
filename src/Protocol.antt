-- ===== src/Protocol.antt =====
-- The Runtime Contract data that the server and an ActorHost exchange:
-- packages/runtime-contracts/src/host/schemas.ts, actor/schemas.ts and error/error.ts.
-- Identifiers, timestamps and digests are opaque text that the code only compares: they are numbers
-- here. JSON parts that the code passes on unread are `Json`.
mod JsonData
mod Actor
mod Host
pub use JsonData.*
pub use Actor.*
pub use Host.*

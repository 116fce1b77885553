-- ===== src/ActorHost.antt =====
-- apps/actor-host/src/server-connection/: the connection to the runtime server and its commands.
pub mod State
pub mod Redaction
pub mod Connection
pub mod Commands
pub mod Steps
pub mod Writes
pub mod Runs
pub mod Orderly
pub mod Acknowledged
pub mod Supervision
pub mod Tests

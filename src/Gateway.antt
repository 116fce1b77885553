-- ===== src/Gateway.antt =====
-- apps/runtime-server/src/modules/host-gateway
pub mod Ports
pub mod State
pub mod Write
pub mod WriteCases
pub mod Receive
pub mod Operations
pub mod Moves
pub mod Indexed
pub mod Traffic
pub mod Receipts
pub mod Commands
pub mod Lifecycle
pub mod Tests

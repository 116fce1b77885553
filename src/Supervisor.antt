-- ===== src/Supervisor.antt =====
-- apps/actor-host/src/backend/supervisor.ts
pub mod JsonValue
pub mod State
pub mod Operations
pub mod Steps
pub mod Consistent
pub mod Stops
pub mod Quarantine
pub mod Outcomes
pub mod Tests

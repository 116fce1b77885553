-- ===== src/Project.antt =====
-- apps/runtime-server/src/modules/project: projects and their definition bricks on SQLite.
pub mod Values
pub mod Sql
pub mod Repositories
pub mod Application
pub mod Transactions
pub mod Ensures
pub mod Revisions
pub mod Exact
pub mod Tests

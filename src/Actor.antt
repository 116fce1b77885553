-- ===== src/Actor.antt =====
-- ActorTemplates: apps/runtime-server/src/modules/actor. A template names exact revisions of
-- Definition Bricks; it is validated, stored as a revision, and compiled into a snapshot.
pub mod Values
pub mod Canonical
pub mod Report
pub mod Slots
pub mod Validation
pub mod Candidate
pub mod Resolved
pub mod Provenance
pub mod Sound
pub mod Checks
pub mod Validated
pub mod Compiler
pub mod Compiled
pub mod Compiles
pub mod Revisions
pub mod Digests
pub mod Unit
pub mod Application
pub mod Service
pub mod Revising
pub mod Compiling
pub mod Resolver
mod Tests

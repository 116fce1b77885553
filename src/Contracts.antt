-- ===== src/Contracts.antt =====
-- packages/runtime-contracts/src/validation/decode.ts: the parts of `decodeContract` that are not the
-- third-party validator.
pub mod Surrogates
pub mod Pointer
pub mod Issues
mod Tests

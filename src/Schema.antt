-- ===== src/Schema.antt =====
-- The schema crate (crates/core-schema).
pub mod Model
pub mod Diff
pub mod Expression
pub mod Validation
pub mod Aggregates
pub mod Payload
mod Samples
mod Tests

-- ===== src/Domain.antt =====
-- The domain crate (crates/core-domain): value types and physical names.
pub mod Naming
pub mod Uid
pub mod Kind
pub mod Field
pub mod Publication
pub mod Token
mod Tests

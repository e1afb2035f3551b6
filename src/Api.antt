-- ===== src/Api.antt =====
-- The wire types of the REST interface (crates/api-types).
pub mod Query

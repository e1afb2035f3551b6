-- ===== src/Api/Query.antt =====
-- crates/api-types/src/query.rs: the query string of the content endpoints.
pub mod Key
pub mod Decode
pub mod Print
pub mod Tree
pub mod Model
pub mod Filter
pub mod Params
pub mod Pagination
mod Tests

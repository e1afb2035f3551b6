-- ===== src/Workflow.antt =====
-- The workflow crate (crates/workflow): the Open Workflow document, the order of its tasks and its
-- validation.
pub mod Model
pub mod Graph
pub mod Validation
pub mod Expression
mod Tests

-- ===== src/Services.antt =====
-- The workflow services (crates/services/src/workflow): the stored workflows, their executions and
-- the events that start them.
pub mod Database
pub mod Access
pub mod Workflows
pub mod Engine
pub mod Triggers
pub mod Requests
pub mod Keeps
pub mod Answers
mod Tests

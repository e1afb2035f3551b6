-- ===== src/Schema/Expression.antt =====
-- crates/core-schema/src/expression.rs: the language of computed fields.
pub mod Ast
pub mod Lexer
pub mod Parser

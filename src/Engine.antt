-- ===== src/Engine.antt =====
-- internal/engine: the executor's transactions, the parser, and the evaluation of expressions.
pub mod Session
pub mod Pattern
pub mod Like
pub mod Glob
pub mod Parser
pub mod Eval
pub mod Rows
mod Tests

-- ===== src/Engine/Eval.antt =====
-- internal/engine/executor/eval.go: the evaluation of expressions.
pub mod Machine
pub mod Values
pub mod Operators
pub mod Predicates
pub mod Expr
pub mod Logic
pub mod Comparisons
pub mod Membership
pub mod Ranges
pub mod Quotient
pub mod Division
mod Tests

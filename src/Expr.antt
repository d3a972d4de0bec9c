-- ===== src/Expr.antt =====
-- internal/runner/eval.go and context.go: the expression language of workflows.
pub mod Value
pub mod Context
pub mod Token
pub mod Builtin
pub mod Parser
pub mod Eval
pub mod Fuel
pub mod Lexing
pub mod Total
pub mod Build
pub mod Interpolation
pub mod Grammar

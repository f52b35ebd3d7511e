-- ===== src/Core.antt =====
-- The public attention language, src/cpuattn/core: expressions, transitions, row norms, tensors,
-- operators and the validation of calls.
pub mod Float
pub mod Expr
pub mod Transition
pub mod Tensor
pub mod RowNorm
pub mod Operator
pub mod Canonical
pub mod Validate

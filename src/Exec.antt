-- ===== src/Exec.antt =====
-- ferrite-exec: the evaluation of expressions.
pub mod Like
pub mod Compare
pub mod Arithmetic
pub mod Eval
pub mod Conform
pub mod Session
pub mod Join
pub mod Aggregate
pub mod Order
pub mod Stream
pub mod Writes
pub mod Statement
pub mod Subquery
pub mod Samples
mod Examples

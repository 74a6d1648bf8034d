-- ===== src/Planner.antt =====
-- ferrite-planner: logical plans, their rewriting, and the binding of names to positions.
pub mod Expr
pub mod Named
pub mod Scope
pub mod Logical
pub mod Rules
pub mod Bind
pub mod Infer
pub mod Physical

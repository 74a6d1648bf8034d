-- ===== src/Proc.antt =====
-- ferrite-proc: what triggers and procedures may know, and the registry that runs them.
pub mod Context
pub mod Registry

-- ===== src/Common.antt =====
-- ferrite-common: the types that the crates share.
pub mod Value
pub mod Error
pub mod Txn
pub mod Storage
pub mod Schema
pub mod Identity

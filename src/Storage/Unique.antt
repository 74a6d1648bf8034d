-- ===== src/Storage/Unique.antt =====
-- ferrite-storage/src/unique.rs: the negative cache of the keys that a unique constraint checks.
pub mod Filter
pub mod KeyFilters
pub mod Superset
pub mod Enforce
mod Examples

-- ===== src/Storage.antt =====
-- ferrite-storage.
pub mod Codec
pub mod Version
pub mod Crc
pub mod Journal
pub mod Page
pub mod Pager
pub mod Btree
pub mod Clog
pub mod Transactions
pub mod Mvcc
pub mod Unique

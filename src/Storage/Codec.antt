-- ===== src/Storage/Codec.antt =====
-- ferrite-storage/src/codec.rs: the on-disk form of a row, with the byte reader and writer.
-- A reader is the part of its slice from `pos` on, and a writer is the bytes written so far.
pub mod Reader
pub mod Text
pub mod Writer
pub mod Rows

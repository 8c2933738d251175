-- ===== src/Storage.antt =====
-- src/storage/src: tables of rows with frequencies and versions, over a key-value store.
pub mod Table
pub mod IndexIter
pub mod Writer
pub mod Merge

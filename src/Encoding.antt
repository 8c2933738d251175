-- ===== src/Encoding.antt =====
-- src/data/src: the byte formats in which datums are stored and sorted.
pub mod SortOrder
pub mod Bytes
pub mod Unsigned
pub mod Signed
pub mod Chunks
pub mod Datums

-- ===== src/Data.antt =====
-- src/data/src: the in-memory values.
pub mod Datum
pub mod DataType
pub mod TupleIter

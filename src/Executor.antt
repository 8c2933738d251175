-- ===== src/Executor.antt =====
-- src/executor/src: running a query.
pub mod Scalar
pub mod Aggregate
pub mod PointInTime

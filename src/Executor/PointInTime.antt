-- ===== src/Executor/PointInTime.antt =====
-- src/executor/src/point_in_time: iterators over the rows of a query at one time.
pub mod NegateFreq
pub mod Filter
pub mod Project
pub mod UnionAll
pub mod Limit
pub mod HashJoin
pub mod Sort
pub mod SortedGroup
pub mod HashGroup
pub mod Sources

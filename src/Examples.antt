-- ===== src/Examples.antt =====
-- Concrete inputs: the theorems at values that meet their hypotheses, and test runs.
mod Sample
mod Encoding
mod Storage
mod Writes
mod Planner
mod Aggregate
mod Executor
mod Streams
mod Server
mod Registry
mod Collapse

-- ===== src/Planner.antt =====
-- src/planner/src: rewriting a query.
pub mod Expr
pub mod Fold
pub mod CollapseProjects

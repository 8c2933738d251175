-- ===== src/Ast.antt =====
-- src/ast/src: the tree of a query.
pub mod Expr
pub mod Logical

-- ===== src/Planner/CollapseProjects.antt =====
-- src/planner/src/p2_optimization/collapse_projects.rs: a project on a project becomes one.
pub mod Invariant
pub mod Meaning
pub mod Rows
use incresql.Prelude.{Bool, Option, none, some, List, [], ◌∷◌, map, ◌>>=◌}
use incresql.Data.Datum.{Externals}
use incresql.Functions.{Functions}
use incresql.Ast.Expr.{Expression, NamedExpression}
use incresql.Ast.Logical.{
  LogicalOperator, Operators, single, project, group_by, filter, join, sort, limit, values,
  table_alias, union_all, table_reference, resolved_table, table_insert, negate_freq, file_scan,
  no_operators, operator,
}
use incresql.Planner.Expr.{inline_expression}

module _ {x : Externals} {fs : Functions x} where
  -- The loop over the outer expressions; `none` is the panic on a column that the inner project lacks.
  unfoldable pub inline_named :
      List (Expression fs) → List (NamedExpression fs) → Option (List (NamedExpression fs))
  inline_named exprs [] = some []
  inline_named exprs (e ∷ outer) = do
    expression ← inline_expression exprs e.expression
    others ← inline_named exprs outer
    some (record { alias = e.alias; expression = expression } ∷ others)

  -- A project on a source whose projects are collapsed.
  unfoldable pub collapse_into :
      Bool → List (NamedExpression fs) → LogicalOperator fs → Option (LogicalOperator fs)
  collapse_into distinct outer (project inner_distinct inner source) = do
    exprs ← inline_named (map (λ e. e.expression) inner) outer
    some (project distinct exprs source)
  collapse_into distinct outer source = some (project distinct outer source)

  unfoldable mutual
    pub collapse_projects : LogicalOperator fs → Option (LogicalOperator fs)
    collapse_projects single = some single
    collapse_projects (project distinct outer source) = do
      source' ← collapse_projects source
      collapse_into distinct outer source'
    collapse_projects (group_by expressions keys source) = do
      source' ← collapse_projects source
      some (group_by expressions keys source')
    collapse_projects (filter predicate source) = do
      source' ← collapse_projects source
      some (filter predicate source')
    collapse_projects (join left right on kind) = do
      left' ← collapse_projects left
      right' ← collapse_projects right
      some (join left' right' on kind)
    collapse_projects (sort expressions source) = do
      source' ← collapse_projects source
      some (sort expressions source')
    collapse_projects (limit offset count source) = do
      source' ← collapse_projects source
      some (limit offset count source')
    collapse_projects (values fields data_rows) = some (values fields data_rows)
    collapse_projects (table_alias alias source) = do
      source' ← collapse_projects source
      some (table_alias alias source')
    collapse_projects (union_all sources) = do
      sources' ← collapse_all sources
      some (union_all sources')
    collapse_projects (table_reference database table) = some (table_reference database table)
    collapse_projects (resolved_table columns table) = some (resolved_table columns table)
    collapse_projects (table_insert table source) = do
      table' ← collapse_projects table
      source' ← collapse_projects source
      some (table_insert table' source')
    collapse_projects (negate_freq source) = do
      source' ← collapse_projects source
      some (negate_freq source')
    collapse_projects (file_scan directory delimiter) = some (file_scan directory delimiter)

    pub collapse_all : Operators fs → Option (Operators fs)
    collapse_all no_operators = some no_operators
    collapse_all (operator source sources) = do
      source' ← collapse_projects source
      sources' ← collapse_all sources
      some (operator source' sources')

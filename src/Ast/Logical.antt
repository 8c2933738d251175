-- ===== src/Ast/Logical.antt =====
-- src/ast/src/rel/logical.rs: the operators of a query. The lists of children and expressions stand
-- for the iterators that borrow them.
use incresql.Prelude.{ℕ, Bool, Option, List, []}
use incresql.Prelude.Int.{ℤ}
use incresql.Data.Datum.{Externals}
use incresql.Data.DataType.{DataType}
use incresql.Functions.{Functions}
use incresql.Storage.Table.{Table}
use incresql.Ast.Expr.{Expression, NamedExpression, SortExpression}

pub data JoinType : Type 0 where
  inner left_outer : JoinType

module _ {x : Externals} (fs : Functions x) where
  mutual
    pub data LogicalOperator : Type 0 where
      single : LogicalOperator
      project : Bool → List (NamedExpression fs) → LogicalOperator → LogicalOperator
      group_by :
          List (NamedExpression fs) → List (Expression fs) → LogicalOperator → LogicalOperator
      filter : Expression fs → LogicalOperator → LogicalOperator
      join : LogicalOperator → LogicalOperator → Expression fs → JoinType → LogicalOperator
      sort : List (SortExpression fs) → LogicalOperator → LogicalOperator
      limit : ℤ → ℤ → LogicalOperator → LogicalOperator
      values : List (DataType × List ℕ) → List (List (Expression fs)) → LogicalOperator
      table_alias : List ℕ → LogicalOperator → LogicalOperator
      union_all : Operators → LogicalOperator
      table_reference : Option (List ℕ) → List ℕ → LogicalOperator
      resolved_table : List (List ℕ × DataType) → Table → LogicalOperator
      table_insert : LogicalOperator → LogicalOperator → LogicalOperator
      negate_freq : LogicalOperator → LogicalOperator
      file_scan : List ℕ → ℕ → LogicalOperator

    pub data Operators : Type 0 where
      no_operators : Operators
      operator : LogicalOperator → Operators → Operators

module _ {x : Externals} {fs : Functions x} where
  -- The expressions that an operator names its columns by.
  unfoldable pub named_expressions : LogicalOperator fs → List (NamedExpression fs)
  named_expressions (LogicalOperator.project distinct expressions source) = expressions
  named_expressions (LogicalOperator.group_by expressions keys source) = expressions
  named_expressions other = []

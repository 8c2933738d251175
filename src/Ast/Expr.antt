-- ===== src/Ast/Expr.antt =====
-- src/ast/src/expr.rs: expressions.
use incresql.Prelude.{ℕ, Bool, Option, List}
use incresql.Data.Datum.{Externals, Datum}
use incresql.Data.DataType.{DataType}
use incresql.Encoding.SortOrder.{SortOrder}
use incresql.Functions.{Functions, FunctionSignature}

module _ {x : Externals} (fs : Functions x) where
  mutual
    -- A function call and a cast stand for the parser's trees, the compiled ones for what the planner
    -- makes of them. (The buffers for intermediate results are left out: they are overwritten before
    -- they are read.)
    pub data Expression : Type 0 where
      constant : Datum x → DataType → Expression
      function_call : List ℕ → Args → Expression
      cast : Expression → DataType → Expression
      compiled_function_call : fs.Function → FunctionSignature → Args → Expression
      compiled_aggregate : fs.AggregateFunction → FunctionSignature → Args → Expression
      column_reference : Option (List ℕ) → List ℕ → Bool → Expression
      compiled_column_reference : ℕ → DataType → Expression

    pub data Args : Type 0 where
      no_args : Args
      arg : Expression → Args → Args

  pub record NamedExpression : Type 0 where
    pub alias : Option (List ℕ)
    pub expression : Expression

  pub record SortExpression : Type 0 where
    pub ordering : SortOrder
    pub expression : Expression

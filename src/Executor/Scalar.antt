-- ===== src/Executor/Scalar.antt =====
-- src/executor/src/scalar_expression.rs: the value of an expression on a row.
use incresql.Prelude.{Option, none, some, List, [], ◌∷◌, get_elem?, ◌>>=◌}
use incresql.Data.Datum.{Externals, Datum, ref_clone}
use incresql.Functions.{Functions}
use incresql.Ast.Expr.{
  Expression, constant, function_call, cast, compiled_function_call, compiled_aggregate,
  column_reference, compiled_column_reference, Args, no_args, arg,
}

-- `none` is a panic: a column that the row lacks, an expression that is not compiled, an aggregate, or
-- a panic of the function.
module _ {x : Externals} (fs : Functions x) where
  unfoldable mutual
    pub eval_scalar : List (Datum x) → Expression fs → Option (Datum x)
    eval_scalar row (constant literal ty) = some (ref_clone literal)
    eval_scalar row (compiled_function_call function signature args) = do
      buf ← eval_scalar_row row args
      fs.execute function signature buf
    eval_scalar row (compiled_column_reference offset ty) = do
      datum ← get_elem? row offset
      some (ref_clone datum)
    eval_scalar row (function_call name args) = none
    eval_scalar row (cast expr ty) = none
    eval_scalar row (column_reference qualifier alias star) = none
    eval_scalar row (compiled_aggregate function signature args) = none

    pub eval_scalar_row : List (Datum x) → Args fs → Option (List (Datum x))
    eval_scalar_row source no_args = some []
    eval_scalar_row source (arg expr args) = do
      datum ← eval_scalar source expr
      target ← eval_scalar_row source args
      some (datum ∷ target)

-- ===== src/Planner/Fold.antt =====
-- src/planner/src/p2_optimization/fold_constants.rs: running functions of constants when the query is planned.
pub mod Meaning
use incresql.Prelude.{ℕ, Option, none, some, List, [], ◌∷◌, ◌>>=◌}
use incresql.Data.Datum.{Externals, Datum, into_static, ref_clone}
use incresql.Functions.{Functions, FunctionSignature}
use incresql.Ast.Expr.{
  Expression, constant, function_call, cast, compiled_function_call, compiled_aggregate,
  column_reference, compiled_column_reference, Args, no_args, arg,
}

abbrev pub cons_input : {A : Type 0} → A → Option (List A) → Option (List A)
cons_input value none = none
cons_input value (some input) = some (value ∷ input)

module _ {x : Externals} {fs : Functions x} where
  -- The input of the function, if all its arguments are constants.
  unfoldable pub function_input : Args fs → Option (List (Datum x))
  function_input no_args = some []
  function_input (arg (constant value ty) args) = cons_input (ref_clone value) (function_input args)
  function_input (arg other args) = none

  -- What becomes of a call whose arguments are folded.
  unfoldable pub fold_call :
      fs.Function → FunctionSignature → Args fs → Option (List (Datum x)) → Option (Expression fs)
  fold_call function signature args none = some (compiled_function_call function signature args)
  fold_call function signature args (some input) = do
    result ← fs.execute function signature input
    some (constant (into_static result) signature.ret)

  -- `none` is a panic: of a function, or at an expression that is not compiled.
  unfoldable mutual
    pub fold_constants_for_expr : Expression fs → Option (Expression fs)
    fold_constants_for_expr (compiled_function_call function signature args) = do
      args' ← fold_constants_for_args args
      fold_call function signature args' (function_input args')
    fold_constants_for_expr (compiled_aggregate function signature args) = do
      args' ← fold_constants_for_args args
      some (compiled_aggregate function signature args')
    fold_constants_for_expr (compiled_column_reference offset ty) =
        some (compiled_column_reference offset ty)
    fold_constants_for_expr (constant value ty) = some (constant value ty)
    fold_constants_for_expr (cast expr ty) = none
    fold_constants_for_expr (function_call name args) = none
    fold_constants_for_expr (column_reference qualifier alias star) = none

    fold_constants_for_args : Args fs → Option (Args fs)
    fold_constants_for_args no_args = some no_args
    fold_constants_for_args (arg expr args) = do
      expr' ← fold_constants_for_expr expr
      args' ← fold_constants_for_args args
      some (arg expr' args')

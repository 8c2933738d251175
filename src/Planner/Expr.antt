-- ===== src/Planner/Expr.antt =====
-- src/planner/src/utils/expr.rs: what the planner does with expressions.
pub mod Columns
pub mod Sides
pub mod Inline
pub mod Truth
pub mod Predicates
use incresql.Prelude.{
  ℕ, ◌≡◌, Bool, true, false, not, ◌&&◌, Option, none, some, List, [], ◌∷◌, ◌++◌, get_elem?,
  if◌then◌else◌, ◌>>=◌,
}
use incresql.Prelude.Int.{ℤ, ◌+ℤ◌}
use incresql.Data.Datum.{Externals, Datum, boolean, sql_eq, bytes_eq}
use incresql.Data.DataType.{DataType, boolean_type, is_boolean_type}
use incresql.Encoding.Signed.{as_i64, as_u64}
use incresql.Functions.{Functions, FunctionSignature}
use incresql.Ast.Expr.{
  Expression, constant, function_call, cast, compiled_function_call, compiled_aggregate,
  column_reference, compiled_column_reference, Args, no_args, arg,
}
use incresql.Storage.Writer.{wrap_i64}
use Prim.Native.Nat.{min, max}

-- `(offset as isize + amount) as usize` on a 64-bit machine.
abbrev pub moved : ℕ → ℤ → ℕ
moved offset amount = as_u64 (wrap_i64 (as_i64 offset +ℤ amount))

-- One step of the fold over the children.
abbrev pub widen : Option (ℕ × ℕ) → Option (ℕ × ℕ) → Option (ℕ × ℕ)
widen a none = a
widen none (some b) = some b
widen (some a) (some b) = some (min a.0 b.0, max a.1 b.1)

-- "and".
abbrev pub and_name : List ℕ
and_name = 97 ∷ 110 ∷ 100 ∷ []

module _ {x : Externals} {fs : Functions x} where
  unfoldable mutual
    pub contains_aggregate : Expression fs → Bool
    contains_aggregate (compiled_aggregate function signature args) = true
    contains_aggregate (compiled_function_call function signature args) = any_aggregate args
    contains_aggregate (function_call name args) = any_aggregate args
    contains_aggregate (cast expr ty) = contains_aggregate expr
    contains_aggregate (constant literal ty) = false
    contains_aggregate (column_reference qualifier alias star) = false
    contains_aggregate (compiled_column_reference offset ty) = false

    any_aggregate : Args fs → Bool
    any_aggregate no_args = false
    any_aggregate (arg expr args) = if contains_aggregate expr then true else any_aggregate args

  unfoldable mutual
    pub move_column_references : ℤ → Expression fs → Expression fs
    move_column_references amount (compiled_column_reference offset ty) =
        compiled_column_reference (moved offset amount) ty
    move_column_references amount (compiled_function_call function signature args) =
        compiled_function_call function signature (move_args amount args)
    move_column_references amount (compiled_aggregate function signature args) =
        compiled_aggregate function signature (move_args amount args)
    move_column_references amount (function_call name args) =
        function_call name (move_args amount args)
    move_column_references amount (cast expr ty) = cast (move_column_references amount expr) ty
    move_column_references amount (constant literal ty) = constant literal ty
    move_column_references amount (column_reference qualifier alias star) =
        column_reference qualifier alias star

    move_args : ℤ → Args fs → Args fs
    move_args amount no_args = no_args
    move_args amount (arg expr args) =
        arg (move_column_references amount expr) (move_args amount args)

  -- `none` is a reference past the end of the source's expressions.
  unfoldable mutual
    pub inline_expression : List (Expression fs) → Expression fs → Option (Expression fs)
    inline_expression source_expressions (compiled_column_reference offset ty) =
        get_elem? source_expressions offset
    inline_expression source_expressions (compiled_function_call function signature args) = do
      args' ← inline_args source_expressions args
      some (compiled_function_call function signature args')
    inline_expression source_expressions (compiled_aggregate function signature args) = do
      args' ← inline_args source_expressions args
      some (compiled_aggregate function signature args')
    inline_expression source_expressions (function_call name args) = do
      args' ← inline_args source_expressions args
      some (function_call name args')
    inline_expression source_expressions (cast expr ty) = do
      expr' ← inline_expression source_expressions expr
      some (cast expr' ty)
    inline_expression source_expressions (constant literal ty) = some (constant literal ty)
    inline_expression source_expressions (column_reference qualifier alias star) =
        some (column_reference qualifier alias star)

    inline_args : List (Expression fs) → Args fs → Option (Args fs)
    inline_args source_expressions no_args = some no_args
    inline_args source_expressions (arg expr args) = do
      expr' ← inline_expression source_expressions expr
      args' ← inline_args source_expressions args
      some (arg expr' args')

  unfoldable mutual
    pub min_max_column_deps_for_expression : Expression fs → Option (ℕ × ℕ)
    min_max_column_deps_for_expression (compiled_column_reference offset ty) = some (offset, offset)
    min_max_column_deps_for_expression (compiled_function_call function signature args) =
        min_max_column_deps none args
    min_max_column_deps_for_expression (compiled_aggregate function signature args) =
        min_max_column_deps none args
    min_max_column_deps_for_expression (function_call name args) = min_max_column_deps none args
    min_max_column_deps_for_expression (cast expr ty) = min_max_column_deps_for_expression expr
    min_max_column_deps_for_expression (constant literal ty) = none
    min_max_column_deps_for_expression (column_reference qualifier alias star) = none

    min_max_column_deps : Option (ℕ × ℕ) → Args fs → Option (ℕ × ℕ)
    min_max_column_deps a no_args = a
    min_max_column_deps a (arg expr args) =
        min_max_column_deps (widen a (min_max_column_deps_for_expression expr)) args

  -- `Expression::from(true)`, and the test against it: a constant of the boolean type whose datum is
  -- equal to true.
  abbrev pub true_expression : Expression fs
  true_expression = constant (boolean true) boolean_type

  unfoldable pub is_true_expression : Expression fs → Bool
  is_true_expression (constant literal ty) =
      sql_eq literal (boolean true) true && is_boolean_type ty
  is_true_expression other = false

  -- `filter(|e| e != &Expression::from(true))`.
  unfoldable pub without_true : List (Expression fs) → List (Expression fs)
  without_true [] = []
  without_true (e ∷ es) =
      let rest = without_true es in if is_true_expression e then rest else e ∷ rest

  -- A call of "and" is split, compiled or not.
  unfoldable mutual
    pub decompose_predicate : Expression fs → List (Expression fs)
    decompose_predicate (compiled_function_call function signature args) =
        let parts = decompose_args args in
        without_true (
          if bytes_eq signature.name and_name
          then parts
          else compiled_function_call function signature args ∷ [])
    decompose_predicate (function_call name args) =
        let parts = decompose_args args in
        without_true (if bytes_eq name and_name then parts else function_call name args ∷ [])
    decompose_predicate (constant literal ty) = without_true (constant literal ty ∷ [])
    decompose_predicate (cast expr ty) = without_true (cast expr ty ∷ [])
    decompose_predicate (compiled_aggregate function signature args) =
        without_true (compiled_aggregate function signature args ∷ [])
    decompose_predicate (column_reference qualifier alias star) =
        without_true (column_reference qualifier alias star ∷ [])
    decompose_predicate (compiled_column_reference offset ty) =
        without_true (compiled_column_reference offset ty ∷ [])

    decompose_args : Args fs → List (Expression fs)
    decompose_args no_args = []
    decompose_args (arg expr args) = decompose_predicate expr ++ decompose_args args

  -- The signature and the function are what the registry has for "and" of two booleans.
  module _ (and_function : fs.Function) (and_function_sig : FunctionSignature) where
    abbrev pub and_call : Expression fs → Expression fs → Expression fs
    and_call a b = compiled_function_call and_function and_function_sig (arg a (arg b no_args))

    unfoldable pub fold_and : Expression fs → List (Expression fs) → Expression fs
    fold_and first [] = first
    fold_and first (b ∷ predicates) = fold_and (and_call first b) predicates

    unfoldable pub combine_predicates : List (Expression fs) → Expression fs
    combine_predicates [] = true_expression
    combine_predicates (first ∷ predicates) = fold_and first predicates

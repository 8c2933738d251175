-- ===== src/Executor/Aggregate.antt =====
-- src/executor/src/aggregate_expression.rs.
pub mod Slices
pub mod Within
pub mod Rows
pub mod Value
use incresql.Prelude.{
  ℕ, zero, suc, ◌+◌, Bool, Option, none, some, List, [], ◌∷◌, ◌++◌, ◌>>=◌, length, take, drop, leb,
  if◌then◌else◌, get_elem?, replicate,
}
use incresql.Prelude.Int.{ℤ}
use incresql.Data.Datum.{Externals, Datum, null, is_null, as_static, ref_clone}
use incresql.Data.DataType.{DataType}
use incresql.Data.TupleIter.{Row}
use incresql.Functions.{Functions, FunctionSignature}
use incresql.Functions.Aggregate.Interface.{Aggregates, on_first, read_first}
use incresql.Ast.Expr.{
  Expression, constant, function_call, cast, compiled_function_call, compiled_aggregate,
  column_reference, compiled_column_reference, Args, no_args, arg,
}
use incresql.Executor.Scalar.{eval_scalar_row}

-- `&state[n..]`, which panics past the end.
abbrev pub slice_from {ℓ} : {A : Type ℓ} → ℕ → List A → Option (List A)
slice_from n state = if leb n (length state) then some (drop n state) else none

module _ {x : Externals} (fs : Functions x) where
  mutual
    -- (The buffers for intermediate results are left out: they are overwritten before they are read.)
    pub data AggregateExpression : Type 0 where
      agg_constant : Datum x → DataType → AggregateExpression
      agg_column_reference : ℕ → DataType → AggregateExpression
      scalar_function_call : fs.Function → FunctionSignature → AggregateArgs → AggregateExpression
      agg_compiled : fs.AggregateFunction → FunctionSignature → Args fs → AggregateExpression

    pub data AggregateArgs : Type 0 where
      no_exprs : AggregateArgs
      expr_arg : AggregateExpression → AggregateArgs → AggregateArgs

  -- `AggregateExpression::from`: an expression that is not compiled is a panic.
  unfoldable mutual
    pub from_expression : Expression fs → Option AggregateExpression
    from_expression (constant datum ty) = some (agg_constant (as_static datum) ty)
    from_expression (compiled_aggregate function signature args) =
        some (agg_compiled function signature args)
    from_expression (compiled_function_call function signature args) = do
      exprs ← from_args args
      some (scalar_function_call function signature exprs)
    from_expression (compiled_column_reference offset ty) = some (agg_column_reference offset ty)
    from_expression (function_call name args) = none
    from_expression (column_reference qualifier alias star) = none
    from_expression (cast expr ty) = none

    pub from_args : Args fs → Option AggregateArgs
    from_args no_args = some no_exprs
    from_args (arg expr args) = do
      e ← from_expression expr
      es ← from_args args
      some (expr_arg e es)

module _ {x : Externals} where
  -- A step of a loop over sub-expressions: the first works on the slice from here on, the others on
  -- the slice behind its cells.
  abbrev pub then_rest :
      ℕ
      → (List (Datum x) → Option (List (Datum x)))
      → (List (Datum x) → Option (List (Datum x)))
      → List (Datum x)
      → Option (List (Datum x))
  then_rest n first others state = do
    after ← first state
    tail ← slice_from n after
    rest ← others tail
    some (take n after ++ rest)

  -- A column keeps the first value that is not null.
  abbrev pub apply_column : ℕ → List (Datum x) → List (Datum x) → Option (List (Datum x))
  apply_column offset row = on_first (λ d.
      let copied = (do datum ← get_elem? row offset; some (as_static datum)) in
      if is_null d then copied else some d)

module _ {x : Externals} {fs : Functions x} (aggregates : Aggregates x fs.AggregateFunction) where
  unfoldable mutual
    pub state_len : AggregateExpression fs → ℕ
    state_len (scalar_function_call function signature args) = state_len_args args
    state_len (agg_compiled function signature args) = aggregates.state_size function
    state_len (agg_column_reference offset ty) = 1
    state_len (agg_constant datum ty) = 0

    pub state_len_args : AggregateArgs fs → ℕ
    state_len_args no_exprs = 0
    state_len_args (expr_arg e es) = state_len e + state_len_args es

  unfoldable mutual
    pub reset : AggregateExpression fs → List (Datum x) → Option (List (Datum x))
    reset (scalar_function_call function signature args) = reset_args args
    reset (agg_compiled function signature args) = aggregates.initialize function
    reset (agg_constant datum ty) = some
    reset (agg_column_reference offset ty) = on_first (λ d. some null)

    pub reset_args : AggregateArgs fs → List (Datum x) → Option (List (Datum x))
    reset_args no_exprs = some
    reset_args (expr_arg e es) = then_rest (state_len e) (reset e) (reset_args es)

  unfoldable mutual
    pub apply : Row x → AggregateExpression fs → List (Datum x) → Option (List (Datum x))
    apply row (scalar_function_call function signature args) = apply_args row args
    apply row (agg_compiled function signature args) = λ state.
        eval_scalar_row fs row.0 args
        >>= (λ buf. aggregates.apply function signature buf row.1 state)
    apply row (agg_column_reference offset ty) = apply_column offset row.0
    apply row (agg_constant datum ty) = some

    pub apply_args : Row x → AggregateArgs fs → List (Datum x) → Option (List (Datum x))
    apply_args row no_exprs = some
    apply_args row (expr_arg e es) = then_rest (state_len e) (apply row e) (apply_args row es)

  unfoldable mutual
    pub finalize : AggregateExpression fs → List (Datum x) → Option (Datum x)
    finalize (agg_constant datum ty) state = some (ref_clone datum)
    finalize (scalar_function_call function signature args) state = do
      buf ← finalize_args args state
      fs.execute function signature buf
    finalize (agg_compiled function signature args) state =
        aggregates.finalize function signature state
    finalize (agg_column_reference offset ty) state = read_first state

    pub finalize_args : AggregateArgs fs → List (Datum x) → Option (List (Datum x))
    finalize_args no_exprs state = some []
    finalize_args (expr_arg e es) state = do
      value ← finalize e state
      tail ← slice_from (state_len e) state
      values ← finalize_args es tail
      some (value ∷ values)

  -- `initialize`: a state of nulls, reset.
  unfoldable pub initialize : AggregateArgs fs → Option (List (Datum x))
  initialize es = reset_args es (replicate (state_len_args es) null)

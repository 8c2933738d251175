-- ===== src/Executor/Aggregate/Value.antt =====
-- src/executor/src/aggregate_expression.rs: what an aggregate expression computes of a group of rows.
use incresql.Prelude.{
  ◌≡◌, refl, sym, ap, ap₂, ◌∙◌, Option, some, List, [], ◌∷◌, ◌++◌, ◌>>=◌, bind_assoc, replicate-add,
  replicate, length-replicate,
}
use incresql.Data.Datum.{Externals, Datum, null, ref_clone}
use incresql.Data.TupleIter.{Row}
use incresql.Functions.{Functions, FunctionSignature}
use incresql.Functions.Aggregate.Interface.{Aggregates}
use incresql.Executor.Scalar.{eval_scalar_row}
use incresql.Executor.Aggregate.{
  AggregateExpression, agg_constant, agg_column_reference, scalar_function_call, agg_compiled,
  AggregateArgs, no_exprs, expr_arg, state_len, state_len_args, reset, reset_args, apply,
  apply_args, finalize, finalize_args, initialize,
}
use incresql.Executor.Aggregate.Slices.{both, both-bind, then_rest-parts}
use incresql.Executor.Aggregate.Rows.{
  apply_rows, apply_rows_none, apply_rows-length, apply_rows-parts, first_value,
  apply_column-first_value,
}
use incresql.Executor.Aggregate.Within.{
  reset-StaysWithin, apply-StaysWithin, finalize_args-parts, finalize-ReadsWithin,
}

module _ {x : Externals} {fs : Functions x} (aggregates : Aggregates x fs.AggregateFunction) where
  -- The slice of an expression alone: reset, one step for each row, and the result.
  unfoldable pub run : AggregateExpression fs → List (Row x) → Option (Datum x)
  run e rows = do
    s ← reset aggregates e (replicate (state_len aggregates e) null)
    s' ← apply_rows (λ row. apply aggregates row e) rows s
    finalize aggregates e s'

  unfoldable pub run_args : AggregateArgs fs → List (Row x) → Option (List (Datum x))
  run_args es rows = do
    s ← initialize aggregates es
    s' ← apply_rows (λ row. apply_args aggregates row es) rows s
    finalize_args aggregates es s'

  -- The value of an expression on a group: of a constant, of a column the first that is not null, of a
  -- function its result on the values of the arguments, and of an aggregate function what a state of
  -- its own gives after every row.
  unfoldable mutual
    pub group_value : AggregateExpression fs → List (Row x) → Option (Datum x)
    group_value (agg_constant datum ty) rows = some (ref_clone datum)
    group_value (agg_column_reference offset ty) rows = do
      datum ← first_value offset rows
      some (ref_clone datum)
    group_value (scalar_function_call function signature args) rows = do
      buf ← group_values args rows
      fs.execute function signature buf
    group_value (agg_compiled function signature args) rows = do
      s ← aggregates.initialize function (replicate (aggregates.state_size function) null)
      s' ←
          apply_rows
            (λ row state.
              eval_scalar_row fs row.0 args
              >>= (λ buf. aggregates.apply function signature buf row.1 state))
            rows s
      aggregates.finalize function signature s'

    pub group_values : AggregateArgs fs → List (Row x) → Option (List (Datum x))
    group_values no_exprs rows = some []
    group_values (expr_arg e es) rows =
        both (λ v vs. v ∷ vs) (group_value e rows) (group_values es rows)

  run_args-cons :
      (e : AggregateExpression fs) (es : AggregateArgs fs) (rows : List (Row x))
      → run_args (expr_arg e es) rows ≡ both (λ v vs. v ∷ vs) (run e rows) (run_args es rows)
  unfolding run run_args initialize reset state_len apply finalize
  run_args-cons e es rows =
      let n = state_len aggregates e in
      let m = state_len_args aggregates es in
      rw
        (
          replicate-add {A = Datum x} n m null,
          then_rest-parts n m (reset aggregates e) (reset_args aggregates es)
              (reset-StaysWithin aggregates e) (replicate n null) (replicate m null)
              (length-replicate n null),
        )
        (both-bind ◌++◌ (λ v vs. v ∷ vs) (reset aggregates e (replicate n null))
          (reset_args aggregates es (replicate m null)) _ _ _
          (λ s t hs ht.
            let ls =
              (reset-StaysWithin aggregates e).1 (replicate n null) s (length-replicate n null)
                hs in
            ap (λ o. o >>= finalize_args aggregates (expr_arg e es))
              (apply_rows-parts n m (λ row. apply aggregates row e)
                (λ row. apply_args aggregates row es) (λ row. apply-StaysWithin aggregates row e)
                rows s t ls)
            ∙ both-bind ◌++◌ (λ v vs. v ∷ vs) (apply_rows (λ row. apply aggregates row e) rows s)
                (apply_rows (λ row. apply_args aggregates row es) rows t) _ _ _
                (λ s' t' hs' ht'.
                  finalize_args-parts aggregates e es s' t' (finalize-ReadsWithin aggregates e) (
                    apply_rows-length n (λ row. apply aggregates row e)
                      (λ row. apply-StaysWithin aggregates row e) rows s s' ls hs'))))

  run_call :
      (function : fs.Function) (signature : FunctionSignature) (args : AggregateArgs fs)
      (rows : List (Row x))
      → run (scalar_function_call function signature args) rows
        ≡ (run_args args rows >>= fs.execute function signature)
  unfolding run run_args initialize reset state_len apply finalize
  run_call function signature args rows = sym (
      bind_assoc (reset_args aggregates args (replicate (state_len_args aggregates args) null)) _ _
      ∙ ap (λ k. reset_args aggregates args (replicate (state_len_args aggregates args) null) >>= k)
          (λ i s.
            bind_assoc (apply_rows (λ row. apply_args aggregates row args) rows s)
              (finalize_args aggregates args) (fs.execute function signature) i))

  mutual
    unfolding run run_args group_value state_len reset apply finalize initialize

    run-group_value :
        (e : AggregateExpression fs) (rows : List (Row x)) → run e rows ≡ group_value e rows
    run-group_value (agg_constant datum ty) rows = rw (apply_rows_none rows []) refl
    run-group_value (agg_column_reference offset ty) rows =
        rw (apply_column-first_value offset rows) (bind_assoc (first_value offset rows) _ _)
    run-group_value (scalar_function_call function signature args) rows =
        run_call function signature args rows
        ∙ ap (λ m. m >>= fs.execute function signature) (run_args-group_values args rows)
    run-group_value (agg_compiled function signature args) rows = refl

    run_args-group_values :
        (es : AggregateArgs fs) (rows : List (Row x)) → run_args es rows ≡ group_values es rows
    run_args-group_values no_exprs rows = rw (apply_rows_none rows []) refl
    run_args-group_values (expr_arg e es) rows =
        run_args-cons e es rows
        ∙ ap₂ (both (λ v vs. v ∷ vs)) (run-group_value e rows) (run_args-group_values es rows)

  -- Resetting the state of a row of expressions, applying the rows of a group to it one by one and
  -- finalizing it gives the values of the expressions on the group, each computed as if it were alone:
  -- no expression reads or writes the slice of another. The two panic on the same groups.
  pub run_args_lem :
      (es : AggregateArgs fs) (rows : List (Row x)) → run_args es rows ≡ group_values es rows
  run_args_lem es rows = run_args-group_values es rows

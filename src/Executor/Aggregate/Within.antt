-- ===== src/Executor/Aggregate/Within.antt =====
-- src/executor/src/aggregate_expression.rs: an expression works on its own slice.
use incresql.Prelude.{
  ℕ, ◌≡◌, refl, sym, ap, ap₂, ◌∙◌, arith, Option, none, some, List, [], ◌∷◌, ◌++◌, ◌>>=◌,
  take-append-drop, length-take, length-drop, append_assoc, length, take, drop,
}
use incresql.Data.Datum.{Externals, Datum, null}
use incresql.Data.TupleIter.{Row}
use incresql.Functions.{Functions}
use incresql.Functions.Aggregate.Interface.{
  Aggregates, StaysWithin, ReadsWithin, on_first-StaysWithin, on_first_again,
  read_first-ReadsWithin,
}
use incresql.Executor.Scalar.{eval_scalar_row}
use incresql.Executor.Aggregate.{
  AggregateExpression, agg_constant, agg_column_reference, scalar_function_call, agg_compiled,
  AggregateArgs, no_exprs, expr_arg, state_len, state_len_args, then_rest, reset, reset_args, apply,
  apply_args, finalize, finalize_args,
}
use incresql.Executor.Aggregate.Slices.{
  both, slice_from-append, then_rest-parts, then_rest-StaysWithin,
}
use mathlib.Core.Option

module _ {x : Externals} where
  nothing-StaysWithin : StaysWithin {x = x} 0 some
  nothing-StaysWithin = (λ s rest h. refl, λ s r h e. rw (sym (Option.some-injective s r e)) h)

  after-StaysWithin :
      {A : Type 0} (n : ℕ) (m : Option A) (f : A → List (Datum x) → Option (List (Datum x)))
      → ((a : A) → StaysWithin n (f a))
      → StaysWithin n (λ state. m >>= (λ a. f a state))
  after-StaysWithin n none f h = (λ s rest l. refl, λ s r l e. absurd (ground arith))
  after-StaysWithin n (some a) f h = h a

module _ {x : Externals} {fs : Functions x} (aggregates : Aggregates x fs.AggregateFunction) where
  mutual
    unfolding state_len reset

    pub reset-StaysWithin :
        (e : AggregateExpression fs) → StaysWithin (state_len aggregates e) (reset aggregates e)
    reset-StaysWithin (agg_constant datum ty) = nothing-StaysWithin
    reset-StaysWithin (agg_column_reference offset ty) = on_first-StaysWithin (λ d. some null)
    reset-StaysWithin (scalar_function_call function signature args) = reset_args-StaysWithin args
    reset-StaysWithin (agg_compiled function signature args) =
        aggregates.initialize-StaysWithin function

    pub reset_args-StaysWithin :
        (es : AggregateArgs fs)
        → StaysWithin (state_len_args aggregates es) (reset_args aggregates es)
    reset_args-StaysWithin no_exprs = nothing-StaysWithin
    reset_args-StaysWithin (expr_arg e es) =
        then_rest-StaysWithin _ _ _ _ (reset-StaysWithin e) (reset_args-StaysWithin es)

  module _ (row : Row x) where
    mutual
      unfolding state_len apply

      pub apply-StaysWithin :
          (e : AggregateExpression fs)
          → StaysWithin (state_len aggregates e) (apply aggregates row e)
      apply-StaysWithin (agg_constant datum ty) = nothing-StaysWithin
      apply-StaysWithin (agg_column_reference offset ty) = on_first-StaysWithin _
      apply-StaysWithin (scalar_function_call function signature args) = apply_args-StaysWithin args
      apply-StaysWithin (agg_compiled function signature args) =
          after-StaysWithin _ (eval_scalar_row fs row.0 args) _
            (λ buf. aggregates.apply-StaysWithin function signature buf row.1)

      pub apply_args-StaysWithin :
          (es : AggregateArgs fs)
          → StaysWithin (state_len_args aggregates es) (apply_args aggregates row es)
      apply_args-StaysWithin no_exprs = nothing-StaysWithin
      apply_args-StaysWithin (expr_arg e es) =
          then_rest-StaysWithin _ _ _ _ (apply-StaysWithin e) (apply_args-StaysWithin es)

  pub finalize_args-parts :
      (e : AggregateExpression fs) (es : AggregateArgs fs) (s t : List (Datum x))
      → ReadsWithin (state_len aggregates e) (finalize aggregates e)
      → length s ≡ state_len aggregates e
      → finalize_args aggregates (expr_arg e es) (s ++ t)
        ≡ both (λ v vs. v ∷ vs) (finalize aggregates e s) (finalize_args aggregates es t)
  unfolding finalize
  finalize_args-parts e es s t within h =
      rw (within s t h, slice_from-append s t (state_len aggregates e) h) refl

  mutual
    unfolding finalize state_len

    pub finalize-ReadsWithin :
        (e : AggregateExpression fs) → ReadsWithin (state_len aggregates e) (finalize aggregates e)
    finalize-ReadsWithin (agg_constant datum ty) s rest h = refl
    finalize-ReadsWithin (agg_column_reference offset ty) s rest h = read_first-ReadsWithin s rest h
    finalize-ReadsWithin (scalar_function_call function signature args) s rest h =
        rw (finalize_args-ReadsWithin args s rest h) refl
    finalize-ReadsWithin (agg_compiled function signature args) s rest h =
        aggregates.finalize-ReadsWithin function signature s rest h

    finalize_args-ReadsWithin :
        (es : AggregateArgs fs) (s rest : List (Datum x))
        → length s ≡ state_len_args aggregates es
        → finalize_args aggregates es (s ++ rest) ≡ finalize_args aggregates es s
    finalize_args-ReadsWithin no_exprs s rest h = refl
    finalize_args-ReadsWithin (expr_arg e es) s rest h =
        let n = state_len aggregates e in
        let a = take n s in
        let b = drop n s in
        let la : length a ≡ n = omega (arith, length-take n s) in
        let lb : length b ≡ state_len_args aggregates es = omega (arith, length-drop n s) in
        let whole = take-append-drop n s in
        ap (λ l. finalize_args aggregates (expr_arg e es) (l ++ rest)) (sym whole)
        ∙ ap (finalize_args aggregates (expr_arg e es)) (append_assoc a b rest)
        ∙ finalize_args-parts e es a (b ++ rest) (finalize-ReadsWithin e) la
        ∙ ap (both (λ v vs. v ∷ vs) (finalize aggregates e a))
            (finalize_args-ReadsWithin es b rest lb)
        ∙ sym (finalize_args-parts e es a b (finalize-ReadsWithin e) la)
        ∙ ap (finalize_args aggregates (expr_arg e es)) whole

  -- A reset does not depend on what was in the state.
  mutual
    unfolding reset state_len

    reset_again :
        (e : AggregateExpression fs) (s t : List (Datum x))
        → length s ≡ state_len aggregates e
        → length t ≡ state_len aggregates e
        → reset aggregates e s ≡ reset aggregates e t
    reset_again (agg_constant datum ty) [] [] h k = refl
    reset_again (agg_constant datum ty) [] (b ∷ t) h k = absurd (omega arith)
    reset_again (agg_constant datum ty) (a ∷ s) t h k = absurd (omega arith)
    reset_again (agg_column_reference offset ty) s t h k = on_first_again null s t h k
    reset_again (scalar_function_call function signature args) s t h k =
        reset_args_again args s t h k
    reset_again (agg_compiled function signature args) s t h k =
        aggregates.initialize_again function s t h k

    pub reset_args_again :
        (es : AggregateArgs fs) (s t : List (Datum x))
        → length s ≡ state_len_args aggregates es
        → length t ≡ state_len_args aggregates es
        → reset_args aggregates es s ≡ reset_args aggregates es t
    reset_args_again no_exprs [] [] h k = refl
    reset_args_again no_exprs [] (b ∷ t) h k = absurd (omega arith)
    reset_args_again no_exprs (a ∷ s) t h k = absurd (omega arith)
    reset_args_again (expr_arg e es) s t h k =
        let n = state_len aggregates e in
        let m = state_len_args aggregates es in
        let ls : length (take n s) ≡ n = omega (arith, length-take n s) in
        let lt : length (take n t) ≡ n = omega (arith, length-take n t) in
        let ms : length (drop n s) ≡ m = omega (arith, length-drop n s) in
        let mt : length (drop n t) ≡ m = omega (arith, length-drop n t) in
        let step = then_rest n (reset aggregates e) (reset_args aggregates es) in
        let parts =
          then_rest-parts n m (reset aggregates e) (reset_args aggregates es)
            (reset-StaysWithin e) in
        ap step (sym (take-append-drop n s))
        ∙ parts (take n s) (drop n s) ls
        ∙ ap₂ (both ◌++◌) (reset_again e (take n s) (take n t) ls lt)
            (reset_args_again es (drop n s) (drop n t) ms mt)
        ∙ sym (parts (take n t) (drop n t) lt)
        ∙ ap step (take-append-drop n t)

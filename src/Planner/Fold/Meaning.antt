-- ===== src/Planner/Fold/Meaning.antt =====
-- src/planner/src/p2_optimization/fold_constants.rs: folding keeps what an expression is on every row.
use incresql.Prelude.{Option-cases, inl, inr}
use incresql.Prelude.{
  ◌≡◌, refl, sym, ap, ◌∙◌, arith, Option-cases, inl, inr, Option, none, some, List, ◌∷◌, ◌>>=◌,
}
use incresql.Data.Datum.{Externals, Datum, into_static, ref_clone}
use incresql.Data.Datum.Stored.{stored-ref_clone, stored-into_static}
use incresql.Functions.{Functions, FunctionSignature}
use incresql.Ast.Expr.{
  Expression, constant, function_call, cast, compiled_function_call, compiled_aggregate,
  column_reference, compiled_column_reference, Args, no_args, arg,
}
use incresql.Executor.Scalar.{eval_scalar, eval_scalar_row}
use incresql.Planner.Fold.{cons_input}
use incresql.Planner.Fold.{
  function_input, fold_call, fold_constants_for_expr, fold_constants_for_args,
}
use incresql.Planner.Expr.Inline.{Same, SameRow, execute-Same, cons-Same}
use mathlib.Core.Option

cons_input-cases :
    {A : Type 0} (v : A) (m : Option (List A)) (input : List A)
    → cons_input v m ≡ some input
    → (l : List A) × (m ≡ some l) × (input ≡ v ∷ l)
cons_input-cases v none input h = absurd (ground arith)
cons_input-cases v (some l) input h = (l, refl, sym (Option.some-injective (v ∷ l) input h))

module _ {x : Externals} (fs : Functions x) (row : List (Datum x)) where
  -- The input of a call of constants is what its arguments are on any row.
  function_input-eval :
      (args : Args fs) (input : List (Datum x))
      → function_input args ≡ some input
      → eval_scalar_row fs row args ≡ some input
  unfolding function_input eval_scalar eval_scalar_row
  function_input-eval no_args input h = h
  function_input-eval (arg (constant value ty) args) input h =
      let (l, hm, hi) = cons_input-cases (ref_clone value) (function_input args) input h in
      rw (function_input-eval args l hm) (ap some (sym hi))
  function_input-eval (arg (compiled_function_call function signature es) args) input h =
      absurd (ground arith)
  function_input-eval (arg (compiled_aggregate function signature es) args) input h =
      absurd (ground arith)
  function_input-eval (arg (compiled_column_reference offset ty) args) input h =
      absurd (ground arith)
  function_input-eval (arg (cast expr ty) args) input h = absurd (ground arith)
  function_input-eval (arg (function_call name es) args) input h = absurd (ground arith)
  function_input-eval (arg (column_reference qualifier alias star) args) input h =
      absurd (ground arith)

  fold_call-Same :
      (function : fs.Function) (signature : FunctionSignature) (args : Args fs)
      → Same
          (fold_call function signature args (function_input args) >>= eval_scalar fs row)
          (eval_scalar_row fs row args >>= fs.execute function signature)
  unfolding fold_call eval_scalar
  fold_call-Same function signature args = elim (Option-cases (function_input args)) [
    | inl h ↦ rw h refl
    | inr (input, h) ↦
        rw (h, function_input-eval args input h)
          (constant-Same (fs.execute function signature input))
  ]
    where
      constant-Same :
          (result : Option (Datum x))
          → Same
              ((result >>= (λ r. some (constant (into_static r) signature.ret)))
                >>= eval_scalar fs row)
              result
      constant-Same none = refl
      constant-Same (some r) = ap some (stored-ref_clone (into_static r) ∙ stored-into_static r)

  call-Same :
      (function : fs.Function) (signature : FunctionSignature) (m : Option (Args fs))
      (buf : Option (List (Datum x)))
      → SameRow (m >>= eval_scalar_row fs row) buf
      → Same
          ((m >>= (λ args. fold_call function signature args (function_input args)))
            >>= eval_scalar fs row)
          (buf >>= fs.execute function signature)
  call-Same function signature none none h = refl
  call-Same function signature none (some buf) h = absurd (ground arith)
  call-Same function signature (some args) buf h =
      fold_call-Same function signature args
      ∙ execute-Same fs function signature (eval_scalar_row fs row args) buf h

  arg-Same :
      (e : Option (Expression fs)) (a : Option (Args fs)) (d : Option (Datum x))
      (l : Option (List (Datum x)))
      → Same (e >>= eval_scalar fs row) d
      → SameRow (a >>= eval_scalar_row fs row) l
      → SameRow
          ((e >>= (λ e'. a >>= (λ a'. some (arg e' a')))) >>= eval_scalar_row fs row)
          (d >>= (λ d'. l >>= (λ l'. some (d' ∷ l'))))
  unfolding eval_scalar eval_scalar_row
  arg-Same none a none l h k = refl
  arg-Same none a (some d) l h k = absurd (ground arith)
  arg-Same (some e) none none none h k = refl
  arg-Same (some e) none (some d) none h k = refl
  arg-Same (some e) none d (some l) h k = absurd (ground arith)
  arg-Same (some e) (some a) d l h k =
      cons-Same (eval_scalar fs row e) d (eval_scalar_row fs row a) l h k

  aggregate-Same :
      (m : Option (Args fs)) (function : fs.AggregateFunction) (signature : FunctionSignature)
      → Same
          ((m >>= (λ args. some (compiled_aggregate function signature args)))
            >>= eval_scalar fs row)
          none
  unfolding eval_scalar
  aggregate-Same none function signature = refl
  aggregate-Same (some args) function signature = refl

  mutual
    unfolding fold_constants_for_expr fold_constants_for_args eval_scalar eval_scalar_row

    fold-Same :
        (e : Expression fs)
        → Same (fold_constants_for_expr e >>= eval_scalar fs row) (eval_scalar fs row e)
    fold-Same (compiled_function_call function signature args) =
        call-Same function signature (fold_constants_for_args args) (eval_scalar_row fs row args)
          (fold-SameRow args)
    fold-Same (compiled_aggregate function signature args) =
        aggregate-Same (fold_constants_for_args args) function signature
    fold-Same (compiled_column_reference offset ty) = refl
    fold-Same (constant value ty) = refl
    fold-Same (cast expr ty) = refl
    fold-Same (function_call name args) = refl
    fold-Same (column_reference qualifier alias star) = refl

    fold-SameRow :
        (args : Args fs)
        → SameRow
            (fold_constants_for_args args >>= eval_scalar_row fs row)
            (eval_scalar_row fs row args)
    fold-SameRow no_args = refl
    fold-SameRow (arg expr args) =
        arg-Same (fold_constants_for_expr expr) (fold_constants_for_args args)
          (eval_scalar fs row expr) (eval_scalar_row fs row args) (fold-Same expr)
          (fold-SameRow args)

  -- Folding an expression and evaluating the result gives, on every row, what evaluating the
  -- expression gives, up to the ownership of bytes: folding panics only where every evaluation does.
  pub fold_constants_for_expr-Same :
      (e : Expression fs)
      → Same (fold_constants_for_expr e >>= eval_scalar fs row) (eval_scalar fs row e)
  fold_constants_for_expr-Same e = fold-Same e

-- ===== src/Planner/Expr/Predicates.antt =====
-- src/planner/src/utils/expr.rs: splitting a predicate at the "ands" and putting it together again.
use incresql.Prelude.{
  ◌≡◌, refl, sym, ap, ap₂, ◌∙◌, arith, Bool, true, ◌&&◌, Bool-cases, inl, inr, Option, none, some,
  List, [], ◌∷◌, ◌++◌, ◌>>=◌,
}
use incresql.Data.Datum.{Externals, Datum, sql_eq, as_maybe_boolean, bytes_eq, bool_eq, ref_clone}
use incresql.Functions.{Functions, FunctionSignature}
use incresql.Functions.Boolean.{and_execute}
use incresql.Ast.Expr.{
  Expression, constant, function_call, cast, compiled_function_call, compiled_aggregate,
  column_reference, compiled_column_reference, Args, no_args, arg,
}
use incresql.Executor.Scalar.{eval_scalar, eval_scalar_row}
use incresql.Planner.Expr.{
  is_true_expression, and_name, without_true, decompose_predicate, decompose_args, and_call,
  fold_and, combine_predicates,
}
use mathlib.Core.Bool.{and-true, and-false, and_assoc}
use incresql.Planner.Expr.Truth.{is_true, passes, passes-and_execute, is_true-ref_clone}

module _ {x : Externals} (fs : Functions x) where
  -- The function is that of and.rs.
  abbrev pub IsAnd : fs.Function → Type 0
  IsAnd f = (s : FunctionSignature) (ds : List (Datum x)) → fs.execute f s ds ≡ and_execute ds

  abbrev IsBinary : Args fs → Type 0
  IsBinary no_args = ⊥
  IsBinary (arg a no_args) = ⊥
  IsBinary (arg a (arg b no_args)) = Unit
  IsBinary (arg a (arg b (arg c args))) = ⊥

  -- Compiled calls alone, and those of "and" of that function, with two arguments.
  unfoldable mutual
    pub IsResolved : Expression fs → Type 0
    IsResolved (compiled_function_call function signature args) =
        (bytes_eq signature.name and_name ≡ true → IsAnd function × IsBinary args)
        × AreResolved args
    IsResolved (function_call name args) = ⊥
    IsResolved (cast expr ty) = Unit
    IsResolved (constant literal ty) = Unit
    IsResolved (compiled_aggregate function signature args) = Unit
    IsResolved (column_reference qualifier alias star) = Unit
    IsResolved (compiled_column_reference offset ty) = Unit

    AreResolved : Args fs → Type 0
    AreResolved no_args = Unit
    AreResolved (arg expr args) = IsResolved expr × AreResolved args

  -- A row passes a predicate, all predicates of a list, all arguments of a call.
  abbrev pub holds : List (Datum x) → Expression fs → Bool
  holds row e = passes (eval_scalar fs row e)

  unfoldable pub all_hold : List (Datum x) → List (Expression fs) → Bool
  all_hold row [] = true
  all_hold row (e ∷ es) = holds row e && all_hold row es

  unfoldable all_args : List (Datum x) → Args fs → Bool
  all_args row no_args = true
  all_args row (arg e args) = holds row e && all_args row args

  module _ (row : List (Datum x)) where
    binary-and :
        (f : fs.Function) (s : FunctionSignature) (a b : Expression fs)
        → IsAnd f
        → holds row (compiled_function_call f s (arg a (arg b no_args)))
          ≡ (holds row a && holds row b)
    unfolding eval_scalar eval_scalar_row
    binary-and f s a b h = go (eval_scalar fs row a) (eval_scalar fs row b)
      where
        go :
            (a b : Option (Datum x))
            → passes (
                (a >>= (λ d. (b >>= (λ e. some (e ∷ []))) >>= (λ t. some (d ∷ t))))
                >>= fs.execute f s)
              ≡ (passes a && passes b)
        go none b = refl
        go (some a) none = sym (and-false (is_true a))
        go (some a) (some b) = ap passes (h s (a ∷ b ∷ [])) ∙ passes-and_execute a b

    all_hold-append :
        (es es' : List (Expression fs))
        → all_hold row (es ++ es') ≡ (all_hold row es && all_hold row es')
    unfolding all_hold
    all_hold-append [] es' = refl
    all_hold-append (e ∷ es) es' =
        ap (λ b. holds row e && b) (all_hold-append es es') ∙ sym (and_assoc (holds row e) _ _)

    holds_true : (e : Expression fs) → is_true_expression e ≡ true → holds row e ≡ true
    unfolding is_true_expression eval_scalar
    holds_true (constant literal ty) h =
        let equal : is_true literal ≡ true = ground arith in is_true-ref_clone literal ∙ equal
    holds_true (compiled_function_call function signature args) h = absurd (ground arith)
    holds_true (function_call name args) h = absurd (ground arith)
    holds_true (cast expr ty) h = absurd (ground arith)
    holds_true (compiled_aggregate function signature args) h = absurd (ground arith)
    holds_true (column_reference qualifier alias star) h = absurd (ground arith)
    holds_true (compiled_column_reference offset ty) h = absurd (ground arith)

    all_args-call :
        (f : fs.Function) (s : FunctionSignature) (args : Args fs)
        → IsAnd f
        → IsBinary args
        → all_args row args ≡ holds row (compiled_function_call f s args)
    unfolding all_args
    all_args-call f s no_args h b = absurd b
    all_args-call f s (arg a no_args) h b = absurd b
    all_args-call f s (arg a (arg b no_args)) h u =
        ap (λ c. holds row a && c) (and-true (holds row b)) ∙ sym (binary-and f s a b h)
    all_args-call f s (arg a (arg b (arg c args))) h u = absurd u

    all_hold-without_true :
        (es : List (Expression fs)) → all_hold row (without_true es) ≡ all_hold row es
    unfolding all_hold without_true
    all_hold-without_true [] = refl
    all_hold-without_true (e ∷ es) = elim (Bool-cases (is_true_expression e)) [
      | inl h ↦ rw (h, holds_true e h) (all_hold-without_true es)
      | inr h ↦ rw h (ap (λ b. holds row e && b) (all_hold-without_true es))
    ]

    holds-fold_and :
        (f : fs.Function) (s : FunctionSignature) (first : Expression fs)
        (es : List (Expression fs))
        → IsAnd f
        → holds row (fold_and f s first es) ≡ (holds row first && all_hold row es)
    unfolding fold_and all_hold
    holds-fold_and f s first [] h = sym (and-true (holds row first))
    holds-fold_and f s first (e ∷ es) h =
        holds-fold_and f s (and_call f s first e) es h
        ∙ ap (λ b. b && all_hold row es) (binary-and f s first e h)
        ∙ and_assoc (holds row first) (holds row e) _

    -- The combined predicate passes exactly the rows that every part passes.
    pub holds-combine_predicates :
        (f : fs.Function) (s : FunctionSignature) (es : List (Expression fs))
        → IsAnd f
        → holds row (combine_predicates f s es) ≡ all_hold row es
    unfolding combine_predicates all_hold eval_scalar sql_eq ref_clone as_maybe_boolean bool_eq
    holds-combine_predicates f s [] h = refl
    holds-combine_predicates f s (first ∷ es) h = holds-fold_and f s first es h

    mutual
      unfolding decompose_predicate decompose_args all_hold all_args IsResolved AreResolved

      all_hold-decompose :
          (e : Expression fs) → IsResolved e → all_hold row (decompose_predicate e) ≡ holds row e
      all_hold-decompose (compiled_function_call function signature args) h =
          elim (Bool-cases (bytes_eq signature.name and_name)) [
            | inl e ↦ rw e (
                all_hold-without_true (decompose_args args)
                ∙ all_hold-decompose_args args h.1
                ∙ all_args-call function signature args (h.0 e).0 (h.0 e).1)
            | inr e ↦ rw e (
                all_hold-without_true (compiled_function_call function signature args ∷ [])
                ∙ and-true (holds row (compiled_function_call function signature args)))
          ]
      all_hold-decompose (function_call name args) h = absurd h
      all_hold-decompose (cast expr ty) h = all_hold-without_true _ ∙ and-true _
      all_hold-decompose (constant literal ty) h = all_hold-without_true _ ∙ and-true _
      all_hold-decompose (compiled_aggregate function signature args) h =
          all_hold-without_true _ ∙ and-true _
      all_hold-decompose (column_reference qualifier alias star) h =
          all_hold-without_true _ ∙ and-true _
      all_hold-decompose (compiled_column_reference offset ty) h =
          all_hold-without_true _ ∙ and-true _

      all_hold-decompose_args :
          (args : Args fs)
          → AreResolved args
          → all_hold row (decompose_args args) ≡ all_args row args
      all_hold-decompose_args no_args h = refl
      all_hold-decompose_args (arg expr args) h =
          all_hold-append (decompose_predicate expr) (decompose_args args)
          ∙ ap₂ (λ a b. a && b) (all_hold-decompose expr h.0) (all_hold-decompose_args args h.1)

    -- A row passes a predicate of compiled calls exactly where it passes the parts of it combined
    -- again, where the calls of "and" are of the function of and.rs with two arguments. A panic of the
    -- predicate keeps no row.
    pub combine_predicates-decompose_predicate :
        (f : fs.Function) (s : FunctionSignature) (e : Expression fs)
        → IsAnd f
        → IsResolved e
        → holds row (combine_predicates f s (decompose_predicate e)) ≡ holds row e
    combine_predicates-decompose_predicate f s e h r =
        holds-combine_predicates f s (decompose_predicate e) h ∙ all_hold-decompose e r

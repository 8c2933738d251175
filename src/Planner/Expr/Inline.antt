-- ===== src/Planner/Expr/Inline.antt =====
-- src/planner/src/utils/expr.rs: an expression with its columns replaced by the expressions behind them.
use incresql.Prelude.{zero, suc}
use incresql.Prelude.{
  ℕ, ◌<◌, ◌≡◌, refl, sym, ap, ap₂, arith, Option, none, some, List, [], ◌∷◌, map, length, get_elem?,
  ◌>>=◌, subst,
}
use incresql.Data.Datum.{Externals, Datum, ref_clone}
use incresql.Data.Datum.Stored.{stored, stored-ref_clone}
use incresql.Functions.{Functions, FunctionSignature}
use incresql.Ast.Expr.{
  Expression, constant, function_call, cast, compiled_function_call, compiled_aggregate,
  column_reference, compiled_column_reference, Args, no_args, arg,
}
use incresql.Executor.Scalar.{eval_scalar, eval_scalar_row}
use incresql.Planner.Expr.{inline_expression, inline_args}
use incresql.Planner.Expr.Columns.{AllColumns, AllArgs}
use mathlib.Core.Option

-- Two results with the same value, whoever owns the bytes.
abbrev pub Same : {x : Externals} → Option (Datum x) → Option (Datum x) → Type 0
Same a b = Option.map stored a ≡ Option.map stored b

abbrev pub SameRow : {x : Externals} → Option (List (Datum x)) → Option (List (Datum x)) → Type 0
SameRow a b = Option.map (map stored) a ≡ Option.map (map stored) b

-- A row of two steps that is there has its first datum and its rest.
pub row-cases :
    {A : Type 0} (d : Option A) (t : Option (List A)) (vals : List A)
    → (d >>= (λ datum. t >>= (λ target. some (datum ∷ target)))) ≡ some vals
    → (d0 : A) × (t0 : List A) × (d ≡ some d0) × (t ≡ some t0) × (vals ≡ d0 ∷ t0)
row-cases none t vals h = absurd (ground arith)
row-cases (some d) none vals h = absurd (ground arith)
row-cases (some d) (some t) vals h = (d, t, refl, refl, sym (Option.some-injective (d ∷ t) vals h))

-- A last step that cannot fail.
pub bind-cases :
    {A B : Type 0} (m : Option A) (f : A → B) (b : B)
    → (m >>= (λ a. some (f a))) ≡ some b
    → (a : A) × (m ≡ some a) × (f a ≡ b)
bind-cases none f b h = absurd (ground arith)
bind-cases (some a) f b h = (a, refl, Option.some-injective (f a) b h)

module _ {x : Externals} (fs : Functions x) where
  pub execute-Same :
      (f : fs.Function) (s : FunctionSignature) (a b : Option (List (Datum x)))
      → SameRow a b
      → Same (a >>= fs.execute f s) (b >>= fs.execute f s)
  execute-Same f s none none h = refl
  execute-Same f s none (some es) h = absurd (ground arith)
  execute-Same f s (some ds) none h = absurd (ground arith)
  execute-Same f s (some ds) (some es) h =
      fs.execute-stored f s ds es (Option.some-injective (map stored ds) (map stored es) h)

module _ {x : Externals} where
  pub cons-Same :
      (a b : Option (Datum x)) (s t : Option (List (Datum x)))
      → Same a b
      → SameRow s t
      → SameRow (a >>= (λ d. s >>= (λ l. some (d ∷ l)))) (b >>= (λ d. t >>= (λ l. some (d ∷ l))))
  cons-Same none none s t h k = refl
  cons-Same none (some b) s t h k = absurd (ground arith)
  cons-Same (some a) none s t h k = absurd (ground arith)
  cons-Same (some a) (some b) none none h k = refl
  cons-Same (some a) (some b) none (some t) h k = absurd (ground arith)
  cons-Same (some a) (some b) (some s) none h k = absurd (ground arith)
  cons-Same (some a) (some b) (some s) (some t) h k =
      ap₂ (λ d l. some (d ∷ l)) (Option.some-injective (stored a) (stored b) h)
        (Option.some-injective (map stored s) (map stored t) k)

  pub ref_clone-Same : (d : Option (Datum x)) → Same (d >>= (λ d. some (ref_clone d))) d
  ref_clone-Same none = refl
  ref_clone-Same (some d) = ap some (stored-ref_clone d)

get_elem?_total :
    {A : Type 0} (xs : List A) (i : ℕ) → i < length xs → (a : A) × (get_elem? xs i ≡ some a)
get_elem?_total [] i h = absurd (omega arith)
get_elem?_total (x ∷ xs) zero h = (x, refl)
get_elem?_total (x ∷ xs) (suc i) h = get_elem?_total xs i (omega arith)

module _ {x : Externals} {fs : Functions x} where
  arg-cases :
      (d : Option (Expression fs)) (t : Option (Args fs)) (args : Args fs)
      → (d >>= (λ e. t >>= (λ a. some (arg e a)))) ≡ some args
      → (e : Expression fs) × (a : Args fs) × (d ≡ some e) × (t ≡ some a) × (args ≡ arg e a)
  arg-cases none t vals h = absurd (ground arith)
  arg-cases (some d) none vals h = absurd (ground arith)
  arg-cases (some d) (some t) vals h =
      (d, t, refl, refl, sym (Option.some-injective (arg d t) vals h))

  -- The row that a project makes of a row: the value of each expression.
  unfoldable pub project_row : List (Expression fs) → List (Datum x) → Option (List (Datum x))
  project_row [] row = some []
  project_row (e ∷ es) row = do
    datum ← eval_scalar fs row e
    target ← project_row es row
    some (datum ∷ target)

  project_row-column :
      (es : List (Expression fs)) (row vals : List (Datum x)) (o : ℕ) (e : Expression fs)
      → project_row es row ≡ some vals
      → get_elem? es o ≡ some e
      → eval_scalar fs row e ≡ get_elem? vals o
  unfolding project_row
  project_row-column [] row vals o e p q = absurd (ground arith)
  project_row-column (e0 ∷ es) row vals zero e p q =
      let (d, t, hd, ht, hv) = row-cases (eval_scalar fs row e0) (project_row es row) vals p in
      rw hv (subst (λ e. eval_scalar fs row e ≡ some d) (Option.some-injective e0 e q) hd)
  project_row-column (e0 ∷ es) row vals (suc o) e p q =
      let (d, t, hd, ht, hv) = row-cases (eval_scalar fs row e0) (project_row es row) vals p in
      rw hv (project_row-column es row t o e ht q)

  module _ (source_expressions : List (Expression fs)) (row vals : List (Datum x))
      (projected : project_row source_expressions row ≡ some vals) where
    mutual
      unfolding inline_expression inline_args eval_scalar eval_scalar_row

      pub inline-Same :
          (e e' : Expression fs)
          → inline_expression source_expressions e ≡ some e'
          → Same (eval_scalar fs row e') (eval_scalar fs vals e)
      inline-Same (compiled_column_reference offset ty) e' h =
          rw (project_row-column source_expressions row vals offset e' projected h)
            (sym (ref_clone-Same (get_elem? vals offset)))
      inline-Same (compiled_function_call function signature args) e' h =
          let (args', ha, he) =
            bind-cases (inline_args source_expressions args)
              (λ a. compiled_function_call function signature a) e' h in
          subst
            (λ e'.
              Same (eval_scalar fs row e')
                (eval_scalar fs vals (compiled_function_call function signature args)))
            he (execute-Same fs function signature _ _ (inline-SameRow args args' ha))
      inline-Same (compiled_aggregate function signature args) e' h =
          let (args', ha, he) =
            bind-cases (inline_args source_expressions args)
              (λ a. compiled_aggregate function signature a) e' h in
          subst (λ e'. Same (eval_scalar fs row e') none) he refl
      inline-Same (function_call name args) e' h =
          let (args', ha, he) =
            bind-cases (inline_args source_expressions args) (λ a. function_call name a) e' h in
          subst (λ e'. Same (eval_scalar fs row e') none) he refl
      inline-Same (cast expr ty) e' h =
          let (a, ha, he) =
            bind-cases (inline_expression source_expressions expr) (λ a. cast a ty) e' h in
          subst (λ e'. Same (eval_scalar fs row e') none) he refl
      inline-Same (constant literal ty) e' h =
          subst (λ e'. Same (eval_scalar fs row e') (some (ref_clone literal)))
            (Option.some-injective (constant literal ty) e' h) refl
      inline-Same (column_reference qualifier alias star) e' h =
          subst (λ e'. Same (eval_scalar fs row e') none)
            (Option.some-injective (column_reference qualifier alias star) e' h) refl

      inline-SameRow :
          (args args' : Args fs)
          → inline_args source_expressions args ≡ some args'
          → SameRow (eval_scalar_row fs row args') (eval_scalar_row fs vals args)
      inline-SameRow no_args args' h =
          subst (λ a. SameRow (eval_scalar_row fs row a) (some []))
            (Option.some-injective no_args args' h) refl
      inline-SameRow (arg expr args) args' h =
          let (e', a', he, ha, hh) =
            arg-cases (inline_expression source_expressions expr)
              (inline_args source_expressions args) args' h in
          subst (λ a. SameRow (eval_scalar_row fs row a) (eval_scalar_row fs vals (arg expr args)))
            (sym hh) (cons-Same _ _ _ _ (inline-Same expr e' he) (inline-SameRow args a' ha))

  mutual
    unfolding inline_expression inline_args AllColumns AllArgs

    pub inline_total :
        (source_expressions : List (Expression fs)) (e : Expression fs)
        → AllColumns (λ o. o < length source_expressions) e
        → (e' : Expression fs) × (inline_expression source_expressions e ≡ some e')
    inline_total es (compiled_column_reference offset ty) h = get_elem?_total es offset h
    inline_total es (compiled_function_call function signature args) h =
        let (args', q) = inline_total_row es args h in
        (compiled_function_call function signature args', rw q refl)
    inline_total es (compiled_aggregate function signature args) h =
        let (args', q) = inline_total_row es args h in
        (compiled_aggregate function signature args', rw q refl)
    inline_total es (function_call name args) h =
        let (args', q) = inline_total_row es args h in (function_call name args', rw q refl)
    inline_total es (cast expr ty) h =
        let (expr', q) = inline_total es expr h in (cast expr' ty, rw q refl)
    inline_total es (constant literal ty) h = (constant literal ty, refl)
    inline_total es (column_reference qualifier alias star) h =
        (column_reference qualifier alias star, refl)

    inline_total_row :
        (source_expressions : List (Expression fs)) (args : Args fs)
        → AllArgs (λ o. o < length source_expressions) args
        → (args' : Args fs) × (inline_args source_expressions args ≡ some args')
    inline_total_row es no_args h = (no_args, refl)
    inline_total_row es (arg expr args) h =
        let (expr', q) = inline_total es expr h.0 in
        let (args', q') = inline_total_row es args h.1 in (arg expr' args', rw (q, q') refl)

  -- Where every column of the expression is one of the source's expressions, `inline_expression`
  -- succeeds, and its result has on a row of the source the value that the expression has on the row
  -- that the source's expressions make of it, up to the ownership of bytes.
  pub inline_expression-Same :
      (source_expressions : List (Expression fs)) (row vals : List (Datum x)) (e : Expression fs)
      → project_row source_expressions row ≡ some vals
      → AllColumns (λ o. o < length source_expressions) e
      → (e' : Expression fs) × (inline_expression source_expressions e ≡ some e')
        × Same (eval_scalar fs row e') (eval_scalar fs vals e)
  inline_expression-Same es row vals e projected h =
      let (e', q) = inline_total es e h in (e', q, inline-Same es row vals projected e e' q)

-- ===== src/Planner/Expr/Columns.antt =====
-- src/planner/src/utils/expr.rs: which columns an expression depends on, and moving it to other columns.
use incresql.Prelude.{ℕ, ◌≤◌, ◌≡◌, refl, arith, Option, none, some, List, get_elem?}
use incresql.Prelude.Int.{ℤ}
use incresql.Data.Datum.{Externals, Datum}
use incresql.Functions.{Functions}
use incresql.Ast.Expr.{
  Expression, constant, function_call, cast, compiled_function_call, compiled_aggregate,
  column_reference, compiled_column_reference, Args, no_args, arg,
}
use incresql.Executor.Scalar.{eval_scalar, eval_scalar_row}
use incresql.Planner.Expr.{
  moved, move_column_references, move_args, widen, min_max_column_deps_for_expression,
  min_max_column_deps,
}

module _ {x : Externals} {fs : Functions x} where
  -- What holds of every column that a compiled expression refers to.
  unfoldable mutual
    pub AllColumns : (ℕ → Type 0) → Expression fs → Type 0
    AllColumns P (compiled_column_reference offset ty) = P offset
    AllColumns P (compiled_function_call function signature args) = AllArgs P args
    AllColumns P (compiled_aggregate function signature args) = AllArgs P args
    AllColumns P (function_call name args) = AllArgs P args
    AllColumns P (cast expr ty) = AllColumns P expr
    AllColumns P (constant literal ty) = Unit
    AllColumns P (column_reference qualifier alias star) = Unit

    pub AllArgs : (ℕ → Type 0) → Args fs → Type 0
    AllArgs P no_args = Unit
    AllArgs P (arg expr args) = AllColumns P expr × AllArgs P args

  mutual
    unfolding AllColumns AllArgs

    pub AllColumns-mono :
        (P Q : ℕ → Type 0)
        → ((o : ℕ) → P o → Q o)
        → (e : Expression fs) → AllColumns P e
        → AllColumns Q e
    AllColumns-mono P Q f (compiled_column_reference offset ty) h = f offset h
    AllColumns-mono P Q f (compiled_function_call function signature args) h =
        AllArgs-mono P Q f args h
    AllColumns-mono P Q f (compiled_aggregate function signature args) h = AllArgs-mono P Q f args h
    AllColumns-mono P Q f (function_call name args) h = AllArgs-mono P Q f args h
    AllColumns-mono P Q f (cast expr ty) h = AllColumns-mono P Q f expr h
    AllColumns-mono P Q f (constant literal ty) h = tt
    AllColumns-mono P Q f (column_reference qualifier alias star) h = tt

    AllArgs-mono :
        (P Q : ℕ → Type 0)
        → ((o : ℕ) → P o → Q o)
        → (args : Args fs) → AllArgs P args
        → AllArgs Q args
    AllArgs-mono P Q f no_args h = tt
    AllArgs-mono P Q f (arg expr args) h =
        (AllColumns-mono P Q f expr h.0, AllArgs-mono P Q f args h.1)

  -- Moving the columns and the row alike.
  mutual
    unfolding AllColumns AllArgs eval_scalar eval_scalar_row move_column_references move_args

    pub eval_moved :
        (amount : ℤ) (r s : List (Datum x)) (e : Expression fs)
        → AllColumns (λ o. get_elem? s (moved o amount) ≡ get_elem? r o) e
        → eval_scalar fs s (move_column_references amount e) ≡ eval_scalar fs r e
    eval_moved amount r s (compiled_column_reference offset ty) h = rw h refl
    eval_moved amount r s (compiled_function_call function signature args) h =
        rw (eval_moved_row amount r s args h) refl
    eval_moved amount r s (compiled_aggregate function signature args) h = refl
    eval_moved amount r s (function_call name args) h = refl
    eval_moved amount r s (cast expr ty) h = refl
    eval_moved amount r s (constant literal ty) h = refl
    eval_moved amount r s (column_reference qualifier alias star) h = refl

    eval_moved_row :
        (amount : ℤ) (r s : List (Datum x)) (args : Args fs)
        → AllArgs (λ o. get_elem? s (moved o amount) ≡ get_elem? r o) args
        → eval_scalar_row fs s (move_args amount args) ≡ eval_scalar_row fs r args
    eval_moved_row amount r s no_args h = refl
    eval_moved_row amount r s (arg expr args) h =
        rw (eval_moved amount r s expr h.0, eval_moved_row amount r s args h.1) refl

  mutual
    unfolding AllColumns AllArgs eval_scalar eval_scalar_row

    pub eval_agree :
        (r s : List (Datum x)) (e : Expression fs)
        → AllColumns (λ o. get_elem? s o ≡ get_elem? r o) e
        → eval_scalar fs s e ≡ eval_scalar fs r e
    eval_agree r s (compiled_column_reference offset ty) h = rw h refl
    eval_agree r s (compiled_function_call function signature args) h =
        rw (eval_agree_row r s args h) refl
    eval_agree r s (compiled_aggregate function signature args) h = refl
    eval_agree r s (function_call name args) h = refl
    eval_agree r s (cast expr ty) h = refl
    eval_agree r s (constant literal ty) h = refl
    eval_agree r s (column_reference qualifier alias star) h = refl

    eval_agree_row :
        (r s : List (Datum x)) (args : Args fs)
        → AllArgs (λ o. get_elem? s o ≡ get_elem? r o) args
        → eval_scalar_row fs s args ≡ eval_scalar_row fs r args
    eval_agree_row r s no_args h = refl
    eval_agree_row r s (arg expr args) h =
        rw (eval_agree r s expr h.0, eval_agree_row r s args h.1) refl

-- The columns between the two ends, if there are any.
abbrev pub Within : Option (ℕ × ℕ) → ℕ → Type 0
Within none o = ⊥
Within (some (lo, hi)) o = (lo ≤ o) × (o ≤ hi)

Within-widen_left : (a b : Option (ℕ × ℕ)) (o : ℕ) → Within a o → Within (widen a b) o
Within-widen_left none none o h = h
Within-widen_left none (some b) o h = absurd h
Within-widen_left (some a) none o h = h
Within-widen_left (some a) (some b) o h = ground arith

Within-widen_right : (a b : Option (ℕ × ℕ)) (o : ℕ) → Within b o → Within (widen a b) o
Within-widen_right none none o h = h
Within-widen_right none (some b) o h = h
Within-widen_right (some a) none o h = absurd h
Within-widen_right (some a) (some b) o h = ground arith

module _ {x : Externals} {fs : Functions x} where
  mutual
    unfolding AllColumns AllArgs min_max_column_deps_for_expression min_max_column_deps

    pub deps-Within :
        (e : Expression fs) → AllColumns (Within (min_max_column_deps_for_expression e)) e
    deps-Within (compiled_column_reference offset ty) = omega arith
    deps-Within (compiled_function_call function signature args) = (args-Within none args).1
    deps-Within (compiled_aggregate function signature args) = (args-Within none args).1
    deps-Within (function_call name args) = (args-Within none args).1
    deps-Within (cast expr ty) = deps-Within expr
    deps-Within (constant literal ty) = tt
    deps-Within (column_reference qualifier alias star) = tt

    args-Within :
        (a : Option (ℕ × ℕ)) (args : Args fs)
        → ((o : ℕ) → Within a o → Within (min_max_column_deps a args) o)
          × AllArgs (Within (min_max_column_deps a args)) args
    args-Within a no_args = (λ o h. h, tt)
    args-Within a (arg expr args) =
        let b = min_max_column_deps_for_expression expr in
        let rest = args-Within (widen a b) args in
        (
          λ o h. rest.0 o (Within-widen_left a b o h),
          (
            AllColumns-mono _ _ (λ o h. rest.0 o (Within-widen_right a b o h)) expr
                (deps-Within expr),
            rest.1,
          ),
        )

-- ===== src/Planner/Expr/Sides.antt =====
-- src/planner/src/utils/expr.rs: an expression that depends on one side of a join alone can be moved there.
use incresql.Prelude.{zero, suc}
use incresql.Prelude.{
  ℕ, ◌+◌, ◌-◌, ◌^◌, ◌≤◌, ◌<◌, ◌≡◌, sym, ap, ◌∙◌, arith, none, some, List, ◌++◌, length, get_elem?,
  subst, get_elem?-append_left, get_elem?-append_right,
}
use incresql.Prelude.Int.{pos, ◌+ℤ◌, neg_ℤ}
use incresql.Data.Datum.{Externals, Datum}
use incresql.Functions.{Functions}
use incresql.Ast.Expr.{Expression}
use incresql.Executor.Scalar.{eval_scalar}
use incresql.Planner.Expr.{moved, move_column_references, min_max_column_deps_for_expression}
use incresql.Planner.Expr.Columns.{
  AllColumns, AllColumns-mono, eval_moved, eval_agree, Within, deps-Within,
}
use incresql.Storage.Writer.{wrap_i64}

moved_down : (o n : ℕ) → n ≤ o → o < 2 ^ 63 → moved o (neg_ℤ (pos n)) ≡ o - n
unfolding wrap_i64 ◌+ℤ◌ neg_ℤ
moved_down o zero l h = ground arith
moved_down o (suc n) l h = ground arith

moved_up : (o n : ℕ) → o + n < 2 ^ 63 → moved o (pos n) ≡ o + n
unfolding wrap_i64 ◌+ℤ◌
moved_up o n h = ground arith

module _ {x : Externals} {fs : Functions x} where
  -- An expression without column dependencies has the same value on every row.
  pub eval_scalar-deps_none :
      (e : Expression fs) (r s : List (Datum x))
      → min_max_column_deps_for_expression e ≡ none
      → eval_scalar fs r e ≡ eval_scalar fs s e
  eval_scalar-deps_none e r s h =
      eval_agree s r e
        (AllColumns-mono _ _ (λ o w. absurd (subst (λ d. Within d o) h w)) e (deps-Within e))

  -- An expression whose largest column is on the left side of a join has on a joined row the value
  -- that it has on the left row.
  pub eval_scalar-left :
      (e : Expression fs) (left right : List (Datum x)) (lo hi : ℕ)
      → min_max_column_deps_for_expression e ≡ some (lo, hi)
      → hi < length left
      → eval_scalar fs (left ++ right) e ≡ eval_scalar fs left e
  eval_scalar-left e left right lo hi h l = eval_agree left (left ++ right) e (
      AllColumns-mono _ _
        (λ o w.
          get_elem?-append_left left right o
            (let v = subst (λ d. Within d o) h w in omega (arith, v.1)))
        e (deps-Within e))

  -- An expression whose smallest column is on the right side of a join, moved down by the width of the
  -- left, has on the right row the value that it has on the joined row. Column numbers are below 2^63.
  pub eval_scalar-right :
      (e : Expression fs) (left right : List (Datum x)) (lo hi : ℕ)
      → min_max_column_deps_for_expression e ≡ some (lo, hi)
      → length left ≤ lo
      → hi < 2 ^ 63
      → eval_scalar fs right (move_column_references (neg_ℤ (pos (length left))) e)
        ≡ eval_scalar fs (left ++ right) e
  eval_scalar-right e left right lo hi h l b =
      eval_moved (neg_ℤ (pos (length left))) (left ++ right) right e (
        AllColumns-mono _ _
          (λ o w.
            let v = subst (λ d. Within d o) h w in
            ap (get_elem? right)
              (moved_down o (length left) (omega (arith, v.0)) (omega (arith, v.1)))
            ∙ sym (get_elem?-append_right left right o (o - length left) (omega (arith, v.0))))
          e (deps-Within e))

  -- An expression moved up by the number of columns put before a row keeps its value. The new column
  -- numbers are below 2^63.
  pub eval_scalar-move_up :
      (e : Expression fs) (inserted row : List (Datum x))
      → AllColumns (λ o. o + length inserted < 2 ^ 63) e
      → eval_scalar fs (inserted ++ row) (move_column_references (pos (length inserted)) e)
        ≡ eval_scalar fs row e
  eval_scalar-move_up e inserted row h =
      eval_moved (pos (length inserted)) row (inserted ++ row) e (
        AllColumns-mono _ _
          (λ o b.
            ap (get_elem? (inserted ++ row)) (moved_up o (length inserted) b)
            ∙ get_elem?-append_right inserted row (o + length inserted) o (omega arith))
          e h)

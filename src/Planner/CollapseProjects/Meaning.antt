-- ===== src/Planner/CollapseProjects/Meaning.antt =====
-- The rows of a query, with a project and a project on a project among its operators.
use incresql.Prelude.{ℕ, zero, suc, ◌≡◌, refl, sym, ap, ◌∙◌, subst, arith, bind-split}
use incresql.Prelude.{
  Bool, true, false, Option, none, some, List, [], ◌∷◌, ◌++◌, map, get_elem?, ◌>>=◌,
}
use incresql.Data.Datum.{Externals, Datum}
use incresql.Data.Datum.Stored.{stored, stored-stored}
use incresql.Data.TupleIter.{Row}
use incresql.Functions.{Functions}
use incresql.Prelude.Int.{ℤ}
use incresql.Encoding.Signed.{neg_i64}
use incresql.Executor.Scalar.{eval_scalar, eval_scalar_row}
use incresql.Ast.Expr.{
  Expression, constant, function_call, cast, compiled_function_call, compiled_aggregate,
  column_reference, compiled_column_reference, Args, no_args, arg, NamedExpression, SortExpression,
}
use incresql.Ast.Logical.{
  JoinType, LogicalOperator, Operators, project, group_by, filter, join, sort, limit, table_alias,
  union_all, table_insert, negate_freq, no_operators, operator,
}
use incresql.Planner.Expr.{inline_expression}
use incresql.Planner.Expr.Inline.{
  Same, SameRow, execute-Same, cons-Same, ref_clone-Same, project_row, inline-Same,
}
use incresql.Planner.CollapseProjects.{inline_named}
use mathlib.Core.Option

module _ {x : Externals} (fs : Functions x) where
  get_elem?-stored :
      (row : List (Datum x)) (o : ℕ) → Same (get_elem? (map stored row) o) (get_elem? row o)
  get_elem?-stored [] o = refl
  get_elem?-stored (d ∷ row) zero = ap some (stored-stored d)
  get_elem?-stored (d ∷ row) (suc o) = get_elem?-stored row o

  -- A value does not depend on who owns the bytes of the row.
  mutual
    unfolding eval_scalar eval_scalar_row

    pub eval_scalar-stored :
        (row : List (Datum x)) (e : Expression fs)
        → Same (eval_scalar fs (map stored row) e) (eval_scalar fs row e)
    eval_scalar-stored row (constant literal ty) = refl
    eval_scalar-stored row (compiled_column_reference o ty) =
        ref_clone-Same (get_elem? (map stored row) o)
        ∙ get_elem?-stored row o
        ∙ sym (ref_clone-Same (get_elem? row o))
    eval_scalar-stored row (compiled_function_call function signature args) =
        execute-Same fs function signature _ _ (eval_scalar_row-stored row args)
    eval_scalar-stored row (function_call name args) = refl
    eval_scalar-stored row (cast expr ty) = refl
    eval_scalar-stored row (column_reference qualifier alias star) = refl
    eval_scalar-stored row (compiled_aggregate function signature args) = refl

    eval_scalar_row-stored :
        (row : List (Datum x)) (args : Args fs)
        → SameRow (eval_scalar_row fs (map stored row) args) (eval_scalar_row fs row args)
    eval_scalar_row-stored row no_args = refl
    eval_scalar_row-stored row (arg expr args) =
        cons-Same _ _ _ _ (eval_scalar-stored row expr) (eval_scalar_row-stored row args)

map-some :
    {A B : Type 0} (f : A → B) (o : Option A) (b : B)
    → Option.map f o ≡ some b
    → (a : A) × (o ≡ some a) × (f a ≡ b)
map-some f none b h = absurd (ground arith)
map-some f (some a) b h = (a, refl, Option.some-injective (f a) b h)

-- The rows of the operators that collapsing leaves as they are, from the rows of their sources, and
-- what a distinct project makes of the rows that it has computed.
pub record Engine {x : Externals} (fs : Functions x) : Type 0 where
  pub scan : LogicalOperator fs → Option (List (Row x))
  pub group_rows :
      List (NamedExpression fs) → List (Expression fs) → List (Row x) → Option (List (Row x))
  pub distinct_rows : List (Row x) → Option (List (Row x))
  pub filter_rows : Expression fs → List (Row x) → Option (List (Row x))
  pub join_rows : Expression fs → JoinType → List (Row x) → List (Row x) → Option (List (Row x))
  pub sort_rows : List (SortExpression fs) → List (Row x) → Option (List (Row x))
  pub limit_rows : ℤ → ℤ → List (Row x) → Option (List (Row x))
  pub insert_rows : List (Row x) → List (Row x) → Option (List (Row x))

module _ {x : Externals} {fs : Functions x} where
  -- The values of the expressions on each row, apart from who owns their bytes.
  unfoldable pub project_rows : List (NamedExpression fs) → List (Row x) → Option (List (Row x))
  project_rows es [] = some []
  project_rows es ((tuple, freq) ∷ rows) = do
    target ← project_row (map (λ e. e.expression) es) tuple
    others ← project_rows es rows
    some ((map stored target, freq) ∷ others)

  module _ (engine : Engine fs) where
    unfoldable pub distinct_or_all : Bool → List (Row x) → Option (List (Row x))
    distinct_or_all true rows = engine.distinct_rows rows
    distinct_or_all false rows = some rows

    -- The rows of a query; `none` where an expression panics.
    unfoldable mutual
      pub rows_of : LogicalOperator fs → Option (List (Row x))
      rows_of (project distinct outer source) = do
        rows ← rows_of source
        made ← project_rows outer rows
        distinct_or_all distinct made
      rows_of (group_by expressions keys source) = do
        rows ← rows_of source
        engine.group_rows expressions keys rows
      rows_of (filter predicate source) = do
        rows ← rows_of source
        engine.filter_rows predicate rows
      rows_of (join left right on kind) = do
        left_rows ← rows_of left
        right_rows ← rows_of right
        engine.join_rows on kind left_rows right_rows
      rows_of (sort expressions source) = do
        rows ← rows_of source
        engine.sort_rows expressions rows
      rows_of (limit offset count source) = do
        rows ← rows_of source
        engine.limit_rows offset count rows
      rows_of (table_alias alias source) = rows_of source
      rows_of (union_all sources) = all_rows sources
      rows_of (table_insert table source) = do
        table_rows ← rows_of table
        rows ← rows_of source
        engine.insert_rows table_rows rows
      rows_of (negate_freq source) = do
        rows ← rows_of source
        some (map (λ row. (row.0, neg_i64 row.1)) rows)
      rows_of leaf = engine.scan leaf

      pub all_rows : Operators fs → Option (List (Row x))
      all_rows no_operators = some []
      all_rows (operator source sources) = do
        rows ← rows_of source
        others ← all_rows sources
        some (rows ++ others)

  -- The outer expressions on the inner values, and inlined on the row below.
  inline_named-SameRow :
      (inner : List (Expression fs)) (row vals : List (Datum x))
      → project_row inner row ≡ some vals
      → (outer found : List (NamedExpression fs)) → inline_named inner outer ≡ some found
      → SameRow
          (project_row (map (λ e. e.expression) found) row)
          (project_row (map (λ e. e.expression) outer) (map stored vals))
  unfolding inline_named project_row
  inline_named-SameRow inner row vals p [] found h =
      subst
        (λ (l : List (NamedExpression fs)).
          SameRow (project_row (map (λ e. e.expression) l) row) (some []))
        (Option.some-injective [] found h) refl
  inline_named-SameRow inner row vals p (e ∷ outer) found h =
      let (e', q, k) =
        bind-split (inline_expression inner e.expression)
          (λ expression.
            inline_named inner outer
            >>= (λ others. some (record { alias = e.alias; expression = expression } ∷ others)))
          found h in
      let (others, r, same) =
        bind-split (inline_named inner outer)
          (λ others. some (record { alias = e.alias; expression = e' } ∷ others)) found k in
      subst
        (λ (l : List (NamedExpression fs)).
          SameRow (project_row (map (λ e. e.expression) l) row)
            (project_row (map (λ e. e.expression) (e ∷ outer)) (map stored vals)))
        (Option.some-injective _ found same)
        (cons-Same _ _ _ _
          (inline-Same inner row vals p e.expression e' q
            ∙ sym (eval_scalar-stored fs vals e.expression))
          (inline_named-SameRow inner row vals p outer others r))

  -- Projecting twice gives the rows that the inlined expressions give at once.
  pub project_rows-inline :
      (inner outer found : List (NamedExpression fs))
      → inline_named (map (λ e. e.expression) inner) outer ≡ some found
      → (rows mid out : List (Row x)) → project_rows inner rows ≡ some mid
      → project_rows outer mid ≡ some out
      → project_rows found rows ≡ some out
  unfolding project_rows
  project_rows-inline inner outer found h [] mid out p q =
      subst (λ l. project_rows outer l ≡ some out) (sym (Option.some-injective [] mid p)) q
  project_rows-inline inner outer found h ((tuple, freq) ∷ rows) mid out p q =
      let (target, e1, k1) =
        bind-split (project_row (map (λ e. e.expression) inner) tuple)
          (λ target.
            project_rows inner rows >>= (λ others. some ((map stored target, freq) ∷ others)))
          mid p in
      let (others, e2, mid_form) =
        bind-split (project_rows inner rows) (λ others. some ((map stored target, freq) ∷ others))
          mid k1 in
      let q' =
        subst (λ l. project_rows outer l ≡ some out) (sym (Option.some-injective _ mid mid_form))
          q in
      let (target', f1, k2) =
        bind-split (project_row (map (λ e. e.expression) outer) (map stored target))
          (λ t. project_rows outer others >>= (λ o. some ((map stored t, freq) ∷ o))) out q' in
      let (others', f2, out_form) =
        bind-split (project_rows outer others) (λ o. some ((map stored target', freq) ∷ o)) out
          k2 in
      let same =
        inline_named-SameRow (map (λ e. e.expression) inner) tuple target e1 outer found h
        ∙ ap (Option.map (map stored)) f1 in
      let (at_once, g, stored_same) =
        map-some (map stored) (project_row (map (λ e. e.expression) found) tuple) _ same in
      let ih = project_rows-inline inner outer found h rows others others' e2 f2 in
      rw (g, ih) (ap (λ t. some ((t, freq) ∷ others')) stored_same ∙ out_form)

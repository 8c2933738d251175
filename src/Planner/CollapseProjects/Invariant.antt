-- ===== src/Planner/CollapseProjects/Invariant.antt =====
-- After `collapse_projects` no project stands on a project.
use incresql.Prelude.{ℕ, ◌<◌, ◌≡◌, refl, sym, ap, subst, arith}
use incresql.Prelude.{Bool, Option, none, some, List, [], ◌∷◌, map, length, length-map, All}
use incresql.Data.Datum.{Externals}
use incresql.Functions.{Functions}
use incresql.Ast.Expr.{Expression, NamedExpression}
use incresql.Ast.Logical.{
  LogicalOperator, Operators, single, project, group_by, filter, join, sort, limit, values,
  table_alias, union_all, table_reference, resolved_table, table_insert, negate_freq, file_scan,
  no_operators, operator,
}
use incresql.Planner.Expr.Columns.{AllColumns}
use incresql.Planner.Expr.Inline.{inline_total}
use incresql.Planner.CollapseProjects.{inline_named, collapse_into, collapse_projects, collapse_all}

module _ {x : Externals} {fs : Functions x} where
  -- The width of a project, and none for another operator.
  abbrev pub project_width : LogicalOperator fs → Option ℕ
  project_width (project distinct expressions source) = some (length expressions)
  project_width other = none

  abbrev pub InWidth : List (NamedExpression fs) → Option ℕ → Type 0
  InWidth outer none = Unit
  InWidth outer (some n) = All (λ e. AllColumns (λ o. o < n) e.expression) outer

  -- The columns of a project on a project are columns of that.
  unfoldable mutual
    pub IsScoped : LogicalOperator fs → Type 0
    IsScoped (project distinct outer source) =
        InWidth outer (project_width source) × IsScoped source
    IsScoped (group_by expressions keys source) = IsScoped source
    IsScoped (filter predicate source) = IsScoped source
    IsScoped (join left right on kind) = IsScoped left × IsScoped right
    IsScoped (sort expressions source) = IsScoped source
    IsScoped (limit offset count source) = IsScoped source
    IsScoped (table_alias alias source) = IsScoped source
    IsScoped (union_all sources) = AreScoped sources
    IsScoped (table_insert table source) = IsScoped table × IsScoped source
    IsScoped (negate_freq source) = IsScoped source
    IsScoped other = Unit

    pub AreScoped : Operators fs → Type 0
    AreScoped no_operators = Unit
    AreScoped (operator source sources) = IsScoped source × AreScoped sources

  -- No project stands on a project.
  unfoldable mutual
    pub IsCollapsed : LogicalOperator fs → Type 0
    IsCollapsed (project distinct outer source) = (project_width source ≡ none) × IsCollapsed source
    IsCollapsed (group_by expressions keys source) = IsCollapsed source
    IsCollapsed (filter predicate source) = IsCollapsed source
    IsCollapsed (join left right on kind) = IsCollapsed left × IsCollapsed right
    IsCollapsed (sort expressions source) = IsCollapsed source
    IsCollapsed (limit offset count source) = IsCollapsed source
    IsCollapsed (table_alias alias source) = IsCollapsed source
    IsCollapsed (union_all sources) = AreCollapsed sources
    IsCollapsed (table_insert table source) = IsCollapsed table × IsCollapsed source
    IsCollapsed (negate_freq source) = IsCollapsed source
    IsCollapsed other = Unit

    pub AreCollapsed : Operators fs → Type 0
    AreCollapsed no_operators = Unit
    AreCollapsed (operator source sources) = IsCollapsed source × AreCollapsed sources

  pub inline_named_total :
      (exprs : List (Expression fs)) (outer : List (NamedExpression fs))
      → All (λ e. AllColumns (λ o. o < length exprs) e.expression) outer
      → (found : List (NamedExpression fs)) × (inline_named exprs outer ≡ some found)
        × (length found ≡ length outer)
  unfolding inline_named
  inline_named_total exprs [] h = ([], refl, refl)
  inline_named_total exprs (e ∷ outer) (h, hs) =
      let (expression, q) = inline_total exprs e.expression h in
      let (others, r, len) = inline_named_total exprs outer hs in
      (record { alias = e.alias; expression = expression } ∷ others, rw (q, r) refl, omega arith)

  -- A collapsed operator, as wide as before.
  abbrev Collapses : LogicalOperator fs → Type 0
  Collapses query =
      (found : LogicalOperator fs) × (collapse_projects query ≡ some found)
      × IsCollapsed found
      × (project_width found ≡ project_width query)

  pub collapse_into-IsCollapsed :
      (distinct : Bool) (outer : List (NamedExpression fs)) (source : LogicalOperator fs)
      → InWidth outer (project_width source)
      → IsCollapsed source
      → (found : LogicalOperator fs) × (collapse_into distinct outer source ≡ some found)
        × IsCollapsed found
        × (project_width found ≡ some (length outer))
  unfolding collapse_into IsCollapsed
  collapse_into-IsCollapsed distinct outer (project inner_distinct inner source) h c =
      let same : length (map (λ (e : NamedExpression fs). e.expression) inner) ≡ length inner =
        length-map _ inner in
      let (exprs, q, len) =
        inline_named_total (map (λ e. e.expression) inner) outer
          (subst (λ n. All (λ e. AllColumns (λ o. o < n) e.expression) outer) (sym same) h) in
      (project distinct exprs source, rw (q) refl, c, ap some len)
  collapse_into-IsCollapsed distinct outer single h c = (_, refl, (refl, c), refl)
  collapse_into-IsCollapsed distinct outer (group_by a b s) h c = (_, refl, (refl, c), refl)
  collapse_into-IsCollapsed distinct outer (filter a s) h c = (_, refl, (refl, c), refl)
  collapse_into-IsCollapsed distinct outer (join a b d e) h c = (_, refl, (refl, c), refl)
  collapse_into-IsCollapsed distinct outer (sort a s) h c = (_, refl, (refl, c), refl)
  collapse_into-IsCollapsed distinct outer (limit a b s) h c = (_, refl, (refl, c), refl)
  collapse_into-IsCollapsed distinct outer (values a b) h c = (_, refl, (refl, c), refl)
  collapse_into-IsCollapsed distinct outer (table_alias a s) h c = (_, refl, (refl, c), refl)
  collapse_into-IsCollapsed distinct outer (union_all a) h c = (_, refl, (refl, c), refl)
  collapse_into-IsCollapsed distinct outer (table_reference a b) h c = (_, refl, (refl, c), refl)
  collapse_into-IsCollapsed distinct outer (resolved_table a b) h c = (_, refl, (refl, c), refl)
  collapse_into-IsCollapsed distinct outer (table_insert a b) h c = (_, refl, (refl, c), refl)
  collapse_into-IsCollapsed distinct outer (negate_freq s) h c = (_, refl, (refl, c), refl)
  collapse_into-IsCollapsed distinct outer (file_scan a b) h c = (_, refl, (refl, c), refl)

  mutual
    unfolding collapse_projects collapse_all IsScoped AreScoped IsCollapsed AreCollapsed

    collapse-Collapses : (query : LogicalOperator fs) → IsScoped query → Collapses query
    collapse-Collapses (project distinct outer source) (h, hs) =
        let (source', q, c, w) = collapse-Collapses source hs in
        let (found, r, d, v) =
          collapse_into-IsCollapsed distinct outer source' (subst (InWidth outer) (sym w) h) c in
        (found, rw (q) r, d, v)
    collapse-Collapses (group_by a b s) h =
        let (s', q, c, w) = collapse-Collapses s h in (group_by a b s', rw (q) refl, c, refl)
    collapse-Collapses (filter a s) h =
        let (s', q, c, w) = collapse-Collapses s h in (filter a s', rw (q) refl, c, refl)
    collapse-Collapses (sort a s) h =
        let (s', q, c, w) = collapse-Collapses s h in (sort a s', rw (q) refl, c, refl)
    collapse-Collapses (limit a b s) h =
        let (s', q, c, w) = collapse-Collapses s h in (limit a b s', rw (q) refl, c, refl)
    collapse-Collapses (table_alias a s) h =
        let (s', q, c, w) = collapse-Collapses s h in (table_alias a s', rw (q) refl, c, refl)
    collapse-Collapses (negate_freq s) h =
        let (s', q, c, w) = collapse-Collapses s h in (negate_freq s', rw (q) refl, c, refl)
    collapse-Collapses (join l r on kind) (h, k) =
        let (l', q, c, w) = collapse-Collapses l h in
        let (r', p, d, v) = collapse-Collapses r k in
        (join l' r' on kind, rw (q, p) refl, (c, d), refl)
    collapse-Collapses (table_insert l r) (h, k) =
        let (l', q, c, w) = collapse-Collapses l h in
        let (r', p, d, v) = collapse-Collapses r k in
        (table_insert l' r', rw (q, p) refl, (c, d), refl)
    collapse-Collapses (union_all sources) h =
        let (found, q, c) = collapse_all-AreCollapsed sources h in
        (union_all found, rw (q) refl, c, refl)
    collapse-Collapses (single) h = (single, refl, tt, refl)
    collapse-Collapses (values a b) h = (values a b, refl, tt, refl)
    collapse-Collapses (table_reference a b) h = (table_reference a b, refl, tt, refl)
    collapse-Collapses (resolved_table a b) h = (resolved_table a b, refl, tt, refl)
    collapse-Collapses (file_scan a b) h = (file_scan a b, refl, tt, refl)

    collapse_all-AreCollapsed :
        (sources : Operators fs)
        → AreScoped sources
        → (found : Operators fs) × (collapse_all sources ≡ some found) × AreCollapsed found
    collapse_all-AreCollapsed no_operators h = (no_operators, refl, tt)
    collapse_all-AreCollapsed (operator source sources) (h, hs) =
        let (source', q, c, w) = collapse-Collapses source h in
        let (sources', p, d) = collapse_all-AreCollapsed sources hs in
        (operator source' sources', rw (q, p) refl, (c, d))

  -- Where the columns of a project on a project are columns of that, at any depth, collapsing
  -- succeeds, no project of the result stands on a project, and a project stays as wide.
  pub collapse_projects-IsCollapsed :
      (query : LogicalOperator fs)
      → IsScoped query
      → (found : LogicalOperator fs) × (collapse_projects query ≡ some found)
        × IsCollapsed found
        × (project_width found ≡ project_width query)
  collapse_projects-IsCollapsed query h = collapse-Collapses query h

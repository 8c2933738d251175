-- ===== src/Planner/CollapseProjects/Rows.antt =====
-- The rows of a query and of what `collapse_projects` makes of it.
use incresql.Prelude.{◌<◌, ◌≡◌, refl, sym, ap, subst, arith, bind-split}
use incresql.Prelude.{◌∙◌, Bool, true, false, some, List, ◌++◌, map, length, length-map, All, ◌>>=◌}
use incresql.Data.Datum.{Externals}
use incresql.Data.TupleIter.{Row}
use incresql.Functions.{Functions}
use incresql.Encoding.Signed.{neg_i64}
use incresql.Ast.Expr.{NamedExpression}
use incresql.Ast.Logical.{
  LogicalOperator, Operators, single, project, group_by, filter, join, sort, limit, values,
  table_alias, union_all, table_reference, resolved_table, table_insert, negate_freq, file_scan,
  no_operators, operator,
}
use incresql.Planner.Expr.Columns.{AllColumns}
use incresql.Planner.CollapseProjects.{collapse_into, collapse_projects, collapse_all}
use incresql.Planner.CollapseProjects.Invariant.{
  project_width, InWidth, IsScoped, AreScoped, inline_named_total,
}
use incresql.Planner.CollapseProjects.Meaning.{
  Engine, rows_of, all_rows, distinct_or_all, project_rows, project_rows-inline,
}

module _ {x : Externals} {fs : Functions x} where
  -- A project whose rows are made distinct.
  unfoldable pub is_distinct : LogicalOperator fs → Bool
  is_distinct (project distinct outer source) = distinct
  is_distinct other = false

  -- No distinct project stands directly below a project, at any depth.
  unfoldable mutual
    pub IsPlainBelow : LogicalOperator fs → Type 0
    IsPlainBelow (project distinct outer source) =
        (is_distinct source ≡ false) × IsPlainBelow source
    IsPlainBelow (group_by expressions keys source) = IsPlainBelow source
    IsPlainBelow (filter predicate source) = IsPlainBelow source
    IsPlainBelow (join left right on kind) = IsPlainBelow left × IsPlainBelow right
    IsPlainBelow (sort expressions source) = IsPlainBelow source
    IsPlainBelow (limit offset count source) = IsPlainBelow source
    IsPlainBelow (table_alias alias source) = IsPlainBelow source
    IsPlainBelow (union_all sources) = ArePlainBelow sources
    IsPlainBelow (table_insert table source) = IsPlainBelow table × IsPlainBelow source
    IsPlainBelow (negate_freq source) = IsPlainBelow source
    IsPlainBelow other = Unit

    pub ArePlainBelow : Operators fs → Type 0
    ArePlainBelow no_operators = Unit
    ArePlainBelow (operator source sources) = IsPlainBelow source × ArePlainBelow sources

module _ {x : Externals} {fs : Functions x} (engine : Engine fs) where
  collapse_into-rows_of :
      (distinct : Bool) (outer : List (NamedExpression fs)) (source : LogicalOperator fs)
      (mid made rows : List (Row x))
      → is_distinct source ≡ false
      → InWidth outer (project_width source)
      → rows_of engine source ≡ some mid
      → project_rows outer mid ≡ some made
      → distinct_or_all engine distinct made ≡ some rows
      → (found : LogicalOperator fs) × (collapse_into distinct outer source ≡ some found)
        × (project_width found ≡ some (length outer))
        × (is_distinct found ≡ distinct)
        × (rows_of engine found ≡ some rows)
  unfolding collapse_into rows_of is_distinct distinct_or_all
  collapse_into-rows_of distinct outer (project true inner source) mid made rows p h m k l =
      absurd (ground arith)
  collapse_into-rows_of distinct outer (project false inner source) mid made rows f h m k d =
      let (below, e, p) =
        bind-split (rows_of engine source) (λ l. project_rows inner l >>= some) mid m in
      let (inner_rows, e', inner_same) = bind-split (project_rows inner below) some mid p in
      let p' = e' ∙ inner_same in
      let same : length (map (λ (e : NamedExpression fs). e.expression) inner) ≡ length inner =
        length-map _ inner in
      let (exprs, q, len) =
        inline_named_total (map (λ e. e.expression) inner) outer
          (subst (λ n. All (λ e. AllColumns (λ o. o < n) e.expression) outer) (sym same) h) in
      (
        project distinct exprs source,
        rw (q) refl,
        ap some len,
        refl,
        rw (e, project_rows-inline inner outer exprs q below mid made p' k) d,
      )
  collapse_into-rows_of distinct outer single mid made rows p h m k l =
      (_, refl, refl, refl, rw (m, k) l)
  collapse_into-rows_of distinct outer (group_by a b s) mid made rows p h m k l =
      (_, refl, refl, refl, rw (m, k) l)
  collapse_into-rows_of distinct outer (filter a s) mid made rows p h m k l =
      (_, refl, refl, refl, rw (m, k) l)
  collapse_into-rows_of distinct outer (join a b d e) mid made rows p h m k l =
      (_, refl, refl, refl, rw (m, k) l)
  collapse_into-rows_of distinct outer (sort a s) mid made rows p h m k l =
      (_, refl, refl, refl, rw (m, k) l)
  collapse_into-rows_of distinct outer (limit a b s) mid made rows p h m k l =
      (_, refl, refl, refl, rw (m, k) l)
  collapse_into-rows_of distinct outer (values a b) mid made rows p h m k l =
      (_, refl, refl, refl, rw (m, k) l)
  collapse_into-rows_of distinct outer (table_alias a s) mid made rows p h m k l =
      (_, refl, refl, refl, rw (m, k) l)
  collapse_into-rows_of distinct outer (union_all a) mid made rows p h m k l =
      (_, refl, refl, refl, rw (m, k) l)
  collapse_into-rows_of distinct outer (table_reference a b) mid made rows p h m k l =
      (_, refl, refl, refl, rw (m, k) l)
  collapse_into-rows_of distinct outer (resolved_table a b) mid made rows p h m k l =
      (_, refl, refl, refl, rw (m, k) l)
  collapse_into-rows_of distinct outer (table_insert a b) mid made rows p h m k l =
      (_, refl, refl, refl, rw (m, k) l)
  collapse_into-rows_of distinct outer (negate_freq s) mid made rows p h m k l =
      (_, refl, refl, refl, rw (m, k) l)
  collapse_into-rows_of distinct outer (file_scan a b) mid made rows p h m k l =
      (_, refl, refl, refl, rw (m, k) l)

  mutual
    unfolding collapse_projects collapse_all IsScoped AreScoped rows_of all_rows is_distinct
        IsPlainBelow ArePlainBelow

    keeps :
        (query : LogicalOperator fs) (rows : List (Row x))
        → IsScoped query
        → IsPlainBelow query
        → rows_of engine query ≡ some rows
        → (found : LogicalOperator fs) × (collapse_projects query ≡ some found)
          × (project_width found ≡ project_width query)
          × (is_distinct found ≡ is_distinct query)
          × (rows_of engine found ≡ some rows)
    keeps (project distinct outer source) rows (h, hs) (p, ps) m =
        let (mid, e, k) =
          bind-split (rows_of engine source)
            (λ l. project_rows outer l >>= distinct_or_all engine distinct) rows m in
        let (made, e2, l) =
          bind-split (project_rows outer mid) (distinct_or_all engine distinct) rows k in
        let (source', q, w, d, m') = keeps source mid hs ps e in
        let (found, r, v, c, n) =
          collapse_into-rows_of distinct outer source' mid made rows (d ∙ p)
            (subst (InWidth outer) (sym w) h) m' e2 l in
        (found, rw (q) r, v, c, n)
    keeps (group_by a b s) rows h p m =
        let (mid, e, k) = bind-split (rows_of engine s) (λ l. engine.group_rows a b l) rows m in
        let (s', q, w, d, m') = keeps s mid h p e in
        (group_by a b s', rw (q) refl, refl, refl, rw (m') k)
    keeps (filter a s) rows h p m =
        let (mid, e, k) = bind-split (rows_of engine s) (λ l. engine.filter_rows a l) rows m in
        let (s', q, w, d, m') = keeps s mid h p e in
        (filter a s', rw (q) refl, refl, refl, rw (m') k)
    keeps (sort a s) rows h p m =
        let (mid, e, k) = bind-split (rows_of engine s) (λ l. engine.sort_rows a l) rows m in
        let (s', q, w, d, m') = keeps s mid h p e in (sort a s', rw (q) refl, refl, refl, rw (m') k)
    keeps (limit a b s) rows h p m =
        let (mid, e, k) = bind-split (rows_of engine s) (λ l. engine.limit_rows a b l) rows m in
        let (s', q, w, d, m') = keeps s mid h p e in
        (limit a b s', rw (q) refl, refl, refl, rw (m') k)
    keeps (negate_freq s) rows h p m =
        let (mid, e, k) =
          bind-split (rows_of engine s)
            (λ l. some (map (λ (row : Row x). (row.0, neg_i64 row.1)) l)) rows m in
        let (s', q, w, d, m') = keeps s mid h p e in
        (negate_freq s', rw (q) refl, refl, refl, rw (m') k)
    keeps (table_alias a s) rows h p m =
        let (s', q, w, d, m') = keeps s rows h p m in
        (table_alias a s', rw (q) refl, refl, refl, m')
    keeps (join l r on kind) rows (h, hs) (p, ps) m =
        let (left_rows, e, k) =
          bind-split (rows_of engine l)
            (λ a. rows_of engine r >>= (λ b. engine.join_rows on kind a b)) rows m in
        let (right_rows, e2, k2) =
          bind-split (rows_of engine r) (λ b. engine.join_rows on kind left_rows b) rows k in
        let (l', q, w, d, m') = keeps l left_rows h p e in
        let (r', q2, w2, d2, n) = keeps r right_rows hs ps e2 in
        (join l' r' on kind, rw (q, q2) refl, refl, refl, rw (m', n) k2)
    keeps (table_insert l r) rows (h, hs) (p, ps) m =
        let (left_rows, e, k) =
          bind-split (rows_of engine l) (λ a. rows_of engine r >>= (λ b. engine.insert_rows a b))
            rows m in
        let (right_rows, e2, k2) =
          bind-split (rows_of engine r) (λ b. engine.insert_rows left_rows b) rows k in
        let (l', q, w, d, m') = keeps l left_rows h p e in
        let (r', q2, w2, d2, n) = keeps r right_rows hs ps e2 in
        (table_insert l' r', rw (q, q2) refl, refl, refl, rw (m', n) k2)
    keeps (union_all sources) rows h p m =
        let (sources', q, m') = keeps_all sources rows h p m in
        (union_all sources', rw (q) refl, refl, refl, m')
    keeps (single) rows h p m = (single, refl, refl, refl, m)
    keeps (values a b) rows h p m = (values a b, refl, refl, refl, m)
    keeps (table_reference a b) rows h p m = (table_reference a b, refl, refl, refl, m)
    keeps (resolved_table a b) rows h p m = (resolved_table a b, refl, refl, refl, m)
    keeps (file_scan a b) rows h p m = (file_scan a b, refl, refl, refl, m)

    keeps_all :
        (sources : Operators fs) (rows : List (Row x))
        → AreScoped sources
        → ArePlainBelow sources
        → all_rows engine sources ≡ some rows
        → (found : Operators fs) × (collapse_all sources ≡ some found)
          × (all_rows engine found ≡ some rows)
    keeps_all no_operators rows h p m = (no_operators, refl, m)
    keeps_all (operator source sources) rows (h, hs) (p, ps) m =
        let (first_rows, e, k) =
          bind-split (rows_of engine source) (λ a. all_rows engine sources >>= (λ b. some (a ++ b)))
            rows m in
        let (others, e2, k2) =
          bind-split (all_rows engine sources) (λ b. some (first_rows ++ b)) rows k in
        let (source', q, w, d, m') = keeps source first_rows h p e in
        let (sources', q2, n) = keeps_all sources others hs ps e2 in
        (operator source' sources', rw (q, q2) refl, rw (m', n) k2)

  -- Where the columns of a project on a project are columns of that and no distinct project stands
  -- directly below a project, at any depth, and the query has rows, collapsing succeeds and its
  -- result has the same rows, up to the ownership of bytes, whatever the other operators make of the
  -- rows of their sources. A project may be distinct itself, and keeps that.
  pub collapse_projects-rows_of :
      (query : LogicalOperator fs) (rows : List (Row x))
      → IsScoped query
      → IsPlainBelow query
      → rows_of engine query ≡ some rows
      → (found : LogicalOperator fs) × (collapse_projects query ≡ some found)
        × (rows_of engine found ≡ some rows)
  collapse_projects-rows_of query rows h p m =
      let (found, q, w, d, n) = keeps query rows h p m in (found, q, n)

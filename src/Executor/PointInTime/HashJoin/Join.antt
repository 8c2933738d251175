-- ===== src/Executor/PointInTime/HashJoin/Join.antt =====
-- src/executor/src/point_in_time/hash_join.rs: the executor against the nested loops.
use incresql.Data.Datum.Class.{IsEquivalence}
use incresql.Prelude.{
  ℕ, zero, suc, ◌+◌, ◌-◌, ◌<◌, ◌≤◌, ◌≡◌, refl, ap, ◌∙◌, arith, true, List, [], ◌∷◌, map, length,
  take, drop, leb, le→leb, All, Bool-cases, inl, inr, replicate, length-map, length-drop,
  length-replicate, not, ◌&&◌,
}
use incresql.Prelude.Int.{pos}
use incresql.Data.Datum.{Externals, Datum, null, as_static}
use incresql.Data.TupleIter.{TupleIter, Row, Yields, Delivers-Yields}
use incresql.Functions.{Functions}
use incresql.Ast.Expr.{Expression}
use incresql.Ast.Logical.{JoinType}
use incresql.Executor.PointInTime.HashJoin.{
  HashTable, slice_to, any_null, tuple_eq, get_bucket, next_left, scan_bucket, join_advance,
  join_get, hash_join_executor, new_join,
}
use incresql.Executor.PointInTime.HashJoin.Table.{partners, Serves, build_table-Serves}
use incresql.Executor.PointInTime.HashJoin.Rows.{
  join_rows, Evaluates, Executor, state, GoesOn, from_left, with_bucket-Delivers,
}

partners-IsRest :
    {x : Externals} (key_len right_len : ℕ) (key : List (Datum x)) (rows : List (Row x))
    → All (λ row. length row.0 ≡ right_len) rows
    → All (λ entry. length entry.0 ≡ right_len - key_len) (partners key_len key rows)
unfolding partners
partners-IsRest key_len right_len key [] h = tt
partners-IsRest key_len right_len key (row ∷ rows) h =
    let found = map as_static (take key_len row.0) in
    let rest = partners-IsRest key_len right_len key rows h.1 in
    let len =
      length-map as_static (drop key_len row.0)
      ∙ length-drop key_len row.0
      ∙ ap (λ n. n - key_len) h.0 in
    elim (Bool-cases (not (any_null found) && tuple_eq found key)) [
      | inl e ↦ rw e (len, rest)
      | inr e ↦ rw e rest
    ]

module _ {x : Externals} (fs : Functions x) (left right : TupleIter x)
    (left_len right_len key_len : ℕ) (condition : Expression fs) (join_type : JoinType)
    (dec : IsEquivalence x.decimal_eq) (path : IsEquivalence x.jsonpath_eq) where
  -- The condition has a value for a left row with each of its partners.
  abbrev pub AllEvaluate : List (Row x) → List (Row x) → Type 0
  AllEvaluate rights lefts =
      All
        (λ row.
          All (Evaluates fs left right left_len right_len key_len condition join_type row)
            (partners key_len (take key_len row.0) rights))
        lefts

  abbrev pub HasLength : ℕ → Row x → Type 0
  HasLength n row = length row.0 ≡ n

  module _ (k_left : key_len ≤ left_len) (k_right : key_len ≤ right_len) (rights : List (Row x))
      (wide : All (HasLength right_len) rights) where
    next_left-Delivers :
        (fuel : ℕ) (table : HashTable x) (rs : right.State) (n : ℕ) (ls : left.State)
        (lefts : List (Row x))
        → Serves dec path key_len table (λ q. partners key_len q rights)
        → length lefts < n
        → n ≤ fuel
        → Yields left ls lefts
        → All (HasLength left_len) lefts
        → AllEvaluate rights lefts
        → GoesOn fs left right left_len right_len key_len condition join_type fuel table rs
            (from_left fs left right left_len right_len key_len condition join_type fuel table rs n)
            ls
            (join_rows fs left right left_len right_len key_len condition join_type rights lefts)
    unfolding Yields next_left join_rows join_get slice_to
    next_left-Delivers fuel table rs zero ls lefts sv l b y w e = absurd (omega arith)
    next_left-Delivers fuel table rs (suc n) ls [] sv l b (s', a, g) w e = λ buf lf f size.
        let at_end : Executor fs left right left_len right_len key_len condition join_type =
          record (state fs left right left_len right_len key_len condition join_type fuel table rs
            ls buf lf f []) { left_state = s'; done = true } in
        (at_end, rw (a, g) refl, refl)
    next_left-Delivers fuel table rs (suc n) ls (row ∷ lefts) sv l b (s', a, g, y) w e =
        λ buf lf f size.
          let long : leb key_len (length row.0) ≡ true =
            le→leb key_len (length row.0) (omega (arith, w.0)) in
          rw (a, g, long)
            (with_bucket-Delivers fs left right left_len right_len key_len condition join_type fuel
              table rs k_left k_right row s'
              (join_rows fs left right left_len right_len key_len condition join_type rights lefts)
              (partners key_len (take key_len row.0) rights)
              (from_left fs left right left_len right_len key_len condition join_type fuel table rs
                n)
              (get_bucket (take key_len row.0) table) (sv (take key_len row.0)) w.0
              (partners-IsRest key_len right_len (take key_len row.0) rights wide) e.0
              (next_left-Delivers fuel table rs n s' lefts sv (omega arith) (omega arith) y w.1 e.1)
              (next_left-Delivers fuel table rs fuel s' lefts sv (omega arith) (omega arith) y w.1
                e.1)
              buf lf f size)

    All-HasKey :
        (rows : List (Row x))
        → All (HasLength right_len) rows
        → All (λ row. key_len ≤ length row.0) rows
    All-HasKey [] h = tt
    All-HasKey (row ∷ rows) h = (omega (arith, h.0), All-HasKey rows h.1)

    -- A new executor delivers the rows that nested loops over its two sources give: each left row with
    -- those right rows whose key is equal to its own and has no null and for which the condition is true,
    -- in order, with the product of the frequencies; in a left outer join a left row without any comes
    -- with nulls. The sources deliver rows of the widths that they declare, the key is at most as wide
    -- as both, the condition has a value where the keys are equal, the equalities of decimals and of
    -- json paths are equivalences, and the bound of a call is above the numbers of rows.
    pub hash_join_executor-Yields :
        (fuel : ℕ) (ls : left.State) (lefts : List (Row x)) (rs : right.State)
        → length lefts < fuel
        → length rights < fuel
        → Yields left ls lefts
        → Yields right rs rights
        → All (HasLength left_len) lefts
        → AllEvaluate rights lefts
        → Yields
            (hash_join_executor fs left right left_len key_len condition join_type fuel)
            (new_join fs left right left_len key_len condition join_type ls rs right_len)
            (join_rows fs left right left_len right_len key_len condition join_type rights lefts)
    unfolding join_advance scan_bucket new_join get_bucket
    hash_join_executor-Yields fuel ls lefts rs l r yl yr w e =
        let (rs', table, built, sv) =
          build_table-Serves fs left right left_len key_len condition join_type dec path fuel rs
            rights [] (λ q. []) r yr (All-HasKey rights wide) (λ q. refl) in
        Delivers-Yields (hash_join_executor fs left right left_len key_len condition join_type fuel)
          _ _
          (rw built (
            next_left-Delivers fuel table rs' fuel ls lefts sv l (omega arith) yl w e
              (replicate (left_len + right_len) null) (pos 0) (pos 0)
              (length-replicate (left_len + right_len) null)))

-- ===== src/Executor/PointInTime/Sort/Rows.antt =====
-- src/executor/src/point_in_time/sort.rs: the rows of a sort.
use incresql.Prelude.{
  ℕ, ◌^◌, ◌<◌, ◌≡◌, refl, sym, ◌∙◌, arith, List, [], ◌∷◌, ◌++◌, append-nil, map, length, All,
  replicate, length-map, length-replicate,
}
use incresql.Prelude.Int.{ℤ, pos}
use incresql.Data.Datum.{Externals, Datum, null}
use incresql.Data.Datum.Stored.{stored}
use incresql.Data.TupleIter.{TupleIter, Row, Yields, Delivers, Delivers-Yields}
use incresql.Encoding.SortOrder.{asc}
use incresql.Encoding.Signed.{write_varint_signed}
use incresql.Encoding.Signed.RoundTrip.{read-write_varint_signed}
use incresql.Encoding.Datums.{DecimalCodec}
use incresql.Functions.{Functions}
use incresql.Ast.Expr.{SortExpression}
use incresql.Executor.PointInTime.Sort.{
  SortExecutor, done, serving, slice, ingest, serve, sort_advance, sort_get, sort_executor,
  new_sort,
}
use incresql.Executor.PointInTime.Sort.Order.{
  sort_by, sort_by-perm, sort_by-Ordered, sort_by-Zipped, Zipped, Ordered, KeyLe, BytesLe-BytesLt,
  All-sort_by,
}
use incresql.Executor.PointInTime.Sort.Form.{
  Keyed, KeysBefore, KeysBefore-BytesLt, datums_form, skip_keys-form, read_datums-form,
}
use mathlib.Core.List.{Perm}
use incresql.Executor.PointInTime.Sort.Buffer.{
  form, forms, IsSortable, ranges, checked_slice-slice, ingest_loop-forms, Holds, ranges-Holds,
}

module _ {x : Externals} (fs : Functions x) (codec : DecimalCodec x) (source : TupleIter x)
    (exprs : List (SortExpression fs)) (column_count : ℕ) where
  -- What is left of a row by its trip through the buffer.
  abbrev pub stored_row : Keyed x → Row x
  stored_row (row, keys) = (map stored row.0, row.1)

  abbrev at_range :
      source.State → List ℕ → List (ℕ × ℕ) → List (Datum x) → ℤ → SortExecutor fs codec source exprs
  at_range s buffer indexes tuple freq = record {
    source_state = s;
    sort_buffer = buffer;
    sort_indexes = indexes;
    state = serving;
    tuple_buffer = tuple;
    freq = freq;
  }

  serve-Delivers :
      (fuel : ℕ) (s : source.State) (buffer : List ℕ) (indexes : List (ℕ × ℕ))
      (keyed : List (Keyed x)) (tuple : List (Datum x)) (freq : ℤ)
      → length tuple ≡ column_count
      → Zipped (Holds fs codec source exprs column_count buffer) indexes keyed
      → All (IsSortable fs codec source exprs column_count) keyed
      → Delivers
          (sort_executor fs codec source exprs fuel)
          (serve fs codec source exprs (at_range s buffer indexes tuple freq) indexes)
          (map stored_row keyed)
  unfolding serve sort_advance sort_get form
  serve-Delivers fuel s buffer [] [] tuple freq l z v =
      let ended = record (at_range s buffer [] tuple freq) { sort_buffer = []; state = done } in
      (ended, refl, refl)
  serve-Delivers fuel s buffer [] (k ∷ keyed) tuple freq l z v = absurd z
  serve-Delivers fuel s buffer (r ∷ indexes) [] tuple freq l z v = absurd z
  serve-Delivers fuel s buffer (r ∷ indexes) ((row, keys) ∷ keyed) tuple freq l (h, z)
        ((ev, hk, hr, hf, len), v) =
      let data_part = datums_form fs codec row.0 in
      let freq_part = write_varint_signed row.1 asc [] in
      let back = rw (append-nil freq_part) at (read-write_varint_signed row.1 asc [] hf) in
      (
        at_range s buffer indexes (map stored row.0) row.1,
        rw
            (
              h,
              skip_keys-form fs codec source exprs exprs row.0 keys (data_part ++ freq_part) ev hk,
              read_datums-form fs codec source exprs row.0 tuple freq_part (l ∙ sym len) hr,
              back,
            )
            refl,
        refl,
        Delivers-Yields (sort_executor fs codec source exprs fuel) _ _ (
            serve-Delivers fuel s buffer indexes keyed (map stored row.0) row.1
              (length-map stored row.0 ∙ len) z v),
      )

  abbrev pub NotAfter : Keyed x → Keyed x → Type 0
  NotAfter a b = ¬ KeysBefore fs codec exprs b.1 a.1

  All-NotAfter :
      (a : Keyed x) (keyed : List (Keyed x))
      → (IsSortable fs codec source exprs column_count) a
      → All (IsSortable fs codec source exprs column_count) keyed
      → All (KeyLe (form fs codec source exprs column_count) a) keyed
      → All (NotAfter a) keyed
  unfolding form
  All-NotAfter a [] ha hs h = tt
  All-NotAfter a (b ∷ keyed) ha hs h = (
    λ k.
        BytesLe-BytesLt ((form fs codec source exprs column_count) a)
          ((form fs codec source exprs column_count) b) h.0
          (KeysBefore-BytesLt fs codec exprs b.1 a.1 _ _ hs.0.1 ha.1 k),
    All-NotAfter a keyed ha hs.1 h.1,
  )

  Ordered-NotAfter :
      (keyed : List (Keyed x))
      → All (IsSortable fs codec source exprs column_count) keyed
      → Ordered (KeyLe (form fs codec source exprs column_count)) keyed
      → Ordered NotAfter keyed
  Ordered-NotAfter [] h o = tt
  Ordered-NotAfter (a ∷ keyed) h o =
      (All-NotAfter a keyed h.0 h.1 o.0, Ordered-NotAfter keyed h.1 o.1)

  -- The executor delivers the rows of its source rearranged, and ends: no row comes after one whose
  -- sort keys are behind its own, where the first keys that differ decide by `cmp` if they have one
  -- type or the smaller is null, in descending order the other way round. The contents of every row
  -- and its frequency are kept (bytes on the heap). The expressions have values on all rows, the
  -- values and the columns of the rows fit their types and none is a decimal, a json path among
  -- them parses from its text, the bound of a call is above the number of rows, and the buffer
  -- stays below 4 GB.
  pub sort_executor-Yields :
      (fuel : ℕ) (s : source.State) (keyed : List (Keyed x))
      → length keyed < fuel
      → Yields source s (map (λ k. k.0) keyed)
      → All (IsSortable fs codec source exprs column_count) keyed
      → length (forms fs codec source exprs column_count keyed) < 2 ^ 32
      → (sorted : List (Keyed x)) × Perm sorted keyed
        × Ordered NotAfter sorted
        × Yields
            (sort_executor fs codec source exprs fuel)
            (new_sort fs codec source exprs s column_count)
            (map stored_row sorted)
  unfolding sort_advance ingest new_sort
  sort_executor-Yields fuel s keyed l y v b =
      let (s', e) =
        ingest_loop-forms fs codec source exprs column_count fuel s keyed [] [] l y v
          (omega arith) in
      let buffer = forms fs codec source exprs column_count keyed in
      let sorted = sort_by (form fs codec source exprs column_count) keyed in
      let placed =
        sort_by-Zipped (slice buffer) (form fs codec source exprs column_count)
          (Holds fs codec source exprs column_count buffer)
          (λ r k. checked_slice-slice buffer ((form fs codec source exprs column_count) k) r)
          (ranges fs codec source exprs column_count 0 keyed) keyed
          (ranges-Holds fs codec source exprs column_count [] keyed 0 refl) in
      let valid =
        All-sort_by (form fs codec source exprs column_count)
          (IsSortable fs codec source exprs column_count) keyed v in
      (
        sorted,
        sort_by-perm (form fs codec source exprs column_count) keyed,
        Ordered-NotAfter sorted valid
            (sort_by-Ordered (form fs codec source exprs column_count) keyed),
        Delivers-Yields (sort_executor fs codec source exprs fuel) _ _ (
            rw e (
              serve-Delivers fuel s' buffer
                (sort_by (slice buffer) (ranges fs codec source exprs column_count 0 keyed)) sorted
                (replicate column_count null) (pos 0) (length-replicate column_count null) placed
                valid)),
      )

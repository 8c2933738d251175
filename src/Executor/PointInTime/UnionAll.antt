-- ===== src/Executor/PointInTime/UnionAll.antt =====
-- src/executor/src/point_in_time/union_all.rs.
use incresql.Prelude.{refl, Option, none, some, List, [], ◌∷◌, ◌++◌, ◌>>=◌}
use incresql.Data.Datum.{Externals}
use incresql.Data.TupleIter.{TupleIter, Row, Yields, Yields-advance}

-- The sources are of one type, which can be a sum of others.
module _ {x : Externals} (source : TupleIter x) where
  -- The current source and those after it.
  abbrev State : Type 0
  State = source.State × List source.State

  -- The `loop` goes round once for each source that is at its end.
  unfoldable pub advance : source.State → List source.State → Option State
  advance curr_source [] = do curr ← source.advance curr_source; some (curr, [])
  advance curr_source (next ∷ sources) =
      let later = advance next sources in
      source.advance curr_source
      >>= (λ curr. elim (source.get curr) [ none ↦ later | some row ↦ some (curr, next ∷ sources) ])

  abbrev pub union_all_executor : TupleIter x
  union_all_executor = record {
    State = State;
    advance = λ s. advance s.0 s.1;
    get = λ s. source.get s.0;
  }

  -- Each source with the rows that it delivers.
  unfoldable pub AllYield : List source.State → List (List (Row x)) → Type 0
  AllYield [] [] = Unit
  AllYield [] (rows ∷ rest) = ⊥
  AllYield (s ∷ sources) [] = ⊥
  AllYield (s ∷ sources) (rows ∷ rest) = Yields source s rows × AllYield sources rest

  unfoldable pub concat : List (List (Row x)) → List (Row x)
  concat [] = []
  concat (rows ∷ rest) = rows ++ concat rest

  -- The executor delivers the rows of its first source, then those of the second, and so on to the
  -- last.
  pub union_all_executor-Yields :
      (first : source.State) (rows : List (Row x)) (sources : List source.State)
      (rest : List (List (Row x)))
      → Yields source first rows
      → AllYield sources rest
      → Yields union_all_executor (first, sources) (rows ++ concat rest)
  unfolding Yields AllYield concat advance
  union_all_executor-Yields first [] [] [] (s', a, g) h = ((s', []), rw a refl, g)
  union_all_executor-Yields first rows [] (r ∷ rest) y h = absurd h
  union_all_executor-Yields first rows (s ∷ sources) [] y h = absurd h
  union_all_executor-Yields first [] (s ∷ sources) (r ∷ rest) (s', a, g) h =
      Yields-advance union_all_executor (first, s ∷ sources) (s, sources) (r ++ concat rest)
        (rw (a, g) refl) (union_all_executor-Yields s r sources rest h.0 h.1)
  union_all_executor-Yields first (row ∷ rows) [] [] (s', a, g, y) h =
      ((s', []), rw a refl, g, union_all_executor-Yields s' rows [] [] y h)
  union_all_executor-Yields first (row ∷ rows) (s ∷ sources) (r ∷ rest) (s', a, g, y) h = (
    (s', s ∷ sources),
    rw (a, g) refl,
    g,
    union_all_executor-Yields s' rows (s ∷ sources) (r ∷ rest) y h,
  )

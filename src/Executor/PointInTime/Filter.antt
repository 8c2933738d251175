-- ===== src/Executor/PointInTime/Filter.antt =====
-- src/executor/src/point_in_time/filter.rs.
use incresql.Prelude.{
  ℕ, zero, suc, ◌<◌, ◌≡◌, ◌≤◌, ◌∙◌, refl, arith, true, Bool-cases, inl, inr, Option, none, some,
  List, [], ◌∷◌, ◌>>=◌, if◌then◌else◌, length, All,
}
use incresql.Data.Datum.{Externals, Datum, boolean, sql_eq}
use incresql.Data.TupleIter.{TupleIter, Row, Yields}
use incresql.Functions.{Functions}
use incresql.Ast.Expr.{Expression}
use incresql.Executor.Scalar.{eval_scalar}
use incresql.Planner.Expr.Predicates.{holds}

module _ {x : Externals} (fs : Functions x) (source : TupleIter x) (predicate : Expression fs) where
  -- The `while let`, with a bound on the rows that one call reads.
  unfoldable pub filter_loop : ℕ → source.State → Option source.State
  filter_loop zero s = none
  filter_loop (suc fuel) s = source.advance s >>= (λ s'.
      let again = filter_loop fuel s' in
      elim (source.get s') [
        | none ↦ some s'
        | some row ↦
            eval_scalar fs row.0 predicate
            >>= (λ datum. if sql_eq datum (boolean true) true then some s' else again)
      ])

  abbrev pub filter_executor : ℕ → TupleIter x
  filter_executor fuel = record {
    State = source.State;
    advance = filter_loop fuel;
    get = source.get;
  }

  -- The rows that pass the predicate.
  unfoldable pub passing : List (Row x) → List (Row x)
  passing [] = []
  passing (row ∷ rows) = if holds fs row.0 predicate then row ∷ passing rows else passing rows

  abbrev pub Evaluates : Row x → Type 0
  Evaluates row = (datum : Datum x) × (eval_scalar fs row.0 predicate ≡ some datum)

  module _ (fuel : ℕ) where
    -- The first call with a bound of its own.
    unfoldable Starts : ℕ → source.State → List (Row x) → Type 0
    Starts n s [] = (s' : source.State) × (filter_loop n s ≡ some s') × (source.get s' ≡ none)
    Starts n s (row ∷ rows) =
        (s' : source.State) × (filter_loop n s ≡ some s')
        × (source.get s' ≡ some row)
        × Yields (filter_executor fuel) s' rows

    Starts-Yields :
        (s : source.State) (rows : List (Row x))
        → Starts fuel s rows
        → Yields (filter_executor fuel) s rows
    unfolding Starts Yields
    Starts-Yields s [] h = h
    Starts-Yields s (row ∷ rows) h = h

    Starts-again :
        (m n : ℕ) (s t : source.State) (rows : List (Row x))
        → filter_loop m s ≡ filter_loop n t
        → Starts n t rows
        → Starts m s rows
    unfolding Starts
    Starts-again m n s t [] h (s', a, g) = (s', h ∙ a, g)
    Starts-again m n s t (row ∷ rows) h (s', a, g, y) = (s', h ∙ a, g, y)

    loop-Starts :
        (n : ℕ) (s : source.State) (rows : List (Row x))
        → length rows < n
        → n ≤ fuel
        → Yields source s rows
        → All Evaluates rows
        → Starts n s (passing rows)
    unfolding Starts Yields filter_loop passing eval_scalar
    loop-Starts zero s rows l b y e = absurd (omega arith)
    loop-Starts (suc n) s [] l b (s', a, g) e = (s', rw (a, g) refl, g)
    loop-Starts (suc n) s (row ∷ rows) l b (s', a, g, y) ((datum, ev), e) =
        elim (Bool-cases (sql_eq datum (boolean true) true)) [
          | inl h ↦
              rw (ev, h)
                (
                  s',
                  rw (a, g, ev, h) refl,
                  g,
                  Starts-Yields s' (passing rows)
                      (loop-Starts fuel s' rows (omega arith) (omega arith) y e),
                )
          | inr h ↦
              rw (ev, h)
                (Starts-again (suc n) n s s' (passing rows) (rw (a, g, ev, h) refl)
                  (loop-Starts n s' rows (omega arith) (omega arith) y e))
        ]

    -- Where the predicate has a value on every row of the source and the bound is above the number
    -- of rows, the executor delivers the rows of the source that pass the predicate, in their order,
    -- and ends.
    pub filter_executor-Yields :
        (s : source.State) (rows : List (Row x))
        → length rows < fuel
        → Yields source s rows
        → All Evaluates rows
        → Yields (filter_executor fuel) s (passing rows)
    filter_executor-Yields s rows l y e =
        Starts-Yields s (passing rows) (loop-Starts fuel s rows l (omega arith) y e)

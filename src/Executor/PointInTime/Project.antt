-- ===== src/Executor/PointInTime/Project.antt =====
-- src/executor/src/point_in_time/project.rs.
use incresql.Prelude.{◌≡◌, refl, sym, ap, Option, none, some, List, [], ◌∷◌, ◌>>=◌}
use incresql.Data.Datum.{Externals, Datum}
use incresql.Data.TupleIter.{TupleIter, Row, Yields}
use incresql.Functions.{Functions}
use incresql.Ast.Expr.{Args}
use incresql.Executor.Scalar.{eval_scalar_row}
use mathlib.Core.Option

module _ {x : Externals} (fs : Functions x) (source : TupleIter x) (expressions : Args fs) where
  -- The source and the buffer for the row.
  abbrev State : Type 0
  State = source.State × List (Datum x)

  unfoldable pub advance : State → Option State
  advance (s, tuple_buffer) = do
    s' ← source.advance s
    elim (source.get s') [
      | none ↦ some (s', tuple_buffer)
      | some (tuple, freq) ↦ (do buffer ← eval_scalar_row fs tuple expressions; some (s', buffer))
    ]

  unfoldable pub get : State → Option (Row x)
  get (s, tuple_buffer) = Option.map (λ row. (tuple_buffer, row.1)) (source.get s)

  abbrev pub project_executor : TupleIter x
  project_executor = record { State = State; advance = advance; get = get }

  -- The rows that evaluating the expressions makes of the rows of the source.
  unfoldable pub Projected : List (Row x) → List (Row x) → Type 0
  Projected [] [] = Unit
  Projected [] (out ∷ outs) = ⊥
  Projected (row ∷ rows) [] = ⊥
  Projected (row ∷ rows) (out ∷ outs) =
      (eval_scalar_row fs row.0 expressions ≡ some out.0) × (out.1 ≡ row.1) × Projected rows outs

  -- Where the expressions have values on all rows of the source, the executor delivers those values,
  -- row by row, with the frequencies of the source.
  pub project_executor-Yields :
      (s : source.State) (buffer : List (Datum x)) (rows outs : List (Row x))
      → Yields source s rows
      → Projected rows outs
      → Yields project_executor (s, buffer) outs
  unfolding Yields Projected advance get
  project_executor-Yields s buffer [] [] (s', a, g) p = ((s', buffer), rw (a, g) refl, rw g refl)
  project_executor-Yields s buffer [] (out ∷ outs) y p = absurd p
  project_executor-Yields s buffer (row ∷ rows) [] y p = absurd p
  project_executor-Yields s buffer (row ∷ rows) (out ∷ outs) (s', a, g, rest) (e, f, p) = (
    (s', out.0),
    rw (a, g, e) refl,
    rw g (ap (λ f. some (out.0, f)) (sym f)),
    project_executor-Yields s' out.0 rows outs rest p,
  )

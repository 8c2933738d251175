-- ===== src/Executor/PointInTime/Sources.antt =====
-- src/executor/src/point_in_time/values.rs and single.rs: the sources of constant rows.
use incresql.Prelude.{refl, Option, none, some, List, [], ◌∷◌, map}
use incresql.Prelude.Int.{pos}
use incresql.Data.Datum.{Externals, Datum}
use incresql.Data.TupleIter.{TupleIter, Row, Yields}
use mathlib.Core.Option

pub data SingleState : Type 0 where
  ready single done : SingleState

-- The iterator over the rows is the list of those to come.
pub record ValuesExecutor (x : Externals) : Type 0 where
  pub iter : List (List (Datum x))
  pub curr_row : Option (List (Datum x))

abbrev pub single_advance : SingleState → Option SingleState
single_advance ready = some single
single_advance single = some done
single_advance done = some done

module _ {x : Externals} where
  unfoldable pub values_advance : ValuesExecutor x → Option (ValuesExecutor x)
  values_advance e = elim e.iter [
    | [] ↦ some (record { iter = []; curr_row = none })
    | row ∷ rows ↦ some (record { iter = rows; curr_row = some row })
  ]

  abbrev pub values_executor : TupleIter x
  values_executor = record {
    State = ValuesExecutor x;
    advance = values_advance;
    get = λ e. Option.map (λ row. (row, pos 1)) e.curr_row;
  }

  -- The executor delivers its rows, each once, and then the end.
  pub values_executor-Yields :
      (rows : List (List (Datum x))) (curr : Option (List (Datum x)))
      → Yields values_executor
          (record { iter = rows; curr_row = curr })
          (map (λ row. (row, pos 1)) rows)
  unfolding Yields values_advance
  values_executor-Yields [] curr = (record { iter = []; curr_row = none }, refl, refl)
  values_executor-Yields (row ∷ rows) curr = (
    record { iter = rows; curr_row = some row },
    refl,
    refl,
    values_executor-Yields rows (some row),
  )

  abbrev pub single_get : SingleState → Option (Row x)
  single_get ready = none
  single_get single = some ([], pos 1)
  single_get done = none

  abbrev pub single_executor : TupleIter x
  single_executor = record { State = SingleState; advance = single_advance; get = single_get }

-- The executor delivers one row without columns.
pub single_executor-Yields :
    (x : Externals) → Yields (single_executor {x = x}) ready (([], pos 1) ∷ [])
unfolding Yields
single_executor-Yields x = (single, refl, refl, (done, refl, refl))

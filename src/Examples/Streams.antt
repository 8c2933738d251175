-- ===== src/Examples/Streams.antt =====
-- An iterator over a list, and the joins, sorts and groups of small lists.
pub mod Join
pub mod Sort
pub mod Group
use incresql.Prelude.{refl, Option, none, some, List, [], ◌∷◌}
use incresql.Data.TupleIter.{TupleIter, Row, Yields}
use incresql.Examples.Sample.{sample_externals}

-- The row it is at, and those to come.
abbrev pub list_iter : TupleIter sample_externals
list_iter = record {
  State = Option (Row sample_externals) × List (Row sample_externals);
  advance = λ s. elim s.1 [ [] ↦ some (none, []) | row ∷ rows ↦ some (some row, rows) ];
  get = λ s. s.0;
}

pub list_iter-Yields :
    (row : Option (Row sample_externals)) (rows : List (Row sample_externals))
    → Yields list_iter (row, rows) rows
unfolding Yields
list_iter-Yields row [] = ((none, []), refl, refl)
list_iter-Yields row (r ∷ rows) = ((some r, rows), refl, refl, list_iter-Yields (some r) rows)

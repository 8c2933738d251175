-- ===== src/Data/TupleIter.antt =====
-- src/data/src/tuple_iter.rs: streams of rows with frequencies.
pub mod Peekable
use incresql.Prelude.{◌≡◌, ◌∙◌, Option, none, some, List, [], ◌∷◌}
use incresql.Prelude.Int.{ℤ}
use incresql.Data.Datum.{Externals, Datum}

abbrev pub Row : Externals → Type 0
Row x = List (Datum x) × ℤ

-- The trait: `none` of `advance` is an error or a panic, that of `get` the end.
pub record TupleIter (x : Externals) : Type 1 where
  pub State : Type 0
  pub advance : State → Option State
  pub get : State → Option (Row x)

module _ {x : Externals} (iter : TupleIter x) where
  open iter use {State, advance, get}

  -- The iterator delivers these rows, one for each `next`, and then the end.
  unfoldable pub Yields : State → List (Row x) → Type 0
  Yields s [] = (s' : State) × (advance s ≡ some s') × (get s' ≡ none)
  Yields s (row ∷ rows) =
      (s' : State) × (advance s ≡ some s') × (get s' ≡ some row) × Yields s' rows

  -- What an iterator delivers depends on where `advance` leads alone.
  pub Yields-advance :
      (s t : State) (rows : List (Row x)) → advance s ≡ advance t → Yields t rows → Yields s rows
  unfolding Yields
  Yields-advance s t [] h (s', a, g) = (s', h ∙ a, g)
  Yields-advance s t (row ∷ rows) h (s', a, g, y) = (s', h ∙ a, g, y)

  -- The same of a call of `advance` that is under way.
  abbrev pub Delivers : Option State → List (Row x) → Type 0
  Delivers m [] = (s' : State) × (m ≡ some s') × (get s' ≡ none)
  Delivers m (row ∷ rows) = (s' : State) × (m ≡ some s') × (get s' ≡ some row) × Yields s' rows

  pub Delivers-Yields :
      (s : State) (rows : List (Row x)) → Delivers (advance s) rows → Yields s rows
  unfolding Yields
  Delivers-Yields s [] h = h
  Delivers-Yields s (row ∷ rows) h = h

  pub Yields-Delivers :
      (s : State) (rows : List (Row x)) → Yields s rows → Delivers (advance s) rows
  unfolding Yields
  Yields-Delivers s [] h = h
  Yields-Delivers s (row ∷ rows) h = h

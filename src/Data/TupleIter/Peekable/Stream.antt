-- ===== src/Data/TupleIter/Peekable/Stream.antt =====
-- src/data/src/tuple_iter.rs: the rows that come from a `PeekableIter`.
use incresql.Prelude.{◌≡◌, refl, true, false, Bool, none, some, List, [], ◌∷◌}
use incresql.Data.Datum.{Externals}
use incresql.Data.TupleIter.{TupleIter, Row, Yields}
use incresql.Data.TupleIter.Peekable.{PeekableIter, advance_unless, next, peek, lock_in}

module _ {x : Externals} (iter : TupleIter x) where
  -- The iterator stands at the first of these rows.
  abbrev Stands : iter.State → List (Row x) → Type 0
  Stands s [] = iter.get s ≡ none
  Stands s (row ∷ rows) = (iter.get s ≡ some row) × Yields iter s rows

  abbrev RowsCome : Bool → iter.State → List (Row x) → Type 0
  RowsCome true s rows = Stands s rows
  RowsCome false s rows = Yields iter s rows

  -- These rows come next.
  unfoldable pub Comes : PeekableIter iter → List (Row x) → Type 0
  Comes p rows = RowsCome p.advanced p.inner rows

  abbrev at : iter.State → Bool → PeekableIter iter
  at s b = record { inner = s; advanced = b }

  next_row :
      (b : Bool) (s : iter.State) (row : Row x) (rows : List (Row x))
      → RowsCome b s (row ∷ rows)
      → (q : PeekableIter iter) × (next iter (at s b) ≡ some (some row, q)) × Comes q rows
  unfolding Comes next advance_unless Yields
  next_row true s row rows (g, y) = (at s false, rw g refl, y)
  next_row false s row rows (s', a, g, y) = (at s' false, rw (a, g) refl, y)

  next_end :
      (b : Bool) (s : iter.State)
      → RowsCome b s []
      → (q : PeekableIter iter) × (next iter (at s b) ≡ some (none, q))
  unfolding next advance_unless Yields
  next_end true s g = (at s true, rw g refl)
  next_end false s (s', a, g) = (at s' true, rw (a, g) refl)

  peek_row :
      (b : Bool) (s : iter.State) (row : Row x) (rows : List (Row x))
      → RowsCome b s (row ∷ rows)
      → (q : PeekableIter iter) × (peek iter (at s b) ≡ some (some row, q))
        × Comes q (row ∷ rows)
        × Comes (lock_in iter q) rows
  unfolding Comes peek advance_unless lock_in Yields
  peek_row true s row rows (g, y) = (at s true, rw g refl, (g, y), y)
  peek_row false s row rows (s', a, g, y) = (at s' true, rw (a, g) refl, (g, y), y)

  peek_end :
      (b : Bool) (s : iter.State)
      → RowsCome b s []
      → (q : PeekableIter iter) × (peek iter (at s b) ≡ some (none, q)) × Comes q []
  unfolding Comes peek advance_unless Yields
  peek_end true s g = (at s true, rw g refl, g)
  peek_end false s (s', a, g) = (at s' true, rw (a, g) refl, g)

  module _ (p : PeekableIter iter) where
    pub next-Comes_row :
        (row : Row x) (rows : List (Row x))
        → Comes p (row ∷ rows)
        → (q : PeekableIter iter) × (next iter p ≡ some (some row, q)) × Comes q rows
    unfolding Comes
    next-Comes_row row rows h = next_row p.advanced p.inner row rows h

    pub next-Comes_end : Comes p [] → (q : PeekableIter iter) × (next iter p ≡ some (none, q))
    unfolding Comes
    next-Comes_end h = next_end p.advanced p.inner h

    pub peek-Comes_row :
        (row : Row x) (rows : List (Row x))
        → Comes p (row ∷ rows)
        → (q : PeekableIter iter) × (peek iter p ≡ some (some row, q))
          × Comes q (row ∷ rows)
          × Comes (lock_in iter q) rows
    unfolding Comes
    peek-Comes_row row rows h = peek_row p.advanced p.inner row rows h

    pub peek-Comes_end :
        Comes p [] → (q : PeekableIter iter) × (peek iter p ≡ some (none, q)) × Comes q []
    unfolding Comes
    peek-Comes_end h = peek_end p.advanced p.inner h

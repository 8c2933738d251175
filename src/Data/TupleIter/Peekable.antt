-- ===== src/Data/TupleIter/Peekable.antt =====
-- src/data/src/tuple_iter.rs: `PeekableIter`, which can look at the next row before it is taken.
pub mod Stream
use incresql.Prelude.{◌≡◌, refl, ap, arith, Bool, true, false, Option, none, some, ◌>>=◌}
use incresql.Data.Datum.{Externals}
use incresql.Data.TupleIter.{TupleIter, Row}
use mathlib.Core.Option

module _ {x : Externals} (iter : TupleIter x) where
  pub record PeekableIter : Type 0 where
    pub inner : iter.State
    pub advanced : Bool

  -- `if !self.advanced { self.inner.advance()?; }`.
  unfoldable pub advance_unless : Bool → iter.State → Option iter.State
  advance_unless true inner = some inner
  advance_unless false inner = iter.advance inner

  -- Whether the iterator counts as advanced after `next`: at its end it stays there.
  abbrev stays : Option (Row x) → Bool
  stays none = true
  stays (some row) = false

  -- What the two return and leave at a state of the inner iterator.
  abbrev taken : iter.State → Option (Row x) × PeekableIter
  taken inner = (iter.get inner, record { inner = inner; advanced = stays (iter.get inner) })

  abbrev seen : iter.State → Option (Row x) × PeekableIter
  seen inner = (iter.get inner, record { inner = inner; advanced = true })

  unfoldable pub next : PeekableIter → Option (Option (Row x) × PeekableIter)
  next p = do inner ← advance_unless p.advanced p.inner; some (taken inner)

  unfoldable pub peek : PeekableIter → Option (Option (Row x) × PeekableIter)
  peek p = do inner ← advance_unless p.advanced p.inner; some (seen inner)

  unfoldable pub lock_in : PeekableIter → PeekableIter
  lock_in p = record { inner = p.inner; advanced = false }

  next-seen :
      (m : Option iter.State)
      → ((m >>= (λ inner. some (seen inner))) >>= (λ r. next r.1))
        ≡ (m >>= (λ inner. some (taken inner)))
  unfolding next advance_unless
  next-seen none = refl
  next-seen (some inner) = refl

  peek-seen :
      (m : Option iter.State)
      → ((m >>= (λ inner. some (seen inner))) >>= (λ r. peek r.1))
        ≡ (m >>= (λ inner. some (seen inner)))
  unfolding peek advance_unless
  peek-seen none = refl
  peek-seen (some inner) = refl

  lock_in-seen :
      (m : Option iter.State) (row : Row x) (q : PeekableIter)
      → (m >>= (λ inner. some (seen inner))) ≡ some (some row, q)
      → (m >>= (λ inner. some (taken inner))) ≡ some (some row, lock_in q)
  unfolding lock_in
  lock_in-seen none row q h = absurd (ground arith)
  lock_in-seen (some inner) row q h =
      let e = Option.some-injective (seen inner) (some row, q) h in
      let at : iter.get inner ≡ some row = ap (λ r. r.0) e in
      rw at (ap (λ r. some (some row, lock_in r.1)) e)

  -- Peeking first does not change what `next` returns, nor the state that it leaves.
  pub next-peek : (p : PeekableIter) → (peek p >>= (λ r. next r.1)) ≡ next p
  unfolding peek next
  next-peek p = next-seen (advance_unless p.advanced p.inner)

  -- Peeking twice returns and leaves what peeking once does.
  pub peek-peek : (p : PeekableIter) → (peek p >>= (λ r. peek r.1)) ≡ peek p
  unfolding peek
  peek-peek p = peek-seen (advance_unless p.advanced p.inner)

  -- Where a peek sees a row, `lock_in` after it leaves what `next` would have left, and `next` would
  -- have returned that row.
  pub lock_in-peek :
      (p q : PeekableIter) (row : Row x)
      → peek p ≡ some (some row, q)
      → next p ≡ some (some row, lock_in q)
  unfolding peek next
  lock_in-peek p q row h = lock_in-seen (advance_unless p.advanced p.inner) row q h

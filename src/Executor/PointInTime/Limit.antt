-- ===== src/Executor/PointInTime/Limit.antt =====
-- src/executor/src/point_in_time/limit.rs.
use incresql.Prelude.{All-drop}
use incresql.Prelude.{
  ℕ, zero, suc, ◌^◌, ◌<◌, ◌≤◌, ◌≡◌, refl, sym, ap, arith, true, false, Option, none, some, List, [],
  ◌∷◌, ◌>>=◌, if◌then◌else◌, length, take, drop, All,
}
use incresql.Prelude.Int.{ℤ, pos, ◌-ℤ◌, ltb_ℤ, leb_ℤ, eqb_ℤ}
use incresql.Data.Datum.{Externals}
use incresql.Data.TupleIter.{TupleIter, Row, Yields, Yields-advance}
use incresql.Encoding.Signed.{neg_i64}
use incresql.Storage.Writer.{wrap_i64}
use mathlib.Core.Option

abbrev min_ℤ : ℤ → ℤ → ℤ
min_ℤ a b = if leb_ℤ a b then a else b

module _ {x : Externals} (source : TupleIter x) where
  pub record LimitExecutor : Type 0 where
    pub source_state : source.State
    pub offset_remaining : ℤ
    pub limit_remaining : ℤ
    pub current_freq : ℤ

  -- After the offset.
  unfoldable pub take_row : source.State → ℤ → ℤ → Option LimitExecutor
  take_row s offset limit =
      let ended : source.State → LimitExecutor = λ s'. record {
        source_state = s';
        offset_remaining = offset;
        limit_remaining = limit;
        current_freq = pos 0;
      } in
      if ltb_ℤ (pos 0) limit
      then (source.advance s >>= (λ s'. elim (source.get s') [
        | none ↦ some (ended s')
        | some row ↦ some (record {
          source_state = s';
          offset_remaining = offset;
          limit_remaining = wrap_i64 (limit -ℤ row.1);
          current_freq = min_ℤ row.1 limit;
        })
      ]))
      else some (ended s)

  -- The `while`, with a bound on the rows that one call skips.
  unfoldable pub skip_rows : ℕ → source.State → ℤ → ℤ → Option LimitExecutor
  skip_rows zero s offset limit = none
  skip_rows (suc fuel) s offset limit =
      if ltb_ℤ (pos 0) offset
      then (source.advance s >>= (λ s'. elim (source.get s') [
        | none ↦ take_row s' offset limit
        | some row ↦
            let rest = wrap_i64 (offset -ℤ row.1) in
            let again = skip_rows fuel s' rest limit in
            if ltb_ℤ rest (pos 0)
            then some (record {
              source_state = s';
              offset_remaining = rest;
              limit_remaining = limit;
              current_freq = neg_i64 rest;
            })
            else again
      ]))
      else take_row s offset limit

  unfoldable pub limit_get : LimitExecutor → Option (Row x)
  limit_get e =
      if eqb_ℤ e.current_freq (pos 0)
      then none
      else Option.map (λ row. (row.0, e.current_freq)) (source.get e.source_state)

  abbrev pub limit_executor : ℕ → TupleIter x
  limit_executor fuel = record {
    State = LimitExecutor;
    advance = λ e. skip_rows fuel e.source_state e.offset_remaining e.limit_remaining;
    get = limit_get;
  }

  abbrev pub at_offset : source.State → ℕ → ℕ → ℤ → LimitExecutor
  at_offset s offset limit freq = record {
    source_state = s;
    offset_remaining = pos offset;
    limit_remaining = pos limit;
    current_freq = freq;
  }

  abbrev pub IsSingle : Row x → Type 0
  IsSingle row = row.1 ≡ pos 1

  one_less : (n : ℕ) → n < 2 ^ 63 → wrap_i64 (pos (suc n) -ℤ pos 1) ≡ pos n
  unfolding wrap_i64 ◌-ℤ◌
  one_less n h = ground arith

  min_one : (n : ℕ) → min_ℤ (pos 1) (pos (suc n)) ≡ pos 1
  min_one n = ground arith

  positive : (n : ℕ) → ltb_ℤ (pos 0) (pos (suc n)) ≡ true
  positive n = ground arith

  take_single :
      (n : ℕ) (s s' : source.State) (row : Row x)
      → n < 2 ^ 63
      → source.advance s ≡ some s'
      → source.get s' ≡ some row
      → IsSingle row
      → take_row s (pos 0) (pos (suc n)) ≡ some (at_offset s' 0 n (pos 1))
  unfolding take_row
  take_single n s s' row b a g h = rw (positive n, a, g, h, one_less n b, min_one n) refl

  limit_alone :
      (fuel n : ℕ) (s : source.State) (rows : List (Row x)) (freq : ℤ)
      → n < 2 ^ 63
      → Yields source s rows
      → All IsSingle rows
      → Yields (limit_executor (suc fuel)) (at_offset s 0 n freq) (take n rows)
  unfolding Yields skip_rows take_row limit_get
  limit_alone fuel zero s rows freq b y h = (at_offset s 0 0 (pos 0), refl, refl)
  limit_alone fuel (suc n) s [] freq b (s', a, g) h =
      (at_offset s' 0 (suc n) (pos 0), rw (positive n, a, g) refl, refl)
  limit_alone fuel (suc n) s (row ∷ rows) freq b (s', a, g, y) h = (
    at_offset s' 0 n (pos 1),
    take_single n s s' row (omega arith) a g h.0,
    rw g (ap (λ f. some (row.0, f)) (sym h.0)),
    limit_alone fuel n s' rows (pos 1) (omega arith) y h.1,
  )

  skip_alone :
      (k o n : ℕ) (s : source.State) (rows : List (Row x))
      → o < k
      → o < 2 ^ 63
      → o ≤ length rows
      → Yields source s rows
      → All IsSingle rows
      → (s' : source.State) × (skip_rows k s (pos o) (pos n) ≡ take_row s' (pos 0) (pos n))
        × Yields source s' (drop o rows)
  unfolding Yields skip_rows
  skip_alone zero o n s rows k b l y h = absurd (omega arith)
  skip_alone (suc k) zero n s rows l b lr y h = (s, refl, y)
  skip_alone (suc k) (suc o) n s [] l b lr y h = absurd (omega arith)
  skip_alone (suc k) (suc o) n s (row ∷ rows) l b lr (s', a, g, y) h =
      let (t, e, rest) = skip_alone k o n s' rows (omega arith) (omega arith) (omega arith) y h.1 in
      let left : ltb_ℤ (pos o) (pos 0) ≡ false = ground arith in
      (t, rw (positive o, a, g, h.0, one_less o (omega arith), left) e, rest)

  -- From a source of rows with frequency 1 that has at least `offset` rows, the executor delivers the
  -- `limit` rows behind the first `offset` ones, or as many of them as there are. The two are `i64`,
  -- and the bound of a call is above the offset.
  pub limit_executor-Yields :
      (fuel offset limit : ℕ) (s : source.State) (rows : List (Row x))
      → offset ≤ fuel
      → offset < 2 ^ 63
      → limit < 2 ^ 63
      → offset ≤ length rows
      → Yields source s rows
      → All IsSingle rows
      → Yields
          (limit_executor (suc fuel))
          (at_offset s offset limit (pos 0))
          (take limit (drop offset rows))
  unfolding skip_rows
  limit_executor-Yields fuel offset limit s rows f bo bl l y h =
      let (t, e, rest) = skip_alone (suc fuel) offset limit s rows (omega arith) bo l y h in
      Yields-advance (limit_executor (suc fuel)) (at_offset s offset limit (pos 0))
        (at_offset t 0 limit (pos 0)) (take limit (drop offset rows)) e
        (limit_alone fuel limit t (drop offset rows) (pos 0) bl rest
          (All-drop IsSingle offset rows h))

-- ===== src/Functions/Aggregate.antt =====
-- src/functions/src/aggregate: count, and the sum of 64-bit integers. The state is one datum; `none` is the
-- panic of an index past the end, or of a state that is not of the type.
pub mod Totals
pub mod Sums
pub mod Interface
use incresql.Prelude.{
  ℕ, Bool, true, not, Option, none, some, List, [], ◌∷◌, get_elem?, if◌then◌else◌, ◌>>=◌,
}
use incresql.Prelude.Int.{ℤ, pos, ◌+ℤ◌, ◌*ℤ◌}
use incresql.Data.Datum.{Externals, Datum, null, big_int, is_null, as_maybe_bigint, as_static}
use incresql.Storage.Writer.{wrap_i64}

module _ {x : Externals} where
  unfoldable pub count_initialize : Datum x
  count_initialize = big_int (pos 0)

  -- `args.is_empty() || !args[0].is_null()`.
  unfoldable pub is_counted : List (Datum x) → Bool
  is_counted [] = true
  is_counted (a ∷ args) = not (is_null a)

  unfoldable pub count_apply : List (Datum x) → ℤ → Datum x → Option (Datum x)
  count_apply args freq state =
      let counted = (do count ← as_maybe_bigint state; some (big_int (wrap_i64 (count +ℤ freq)))) in
      if is_counted args then counted else some state

  unfoldable pub count_merge : Datum x → Datum x → Option (Datum x)
  count_merge input_state state = do
    count ← as_maybe_bigint state
    input ← as_maybe_bigint input_state
    some (big_int (wrap_i64 (count +ℤ input)))

  -- `*state[0].as_bigint_mut() += amount`.
  unfoldable pub add_to : Datum x → ℤ → Option (Datum x)
  add_to state amount = do sum ← as_maybe_bigint state; some (big_int (wrap_i64 (sum +ℤ amount)))

  unfoldable pub sum_integer : Option ℤ → ℤ → Datum x → Option (Datum x)
  sum_integer none freq state = some state
  sum_integer (some i) freq state =
      add_to (if is_null state then big_int (pos 0) else state) (wrap_i64 (freq *ℤ i))

  unfoldable pub bigint_sum_apply : List (Datum x) → ℤ → Datum x → Option (Datum x)
  bigint_sum_apply args freq state = do
    a ← get_elem? args 0
    sum_integer (as_maybe_bigint a) freq state

  unfoldable pub bigint_sum_merge : Datum x → Datum x → Option (Datum x)
  bigint_sum_merge input_state state = elim (as_maybe_bigint input_state) [
    | none ↦ some state
    | some i ↦ if is_null state then some (as_static input_state) else add_to state i
  ]

  -- The state after a sequence of arguments with frequencies, the calls that a group by makes.
  unfoldable pub apply_all :
      (List (Datum x) → ℤ → Datum x → Option (Datum x))
      → List (List (Datum x) × ℤ)
      → Datum x
      → Option (Datum x)
  apply_all apply [] state = some state
  apply_all apply ((args, freq) ∷ rows) state = do
    next ← apply args freq state
    apply_all apply rows next

-- ===== src/Functions/Aggregate/Sums.antt =====
-- src/functions/src/aggregate/maths/sum.rs: what the sum of 64-bit integers comes to.
use incresql.Prelude.{◌≡◌, refl, Option, none, some, ◌>>=◌, List, [], ◌∷◌, map}
use incresql.Prelude.Int.{ℤ, pos, ◌+ℤ◌, ◌*ℤ◌}
use incresql.Data.Datum.{Externals, Datum, null, big_int, is_null, as_maybe_bigint}
use incresql.Functions.Aggregate.{add_to, sum_integer, bigint_sum_apply, apply_all}
use incresql.Storage.Writer.{wrap_i64}
use incresql.Storage.Merge.Sum.{total}

unfoldable pub product_first : Option ℤ → ℤ → List ℤ → List ℤ
product_first none freq rest = rest
product_first (some i) freq rest = wrap_i64 (freq *ℤ i) ∷ rest

module _ {x : Externals} where
  -- Calls with one argument.
  abbrev pub one_arg : List (Datum x × ℤ) → List (List (Datum x) × ℤ)
  one_arg rows = map (λ row. (row.0 ∷ [], row.1)) rows

  -- The integer times its frequency, for each row that has an integer.
  unfoldable pub products : List (Datum x × ℤ) → List ℤ
  products [] = []
  products ((a, freq) ∷ rows) = product_first (as_maybe_bigint a) freq (products rows)

  -- The state for a list of amounts: null without any.
  unfoldable pub sum_state : List ℤ → Datum x
  sum_state [] = null
  sum_state (p ∷ ps) = big_int (total (pos 0) (p ∷ ps))

  first_integer :
      (m : Option ℤ) (freq n : ℤ) (rows : List (Datum x × ℤ))
      → ((k : ℤ)
          → apply_all bigint_sum_apply (one_arg rows) (big_int k)
            ≡ some (big_int (total k (products rows))))
      → (sum_integer m freq (big_int n) >>= apply_all bigint_sum_apply (one_arg rows))
        ≡ some (big_int (total n (product_first m freq (products rows))))
  unfolding sum_integer add_to product_first total as_maybe_bigint is_null
  first_integer none freq n rows h = h n
  first_integer (some i) freq n rows h = h (wrap_i64 (n +ℤ wrap_i64 (freq *ℤ i)))

  apply_all-big_int :
      (rows : List (Datum x × ℤ)) (n : ℤ)
      → apply_all bigint_sum_apply (one_arg rows) (big_int n)
        ≡ some (big_int (total n (products rows)))
  unfolding apply_all bigint_sum_apply products total
  apply_all-big_int [] n = refl
  apply_all-big_int ((a, freq) ∷ rows) n =
      first_integer (as_maybe_bigint a) freq n rows (λ m. apply_all-big_int rows m)

  first_sum :
      (m : Option ℤ) (freq : ℤ) (rows : List (Datum x × ℤ))
      → apply_all bigint_sum_apply (one_arg rows) null ≡ some (sum_state (products rows))
      → (sum_integer m freq null >>= apply_all bigint_sum_apply (one_arg rows))
        ≡ some (sum_state (product_first m freq (products rows)))
  unfolding sum_integer add_to product_first total sum_state as_maybe_bigint is_null
  first_sum none freq rows h = h
  first_sum (some i) freq rows h = apply_all-big_int rows (wrap_i64 (pos 0 +ℤ wrap_i64 (freq *ℤ i)))

  -- From its initial state, null, the sum over rows of one argument comes to the `i64` sum of the
  -- integers times their frequencies, and stays null where no row has an integer.
  pub bigint_sum_apply-total :
      (rows : List (Datum x × ℤ))
      → apply_all bigint_sum_apply (one_arg rows) null ≡ some (sum_state (products rows))
  unfolding apply_all bigint_sum_apply products sum_state
  bigint_sum_apply-total [] = refl
  bigint_sum_apply-total ((a, freq) ∷ rows) =
      first_sum (as_maybe_bigint a) freq rows (bigint_sum_apply-total rows)

-- ===== src/Examples/Aggregate.antt =====
-- The theorems on aggregates at concrete rows.
use incresql.Functions.Aggregate.{bigint_sum_apply}
use incresql.Functions.Aggregate.Sums.{
  bigint_sum_apply-total, one_arg, products, product_first, sum_state,
}
use incresql.Data.Datum.{as_maybe_bigint}
use incresql.Prelude.Int.{◌*ℤ◌}
use incresql.Prelude.{◌≡◌, arith, true, some, List, [], ◌∷◌, ◌++◌, ◌>>=◌}
use incresql.Prelude.Int.{ℤ, pos, negsuc, ◌+ℤ◌}
use incresql.Data.Datum.{null, boolean, big_int, is_null}
use incresql.Encoding.Signed.{neg_i64}
use incresql.Functions.Aggregate.{count_initialize, is_counted, count_apply, count_merge, apply_all}
use incresql.Functions.Aggregate.Totals.{
  count_apply-total, count_merge-append, count_apply-retract, counted_freqs,
}
use incresql.Storage.Merge.Sum.{total}
use incresql.Storage.Writer.{wrap_i64}
use incresql.Examples.Sample.{SampleDatum}

abbrev counted_rows : List (List SampleDatum × ℤ)
counted_rows = (boolean true ∷ [], pos 3) ∷ (null ∷ [], pos 5) ∷ (boolean true ∷ [], negsuc 0) ∷ []

count_apply-total_example :
    apply_all count_apply counted_rows count_initialize ≡ some (big_int (pos 2))
unfolding total counted_freqs is_counted is_null wrap_i64 ◌+ℤ◌
count_apply-total_example = count_apply-total counted_rows

count_merge-append_example :
    (apply_all count_apply counted_rows count_initialize >>= (λ state.
      apply_all count_apply counted_rows count_initialize
      >>= (λ input_state. count_merge input_state state)))
    ≡ apply_all count_apply (counted_rows ++ counted_rows) count_initialize
count_merge-append_example = count_merge-append counted_rows counted_rows

abbrev counted_args : List SampleDatum
counted_args = boolean true ∷ []

count_apply-retract_test :
    (count_apply counted_args (pos 4) (big_int (pos 9)) >>= count_apply counted_args (negsuc 3))
    ≡ some (big_int (pos 9))
unfolding neg_i64
count_apply-retract_test =
    count_apply-retract counted_args (pos 9) (pos 4) (omega arith) (omega arith)

-- 5 three times, a null, and 4 taken away once.
abbrev summed_rows : List (SampleDatum × ℤ)
summed_rows = (big_int (pos 5), pos 3) ∷ (null, pos 2) ∷ (big_int (pos 4), negsuc 0) ∷ []

bigint_sum_apply-total_example :
    apply_all bigint_sum_apply (one_arg summed_rows) null ≡ some (big_int (pos 11))
unfolding total products product_first sum_state as_maybe_bigint wrap_i64 ◌+ℤ◌ ◌*ℤ◌
bigint_sum_apply-total_example = bigint_sum_apply-total summed_rows

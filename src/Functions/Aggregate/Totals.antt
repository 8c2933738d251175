-- ===== src/Functions/Aggregate/Totals.antt =====
-- src/functions/src/aggregate: what count and sum come to, and the merging of two states.
use incresql.Prelude.{zero, suc}
use incresql.Prelude.Int.{negsuc}
use incresql.Encoding.Signed.{IsI64, neg_i64}
use incresql.Storage.Merge.Sum.{wrap_assoc, add_zero, wrap_i64_fits}
use incresql.Prelude.{
  ◌≡◌, refl, ap, ◌∙◌, arith, Bool-cases, inl, inr, some, List, [], ◌∷◌, ◌++◌, if◌then◌else◌, ◌>>=◌,
}
use incresql.Prelude.Int.{ℤ, pos, ◌+ℤ◌}
use incresql.Data.Datum.{Externals, Datum, big_int, as_maybe_bigint}
use incresql.Functions.Aggregate.{count_initialize, is_counted, count_apply, count_merge, apply_all}
use incresql.Storage.Writer.{wrap_i64}
use incresql.Storage.Merge.Sum.{total, total-append, total-change, total-IsI64}

cancel : (f : ℤ) → IsI64 f → wrap_i64 (f +ℤ neg_i64 f) ≡ pos 0
unfolding wrap_i64 ◌+ℤ◌ neg_i64
cancel (pos zero) h = ground arith
cancel (pos (suc n)) h = ground arith
cancel (negsuc n) h = ground arith

add_then_take : (n f : ℤ) → IsI64 n → IsI64 f → wrap_i64 (wrap_i64 (n +ℤ f) +ℤ neg_i64 f) ≡ n
add_then_take n f hn hf =
    wrap_assoc n f (neg_i64 f)
    ∙ ap (λ t. wrap_i64 (n +ℤ t)) (cancel f hf)
    ∙ ap wrap_i64 (add_zero n)
    ∙ wrap_i64_fits n hn

module _ {x : Externals} where
  -- The frequencies of the rows that count.
  unfoldable pub counted_freqs : List (List (Datum x) × ℤ) → List ℤ
  counted_freqs [] = []
  counted_freqs ((args, freq) ∷ rows) =
      if is_counted args then freq ∷ counted_freqs rows else counted_freqs rows

  counted_freqs-append :
      (rows more : List (List (Datum x) × ℤ))
      → counted_freqs (rows ++ more) ≡ counted_freqs rows ++ counted_freqs more
  unfolding counted_freqs
  counted_freqs-append [] more = refl
  counted_freqs-append ((args, freq) ∷ rows) more = elim (Bool-cases (is_counted args)) [
    | inl h ↦ rw h (ap (λ l. freq ∷ l) (counted_freqs-append rows more))
    | inr h ↦ rw h (counted_freqs-append rows more)
  ]

  apply_all-count :
      (rows : List (List (Datum x) × ℤ)) (n : ℤ)
      → apply_all count_apply rows (big_int n) ≡ some (big_int (total n (counted_freqs rows)))
  unfolding apply_all count_apply counted_freqs total as_maybe_bigint
  apply_all-count [] n = refl
  apply_all-count ((args, freq) ∷ rows) n = elim (Bool-cases (is_counted args)) [
    | inl h ↦ rw h (apply_all-count rows (wrap_i64 (n +ℤ freq)))
    | inr h ↦ rw h (apply_all-count rows n)
  ]

  -- From its initial state `count` comes to the sum of the frequencies, as an `i64`, of the rows whose
  -- argument is not null (of all rows where it has no argument).
  pub count_apply-total :
      (rows : List (List (Datum x) × ℤ))
      → apply_all count_apply rows count_initialize
        ≡ some (big_int (total (pos 0) (counted_freqs rows)))
  unfolding count_initialize
  count_apply-total rows = apply_all-count rows (pos 0)

  -- Counting two groups of rows apart and merging the states gives the state of counting both, the
  -- second behind the first.
  pub count_merge-append :
      (rows more : List (List (Datum x) × ℤ))
      → (do
        state ← apply_all count_apply rows count_initialize
        input_state ← apply_all count_apply more count_initialize
        count_merge input_state state)
        ≡ apply_all count_apply (rows ++ more) count_initialize
  unfolding count_merge as_maybe_bigint total
  count_merge-append rows more =
      rw
        (
          count_apply-total rows,
          count_apply-total more,
          count_apply-total (rows ++ more),
          counted_freqs-append rows more,
          total-append (pos 0) (counted_freqs rows) (counted_freqs more),
        )
        (ap (λ n. some (big_int n))
          (total-change (total (pos 0) (counted_freqs rows)) (counted_freqs more)
            (total-IsI64 (pos 0) (counted_freqs rows) (omega arith))))

  -- Applying arguments with an `i64` frequency and then with the negated one leaves an `i64` count as
  -- it was.
  pub count_apply-retract :
      (args : List (Datum x)) (n freq : ℤ)
      → IsI64 n
      → IsI64 freq
      → (count_apply args freq (big_int n) >>= count_apply args (neg_i64 freq)) ≡ some (big_int n)
  unfolding count_apply as_maybe_bigint
  count_apply-retract args n freq hn hf = elim (Bool-cases (is_counted args)) [
    | inl h ↦ rw (h, h) (ap (λ n. some (big_int n)) (add_then_take n freq hn hf))
    | inr h ↦ rw (h, h) refl
  ]

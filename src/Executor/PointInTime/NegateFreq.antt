-- ===== src/Executor/PointInTime/NegateFreq.antt =====
-- src/executor/src/point_in_time/negate_freq.rs.
use incresql.Prelude.{refl, List, [], ◌∷◌, map}
use incresql.Data.Datum.{Externals}
use incresql.Data.TupleIter.{TupleIter, Row, Yields}
use incresql.Encoding.Signed.{neg_i64}
use mathlib.Core.Option

module _ {x : Externals} (source : TupleIter x) where
  abbrev negate_row : Row x → Row x
  negate_row row = (row.0, neg_i64 row.1)

  abbrev pub negate_freq_executor : TupleIter x
  negate_freq_executor = record {
    State = source.State;
    advance = source.advance;
    get = λ s. Option.map negate_row (source.get s);
  }

  -- The executor delivers the rows of its source with their frequencies negated as `i64`.
  pub negate_freq_executor-Yields :
      (s : source.State) (rows : List (Row x))
      → Yields source s rows
      → Yields negate_freq_executor s (map (λ row. (row.0, neg_i64 row.1)) rows)
  unfolding Yields
  negate_freq_executor-Yields s [] (s', a, g) = (s', a, rw g refl)
  negate_freq_executor-Yields s (row ∷ rows) (s', a, g, rest) =
      (s', a, rw g refl, negate_freq_executor-Yields s' rows rest)

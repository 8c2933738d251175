-- ===== src/Examples/Streams/Sort.antt =====
-- Three rows sorted by their first column, in descending order.
use incresql.Prelude.{refl, arith, none, List, [], ◌∷◌, map, length, ◌<◌, ◌^◌}
use incresql.Prelude.Int.{pos}
use incresql.Data.Datum.{integer, ref_clone}
use incresql.Encoding.Datums.{as_sortable_bytes, push_tag}
use incresql.Encoding.Signed.{write_varint_signed, write_signed_value, neg_i64}
use incresql.Encoding.Signed.I32.{write_i32}
use incresql.Encoding.Bytes.{push, bit_not}
use incresql.Encoding.SortOrder.{is_desc}
use incresql.Prelude.Int.{neg_ℤ}
use incresql.Data.DataType.{integer_type}
use incresql.Data.TupleIter.{Row, Yields}
use incresql.Encoding.SortOrder.{desc}
use incresql.Functions.Boolean.Law.{connectives}
use incresql.Ast.Expr.{compiled_column_reference}
use incresql.Executor.Scalar.{eval_scalar}
use incresql.Ast.Expr.{SortExpression}
use incresql.Executor.PointInTime.Sort.{sort_executor, new_sort}
use incresql.Executor.PointInTime.Sort.Order.{Ordered}
use incresql.Executor.PointInTime.Sort.Form.{Keyed, keys_form, datums_form}
use incresql.Executor.PointInTime.Sort.Buffer.{form, forms}
use incresql.Executor.PointInTime.Sort.Rows.{sort_executor-Yields, NotAfter, stored_row}
use incresql.Examples.Sample.{sample_externals, sample_codec}
use incresql.Examples.Streams.{list_iter, list_iter-Yields}
use mathlib.Core.List.{Perm}

abbrev by_first : List (SortExpression (connectives sample_externals))
by_first = record { ordering = desc; expression = compiled_column_reference 0 integer_type } ∷ []

abbrev keyed : List (Keyed sample_externals)
keyed =
    ((integer (pos 3) ∷ [], pos 1), integer (pos 3) ∷ [])
    ∷ ((integer (pos 9) ∷ [], pos 2), integer (pos 9) ∷ [])
    ∷ ((integer (pos 5) ∷ [], pos 1), integer (pos 5) ∷ [])
    ∷ []

abbrev rows : List (Row sample_externals)
rows =
    (integer (pos 3) ∷ [], pos 1)
    ∷ (integer (pos 9) ∷ [], pos 2)
    ∷ (integer (pos 5) ∷ [], pos 1)
    ∷ []

fits :
    length (forms (connectives sample_externals) sample_codec list_iter by_first 1 keyed) < 2 ^ 32
unfolding forms form keys_form datums_form as_sortable_bytes write_i32 write_varint_signed
    write_signed_value neg_i64 neg_ℤ is_desc push_tag push bit_not
fits = omega arith

sort_executor-Yields_example :
    (sorted : List (Keyed sample_externals)) × Perm sorted keyed
    × Ordered (NotAfter (connectives sample_externals) sample_codec list_iter by_first 1) sorted
    × Yields
        (sort_executor (connectives sample_externals) sample_codec list_iter by_first 4)
        (new_sort (connectives sample_externals) sample_codec list_iter by_first (none, rows) 1)
        (map (stored_row (connectives sample_externals) sample_codec list_iter by_first 1) sorted)
unfolding eval_scalar ref_clone
sort_executor-Yields_example =
    sort_executor-Yields (connectives sample_externals) sample_codec list_iter by_first 1 4
      (none, rows) keyed (omega arith) (list_iter-Yields none rows)
      (
        ((refl, tt), (omega arith, tt), (omega arith, tt), omega arith, refl),
        (
          ((refl, tt), (omega arith, tt), (omega arith, tt), omega arith, refl),
          (((refl, tt), (omega arith, tt), (omega arith, tt), omega arith, refl), tt),
        ),
      )
      fits

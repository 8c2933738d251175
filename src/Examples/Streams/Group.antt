-- ===== src/Examples/Streams/Group.antt =====
-- Rows counted by their first column.
use incresql.Executor.PointInTime.HashJoin.{slice_to}
use incresql.Prelude.{false, ◌≡◌, refl, arith, ℕ, some, none, List, [], ◌∷◌}
use incresql.Prelude.Int.{pos}
use incresql.Data.Datum.{null, integer, big_int, is_null, as_maybe_bigint, ref_clone, as_static}
use incresql.Executor.Aggregate.Rows.{first_value, apply_rows}
use incresql.Executor.Scalar.{eval_scalar_row}
use incresql.Functions.Aggregate.{count_apply, is_counted, count_initialize}
use incresql.Storage.Writer.{wrap_i64}
use incresql.Prelude.Int.{◌+ℤ◌}
use incresql.Data.DataType.{integer_type}
use incresql.Data.TupleIter.{Row, Yields}
use incresql.Functions.{FunctionSignature}
use incresql.Functions.Boolean.Law.{connectives}
use incresql.Functions.Aggregate.Interface.{builtin_aggregates, count}
use incresql.Ast.Expr.{no_args}
use incresql.Executor.Aggregate.{
  AggregateArgs, initialize, reset_args, state_len_args, agg_column_reference, agg_compiled,
  no_exprs, expr_arg,
}
use incresql.Executor.Aggregate.Value.{run_args, run_args_lem, group_values}
use incresql.Executor.PointInTime.SortedGroup.{
  SortedGroupExecutor, initial, hash_tuple, sorted_group_executor, new_sorted_group,
}
use incresql.Executor.PointInTime.SortedGroup.Rows.{
  Run, sorted_group_executor-Yields, sorted_group_executor_one,
}
use incresql.Examples.Sample.{sample_externals, SampleDatum, sample_codec}
use incresql.Executor.PointInTime.HashGroup.{hash_group_executor, new_hash_group, key_bytes}
use incresql.Executor.PointInTime.HashGroup.Rows.{hash_group_executor-Yields, group_rows, add_row}
use incresql.Encoding.Datums.{as_sortable_bytes, push_tag}
use incresql.Encoding.Signed.{write_varint_signed, write_signed_value, neg_i64}
use incresql.Encoding.Signed.I32.{write_i32}
use incresql.Encoding.Bytes.{push, bit_not}
use incresql.Encoding.SortOrder.{is_desc}
use incresql.Prelude.Int.{neg_ℤ}
use incresql.Data.Datum.{bytes_eq}
use mathlib.Core.List.{Perm}
use mathlib.Core.List.Perm
use incresql.Examples.Streams.{list_iter, list_iter-Yields}

abbrev signature : FunctionSignature
signature = record { name = []; args = []; ret = integer_type }

-- `SELECT a, count()`.
abbrev counted : AggregateArgs (connectives sample_externals)
counted =
    expr_arg (agg_column_reference 0 integer_type)
      (expr_arg (agg_compiled count signature no_args) no_exprs)

abbrev rows : List (Row sample_externals)
rows =
    (integer (pos 3) ∷ [], pos 1)
    ∷ (integer (pos 3) ∷ [], pos 4)
    ∷ (integer (pos 5) ∷ [], pos 1)
    ∷ []

abbrev first_number : List SampleDatum → ℕ
first_number (integer (pos n) ∷ _) = n
first_number _ = 0

run_args_lem_example :
    run_args builtin_aggregates counted rows ≡ some (integer (pos 3) ∷ big_int (pos 6) ∷ [])
unfolding group_values first_value is_null apply_rows eval_scalar_row count_apply is_counted
    as_maybe_bigint count_initialize ref_clone as_static wrap_i64 ◌+ℤ◌
run_args_lem_example = run_args_lem builtin_aggregates counted rows

abbrev runs : List (Run sample_externals)
runs =
    (3, (integer (pos 3) ∷ [], pos 1), (integer (pos 3) ∷ [], pos 4) ∷ [])
    ∷ (5, (integer (pos 5) ∷ [], pos 1), [])
    ∷ []

abbrev fresh :
    (key_len : ℕ) → SortedGroupExecutor builtin_aggregates first_number list_iter key_len counted
fresh key_len = record {
  source_state = record { inner = (none, rows); advanced = false };
  current_state = null ∷ big_int (pos 0) ∷ [];
  output_tuple = null ∷ null ∷ [];
  state = initial;
}

sorted_group_executor-Yields_example :
    Yields (sorted_group_executor builtin_aggregates first_number list_iter 1 counted 4) (fresh 1) (
      (integer (pos 3) ∷ big_int (pos 5) ∷ [], pos 1)
      ∷ (integer (pos 5) ∷ big_int (pos 1) ∷ [], pos 1)
      ∷ [])
unfolding group_values first_value is_null apply_rows eval_scalar_row count_apply is_counted
    as_maybe_bigint count_initialize ref_clone as_static wrap_i64 ◌+ℤ◌ new_sorted_group initialize
    reset_args state_len_args hash_tuple slice_to
sorted_group_executor-Yields_example =
    sorted_group_executor-Yields builtin_aggregates first_number list_iter 1 counted 4 (none, rows)
      2 (fresh 1) runs
      ((integer (pos 3) ∷ big_int (pos 5) ∷ [], pos 1)
        ∷ (integer (pos 5) ∷ big_int (pos 1) ∷ [], pos 1)
        ∷ [])
      (omega arith) (omega arith) refl (list_iter-Yields none rows)
      (refl, (refl, tt), (λ e. absurd (ground arith)), (refl, tt, tt, tt))
      (refl, refl, (refl, refl, tt))

sorted_group_executor_one_example :
    Yields
      (sorted_group_executor builtin_aggregates first_number list_iter 0 counted 4)
      (fresh 0)
      ((integer (pos 3) ∷ big_int (pos 6) ∷ [], pos 1) ∷ [])
unfolding group_values first_value is_null apply_rows eval_scalar_row count_apply is_counted
    as_maybe_bigint count_initialize ref_clone as_static wrap_i64 ◌+ℤ◌ new_sorted_group initialize
    reset_args state_len_args hash_tuple slice_to
sorted_group_executor_one_example =
    sorted_group_executor_one builtin_aggregates first_number list_iter 0 counted 4 (none, rows) 2
      (fresh 0) rows (integer (pos 3) ∷ big_int (pos 6) ∷ []) refl (omega arith) refl
      (list_iter-Yields none rows) refl

abbrev value : List (Row sample_externals) → List SampleDatum
value rows = elim (group_values builtin_aggregates counted rows) [ none ↦ [] | some out ↦ out ]

-- The rows of a key need not stand together.
abbrev mixed : List (Row sample_externals)
mixed =
    (integer (pos 3) ∷ [], pos 1)
    ∷ (integer (pos 5) ∷ [], pos 1)
    ∷ (integer (pos 3) ∷ [], pos 4)
    ∷ []

hash_group_executor-Yields_example :
    (outs : List (Row sample_externals)) × Perm outs (
      (integer (pos 3) ∷ big_int (pos 5) ∷ [], pos 1)
      ∷ (integer (pos 5) ∷ big_int (pos 1) ∷ [], pos 1)
      ∷ [])
    × Yields
        (hash_group_executor builtin_aggregates sample_codec (λ table. table) list_iter 1 counted 4)
        (new_hash_group builtin_aggregates sample_codec
          (λ table. table)
          list_iter
          1
          counted
          (none, mixed)
          2)
        outs
unfolding group_values first_value is_null apply_rows eval_scalar_row count_apply is_counted
    as_maybe_bigint count_initialize ref_clone as_static wrap_i64 ◌+ℤ◌ group_rows add_row key_bytes
    as_sortable_bytes write_i32 write_varint_signed write_signed_value neg_i64 neg_ℤ is_desc
    push_tag push bit_not bytes_eq
hash_group_executor-Yields_example =
    hash_group_executor-Yields builtin_aggregates sample_codec (λ table. table) list_iter 1 counted
      4 (none, mixed) 2 mixed value (λ table. Perm.rfl) (omega arith) (list_iter-Yields none mixed)
      (omega arith, (omega arith, (omega arith, tt))) (refl, (refl, tt))

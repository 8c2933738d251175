-- ===== src/Examples/Executor.antt =====
-- The theorems on executors at concrete streams of rows.
use incresql.Prelude.{◌≡◌, ◌>>=◌}
use incresql.Data.TupleIter.Peekable.{
  PeekableIter, advance_unless, peek, next, lock_in, next-peek, lock_in-peek,
}
use incresql.Prelude.{true, false}
use incresql.Prelude.{refl, arith, none, some, List, [], ◌∷◌, map, Option}
use incresql.Prelude.Int.{pos}
use incresql.Data.Datum.{boolean, ref_clone}
use incresql.Data.DataType.{boolean_type}
use incresql.Data.TupleIter.{TupleIter, Row, Yields}
use incresql.Encoding.Signed.{neg_i64}
use incresql.Functions.Boolean.Law.{connectives}
use incresql.Ast.Expr.{Expression, compiled_column_reference, no_args, arg}
use incresql.Executor.Scalar.{eval_scalar, eval_scalar_row}
use incresql.Executor.PointInTime.NegateFreq.{negate_freq_executor, negate_freq_executor-Yields}
use incresql.Executor.PointInTime.Project.{project_executor, project_executor-Yields, Projected}
use incresql.Executor.PointInTime.UnionAll.{
  union_all_executor, union_all_executor-Yields, AllYield, concat,
}
use incresql.Executor.PointInTime.Filter.{filter_executor, filter_executor-Yields, passing}
use incresql.Executor.PointInTime.Limit.{limit_executor, limit_executor-Yields, at_offset}
use incresql.Examples.Sample.{sample_externals}

-- An iterator over a list, with the row it is at.
abbrev sample_iter : TupleIter sample_externals
sample_iter = record {
  State = Option (Row sample_externals) × List (Row sample_externals);
  advance = λ s. elim s.1 [ [] ↦ some (none, []) | row ∷ rows ↦ some (some row, rows) ];
  get = λ s. s.0;
}

abbrev sample_rows : List (Row sample_externals)
sample_rows =
    (boolean true ∷ [], pos 1) ∷ (boolean false ∷ [], pos 1) ∷ (boolean true ∷ [], pos 1) ∷ []

abbrev start : sample_iter.State
start = (none, sample_rows)

start-Yields : Yields sample_iter start sample_rows
unfolding Yields
start-Yields = (
  (some (boolean true ∷ [], pos 1), (boolean false ∷ [], pos 1) ∷ (boolean true ∷ [], pos 1) ∷ []),
  refl,
  refl,
  (
    (some (boolean false ∷ [], pos 1), (boolean true ∷ [], pos 1) ∷ []),
    refl,
    refl,
    ((some (boolean true ∷ [], pos 1), []), refl, refl, ((none, []), refl, refl)),
  ),
)

abbrev flag : Expression (connectives sample_externals)
flag = compiled_column_reference 0 boolean_type

negate_freq_executor-Yields_test :
    Yields
      (negate_freq_executor sample_iter)
      start
      (map (λ row. (row.0, neg_i64 row.1)) sample_rows)
negate_freq_executor-Yields_test =
    negate_freq_executor-Yields sample_iter start sample_rows start-Yields

project_executor-Yields_example :
    Yields
      (project_executor (connectives sample_externals) sample_iter (arg flag no_args))
      (start, [])
      sample_rows
unfolding Projected eval_scalar eval_scalar_row ref_clone
project_executor-Yields_example =
    project_executor-Yields (connectives sample_externals) sample_iter (arg flag no_args) start []
      sample_rows sample_rows start-Yields ((refl, refl, (refl, refl, (refl, refl, tt))))

union_all_executor-Yields_example :
    Yields
      (union_all_executor sample_iter)
      (start, start ∷ [])
      ((boolean true ∷ [], pos 1)
        ∷ (boolean false ∷ [], pos 1)
        ∷ (boolean true ∷ [], pos 1)
        ∷ sample_rows)
unfolding AllYield concat
union_all_executor-Yields_example =
    union_all_executor-Yields sample_iter start sample_rows (start ∷ []) (sample_rows ∷ [])
      start-Yields (start-Yields, tt)

filter_executor-Yields_example :
    Yields
      (filter_executor (connectives sample_externals) sample_iter flag 4)
      start
      (passing (connectives sample_externals) sample_iter flag sample_rows)
unfolding eval_scalar ref_clone
filter_executor-Yields_example =
    filter_executor-Yields (connectives sample_externals) sample_iter flag 4 start sample_rows
      (omega arith) start-Yields
      ((boolean true, refl), ((boolean false, refl), ((boolean true, refl), tt)))

limit_executor-Yields_example :
    Yields
      (limit_executor sample_iter 2)
      (at_offset sample_iter start 1 1 (pos 0))
      ((boolean false ∷ [], pos 1) ∷ [])
limit_executor-Yields_example =
    limit_executor-Yields sample_iter 1 1 1 start sample_rows (omega arith) (omega arith)
      (omega arith) (omega arith) start-Yields (refl, (refl, (refl, tt)))

abbrev fresh_peekable : PeekableIter sample_iter
fresh_peekable = record { inner = start; advanced = false }

next-peek_test :
    (peek sample_iter fresh_peekable >>= (λ r. next sample_iter r.1))
    ≡ next sample_iter fresh_peekable
next-peek_test = next-peek sample_iter fresh_peekable

abbrev peeked : PeekableIter sample_iter
peeked = record {
  inner = (
    some (boolean true ∷ [], pos 1),
    (boolean false ∷ [], pos 1) ∷ (boolean true ∷ [], pos 1) ∷ [],
  );
  advanced = true;
}

lock_in-peek_test :
    next sample_iter fresh_peekable
    ≡ some (some (boolean true ∷ [], pos 1), lock_in sample_iter peeked)
unfolding peek advance_unless
lock_in-peek_test = lock_in-peek sample_iter fresh_peekable peeked (boolean true ∷ [], pos 1) refl

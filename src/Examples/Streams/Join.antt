-- ===== src/Examples/Streams/Join.antt =====
-- A left outer join of two lists of rows, one of them with a null in its key.
use incresql.Prelude.{refl, arith, ℕ, ◌==◌, true, none, List, [], ◌∷◌}
use incresql.Prelude.Int.{pos}
use incresql.Data.Datum.{null, boolean, integer, bytes_eq}
use incresql.Data.DataType.{boolean_type}
use incresql.Data.Datum.Class.{IsEquivalence}
use incresql.Data.Datum.Equality.{bytes_eq_refl, bytes_eq_symm, bytes_eq→≡}
use incresql.Data.TupleIter.{Row, Yields}
use incresql.Functions.Boolean.Law.{connectives}
use incresql.Ast.Expr.{Expression, constant}
use incresql.Executor.Scalar.{eval_scalar}
use incresql.Ast.Logical.{left_outer}
use incresql.Executor.PointInTime.HashJoin.{hash_join_executor, new_join, any_null, tuple_eq}
use incresql.Executor.PointInTime.HashJoin.Table.{partners}
use incresql.Executor.PointInTime.HashJoin.Rows.{join_rows, matched}
use incresql.Executor.PointInTime.HashJoin.Join.{hash_join_executor-Yields}
use incresql.Examples.Sample.{sample_externals}
use incresql.Examples.Streams.{list_iter, list_iter-Yields}
use incresql.Data.Datum.{sql_eq, is_null, as_static, ref_clone, bool_eq}
use incresql.Storage.Writer.{wrap_i64}
use incresql.Prelude.Int.{◌*ℤ◌}

abbrev lefts : List (Row sample_externals)
lefts =
    (integer (pos 1) ∷ boolean true ∷ [], pos 2)
    ∷ (integer (pos 2) ∷ boolean true ∷ [], pos 1)
    ∷ (null ∷ boolean true ∷ [], pos 1)
    ∷ []

abbrev rights : List (Row sample_externals)
rights =
    (integer (pos 1) ∷ integer (pos 7) ∷ [], pos 3)
    ∷ (null ∷ integer (pos 8) ∷ [], pos 1)
    ∷ (integer (pos 1) ∷ integer (pos 9) ∷ [], pos 1)
    ∷ []

abbrev always : Expression (connectives sample_externals)
always = constant (boolean true) boolean_type

native_eq-IsEquivalence : IsEquivalence {A = ℕ} (λ a b. a == b)
native_eq-IsEquivalence = record {
  eq_refl = λ a. ground arith;
  eq_symm = λ a b. ground arith;
  eq_trans = λ a b c h k. ground arith;
}

bytes_eq-IsEquivalence : IsEquivalence bytes_eq
bytes_eq-IsEquivalence = record {
  eq_refl = bytes_eq_refl;
  eq_symm = bytes_eq_symm;
  eq_trans = λ a b c h k. rw (bytes_eq→≡ a b h, bytes_eq→≡ b c k) (bytes_eq_refl c);
}

hash_join_executor-Yields_example :
    Yields
      (hash_join_executor
        (connectives sample_externals)
        list_iter
        list_iter
        2
        1
        always
        left_outer
        9)
      (new_join
        (connectives sample_externals)
        list_iter
        list_iter
        2
        1
        always
        left_outer
        (none, lefts)
        (none, rights)
        2)
      ((integer (pos 1) ∷ boolean true ∷ integer (pos 1) ∷ integer (pos 7) ∷ [], pos 6)
        ∷ (integer (pos 1) ∷ boolean true ∷ integer (pos 1) ∷ integer (pos 9) ∷ [], pos 2)
        ∷ (integer (pos 2) ∷ boolean true ∷ null ∷ null ∷ [], pos 1)
        ∷ (null ∷ boolean true ∷ null ∷ null ∷ [], pos 1)
        ∷ [])
unfolding join_rows matched partners any_null is_null as_static tuple_eq sql_eq eval_scalar
    ref_clone bool_eq wrap_i64 ◌*ℤ◌
hash_join_executor-Yields_example =
    hash_join_executor-Yields (connectives sample_externals) list_iter list_iter 2 2 1 always
      left_outer native_eq-IsEquivalence bytes_eq-IsEquivalence (omega arith) (omega arith) rights
      (refl, (refl, (refl, tt))) 9 (none, lefts) lefts (none, rights) (omega arith) (omega arith)
      (list_iter-Yields none lefts) (list_iter-Yields none rights) (refl, (refl, (refl, tt)))
      (((boolean true, refl), ((boolean true, refl), tt)), (tt, (tt, tt)))

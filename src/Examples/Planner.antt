-- ===== src/Examples/Planner.antt =====
-- The theorems on expressions at concrete queries.
use incresql.Prelude.{ℕ, ◌≡◌, refl, arith, true, false, some, List, [], ◌∷◌, ◌++◌, ◌>>=◌}
use incresql.Prelude.Int.{pos, neg_ℤ}
use incresql.Data.Datum.{boolean, null, ref_clone}
use incresql.Data.DataType.{boolean_type}
use incresql.Functions.{FunctionSignature}
use incresql.Functions.Boolean.Law.{connectives, connective, and_function}
use incresql.Ast.Expr.{Expression, compiled_function_call, compiled_column_reference, no_args, arg}
use incresql.Executor.Scalar.{eval_scalar}
use incresql.Planner.Expr.{
  move_column_references, inline_expression, min_max_column_deps_for_expression,
  decompose_predicate, combine_predicates, and_name, true_expression,
}
use incresql.Planner.Expr.Columns.{AllColumns}
use incresql.Planner.Expr.Sides.{
  eval_scalar-deps_none, eval_scalar-left, eval_scalar-right, eval_scalar-move_up,
}
use incresql.Planner.Expr.Inline.{inline_expression-Same, project_row, Same}
use incresql.Planner.Expr.Predicates.{combine_predicates-decompose_predicate, holds, IsResolved}
use incresql.Planner.Fold.{fold_constants_for_expr}
use incresql.Planner.Fold.Meaning.{fold_constants_for_expr-Same}
use incresql.Examples.Sample.{sample_externals, SampleDatum}

abbrev SampleExpression : Type 0
SampleExpression = Expression (connectives sample_externals)

abbrev and_sig : FunctionSignature
and_sig = record { name = and_name; args = boolean_type ∷ boolean_type ∷ []; ret = boolean_type }

abbrev column : ℕ → SampleExpression
column n = compiled_column_reference n boolean_type

abbrev both : SampleExpression → SampleExpression → SampleExpression
both a b = compiled_function_call and_function and_sig (arg a (arg b no_args))

abbrev left_row : List SampleDatum
left_row = boolean true ∷ null ∷ []

abbrev right_row : List SampleDatum
right_row = boolean true ∷ boolean false ∷ []

eval_scalar-deps_none_test :
    eval_scalar (connectives sample_externals) left_row (both true_expression true_expression)
    ≡ eval_scalar (connectives sample_externals) [] (both true_expression true_expression)
unfolding min_max_column_deps_for_expression
eval_scalar-deps_none_test =
    eval_scalar-deps_none (both true_expression true_expression) left_row [] refl

eval_scalar-left_example :
    eval_scalar (connectives sample_externals) (left_row ++ right_row) (both (column 0) (column 1))
    ≡ eval_scalar (connectives sample_externals) left_row (both (column 0) (column 1))
unfolding min_max_column_deps_for_expression
eval_scalar-left_example =
    eval_scalar-left (both (column 0) (column 1)) left_row right_row 0 1 refl (omega arith)

eval_scalar-right_example :
    eval_scalar
      (connectives sample_externals)
      right_row
      (move_column_references (neg_ℤ (pos 2)) (both (column 2) (column 3)))
    ≡ eval_scalar
        (connectives sample_externals)
        (left_row ++ right_row)
        (both (column 2) (column 3))
unfolding min_max_column_deps_for_expression
eval_scalar-right_example =
    eval_scalar-right (both (column 2) (column 3)) left_row right_row 2 3 refl (omega arith)
      (omega arith)

eval_scalar-move_up_example :
    eval_scalar
      (connectives sample_externals)
      (left_row ++ right_row)
      (move_column_references (pos 2) (both (column 0) (column 1)))
    ≡ eval_scalar (connectives sample_externals) right_row (both (column 0) (column 1))
unfolding AllColumns
eval_scalar-move_up_example =
    eval_scalar-move_up (both (column 0) (column 1)) left_row right_row (omega arith)

inline_expression-Same_test :
    (e' : SampleExpression) × (inline_expression
        (column 1 ∷ true_expression ∷ [])
        (both (column 0) (column 1))
      ≡ some e')
    × Same (eval_scalar (connectives sample_externals) right_row e') (
        eval_scalar
          (connectives sample_externals)
          (boolean false ∷ boolean true ∷ [])
          (both (column 0) (column 1)))
unfolding project_row eval_scalar AllColumns ref_clone
inline_expression-Same_test =
    inline_expression-Same (column 1 ∷ true_expression ∷ []) right_row
      (boolean false ∷ boolean true ∷ []) (both (column 0) (column 1)) refl (omega arith)

combine_predicates-decompose_predicate_example :
    holds (connectives sample_externals) right_row (
      combine_predicates and_function and_sig
        (decompose_predicate (both (both true_expression (column 0)) (column 1))))
    ≡ holds
        (connectives sample_externals)
        right_row
        (both (both true_expression (column 0)) (column 1))
unfolding IsResolved connective
combine_predicates-decompose_predicate_example =
    combine_predicates-decompose_predicate (connectives sample_externals) right_row and_function
      and_sig (both (both true_expression (column 0)) (column 1)) (λ s ds. refl)
      ((λ h. (λ s ds. refl, tt)), (((λ h. (λ s ds. refl, tt)), (tt, (tt, tt))), (tt, tt)))

fold_constants_for_expr-Same_example :
    Same
      (fold_constants_for_expr (both (both true_expression true_expression) (column 1))
        >>= eval_scalar (connectives sample_externals) right_row)
      (eval_scalar
        (connectives sample_externals)
        right_row
        (both (both true_expression true_expression) (column 1)))
fold_constants_for_expr-Same_example =
    fold_constants_for_expr-Same (connectives sample_externals) right_row
      (both (both true_expression true_expression) (column 1))

-- ===== src/Examples/Collapse.antt =====
-- A project on a project over a table of two columns.
use incresql.Prelude.{◌≡◌, refl, arith, true, false, none, some, List, [], ◌∷◌, ℕ}
use incresql.Prelude.Int.{pos}
use incresql.Data.Datum.{null, integer, ref_clone}
use incresql.Data.Datum.Stored.{stored}
use incresql.Data.DataType.{integer_type}
use incresql.Data.TupleIter.{Row}
use incresql.Functions.{Functions}
use incresql.Functions.Boolean.Law.{connectives}
use incresql.Executor.Scalar.{eval_scalar}
use incresql.Ast.Expr.{NamedExpression, compiled_column_reference}
use incresql.Ast.Logical.{LogicalOperator, project, single, filter}
use incresql.Planner.Expr.{inline_expression}
use incresql.Planner.Expr.Columns.{AllColumns}
use incresql.Planner.Expr.Inline.{project_row}
use incresql.Planner.CollapseProjects.{collapse_projects, collapse_into, inline_named}
use incresql.Planner.CollapseProjects.Invariant.{
  IsScoped, IsCollapsed, project_width, collapse_projects-IsCollapsed,
}
use incresql.Planner.CollapseProjects.Meaning.{Engine, rows_of, project_rows, distinct_or_all}
use incresql.Planner.CollapseProjects.Rows.{is_distinct, IsPlainBelow, collapse_projects-rows_of}
use incresql.Examples.Sample.{sample_externals}

abbrev query_functions : Functions sample_externals
query_functions = connectives sample_externals

abbrev sample_table_rows : List (Row sample_externals)
sample_table_rows =
    (integer (pos 1) ∷ integer (pos 2) ∷ [], pos 1) ∷ (null ∷ integer (pos 3) ∷ [], pos 2) ∷ []

abbrev take_one : List (Row sample_externals) → List (Row sample_externals)
take_one [] = []
take_one (row ∷ rows) = row ∷ []

-- A scan of that table. A distinct project delivers its first row, as if all were the same, and the
-- other operators what they get.
abbrev sample_engine : Engine query_functions
sample_engine = record {
  scan = λ leaf. some sample_table_rows;
  group_rows = λ expressions keys rows. some rows;
  distinct_rows = λ rows. some (take_one rows);
  filter_rows = λ predicate rows. some rows;
  join_rows = λ on kind left right. some left;
  sort_rows = λ expressions rows. some rows;
  limit_rows = λ offset count rows. some rows;
  insert_rows = λ table rows. some rows;
}

abbrev named : ℕ → NamedExpression query_functions
named offset = record { alias = none; expression = compiled_column_reference offset integer_type }

-- The first of the columns that a project turned round, made distinct.
abbrev sample_query : LogicalOperator query_functions
sample_query = project true (named 0 ∷ []) (
    project false (named 1 ∷ named 0 ∷ [])
      (filter (compiled_column_reference 0 integer_type) single))

abbrev query_rows : List (Row sample_externals)
query_rows = (integer (pos 2) ∷ [], pos 1) ∷ []

sample_query-IsScoped : IsScoped sample_query
unfolding IsScoped AllColumns
sample_query-IsScoped = ((omega arith, tt), (tt, tt))

sample_query-IsPlainBelow : IsPlainBelow sample_query
unfolding IsPlainBelow is_distinct
sample_query-IsPlainBelow = (refl, (refl, tt))

sample_query_rows : rows_of sample_engine sample_query ≡ some query_rows
unfolding rows_of distinct_or_all project_rows project_row eval_scalar ref_clone stored
sample_query_rows = refl

collapse_projects-rows_of_example :
    (found : LogicalOperator query_functions) × (collapse_projects sample_query ≡ some found)
    × (rows_of sample_engine found ≡ some query_rows)
collapse_projects-rows_of_example =
    collapse_projects-rows_of sample_engine sample_query query_rows sample_query-IsScoped
      sample_query-IsPlainBelow sample_query_rows

collapse_projects-IsCollapsed_example :
    (found : LogicalOperator query_functions) × (collapse_projects sample_query ≡ some found)
    × IsCollapsed found
    × (project_width found ≡ project_width sample_query)
collapse_projects-IsCollapsed_example =
    collapse_projects-IsCollapsed sample_query sample_query-IsScoped

-- A distinct project below another loses its flag.
inner_distinct_test :
    collapse_projects {fs = query_functions}
      (project false (named 0 ∷ []) (project true (named 1 ∷ []) single))
    ≡ some (project false (named 1 ∷ []) single)
unfolding collapse_projects collapse_into inline_named inline_expression
inner_distinct_test = refl

-- ===== src/Examples/Registry.antt =====
-- Calls resolved in a registry of two sums and a comparison, as in the tests of
-- src/functions/src/registry.rs.
use incresql.Prelude.{ℕ, ◌≡◌, refl, inr, none, some, List, [], ◌∷◌}
use incresql.Data.DataType.{
  DataType, null_type, integer_type, big_int_type, datatype_eq, cast_function,
}
use incresql.Data.Datum.{bytes_eq}
use incresql.Functions.{FunctionSignature, Functions}
use incresql.Functions.Aggregate.Interface.{Builtin}
use incresql.Functions.Boolean.Law.{connectives}
use incresql.Functions.Registry.{
  FunctionDefinition, FunctionType, CompoundFunction, CompoundFunctionArg, CompoundArgs, Registry,
  register_function, push_definition, new_definition, get_candidates, resolve_function,
  rank_candidate, resolve_among, resolve_first, resolve_candidate, matching_candidates, sort_by_key,
  insert_by_key, fold_ranks, datatype_rank, compound_args, compound_arg,
}
use incresql.Examples.Sample.{sample_externals}

abbrev sample_functions : Functions sample_externals
sample_functions = connectives sample_externals

abbrev plus : List ℕ
plus = 43 ∷ []

abbrev sample_function : FunctionType sample_functions
sample_function = FunctionType.aggregate_type Builtin.count

abbrev plus_of : DataType → FunctionDefinition sample_functions
plus_of t = record {
  signature = record { name = plus; args = t ∷ t ∷ []; ret = t };
  custom_return_type_resolver = none;
  function = sample_function;
}

abbrev sample_registry : Registry sample_functions
sample_registry = (plus, plus_of integer_type ∷ plus_of big_int_type ∷ []) ∷ []

-- The registry is what registering the two makes.
sample_registry_test :
    register_function
      (new_definition plus (big_int_type ∷ big_int_type ∷ []) big_int_type sample_function)
      (register_function
        (new_definition plus (integer_type ∷ integer_type ∷ []) integer_type sample_function)
        [])
    ≡ sample_registry
unfolding register_function push_definition new_definition bytes_eq
sample_registry_test = refl

abbrev call : DataType → DataType → FunctionSignature
call a b = record { name = plus; args = a ∷ b ∷ []; ret = null_type }

-- An integer is cast where it meets a big integer.
upcast_test :
    resolve_function sample_registry (call integer_type big_int_type)
    ≡ some (
        inr (
          record { name = plus; args = big_int_type ∷ big_int_type ∷ []; ret = big_int_type },
          FunctionType.compound_type (
              CompoundFunction.compound plus (
                CompoundArgs.then_arg
                  (CompoundFunctionArg.nested_function (
                    CompoundFunction.compound
                      (116 ∷ 111 ∷ 95 ∷ 98 ∷ 105 ∷ 103 ∷ 105 ∷ 110 ∷ 116 ∷ [])
                      (CompoundArgs.then_arg (CompoundFunctionArg.input 0) CompoundArgs.no_args)))
                  (CompoundArgs.then_arg (CompoundFunctionArg.input 1) CompoundArgs.no_args))),
        ))
unfolding resolve_function get_candidates bytes_eq resolve_among resolve_first resolve_candidate
    matching_candidates rank_candidate fold_ranks datatype_rank datatype_eq sort_by_key
    insert_by_key compound_args compound_arg cast_function
upcast_test = refl

abbrev sample_cast : CompoundArgs
sample_cast =
    CompoundArgs.then_arg
      (CompoundFunctionArg.nested_function (
        CompoundFunction.compound (116 ∷ 111 ∷ 95 ∷ 98 ∷ 105 ∷ 103 ∷ 105 ∷ 110 ∷ 116 ∷ [])
          (CompoundArgs.then_arg (CompoundFunctionArg.input 0) CompoundArgs.no_args)))
      (CompoundArgs.then_arg (CompoundFunctionArg.input 1) CompoundArgs.no_args)

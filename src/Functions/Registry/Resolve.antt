-- ===== src/Functions/Registry/Resolve.antt =====
-- What `resolve_function` answers: the first candidate of least rank. Only a candidate's own
-- resolver of its return type may panic.
use incresql.Prelude.{ℕ, suc, ◌≡◌, inl, inr}
use incresql.Prelude.{Option, none, some, List, ◌∷◌, ◌++◌, All}
use incresql.Data.Datum.{Externals}
use incresql.Data.DataType.{DataType}
use incresql.Functions.{FunctionSignature, Functions}
use incresql.Functions.Registry.{
  FunctionDefinition, FunctionResolutionError, FunctionType, CompoundFunction, CompoundArgs,
  Registry, Resolved, compound_args, rank_candidate, get_candidates, return_type,
}
use incresql.Functions.Registry.Choice.{RankAbove, RankFrom}

module _ {x : Externals} {fs : Functions x} where
  -- What becomes of a call; `none` is a panic.
  pub data Answer (registry : Registry fs) (sig : FunctionSignature)
      (outcome : Option (Resolved fs)) : Type 0 where
    not_found :
        get_candidates registry sig.name ≡ none
        → outcome ≡ some (inl (FunctionResolutionError.function_not_found sig.name))
        → Answer registry sig outcome
    no_match :
        (candidates : List (FunctionDefinition fs))
        → get_candidates registry sig.name ≡ some candidates
        → All (λ c. rank_candidate sig c ≡ none) candidates
        → outcome
          ≡ some (inl (FunctionResolutionError.matching_signature_not_found sig.name sig.args))
        → Answer registry sig outcome
    direct :
        (before : List (FunctionDefinition fs)) (c : FunctionDefinition fs)
        (after : List (FunctionDefinition fs)) (ret : DataType)
        → get_candidates registry sig.name ≡ some (before ++ (c ∷ after))
        → rank_candidate sig c ≡ some 0
        → All (λ d. RankAbove 0 (rank_candidate sig d)) before
        → return_type sig c ≡ some ret
        → outcome
          ≡ some (inr (record { name = c.signature.name; args = sig.args; ret = ret }, c.function))
        → Answer registry sig outcome
    resolver_panics :
        (before : List (FunctionDefinition fs)) (c : FunctionDefinition fs)
        (after : List (FunctionDefinition fs))
        → get_candidates registry sig.name ≡ some (before ++ (c ∷ after))
        → rank_candidate sig c ≡ some 0
        → All (λ d. RankAbove 0 (rank_candidate sig d)) before
        → return_type sig c ≡ none
        → outcome ≡ none
        → Answer registry sig outcome
    widened :
        (before : List (FunctionDefinition fs)) (c : FunctionDefinition fs)
        (after : List (FunctionDefinition fs)) (rank : ℕ) (args : CompoundArgs)
        → get_candidates registry sig.name ≡ some (before ++ (c ∷ after))
        → rank_candidate sig c ≡ some (suc rank)
        → All (λ d. RankAbove (suc rank) (rank_candidate sig d)) before
        → All (λ d. RankFrom (suc rank) (rank_candidate sig d)) after
        → compound_args 0 sig.args c.signature.args ≡ some args
        → outcome
          ≡ some (
              inr (
                c.signature,
                FunctionType.compound_type (CompoundFunction.compound c.signature.name args),
              ))
        → Answer registry sig outcome

-- ===== src/Functions/Registry.antt =====
-- src/functions/src/registry.rs: which function a call means, by the types of its arguments. A
-- B-tree of names is an association list. The sum of the ranks of a call's arguments is a u32, which
-- at most 2 for each argument do not fill.
pub mod Choice
pub mod Widening
pub mod Resolve
pub mod Again
use incresql.Prelude.{
  ℕ, zero, suc, ◌+◌, Bool, true, false, ◌||◌, ◌⊎◌, inl, inr, leb, ◌==◌, if◌then◌else◌,
}
use incresql.Prelude.{Option, none, some, List, [], ◌∷◌, ◌++◌, length, ◌>>=◌}
use incresql.Data.Datum.{Externals, bytes_eq}
use incresql.Data.DataType
use incresql.Data.DataType.{DataType, datatype_eq, cast_function}
use incresql.Functions.{FunctionSignature, Functions}

mutual
  pub data CompoundFunction : Type 0 where
    compound : List ℕ → CompoundArgs → CompoundFunction

  pub data CompoundFunctionArg : Type 0 where
    nested_function : CompoundFunction → CompoundFunctionArg
    input : ℕ → CompoundFunctionArg

  pub data CompoundArgs : Type 0 where
    no_args : CompoundArgs
    then_arg : CompoundFunctionArg → CompoundArgs → CompoundArgs

pub data FunctionType {x : Externals} (fs : Functions x) : Type 0 where
  scalar_type : fs.Function → FunctionType fs
  aggregate_type : fs.AggregateFunction → FunctionType fs
  compound_type : CompoundFunction → FunctionType fs

pub record FunctionDefinition {x : Externals} (fs : Functions x) : Type 0 where
  pub signature : FunctionSignature
  pub custom_return_type_resolver : Option (List DataType → Option DataType)
  pub function : FunctionType fs

pub data FunctionResolutionError : Type 0 where
  function_not_found : List ℕ → FunctionResolutionError
  matching_signature_not_found : List ℕ → List DataType → FunctionResolutionError

-- The ranks of the widenings that are made.
abbrev pub widen_rank : DataType → DataType → Option ℕ
widen_rank (DataType.decimal_type p s) (DataType.decimal_type q t) = some 0
widen_rank DataType.integer_type DataType.big_int_type = some 1
widen_rank DataType.integer_type (DataType.decimal_type q t) = some 2
widen_rank DataType.big_int_type (DataType.decimal_type q t) = some 1
widen_rank DataType.text_type DataType.jsonpath_type = some 1
widen_rank from to = none

unfoldable pub datatype_rank : DataType → DataType → Option ℕ
datatype_rank from to =
    if datatype_eq from to
      || datatype_eq from DataType.null_type
      || datatype_eq to DataType.null_type
    then some 0
    else widen_rank from to

-- `if let (Some(a), Some(b)) = (a, b) { Some(a + b) } else { None }`.
abbrev pub add_rank : Option ℕ → Option ℕ → Option ℕ
add_rank (some a) (some b) = some (a + b)
add_rank a b = none

-- The fold over the zipped types.
unfoldable pub fold_ranks : Option ℕ → List DataType → List DataType → Option ℕ
fold_ranks rank (to ∷ candidate) (from ∷ args) =
    fold_ranks (add_rank rank (datatype_rank from to)) candidate args
fold_ranks rank candidate args = rank

-- `== Some(0)`.
abbrev pub is_zero : Option ℕ → Bool
is_zero (some zero) = true
is_zero rank = false

-- The return type by the resolver of a definition, if it has one. A resolver may panic, `none`.
abbrev pub resolved :
    Option (List DataType → Option DataType) → List DataType → DataType → Option DataType
resolved (some type_resolver) args ret = type_resolver args
resolved none args ret = some ret

-- The widening of one argument of a compound call; `none` is a panic.
unfoldable pub compound_arg : ℕ → DataType → DataType → Option CompoundFunctionArg
compound_arg idx from to =
    if is_zero (datatype_rank from to) then some (CompoundFunctionArg.input idx) else (do
      name ← cast_function to
      some (
          CompoundFunctionArg.nested_function (
            CompoundFunction.compound name
              (CompoundArgs.then_arg (CompoundFunctionArg.input idx) CompoundArgs.no_args))))

unfoldable pub compound_args : ℕ → List DataType → List DataType → Option CompoundArgs
compound_args idx (from ∷ args) (to ∷ candidate) = do
  arg ← compound_arg idx from to
  others ← compound_args (suc idx) args candidate
  some (CompoundArgs.then_arg arg others)
compound_args idx args candidate = some CompoundArgs.no_args

-- A stable sort by the first component.
module _ {ℓ} {A : Type ℓ} where
  unfoldable pub insert_by_key : ℕ × A → List (ℕ × A) → List (ℕ × A)
  insert_by_key e [] = e ∷ []
  insert_by_key e (f ∷ sorted) =
      if leb e.0 f.0 then e ∷ f ∷ sorted else (f ∷ insert_by_key e sorted)

  unfoldable pub sort_by_key : List (ℕ × A) → List (ℕ × A)
  sort_by_key [] = []
  sort_by_key (e ∷ entries) = insert_by_key e (sort_by_key entries)

  abbrev pub first : List A → Option A
  first [] = none
  first (a ∷ others) = some a

module _ {x : Externals} (fs : Functions x) where
  -- The results of `resolve_function`; `none` of one is a panic.
  abbrev pub Resolved : Type 0
  Resolved = FunctionResolutionError ⊎ (FunctionSignature × FunctionType fs)

  abbrev pub Registry : Type 0
  Registry = List (List ℕ × List (FunctionDefinition fs))

module _ {x : Externals} {fs : Functions x} where
  -- `self.functions.get(name)`.
  unfoldable pub get_candidates : Registry fs → List ℕ → Option (List (FunctionDefinition fs))
  get_candidates [] name = none
  get_candidates ((n, candidates) ∷ functions) name =
      if bytes_eq name n then some candidates else get_candidates functions name

  -- `entry(name).or_insert_with(Vec::new).push(definition)`.
  unfoldable pub push_definition : List ℕ → FunctionDefinition fs → Registry fs → Registry fs
  push_definition name definition [] = (name, definition ∷ []) ∷ []
  push_definition name definition ((n, candidates) ∷ functions) =
      if bytes_eq name n
      then (n, candidates ++ (definition ∷ [])) ∷ functions
      else ((n, candidates) ∷ push_definition name definition functions)

  unfoldable pub register_function : FunctionDefinition fs → Registry fs → Registry fs
  register_function definition registry =
      push_definition definition.signature.name definition registry

  -- `FunctionDefinition::new` and `FunctionDefinition::new_with_type_resolver`.
  unfoldable pub new_definition :
      List ℕ → List DataType → DataType → FunctionType fs → FunctionDefinition fs
  new_definition name args ret function = record {
    signature = record { name = name; args = args; ret = ret };
    custom_return_type_resolver = none;
    function = function;
  }

  unfoldable pub new_definition_with_type_resolver :
      List ℕ
      → List DataType
      → (List DataType → Option DataType)
      → FunctionType fs
      → Option (FunctionDefinition fs)
  new_definition_with_type_resolver name args resolver function = do
    ret ← resolver args
    some (record {
      signature = record { name = name; args = args; ret = ret };
      custom_return_type_resolver = some resolver;
      function = function;
    })

  -- The rank of a candidate for a call, `none` where it does not fit.
  unfoldable pub rank_candidate : FunctionSignature → FunctionDefinition fs → Option ℕ
  rank_candidate sig candidate =
      if length candidate.signature.args == length sig.args
      then fold_ranks (some 0) candidate.signature.args sig.args
      else none

  abbrev pub with_rank :
      Option ℕ
      → FunctionDefinition fs
      → List (ℕ × FunctionDefinition fs)
      → List (ℕ × FunctionDefinition fs)
  with_rank none candidate others = others
  with_rank (some rank) candidate others = (rank, candidate) ∷ others

  -- The `filter_map` over the candidates.
  unfoldable pub matching_candidates :
      FunctionSignature → List (FunctionDefinition fs) → List (ℕ × FunctionDefinition fs)
  matching_candidates sig [] = []
  matching_candidates sig (candidate ∷ candidates) =
      with_rank (rank_candidate sig candidate) candidate (matching_candidates sig candidates)

  unfoldable pub return_type : FunctionSignature → FunctionDefinition fs → Option DataType
  return_type sig candidate =
      if datatype_eq sig.ret DataType.null_type
      then resolved candidate.custom_return_type_resolver sig.args candidate.signature.ret
      else some sig.ret

  unfoldable pub resolve_candidate :
      FunctionSignature → ℕ → FunctionDefinition fs → Option (Resolved fs)
  resolve_candidate sig zero candidate = do
    ret ← return_type sig candidate
    some (
        inr (
          record { name = candidate.signature.name; args = sig.args; ret = ret },
          candidate.function,
        ))
  resolve_candidate sig (suc rank) candidate = do
    args ← compound_args 0 sig.args candidate.signature.args
    some (
        inr (
          candidate.signature,
          FunctionType.compound_type (CompoundFunction.compound candidate.signature.name args),
        ))

  unfoldable pub resolve_first :
      FunctionSignature → Option (ℕ × FunctionDefinition fs) → Option (Resolved fs)
  resolve_first sig none =
      some (inl (FunctionResolutionError.matching_signature_not_found sig.name sig.args))
  resolve_first sig (some (rank, candidate)) = resolve_candidate sig rank candidate

  unfoldable pub resolve_among :
      FunctionSignature → Option (List (FunctionDefinition fs)) → Option (Resolved fs)
  resolve_among sig none = some (inl (FunctionResolutionError.function_not_found sig.name))
  resolve_among sig (some candidates) =
      resolve_first sig (first (sort_by_key (matching_candidates sig candidates)))

  unfoldable pub resolve_function : Registry fs → FunctionSignature → Option (Resolved fs)
  resolve_function registry sig = resolve_among sig (get_candidates registry sig.name)

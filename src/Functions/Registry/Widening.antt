-- ===== src/Functions/Registry/Widening.antt =====
-- src/functions/src/registry.rs: the casts of a compound call, and the types of its arguments.
use incresql.Prelude.{◌>>=◌}
use incresql.Prelude.{ℕ, zero, suc, ◌≡◌, refl, ap, ◌∙◌, ◌⊎◌, inl, inr, true, Bool-cases}
use incresql.Prelude.{Option, none, some, List, [], ◌∷◌, ◌++◌, arith, length}
use incresql.Data.DataType.{DataType, datatype_eq, cast_function}
use incresql.Functions.Registry.{
  CompoundFunction, CompoundFunctionArg, CompoundArgs, datatype_rank, fold_ranks, is_zero,
  compound_arg, compound_args,
}
use incresql.Prelude.{bind-split, length-append, append_assoc, get_elem?, get_elem?-append_mid}
use mathlib.Core.Option
use incresql.Prelude.{subst, sym}

-- A cast to null is not asked for, as null takes every type.
datatype_rank-null : (from : DataType) → datatype_rank from DataType.null_type ≡ some 0
unfolding datatype_rank datatype_eq
datatype_rank-null from = ground arith

cast_function-cases :
    (to : DataType) → (to ≡ DataType.null_type) ⊎ ((name : List ℕ) × (cast_function to ≡ some name))
unfolding cast_function
cast_function-cases DataType.null_type = inl refl
cast_function-cases DataType.boolean_type = inr (_, refl)
cast_function-cases DataType.integer_type = inr (_, refl)
cast_function-cases DataType.big_int_type = inr (_, refl)
cast_function-cases DataType.text_type = inr (_, refl)
cast_function-cases DataType.byte_a_type = inr (_, refl)
cast_function-cases DataType.json_type = inr (_, refl)
cast_function-cases DataType.date_type = inr (_, refl)
cast_function-cases DataType.timestamp_type = inr (_, refl)
cast_function-cases DataType.jsonpath_type = inr (_, refl)
cast_function-cases (DataType.decimal_type p s) = inr (_, refl)

compound_arg-some :
    (idx : ℕ) (from to : DataType)
    → (arg : CompoundFunctionArg) × (compound_arg idx from to ≡ some arg)
unfolding compound_arg
compound_arg-some idx from to = elim (cast_function-cases to) [
  | inl e ↦ (CompoundFunctionArg.input idx, rw (e, datatype_rank-null from) refl)
  | inr (name, e) ↦ elim (Bool-cases (is_zero (datatype_rank from to))) [
    | inl z ↦ (CompoundFunctionArg.input idx, rw (z) refl)
    | inr z ↦ (
      CompoundFunctionArg.nested_function (
          CompoundFunction.compound name
            (CompoundArgs.then_arg (CompoundFunctionArg.input idx) CompoundArgs.no_args)),
      rw (z, e) refl,
    )
  ]
]

pub compound_args-some :
    (idx : ℕ) (args candidate : List DataType)
    → (found : CompoundArgs) × (compound_args idx args candidate ≡ some found)
unfolding compound_args
compound_args-some idx [] candidate = (CompoundArgs.no_args, refl)
compound_args-some idx (from ∷ args) [] = (CompoundArgs.no_args, refl)
compound_args-some idx (from ∷ args) (to ∷ candidate) =
    let (arg, e) = compound_arg-some idx from to in
    let (others, f) = compound_args-some (suc idx) args candidate in
    (CompoundArgs.then_arg arg others, rw (e, f) refl)

-- A candidate takes its own types as they are.
datatype_rank_refl : (t : DataType) → datatype_rank t t ≡ some 0
unfolding datatype_rank datatype_eq
datatype_rank_refl DataType.null_type = refl
datatype_rank_refl DataType.boolean_type = refl
datatype_rank_refl DataType.integer_type = refl
datatype_rank_refl DataType.big_int_type = refl
datatype_rank_refl DataType.text_type = refl
datatype_rank_refl DataType.byte_a_type = refl
datatype_rank_refl DataType.json_type = refl
datatype_rank_refl DataType.date_type = refl
datatype_rank_refl DataType.timestamp_type = refl
datatype_rank_refl DataType.jsonpath_type = refl
datatype_rank_refl (DataType.decimal_type p s) = ground arith

-- The type of a cast to a type: that type, or a decimal of another precision.
abbrev pub IsCastTo : DataType → DataType → Type 0
IsCastTo (DataType.decimal_type p s) (DataType.decimal_type q t) = Unit
IsCastTo cast to = cast ≡ to

-- The type of an argument of the call that a widening makes: an input has the type that it has in
-- the first call, and a cast one that it may have.
abbrev pub IsTypeOf : List DataType → CompoundFunctionArg → DataType → DataType → Type 0
IsTypeOf args (CompoundFunctionArg.input idx) to t = get_elem? args idx ≡ some t
IsTypeOf args (CompoundFunctionArg.nested_function cast) to t = IsCastTo t to

abbrev pub AreTypesOf : List DataType → CompoundArgs → List DataType → List DataType → Type 0
AreTypesOf args CompoundArgs.no_args [] [] = Unit
AreTypesOf args (CompoundArgs.then_arg arg made) (to ∷ candidate) (t ∷ types) =
    IsTypeOf args arg to t × AreTypesOf args made candidate types
AreTypesOf args made candidate types = ⊥

is_zero-some : (rank : Option ℕ) → is_zero rank ≡ true → rank ≡ some 0
is_zero-some none h = absurd (ground arith)
is_zero-some (some zero) h = refl
is_zero-some (some (suc rank)) h = absurd (ground arith)

datatype_rank_decimal :
    (p s q t : ℕ) → datatype_rank (DataType.decimal_type p s) (DataType.decimal_type q t) ≡ some 0
unfolding datatype_rank datatype_eq
datatype_rank_decimal p s q t = ground arith

IsCastTo-datatype_rank : (cast to : DataType) → IsCastTo cast to → datatype_rank cast to ≡ some 0
IsCastTo-datatype_rank DataType.null_type to h =
    ap (datatype_rank DataType.null_type) (sym h) ∙ datatype_rank_refl DataType.null_type
IsCastTo-datatype_rank DataType.boolean_type to h =
    ap (datatype_rank DataType.boolean_type) (sym h) ∙ datatype_rank_refl DataType.boolean_type
IsCastTo-datatype_rank DataType.integer_type to h =
    ap (datatype_rank DataType.integer_type) (sym h) ∙ datatype_rank_refl DataType.integer_type
IsCastTo-datatype_rank DataType.big_int_type to h =
    ap (datatype_rank DataType.big_int_type) (sym h) ∙ datatype_rank_refl DataType.big_int_type
IsCastTo-datatype_rank DataType.text_type to h =
    ap (datatype_rank DataType.text_type) (sym h) ∙ datatype_rank_refl DataType.text_type
IsCastTo-datatype_rank DataType.byte_a_type to h =
    ap (datatype_rank DataType.byte_a_type) (sym h) ∙ datatype_rank_refl DataType.byte_a_type
IsCastTo-datatype_rank DataType.json_type to h =
    ap (datatype_rank DataType.json_type) (sym h) ∙ datatype_rank_refl DataType.json_type
IsCastTo-datatype_rank DataType.date_type to h =
    ap (datatype_rank DataType.date_type) (sym h) ∙ datatype_rank_refl DataType.date_type
IsCastTo-datatype_rank DataType.timestamp_type to h =
    ap (datatype_rank DataType.timestamp_type) (sym h) ∙ datatype_rank_refl DataType.timestamp_type
IsCastTo-datatype_rank DataType.jsonpath_type to h =
    ap (datatype_rank DataType.jsonpath_type) (sym h) ∙ datatype_rank_refl DataType.jsonpath_type
IsCastTo-datatype_rank (DataType.decimal_type p s) (DataType.decimal_type q t) h =
    datatype_rank_decimal p s q t
IsCastTo-datatype_rank (DataType.decimal_type p s) DataType.null_type h =
    ap (datatype_rank (DataType.decimal_type p s)) (sym h) ∙ datatype_rank_refl _
IsCastTo-datatype_rank (DataType.decimal_type p s) DataType.boolean_type h =
    ap (datatype_rank (DataType.decimal_type p s)) (sym h) ∙ datatype_rank_refl _
IsCastTo-datatype_rank (DataType.decimal_type p s) DataType.integer_type h =
    ap (datatype_rank (DataType.decimal_type p s)) (sym h) ∙ datatype_rank_refl _
IsCastTo-datatype_rank (DataType.decimal_type p s) DataType.big_int_type h =
    ap (datatype_rank (DataType.decimal_type p s)) (sym h) ∙ datatype_rank_refl _
IsCastTo-datatype_rank (DataType.decimal_type p s) DataType.text_type h =
    ap (datatype_rank (DataType.decimal_type p s)) (sym h) ∙ datatype_rank_refl _
IsCastTo-datatype_rank (DataType.decimal_type p s) DataType.byte_a_type h =
    ap (datatype_rank (DataType.decimal_type p s)) (sym h) ∙ datatype_rank_refl _
IsCastTo-datatype_rank (DataType.decimal_type p s) DataType.json_type h =
    ap (datatype_rank (DataType.decimal_type p s)) (sym h) ∙ datatype_rank_refl _
IsCastTo-datatype_rank (DataType.decimal_type p s) DataType.date_type h =
    ap (datatype_rank (DataType.decimal_type p s)) (sym h) ∙ datatype_rank_refl _
IsCastTo-datatype_rank (DataType.decimal_type p s) DataType.timestamp_type h =
    ap (datatype_rank (DataType.decimal_type p s)) (sym h) ∙ datatype_rank_refl _
IsCastTo-datatype_rank (DataType.decimal_type p s) DataType.jsonpath_type h =
    ap (datatype_rank (DataType.decimal_type p s)) (sym h) ∙ datatype_rank_refl _

IsTypeOf-datatype_rank :
    (args : List DataType) (idx : ℕ) (from to t : DataType) (arg : CompoundFunctionArg)
    → compound_arg idx from to ≡ some arg
    → get_elem? args idx ≡ some from
    → IsTypeOf args arg to t
    → datatype_rank t to ≡ some 0
unfolding compound_arg
IsTypeOf-datatype_rank args idx from to t arg e there h =
    elim (Bool-cases (is_zero (datatype_rank from to))) [
      | inl z ↦
          let own : compound_arg idx from to ≡ some (CompoundFunctionArg.input idx) = rw (z) refl in
          let input = Option.some-injective _ arg (sym own ∙ e) in
          let same = sym there ∙ subst (λ a. IsTypeOf args a to t) (sym input) h in
          ap (λ u. datatype_rank u to) (sym (Option.some-injective from t same)) ∙ is_zero-some _ z
      | inr z ↦ elim (cast_function-cases to) [
        | inl null ↦
            let zero_rank = ap (datatype_rank from) null ∙ datatype_rank-null from in
            absurd (ground (arith, ap is_zero zero_rank, z))
        | inr (name, f) ↦
            let own : compound_arg idx from to
                ≡ some (
                    CompoundFunctionArg.nested_function (
                      CompoundFunction.compound name (
                        CompoundArgs.then_arg (CompoundFunctionArg.input idx)
                          CompoundArgs.no_args))) =
              rw (z, f) refl in
            let nested = Option.some-injective _ arg (sym own ∙ e) in
            IsCastTo-datatype_rank t to (subst (λ a. IsTypeOf args a to t) (sym nested) h)
      ]
    ]

-- The candidate takes the types of the arguments that a widening to it makes.
pub AreTypesOf-fold_ranks :
    (before args candidate types : List DataType) (made : CompoundArgs)
    → compound_args (length before) args candidate ≡ some made
    → AreTypesOf (before ++ args) made candidate types
    → (fold_ranks (some 0) candidate types ≡ some 0) × (length candidate ≡ length types)
unfolding compound_args fold_ranks
AreTypesOf-fold_ranks before args [] [] made e h = (refl, refl)
AreTypesOf-fold_ranks before args [] (t ∷ types) CompoundArgs.no_args e h = absurd h
AreTypesOf-fold_ranks before args [] (t ∷ types) (CompoundArgs.then_arg arg made) e h = absurd h
AreTypesOf-fold_ranks before args (to ∷ candidate) types CompoundArgs.no_args e h = absurd h
AreTypesOf-fold_ranks before args (to ∷ candidate) [] (CompoundArgs.then_arg arg made) e h =
    absurd h
AreTypesOf-fold_ranks before [] (to ∷ candidate) (t ∷ types) (CompoundArgs.then_arg arg made) e h =
    absurd (ground (arith, e))
AreTypesOf-fold_ranks before (from ∷ args) (to ∷ candidate) (t ∷ types)
      (CompoundArgs.then_arg arg made) e (h, hs) =
    let (arg', e1, k) =
      bind-split (compound_arg (length before) from to)
        (λ a.
          compound_args (suc (length before)) args candidate
          >>= (λ others. some (CompoundArgs.then_arg a others)))
        (CompoundArgs.then_arg arg made) e in
    let (made', e2, form) =
      bind-split (compound_args (suc (length before)) args candidate)
        (λ others. some (CompoundArgs.then_arg arg' others)) (CompoundArgs.then_arg arg made) k in
    let cons : CompoundArgs.then_arg arg' made' ≡ CompoundArgs.then_arg arg made =
      Option.some-injective _ _ form in
    let all_types =
      subst (λ m. AreTypesOf (before ++ (from ∷ args)) m (to ∷ candidate) (t ∷ types)) (sym cons)
        (h, hs) in
    let rank =
      IsTypeOf-datatype_rank (before ++ (from ∷ args)) (length before) from to t arg' e1
        (get_elem?-append_mid before args from (length before) refl) all_types.0 in
    let (ranks, len) =
      AreTypesOf-fold_ranks (before ++ (from ∷ [])) args candidate types made'
        (subst (λ n. compound_args n args candidate ≡ some made')
          (omega (arith, length-append before (from ∷ []))) e2)
        (subst (λ l. AreTypesOf l made' candidate types)
          (sym (append_assoc before (from ∷ []) args)) all_types.1) in
    (rw (rank) ranks, ap suc len)

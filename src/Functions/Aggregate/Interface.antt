-- ===== src/Functions/Aggregate/Interface.antt =====
-- src/functions/src/lib.rs: the trait of aggregate functions, and the built-in ones that are modelled as
-- values of it.
use incresql.Prelude.{
  ℕ, ◌≡◌, refl, sym, arith, bind-split, Option, none, some, List, [], ◌∷◌, ◌++◌, ◌>>=◌, length,
  Option-cases, inl, inr,
}
use incresql.Prelude.Int.{ℤ}
use incresql.Data.Datum.{Externals, Datum, null, ref_clone}
use incresql.Functions.{FunctionSignature}
use incresql.Functions.Aggregate.{count_initialize, count_apply, bigint_sum_apply}
use mathlib.Core.Option

-- What a state of an expression is to a function on slices: it works on its own cells, at the front,
-- and keeps their number.
module _ {x : Externals} where
  abbrev pub StaysWithin : ℕ → (List (Datum x) → Option (List (Datum x))) → Type 0
  StaysWithin n f =
      ((s rest : List (Datum x)) → length s ≡ n → f (s ++ rest) ≡ Option.map (λ r. r ++ rest) (f s))
      × ((s r : List (Datum x)) → length s ≡ n → f s ≡ some r → length r ≡ n)

  abbrev pub ReadsWithin : ℕ → (List (Datum x) → Option (Datum x)) → Type 0
  ReadsWithin n f = (s rest : List (Datum x)) → length s ≡ n → f (s ++ rest) ≡ f s

-- The trait object `dyn AggregateFunction`: each operation takes the slice from its state on, and gives
-- back what it leaves there.
pub record Aggregates (x : Externals) (A : Type 0) : Type 0 where
  pub state_size : A → ℕ
  pub initialize : A → List (Datum x) → Option (List (Datum x))
  pub apply : A → FunctionSignature → List (Datum x) → ℤ → List (Datum x) → Option (List (Datum x))
  pub finalize : A → FunctionSignature → List (Datum x) → Option (Datum x)
  pub initialize-StaysWithin : (f : A) → StaysWithin (state_size f) (initialize f)
  pub initialize_again :
      (f : A) (s t : List (Datum x))
      → length s ≡ state_size f
      → length t ≡ state_size f
      → initialize f s ≡ initialize f t
  pub apply-StaysWithin :
      (f : A) (signature : FunctionSignature) (args : List (Datum x)) (freq : ℤ)
      → StaysWithin (state_size f) (apply f signature args freq)
  pub finalize-ReadsWithin :
      (f : A) (signature : FunctionSignature) → ReadsWithin (state_size f) (finalize f signature)

pub data Builtin : Type 0 where
  count bigint_sum : Builtin

module _ {x : Externals} where
  -- An operation on `state[0]`.
  abbrev pub on_first : (Datum x → Option (Datum x)) → List (Datum x) → Option (List (Datum x))
  on_first f [] = none
  on_first f (d ∷ state) = do d' ← f d; some (d' ∷ state)

  abbrev pub read_first : List (Datum x) → Option (Datum x)
  read_first [] = none
  read_first (d ∷ state) = some (ref_clone d)

  abbrev builtin_initialize : Builtin → Datum x
  builtin_initialize count = count_initialize
  builtin_initialize bigint_sum = null

  abbrev builtin_apply : Builtin → List (Datum x) → ℤ → Datum x → Option (Datum x)
  builtin_apply count = count_apply
  builtin_apply bigint_sum = bigint_sum_apply

  pub on_first-StaysWithin : (f : Datum x → Option (Datum x)) → StaysWithin 1 (on_first f)
  on_first-StaysWithin f = (λ s rest h. on_first_law s rest h, λ s r h e. on_first_length s r h e)
    where
      on_first_law :
          (s rest : List (Datum x))
          → length s ≡ 1
          → on_first f (s ++ rest) ≡ Option.map (λ r. r ++ rest) (on_first f s)
      on_first_law [] rest h = absurd (omega arith)
      on_first_law (d ∷ s) rest h = elim (Option-cases (f d)) [
        | inl e ↦ rw e refl
        | inr (d', e) ↦ rw e refl
      ]

      on_first_length : (s r : List (Datum x)) → length s ≡ 1 → on_first f s ≡ some r → length r ≡ 1
      on_first_length [] r h e = absurd (omega arith)
      on_first_length (d ∷ s) r h e =
          let (d', k, same) = bind-split (f d) _ r e in
          let front : d' ∷ s ≡ r = Option.some-injective (d' ∷ s) r same in rw (sym front) h

  pub read_first-ReadsWithin : ReadsWithin {x = x} 1 read_first
  read_first-ReadsWithin [] rest h = absurd (omega arith)
  read_first-ReadsWithin (d ∷ s) rest h = refl

  pub on_first_again :
      (d : Datum x) (s t : List (Datum x))
      → length s ≡ 1
      → length t ≡ 1
      → on_first (λ old. some d) s ≡ on_first (λ old. some d) t
  on_first_again d [] t h k = absurd (omega arith)
  on_first_again d (a ∷ s) [] h k = absurd (omega arith)
  on_first_again d (a ∷ []) (b ∷ []) h k = refl
  on_first_again d (a ∷ []) (b ∷ c ∷ t) h k = absurd (omega arith)
  on_first_again d (a ∷ b ∷ s) t h k = absurd (omega arith)

  -- `Count` and `BigintSum`.
  abbrev pub builtin_aggregates : Aggregates x Builtin
  builtin_aggregates = record {
    state_size = λ f. 1;
    initialize = λ f. on_first (λ old. some (builtin_initialize f));
    apply = λ f signature args freq. on_first (builtin_apply f args freq);
    finalize = λ f signature. read_first;
    initialize-StaysWithin = λ f. on_first-StaysWithin (λ old. some (builtin_initialize f));
    initialize_again = λ f s t h k. on_first_again (builtin_initialize f) s t h k;
    apply-StaysWithin = λ f signature args freq. on_first-StaysWithin (builtin_apply f args freq);
    finalize-ReadsWithin = λ f signature. read_first-ReadsWithin;
  }

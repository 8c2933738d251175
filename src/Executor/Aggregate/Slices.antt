-- ===== src/Executor/Aggregate/Slices.antt =====
-- src/executor/src/aggregate_expression.rs: a state cut into the slices of the sub-expressions.
use incresql.Prelude.{
  ℕ, ◌+◌, ◌≡◌, refl, sym, ap, ◌∙◌, arith, Option, none, some, List, ◌++◌, ◌>>=◌, bind-split,
  bind-none, Option-cases, inl, inr, length, take, drop, leb, le→leb, length-append, append_assoc,
  take-append_left, drop-append_left, take-append-drop, length-take, length-drop, true,
}
use incresql.Data.Datum.{Externals, Datum}
use incresql.Functions.Aggregate.Interface.{StaysWithin}
use incresql.Executor.Aggregate.{slice_from, then_rest}
use mathlib.Core.Option

-- The results of two steps, put together.
abbrev pub both {ℓ κ ρ} :
    {A : Type ℓ} {B : Type κ} {C : Type ρ} → (A → B → C) → Option A → Option B → Option C
both h a b = a >>= (λ s. b >>= (λ t. some (h s t)))

-- Two chains that go on side by side.
pub both-bind :
    {A B C D S R : Type 0} (h : A → B → S) (k : C → D → R) (a : Option A) (b : Option B)
    (f : A → Option C) (g : B → Option D) (step : S → Option R)
    → ((s : A) (t : B) → a ≡ some s → b ≡ some t → step (h s t) ≡ both k (f s) (g t))
    → (both h a b >>= step) ≡ both k (a >>= f) (b >>= g)
both-bind h k none b f g step law = refl
both-bind h k (some s) none f g step law = sym (bind-none (f s))
both-bind h k (some s) (some t) f g step law = law s t refl refl

pub slice_from-append {ℓ} :
    {A : Type ℓ} (s t : List A) (n : ℕ) → length s ≡ n → slice_from n (s ++ t) ≡ some t
slice_from-append s t n h =
    let len = length-append s t in
    let inside : leb n (length (s ++ t)) ≡ true = le→leb _ _ (omega arith) in
    rw (inside, drop-append_left n s t h) refl

module _ {x : Externals} (n m : ℕ) (first others : List (Datum x) → Option (List (Datum x)))
    (within : StaysWithin n first) where
  pub then_rest-parts :
      (s t : List (Datum x))
      → length s ≡ n
      → then_rest n first others (s ++ t) ≡ both ◌++◌ (first s) (others t)
  then_rest-parts s t h = elim (Option-cases (first s)) [
    | inl e ↦ rw (within.0 s t h, e) refl
    | inr (s', e) ↦
        let size = within.1 s s' h e in
        rw (within.0 s t h, e, slice_from-append s' t n size, take-append_left n s' t size) refl
  ]

  pub then_rest-StaysWithin : StaysWithin m others → StaysWithin (n + m) (then_rest n first others)
  then_rest-StaysWithin after = (
    λ s rest h.
        let a = take n s in
        let b = drop n s in
        let la : length a ≡ n = omega (arith, length-take n s) in
        let lb : length b ≡ m = omega (arith, length-drop n s) in
        rw (sym (take-append-drop n s)) (front a b rest la lb),
    λ s r h e.
        let a = take n s in
        let b = drop n s in
        let la : length a ≡ n = omega (arith, length-take n s) in
        let lb : length b ≡ m = omega (arith, length-drop n s) in
        size a b r la lb (ap (then_rest n first others) (take-append-drop n s) ∙ e),
  )
    where
      front :
          (a b rest : List (Datum x))
          → length a ≡ n
          → length b ≡ m
          → then_rest n first others ((a ++ b) ++ rest)
            ≡ Option.map (λ r. r ++ rest) (then_rest n first others (a ++ b))
      front a b rest la lb =
          rw
            (
              append_assoc a b rest,
              then_rest-parts a (b ++ rest) la,
              then_rest-parts a b la,
              after.0 b rest lb,
            )
            (joined (first a) (others b) rest)
        where
          joined :
              (u v : Option (List (Datum x))) (rest : List (Datum x))
              → both ◌++◌ u (Option.map (λ r. r ++ rest) v)
                ≡ Option.map (λ r. r ++ rest) (both ◌++◌ u v)
          joined none v rest = refl
          joined (some s) none rest = refl
          joined (some s) (some t) rest = ap some (sym (append_assoc s t rest))

      size :
          (a b r : List (Datum x))
          → length a ≡ n
          → length b ≡ m
          → then_rest n first others (a ++ b) ≡ some r
          → length r ≡ n + m
      size a b r la lb e =
          let (s, es, rest) = bind-split (first a) _ r (sym (then_rest-parts a b la) ∙ e) in
          let (t, et, same) = bind-split (others b) _ r rest in
          let whole : s ++ t ≡ r = Option.some-injective (s ++ t) r same in
          let len = length-append s t in
          let ls = within.1 a s la es in let lt = after.1 b t lb et in rw (sym whole) (omega arith)

-- ===== src/Functions/Registry/Choice.antt =====
-- The candidate that comes first when the fitting ones are sorted by their ranks.
use incresql.Prelude.{ℕ, ◌≤◌, ◌<◌, ◌≡◌, refl, ap, inl, inr, leb, leb→le, Bool-cases}
use incresql.Prelude.{
  Option, none, some, List, [], ◌∷◌, ◌++◌, All, arith, Option-cases, if◌then◌else◌, All-append,
}
use incresql.Data.Datum.{Externals}
use incresql.Functions.{FunctionSignature, Functions}
use incresql.Functions.Registry.{
  FunctionDefinition, rank_candidate, matching_candidates, insert_by_key, sort_by_key, first,
}

-- A rank that is none or above, or from, a given one.
abbrev pub RankAbove : ℕ → Option ℕ → Type 0
RankAbove r none = Unit
RankAbove r (some s) = r < s

abbrev pub RankFrom : ℕ → Option ℕ → Type 0
RankFrom r none = Unit
RankFrom r (some s) = r ≤ s

RankAbove→From : (r s : ℕ) (o : Option ℕ) → s ≤ r → RankAbove r o → RankFrom s o
RankAbove→From r s none h k = tt
RankAbove→From r s (some t) h k = omega arith

RankFrom→From : (r s : ℕ) (o : Option ℕ) → s ≤ r → RankFrom r o → RankFrom s o
RankFrom→From r s none h k = tt
RankFrom→From r s (some t) h k = omega arith

module _ {ℓ} {A : Type ℓ} where
  abbrev lowest : ℕ × A → Option (ℕ × A) → ℕ × A
  lowest e none = e
  lowest e (some f) = if leb e.0 f.0 then e else f

  first-insert_by_key :
      (e : ℕ × A) (sorted : List (ℕ × A))
      → first (insert_by_key e sorted) ≡ some (lowest e (first sorted))
  unfolding insert_by_key
  first-insert_by_key e [] = refl
  first-insert_by_key e (f ∷ sorted) = elim (Bool-cases (leb e.0 f.0)) [
    | inl h ↦ rw (h) refl
    | inr h ↦ rw (h) refl
  ]

module _ {x : Externals} {fs : Functions x} (sig : FunctionSignature) where
  -- No candidate fits, or the one found has the least rank and is the first with it.
  pub data Best (candidates : List (FunctionDefinition fs))
      (found : Option (ℕ × FunctionDefinition fs)) : Type 0 where
    none_fits :
        All (λ c. rank_candidate sig c ≡ none) candidates → found ≡ none → Best candidates found
    first_least :
        (before : List (FunctionDefinition fs)) (c : FunctionDefinition fs)
        (after : List (FunctionDefinition fs)) (rank : ℕ)
        → candidates ≡ before ++ (c ∷ after)
        → rank_candidate sig c ≡ some rank
        → All (λ d. RankAbove rank (rank_candidate sig d)) before
        → All (λ d. RankFrom rank (rank_candidate sig d)) after
        → found ≡ some (rank, c)
        → Best candidates found

  -- One more candidate in front.
  Best-none :
      (d : FunctionDefinition fs) (candidates : List (FunctionDefinition fs))
      (found : Option (ℕ × FunctionDefinition fs))
      → rank_candidate sig d ≡ none
      → Best candidates found
      → Best (d ∷ candidates) found
  Best-none d candidates found e (Best.none_fits all none_found) =
      Best.none_fits (e, all) none_found
  Best-none d candidates found e (Best.first_least before c after rank form fits above from f) =
      Best.first_least (d ∷ before) c after rank (ap (λ l. d ∷ l) form) fits (rw (e) tt, above) from
        f

  RankFrom-none :
      (r : ℕ) (candidates : List (FunctionDefinition fs))
      → All (λ c. rank_candidate sig c ≡ none) candidates
      → All (λ d. RankFrom r (rank_candidate sig d)) candidates
  RankFrom-none r [] h = tt
  RankFrom-none r (c ∷ candidates) (e, h) = (rw (e) tt, RankFrom-none r candidates h)

  pub Above→From :
      (r s : ℕ) (candidates : List (FunctionDefinition fs))
      → s ≤ r
      → All (λ d. RankAbove r (rank_candidate sig d)) candidates
      → All (λ d. RankFrom s (rank_candidate sig d)) candidates
  Above→From r s [] h k = tt
  Above→From r s (c ∷ candidates) h (k, ks) =
      (RankAbove→From r s _ h k, Above→From r s candidates h ks)

  From→From :
      (r s : ℕ) (candidates : List (FunctionDefinition fs))
      → s ≤ r
      → All (λ d. RankFrom r (rank_candidate sig d)) candidates
      → All (λ d. RankFrom s (rank_candidate sig d)) candidates
  From→From r s [] h k = tt
  From→From r s (c ∷ candidates) h (k, ks) =
      (RankFrom→From r s _ h k, From→From r s candidates h ks)

  Best-some :
      (d : FunctionDefinition fs) (s : ℕ) (candidates : List (FunctionDefinition fs))
      (found : Option (ℕ × FunctionDefinition fs))
      → rank_candidate sig d ≡ some s
      → Best candidates found
      → Best (d ∷ candidates) (some (lowest (s, d) found))
  Best-some d s candidates found e (Best.none_fits all none_found) =
      Best.first_least [] d candidates s refl e tt (RankFrom-none s candidates all)
        (ap (λ o. some (lowest (s, d) o)) none_found)
  Best-some d s candidates found e (Best.first_least before c after rank form fits above from f) =
      elim (Bool-cases (leb s rank)) [
        | inl h ↦
            let low = leb→le s rank h in
            Best.first_least [] d candidates s refl e tt
              (rw (form) (
                All-append (λ b. RankFrom s (rank_candidate sig b)) before (c ∷ after)
                  (Above→From rank s before low above)
                  (rw (fits) low, From→From rank s after low from)))
              (rw (f, h) refl)
        | inr h ↦
            let high : rank < s = ground arith in
            Best.first_least (d ∷ before) c after rank (ap (λ l. d ∷ l) form) fits
              (rw (e) high, above) from (rw (f, h) refl)
      ]

  -- What the sort puts first.
  pub first-sort_by_key :
      (candidates : List (FunctionDefinition fs))
      → Best candidates (first (sort_by_key (matching_candidates sig candidates)))
  unfolding sort_by_key matching_candidates
  first-sort_by_key [] = Best.none_fits tt refl
  first-sort_by_key (d ∷ candidates) = elim (Option-cases (rank_candidate sig d)) [
    | inl e ↦ rw (e) (Best-none d candidates _ e (first-sort_by_key candidates))
    | inr (s, e) ↦
        rw (e, first-insert_by_key (s, d) (sort_by_key (matching_candidates sig candidates)))
          (Best-some d s candidates _ e (first-sort_by_key candidates))
  ]

pub All-mid {ℓ κ} :
    {A : Type ℓ} (P : A → Type κ) (before : List A) (a : A) (after : List A)
    → All P (before ++ (a ∷ after))
    → P a
All-mid P [] a after h = h.0
All-mid P (b ∷ before) a after h = All-mid P before a after h.1

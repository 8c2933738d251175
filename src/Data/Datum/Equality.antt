-- ===== src/Data/Datum/Equality.antt =====
-- src/data/src/datum.rs: the comparison of byte strings decides equality.
use incresql.Prelude.{
  ℕ, ◌≡◌, ◌≢◌, refl, ap₂, true, false, Bool-cases, inl, inr, List, [], ◌∷◌, arith,
}
use incresql.Data.Datum.{bytes_eq}

pub bytes_eq_refl : (xs : List ℕ) → bytes_eq xs xs ≡ true
unfolding bytes_eq
bytes_eq_refl [] = refl
bytes_eq_refl (x ∷ xs) = rw (bytes_eq_refl xs) (ground arith)

pub bytes_eq→≡ : (xs ys : List ℕ) → bytes_eq xs ys ≡ true → xs ≡ ys
unfolding bytes_eq
bytes_eq→≡ [] [] h = refl
bytes_eq→≡ [] (y ∷ ys) h = absurd (ground arith)
bytes_eq→≡ (x ∷ xs) [] h = absurd (ground arith)
bytes_eq→≡ (x ∷ xs) (y ∷ ys) h =
    let heads : x ≡ y = ground arith in
    let tails : bytes_eq xs ys ≡ true = ground arith in
    ap₂ (λ a l. a ∷ l) heads (bytes_eq→≡ xs ys tails)

pub bytes_eq_ne : (xs ys : List ℕ) → xs ≢ ys → bytes_eq xs ys ≡ false
bytes_eq_ne xs ys ne = elim (Bool-cases (bytes_eq xs ys)) [
  | inl h ↦ absurd (ne (bytes_eq→≡ xs ys h))
  | inr h ↦ h
]

pub bytes_eq_symm : (xs ys : List ℕ) → bytes_eq xs ys ≡ bytes_eq ys xs
unfolding bytes_eq
bytes_eq_symm [] [] = refl
bytes_eq_symm [] (y ∷ ys) = refl
bytes_eq_symm (x ∷ xs) [] = refl
bytes_eq_symm (x ∷ xs) (y ∷ ys) = rw (bytes_eq_symm xs ys) (ground arith)

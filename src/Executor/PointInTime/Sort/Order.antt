-- ===== src/Executor/PointInTime/Sort/Order.antt =====
-- src/executor/src/point_in_time/sort.rs: `sort_unstable_by` on byte slices, as an insertion sort.
use incresql.Prelude.{
  ℕ, ◌<◌, ◌≡◌, ◌⊎◌, inl, inr, arith, Bool, true, false, Bool-cases, List, [], ◌∷◌, All,
  if◌then◌else◌,
}
use incresql.Data.Datum.{bytes_cmp}
use incresql.Encoding.Bytes.{BytesLt}
use mathlib.Core.List.{Perm}
use mathlib.Core.List.Perm
use Prim.Native.Nat.{Ordering}

abbrev is_gt : Ordering → Bool
is_gt Ordering.gt = true
is_gt Ordering.eq = false
is_gt Ordering.lt = false

module _ {A : Type 0} (key : A → List ℕ) where
  unfoldable pub insert_by : A → List A → List A
  insert_by a [] = a ∷ []
  insert_by a (b ∷ l) = if is_gt (bytes_cmp (key a) (key b)) then b ∷ insert_by a l else a ∷ b ∷ l

  unfoldable pub sort_by : List A → List A
  sort_by [] = []
  sort_by (a ∷ l) = insert_by a (sort_by l)

-- The order of byte strings.
abbrev pub BytesLe : List ℕ → List ℕ → Type 0
BytesLe [] ys = Unit
BytesLe (x ∷ xs) [] = ⊥
BytesLe (x ∷ xs) (y ∷ ys) = (x < y) ⊎ ((x ≡ y) × BytesLe xs ys)

pub BytesLe-BytesLt : (xs ys : List ℕ) → BytesLe xs ys → BytesLt ys xs → ⊥
BytesLe-BytesLt [] [] h k = k
BytesLe-BytesLt [] (y ∷ ys) h k = k
BytesLe-BytesLt (x ∷ xs) [] h k = h
BytesLe-BytesLt (x ∷ xs) (y ∷ ys) h k = ground (arith, BytesLe-BytesLt xs ys)

BytesLe-trans : (xs ys zs : List ℕ) → BytesLe xs ys → BytesLe ys zs → BytesLe xs zs
BytesLe-trans [] ys zs h k = tt
BytesLe-trans (x ∷ xs) [] zs h k = absurd h
BytesLe-trans (x ∷ xs) (y ∷ ys) [] h k = k
BytesLe-trans (x ∷ xs) (y ∷ ys) (z ∷ zs) (inl h) (inl k) = inl (omega arith)
BytesLe-trans (x ∷ xs) (y ∷ ys) (z ∷ zs) (inl h) (inr (e, k)) = inl (omega arith)
BytesLe-trans (x ∷ xs) (y ∷ ys) (z ∷ zs) (inr (e, h)) (inl k) = inl (omega arith)
BytesLe-trans (x ∷ xs) (y ∷ ys) (z ∷ zs) (inr (e, h)) (inr (f, k)) =
    inr (omega arith, BytesLe-trans xs ys zs h k)

is_gt-BytesLe :
    (xs ys : List ℕ)
    → (is_gt (bytes_cmp xs ys) ≡ true → BytesLe ys xs)
      × (is_gt (bytes_cmp xs ys) ≡ false → BytesLe xs ys)
unfolding bytes_cmp
is_gt-BytesLe [] [] = (λ h. tt, λ h. tt)
is_gt-BytesLe [] (y ∷ ys) = (λ h. absurd (ground arith), λ h. tt)
is_gt-BytesLe (x ∷ xs) [] = (λ h. tt, λ h. absurd (ground arith))
is_gt-BytesLe (x ∷ xs) (y ∷ ys) =
    let rest = is_gt-BytesLe xs ys in (λ h. ground arith, λ h. ground arith)

-- Every element is in the relation to all later ones.
abbrev pub Ordered : {A : Type 0} → (A → A → Type 0) → List A → Type 0
Ordered R [] = Unit
Ordered R (a ∷ l) = All (R a) l × Ordered R l

module _ {A : Type 0} (key : A → List ℕ) where
  abbrev pub KeyLe : A → A → Type 0
  KeyLe a b = BytesLe (key a) (key b)

  insert_by-perm : (a : A) (l : List A) → Perm (insert_by key a l) (a ∷ l)
  unfolding insert_by
  insert_by-perm a [] = Perm.rfl
  insert_by-perm a (b ∷ l) = elim (Bool-cases (is_gt (bytes_cmp (key a) (key b)))) [
    | inl h ↦ rw h (Perm.trans (Perm.cons b (insert_by-perm a l)) (Perm.swap a b l))
    | inr h ↦ rw h Perm.rfl
  ]

  pub sort_by-perm : (l : List A) → Perm (sort_by key l) l
  unfolding sort_by
  sort_by-perm [] = Perm.rfl
  sort_by-perm (a ∷ l) =
      Perm.trans (insert_by-perm a (sort_by key l)) (Perm.cons a (sort_by-perm l))

  All-insert_by : (P : A → Type 0) (a : A) (l : List A) → P a → All P l → All P (insert_by key a l)
  unfolding insert_by
  All-insert_by P a [] pa h = (pa, tt)
  All-insert_by P a (b ∷ l) pa h = elim (Bool-cases (is_gt (bytes_cmp (key a) (key b)))) [
    | inl e ↦ rw e (h.0, All-insert_by P a l pa h.1)
    | inr e ↦ rw e (pa, h)
  ]

  pub All-sort_by : (P : A → Type 0) (l : List A) → All P l → All P (sort_by key l)
  unfolding sort_by
  All-sort_by P [] h = tt
  All-sort_by P (a ∷ l) h = All-insert_by P a (sort_by key l) h.0 (All-sort_by P l h.1)

  above : (a b : A) (l : List A) → KeyLe a b → All (KeyLe b) l → All (KeyLe a) l
  above a b [] h k = tt
  above a b (c ∷ l) h k = (BytesLe-trans (key a) (key b) (key c) h k.0, above a b l h k.1)

  insert_by-Ordered : (a : A) (l : List A) → Ordered KeyLe l → Ordered KeyLe (insert_by key a l)
  unfolding insert_by
  insert_by-Ordered a [] h = (tt, tt)
  insert_by-Ordered a (b ∷ l) h =
      let le = is_gt-BytesLe (key a) (key b) in
      elim (Bool-cases (is_gt (bytes_cmp (key a) (key b)))) [
        | inl e ↦ rw e (All-insert_by (KeyLe b) a l (le.0 e) h.0, insert_by-Ordered a l h.1)
        | inr e ↦ rw e ((le.1 e, above a b l (le.1 e) h.0), h)
      ]

  pub sort_by-Ordered : (l : List A) → Ordered KeyLe (sort_by key l)
  unfolding sort_by
  sort_by-Ordered [] = tt
  sort_by-Ordered (a ∷ l) = insert_by-Ordered a (sort_by key l) (sort_by-Ordered l)

-- Two lists that agree element by element.
abbrev pub Zipped : {A B : Type 0} → (A → B → Type 0) → List A → List B → Type 0
Zipped R [] [] = Unit
Zipped R [] (b ∷ m) = ⊥
Zipped R (a ∷ l) [] = ⊥
Zipped R (a ∷ l) (b ∷ m) = R a b × Zipped R l m

-- Lists whose keys agree are sorted alike.
module _ {A B : Type 0} (f : A → List ℕ) (g : B → List ℕ) (R : A → B → Type 0)
    (agree : (a : A) (b : B) → R a b → f a ≡ g b) where
  insert_by-Zipped :
      (a : A) (b : B) (l : List A) (m : List B)
      → R a b
      → Zipped R l m
      → Zipped R (insert_by f a l) (insert_by g b m)
  unfolding insert_by
  insert_by-Zipped a b [] [] r z = (r, z)
  insert_by-Zipped a b [] (d ∷ m) r z = absurd z
  insert_by-Zipped a b (c ∷ l) [] r z = absurd z
  insert_by-Zipped a b (c ∷ l) (d ∷ m) r z =
      let heads = agree a b r in
      let nexts = agree c d z.0 in
      elim (Bool-cases (is_gt (bytes_cmp (g b) (g d)))) [
        | inl h ↦ rw (heads, nexts, h) (z.0, insert_by-Zipped a b l m r z.1)
        | inr h ↦ rw (heads, nexts, h) (r, z)
      ]

  pub sort_by-Zipped :
      (l : List A) (m : List B) → Zipped R l m → Zipped R (sort_by f l) (sort_by g m)
  unfolding sort_by
  sort_by-Zipped [] [] z = z
  sort_by-Zipped [] (b ∷ m) z = absurd z
  sort_by-Zipped (a ∷ l) [] z = absurd z
  sort_by-Zipped (a ∷ l) (b ∷ m) z =
      insert_by-Zipped a b (sort_by f l) (sort_by g m) z.0 (sort_by-Zipped l m z.1)

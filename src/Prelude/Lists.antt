-- ===== src/Prelude/Lists.antt =====
-- Lists measured and indexed by native numbers, under the library's names.
use Prim.Native.Nat.{◌<◌, ℕ, zero, suc, ◌+◌, ◌-◌, ◌≤◌, min}
use mathlib.Core.Path.{◌≡◌, refl, ap, ap₂, ◌∙◌}
use mathlib.Core.List.{List, [], ◌∷◌, ◌++◌, map, Mem, Perm, forall_mem-cons, not-mem-nil}
use mathlib.Core.List.Perm
use mathlib.Core.Option.{Option, none, some}
use native.Mathlib.Omega.{arith}

module _ {ℓ} {A : Type ℓ} where
  abbrev pub length : List A → ℕ
  length [] = 0
  length (x ∷ xs) = suc (length xs)

  abbrev pub get_elem? : List A → ℕ → Option A
  get_elem? [] i = none
  get_elem? (x ∷ xs) zero = some x
  get_elem? (x ∷ xs) (suc i) = get_elem? xs i

  abbrev pub take : ℕ → List A → List A
  take zero xs = []
  take (suc n) [] = []
  take (suc n) (x ∷ xs) = x ∷ take n xs

  abbrev pub drop : ℕ → List A → List A
  drop zero xs = xs
  drop (suc n) [] = []
  drop (suc n) (x ∷ xs) = drop n xs

  abbrev pub replicate : ℕ → A → List A
  replicate zero a = []
  replicate (suc n) a = a ∷ replicate n a

  abbrev pub All {κ} : (A → Type κ) → List A → Type κ
  All P [] = Unit {κ}
  All P (x ∷ xs) = P x × All P xs

  pub length-append : (xs ys : List A) → length (xs ++ ys) ≡ length xs + length ys
  length-append [] ys = omega arith
  length-append (x ∷ xs) ys = omega (arith, length-append xs ys)

  pub take-append-drop : (n : ℕ) (xs : List A) → take n xs ++ drop n xs ≡ xs
  take-append-drop zero xs = refl
  take-append-drop (suc n) [] = refl
  take-append-drop (suc n) (x ∷ xs) = rw (take-append-drop n xs)

  pub length-drop : (n : ℕ) (xs : List A) → length (drop n xs) ≡ length xs - n
  length-drop zero xs = omega arith
  length-drop (suc n) [] = omega arith
  length-drop (suc n) (x ∷ xs) = omega (arith, length-drop n xs)

  pub length-take : (n : ℕ) (xs : List A) → length (take n xs) ≡ min n (length xs)
  length-take zero xs = omega arith
  length-take (suc n) [] = omega arith
  length-take (suc n) (x ∷ xs) = omega (arith, length-take n xs)

  pub length-replicate : (n : ℕ) (a : A) → length (replicate n a) ≡ n
  length-replicate zero a = refl
  length-replicate (suc n) a = ap suc (length-replicate n a)

  pub take-append_left : (n : ℕ) (xs ys : List A) → length xs ≡ n → take n (xs ++ ys) ≡ xs
  take-append_left zero [] ys h = refl
  take-append_left zero (x ∷ xs) ys h = absurd (omega arith)
  take-append_left (suc n) [] ys h = absurd (omega arith)
  take-append_left (suc n) (x ∷ xs) ys h = ap (λ l. x ∷ l) (take-append_left n xs ys (omega arith))

  pub drop-append_left : (n : ℕ) (xs ys : List A) → length xs ≡ n → drop n (xs ++ ys) ≡ ys
  drop-append_left zero [] ys h = refl
  drop-append_left zero (x ∷ xs) ys h = absurd (omega arith)
  drop-append_left (suc n) [] ys h = absurd (omega arith)
  drop-append_left (suc n) (x ∷ xs) ys h = drop-append_left n xs ys (omega arith)

  pub All-take {κ} : (P : A → Type κ) (n : ℕ) (xs : List A) → All P xs → All P (take n xs)
  All-take P zero xs h = tt
  All-take P (suc n) [] h = tt
  All-take P (suc n) (x ∷ xs) h = (h.0, All-take P n xs h.1)

  pub All-drop {κ} : (P : A → Type κ) (n : ℕ) (xs : List A) → All P xs → All P (drop n xs)
  All-drop P zero xs h = h
  All-drop P (suc n) [] h = tt
  All-drop P (suc n) (x ∷ xs) h = All-drop P n xs h.1

  pub All-append {κ} : (P : A → Type κ) (xs ys : List A) → All P xs → All P ys → All P (xs ++ ys)
  All-append P [] ys h k = k
  All-append P (x ∷ xs) ys h k = (h.0, All-append P xs ys h.1 k)

  pub get_elem?-append_mid :
      (xs ys : List A) (y : A) (n : ℕ) → length xs ≡ n → get_elem? (xs ++ (y ∷ ys)) n ≡ some y
  get_elem?-append_mid [] ys y zero h = refl
  get_elem?-append_mid [] ys y (suc n) h = absurd (omega arith)
  get_elem?-append_mid (x ∷ xs) ys y zero h = absurd (omega arith)
  get_elem?-append_mid (x ∷ xs) ys y (suc n) h = get_elem?-append_mid xs ys y n (omega arith)

  pub get_elem?-append_left :
      (xs ys : List A) (i : ℕ) → i < length xs → get_elem? (xs ++ ys) i ≡ get_elem? xs i
  get_elem?-append_left [] ys i h = absurd (omega arith)
  get_elem?-append_left (x ∷ xs) ys zero h = refl
  get_elem?-append_left (x ∷ xs) ys (suc i) h = get_elem?-append_left xs ys i (omega arith)

  pub get_elem?-append_right :
      (xs ys : List A) (i j : ℕ) → i ≡ length xs + j → get_elem? (xs ++ ys) i ≡ get_elem? ys j
  get_elem?-append_right [] ys i j h = ap (get_elem? ys) (omega arith)
  get_elem?-append_right (x ∷ xs) ys zero j h = absurd (omega arith)
  get_elem?-append_right (x ∷ xs) ys (suc i) j h = get_elem?-append_right xs ys i j (omega arith)

  pub drop-append_mid :
      (xs ys : List A) (y : A) (n : ℕ) → length xs ≡ n → drop (suc n) (xs ++ (y ∷ ys)) ≡ ys
  drop-append_mid [] ys y zero h = refl
  drop-append_mid [] ys y (suc n) h = absurd (omega arith)
  drop-append_mid (x ∷ xs) ys y zero h = absurd (omega arith)
  drop-append_mid (x ∷ xs) ys y (suc n) h = drop-append_mid xs ys y n (omega arith)

  pub take-append_le : (n : ℕ) (xs ys : List A) → n ≤ length xs → take n (xs ++ ys) ≡ take n xs
  take-append_le zero xs ys h = refl
  take-append_le (suc n) [] ys h = absurd (omega arith)
  take-append_le (suc n) (x ∷ xs) ys h = ap (λ l. x ∷ l) (take-append_le n xs ys (omega arith))

  pub take_all : (n : ℕ) (xs : List A) → length xs ≤ n → take n xs ≡ xs
  take_all zero [] h = refl
  take_all zero (x ∷ xs) h = absurd (omega arith)
  take_all (suc n) [] h = refl
  take_all (suc n) (x ∷ xs) h = ap (λ l. x ∷ l) (take_all n xs (omega arith))

pub replicate-add {ℓ} :
    {A : Type ℓ} (n m : ℕ) (a : A) → replicate (n + m) a ≡ replicate n a ++ replicate m a
replicate-add zero m a = let same : 0 + m ≡ m = omega arith in ap (λ k. replicate k a) same
replicate-add (suc n) m a =
    let same : suc n + m ≡ suc (n + m) = omega arith in
    ap (λ k. replicate k a) same ∙ ap (λ l. a ∷ l) (replicate-add n m a)

pub map_involutive {ℓ κ} :
    {A : Type ℓ} {P : A → Type κ} (f : A → A) (xs : List A)
    → ((a : A) → P a → f (f a) ≡ a)
    → All P xs
    → map f (map f xs) ≡ xs
map_involutive f [] h k = refl
map_involutive f (x ∷ xs) h k = ap₂ (λ a l. a ∷ l) (h x k.0) (map_involutive f xs h k.1)

pub length-map {ℓ κ} :
    {A : Type ℓ} {B : Type κ} (f : A → B) (xs : List A) → length (map f xs) ≡ length xs
length-map f [] = refl
length-map f (x ∷ xs) = ap suc (length-map f xs)

pub take-map {ℓ κ} :
    {A : Type ℓ} {B : Type κ} (f : A → B) (n : ℕ) (xs : List A)
    → take n (map f xs) ≡ map f (take n xs)
take-map f zero xs = refl
take-map f (suc n) [] = refl
take-map f (suc n) (x ∷ xs) = ap (λ l. f x ∷ l) (take-map f n xs)

-- What holds of all elements holds of all of a rearrangement.
All→Mem {ℓ κ} :
    {A : Type ℓ} (P : A → Type κ)
    → ((a : A) → IsProp (P a))
    → (xs : List A) → All P xs
    → (a : A) → Mem a xs
    → P a
All→Mem P prop [] h = λ a m. absurd (not-mem-nil m)
All→Mem P prop (x ∷ xs) h = (forall_mem-cons prop).1 (h.0, All→Mem P prop xs h.1)

Mem→All {ℓ κ} :
    {A : Type ℓ} (P : A → Type κ)
    → ((a : A) → IsProp (P a))
    → (xs : List A) → ((a : A) → Mem a xs → P a)
    → All P xs
Mem→All P prop [] h = tt
Mem→All P prop (x ∷ xs) h =
    let (first, others) = (forall_mem-cons prop).0 h in (first, Mem→All P prop xs others)

pub All-perm {ℓ κ} :
    {A : Type ℓ} (P : A → Type κ)
    → ((a : A) → IsProp (P a))
    → {xs ys : List A} → Perm ys xs
    → All P xs
    → All P ys
All-perm P prop {xs} {ys} p h =
    Mem→All P prop ys (λ a m. All→Mem P prop xs h a ((Perm.mem_iff p).0 m))

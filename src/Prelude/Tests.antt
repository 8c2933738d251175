-- ===== src/Prelude/Tests.antt =====
-- Boolean tests on the native numbers, the conditional, and the chain of fallible steps.
use Prim.Native.Nat.{ℕ, ◌≤◌, ◌<◌, compare, Ordering}
use mathlib.Core.Path.{◌≡◌, refl}
use mathlib.Core.Logic.{◌↔◌, ◌⊎◌, inl, inr}
use mathlib.Core.Bool.{Bool, true, false}
use mathlib.Core.Option.{Option, none, some}
use native.Mathlib.Omega.{arith}

abbrev pub ltb : ℕ → ℕ → Bool
ltb a b = elim (compare a b) [ Ordering.lt ↦ true | _ ↦ false ]

abbrev pub leb : ℕ → ℕ → Bool
leb a b = elim (compare a b) [ Ordering.gt ↦ false | _ ↦ true ]

infix 50 ◌==◌
abbrev pub ◌==◌ : ℕ → ℕ → Bool
a == b = elim (compare a b) [ Ordering.eq ↦ true | _ ↦ false ]

infix 1 if◌then◌else◌
abbrev pub if◌then◌else◌ {ℓ} : {A : Type ℓ} → Bool → A → A → A
if true then x else y = x
if false then x else y = y

pub ltb→lt : (a b : ℕ) → ltb a b ≡ true → a < b
ltb→lt a b h = ground arith

pub lt→ltb : (a b : ℕ) → a < b → ltb a b ≡ true
lt→ltb a b h = ground arith

pub ltb-false : (a b : ℕ) → b ≤ a → ltb a b ≡ false
ltb-false a b h = ground arith

pub ltb-false→le : (a b : ℕ) → ltb a b ≡ false → b ≤ a
ltb-false→le a b h = ground arith

pub leb→le : (a b : ℕ) → leb a b ≡ true → a ≤ b
leb→le a b h = ground arith

pub le→leb : (a b : ℕ) → a ≤ b → leb a b ≡ true
le→leb a b h = ground arith

pub ==_iff : (a b : ℕ) → ((a == b) ≡ true) ↔ (a ≡ b)
==_iff a b = ground arith

pub ruleset tests = (arith, ltb→lt, lt→ltb, leb→le, le→leb)

-- To split on a computed value and keep the equation.
pub Bool-cases : (b : Bool) → (b ≡ true) ⊎ (b ≡ false)
Bool-cases true = inl refl
Bool-cases false = inr refl

pub Option-cases {ℓ} : {A : Type ℓ} (o : Option A) → (o ≡ none) ⊎ ((a : A) × (o ≡ some a))
Option-cases none = inl refl
Option-cases (some a) = inr (a, refl)

-- A step that panics is `none`, and so is a chain with such a step.
infixl 5 ◌>>=◌
abbrev pub ◌>>=◌ {ℓ κ} : {A : Type ℓ} {B : Type κ} → Option A → (A → Option B) → Option B
none >>= f = none
some a >>= f = f a

pub ap-if {ℓ κ} :
    {A : Type ℓ} {B : Type κ} (f : A → B) (b : Bool) (a c : A)
    → (if b then f a else f c) ≡ f (if b then a else c)
ap-if f true a c = refl
ap-if f false a c = refl

-- A chain that succeeds has a first step that does.
pub bind-split {ℓ κ} :
    {A : Type ℓ} {B : Type κ} (m : Option A) (f : A → Option B) (b : B)
    → (m >>= f) ≡ some b
    → (a : A) × (m ≡ some a) × (f a ≡ some b)
bind-split none f b h = absurd (ground arith)
bind-split (some a) f b h = (a, refl, h)

pub bind-none {ℓ κ} : {A : Type ℓ} {B : Type κ} (m : Option A) → ◌>>=◌ {B = B} m (λ a. none) ≡ none
bind-none none = refl
bind-none (some a) = refl

pub bind_assoc {ℓ κ ρ} :
    {A : Type ℓ} {B : Type κ} {C : Type ρ} (m : Option A) (f : A → Option B) (g : B → Option C)
    → ((m >>= f) >>= g) ≡ (m >>= (λ a. f a >>= g))
bind_assoc none f g = refl
bind_assoc (some a) f g = refl

pub bind_some {ℓ} : {A : Type ℓ} (m : Option A) → (m >>= some) ≡ m
bind_some none = refl
bind_some (some a) = refl

-- Two chains agree whose second steps agree on what the first delivers.
pub bind-ap {ℓ κ} :
    {A : Type ℓ} {B : Type κ} (m : Option A) (f g : A → Option B)
    → ((a : A) → m ≡ some a → f a ≡ g a)
    → (m >>= f) ≡ (m >>= g)
bind-ap none f g h = refl
bind-ap (some a) f g h = h a refl

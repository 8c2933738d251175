-- ===== src/Functions/Boolean.antt =====
-- src/functions/src/scalar/bool: the functions that give a boolean. Each takes its arguments as they come;
-- `none` is the panic of an index past their end.
pub mod Law
use incresql.Prelude.{
  ℕ, Bool, true, false, not, ◌&&◌, ◌||◌, Option, none, some, List, [], ◌∷◌, get_elem?,
  if◌then◌else◌, ◌>>=◌,
}
use incresql.Data.Datum.{Externals, Datum, null, boolean, sql_eq, cmp, is_null, as_maybe_boolean}
use Prim.Native.Nat.{Ordering}

abbrev gt_test : Ordering → Bool
gt_test Ordering.gt = true
gt_test Ordering.eq = false
gt_test Ordering.lt = false

abbrev lt_test : Ordering → Bool
lt_test Ordering.lt = true
lt_test Ordering.eq = false
lt_test Ordering.gt = false

module _ {x : Externals} where
  -- `if let (Some(a), Some(b)) = (…, …) { Datum::from(f(a, b)) } else { Datum::Null }`.
  abbrev pub both : (Bool → Bool → Bool) → Option Bool → Option Bool → Datum x
  both f none b = null
  both f (some a) none = null
  both f (some a) (some b) = boolean (f a b)

  unfoldable pub and_execute : List (Datum x) → Option (Datum x)
  and_execute args = do
    a ← get_elem? args 0
    b ← get_elem? args 1
    some (both (λ a b. a && b) (as_maybe_boolean a) (as_maybe_boolean b))

  unfoldable pub or_execute : List (Datum x) → Option (Datum x)
  or_execute args = do
    a ← get_elem? args 0
    b ← get_elem? args 1
    some (both (λ a b. a || b) (as_maybe_boolean a) (as_maybe_boolean b))

  abbrev negated : Option Bool → Datum x
  negated none = null
  negated (some b) = boolean (not b)

  unfoldable pub not_execute : List (Datum x) → Option (Datum x)
  not_execute args = do a ← get_elem? args 0; some (negated (as_maybe_boolean a))

  unfoldable pub is_true_execute : List (Datum x) → Option (Datum x)
  is_true_execute args = do a ← get_elem? args 0; some (boolean (sql_eq a (boolean true) true))

  unfoldable pub is_false_execute : List (Datum x) → Option (Datum x)
  is_false_execute args = do a ← get_elem? args 0; some (boolean (sql_eq a (boolean false) true))

  unfoldable pub is_null_execute : List (Datum x) → Option (Datum x)
  is_null_execute args = do a ← get_elem? args 0; some (boolean (is_null a))

  -- `if args[0].is_null() || args[1].is_null() { Datum::Null } else { Datum::from(f(…)) }`.
  abbrev compared : (Datum x → Datum x → Bool) → List (Datum x) → Option (Datum x)
  compared f args = do
    a ← get_elem? args 0
    if is_null a
        then some null
        else (do b ← get_elem? args 1; some (if is_null b then null else boolean (f a b)))

  unfoldable pub eq_execute : List (Datum x) → Option (Datum x)
  eq_execute args = compared (λ a b. sql_eq a b false) args

  unfoldable pub ne_execute : List (Datum x) → Option (Datum x)
  ne_execute args = compared (λ a b. not (sql_eq a b false)) args

  unfoldable pub gt_execute : List (Datum x) → Option (Datum x)
  gt_execute args = compared (λ a b. gt_test (cmp a b)) args

  unfoldable pub gte_execute : List (Datum x) → Option (Datum x)
  gte_execute args = compared (λ a b. not (lt_test (cmp a b))) args

  unfoldable pub lt_execute : List (Datum x) → Option (Datum x)
  lt_execute args = compared (λ a b. lt_test (cmp a b)) args

  unfoldable pub lte_execute : List (Datum x) → Option (Datum x)
  lte_execute args = compared (λ a b. not (gt_test (cmp a b))) args

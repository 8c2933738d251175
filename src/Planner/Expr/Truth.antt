-- ===== src/Planner/Expr/Truth.antt =====
-- src/data/src/datum.rs and src/functions/src/scalar/bool/and.rs: when a datum is equal to true.
use incresql.Prelude.{
  ◌≡◌, refl, sym, ap₂, ◌∙◌, Bool, true, false, ◌&&◌, Option, none, some, [], ◌∷◌,
}
use incresql.Data.Datum.{
  Externals, Datum, null, boolean, byte_a_ref, byte_a_owned, byte_a_inline, integer, big_int,
  decimal, jsonpath, jsonpath_ref, sql_eq, as_maybe_boolean, bool_eq, ref_clone, is_null,
  as_maybe_bytea, as_maybe_integer, as_maybe_bigint, as_maybe_decimal, as_maybe_jsonpath,
}
use incresql.Functions.Boolean.{and_execute, both}

abbrev is_some_true : Option Bool → Bool
is_some_true none = false
is_some_true (some b) = b

module _ {x : Externals} where
  -- `datum == Datum::from(true)`.
  abbrev pub is_true : Datum x → Bool
  is_true d = sql_eq d (boolean true) true

  is_true-as_maybe_boolean : (d : Datum x) → is_true d ≡ is_some_true (as_maybe_boolean d)
  unfolding sql_eq as_maybe_boolean is_null as_maybe_bytea as_maybe_integer as_maybe_bigint
      as_maybe_decimal as_maybe_jsonpath bool_eq
  is_true-as_maybe_boolean null = refl
  is_true-as_maybe_boolean (boolean true) = refl
  is_true-as_maybe_boolean (boolean false) = refl
  is_true-as_maybe_boolean (byte_a_ref s) = refl
  is_true-as_maybe_boolean (byte_a_owned s) = refl
  is_true-as_maybe_boolean (byte_a_inline n s) = refl
  is_true-as_maybe_boolean (integer i) = refl
  is_true-as_maybe_boolean (big_int i) = refl
  is_true-as_maybe_boolean (decimal d) = refl
  is_true-as_maybe_boolean (jsonpath p) = refl
  is_true-as_maybe_boolean (jsonpath_ref p) = refl

  -- What a filter asks of a result; a panic keeps nothing.
  abbrev pub passes : Option (Datum x) → Bool
  passes none = false
  passes (some d) = is_true d

  pub is_true-ref_clone : (d : Datum x) → is_true (ref_clone d) ≡ is_true d
  unfolding sql_eq as_maybe_boolean ref_clone as_maybe_bytea as_maybe_jsonpath
  is_true-ref_clone null = refl
  is_true-ref_clone (boolean b) = refl
  is_true-ref_clone (byte_a_ref s) = refl
  is_true-ref_clone (byte_a_owned s) = refl
  is_true-ref_clone (byte_a_inline n s) = refl
  is_true-ref_clone (integer i) = refl
  is_true-ref_clone (big_int i) = refl
  is_true-ref_clone (decimal d) = refl
  is_true-ref_clone (jsonpath p) = refl
  is_true-ref_clone (jsonpath_ref p) = refl

module _ (x : Externals) where
  is_true-both :
      (a b : Option Bool)
      → is_true (both {x = x} (λ a b. a && b) a b) ≡ (is_some_true a && is_some_true b)
  unfolding sql_eq as_maybe_boolean is_null bool_eq
  is_true-both none b = refl
  is_true-both (some true) none = refl
  is_true-both (some false) none = refl
  is_true-both (some true) (some true) = refl
  is_true-both (some true) (some false) = refl
  is_true-both (some false) (some true) = refl
  is_true-both (some false) (some false) = refl

module _ {x : Externals} where
  pub passes-and_execute :
      (a b : Datum x) → passes (and_execute (a ∷ b ∷ [])) ≡ (is_true a && is_true b)
  unfolding and_execute
  passes-and_execute a b =
      is_true-both x (as_maybe_boolean a) (as_maybe_boolean b)
      ∙ ap₂ (λ a b. a && b) (sym (is_true-as_maybe_boolean a)) (sym (is_true-as_maybe_boolean b))

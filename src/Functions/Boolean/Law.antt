-- ===== src/Functions/Boolean/Law.antt =====
-- src/functions/src/scalar/bool: the connectives as functions of the engine.
use incresql.Prelude.{◌≡◌, refl, sym, ap, ◌∙◌, Option, List, [], ◌∷◌, map}
use incresql.Data.Datum.{
  Externals, Datum, null, boolean, byte_a_ref, byte_a_owned, byte_a_inline, integer, big_int,
  decimal, jsonpath, jsonpath_ref, as_maybe_boolean,
}
use incresql.Data.Datum.Stored.{stored}
use incresql.Functions.{Functions}
use incresql.Functions.Aggregate.Interface.{Builtin}
use incresql.Functions.Boolean.{and_execute, or_execute, not_execute}
use mathlib.Core.Option

-- `And`, `Or` and `Not`.
pub data Connective : Type 0 where
  and_function or_function not_function : Connective

module _ {x : Externals} where
  as_maybe_boolean-stored : (d : Datum x) → as_maybe_boolean (stored d) ≡ as_maybe_boolean d
  unfolding as_maybe_boolean stored
  as_maybe_boolean-stored null = refl
  as_maybe_boolean-stored (boolean b) = refl
  as_maybe_boolean-stored (byte_a_ref s) = refl
  as_maybe_boolean-stored (byte_a_owned s) = refl
  as_maybe_boolean-stored (byte_a_inline n s) = refl
  as_maybe_boolean-stored (integer i) = refl
  as_maybe_boolean-stored (big_int i) = refl
  as_maybe_boolean-stored (decimal d) = refl
  as_maybe_boolean-stored (jsonpath p) = refl
  as_maybe_boolean-stored (jsonpath_ref p) = refl

  unfoldable pub connective : Connective → List (Datum x) → Option (Datum x)
  connective and_function ds = and_execute ds
  connective or_function ds = or_execute ds
  connective not_function ds = not_execute ds

  pub connective-stored :
      (f : Connective) (ds : List (Datum x)) → connective f (map stored ds) ≡ connective f ds
  unfolding connective and_execute or_execute not_execute
  connective-stored and_function [] = refl
  connective-stored and_function (a ∷ []) = refl
  connective-stored and_function (a ∷ b ∷ ds) =
      rw (as_maybe_boolean-stored a, as_maybe_boolean-stored b) refl
  connective-stored or_function [] = refl
  connective-stored or_function (a ∷ []) = refl
  connective-stored or_function (a ∷ b ∷ ds) =
      rw (as_maybe_boolean-stored a, as_maybe_boolean-stored b) refl
  connective-stored not_function [] = refl
  connective-stored not_function (a ∷ ds) = rw (as_maybe_boolean-stored a) refl

-- The functions of a query with these connectives and the built-in aggregates.
abbrev pub connectives : (x : Externals) → Functions x
connectives x = record {
  Function = Connective;
  AggregateFunction = Builtin;
  execute = λ f s ds. connective f ds;
  execute-stored = λ f s ds es h.
      ap (Option.map stored)
        (sym (connective-stored f ds) ∙ ap (connective f) h ∙ connective-stored f es);
}

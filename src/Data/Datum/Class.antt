-- ===== src/Data/Datum/Class.antt =====
-- src/data/src/datum.rs: `==` on data, which is null-safe, is an equivalence. A datum is seen as a
-- value that forgets who owns its bytes.
use incresql.Prelude.{◌≡◌, Bool, true, false, ℕ, List, arith}
use incresql.Prelude.Int.{ℤ, eqb_ℤ}
use incresql.Prelude.{take}
use incresql.Data.Datum.Equality.{bytes_eq_refl, bytes_eq_symm, bytes_eq→≡}
use incresql.Data.Datum.{
  Externals, Datum, null, boolean, byte_a_ref, byte_a_owned, byte_a_inline, integer, big_int,
  decimal, jsonpath, jsonpath_ref, sql_eq, bool_eq, bytes_eq, is_null, as_maybe_boolean,
  as_maybe_integer, as_maybe_bigint, as_maybe_decimal, as_maybe_bytea, as_maybe_jsonpath,
}

pub record IsEquivalence {A : Type 0} (eq : A → A → Bool) : Type 0 where
  pub eq_refl : (a : A) → eq a a ≡ true
  pub eq_symm : (a b : A) → eq a b ≡ eq b a
  pub eq_trans : (a b c : A) → eq a b ≡ true → eq b c ≡ true → eq a c ≡ true

data Value (x : Externals) : Type 0 where
  v_null : Value x
  v_boolean : Bool → Value x
  v_integer : ℤ → Value x
  v_big_int : ℤ → Value x
  v_decimal : x.Decimal → Value x
  v_bytes : List ℕ → Value x
  v_jsonpath : x.JsonPath → Value x

module _ {x : Externals} where
  unfoldable value : Datum x → Value x
  value null = v_null
  value (boolean b) = v_boolean b
  value (integer i) = v_integer i
  value (big_int i) = v_big_int i
  value (decimal d) = v_decimal d
  value (byte_a_ref s) = v_bytes s
  value (byte_a_owned s) = v_bytes s
  value (byte_a_inline len b) = v_bytes (take len b)
  value (jsonpath p) = v_jsonpath p
  value (jsonpath_ref p) = v_jsonpath p

  unfoldable value_eq : Value x → Value x → Bool
  value_eq v_null v_null = true
  value_eq (v_boolean a) (v_boolean b) = bool_eq b a
  value_eq (v_integer a) (v_integer b) = eqb_ℤ b a
  value_eq (v_big_int a) (v_big_int b) = eqb_ℤ b a
  value_eq (v_decimal a) (v_decimal b) = x.decimal_eq b a
  value_eq (v_bytes a) (v_bytes b) = bytes_eq a b
  value_eq (v_jsonpath a) (v_jsonpath b) = x.jsonpath_eq a b
  value_eq _ _ = false

  sql_eq-value_eq : (a b : Datum x) → sql_eq a b true ≡ value_eq (value a) (value b)
  unfolding sql_eq value value_eq is_null as_maybe_boolean as_maybe_integer as_maybe_bigint
      as_maybe_decimal as_maybe_bytea as_maybe_jsonpath
  sql_eq-value_eq null b = ground arith
  sql_eq-value_eq (boolean _) b = ground arith
  sql_eq-value_eq (integer _) b = ground arith
  sql_eq-value_eq (big_int _) b = ground arith
  sql_eq-value_eq (decimal _) b = ground arith
  sql_eq-value_eq (byte_a_ref _) b = ground arith
  sql_eq-value_eq (byte_a_owned _) b = ground arith
  sql_eq-value_eq (byte_a_inline _ _) b = ground arith
  sql_eq-value_eq (jsonpath _) b = ground arith
  sql_eq-value_eq (jsonpath_ref _) b = ground arith

  module _ (dec : IsEquivalence x.decimal_eq) (path : IsEquivalence x.jsonpath_eq) where
    value_eq_refl : (a : Value x) → value_eq a a ≡ true
    unfolding value_eq bool_eq
    value_eq_refl (v_bytes s) = bytes_eq_refl s
    value_eq_refl (v_decimal d) = dec.eq_refl d
    value_eq_refl (v_jsonpath p) = path.eq_refl p
    value_eq_refl _ = ground arith

    value_eq_symm : (a b : Value x) → value_eq a b ≡ value_eq b a
    unfolding value_eq bool_eq
    value_eq_symm (v_bytes s) (v_bytes t) = bytes_eq_symm s t
    value_eq_symm (v_decimal d) (v_decimal e) = dec.eq_symm e d
    value_eq_symm (v_jsonpath p) (v_jsonpath q) = path.eq_symm p q
    value_eq_symm _ _ = ground arith

    value_eq_trans :
        (a b c : Value x) → value_eq a b ≡ true → value_eq b c ≡ true → value_eq a c ≡ true
    unfolding value_eq bool_eq
    value_eq_trans (v_bytes s) (v_bytes t) (v_bytes u) h k =
        rw (bytes_eq→≡ s t h, bytes_eq→≡ t u k) (bytes_eq_refl u)
    value_eq_trans (v_decimal d) (v_decimal e) (v_decimal f) h k = dec.eq_trans f e d k h
    value_eq_trans (v_jsonpath p) (v_jsonpath q) (v_jsonpath r) h k = path.eq_trans p q r h k
    value_eq_trans _ _ _ h k = ground arith

    pub sql_eq-IsEquivalence : IsEquivalence {A = Datum x} (λ a b. sql_eq a b true)
    sql_eq-IsEquivalence = record {
      eq_refl = λ a. rw (sql_eq-value_eq a a) (value_eq_refl (value a));
      eq_symm =
          λ a b. rw (sql_eq-value_eq a b, sql_eq-value_eq b a) (value_eq_symm (value a) (value b));
      eq_trans = λ a b c h k. rw (sql_eq-value_eq a c) (
          value_eq_trans (value a) (value b) (value c) (rw (sql_eq-value_eq a b) at h)
            (rw (sql_eq-value_eq b c) at k));
    }

-- ===== src/Data/Datum.antt =====
-- src/data/src/datum.rs: the in-memory representation of a sql value.
pub mod Equality
pub mod Stored
pub mod Class
use incresql.Prelude.{ℕ, Bool, true, false, ◌&&◌, Option, none, some, List, [], ◌∷◌}
use incresql.Prelude.{length, take, replicate, leb, ◌==◌, if◌then◌else◌, ◌++◌, ◌-◌}
use incresql.Prelude.Int.{ℤ, eqb_ℤ, ltb_ℤ}
use Prim.Native.Nat.{Ordering, compare}

-- What a datum holds and the datum module only calls: `rust_decimal::Decimal`, with its equality and
-- its order, and the compiled json path of src/data/src/jsonpath_utils.rs, with its equality, its text
-- and its parser, a grammar over the nom library.
pub record Externals : Type 1 where
  pub Decimal : Type 0
  pub JsonPath : Type 0
  pub decimal_eq : Decimal → Decimal → Bool
  pub decimal_cmp : Decimal → Decimal → Ordering
  pub jsonpath_eq : JsonPath → JsonPath → Bool
  pub original : JsonPath → List ℕ
  pub parse_jsonpath : List ℕ → Option JsonPath

-- `byte_a_inline` holds a length and an array of 22 bytes. The lifetimes are gone: a reference is
-- the bytes that it points to.
pub data Datum (x : Externals) : Type 0 where
  null : Datum x
  boolean : Bool → Datum x
  byte_a_ref : List ℕ → Datum x
  byte_a_owned : List ℕ → Datum x
  byte_a_inline : ℕ → List ℕ → Datum x
  integer : ℤ → Datum x
  big_int : ℤ → Datum x
  decimal : x.Decimal → Datum x
  jsonpath : x.JsonPath → Datum x
  jsonpath_ref : x.JsonPath → Datum x

-- `Option<T> == Option<T>`.
abbrev option_eq : {A : Type 0} → (A → A → Bool) → Option A → Option A → Bool
option_eq eq none none = true
option_eq eq none (some b) = false
option_eq eq (some a) none = false
option_eq eq (some a) (some b) = eq a b

unfoldable pub bool_eq : Bool → Bool → Bool
bool_eq true b = b
bool_eq false true = false
bool_eq false false = true

-- Equality and the order of byte slices (a `str` is compared by its bytes).
unfoldable pub bytes_eq : List ℕ → List ℕ → Bool
bytes_eq [] [] = true
bytes_eq [] (y ∷ ys) = false
bytes_eq (x ∷ xs) [] = false
bytes_eq (x ∷ xs) (y ∷ ys) = x == y && bytes_eq xs ys

abbrev then_cmp : Ordering → Ordering → Ordering
then_cmp Ordering.lt later = Ordering.lt
then_cmp Ordering.eq later = later
then_cmp Ordering.gt later = Ordering.gt

unfoldable pub bytes_cmp : List ℕ → List ℕ → Ordering
bytes_cmp [] [] = Ordering.eq
bytes_cmp [] (y ∷ ys) = Ordering.lt
bytes_cmp (x ∷ xs) [] = Ordering.gt
bytes_cmp (x ∷ xs) (y ∷ ys) = then_cmp (compare x y) (bytes_cmp xs ys)

abbrev bool_cmp : Bool → Bool → Ordering
bool_cmp false false = Ordering.eq
bool_cmp false true = Ordering.lt
bool_cmp true false = Ordering.gt
bool_cmp true true = Ordering.eq

abbrev pub int_cmp : ℤ → ℤ → Ordering
int_cmp a b = if ltb_ℤ a b then Ordering.lt else if eqb_ℤ a b then Ordering.eq else Ordering.gt

-- A datum of another type is smaller than one that is not null.
abbrev cmp_with : {A : Type 0} → (A → A → Ordering) → A → Option A → Ordering
cmp_with cmp_value a none = Ordering.gt
cmp_with cmp_value a (some b) = cmp_value a b

-- `Ord` of `JsonPathExpression`: by their texts.
abbrev pub jsonpath_cmp : (x : Externals) → x.JsonPath → x.JsonPath → Ordering
jsonpath_cmp x p q = bytes_cmp (x.original p) (x.original q)

module _ {x : Externals} where
  unfoldable pub is_null : Datum x → Bool
  is_null null = true
  is_null _ = false

  unfoldable pub as_maybe_bytea : Datum x → Option (List ℕ)
  as_maybe_bytea (byte_a_ref s) = some s
  as_maybe_bytea (byte_a_inline len b) = some (take len b)
  as_maybe_bytea (byte_a_owned s) = some s
  as_maybe_bytea _ = none

  unfoldable pub as_maybe_boolean : Datum x → Option Bool
  as_maybe_boolean (boolean b) = some b
  as_maybe_boolean _ = none

  unfoldable pub as_maybe_integer : Datum x → Option ℤ
  as_maybe_integer (integer i) = some i
  as_maybe_integer _ = none

  unfoldable pub as_maybe_bigint : Datum x → Option ℤ
  as_maybe_bigint (big_int i) = some i
  as_maybe_bigint _ = none

  unfoldable pub as_maybe_decimal : Datum x → Option x.Decimal
  as_maybe_decimal (decimal d) = some d
  as_maybe_decimal _ = none

  unfoldable pub as_maybe_jsonpath : Datum x → Option x.JsonPath
  as_maybe_jsonpath (jsonpath p) = some p
  as_maybe_jsonpath (jsonpath_ref p) = some p
  as_maybe_jsonpath _ = none

  -- `null_safe` tells whether null equals null.
  unfoldable pub sql_eq : Datum x → Datum x → Bool → Bool
  unfolding is_null as_maybe_boolean as_maybe_integer as_maybe_bigint as_maybe_decimal
      as_maybe_bytea as_maybe_jsonpath
  sql_eq null other null_safe = is_null other && null_safe
  sql_eq (boolean b) other null_safe = option_eq bool_eq (as_maybe_boolean other) (some b)
  sql_eq (integer i) other null_safe = option_eq eqb_ℤ (as_maybe_integer other) (some i)
  sql_eq (big_int i) other null_safe = option_eq eqb_ℤ (as_maybe_bigint other) (some i)
  sql_eq (decimal d) other null_safe = option_eq x.decimal_eq (as_maybe_decimal other) (some d)
  sql_eq (jsonpath p) other null_safe = option_eq x.jsonpath_eq (some p) (as_maybe_jsonpath other)
  sql_eq (jsonpath_ref p) other null_safe =
      option_eq x.jsonpath_eq (some p) (as_maybe_jsonpath other)
  sql_eq (byte_a_ref s) other null_safe = option_eq bytes_eq (some s) (as_maybe_bytea other)
  sql_eq (byte_a_owned s) other null_safe = option_eq bytes_eq (some s) (as_maybe_bytea other)
  sql_eq (byte_a_inline len b) other null_safe =
      option_eq bytes_eq (some (take len b)) (as_maybe_bytea other)

  unfoldable pub cmp : Datum x → Datum x → Ordering
  unfolding is_null as_maybe_boolean as_maybe_integer as_maybe_bigint as_maybe_decimal
      as_maybe_bytea as_maybe_jsonpath
  cmp null other = if is_null other then Ordering.eq else Ordering.lt
  cmp (boolean b) other = cmp_with bool_cmp b (as_maybe_boolean other)
  cmp (integer i) other = cmp_with int_cmp i (as_maybe_integer other)
  cmp (big_int i) other = cmp_with int_cmp i (as_maybe_bigint other)
  cmp (decimal d) other = cmp_with x.decimal_cmp d (as_maybe_decimal other)
  cmp (jsonpath p) other = cmp_with (jsonpath_cmp x) p (as_maybe_jsonpath other)
  cmp (jsonpath_ref p) other = cmp_with (jsonpath_cmp x) p (as_maybe_jsonpath other)
  cmp (byte_a_ref s) other = cmp_with bytes_cmp s (as_maybe_bytea other)
  cmp (byte_a_owned s) other = cmp_with bytes_cmp s (as_maybe_bytea other)
  cmp (byte_a_inline len b) other = cmp_with bytes_cmp (take len b) (as_maybe_bytea other)

  -- A reference to at most 22 bytes becomes an inline datum, the array filled up with zeros.
  abbrev own_bytes : List ℕ → Datum x
  own_bytes s =
      if leb (length s) 22
      then byte_a_inline (length s) (s ++ replicate (22 - length s) 0)
      else byte_a_owned s

  unfoldable pub as_static : Datum x → Datum x
  as_static (byte_a_ref s) = own_bytes s
  as_static (jsonpath_ref p) = jsonpath p
  as_static d = d

  unfoldable pub into_static : Datum x → Datum x
  into_static (byte_a_ref s) = own_bytes s
  into_static (jsonpath_ref p) = jsonpath p
  into_static d = d

  unfoldable pub ref_clone : Datum x → Datum x
  ref_clone (byte_a_owned s) = byte_a_ref s
  ref_clone (jsonpath p) = jsonpath_ref p
  ref_clone d = d

-- ===== src/Data/DataType.antt =====
-- src/data/src/datatype.rs: the types of a column.
use incresql.Prelude.{ℕ, Bool, true, false, Option, none, some, List, [], ◌∷◌, ◌==◌, ◌&&◌}

pub data DataType : Type 0 where
  null_type boolean_type integer_type big_int_type text_type byte_a_type : DataType
  json_type date_type timestamp_type jsonpath_type : DataType
  decimal_type : ℕ → ℕ → DataType

-- `datatype == DataType::Boolean`.
unfoldable pub is_boolean_type : DataType → Bool
is_boolean_type boolean_type = true
is_boolean_type other = false

-- The derived equality.
unfoldable pub datatype_eq : DataType → DataType → Bool
datatype_eq null_type null_type = true
datatype_eq boolean_type boolean_type = true
datatype_eq integer_type integer_type = true
datatype_eq big_int_type big_int_type = true
datatype_eq text_type text_type = true
datatype_eq byte_a_type byte_a_type = true
datatype_eq json_type json_type = true
datatype_eq date_type date_type = true
datatype_eq timestamp_type timestamp_type = true
datatype_eq jsonpath_type jsonpath_type = true
datatype_eq (decimal_type p s) (decimal_type q t) = p == q && s == t
datatype_eq one other = false

-- The name of the function that casts to a type; `none` is the panic on a cast to null.
unfoldable pub cast_function : DataType → Option (List ℕ)
cast_function null_type = none
cast_function boolean_type = some (116 ∷ 111 ∷ 95 ∷ 98 ∷ 111 ∷ 111 ∷ 108 ∷ [])
cast_function integer_type = some (116 ∷ 111 ∷ 95 ∷ 105 ∷ 110 ∷ 116 ∷ [])
cast_function big_int_type = some (116 ∷ 111 ∷ 95 ∷ 98 ∷ 105 ∷ 103 ∷ 105 ∷ 110 ∷ 116 ∷ [])
cast_function (decimal_type p s) =
    some (116 ∷ 111 ∷ 95 ∷ 100 ∷ 101 ∷ 99 ∷ 105 ∷ 109 ∷ 97 ∷ 108 ∷ [])
cast_function text_type = some (116 ∷ 111 ∷ 95 ∷ 116 ∷ 101 ∷ 120 ∷ 116 ∷ [])
cast_function byte_a_type = some (116 ∷ 111 ∷ 95 ∷ 98 ∷ 121 ∷ 116 ∷ 101 ∷ 115 ∷ [])
cast_function json_type = some (116 ∷ 111 ∷ 95 ∷ 106 ∷ 115 ∷ 111 ∷ 110 ∷ [])
cast_function date_type = some (116 ∷ 111 ∷ 95 ∷ 100 ∷ 97 ∷ 116 ∷ 101 ∷ [])
cast_function timestamp_type =
    some (116 ∷ 111 ∷ 95 ∷ 116 ∷ 105 ∷ 109 ∷ 101 ∷ 115 ∷ 116 ∷ 97 ∷ 109 ∷ 112 ∷ [])
cast_function jsonpath_type =
    some (116 ∷ 111 ∷ 95 ∷ 106 ∷ 115 ∷ 111 ∷ 110 ∷ 112 ∷ 97 ∷ 116 ∷ 104 ∷ [])

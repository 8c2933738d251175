-- ===== src/Examples/Encoding.antt =====
-- The theorems of the byte formats at concrete values.
use incresql.Prelude.{ℕ, ◌≡◌, refl, some, List, [], ◌∷◌, ◌++◌, arith}
use incresql.Prelude.Int.{pos, negsuc}
use incresql.Data.Datum.{byte_a_ref, byte_a_owned, integer, cmp}
use incresql.Encoding.SortOrder.{asc, desc}
use incresql.Encoding.Bytes.{BytesLt, to_be_bytes}
use incresql.Encoding.Unsigned.{write_varint_unsigned, read_varint_unsigned}
use incresql.Encoding.Unsigned.RoundTrip.{read-write_varint_unsigned}
use incresql.Encoding.Unsigned.Ordering.{
  write_varint_unsigned-BytesLt, write_varint_unsigned-BytesLt_desc,
}
use incresql.Encoding.Signed.{write_varint_signed, read_varint_signed, i64_min}
use incresql.Encoding.Signed.RoundTrip.{read-write_varint_signed}
use incresql.Encoding.Signed.Ordering.{
  write_varint_signed-BytesLt, write_varint_signed-BytesLt_desc,
}
use incresql.Encoding.Signed.I32.{write_i32, read_i32, read-write_i32}
use incresql.Encoding.Chunks.{write_sortable_bytes, read_sortable_bytes}
use incresql.Encoding.Chunks.RoundTrip.{read-write_sortable_bytes}
use incresql.Encoding.Chunks.Ordering.{
  write_sortable_bytes-BytesLt, write_sortable_bytes-BytesLt_desc,
}
use incresql.Encoding.Datums.{as_sortable_bytes, from_sortable_bytes}
use incresql.Data.Datum.Stored.{stored}
use incresql.Encoding.Datums.RoundTrip.{from-as_sortable_bytes}
use incresql.Encoding.Datums.Ordering.{as_sortable_bytes-Sorted, Sorted}
use incresql.Examples.Sample.{SampleDatum, sample_codec}

write_varint_unsigned_test : write_varint_unsigned 70000 desc [] ≡ 1 ∷ 255 ∷ 254 ∷ 238 ∷ 143 ∷ []
unfolding write_varint_unsigned to_be_bytes
write_varint_unsigned_test = refl

read-write_varint_unsigned_example :
    read_varint_unsigned desc (write_varint_unsigned 70000 desc [] ++ (7 ∷ []))
    ≡ some (70000, 7 ∷ [])
read-write_varint_unsigned_example = read-write_varint_unsigned 70000 desc (7 ∷ []) (omega arith)

write_varint_unsigned-BytesLt_example :
    BytesLt
      (write_varint_unsigned 300 asc [] ++ (9 ∷ []))
      (write_varint_unsigned 70000 asc [] ++ [])
write_varint_unsigned-BytesLt_example =
    write_varint_unsigned-BytesLt 300 70000 (9 ∷ []) [] (omega arith) (omega arith)

write_varint_unsigned-BytesLt_desc_test :
    BytesLt
      (write_varint_unsigned 70000 desc [] ++ (9 ∷ []))
      (write_varint_unsigned 300 desc [] ++ [])
write_varint_unsigned-BytesLt_desc_test =
    write_varint_unsigned-BytesLt_desc 300 70000 (9 ∷ []) [] (omega arith) (omega arith)

read-write_varint_signed_example :
    read_varint_signed desc (write_varint_signed i64_min desc [] ++ (7 ∷ []))
    ≡ some (i64_min, 7 ∷ [])
read-write_varint_signed_example = read-write_varint_signed i64_min desc (7 ∷ []) (omega arith)

write_varint_signed-BytesLt_example :
    BytesLt
      (write_varint_signed (negsuc 299) asc [] ++ (9 ∷ []))
      (write_varint_signed (pos 150) asc [] ++ [])
write_varint_signed-BytesLt_example =
    write_varint_signed-BytesLt (negsuc 299) (pos 150) (9 ∷ []) [] (omega arith) (omega arith)
      (omega arith)

write_varint_signed-BytesLt_desc_test :
    BytesLt
      (write_varint_signed (pos 150) desc [] ++ (9 ∷ []))
      (write_varint_signed i64_min desc [] ++ [])
write_varint_signed-BytesLt_desc_test =
    write_varint_signed-BytesLt_desc i64_min (pos 150) (9 ∷ []) [] (omega arith) (omega arith)
      (omega arith)

read-write_i32_test :
    read_i32 desc (write_i32 (negsuc 299) desc [] ++ (1 ∷ [])) ≡ some (negsuc 299, 1 ∷ [])
read-write_i32_test = read-write_i32 (negsuc 299) desc (1 ∷ []) (omega arith)

abbrev nine_letters : List ℕ
nine_letters = 97 ∷ 98 ∷ 99 ∷ 100 ∷ 101 ∷ 102 ∷ 103 ∷ 104 ∷ 105 ∷ []

read-write_sortable_bytes_example :
    read_sortable_bytes desc (write_sortable_bytes nine_letters desc [] ++ (1 ∷ []))
    ≡ some (nine_letters, 1 ∷ [])
read-write_sortable_bytes_example =
    read-write_sortable_bytes nine_letters desc (1 ∷ []) (omega arith)

write_sortable_bytes-BytesLt_example :
    BytesLt
      (write_sortable_bytes (97 ∷ []) asc [] ++ (255 ∷ []))
      (write_sortable_bytes nine_letters asc [] ++ (0 ∷ []))
write_sortable_bytes-BytesLt_example =
    write_sortable_bytes-BytesLt (97 ∷ []) nine_letters (255 ∷ []) (0 ∷ []) (omega arith)
      (omega arith) (omega arith)

write_sortable_bytes-BytesLt_desc_test :
    BytesLt
      (write_sortable_bytes nine_letters desc [] ++ (255 ∷ []))
      (write_sortable_bytes (97 ∷ []) desc [] ++ (0 ∷ []))
write_sortable_bytes-BytesLt_desc_test =
    write_sortable_bytes-BytesLt_desc (97 ∷ []) nine_letters (0 ∷ []) (255 ∷ []) (omega arith)
      (omega arith) (omega arith)

abbrev some_text : SampleDatum
some_text = byte_a_ref nine_letters

from-as_sortable_bytes_example :
    from_sortable_bytes sample_codec (as_sortable_bytes sample_codec some_text desc [] ++ (1 ∷ []))
    ≡ some (byte_a_owned nine_letters, 1 ∷ [])
unfolding stored
from-as_sortable_bytes_example =
    from-as_sortable_bytes sample_codec some_text desc (1 ∷ []) (omega arith)

as_sortable_bytes-Sorted_example :
    Sorted desc
      (as_sortable_bytes sample_codec (integer (negsuc 4)) desc [])
      (as_sortable_bytes sample_codec (integer (pos 300)) desc [])
unfolding cmp
as_sortable_bytes-Sorted_example =
    as_sortable_bytes-Sorted sample_codec (integer (negsuc 4)) (integer (pos 300)) desc
      (omega arith) (omega arith) tt refl

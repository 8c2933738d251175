-- ===== src/Encoding/Signed/RoundTrip.antt =====
-- An `i64` that was written is read back.
use incresql.Prelude.{
  ℕ, zero, suc, ◌+◌, ◌%◌, ◌^◌, ◌≡◌, some, true, false, List, [], ◌∷◌, ◌++◌, arith, append_assoc,
}
use incresql.Prelude.Int.{ℤ, pos, negsuc}
use incresql.Encoding.SortOrder.{SortOrder, asc, desc}
use incresql.Encoding.Unsigned.{u64_max}
use incresql.Encoding.Bytes.{bit_not, to_be_bytes}
use incresql.Encoding.Bytes.BigEndian.{read_be-to_be_bytes}
use incresql.Encoding.Signed.{
  IsI64, i64_min, neg_i64, as_u64, read_signed_value, write_signed_value,
}
use incresql.Encoding.Signed.{write_varint_signed, read_varint_signed}

-- A value other than `i64::MIN` in the reserved form.
read-write_signed_value :
    (i : ℤ) (sort_order : SortOrder) (rest : List ℕ)
    → IsI64 i
    → read_signed_value sort_order (write_signed_value i [] ++ rest) ≡ some (i, false, rest)
unfolding read_signed_value write_signed_value
read-write_signed_value (pos n) asc rest h = ground (
  arith,
  read_be-to_be_bytes 2 (n % 2 ^ 16) rest,
  read_be-to_be_bytes 4 (n % 2 ^ 32) rest,
  read_be-to_be_bytes 8 n rest,
)
read-write_signed_value (pos n) desc rest h = ground (
  arith,
  read_be-to_be_bytes 2 (n % 2 ^ 16) rest,
  read_be-to_be_bytes 4 (n % 2 ^ 32) rest,
  read_be-to_be_bytes 8 n rest,
)
read-write_signed_value (negsuc n) sort_order rest h = ground (
  arith,
  read_be-to_be_bytes 2 (bit_not 16 ((n + 1) % 2 ^ 16)) rest,
  read_be-to_be_bytes 4 (bit_not 32 ((n + 1) % 2 ^ 32)) rest,
  read_be-to_be_bytes 8 (as_u64 (negsuc n)) rest,
)

reserved_word :
    (rest : List ℕ)
    → read_signed_value desc (255 ∷ (to_be_bytes 8 u64_max ++ rest)) ≡ some (i64_min, true, rest)
unfolding read_signed_value
reserved_word rest = rw (read_be-to_be_bytes 8 u64_max rest (omega arith))

write_signed_value-append :
    (i : ℤ) (buffer : List ℕ) → write_signed_value i buffer ≡ buffer ++ write_signed_value i []
unfolding write_signed_value
write_signed_value-append (pos n) buffer = ground (
  arith,
  append_assoc buffer (252 ∷ []) ((n % 2 ^ 8) ∷ []),
  append_assoc buffer (253 ∷ []) (to_be_bytes 2 (n % 2 ^ 16)),
  append_assoc buffer (254 ∷ []) (to_be_bytes 4 (n % 2 ^ 32)),
  append_assoc buffer (255 ∷ []) (to_be_bytes 8 n),
)
write_signed_value-append (negsuc n) buffer = ground (
  arith,
  append_assoc buffer (3 ∷ []) (bit_not 8 ((n + 1) % 2 ^ 8) ∷ []),
  append_assoc buffer (2 ∷ []) (to_be_bytes 2 (bit_not 16 ((n + 1) % 2 ^ 16))),
  append_assoc buffer (1 ∷ []) (to_be_bytes 4 (bit_not 32 ((n + 1) % 2 ^ 32))),
  append_assoc buffer (0 ∷ []) (to_be_bytes 8 (as_u64 (negsuc n))),
)

-- `read_varint_signed` reads back the `i64` that `write_varint_signed` wrote, in both sort orders
-- and `i64::MIN` included, and leaves whatever follows it.
pub read-write_varint_signed :
    (i : ℤ) (sort_order : SortOrder) (rest : List ℕ)
    → IsI64 i
    → read_varint_signed sort_order (write_varint_signed i sort_order [] ++ rest) ≡ some (i, rest)
unfolding write_varint_signed read_varint_signed neg_i64
read-write_varint_signed i asc rest h = rw (read-write_signed_value i asc rest h)
read-write_varint_signed (pos zero) desc rest h =
    rw (read-write_signed_value (pos zero) desc rest h)
read-write_varint_signed (pos (suc n)) desc rest h =
    ground (arith, read-write_signed_value (negsuc n) desc rest)
read-write_varint_signed (negsuc n) desc rest h =
    ground (arith, read-write_signed_value (pos (suc n)) desc rest, reserved_word rest)

-- What was in the buffer stays in front.
pub write_varint_signed-append :
    (i : ℤ) (sort_order : SortOrder) (buffer : List ℕ)
    → write_varint_signed i sort_order buffer ≡ buffer ++ write_varint_signed i sort_order []
unfolding write_varint_signed
write_varint_signed-append i asc buffer = write_signed_value-append i buffer
write_varint_signed-append i desc buffer = ground (
  arith,
  write_signed_value-append (neg_i64 i) buffer,
  append_assoc buffer (255 ∷ []) (to_be_bytes 8 u64_max),
)

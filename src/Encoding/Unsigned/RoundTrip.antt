-- ===== src/Encoding/Unsigned/RoundTrip.antt =====
-- A `u64` that was written is read back.
use incresql.Prelude.{ℕ, ◌%◌, ◌^◌, ◌≡◌, some, List, [], ◌∷◌, ◌++◌, arith, append_assoc}
use incresql.Encoding.SortOrder.{SortOrder, asc, desc}
use incresql.Encoding.Bytes.{IsU64, bit_not, to_be_bytes}
use incresql.Encoding.Bytes.BigEndian.{read_be-to_be_bytes}
use incresql.Encoding.Unsigned.{write_varint_unsigned, read_varint_unsigned}

-- For every `u64`, `read_varint_unsigned` reads back what `write_varint_unsigned` wrote, in both
-- sort orders, and leaves whatever follows it.
pub read-write_varint_unsigned :
    (i : ℕ) (sort_order : SortOrder) (rest : List ℕ)
    → IsU64 i
    → read_varint_unsigned sort_order (write_varint_unsigned i sort_order [] ++ rest)
      ≡ some (i, rest)
unfolding read_varint_unsigned write_varint_unsigned
read-write_varint_unsigned i asc rest h = ground (
  arith,
  read_be-to_be_bytes 2 (i % 2 ^ 16) rest,
  read_be-to_be_bytes 4 (i % 2 ^ 32) rest,
  read_be-to_be_bytes 8 i rest,
)
read-write_varint_unsigned i desc rest h = ground (
  arith,
  read_be-to_be_bytes 2 (bit_not 16 (i % 2 ^ 16)) rest,
  read_be-to_be_bytes 4 (bit_not 32 (i % 2 ^ 32)) rest,
  read_be-to_be_bytes 8 (bit_not 64 i) rest,
)

-- What the buffer held before stays in front.
pub write_varint_unsigned-append :
    (i : ℕ) (sort_order : SortOrder) (buffer : List ℕ)
    → write_varint_unsigned i sort_order buffer ≡ buffer ++ write_varint_unsigned i sort_order []
unfolding write_varint_unsigned
write_varint_unsigned-append i asc buffer = ground (
  arith,
  append_assoc buffer (253 ∷ []) (to_be_bytes 2 (i % 2 ^ 16)),
  append_assoc buffer (254 ∷ []) (to_be_bytes 4 (i % 2 ^ 32)),
  append_assoc buffer (255 ∷ []) (to_be_bytes 8 i),
)
write_varint_unsigned-append i desc buffer = ground (
  arith,
  append_assoc buffer (2 ∷ []) (to_be_bytes 2 (bit_not 16 (i % 2 ^ 16))),
  append_assoc buffer (1 ∷ []) (to_be_bytes 4 (bit_not 32 (i % 2 ^ 32))),
  append_assoc buffer (0 ∷ []) (to_be_bytes 8 (bit_not 64 i)),
)

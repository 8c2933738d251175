-- ===== src/Encoding/Unsigned/Ordering.antt =====
-- The written form of a `u64` sorts as the number does.
use incresql.Prelude.{ℕ, ◌%◌, ◌^◌, ◌<◌, List, [], ◌++◌, arith}
use incresql.Encoding.SortOrder.{asc, desc}
use incresql.Encoding.Bytes.{IsU64, bit_not, BytesLt}
use incresql.Encoding.Bytes.BigEndian.{to_be_bytes-BytesLt}
use incresql.Encoding.Unsigned.{write_varint_unsigned}

-- Of two `u64`, the ascending encoding of the smaller is smaller byte by byte, whatever follows
-- the two.
pub write_varint_unsigned-BytesLt :
    (i j : ℕ) (s t : List ℕ)
    → i < j
    → IsU64 j
    → BytesLt (write_varint_unsigned i asc [] ++ s) (write_varint_unsigned j asc [] ++ t)
unfolding write_varint_unsigned
write_varint_unsigned-BytesLt i j s t h hj = ground (
  arith,
  to_be_bytes-BytesLt 2 (i % 2 ^ 16) (j % 2 ^ 16) s t,
  to_be_bytes-BytesLt 4 (i % 2 ^ 32) (j % 2 ^ 32) s t,
  to_be_bytes-BytesLt 8 i j s t,
)

-- Of two `u64`, the descending encoding of the larger is smaller byte by byte, whatever follows
-- the two.
pub write_varint_unsigned-BytesLt_desc :
    (i j : ℕ) (s t : List ℕ)
    → i < j
    → IsU64 j
    → BytesLt (write_varint_unsigned j desc [] ++ s) (write_varint_unsigned i desc [] ++ t)
unfolding write_varint_unsigned
write_varint_unsigned-BytesLt_desc i j s t h hj = ground (
  arith,
  to_be_bytes-BytesLt 2 (bit_not 16 (j % 2 ^ 16)) (bit_not 16 (i % 2 ^ 16)) s t,
  to_be_bytes-BytesLt 4 (bit_not 32 (j % 2 ^ 32)) (bit_not 32 (i % 2 ^ 32)) s t,
  to_be_bytes-BytesLt 8 (bit_not 64 j) (bit_not 64 i) s t,
)

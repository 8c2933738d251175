-- ===== src/Encoding/Signed/Ordering.antt =====
-- The written form of an `i64` sorts as the number does.
use incresql.Prelude.{
  ℕ, zero, suc, ◌+◌, ◌%◌, ◌^◌, List, [], ◌∷◌, ◌++◌, arith, ◌≡◌, refl, false, Bool-cases, inl, inr,
}
use incresql.Prelude.Int.{ℤ, pos, negsuc, ◌<ℤ◌}
use incresql.Encoding.SortOrder.{asc, desc}
use incresql.Encoding.Unsigned.{u64_max}
use incresql.Encoding.Bytes.{bit_not, to_be_bytes, BytesLt}
use incresql.Encoding.Bytes.BigEndian.{to_be_bytes-BytesLt}
use incresql.Encoding.Signed.{
  IsI64, is_i64_min, as_u64, neg_i64, write_signed_value, write_varint_signed,
}

write_signed_value-BytesLt :
    (i j : ℤ) (s t : List ℕ)
    → i <ℤ j
    → IsI64 i
    → IsI64 j
    → BytesLt (write_signed_value i [] ++ s) (write_signed_value j [] ++ t)
unfolding write_signed_value
write_signed_value-BytesLt (pos n) (pos m) s t h hi hj = ground (
  arith,
  to_be_bytes-BytesLt 2 (n % 2 ^ 16) (m % 2 ^ 16) s t,
  to_be_bytes-BytesLt 4 (n % 2 ^ 32) (m % 2 ^ 32) s t,
  to_be_bytes-BytesLt 8 n m s t,
)
write_signed_value-BytesLt (pos n) (negsuc m) s t h hi hj = absurd (omega arith)
write_signed_value-BytesLt (negsuc n) (pos m) s t h hi hj = ground arith
write_signed_value-BytesLt (negsuc n) (negsuc m) s t h hi hj = ground (
  arith,
  to_be_bytes-BytesLt 2 (bit_not 16 ((n + 1) % 2 ^ 16)) (bit_not 16 ((m + 1) % 2 ^ 16)) s t,
  to_be_bytes-BytesLt 4 (bit_not 32 ((n + 1) % 2 ^ 32)) (bit_not 32 ((m + 1) % 2 ^ 32)) s t,
  to_be_bytes-BytesLt 8 (as_u64 (negsuc n)) (as_u64 (negsuc m)) s t,
)

-- Of two `i64`, the ascending encoding of the smaller is smaller byte by byte, whatever follows
-- the two.
pub write_varint_signed-BytesLt :
    (i j : ℤ) (s t : List ℕ)
    → i <ℤ j
    → IsI64 i
    → IsI64 j
    → BytesLt (write_varint_signed i asc [] ++ s) (write_varint_signed j asc [] ++ t)
unfolding write_varint_signed
write_varint_signed-BytesLt i j s t h hi hj = write_signed_value-BytesLt i j s t h hi hj

-- The reserved form of `i64::MIN` comes behind every other value.
reserved_word_last :
    (i : ℤ) (s t : List ℕ)
    → IsI64 i
    → BytesLt (write_signed_value i [] ++ s) (255 ∷ (to_be_bytes 8 u64_max ++ t))
unfolding write_signed_value
reserved_word_last (pos n) s t h = ground (arith, to_be_bytes-BytesLt 8 n u64_max s t)
reserved_word_last (negsuc n) s t h = ground arith

neg_i64_lt :
    (i j : ℤ)
    → i <ℤ j
    → IsI64 i
    → IsI64 j
    → is_i64_min i ≡ false
    → (neg_i64 j <ℤ neg_i64 i) × IsI64 (neg_i64 j) × IsI64 (neg_i64 i)
unfolding neg_i64
neg_i64_lt (pos zero) (pos m) h hi hj e = ground arith
neg_i64_lt (pos (suc n)) (pos zero) h hi hj e = ground arith
neg_i64_lt (pos (suc n)) (pos (suc m)) h hi hj e = ground arith
neg_i64_lt (pos n) (negsuc m) h hi hj e = absurd (omega arith)
neg_i64_lt (negsuc n) (pos zero) h hi hj e = ground arith
neg_i64_lt (negsuc n) (pos (suc m)) h hi hj e = ground arith
neg_i64_lt (negsuc n) (negsuc m) h hi hj e = ground arith

not_min_above : (i j : ℤ) → i <ℤ j → IsI64 i → is_i64_min j ≡ false
not_min_above (pos n) (pos m) h hi = refl
not_min_above (pos n) (negsuc m) h hi = absurd (omega arith)
not_min_above (negsuc n) (pos m) h hi = refl
not_min_above (negsuc n) (negsuc m) h hi = ground arith

neg_i64-IsI64 : (i : ℤ) → IsI64 i → is_i64_min i ≡ false → IsI64 (neg_i64 i)
unfolding neg_i64
neg_i64-IsI64 (pos zero) h e = ground arith
neg_i64-IsI64 (pos (suc n)) h e = ground arith
neg_i64-IsI64 (negsuc n) h e = ground arith

-- Of two `i64`, the descending encoding of the larger is smaller byte by byte, whatever follows
-- the two.
pub write_varint_signed-BytesLt_desc :
    (i j : ℤ) (s t : List ℕ)
    → i <ℤ j
    → IsI64 i
    → IsI64 j
    → BytesLt (write_varint_signed j desc [] ++ s) (write_varint_signed i desc [] ++ t)
unfolding write_varint_signed
write_varint_signed-BytesLt_desc i j s t h hi hj =
    let e = not_min_above i j h hi in
    elim (Bool-cases (is_i64_min i)) [
      | inl m ↦ rw (m, e) (reserved_word_last (neg_i64 j) s t (neg_i64-IsI64 j hj e))
      | inr m ↦
          let below = neg_i64_lt i j h hi hj m in
          rw (m, e) (write_signed_value-BytesLt (neg_i64 j) (neg_i64 i) s t below.0 below.1 below.2)
    ]

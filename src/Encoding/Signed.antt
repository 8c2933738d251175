-- ===== src/Encoding/Signed.antt =====
-- src/data/src/encoding_core.rs: `write_varint_signed` and `read_varint_signed`, the sortable format of an
-- `i64` (an `i32` is written as the `i64` of its value). The first byte tells the sign and the width,
-- or holds a small value with the displacement 103; descending order stores the negated value.
pub mod RoundTrip
pub mod Ordering
pub mod I32
use incresql.Prelude.{ℕ, zero, suc, ◌+◌, ◌-◌, ◌%◌, ◌^◌, ◌≤◌, ◌<◌, Bool, ◌&&◌, true, false}
use incresql.Prelude.{Option, none, some, List, [], ◌∷◌, ◌++◌}
use incresql.Prelude.{ltb, leb, ◌==◌, if◌then◌else◌, ◌>>=◌}
use incresql.Prelude.Int.{ℤ, pos, negsuc, neg_ℤ, sub_ℕ}
use incresql.Encoding.SortOrder.{SortOrder, is_desc}
use incresql.Encoding.Bytes.{push, bit_not, to_be_bytes, read_be}
use incresql.Encoding.Unsigned.{u16_max, u32_max, u64_max}

-- The range of `i64`; `negsuc n` is -(n + 1).
abbrev pub IsI64 : ℤ → Type 0
IsI64 (pos n) = n < 2 ^ 63
IsI64 (negsuc n) = n < 2 ^ 63

abbrev pub i64_min : ℤ
i64_min = negsuc (2 ^ 63 - 1)

abbrev pub is_i64_min : ℤ → Bool
is_i64_min (pos n) = false
is_i64_min (negsuc n) = n == 2 ^ 63 - 1

-- `-i`, which wraps at `i64::MIN`.
unfoldable pub neg_i64 : ℤ → ℤ
unfolding neg_ℤ
neg_i64 i = if is_i64_min i then i else neg_ℤ i

-- `i as u64` and `u as i64`: two's complement.
abbrev pub as_u64 : ℤ → ℕ
as_u64 (pos n) = n
as_u64 (negsuc n) = 2 ^ 64 - 1 - n

abbrev pub as_i64 : ℕ → ℤ
as_i64 u = if ltb u (2 ^ 63) then pos u else negsuc (2 ^ 64 - 1 - u)

-- The cascade of widths, by the sign of `i`: `i >= -99` is `n + 1 ≤ 99` at -(n + 1).
unfoldable pub write_signed_value : ℤ → List ℕ → List ℕ
write_signed_value (pos n) buffer =
    if leb n 148
    then push buffer (n % 2 ^ 8 + 103)
    else if leb n 255
    then push (push buffer 252) (n % 2 ^ 8)
    else if leb n u16_max
    then push buffer 253 ++ to_be_bytes 2 (n % 2 ^ 16)
    else if leb n u32_max
    then push buffer 254 ++ to_be_bytes 4 (n % 2 ^ 32)
    else push buffer 255 ++ to_be_bytes 8 (as_u64 (pos n))
write_signed_value (negsuc n) buffer =
    if leb (n + 1) 99
    then push buffer ((103 - (n + 1)) % 2 ^ 8)
    else if leb (n + 1) 255
    then push (push buffer 3) (bit_not 8 ((n + 1) % 2 ^ 8))
    else if leb (n + 1) u16_max
    then push buffer 2 ++ to_be_bytes 2 (bit_not 16 ((n + 1) % 2 ^ 16))
    else if leb (n + 1) u32_max
    then push buffer 1 ++ to_be_bytes 4 (bit_not 32 ((n + 1) % 2 ^ 32))
    else push buffer 0 ++ to_be_bytes 8 (as_u64 (negsuc n))

unfoldable pub write_varint_signed : ℤ → SortOrder → List ℕ → List ℕ
unfolding is_desc
write_varint_signed i sort_order buffer =
    if is_desc sort_order && is_i64_min i
    then push buffer 255 ++ to_be_bytes 8 u64_max
    else write_signed_value (if is_desc sort_order then neg_i64 i else i) buffer

-- `-(u as i64)` of an unsigned word.
abbrev minus : ℕ → ℤ
minus zero = pos zero
minus (suc n) = negsuc n

-- `rem[0]` and `&rem[1..]`.
abbrev pub first_byte : List ℕ → Option (ℕ × List ℕ)
first_byte [] = none
first_byte (b ∷ rem) = some (b, rem)

-- The arm of the first byte 255, which returns `i64::MIN` early for the reserved word.
abbrev read_tag_255 : SortOrder → ℕ × List ℕ → ℤ × Bool × List ℕ
unfolding is_desc
read_tag_255 sort_order (u, rest) =
    if is_desc sort_order && u == u64_max then (i64_min, true, rest) else (as_i64 u, false, rest)

-- The `match` on the first byte: the value, whether it is returned early, and the rest.
unfoldable pub read_signed_value : SortOrder → List ℕ → Option (ℤ × Bool × List ℕ)
unfolding is_desc
read_signed_value sort_order [] = none
read_signed_value sort_order (b ∷ rem) =
    if b == 0
    then (do (u, rest) ← read_be 8 rem; some (as_i64 u, false, rest))
    else if b == 1
    then (do (u, rest) ← read_be 4 rem; some (minus (bit_not 32 u), false, rest))
    else if b == 2
    then (do (u, rest) ← read_be 2 rem; some (minus (bit_not 16 u), false, rest))
    else if b == 3
    then (do (u, rest) ← first_byte rem; some (minus (bit_not 8 u), false, rest))
    else if b == 252
    then (do (u, rest) ← first_byte rem; some (pos u, false, rest))
    else if b == 253
    then (do (u, rest) ← read_be 2 rem; some (pos u, false, rest))
    else if b == 254
    then (do (u, rest) ← read_be 4 rem; some (pos u, false, rest))
    else if b == 255
    then (do word ← read_be 8 rem; some (read_tag_255 sort_order word))
    else some (sub_ℕ b 103, false, rem)

-- The negation after the `match`.
abbrev finish_signed : SortOrder → ℤ × Bool × List ℕ → ℤ × List ℕ
unfolding is_desc
finish_signed sort_order (i, returned, rest) =
    if returned then (i, rest) else if is_desc sort_order then (neg_i64 i, rest) else (i, rest)

unfoldable pub read_varint_signed : SortOrder → List ℕ → Option (ℤ × List ℕ)
unfolding is_desc
read_varint_signed sort_order buffer = do
  value ← read_signed_value sort_order buffer
  some (finish_signed sort_order value)

-- ===== src/Encoding/Unsigned.antt =====
-- src/data/src/encoding_core.rs: `write_varint_unsigned` and `read_varint_unsigned`, the sortable format
-- of a `u64`. The first byte holds a small value, or tells the width of the big-endian word behind
-- it; descending order complements every byte.
pub mod RoundTrip
pub mod Ordering
use incresql.Prelude.{ℕ, ◌+◌, ◌-◌, ◌%◌, ◌^◌, Option, none, some, List, [], ◌∷◌, ◌++◌}
use incresql.Prelude.{ltb, leb, ◌==◌, if◌then◌else◌, ◌>>=◌}
use incresql.Encoding.SortOrder.{SortOrder, is_desc}
use incresql.Encoding.Bytes.{push, bit_not, to_be_bytes, read_be}

-- `u16::MAX`, `u32::MAX` and `u64::MAX`.
abbrev pub u16_max : ℕ
u16_max = 2 ^ 16 - 1

abbrev pub u32_max : ℕ
u32_max = 2 ^ 32 - 1

abbrev pub u64_max : ℕ
u64_max = 2 ^ 64 - 1

-- `i as u16` and `i as u32` keep the low bits. The result is the buffer after the writes.
unfoldable pub write_varint_unsigned : ℕ → SortOrder → List ℕ → List ℕ
unfolding is_desc
write_varint_unsigned i sort_order buffer =
    if is_desc sort_order
    then (if ltb i 253
        then push buffer (bit_not 8 (i % 2 ^ 8))
        else if leb i u16_max
        then push buffer (bit_not 8 253) ++ to_be_bytes 2 (bit_not 16 (i % 2 ^ 16))
        else if leb i u32_max
        then push buffer (bit_not 8 254) ++ to_be_bytes 4 (bit_not 32 (i % 2 ^ 32))
        else push buffer (bit_not 8 255) ++ to_be_bytes 8 (bit_not 64 i))
    else (if ltb i 253
        then push buffer (i % 2 ^ 8)
        else if leb i u16_max
        then push buffer 253 ++ to_be_bytes 2 (i % 2 ^ 16)
        else if leb i u32_max
        then push buffer 254 ++ to_be_bytes 4 (i % 2 ^ 32)
        else push buffer 255 ++ to_be_bytes 8 i)

-- The value and the rest of the buffer; `none` is the panic of an index past the end.
unfoldable pub read_varint_unsigned : SortOrder → List ℕ → Option (ℕ × List ℕ)
unfolding is_desc
read_varint_unsigned sort_order [] = none
read_varint_unsigned sort_order (b ∷ rem) =
    if is_desc sort_order
    then (if b == 2
        then (do (u, rest) ← read_be 2 rem; some (bit_not 16 u, rest))
        else if b == 1
        then (do (u, rest) ← read_be 4 rem; some (bit_not 32 u, rest))
        else if b == 0
        then (do (u, rest) ← read_be 8 rem; some (bit_not 64 u, rest))
        else some (bit_not 8 b, rem))
    else (if b == 253
        then read_be 2 rem
        else if b == 254
        then read_be 4 rem
        else if b == 255
        then read_be 8 rem
        else some (b, rem))

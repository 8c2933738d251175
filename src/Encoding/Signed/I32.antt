-- ===== src/Encoding/Signed/I32.antt =====
-- src/data/src/encoding_core.rs: the `i32` instance, which goes through the `i64` format.
use incresql.Prelude.{ℕ, ◌-◌, ◌%◌, ◌^◌, ◌<◌, ◌≡◌, Option, some, List, [], ◌++◌, arith}
use incresql.Prelude.{ltb, if◌then◌else◌, ◌>>=◌}
use incresql.Prelude.Int.{ℤ, pos, negsuc}
use incresql.Encoding.SortOrder.{SortOrder}
use incresql.Encoding.Signed.{IsI64, as_u64, write_varint_signed, read_varint_signed}
use incresql.Encoding.Signed.RoundTrip.{read-write_varint_signed, write_varint_signed-append}

abbrev pub IsI32 : ℤ → Type 0
IsI32 (pos n) = n < 2 ^ 31
IsI32 (negsuc n) = n < 2 ^ 31

-- `i as i32` keeps the low 32 bits.
abbrev pub as_i32 : ℤ → ℤ
as_i32 i = let u = as_u64 i % 2 ^ 32 in if ltb u (2 ^ 31) then pos u else negsuc (2 ^ 32 - 1 - u)

unfoldable pub write_i32 : ℤ → SortOrder → List ℕ → List ℕ
write_i32 i sort_order buffer = write_varint_signed i sort_order buffer

unfoldable pub read_i32 : SortOrder → List ℕ → Option (ℤ × List ℕ)
read_i32 sort_order buffer = do
  (i, rem) ← read_varint_signed sort_order buffer
  some (as_i32 i, rem)

as_i32-IsI32 : (i : ℤ) → IsI32 i → as_i32 i ≡ i
as_i32-IsI32 (pos n) h = ground arith
as_i32-IsI32 (negsuc n) h = ground arith

-- For every `i32`, `read_i32` reads back what `write_i32` wrote, in both sort orders, and leaves
-- whatever follows it.
pub read-write_i32 :
    (i : ℤ) (sort_order : SortOrder) (rest : List ℕ)
    → IsI32 i
    → read_i32 sort_order (write_i32 i sort_order [] ++ rest) ≡ some (i, rest)
unfolding read_i32 write_i32
read-write_i32 (pos n) sort_order rest h =
    rw (read-write_varint_signed (pos n) sort_order rest (omega arith), as_i32-IsI32 (pos n) h)
read-write_i32 (negsuc n) sort_order rest h =
    rw
      (read-write_varint_signed (negsuc n) sort_order rest (omega arith), as_i32-IsI32 (negsuc n) h)

pub write_i32-append :
    (i : ℤ) (sort_order : SortOrder) (buffer : List ℕ)
    → write_i32 i sort_order buffer ≡ buffer ++ write_i32 i sort_order []
unfolding write_i32
write_i32-append i sort_order buffer = write_varint_signed-append i sort_order buffer

pub IsI32-IsI64 : (i : ℤ) → IsI32 i → IsI64 i
IsI32-IsI64 (pos n) h = omega arith
IsI32-IsI64 (negsuc n) h = omega arith

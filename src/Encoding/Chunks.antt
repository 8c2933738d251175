-- ===== src/Encoding/Chunks.antt =====
-- src/data/src/encoding_core.rs: `write_sortable_bytes` and `read_sortable_bytes`, the sortable format of a
-- byte string: chunks of eight bytes, the last one padded, each with a byte that tells how many of the
-- eight count, or 9 where another chunk follows. Descending order complements every byte.
pub mod Form
pub mod Rounds
pub mod RoundTrip
pub mod Ordering
use incresql.Prelude.{ℕ, zero, suc, ◌+◌, ◌-◌, ◌%◌, ◌^◌, ◌≡◌, Option, none, some}
use incresql.Prelude.{List, [], ◌∷◌, ◌++◌, map, length, take, drop, replicate, get_elem?}
use incresql.Prelude.{ltb, leb, ◌==◌, if◌then◌else◌, ◌>>=◌}
use incresql.Encoding.SortOrder.{SortOrder, is_asc}
use incresql.Encoding.Bytes.{push, bit_not, to_le_bytes, from_le_bytes}
use Prim.Native.Nat.{min}
use mathlib.Core.Option

-- What follows the `while` loop: the remaining bytes, the padding and the size.
unfoldable pub write_last_asc : List ℕ → List ℕ → List ℕ
write_last_asc bytes buffer =
    push ((buffer ++ bytes) ++ replicate (8 - length bytes) 0) (length bytes % 2 ^ 8)

unfoldable pub write_last_desc : List ℕ → List ℕ → List ℕ
write_last_desc bytes buffer =
    push ((buffer ++ map (bit_not 8) bytes) ++ replicate (8 - length bytes) (bit_not 8 0))
      (bit_not 8 (length bytes % 2 ^ 8))

-- `while bytes.len() > 8`. The fuel is at least the length, so at zero no byte is left.
unfoldable pub write_chunks_asc : ℕ → List ℕ → List ℕ → List ℕ
write_chunks_asc zero bytes buffer = write_last_asc bytes buffer
write_chunks_asc (suc fuel) bytes buffer =
    let more = write_chunks_asc fuel (drop 8 bytes) (push (buffer ++ take 8 bytes) 9) in
    if ltb 8 (length bytes) then more else write_last_asc bytes buffer

-- `!u64::from_le_bytes(bytes[..8])`, written by `to_le_bytes`.
abbrev pub inverted : List ℕ → List ℕ
inverted chunk = to_le_bytes 8 (bit_not 64 (from_le_bytes chunk))

unfoldable pub write_chunks_desc : ℕ → List ℕ → List ℕ → List ℕ
write_chunks_desc zero bytes buffer = write_last_desc bytes buffer
write_chunks_desc (suc fuel) bytes buffer =
    let more =
      write_chunks_desc fuel (drop 8 bytes)
        (push (buffer ++ inverted (take 8 bytes)) (bit_not 8 9)) in
    if ltb 8 (length bytes) then more else write_last_desc bytes buffer

unfoldable pub write_sortable_bytes : List ℕ → SortOrder → List ℕ → List ℕ
unfolding is_asc
write_sortable_bytes bytes sort_order buffer =
    if is_asc sort_order
    then write_chunks_asc (length bytes) bytes buffer
    else write_chunks_desc (length bytes) bytes buffer

-- `&rem[..k]` and `&rem[k..]` panic past the end.
abbrev pub slice_to : ℕ → List ℕ → Option (List ℕ)
slice_to k rem = if leb k (length rem) then some (take k rem) else none

abbrev pub slice_from : ℕ → List ℕ → Option (List ℕ)
slice_from k rem = if leb k (length rem) then some (drop k rem) else none

-- The bytes of one chunk, given its size byte.
abbrev pub chunk_asc : ℕ → List ℕ → Option (List ℕ)
chunk_asc t rem = slice_to (min t 8) rem

abbrev pub chunk_desc : ℕ → List ℕ → Option (List ℕ)
chunk_desc t rem =
    if leb 8 (min t 8)
    then Option.map inverted (slice_to 8 rem)
    else Option.map (map (bit_not 8)) (slice_to (min t 8) rem)

-- The `loop`. Each round takes nine bytes, so fuel of the buffer's length is enough: at zero the
-- buffer is empty and `rem[8]` panics.
unfoldable pub read_chunks_asc : ℕ → List ℕ → List ℕ → Option (List ℕ × List ℕ)
read_chunks_asc zero bytes rem = none
read_chunks_asc (suc fuel) bytes rem = do
  t ← get_elem? rem 8
  chunk ← chunk_asc t rem
  after ← slice_from 9 rem
  let more = read_chunks_asc fuel (bytes ++ chunk) after
  if t == 9 then more else some (bytes ++ chunk, after)

unfoldable pub read_chunks_desc : ℕ → List ℕ → List ℕ → Option (List ℕ × List ℕ)
read_chunks_desc zero bytes rem = none
read_chunks_desc (suc fuel) bytes rem = do
  size ← get_elem? rem 8
  chunk ← chunk_desc (bit_not 8 size) rem
  after ← slice_from 9 rem
  let more = read_chunks_desc fuel (bytes ++ chunk) after
  if bit_not 8 size == 9 then more else some (bytes ++ chunk, after)

-- The bytes and the rest of the buffer.
unfoldable pub read_sortable_bytes : SortOrder → List ℕ → Option (List ℕ × List ℕ)
unfolding is_asc
read_sortable_bytes sort_order buffer =
    if is_asc sort_order
    then read_chunks_asc (length buffer) [] buffer
    else read_chunks_desc (length buffer) [] buffer

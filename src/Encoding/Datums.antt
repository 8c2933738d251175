-- ===== src/Encoding/Datums.antt =====
-- src/data/src/encoding_datum.rs: the sortable, self-describing format of a datum.
pub mod RoundTrip
pub mod Ordering
use incresql.Prelude.{ℕ, Bool, true, false, ◌||◌, Option, none, some, List, [], ◌∷◌, ◌++◌}
use incresql.Prelude.{ltb, ◌==◌, if◌then◌else◌, ◌>>=◌, take}
use incresql.Prelude.Int.{ℤ}
use incresql.Data.Datum.{Externals, Datum, null, boolean, byte_a_ref, byte_a_owned, byte_a_inline}
use incresql.Data.Datum.{integer, big_int, decimal, jsonpath, jsonpath_ref}
use incresql.Encoding.SortOrder.{SortOrder, asc, desc}
use incresql.Encoding.Bytes.{push, bit_not}
use incresql.Encoding.Signed.{write_varint_signed, read_varint_signed}
use incresql.Encoding.Signed.I32.{write_i32, read_i32}
use incresql.Encoding.Chunks.{write_sortable_bytes, read_sortable_bytes}

-- The `SortableEncoding` instance of the external `Decimal`.
pub record DecimalCodec (x : Externals) : Type 0 where
  pub write_decimal : x.Decimal → SortOrder → List ℕ → List ℕ
  pub read_decimal : SortOrder → List ℕ → Option (x.Decimal × List ℕ)

-- `if sort_order.is_asc() { buffer.push(t) } else { buffer.push(!t) }`.
abbrev pub push_tag : ℕ → SortOrder → List ℕ → List ℕ
push_tag t asc buffer = push buffer t
push_tag t desc buffer = push buffer (bit_not 8 t)

module _ {x : Externals} (codec : DecimalCodec x) where
  unfoldable pub as_sortable_bytes : Datum x → SortOrder → List ℕ → List ℕ
  as_sortable_bytes null sort_order buffer = push_tag 1 sort_order buffer
  as_sortable_bytes (boolean false) sort_order buffer = push_tag 2 sort_order buffer
  as_sortable_bytes (boolean true) sort_order buffer = push_tag 3 sort_order buffer
  as_sortable_bytes (integer i) sort_order buffer =
      write_i32 i sort_order (push_tag 4 sort_order buffer)
  as_sortable_bytes (big_int i) sort_order buffer =
      write_varint_signed i sort_order (push_tag 5 sort_order buffer)
  as_sortable_bytes (decimal d) sort_order buffer =
      codec.write_decimal d sort_order (push_tag 6 sort_order buffer)
  as_sortable_bytes (byte_a_owned s) sort_order buffer =
      write_sortable_bytes s sort_order (push_tag 7 sort_order buffer)
  as_sortable_bytes (byte_a_ref s) sort_order buffer =
      write_sortable_bytes s sort_order (push_tag 7 sort_order buffer)
  as_sortable_bytes (byte_a_inline len b) sort_order buffer =
      write_sortable_bytes (take len b) sort_order (push_tag 7 sort_order buffer)
  as_sortable_bytes (jsonpath p) sort_order buffer =
      write_sortable_bytes (x.original p) sort_order (push_tag 8 sort_order buffer)
  as_sortable_bytes (jsonpath_ref p) sort_order buffer =
      write_sortable_bytes (x.original p) sort_order (push_tag 8 sort_order buffer)

  -- The datum and the rest of the buffer; `none` is a panic: a buffer that is too short, a json path
  -- that does not parse, or a first byte that no datum has.
  unfoldable pub from_sortable_bytes : List ℕ → Option (Datum x × List ℕ)
  from_sortable_bytes [] = none
  from_sortable_bytes (b ∷ rem) =
      let sort_order = if ltb b 127 then asc else desc in
      if b == 1 || b == 254
      then some (null, rem)
      else if b == 2 || b == 253
      then some (boolean false, rem)
      else if b == 3 || b == 252
      then some (boolean true, rem)
      else if b == 4 || b == 251
      then (do (i, rest) ← read_i32 sort_order rem; some (integer i, rest))
      else if b == 5 || b == 250
      then (do (i, rest) ← read_varint_signed sort_order rem; some (big_int i, rest))
      else if b == 6 || b == 249
      then (do (d, rest) ← codec.read_decimal sort_order rem; some (decimal d, rest))
      else if b == 7 || b == 248
      then (do (s, rest) ← read_sortable_bytes sort_order rem; some (byte_a_owned s, rest))
      else if b == 8 || b == 247
      then (do
        (s, rest) ← read_sortable_bytes sort_order rem
        p ← x.parse_jsonpath s
        some (jsonpath p, rest))
      else none

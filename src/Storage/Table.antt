-- ===== src/Storage/Table.antt =====
-- src/storage/src/table.rs: a table, and the keys and values of its index section.
pub mod KeyForm
use incresql.Prelude.{
  ℕ, suc, ◌+◌, ◌≤◌, ◌≡◌, Bool, true, false, Option, none, some, List, [], ◌∷◌, ◌++◌,
}
use incresql.Prelude.{length, drop, leb, ◌==◌, if◌then◌else◌, ◌>>=◌}
use incresql.Prelude.Int.{ℤ}
use incresql.Data.Datum.{Externals, Datum}
use incresql.Encoding.SortOrder.{SortOrder, asc}
use incresql.Encoding.Bytes.{push, to_be_bytes, to_le_bytes}
use incresql.Encoding.Unsigned.{write_varint_unsigned}
use incresql.Encoding.Signed.{write_varint_signed}
use incresql.Encoding.Datums.{DecimalCodec, as_sortable_bytes}

-- `length` is the number of columns, `pk` the sort orders of the first columns. (The database handle
-- is the state that the operations take.)
pub record Table : Type 0 where
  pub id : ℕ
  pub columns : ℕ
  pub pk : List SortOrder

-- `Table::new` asserts that the key is no longer than the row; `Storage::table` that the id is even.
unfoldable pub new_table : ℕ → ℕ → List SortOrder → Option Table
new_table id columns pk =
    if leb (length pk) columns then some (record { id = id; columns = columns; pk = pk }) else none

module _ {x : Externals} (codec : DecimalCodec x) where
  -- `for (sort_order, datum) in table.pk.iter().zip(tuple)`.
  unfoldable pub write_pk : List SortOrder → List (Datum x) → List ℕ → List ℕ
  write_pk [] tuple key_buf = key_buf
  write_pk (o ∷ pk) [] key_buf = key_buf
  write_pk (o ∷ pk) (datum ∷ tuple) key_buf =
      write_pk pk tuple (as_sortable_bytes codec datum o key_buf)

  unfoldable pub write_datums : List (Datum x) → List ℕ → List ℕ
  write_datums [] value_buf = value_buf
  write_datums (datum ∷ rest) value_buf =
      write_datums rest (as_sortable_bytes codec datum asc value_buf)

  -- The buffer is cleared first, so the result is the key.
  unfoldable pub write_range_key : Table → List (Datum x) → Bool → List ℕ
  write_range_key table tuple end =
      let prefix = to_be_bytes 4 table.id in
      let key_buf = write_varint_unsigned (length table.pk) asc prefix in
      push (write_pk table.pk tuple key_buf) (if end then 255 else 0)

  -- `none` is the failed assertion.
  unfoldable pub write_index_header_key : Table → List (Datum x) → Option (List ℕ)
  write_index_header_key table tuple =
      if leb (length table.pk) (length tuple)
      then some (write_range_key table tuple false)
      else none

  -- The value without its timestamp: frequency and the columns behind the key.
  unfoldable pub write_freq_and_rest : Table → List (Datum x) → ℤ → List ℕ → List ℕ
  write_freq_and_rest table tuple freq value_buf =
      let rest = drop (length table.pk) tuple in
      write_datums rest
        (write_varint_unsigned (length rest) asc (write_varint_signed freq asc value_buf))

  unfoldable pub write_index_header_value : Table → List (Datum x) → ℕ → ℤ → List ℕ
  write_index_header_value table tuple timestamp freq =
      write_freq_and_rest table tuple freq (to_le_bytes 8 timestamp)

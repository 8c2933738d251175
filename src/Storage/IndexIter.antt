-- ===== src/Storage/IndexIter.antt =====
-- src/storage/src/table.rs: `IndexIter`, which walks the entries of a table's index section and stops at
-- the row versions that are visible at a timestamp.
pub mod Tuple
pub mod Version
pub mod Groups
pub mod Walk
pub mod Scan
use incresql.Prelude.{
  ℕ, zero, suc, ◌+◌, ◌-◌, ◌≡◌, Bool, true, false, Option, none, some, List, [], ◌∷◌, ◌++◌,
}
use incresql.Prelude.{leb, ◌==◌, if◌then◌else◌, ◌>>=◌, get_elem?, replicate}
use incresql.Prelude.Int.{ℤ, pos, eqb_ℤ}
use incresql.Data.Datum.{Externals, Datum, null}
use incresql.Encoding.SortOrder.{asc}
use incresql.Encoding.Bytes.{read_be, split_bytes, from_le_bytes}
use mathlib.Core.List.{tail}
use incresql.Encoding.Chunks.{slice_from}
use incresql.Encoding.Unsigned.{read_varint_unsigned, u64_max}
use incresql.Encoding.Signed.{read_varint_signed}
use incresql.Encoding.Datums.{DecimalCodec, from_sortable_bytes}
use mathlib.Core.Option

-- A key and its value.
abbrev pub Entry : Type 0
Entry = List ℕ × List ℕ

-- `tuple[idx] = datum`, which panics out of range.
unfoldable pub set? {ℓ} : {A : Type ℓ} → List A → ℕ → A → Option (List A)
set? [] idx a = none
set? (b ∷ xs) zero a = some (a ∷ xs)
set? (b ∷ xs) (suc idx) a = Option.map (λ l. b ∷ l) (set? xs idx a)

-- What one round of the loop in `advance` does: go on, with the new `seek_next_header`, or stop at
-- a row with its frequency. Both leave the tuple buffer.
pub data Round (x : Externals) : Type 0 where
  continue : Bool → List (Datum x) → Round x
  found : List (Datum x) → ℤ → Round x

-- `entries` are those from the position of the database's iterator up to the end of the range.
pub record IndexIter (x : Externals) : Type 0 where
  pub entries : List Entry
  pub timestamp : ℕ
  pub first : Bool
  pub tuple_buffer : List (Datum x)
  pub freq : Option ℤ

module _ {x : Externals} where
  unfoldable pub get : IndexIter x → Option (List (Datum x) × ℤ)
  get it = Option.map (λ freq. (it.tuple_buffer, freq)) it.freq

  -- `IndexIter::new` over a database iterator that was sought to the start of its range.
  unfoldable pub new_index_iter : List Entry → ℕ → ℕ → IndexIter x
  new_index_iter entries timestamp column_count = record {
    entries = entries;
    timestamp = timestamp;
    first = true;
    tuple_buffer = replicate column_count null;
    freq = none;
  }

module _ {x : Externals} (codec : DecimalCodec x) where
  -- `for idx in 0..count { buf = tuple[offset + idx].from_sortable_bytes(buf) }`.
  unfoldable pub read_into : ℕ → ℕ → List (Datum x) → List ℕ → Option (List (Datum x) × List ℕ)
  read_into zero offset tuple buf = some (tuple, buf)
  read_into (suc count) offset tuple buf = do
    (datum, rest) ← from_sortable_bytes codec buf
    tuple' ← set? tuple offset datum
    read_into count (offset + 1) tuple' rest

  -- The row behind the frequency.
  unfoldable pub read_row : ℤ → ℕ → List (Datum x) → List ℕ → Option (Round x)
  read_row freq pk_len tuple value_buf = do
    (datum_count, columns) ← read_varint_unsigned asc value_buf
    (tuple', rest) ← read_into datum_count pk_len tuple columns
    some (found tuple' freq)

  -- From the timestamp check on; `seek` is `seek_next_header`.
  unfoldable pub read_version : ℕ → Bool → ℕ → ℕ → List (Datum x) → List ℕ → Option (Round x)
  read_version now seek tuple_timestamp pk_len tuple value_buf =
      if leb now tuple_timestamp then some (continue seek tuple) else (do
        (freq, rest) ← read_varint_signed asc value_buf
        if eqb_ℤ freq (pos 0) then some (continue true tuple) else read_row freq pk_len tuple rest)

  -- `key_buf[0] == 0` tells the header record, whose timestamp stands in the value; any other record
  -- is skipped while a header is sought, and has its timestamp, subtracted from the largest, in the
  -- key.
  unfoldable pub read_timestamp : ℕ → Bool → ℕ → List (Datum x) → List ℕ → List ℕ → Option (Round x)
  read_timestamp now seek pk_len tuple [] value_buf = none
  read_timestamp now seek pk_len tuple (b ∷ key_buf) value_buf =
      if b == 0
      then (do
        (stamp, rest) ← split_bytes 8 value_buf
        read_version now false (from_le_bytes stamp) pk_len tuple rest)
      else if seek
      then some (continue seek tuple)
      else (do
        (stamp, rest) ← read_be 8 (b ∷ key_buf)
        read_version now seek (u64_max - stamp) pk_len tuple value_buf)

  unfoldable pub round : ℕ → Bool → List (Datum x) → Entry → Option (Round x)
  round now seek tuple (key, value) = do
    key_buf ← slice_from 4 key
    (pk_len, columns) ← read_varint_unsigned asc key_buf
    (tuple', stamp) ← read_into pk_len 0 tuple columns
    read_timestamp now seek pk_len tuple' stamp value

  -- The `loop`, with the entries from the current one on. At the end of the range there is no row.
  -- (The iterator's status, an input error of the database, is taken to be good.)
  unfoldable pub advance_loop : ℕ → Bool → List (Datum x) → List Entry → Option (IndexIter x)
  advance_loop now seek tuple [] =
      some
        (record { entries = []; timestamp = now; first = false; tuple_buffer = tuple; freq = none })
  advance_loop now seek tuple (e ∷ entries) = elim (round now seek tuple e) [
    | none ↦ none
    | some (continue seek' tuple') ↦ advance_loop now seek' tuple' entries
    | some (found tuple' freq) ↦ some (record {
      entries = e ∷ entries;
      timestamp = now;
      first = false;
      tuple_buffer = tuple';
      freq = some freq;
    })
  ]

  -- `if self.first { self.first = false } else { self.iter.next() }` in the first round.
  abbrev entries_ahead : IndexIter x → List Entry
  entries_ahead it = if it.first then it.entries else tail it.entries

  unfoldable pub advance : IndexIter x → Option (IndexIter x)
  advance it = advance_loop it.timestamp true it.tuple_buffer (entries_ahead it)

  -- A client's loop `while let Some(row) = iter.next()? { … }`: the rows in order. The fuel is larger
  -- than the number of entries, since each row takes one.
  unfoldable pub rows : ℕ → IndexIter x → Option (List (List (Datum x) × ℤ))
  unfolding get
  rows zero it = none
  rows (suc fuel) it = do
    it' ← advance it
    let more = rows fuel it'
    elim (get it') [ none ↦ some [] | some row ↦ Option.map (λ l. row ∷ l) more ]

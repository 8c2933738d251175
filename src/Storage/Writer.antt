-- ===== src/Storage/Writer.antt =====
-- src/storage/src/table.rs: `Writer`, through which all writes go, the commit of its batch, and the
-- point lookup.
pub mod Keys
pub mod Versions
pub mod Effect
pub mod System
use incresql.Prelude.{
  ℕ, zero, suc, ◌+◌, ◌-◌, ◌^◌, ◌%◌, ◌≡◌, ◌≢◌, Bool, true, false, not, Option, none, some,
}
use incresql.Prelude.{
  List, [], ◌∷◌, ◌++◌, length, take, drop, replicate, ◌==◌, if◌then◌else◌, ◌>>=◌,
}
use incresql.Prelude.Int.{ℤ, pos, negsuc, ◌+ℤ◌}
use incresql.Data.Datum.{Externals, Datum, null}
use incresql.Encoding.SortOrder.{asc}
use incresql.Encoding.Bytes.{push, to_be_bytes, from_le_bytes, split_bytes}
use incresql.Encoding.Unsigned.{read_varint_unsigned, u64_max}
use incresql.Encoding.Signed.{as_i64, read_varint_signed}
use incresql.Encoding.Datums.{DecimalCodec, from_sortable_bytes}
use incresql.Storage.Table.{Table, write_index_header_key, write_index_header_value}
use incresql.Storage.IndexIter.{read_into}

-- RocksDB: a database, which `get_db` reads, and a `WriteBatchWithIndex` over one. A state is a batch
-- with the database below it; `get` reads through both and sees the batch's writes, `get_db` does
-- not until the batch is committed. The laws of `get`, `put` and `delete` are those of a map.
pub record WriteBatch : Type 1 where
  pub Db : Type 0
  pub State : Type 0
  pub get_db : List ℕ → Db → Option (List ℕ)
  pub new_batch : Db → State
  pub commit : State → Db
  pub get : List ℕ → State → Option (List ℕ)
  pub put : List ℕ → List ℕ → State → State
  pub delete : List ℕ → State → State
  pub get-put_self : (k v : List ℕ) (s : State) → get k (put k v s) ≡ some v
  pub get-put_ne : (j k v : List ℕ) (s : State) → j ≢ k → get j (put k v s) ≡ get j s
  pub get-delete_self : (k : List ℕ) (s : State) → get k (delete k s) ≡ none
  pub get-delete_ne : (j k : List ℕ) (s : State) → j ≢ k → get j (delete k s) ≡ get j s
  pub get-new_batch : (k : List ℕ) (db : Db) → get k (new_batch db) ≡ get_db k db
  pub get_db-commit : (k : List ℕ) (s : State) → get_db k (commit s) ≡ get k s

-- The `i64` that a sum wraps to.
unfoldable pub wrap_i64 : ℤ → ℤ
wrap_i64 (pos n) = as_i64 (n % 2 ^ 64)
wrap_i64 (negsuc n) = as_i64 (2 ^ 64 - 1 - n % 2 ^ 64)

-- `Vec::pop` and `Vec::truncate`.
abbrev pub pop : List ℕ → List ℕ
pop buf = take (length buf - 1) buf

abbrev pub truncate : ℕ → List ℕ → List ℕ
truncate len buf = take len buf

module _ {x : Externals} (codec : DecimalCodec x) (batch : WriteBatch) where
  open batch use {Db, State, get_db, new_batch, commit, get, put, delete}

  -- The old record moves below the header, under its own timestamp. The key buffer is changed and
  -- restored on the way.
  unfoldable pub bump_down : ℕ → List ℕ → List ℕ → State → List ℕ × State
  bump_down last_timestamp key_buf value state =
      let history_key = pop key_buf ++ to_be_bytes 8 (u64_max - last_timestamp) in
      (push (truncate (length history_key - 8) history_key) 0, put history_key value state)

  -- With an existing record: its timestamp and frequency, and the value behind the timestamp.
  unfoldable pub write_over :
      Table → List (Datum x) → ℕ → ℤ → List ℕ → List ℕ → State → Option State
  write_over table tuple timestamp freq key_buf value_bytes state = do
    (stamp, freq_and_rest) ← split_bytes 8 value_bytes
    (last_freq, rest) ← read_varint_signed asc freq_and_rest
    let total = wrap_i64 (freq +ℤ last_freq)
    let last_timestamp = from_le_bytes stamp
    let bumped =
        if last_timestamp == timestamp
        then (key_buf, state)
        else bump_down last_timestamp key_buf freq_and_rest state
    some (put bumped.0 (write_index_header_value codec table tuple timestamp total) bumped.1)

  -- `none` is a failed assertion or a stored value that is too short.
  unfoldable pub write_tuple : Table → List (Datum x) → ℕ → ℤ → State → Option State
  write_tuple table tuple timestamp freq state =
      if length tuple == table.columns
      then (do
        key_buf ← write_index_header_key codec table tuple
        elim (get key_buf state) [
          | none ↦
              some (put key_buf (write_index_header_value codec table tuple timestamp freq) state)
          | some value_bytes ↦ write_over table tuple timestamp freq key_buf value_bytes state
        ])
      else none

  unfoldable pub write_index_header : Table → List (Datum x) → ℕ → ℤ → State → Option State
  write_index_header table tuple timestamp freq state = do
    key_buf ← write_index_header_key codec table tuple
    some (put key_buf (write_index_header_value codec table tuple timestamp freq) state)

  -- `LogicalTimestamp::default()` is 0.
  unfoldable pub system_write_tuple : Table → List (Datum x) → ℤ → State → Option State
  unfolding write_index_header
  system_write_tuple table tuple freq state = write_index_header table tuple 0 freq state

  unfoldable pub system_delete_tuple : Table → List (Datum x) → State → Option State
  system_delete_tuple table pk state = do
    key_buf ← write_index_header_key codec table pk
    some (delete key_buf state)

  -- A new writer's batch, filled by the closure and written to the database; `none` is a panic of
  -- the closure.
  unfoldable pub atomic_write : (State → Option State) → Db → Option Db
  atomic_write fill db = do state ← fill (new_batch db); some (commit state)

  -- Reads the database, not a batch: the frequency and the columns behind the key of the latest
  -- version, if there is one. The buffer for the columns is sized to the stored count.
  unfoldable pub system_point_lookup :
      Table → List (Datum x) → Db → Option (Option (ℤ × List (Datum x)))
  system_point_lookup table pk db = do
    key_buf ← write_index_header_key codec table pk
    elim (get_db key_buf db) [ none ↦ some none | some value_slice ↦ lookup_value value_slice ]
    where
      lookup_value : List ℕ → Option (Option (ℤ × List (Datum x)))
      lookup_value value_slice = do
        (stamp, value_buf) ← split_bytes 8 value_slice
        (freq, counted) ← read_varint_signed asc value_buf
        (tuple_rest_len, columns) ← read_varint_unsigned asc counted
        (rest_tuple, rest) ←
            read_into codec tuple_rest_len 0 (replicate tuple_rest_len null) columns
        some (some (freq, rest_tuple))

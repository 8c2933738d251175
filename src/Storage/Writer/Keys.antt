-- ===== src/Storage/Writer/Keys.antt =====
-- src/storage/src/table.rs: the keys under which `Writer` keeps the versions of a row, and what it reads
-- back from a record.
use incresql.Prelude.{ℕ, ◌+◌, ◌-◌, ◌≡◌, ◌≢◌, refl, sym, ap, ◌∙◌, arith, false, some}
use incresql.Prelude.{List, [], ◌∷◌, ◌++◌, length, take, drop, length-append, drop-append_left}
use incresql.Prelude.{take-append_left, All, All-append, All-drop}
use incresql.Prelude.Int.{ℤ}
use incresql.Data.Datum.{Externals, Datum}
use incresql.Encoding.SortOrder.{asc}
use incresql.Encoding.Bytes.{IsU64, push, to_be_bytes, from_be_bytes, to_le_bytes, split_bytes}
use incresql.Encoding.Bytes.BigEndian.{
  length-to_be_bytes, from_be_bytes-to_be_bytes, split_bytes-append,
}
use incresql.Encoding.Bytes.LittleEndian.{length-to_le_bytes}
use incresql.Encoding.Unsigned.{write_varint_unsigned, u64_max}
use incresql.Encoding.Signed.{IsI64, read_varint_signed}
use incresql.Encoding.Signed.RoundTrip.{read-write_varint_signed}
use incresql.Encoding.Datums.{DecimalCodec}
use incresql.Encoding.Datums.RoundTrip.{IsStorable}
use incresql.Storage.Table.{
  Table, write_range_key, write_freq_and_rest, write_index_header_value, write_datums,
}
use incresql.Storage.Table.KeyForm.{key_stem, write_range_key-key_stem, write_freq_and_rest-append}
use incresql.Storage.IndexIter.Version.{write_pk-zip}
use incresql.Storage.Writer.{pop, truncate}

-- The keys behind one stem: the header's is shorter than any other, and no two timestamps share one.
pub pop-push : (stem : List ℕ) (b : ℕ) → pop (push stem b) ≡ stem
pop-push stem b =
    ap (λ n. take (n - 1) (stem ++ (b ∷ []))) (length-append stem (b ∷ []))
    ∙ take-append_left (length stem + 1 - 1) stem (b ∷ []) (omega arith)

pub truncate-history :
    (stem : List ℕ) (ts : ℕ)
    → truncate (length (stem ++ to_be_bytes 8 ts) - 8) (stem ++ to_be_bytes 8 ts) ≡ stem
truncate-history stem ts =
    take-append_left _ stem (to_be_bytes 8 ts)
      (omega (arith, length-append stem (to_be_bytes 8 ts), length-to_be_bytes 8 ts))

pub header-history : (stem : List ℕ) (b ts : ℕ) → stem ++ (b ∷ []) ≢ stem ++ to_be_bytes 8 ts
header-history stem b ts h =
    let lengths = ap length h in
    omega (
      arith,
      length-append stem (b ∷ []),
      length-append stem (to_be_bytes 8 ts),
      length-to_be_bytes 8 ts,
      lengths,
    )

history_suffix :
    (stem : List ℕ) (s t : ℕ)
    → stem ++ to_be_bytes 8 s ≡ stem ++ to_be_bytes 8 t
    → to_be_bytes 8 s ≡ to_be_bytes 8 t
history_suffix stem s t h =
    sym (drop-append_left (length stem) stem (to_be_bytes 8 s) refl)
    ∙ ap (drop (length stem)) h
    ∙ drop-append_left (length stem) stem (to_be_bytes 8 t) refl

pub history-history :
    (stem : List ℕ) (s t : ℕ)
    → IsU64 s
    → IsU64 t
    → s ≢ t
    → stem ++ to_be_bytes 8 (u64_max - s) ≢ stem ++ to_be_bytes 8 (u64_max - t)
history-history stem s t hs ht ne h =
    let words =
      sym (from_be_bytes-to_be_bytes 8 (u64_max - s) (omega arith))
      ∙ ap from_be_bytes (history_suffix stem (u64_max - s) (u64_max - t) h)
      ∙ from_be_bytes-to_be_bytes 8 (u64_max - t) (omega arith) in
    ne (omega (arith, words))

module _ {x : Externals} (codec : DecimalCodec x) (table : Table) (key rest : List (Datum x))
    (key_columns : length key ≡ length table.pk) where
  pub key_stem-zip : key_stem codec table (key ++ rest) ≡ key_stem codec table key
  unfolding key_stem
  key_stem-zip =
      ap (λ l. to_be_bytes 4 table.id ++ (write_varint_unsigned (length table.pk) asc [] ++ l))
        (write_pk-zip codec table.pk key rest [] key_columns)

  pub write_range_key-zip :
      All IsStorable key
      → All IsStorable rest
      → write_range_key codec table (key ++ rest) false ≡ push (key_stem codec table key) 0
  write_range_key-zip hk hr =
      write_range_key-key_stem codec table (key ++ rest) false
        (All-append IsStorable key rest hk hr)
      ∙ ap (λ l. l ++ (0 ∷ [])) key_stem-zip

module _ {x : Externals} (codec : DecimalCodec x) (table : Table) (tuple : List (Datum x))
    (storable : All IsStorable tuple) where
  -- The bytes of a record behind its timestamp stay as they are when the record moves to the history.
  pub write_index_header_value-split :
      (ts : ℕ) (freq : ℤ)
      → split_bytes 8 (write_index_header_value codec table tuple ts freq)
        ≡ some (to_le_bytes 8 ts, write_freq_and_rest codec table tuple freq [])
  unfolding write_index_header_value
  write_index_header_value-split ts freq =
      let rest = All-drop IsStorable (length table.pk) tuple storable in
      rw
        (
          write_freq_and_rest-append codec table tuple freq (to_le_bytes 8 ts) rest,
          write_freq_and_rest-append codec table tuple freq [] rest,
        )
        (split_bytes-append 8 (to_le_bytes 8 ts) _ (length-to_le_bytes 8 ts))

  pub read-write_freq_and_rest :
      (freq : ℤ)
      → IsI64 freq
      → read_varint_signed asc (write_freq_and_rest codec table tuple freq [])
        ≡ some (
          freq,
          write_varint_unsigned (length (drop (length table.pk) tuple)) asc []
              ++ write_datums codec (drop (length table.pk) tuple) [],
        )
  read-write_freq_and_rest freq fits =
      rw
        (write_freq_and_rest-append codec table tuple freq []
          (All-drop IsStorable (length table.pk) tuple storable))
        (read-write_varint_signed freq asc _ fits)

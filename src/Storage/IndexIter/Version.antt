-- ===== src/Storage/IndexIter/Version.antt =====
-- One round of the loop of `IndexIter::advance` at a record that `write_tuple` may have written.
use incresql.Prelude.{ℕ, ◌-◌, ◌^◌, ◌<◌, ◌≡◌, refl, sym, ap, arith}
use incresql.Prelude.{
  Bool, true, false, Bool-cases, inl, inr, some, if◌then◌else◌, leb, ◌==◌, ap-if, le→leb,
  All-append,
}
use incresql.Prelude.{List, [], ◌∷◌, ◌++◌, map, length, length-append, length-map, drop-append_left}
use incresql.Prelude.{All, append_assoc, append-nil}
use incresql.Prelude.Int.{ℤ, pos, eqb_ℤ}
use incresql.Data.Datum.{Externals, Datum}
use incresql.Encoding.SortOrder.{SortOrder, asc}
use incresql.Encoding.Bytes.{IsU64, to_be_bytes, to_le_bytes}
use incresql.Encoding.Bytes.BigEndian.{read_be-to_be_bytes, length-to_be_bytes, split_bytes-append}
use incresql.Encoding.Unsigned.{write_varint_unsigned, u64_max}
use incresql.Encoding.Unsigned.RoundTrip.{read-write_varint_unsigned}
use incresql.Encoding.Signed.{IsI64, write_varint_signed}
use incresql.Encoding.Signed.RoundTrip.{read-write_varint_signed}
use incresql.Encoding.Datums.{DecimalCodec, as_sortable_bytes}
use incresql.Encoding.Chunks.{slice_from}
use incresql.Encoding.Bytes.LittleEndian.{length-to_le_bytes, from_le_bytes-to_le_bytes}
use incresql.Data.Datum.Stored.{stored}
use incresql.Encoding.Datums.RoundTrip.{IsStorable}
use incresql.Storage.Table.{Table, write_pk, write_datums, write_range_key, write_freq_and_rest}
use incresql.Storage.Table.{write_index_header_value}
use incresql.Storage.Table.KeyForm.{key_stem, write_range_key-key_stem, write_freq_and_rest-append}
use incresql.Storage.IndexIter.{Round, continue, found, Entry, read_into, read_row, read_version}
use incresql.Storage.IndexIter.{read_timestamp, round}
use incresql.Storage.IndexIter.Tuple.{read_into-write_pk, read_into-write_datums}

-- A timestamp of a record below the header: early enough for the key to tell it from a header.
abbrev pub IsPast : ℕ → Type 0
IsPast ts = ts < 2 ^ 64 - 2 ^ 56

slice_from-append : (n : ℕ) (xs ys : List ℕ) → length xs ≡ n → slice_from n (xs ++ ys) ≡ some ys
slice_from-append n xs ys h =
    rw (le→leb n (length (xs ++ ys)) (omega (arith, length-append xs ys)))
      (ap some (drop-append_left n xs ys h))

pub write_pk-zip :
    {x : Externals} (codec : DecimalCodec x) (pk : List SortOrder) (key rest : List (Datum x))
    (buffer : List ℕ)
    → length key ≡ length pk
    → write_pk codec pk (key ++ rest) buffer ≡ write_pk codec pk key buffer
unfolding write_pk
write_pk-zip codec [] [] rest buffer h = refl
write_pk-zip codec [] (d ∷ key) rest buffer h = absurd (omega arith)
write_pk-zip codec (o ∷ pk) [] rest buffer h = absurd (omega arith)
write_pk-zip codec (o ∷ pk) (d ∷ key) rest buffer h =
    write_pk-zip codec pk key rest (as_sortable_bytes codec d o buffer) (omega arith)

module _ {x : Externals} where
  -- What a record with timestamp `ts` and frequency `freq` means to a reader at `now`: it is in the
  -- future, or the row is deleted, or it is the row.
  abbrev pub verdict : ℕ → Bool → ℕ → ℤ → List (Datum x) → List (Datum x) → Round x
  verdict now seek ts freq partial row =
      if leb now ts
      then continue seek partial
      else if eqb_ℤ freq (pos 0)
      then continue true partial
      else found row freq

module _ {x : Externals} (codec : DecimalCodec x) (rest : List (Datum x)) where
  abbrev columns_bytes : List ℕ
  columns_bytes = write_varint_unsigned (length rest) asc [] ++ write_datums codec rest []

module _ {x : Externals} (codec : DecimalCodec x) (table : Table) (key rest : List (Datum x)) where
  -- The two kinds of records of a row version.
  abbrev pub header_entry : ℕ → ℤ → Entry
  header_entry ts freq = (
    write_range_key codec table (key ++ rest) false,
    write_index_header_value codec table (key ++ rest) ts freq,
  )

  abbrev pub history_entry : ℕ → ℤ → Entry
  history_entry ts freq = (
    key_stem codec table (key ++ rest) ++ to_be_bytes 8 (u64_max - ts),
    write_freq_and_rest codec table (key ++ rest) freq [],
  )

module _ {x : Externals} (codec : DecimalCodec x) (key rest : List (Datum x))
    (storable : All IsStorable rest) (fits : IsU64 (length rest)) where
  read_rest :
      (post : List (Datum x))
      → length post ≡ length rest
      → read_into codec
          (length rest)
          (length key)
          (map stored key ++ post)
          (write_datums codec rest [])
        ≡ some (map stored key ++ map stored rest, [])
  read_rest post hp =
      rw
        (
          append-nil post,
          append-nil (write_datums codec rest []),
          append-nil (map stored rest),
          length-map,
        )
        at (read_into-write_datums codec rest (map stored key) post [] [] hp storable)

  read_row_lem :
      (freq : ℤ) (post : List (Datum x))
      → length post ≡ length rest
      → read_row codec freq (length key) (map stored key ++ post) (columns_bytes codec rest)
        ≡ some (found (map stored key ++ map stored rest) freq)
  unfolding read_row
  read_row_lem freq post hp = rw (
    read-write_varint_unsigned (length rest) asc (write_datums codec rest []) fits,
    read_rest post hp,
  )

  read_version_lem :
      (now : ℕ) (seek : Bool) (ts : ℕ) (freq : ℤ) (post : List (Datum x))
      → length post ≡ length rest
      → IsI64 freq
      → read_version codec now seek ts
          (length key)
          (map stored key ++ post)
          (write_varint_signed freq asc [] ++ columns_bytes codec rest)
        ≡ some
            (verdict now seek ts freq (map stored key ++ post) (map stored key ++ map stored rest))
  unfolding read_version
  read_version_lem now seek ts freq post hp hf = elim (Bool-cases (leb now ts)) [
    | inl future ↦ rw future
    | inr past ↦
        rw
          (
            past,
            read-write_varint_signed freq asc (columns_bytes codec rest) hf,
            read_row_lem freq post hp,
          )
          (ap-if some (eqb_ℤ freq (pos 0)) _ _)
  ]

module _ {x : Externals} (codec : DecimalCodec x) (table : Table) (key rest : List (Datum x))
    (key_storable : All IsStorable key) (storable : All IsStorable rest)
    (key_len : length key ≡ length table.pk) (fits : IsU64 (length rest))
    (key_fits : IsU64 (length key)) where
  columns-IsStorable : All IsStorable (key ++ rest)
  columns-IsStorable = All-append IsStorable key rest key_storable storable

  -- The first part of the round: the prefix, the number of key columns and the key columns.
  round_stem :
      (now : ℕ) (seek : Bool) (mid post : List (Datum x)) (tail value : List ℕ)
      → length mid ≡ length key
      → round codec now seek (mid ++ post) (key_stem codec table (key ++ rest) ++ tail, value)
        ≡ read_timestamp codec now seek (length key) (map stored key ++ post) tail value
  unfolding round key_stem
  round_stem now seek mid post tail value hm = rw (
    append_assoc (to_be_bytes 4 table.id) _ tail,
    slice_from-append 4 (to_be_bytes 4 table.id) _ (length-to_be_bytes 4 table.id),
    ← key_len,
    append_assoc (write_varint_unsigned (length key) asc []) _ tail,
    read-write_varint_unsigned (length key) asc _ key_fits,
    write_pk-zip codec table.pk key rest [] key_len,
    read_into-write_pk codec table.pk key [] mid post tail (sym key_len) hm key_storable,
  )

  value_form :
      (freq : ℤ) (buffer : List ℕ)
      → write_freq_and_rest codec table (key ++ rest) freq buffer
        ≡ buffer ++ (write_varint_signed freq asc [] ++ columns_bytes codec rest)
  value_form freq buffer = rw (drop-append_left (length table.pk) key rest key_len) at (
      write_freq_and_rest-append codec table (key ++ rest) freq buffer
        (rw (drop-append_left (length table.pk) key rest key_len) storable))

  pub round_header :
      (now : ℕ) (seek : Bool) (ts : ℕ) (freq : ℤ) (mid post : List (Datum x))
      → length mid ≡ length key
      → length post ≡ length rest
      → IsU64 ts
      → IsI64 freq
      → round codec now seek (mid ++ post) (header_entry codec table key rest ts freq)
        ≡ some
            (verdict now false ts freq (map stored key ++ post) (map stored key ++ map stored rest))
  unfolding write_index_header_value read_timestamp
  round_header now seek ts freq mid post hm hp ht hf =
      rw
        (
          write_range_key-key_stem codec table (key ++ rest) false columns-IsStorable,
          round_stem now seek mid post (0 ∷ []) _ hm,
          value_form freq (to_le_bytes 8 ts),
          split_bytes-append 8 (to_le_bytes 8 ts) _ (length-to_le_bytes 8 ts),
          from_le_bytes-to_le_bytes 8 ts ht,
        )
        (read_version_lem codec key rest storable fits now false ts freq post hp hf)

  -- The stored timestamp of a record below the header never begins with a zero byte.
  stamp_parts :
      (ts : ℕ)
      → IsPast ts
      → (b : ℕ) × (bs : List ℕ) × (to_be_bytes 8 (u64_max - ts) ≡ b ∷ bs) × ((b == 0) ≡ false)
  unfolding to_be_bytes
  stamp_parts ts h = (_, _, refl, ground arith)

  pub round_history :
      (now : ℕ) (ts : ℕ) (freq : ℤ) (mid post : List (Datum x))
      → length mid ≡ length key
      → length post ≡ length rest
      → IsPast ts
      → IsI64 freq
      → round codec now false (mid ++ post) (history_entry codec table key rest ts freq)
        ≡ some
            (verdict now false ts freq (map stored key ++ post) (map stored key ++ map stored rest))
  unfolding read_timestamp
  round_history now ts freq mid post hm hp ht hf =
      let (b, bs, stamp, nonzero) = stamp_parts ts ht in
      let back : u64_max - (u64_max - ts) ≡ ts = omega arith in
      let read = read_be-to_be_bytes 8 (u64_max - ts) [] (omega arith) in
      rw
        (
          round_stem now false mid post (to_be_bytes 8 (u64_max - ts)) _ hm,
          stamp,
          nonzero,
          ← stamp,
          ← append-nil (to_be_bytes 8 (u64_max - ts)),
          read,
          back,
          value_form freq [],
        )
        (read_version_lem codec key rest storable fits now false ts freq post hp hf)

  -- While a header is sought the record is skipped.
  pub round_history_skipped :
      (now : ℕ) (ts : ℕ) (freq : ℤ) (mid post : List (Datum x))
      → length mid ≡ length key
      → IsPast ts
      → round codec now true (mid ++ post) (history_entry codec table key rest ts freq)
        ≡ some (continue true (map stored key ++ post))
  unfolding read_timestamp
  round_history_skipped now ts freq mid post hm ht =
      let (b, bs, stamp, nonzero) = stamp_parts ts ht in
      rw (round_stem now true mid post (to_be_bytes 8 (u64_max - ts)) _ hm, stamp, nonzero)

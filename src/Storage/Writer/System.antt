-- ===== src/Storage/Writer/System.antt =====
-- src/storage/src/table.rs: the unversioned writes of the catalog's tables and their point lookup.
use incresql.Prelude.{ℕ, Option, ◌≢◌, sym, ◌∙◌, ◌≡◌, refl, arith, none, some}
use incresql.Prelude.{
  List, [], ◌++◌, length, map, replicate, All, All-append, length-append, length-replicate,
}
use incresql.Prelude.{le→leb, subst, ◌>>=◌, drop-append_left, append-nil}
use incresql.Prelude.Int.{ℤ}
use incresql.Data.Datum.{Externals, Datum, null}
use incresql.Encoding.SortOrder.{asc}
use incresql.Encoding.Bytes.{IsU64, push}
use incresql.Encoding.Unsigned.RoundTrip.{read-write_varint_unsigned}
use incresql.Encoding.Signed.{IsI64}
use incresql.Encoding.Datums.{DecimalCodec}
use incresql.Data.Datum.Stored.{stored}
use incresql.Encoding.Datums.RoundTrip.{IsStorable}
use incresql.Storage.Table.{Table, write_index_header_key, write_index_header_value, write_datums}
use incresql.Storage.Table.KeyForm.{key_stem}
use incresql.Storage.IndexIter.{read_into}
use incresql.Storage.IndexIter.Tuple.{read_into-write_datums}
use incresql.Storage.Writer.{
  WriteBatch, atomic_write, write_index_header, system_write_tuple, system_delete_tuple,
  system_point_lookup,
}
use incresql.Storage.Writer.Keys.{
  write_range_key-zip, write_index_header_value-split, read-write_freq_and_rest,
}

module _ {x : Externals} (codec : DecimalCodec x) (batch : WriteBatch) (table : Table)
    (key : List (Datum x)) (key_columns : length key ≡ length table.pk)
    (key_storable : All IsStorable key) where
  open batch use {Db, State, get_db, new_batch, commit, get, put, delete}

  header_key :
      (rest : List (Datum x))
      → All IsStorable rest
      → write_index_header_key codec table (key ++ rest) ≡ some (push (key_stem codec table key) 0)
  unfolding write_index_header_key
  header_key rest h =
      rw
        (
          le→leb (length table.pk) (length (key ++ rest))
              (omega (arith, length-append key rest, key_columns)),
          write_range_key-zip codec table key rest key_columns key_storable h,
        )
        refl

  bare_key : write_index_header_key codec table key ≡ some (push (key_stem codec table key) 0)
  bare_key =
      subst (λ l. write_index_header_key codec table l ≡ some (push (key_stem codec table key) 0))
        (append-nil key) (header_key [] tt)

  read_rest :
      (rest : List (Datum x))
      → All IsStorable rest
      → read_into codec (length rest) 0 (replicate (length rest) null) (write_datums codec rest [])
        ≡ some (map stored rest, [])
  read_rest rest storable =
      let read =
        read_into-write_datums codec rest [] (replicate (length rest) null) [] []
          (length-replicate (length rest) null) storable in
      subst
        (λ t.
          read_into codec (length rest) 0 (replicate (length rest) null)
            (write_datums codec rest [])
          ≡ some (t, []))
        (append-nil (map stored rest))
        (subst
          (λ t.
            read_into codec (length rest) 0 t (write_datums codec rest [])
            ≡ some (map stored rest ++ [], []))
          (append-nil (replicate (length rest) null))
          (subst
            (λ l.
              read_into codec (length rest) 0 (replicate (length rest) null ++ []) l
              ≡ some (map stored rest ++ [], []))
            (append-nil (write_datums codec rest [])) read))

  -- What the point lookup reads of a written record.
  lookup_written :
      (rest : List (Datum x)) (freq : ℤ) (db : Db)
      → All IsStorable rest
      → IsU64 (length rest)
      → IsI64 freq
      → get_db (push (key_stem codec table key) 0) db
        ≡ some (write_index_header_value codec table (key ++ rest) 0 freq)
      → system_point_lookup codec batch table key db ≡ some (some (freq, map stored rest))
  unfolding system_point_lookup
  lookup_written rest freq db storable fits freq_fits there =
      rw
        (
          bare_key,
          there,
          write_index_header_value-split codec table (key ++ rest)
              (All-append IsStorable key rest key_storable storable) 0 freq,
          read-write_freq_and_rest codec table (key ++ rest)
              (All-append IsStorable key rest key_storable storable) freq freq_fits,
          drop-append_left (length table.pk) key rest key_columns,
          read-write_varint_unsigned (length rest) asc (write_datums codec rest []) fits,
        )
        (rw (read_rest rest storable) refl)

  lookup_missing :
      (db : Db)
      → get_db (push (key_stem codec table key) 0) db ≡ none
      → system_point_lookup codec batch table key db ≡ some none
  unfolding system_point_lookup
  lookup_missing db gone = rw (bare_key, gone) refl

  -- A lookup depends on the record under its key alone.
  lookup_other :
      (other : List (Datum x)) (k : List ℕ) (db after : Db)
      → write_index_header_key codec table other ≡ some k
      → get_db k after ≡ get_db k db
      → system_point_lookup codec batch table other after
        ≡ system_point_lookup codec batch table other db
  unfolding system_point_lookup
  lookup_other other k db after e same = rw (e, same) refl

  -- A batch in which `system_write_tuple` comes after other writes is committed to a database in
  -- which the point lookup of the key gives the frequency and the columns behind the key as they
  -- were written, whatever was stored or written before, and the point lookup of a key with
  -- another encoding what it gives when the batch is committed without that write. The key has as
  -- many columns as the table's, no key or column of the row is a decimal, the others fit their
  -- types, and a json path among them parses from its text.
  pub system_point_lookup-system_write_tuple :
      (rest : List (Datum x)) (freq : ℤ) (earlier : State → Option State) (s : State) (db : Db)
      (other : List (Datum x)) (other_key : List ℕ)
      → All IsStorable rest
      → IsU64 (length rest)
      → IsI64 freq
      → earlier (new_batch db) ≡ some s
      → write_index_header_key codec table other ≡ some other_key
      → other_key ≢ push (key_stem codec table key) 0
      → (after : Db) × (atomic_write codec batch
            (λ w. earlier w >>= system_write_tuple codec batch table (key ++ rest) freq)
            db
          ≡ some after)
        × (system_point_lookup codec batch table key after ≡ some (some (freq, map stored rest)))
        × (system_point_lookup codec batch table other after
            ≡ system_point_lookup codec batch table other (commit s))
  unfolding atomic_write system_write_tuple write_index_header
  system_point_lookup-system_write_tuple rest freq earlier s db other other_key storable fits
        freq_fits e other_form apart =
      let header = push (key_stem codec table key) 0 in
      let value = write_index_header_value codec table (key ++ rest) 0 freq in
      let after = put header value s in
      (
        commit after,
        rw (e, header_key rest storable) refl,
        lookup_written rest freq (commit after) storable fits freq_fits
            (batch.get_db-commit header after ∙ batch.get-put_self header value s),
        lookup_other other other_key (commit s) (commit after) other_form (
            batch.get_db-commit other_key after
            ∙ batch.get-put_ne other_key header value s apart
            ∙ sym (batch.get_db-commit other_key s)),
      )

  -- A batch in which `system_delete_tuple` comes after other writes is committed to a database in
  -- which the point lookup of the key finds nothing, whatever was stored or written before, and the
  -- point lookup of a key with another encoding what it finds when the batch is committed without
  -- the deletion. The key has as many columns as the table's, none of them is a decimal, and the
  -- others fit their types, a json path among them parsing from its text.
  pub system_point_lookup-system_delete_tuple :
      (earlier : State → Option State) (s : State) (db : Db) (other : List (Datum x))
      (other_key : List ℕ)
      → earlier (new_batch db) ≡ some s
      → write_index_header_key codec table other ≡ some other_key
      → other_key ≢ push (key_stem codec table key) 0
      → (after : Db) × (atomic_write codec batch
            (λ w. earlier w >>= system_delete_tuple codec batch table key)
            db
          ≡ some after)
        × (system_point_lookup codec batch table key after ≡ some none)
        × (system_point_lookup codec batch table other after
            ≡ system_point_lookup codec batch table other (commit s))
  unfolding atomic_write system_delete_tuple
  system_point_lookup-system_delete_tuple earlier s db other other_key e other_form apart =
      let header = push (key_stem codec table key) 0 in
      let after = delete header s in
      (
        commit after,
        rw (e, bare_key) refl,
        lookup_missing (commit after)
            (batch.get_db-commit header after ∙ batch.get-delete_self header s),
        lookup_other other other_key (commit s) (commit after) other_form (
            batch.get_db-commit other_key after
            ∙ batch.get-delete_ne other_key header s apart
            ∙ sym (batch.get_db-commit other_key s)),
      )

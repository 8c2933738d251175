-- ===== src/Examples/Writes.antt =====
-- The theorems on writes at a concrete database.
use incresql.Prelude.{ℕ, ◌≡◌, refl, none, some, List, [], ◌∷◌, ◌++◌, map, ◌>>=◌, arith, Option}
use incresql.Prelude.Int.{pos, negsuc, ◌+ℤ◌}
use incresql.Data.Datum.{byte_a_ref, integer}
use incresql.Data.Datum.Stored.{stored}
use incresql.Storage.IndexIter.Groups.{Version, Group, group_entries}
use incresql.Storage.Table.{write_pk}
use incresql.Encoding.Datums.{as_sortable_bytes}
use incresql.Encoding.Signed.I32.{write_i32}
use incresql.Encoding.Signed.{write_varint_signed, write_signed_value, neg_i64}
use incresql.Encoding.Unsigned.{write_varint_unsigned}
use incresql.Encoding.Bytes.{to_be_bytes}
use incresql.Prelude.{◌≢◌, false, ap, sym, ◌∙◌}
use incresql.Data.Datum.{bytes_eq}
use incresql.Data.Datum.Equality.{bytes_eq_refl}
use incresql.Encoding.Bytes.{push}
use incresql.Storage.Table.{write_index_header_key, write_range_key}
use incresql.Storage.Table.KeyForm.{key_stem}
use incresql.Storage.Writer.{
  atomic_write, wrap_i64, write_tuple, system_write_tuple, system_delete_tuple, system_point_lookup,
}
use incresql.Storage.Writer.Versions.{written, Holds, Leaves}
use incresql.Storage.Writer.Effect.{write_tuple-Leaves}
use incresql.Storage.Writer.System.{
  system_point_lookup-system_write_tuple, system_point_lookup-system_delete_tuple,
}
use incresql.Storage.Merge.{frequency_merge_impl, compaction_filter, remove}
use incresql.Storage.Merge.Sum.{
  encoded, total, frequency_merge_impl-total, frequency_merge_impl-partial,
}
use incresql.Storage.Merge.Compaction.{compaction_filter-encoded}
use incresql.Examples.Sample.{
  sample_externals, sample_codec, sample_table, sample_batch, SampleDatum, SampleDb,
}

abbrev row_key : List SampleDatum
row_key = integer (pos 5) ∷ []

abbrev old_version : Version sample_externals
old_version = record { timestamp = 15; freq = pos 3; rest = byte_a_ref (97 ∷ []) ∷ [] }

abbrev new_version : Version sample_externals
new_version = record { timestamp = 40; freq = negsuc 0; rest = byte_a_ref (98 ∷ []) ∷ [] }

abbrev row : Group sample_externals
row = record { key = row_key; newest = old_version; past = [] }

abbrev entry : List ℕ × List ℕ
entry = elim (group_entries sample_codec sample_table row) [ [] ↦ ([], []) | e ∷ es ↦ e ]

-- A database without rows, and a batch that writes that row alone.
abbrev no_rows : SampleDb
no_rows = λ k. none

abbrev one_row : sample_batch.State
one_row = sample_batch.put entry.0 entry.1 (sample_batch.new_batch no_rows)

one_row-Holds : Holds sample_codec sample_batch sample_table one_row row
one_row-Holds = (sample_batch.get-put_self entry.0 entry.1 (sample_batch.new_batch no_rows), tt)

write_tuple-Leaves_example :
    Leaves sample_codec sample_batch sample_table 40 one_row row (written new_version row) (
      write_tuple sample_codec sample_batch sample_table
        (row_key ++ new_version.rest)
        40
        (negsuc 0)
        one_row)
write_tuple-Leaves_example =
    write_tuple-Leaves sample_codec sample_batch sample_table row new_version one_row (omega arith)
      (omega arith) tt one_row-Holds

-- The batch of the row, filled by a closure.
abbrev put_row : sample_batch.State → Option sample_batch.State
put_row w = some (sample_batch.put entry.0 entry.1 w)

abbrev other_row : List SampleDatum
other_row = integer (pos 6) ∷ []

abbrev other_key : List ℕ
other_key = elim (write_index_header_key sample_codec sample_table other_row) [
  | none ↦ []
  | some k ↦ k
]

other_key-there : write_index_header_key sample_codec sample_table other_row ≡ some other_key
unfolding write_index_header_key write_range_key
other_key-there = refl

keys_differ : bytes_eq other_key (push (key_stem sample_codec sample_table row_key) 0) ≡ false
unfolding write_index_header_key write_range_key key_stem bytes_eq write_pk as_sortable_bytes
    write_i32 write_varint_signed write_signed_value neg_i64 write_varint_unsigned to_be_bytes
keys_differ = refl

keys-apart : other_key ≢ push (key_stem sample_codec sample_table row_key) 0
keys-apart e =
    let same = ap (bytes_eq other_key) e ∙ keys_differ in
    let found = sym (bytes_eq_refl other_key) ∙ same in absurd (ground (arith, found))

system_point_lookup-system_write_tuple_example :
    (after : SampleDb) × (atomic_write sample_codec sample_batch
        (λ w.
          put_row w
          >>= system_write_tuple sample_codec sample_batch sample_table
              (row_key ++ new_version.rest)
              (pos 1))
        no_rows
      ≡ some after)
    × (system_point_lookup sample_codec sample_batch sample_table row_key after
        ≡ some (some (pos 1, map stored new_version.rest)))
    × (system_point_lookup sample_codec sample_batch sample_table other_row after
        ≡ system_point_lookup sample_codec sample_batch sample_table other_row
            (sample_batch.commit one_row))
system_point_lookup-system_write_tuple_example =
    system_point_lookup-system_write_tuple sample_codec sample_batch sample_table row_key refl
      (omega arith) new_version.rest (pos 1) put_row one_row no_rows other_row other_key
      (omega arith) (omega arith) (omega arith) refl other_key-there keys-apart

system_point_lookup-system_delete_tuple_example :
    (after : SampleDb) × (atomic_write sample_codec sample_batch
        (λ w. put_row w >>= system_delete_tuple sample_codec sample_batch sample_table row_key)
        no_rows
      ≡ some after)
    × (system_point_lookup sample_codec sample_batch sample_table row_key after ≡ some none)
    × (system_point_lookup sample_codec sample_batch sample_table other_row after
        ≡ system_point_lookup sample_codec sample_batch sample_table other_row
            (sample_batch.commit one_row))
system_point_lookup-system_delete_tuple_example =
    system_point_lookup-system_delete_tuple sample_codec sample_batch sample_table row_key refl
      (omega arith) put_row one_row no_rows other_row other_key refl other_key-there keys-apart

abbrev log_key : List ℕ
log_key = 0 ∷ 0 ∷ 0 ∷ 7 ∷ 1 ∷ []

frequency_merge_impl-total_example :
    frequency_merge_impl log_key
      (some (encoded (pos 5)))
      (encoded (pos 2) ∷ encoded (negsuc 8) ∷ [])
    ≡ some (encoded (negsuc 1))
unfolding total wrap_i64 ◌+ℤ◌
frequency_merge_impl-total_example =
    frequency_merge_impl-total log_key (some (pos 5)) (pos 2 ∷ negsuc 8 ∷ []) (7, refl, refl)
      (omega arith) (omega arith)

frequency_merge_impl-partial_example :
    (frequency_merge_impl log_key none (encoded (pos 2) ∷ encoded (negsuc 8) ∷ []) >>= (λ change.
      frequency_merge_impl log_key (some (encoded (pos 5))) (encoded (pos 1) ∷ change ∷ [])))
    ≡ frequency_merge_impl log_key
        (some (encoded (pos 5)))
        (encoded (pos 1) ∷ encoded (pos 2) ∷ encoded (negsuc 8) ∷ [])
frequency_merge_impl-partial_example =
    frequency_merge_impl-partial log_key (some (pos 5)) (pos 1 ∷ []) (pos 2 ∷ negsuc 8 ∷ [])
      (7, refl, refl) (omega arith) (omega arith) (omega arith)

compaction_filter-encoded_example : compaction_filter log_key (encoded (pos 0)) ≡ some remove
compaction_filter-encoded_example =
    compaction_filter-encoded log_key (pos 0) (7, refl, refl) (omega arith)

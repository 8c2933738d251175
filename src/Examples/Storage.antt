-- ===== src/Examples/Storage.antt =====
-- The theorems of the storage layer at concrete tables.
use incresql.Prelude.{◌≡◌, refl, some, [], ◌∷◌, All, arith}
use incresql.Prelude.Int.{pos}
use incresql.Data.Datum.{null, byte_a_owned, integer}
use incresql.Storage.IndexIter.{rows, new_index_iter}
use incresql.Storage.IndexIter.Groups.{IsGroup, visible, visible_rows, table_entries}
use incresql.Storage.IndexIter.Scan.{rows-visible_rows}
use incresql.Data.Datum.Stored.{stored}
use incresql.Examples.Sample.{sample_codec, sample_table, sample_groups}

-- At 25 both rows are there, as they were written last before.
visible_rows_test :
    visible_rows 25 sample_groups
    ≡ (integer (pos 7) ∷ byte_a_owned (98 ∷ []) ∷ [], pos 2)
      ∷ (integer (pos 5) ∷ null ∷ [], pos 3)
      ∷ []
unfolding visible_rows visible stored
visible_rows_test = refl

sample_groups-IsGroup : All (IsGroup sample_table) sample_groups
sample_groups-IsGroup = omega arith

rows-visible_rows_example :
    rows sample_codec 3
      (new_index_iter (table_entries sample_codec sample_table sample_groups) 25 2)
    ≡ some (visible_rows 25 sample_groups)
rows-visible_rows_example =
    rows-visible_rows sample_codec sample_table (omega arith) 25 sample_groups sample_groups-IsGroup

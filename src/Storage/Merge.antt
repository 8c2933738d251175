-- ===== src/Storage/Merge.antt =====
-- src/storage/src/storage.rs: the merge of frequencies and the compaction filter of the log section, and
-- the ids of tables.
pub mod Sum
pub mod Compaction
use incresql.Prelude.{
  ℕ, ◌+◌, ◌-◌, ◌^◌, ◌%◌, ◌≡◌, Bool, true, false, Option, none, some, List, [], ◌∷◌,
}
use incresql.Prelude.{◌==◌, if◌then◌else◌, ◌>>=◌, get_elem?}
use incresql.Prelude.Int.{ℤ, pos, ◌+ℤ◌}
use incresql.Encoding.SortOrder.{SortOrder, asc}
use incresql.Encoding.Signed.{read_varint_signed, write_varint_signed}
use incresql.Storage.Table.{Table, new_table}
use incresql.Storage.Writer.{wrap_i64}

pub data Decision : Type 0 where
  keep remove : Decision

-- `VARINT_SIGNED_ZERO_ENC`.
abbrev pub varint_signed_zero_enc : ℕ
varint_signed_zero_enc = 103

-- `count += temp` for each operand.
unfoldable pub merge_operands : ℤ → List (List ℕ) → Option ℤ
merge_operands count [] = some count
merge_operands count (operand ∷ operands) = do
  (temp, rest) ← read_varint_signed asc operand
  merge_operands (wrap_i64 (count +ℤ temp)) operands

unfoldable pub existing_count : Option (List ℕ) → Option ℤ
existing_count none = some (pos 0)
existing_count (some bytes) = do (count, rest) ← read_varint_signed asc bytes; some count

-- `none` is a panic: a merge in the index section, or bytes that are too short.
unfoldable pub frequency_merge_impl : List ℕ → Option (List ℕ) → List (List ℕ) → Option (List ℕ)
frequency_merge_impl key existing_value operands =
    let merged = (do
      count ← existing_count existing_value
      total ← merge_operands count operands
      some (write_varint_signed total asc [])) in
    get_elem? key 3 >>= (λ id_byte. if id_byte % 2 == 1 then merged else none)

unfoldable pub compaction_filter : List ℕ → List ℕ → Option Decision
compaction_filter key value =
    let in_log = (do
      first ← get_elem? value 0
      some (if first == varint_signed_zero_enc then remove else keep)) in
    get_elem? key 3 >>= (λ id_byte. if id_byte % 2 == 1 then in_log else some keep)

-- `Storage::table` asserts that the id is even: the index section of a table has its id, the log
-- section the next.
unfoldable pub table : ℕ → ℕ → List SortOrder → Option Table
table id length pk = if id % 2 == 0 then new_table id length pk else none

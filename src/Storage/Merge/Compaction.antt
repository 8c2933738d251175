-- ===== src/Storage/Merge/Compaction.antt =====
-- src/storage/src/storage.rs: what the compaction filter removes.
use incresql.Prelude.{ℕ, ◌%◌, ◌≡◌, true, some, List, arith}
use incresql.Prelude.{◌==◌, if◌then◌else◌, ◌>>=◌, get_elem?}
use incresql.Prelude.Int.{ℤ, pos, negsuc, eqb_ℤ}
use incresql.Encoding.Signed.{IsI64, write_varint_signed, write_signed_value}
use incresql.Encoding.Bytes.{to_be_bytes}
use incresql.Storage.Merge.{compaction_filter, keep, remove}
use incresql.Storage.Merge.Sum.{encoded, IsLogKey}

filter_value :
    (f : ℤ)
    → IsI64 f
    → (do first ← get_elem? (encoded f) 0; some (if first == 103 then remove else keep))
      ≡ some (if eqb_ℤ f (pos 0) then remove else keep)
unfolding write_varint_signed write_signed_value to_be_bytes
filter_value (pos n) h = ground arith
filter_value (negsuc n) h = ground arith

-- On a key of the log section, the filter removes a stored `i64` frequency exactly where it is zero.
pub compaction_filter-encoded :
    (key : List ℕ) (f : ℤ)
    → IsLogKey key
    → IsI64 f
    → compaction_filter key (encoded f) ≡ some (if eqb_ℤ f (pos 0) then remove else keep)
unfolding compaction_filter
compaction_filter-encoded key f (b, at, odd) h =
    let odd' : (b % 2 == 1) ≡ true = ground arith in rw (at, odd') (filter_value f h)

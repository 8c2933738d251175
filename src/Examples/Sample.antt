-- ===== src/Examples/Sample.antt =====
-- Stand-ins for the external types, and a small table.
use incresql.Prelude.{ℕ, ◌==◌, some, List, [], ◌∷◌, ◌++◌}
use incresql.Prelude.Int.{pos}
use incresql.Data.Datum.{Externals, Datum, null, byte_a_ref, integer}
use incresql.Data.Datum.{bytes_eq}
use incresql.Encoding.SortOrder.{desc}
use incresql.Encoding.Signed.{first_byte}
use incresql.Encoding.Datums.{DecimalCodec}
use incresql.Storage.Table.{Table}
use incresql.Storage.IndexIter.Groups.{Group}
use incresql.Data.Datum.Equality.{bytes_eq_refl, bytes_eq_ne}
use incresql.Storage.Writer.{WriteBatch}
use incresql.Prelude.{none, refl, if◌then◌else◌, Option}
use Prim.Native.Nat.{compare}

-- Decimals that are bytes, and json paths that are their text.
abbrev pub sample_externals : Externals
sample_externals = record {
  Decimal = ℕ;
  JsonPath = List ℕ;
  decimal_eq = λ a b. a == b;
  decimal_cmp = λ a b. compare a b;
  jsonpath_eq = bytes_eq;
  original = λ p. p;
  parse_jsonpath = λ s. some s;
}

abbrev pub SampleDatum : Type 0
SampleDatum = Datum sample_externals

abbrev pub sample_codec : DecimalCodec sample_externals
sample_codec = record {
  write_decimal = λ d o buffer. buffer ++ (d ∷ []);
  read_decimal = λ o buffer. first_byte buffer;
}

-- Two columns, the first the key, in descending order.
abbrev pub sample_table : Table
sample_table = record { id = 1234; columns = 2; pk = desc ∷ [] }

-- The row with the key 7 was written at 10, changed at 20 and deleted at 30; that with the key 5 was
-- written at 15.
abbrev pub sample_groups : List (Group sample_externals)
sample_groups =
    record {
      key = integer (pos 7) ∷ [];
      newest = record { timestamp = 30; freq = pos 0; rest = byte_a_ref (98 ∷ []) ∷ [] };
      past =
          record { timestamp = 20; freq = pos 2; rest = byte_a_ref (98 ∷ []) ∷ [] }
          ∷ record { timestamp = 10; freq = pos 1; rest = byte_a_ref (97 ∷ []) ∷ [] }
          ∷ [];
    }
    ∷ record {
      key = integer (pos 5) ∷ [];
      newest = record { timestamp = 15; freq = pos 3; rest = null ∷ [] };
      past = [];
    }
    ∷ []

abbrev pub SampleDb : Type 0
SampleDb = List ℕ → Option (List ℕ)

-- What a batch says of a key, a value or a deletion, else what the database below it has.
abbrev pub over : Option (Option (List ℕ)) → Option (List ℕ) → Option (List ℕ)
over none below = below
over (some written) below = written

-- A database in memory, a function from keys, and batches of the keys that they change.
abbrev pub sample_batch : WriteBatch
sample_batch = record {
  Db = SampleDb;
  State = (List ℕ → Option (Option (List ℕ))) × SampleDb;
  get_db = λ k db. db k;
  new_batch = λ db. ((λ k. none), db);
  commit = λ s k. over (s.0 k) (s.1 k);
  get = λ k s. over (s.0 k) (s.1 k);
  put = λ k v s. ((λ j. if bytes_eq j k then some (some v) else s.0 j), s.1);
  delete = λ k s. ((λ j. if bytes_eq j k then some none else s.0 j), s.1);
  get-put_self = λ k v s. rw (bytes_eq_refl k) refl;
  get-put_ne = λ j k v s ne. rw (bytes_eq_ne j k ne) refl;
  get-delete_self = λ k s. rw (bytes_eq_refl k) refl;
  get-delete_ne = λ j k s ne. rw (bytes_eq_ne j k ne) refl;
  get-new_batch = λ k db. refl;
  get_db-commit = λ k s. refl;
}

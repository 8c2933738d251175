-- ===== src/Storage/IndexIter/Groups.antt =====
-- The index section of a table as the versions of its rows, and what a scan is to deliver: for each row
-- the newest version that is older than the timestamp, unless that version is a deletion.
use incresql.Prelude.{ℕ, ◌+◌, ◌≡◌}
use incresql.Prelude.{Option, none, some, if◌then◌else◌, leb}
use incresql.Prelude.{List, [], ◌∷◌, ◌++◌, map, length}
use incresql.Prelude.{All}
use incresql.Prelude.Int.{ℤ, pos, eqb_ℤ}
use incresql.Data.Datum.{Externals, Datum}
use incresql.Encoding.Bytes.{IsU64}
use incresql.Encoding.Signed.{IsI64}
use incresql.Encoding.Datums.{DecimalCodec}
use incresql.Data.Datum.Stored.{stored}
use incresql.Encoding.Datums.RoundTrip.{IsStorable}
use incresql.Storage.Table.{Table}
use incresql.Storage.IndexIter.{Entry}
use incresql.Storage.IndexIter.Version.{IsPast, header_entry, history_entry}
use mathlib.Core.Option

-- One version of a row: its timestamp, its frequency from then on, and the columns behind the key.
pub record Version (x : Externals) : Type 0 where
  pub timestamp : ℕ
  pub freq : ℤ
  pub rest : List (Datum x)

-- The versions of the row with one key, the newest first.
pub record Group (x : Externals) : Type 0 where
  pub key : List (Datum x)
  pub newest : Version x
  pub past : List (Version x)

abbrev pub cons? : {A : Type 0} → Option A → List A → List A
cons? none l = l
cons? (some a) l = a ∷ l

module _ {x : Externals} where
  -- The version that a reader at `now` is to see.
  unfoldable pub visible : ℕ → List (Version x) → Option (Version x)
  visible now [] = none
  visible now (v ∷ vs) =
      if leb now v.timestamp then visible now vs else if eqb_ℤ v.freq (pos 0) then none else some v

  abbrev pub row_of : List (Datum x) → Version x → List (Datum x) × ℤ
  row_of key v = (map stored key ++ map stored v.rest, v.freq)

  -- The rows that a scan at `now` is to deliver.
  unfoldable pub visible_rows : ℕ → List (Group x) → List (List (Datum x) × ℤ)
  visible_rows now [] = []
  visible_rows now (g ∷ gs) =
      cons? (Option.map (row_of g.key) (visible now (g.newest ∷ g.past))) (visible_rows now gs)

module _ {x : Externals} (table : Table) where
  pub record IsVersion (v : Version x) : Type 0 where
    pub storable : All IsStorable v.rest
    pub columns : length table.pk + length v.rest ≡ table.columns
    pub freq_fits : IsI64 v.freq

  pub record IsGroup (g : Group x) : Type 0 where
    pub key_storable : All IsStorable g.key
    pub key_columns : length g.key ≡ length table.pk
    pub newest : IsVersion g.newest
    pub newest_stamp : IsU64 g.newest.timestamp
    pub past : All (λ v. IsVersion v × IsPast v.timestamp) g.past

module _ {x : Externals} (codec : DecimalCodec x) (table : Table) where
  abbrev pub history : List (Datum x) → List (Version x) → List Entry
  history key [] = []
  history key (v ∷ vs) = history_entry codec table key v.rest v.timestamp v.freq ∷ history key vs

  -- The records that `write_tuple` leaves for a group, in the order of their keys.
  abbrev pub group_entries : Group x → List Entry
  group_entries g =
      header_entry codec table g.key g.newest.rest g.newest.timestamp g.newest.freq
      ∷ history g.key g.past

  abbrev pub table_entries : List (Group x) → List Entry
  table_entries [] = []
  table_entries (g ∷ gs) = group_entries g ++ table_entries gs

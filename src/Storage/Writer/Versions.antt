-- ===== src/Storage/Writer/Versions.antt =====
-- src/storage/src/table.rs: the versions of a row before and after `Writer::write_tuple`.
use incresql.Prelude.{ℕ, ◌-◌, ◌≡◌, ◌≢◌}
use incresql.Prelude.{Option, some, List, ◌∷◌, ◌++◌, All}
use incresql.Prelude.{◌==◌, if◌then◌else◌}
use incresql.Prelude.Int.{◌+ℤ◌}
use incresql.Data.Datum.{Externals}
use incresql.Encoding.Bytes.{push, to_be_bytes}
use incresql.Encoding.Unsigned.{u64_max}
use incresql.Encoding.Datums.{DecimalCodec}
use incresql.Storage.Table.{Table}
use incresql.Storage.Table.KeyForm.{key_stem}
use incresql.Storage.IndexIter.Groups.{Version, Group, group_entries}
use incresql.Storage.Writer.{WriteBatch, wrap_i64}

module _ {x : Externals} where
  -- The versions of a row after a write: the frequencies add up, and a version of another time than
  -- the new one joins the past.
  unfoldable pub written : Version x → Group x → Group x
  written v g =
      let newest : Version x = record {
        timestamp = v.timestamp;
        freq = wrap_i64 (v.freq +ℤ g.newest.freq);
        rest = v.rest;
      } in
      record {
        key = g.key;
        newest = newest;
        past = if g.newest.timestamp == v.timestamp then g.past else g.newest ∷ g.past;
      }

  -- The past versions of a row have other times than the newest.
  abbrev pub Fresh : Group x → Type 0
  Fresh g = All (λ w. w.timestamp ≢ g.newest.timestamp) g.past

module _ {x : Externals} (codec : DecimalCodec x) (batch : WriteBatch) (table : Table) where
  open batch use {State, get, put}

  -- Every record of the row is in the store.
  abbrev pub Holds : State → Group x → Type 0
  Holds s g = All (λ e. get e.0 s ≡ some e.1) (group_entries codec table g)

  -- A key that a write at a time leaves alone: not the row's header and, where the newest version
  -- has another time than the write, not the key of that version in the history.
  abbrev pub Untouched : ℕ → Group x → List ℕ → Type 0
  Untouched timestamp g k =
      (k ≢ push (key_stem codec table g.key) 0)
      × (if g.newest.timestamp == timestamp
          then Unit
          else (k ≢ key_stem codec table g.key ++ to_be_bytes 8 (u64_max - g.newest.timestamp)))

  -- A write at a time succeeds and leaves the versions `after` and all other keys.
  pub record Leaves (timestamp : ℕ) (s : State) (g after : Group x) (result : Option State)
      : Type 0 where
    pub state : State
    pub succeeds : result ≡ some state
    pub holds : Holds state after
    pub others : (k : List ℕ) → Untouched timestamp g k → get k state ≡ get k s

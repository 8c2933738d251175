-- ===== src/Storage/IndexIter/Scan.antt =====
-- A scan of a table against its specification.
use incresql.Prelude.{ℕ, zero, suc, ◌<◌, ◌≡◌, refl, sym, subst, ◌∙◌, arith}
use incresql.Prelude.{Bool, true, false, inl, inr, ◌⊎◌, Option, none, some}
use incresql.Prelude.{List, [], ◌∷◌, ◌++◌, map, length, length-append, length-map, length-replicate}
use incresql.Prelude.{All}
use incresql.Prelude.Int.{ℤ}
use incresql.Data.Datum.{Externals, Datum, null}
use incresql.Encoding.Bytes.{IsU64}
use incresql.Encoding.Datums.{DecimalCodec}
use incresql.Data.Datum.Stored.{stored}
use incresql.Encoding.Datums.RoundTrip.{IsStorable}
use incresql.Storage.Table.{Table}
use incresql.Storage.IndexIter.{Entry, IndexIter, advance_loop, advance, rows}
use incresql.Storage.IndexIter.{new_index_iter}
use incresql.Storage.IndexIter.Version.{IsPast}
use incresql.Storage.IndexIter.Groups.{
  Version, Group, visible, visible_rows, row_of, IsVersion, IsGroup, history, table_entries,
}
use incresql.Storage.IndexIter.Walk.{Ends, loop, skip_history, walk_group}

module _ {x : Externals} (codec : DecimalCodec x) (table : Table) (wide : IsU64 table.columns)
    (now : ℕ) where
  abbrev Tuple : Type 0
  Tuple = List (Datum x)

  -- The iterator at a row: the rest of its key's records, and the groups behind it.
  abbrev at_row : Entry → Tuple → List (Version x) → List (Group x) → Tuple → ℤ → IndexIter x
  at_row e key vs gs buf freq = record {
    entries = e ∷ (history codec table key vs ++ table_entries codec table gs);
    timestamp = now;
    first = false;
    tuple_buffer = buf;
    freq = some freq;
  }

  abbrev at_end : Tuple → IndexIter x
  at_end buf = record {
    entries = [];
    timestamp = now;
    first = false;
    tuple_buffer = buf;
    freq = none;
  }

  record NextRow (gs : List (Group x)) (result : Option (IndexIter x)) : Type 0 where
    key : Tuple
    version : Version x
    entry : Entry
    past : List (Version x)
    later : List (Group x)
    key_storable : All IsStorable key
    key_columns : length key ≡ length table.pk
    version_ok : IsVersion table version
    past_ok : All (λ w. IsVersion table w × IsPast w.timestamp) past
    later_ok : All (IsGroup table) later
    shorter : length later < length gs
    is_next : visible_rows now gs ≡ row_of key version ∷ visible_rows now later
    reached :
        result
        ≡ some
            (at_row entry key past later (map stored key ++ map stored version.rest) version.freq)

  -- One `advance` over the groups ahead: at the end with no visible row left, or at the next one.
  abbrev Advanced : List (Group x) → Option (IndexIter x) → Type 0
  Advanced gs result =
      ((visible_rows now gs ≡ []) × (buf : Tuple) × (result ≡ some (at_end buf)))
      ⊎ NextRow gs result

  next_group :
      (g : Group x) (gs : List (Group x)) (o : Option (Version x)) (result : Option (IndexIter x))
      → IsGroup table g
      → All (IsGroup table) gs
      → visible now (g.newest ∷ g.past) ≡ o
      → Ends codec table wide now o g.key (table_entries codec table gs) result
      → ((seek : Bool) (buf : Tuple)
          → length buf ≡ table.columns
          → Advanced gs (loop codec table wide now seek buf (table_entries codec table gs)))
      → Advanced (g ∷ gs) result
  unfolding visible_rows
  next_group g gs none result hg h e (seek, buf, hb, r) ih = elim (ih seek buf hb) [
    | inl (empty, buf', r') ↦ inl (rw (e, empty), buf', r ∙ r')
    | inr n ↦ inr (record {
      key = n.key;
      version = n.version;
      entry = n.entry;
      past = n.past;
      later = n.later;
      key_storable = n.key_storable;
      key_columns = n.key_columns;
      version_ok = n.version_ok;
      past_ok = n.past_ok;
      later_ok = n.later_ok;
      shorter = let s = n.shorter in omega arith;
      is_next = rw e n.is_next;
      reached = r ∙ n.reached;
    })
  ]
  next_group g gs (some v) result hg h e (entry, vs, hvs, hv, r) ih = inr (record {
    key = g.key;
    version = v;
    entry = entry;
    past = vs;
    later = gs;
    key_storable = hg.key_storable;
    key_columns = hg.key_columns;
    version_ok = hv;
    past_ok = hvs;
    later_ok = h;
    shorter = omega arith;
    is_next = rw e;
    reached = r;
  })

  advance_groups :
      (gs : List (Group x)) (seek : Bool) (buf : Tuple)
      → length buf ≡ table.columns
      → All (IsGroup table) gs
      → Advanced gs (loop codec table wide now seek buf (table_entries codec table gs))
  advance_groups [] seek buf hb h = unfold visible_rows advance_loop in inl (refl, buf, refl)
  advance_groups (g ∷ gs) seek buf hb h =
      next_group g gs _ _ h.0 h.1 refl
        (walk_group codec table wide now g.key h.0.key_storable h.0.key_columns g.newest g.past seek
          buf (table_entries codec table gs) hb h.0.newest h.0.newest_stamp h.0.past)
        (λ seek' buf' hb'. advance_groups gs seek' buf' hb' h.1)

  -- The client's loop, from one `advance`.
  rows_from :
      (fuel : ℕ) (it : IndexIter x) (gs : List (Group x))
      → Advanced gs (advance codec it)
      → ((n : NextRow gs (advance codec it))
          → rows codec fuel (
              at_row n.entry n.key n.past n.later
                (map stored n.key ++ map stored n.version.rest)
                n.version.freq)
            ≡ some (visible_rows now n.later))
      → rows codec (suc fuel) it ≡ some (visible_rows now gs)
  unfolding rows
  rows_from fuel it gs (inl (empty, buf, r)) later = rw (r, empty)
  rows_from fuel it gs (inr n) later = rw (n.reached, later n, n.is_next)

  -- The next `advance` steps off the row, skips what is left of its key, and goes on.
  advance_from_row :
      (gs : List (Group x)) (key : Tuple) (vs : List (Version x)) (e : Entry) (buf : Tuple)
      (freq : ℤ)
      → All IsStorable key
      → length key ≡ length table.pk
      → All (λ w. IsVersion table w × IsPast w.timestamp) vs
      → All (IsGroup table) gs
      → length buf ≡ table.columns
      → Advanced gs (advance codec (at_row e key vs gs buf freq))
  unfolding advance
  advance_from_row gs key vs e buf freq hk hl hvs h hb =
      let (buf', hb', skipped) =
        skip_history codec table wide now key hk hl vs buf (table_entries codec table gs) hb hvs in
      subst (Advanced gs) (sym skipped) (advance_groups gs true buf' hb' h)

  first_advance :
      (gs : List (Group x))
      → All (IsGroup table) gs
      → Advanced gs
          (advance codec (new_index_iter (table_entries codec table gs) now table.columns))
  unfolding advance new_index_iter
  first_advance gs h = advance_groups gs true _ (length-replicate table.columns null) h

  rows_after :
      (fuel : ℕ) (gs : List (Group x)) (key : Tuple) (vs : List (Version x)) (e : Entry)
      (buf : Tuple) (freq : ℤ)
      → length gs < fuel
      → All IsStorable key
      → length key ≡ length table.pk
      → All (λ w. IsVersion table w × IsPast w.timestamp) vs
      → All (IsGroup table) gs
      → length buf ≡ table.columns
      → rows codec fuel (at_row e key vs gs buf freq) ≡ some (visible_rows now gs)
  rows_after zero gs key vs e buf freq hf hk hl hvs h hb = elim hf [ ]
  rows_after (suc fuel) gs key vs e buf freq hf hk hl hvs h hb =
      rows_from fuel (at_row e key vs gs buf freq) gs
        (advance_from_row gs key vs e buf freq hk hl hvs h hb)
        (λ n.
          rows_after fuel n.later n.key n.past n.entry
            (map stored n.key ++ map stored n.version.rest) n.version.freq (in_fuel n)
            n.key_storable n.key_columns n.past_ok n.later_ok (row_columns n))
    where
      in_fuel : {r : Option (IndexIter x)} (n : NextRow gs r) → length n.later < fuel
      in_fuel n = let s = n.shorter in omega arith

      row_columns :
          {r : Option (IndexIter x)} (n : NextRow gs r)
          → length (map (stored {x = x}) n.key ++ map stored n.version.rest) ≡ table.columns
      row_columns n =
          let c = n.version_ok.columns in
          let k = n.key_columns in
          omega (
            arith,
            length-append (map (stored {x = x}) n.key) (map stored n.version.rest),
            length-map (stored {x = x}) n.key,
            length-map (stored {x = x}) n.version.rest,
          )

  -- A scan at a timestamp over the records of any groups of row versions delivers, in their order,
  -- exactly one row for each key that has a version older than the timestamp whose newest such
  -- version has a frequency other than zero: that version, with its frequency. It never panics, and
  -- ends within one `next` more than there are keys. No key or column of a record is a decimal, the
  -- others fit their types, a json path among them parses from its text, the columns of a row are as
  -- many as the table's, every timestamp and frequency fits its type, and the timestamps of versions
  -- below the newest are below 2^64 - 2^56.
  pub rows-visible_rows :
      (gs : List (Group x))
      → All (IsGroup table) gs
      → rows codec
          (suc (length gs))
          (new_index_iter (table_entries codec table gs) now table.columns)
        ≡ some (visible_rows now gs)
  rows-visible_rows gs h =
      rows_from (length gs) (new_index_iter (table_entries codec table gs) now table.columns) gs
        (first_advance gs h)
        (λ n.
          let c = n.version_ok.columns in
          let k = n.key_columns in
          rows_after (length gs) n.later n.key n.past n.entry _ n.version.freq n.shorter
            n.key_storable n.key_columns n.past_ok n.later_ok
            (omega (
              arith,
              length-append (map (stored {x = x}) n.key) (map stored n.version.rest),
              length-map (stored {x = x}) n.key,
              length-map (stored {x = x}) n.version.rest,
            )))

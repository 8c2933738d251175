-- ===== src/Storage/Writer/Effect.antt =====
-- src/storage/src/table.rs: what `Writer::write_tuple` does to the versions of a row.
use incresql.Prelude.{ℕ, ◌-◌, ◌≡◌, ◌≢◌, refl, sym, ap, ◌∙◌, arith, true, false}
use incresql.Prelude.{Bool, some, List, [], ◌∷◌, ◌++◌, length, All, All-append, length-append}
use incresql.Prelude.{leb, ◌==◌, if◌then◌else◌, subst}
use incresql.Prelude.Int.{ℤ, ◌+ℤ◌}
use incresql.Data.Datum.{Externals, Datum}
use incresql.Encoding.Bytes.{IsU64, push, to_be_bytes}
use incresql.Encoding.Bytes.LittleEndian.{from_le_bytes-to_le_bytes}
use incresql.Encoding.Unsigned.{u64_max}
use incresql.Encoding.Datums.{DecimalCodec}
use incresql.Encoding.Datums.RoundTrip.{IsStorable}
use incresql.Storage.Table.{
  Table, write_range_key, write_index_header_key, write_index_header_value, write_freq_and_rest,
}
use incresql.Storage.Table.KeyForm.{key_stem}
use incresql.Storage.IndexIter.Version.{IsPast}
use incresql.Storage.IndexIter.Groups.{Version, Group, IsVersion, IsGroup, history}
use incresql.Storage.Writer.{WriteBatch, wrap_i64, bump_down, write_over, write_tuple}
use incresql.Storage.Writer.Keys.{
  pop-push, truncate-history, header-history, history-history, key_stem-zip, write_range_key-zip,
  write_index_header_value-split, read-write_freq_and_rest,
}
use incresql.Storage.Writer.Versions.{written, Holds, Leaves, Fresh}

module _ {x : Externals} (codec : DecimalCodec x) (batch : WriteBatch) (table : Table) where
  open batch use {State, get, put}

  module _ (key : List (Datum x)) (key_storable : All IsStorable key)
      (key_columns : length key ≡ length table.pk) where
    abbrev stem : List ℕ
    stem = key_stem codec table key

    -- Reading the history through one put of another key.
    history-put :
        (s : State) (vs : List (Version x)) (k value : List ℕ)
        → All (λ v. k ≢ stem ++ to_be_bytes 8 (u64_max - v.timestamp)) vs
        → All (λ e. get e.0 s ≡ some e.1) (history codec table key vs)
        → All (λ e. get e.0 (put k value s) ≡ some e.1) (history codec table key vs)
    history-put s [] k value ne h = h
    history-put s (v ∷ vs) k value ne h = (
      batch.get-put_ne _ k value s (λ e. ne.0 (
            sym e
            ∙ ap (λ l. l ++ to_be_bytes 8 (u64_max - v.timestamp))
                (key_stem-zip codec table key v.rest key_columns)))
          ∙ h.0,
      history-put s vs k value ne.1 h.1,
    )

    put_either :
        (b : Bool) (k value : List ℕ) (s t : State)
        → (let pair : List ℕ × State = if b then (k, s) else (k, t) in
            some (put pair.0 value pair.1) ≡ some (put k value (if b then s else t)))
    put_either true k value s t = refl
    put_either false k value s t = refl

    bump_down-put :
        (ts : ℕ) (value : List ℕ) (s : State)
        → bump_down codec batch ts (push stem 0) value s
          ≡ (push stem 0, put (stem ++ to_be_bytes 8 (u64_max - ts)) value s)
    unfolding bump_down
    bump_down-put ts value s = rw (pop-push stem 0, truncate-history stem (u64_max - ts)) refl

    write_over-put :
        (old : Version x) (tuple : List (Datum x)) (ts : ℕ) (freq : ℤ) (s : State)
        → IsVersion table old
        → IsU64 old.timestamp
        → write_over codec batch table tuple ts freq
            (push stem 0)
            (write_index_header_value codec table (key ++ old.rest) old.timestamp old.freq)
            s
          ≡ some (
              put
                (push stem 0)
                (write_index_header_value codec table tuple ts (wrap_i64 (freq +ℤ old.freq)))
                (if old.timestamp == ts
                  then s
                  else put
                      (stem ++ to_be_bytes 8 (u64_max - old.timestamp))
                      (write_freq_and_rest codec table (key ++ old.rest) old.freq [])
                      s))
    unfolding write_over
    write_over-put old tuple ts freq s ho hu =
        let storable = All-append IsStorable key old.rest key_storable ho.storable in
        rw
          (
            write_index_header_value-split codec table (key ++ old.rest) storable old.timestamp
                old.freq,
            read-write_freq_and_rest codec table (key ++ old.rest) storable old.freq ho.freq_fits,
            from_le_bytes-to_le_bytes 8 old.timestamp (omega arith),
            bump_down-put old.timestamp
                (write_freq_and_rest codec table (key ++ old.rest) old.freq []) s,
          )
          (put_either (old.timestamp == ts) _ _ s _)

  module _ (g : Group x) (v : Version x) (s : State) (is_group : IsGroup table g)
      (is_version : IsVersion table v) (fresh : Fresh g) (holds : Holds codec batch table s g) where
    abbrev header : List ℕ
    header = push (key_stem codec table g.key) 0

    abbrev displaced : List ℕ
    displaced = key_stem codec table g.key ++ to_be_bytes 8 (u64_max - g.newest.timestamp)

    abbrev total : ℤ
    total = wrap_i64 (v.freq +ℤ g.newest.freq)

    abbrev new_value : List ℕ
    new_value = write_index_header_value codec table (g.key ++ v.rest) v.timestamp total

    abbrev old_value : List ℕ
    old_value = write_freq_and_rest codec table (g.key ++ g.newest.rest) g.newest.freq []

    write_tuple-put :
        write_tuple codec batch table (g.key ++ v.rest) v.timestamp v.freq s
        ≡ some (
            put header new_value
              (if g.newest.timestamp == v.timestamp then s else put displaced old_value s))
    unfolding write_tuple write_index_header_key
    write_tuple-put =
        let columns : (length (g.key ++ v.rest) == table.columns) ≡ true =
          ground (arith, length-append g.key v.rest, is_group.key_columns, is_version.columns) in
        let enough : leb (length table.pk) (length (g.key ++ v.rest)) ≡ true =
          ground (arith, length-append g.key v.rest, is_group.key_columns) in
        let zip =
          write_range_key-zip codec table g.key v.rest is_group.key_columns is_group.key_storable
            is_version.storable in
        let there : get header s
            ≡ some (
                write_index_header_value codec table (g.key ++ g.newest.rest) g.newest.timestamp
                  g.newest.freq) =
          subst
            (λ k.
              get k s
              ≡ some (
                  write_index_header_value codec table (g.key ++ g.newest.rest) g.newest.timestamp
                    g.newest.freq))
            (write_range_key-zip codec table g.key g.newest.rest is_group.key_columns
              is_group.key_storable is_group.newest.storable)
            holds.0 in
        rw (columns, enough, zip, there, zip)
          (write_over-put g.key is_group.key_storable is_group.key_columns g.newest
            (g.key ++ v.rest) v.timestamp v.freq s is_group.newest is_group.newest_stamp)

    apart_header :
        (vs : List (Version x))
        → All (λ w. header ≢ key_stem codec table g.key ++ to_be_bytes 8 (u64_max - w.timestamp)) vs
    apart_header [] = tt
    apart_header (w ∷ vs) =
        (header-history (key_stem codec table g.key) 0 (u64_max - w.timestamp), apart_header vs)

    apart_displaced :
        (vs : List (Version x))
        → All (λ w. w.timestamp ≢ g.newest.timestamp) vs
        → All (λ w. IsVersion table w × IsPast w.timestamp) vs
        → All
            (λ w. displaced ≢ key_stem codec table g.key ++ to_be_bytes 8 (u64_max - w.timestamp))
            vs
    apart_displaced [] f h = tt
    apart_displaced (w ∷ vs) f h = (
      history-history (key_stem codec table g.key) g.newest.timestamp w.timestamp
          is_group.newest_stamp (omega (arith, h.0.1)) (λ e. f.0 (sym e)),
      apart_displaced vs f.1 h.1,
    )

    unfoldable after : Bool → State
    after b = put header new_value (if b then s else put displaced old_value s)

    after-header :
        (b : Bool)
        → get (write_range_key codec table (g.key ++ v.rest) false) (after b) ≡ some new_value
    unfolding after
    after-header b =
        rw
          (write_range_key-zip codec table g.key v.rest is_group.key_columns is_group.key_storable
            is_version.storable)
          (batch.get-put_self header new_value _)

    after-history :
        (b : Bool)
        → All
            (λ e. get e.0 (after b) ≡ some e.1)
            (history codec table g.key (if b then g.past else g.newest ∷ g.past))
    unfolding after
    after-history true =
        history-put g.key is_group.key_storable is_group.key_columns s g.past header new_value
          (apart_header g.past) holds.1
    after-history false =
        history-put g.key is_group.key_storable is_group.key_columns (put displaced old_value s)
          (g.newest ∷ g.past) header new_value (apart_header (g.newest ∷ g.past))
          (
            rw (key_stem-zip codec table g.key g.newest.rest is_group.key_columns)
                (batch.get-put_self displaced old_value s),
            history-put g.key is_group.key_storable is_group.key_columns s g.past displaced
                old_value (apart_displaced g.past fresh is_group.past) holds.1,
          )

    after_others :
        (b : Bool) (k : List ℕ)
        → k ≢ header
        → (if b then Unit else (k ≢ displaced))
        → get k (after b) ≡ get k s
    unfolding after
    after_others true k h d = batch.get-put_ne k header new_value s h
    after_others false k h d =
        batch.get-put_ne k header new_value _ h ∙ batch.get-put_ne k displaced old_value s d

    -- `write_tuple` of a row that is there succeeds: the header then holds the new columns and
    -- time with the sum of the two frequencies (as the `i64` it wraps to), the version it held
    -- before is in the history unless it had the same time, the older versions stay, and no other
    -- key changes: where the two times are the same, the header alone does. The row's key columns
    -- and the new columns are as many as the table has, none is a decimal and the others fit their
    -- types, a json path among them parsing from its text, no older version has the time of the
    -- newest, and the times of the older versions are below 2^64 - 2^56.
    pub write_tuple-Leaves :
        Leaves codec batch table v.timestamp s g
          (written v g)
          (write_tuple codec batch table (g.key ++ v.rest) v.timestamp v.freq s)
    unfolding written after
    write_tuple-Leaves =
        let same = g.newest.timestamp == v.timestamp in
        record {
          state = after same;
          succeeds = write_tuple-put;
          holds = (after-header same, after-history same);
          others = λ k h. after_others same k h.0 h.1;
        }

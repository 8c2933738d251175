-- ===== src/Executor/PointInTime/HashGroup/Rows.antt =====
-- src/executor/src/point_in_time/hash_group.rs: a row for each key.
use incresql.Prelude.{
  ℕ, zero, suc, ◌<◌, ◌≤◌, ◌≡◌, refl, sym, ap, subst, ◌∙◌, arith, true, false, Bool-cases, inl, inr,
  Option, none, some, List, [], ◌∷◌, ◌++◌, ◌>>=◌, bind-split, bind-none, bind_assoc, bind_some, ap₂,
  All-perm, Option-cases, if◌then◌else◌, length, All, map, replicate, leb, le→leb, take,
}
use incresql.Prelude.Int.{pos}
use incresql.Data.Datum.{Externals, Datum, null, bytes_eq}
use incresql.Data.TupleIter.{TupleIter, Row, Yields, Delivers, Delivers-Yields}
use incresql.Encoding.Datums.{DecimalCodec}
use incresql.Functions.{Functions}
use incresql.Functions.Aggregate.Interface.{Aggregates}
use incresql.Executor.Aggregate.{AggregateArgs, apply_args, finalize_args, initialize}
use incresql.Executor.Aggregate.Slices.{both}
use incresql.Executor.Aggregate.Rows.{apply_rows}
use incresql.Executor.Aggregate.Value.{run_args, run_args_lem, group_values}
use incresql.Executor.PointInTime.HashJoin.{slice_to}
use incresql.Executor.PointInTime.HashGroup.{
  StateTable, HashGroupExecutor, key_bytes, apply_to, ingest_row, ingest_rows, next_entry,
  hash_group_advance, hash_group_get, hash_group_executor, new_hash_group,
}
use mathlib.Core.List.{Perm}
use mathlib.Core.List.Perm
use mathlib.Core.Option

-- The rows of each key, in the order in which the keys first come.
abbrev pub Grouped : Externals → Type 0
Grouped x = List (List ℕ × List (Row x))

module _ {x : Externals} {fs : Functions x} (aggregates : Aggregates x fs.AggregateFunction)
    (codec : DecimalCodec x) (order : StateTable x → StateTable x) (source : TupleIter x)
    (key_len : ℕ) (expressions : AggregateArgs fs) where
  abbrev key_of : Row x → List ℕ
  key_of row = key_bytes aggregates codec order source key_len expressions (take key_len row.0) []

  unfoldable pub add_row : Row x → Grouped x → Grouped x
  add_row row [] = (key_of row, row ∷ []) ∷ []
  add_row row ((k, rows) ∷ groups) =
      if bytes_eq k (key_of row)
      then (k, rows ++ row ∷ []) ∷ groups
      else (k, rows) ∷ add_row row groups

  unfoldable pub group_rows : List (Row x) → Grouped x → Grouped x
  group_rows [] groups = groups
  group_rows (row ∷ rows) groups = group_rows rows (add_row row groups)

  abbrev state_of : List (Row x) → Option (List (Datum x))
  state_of rows =
      initialize aggregates expressions
      >>= (λ s. apply_rows (λ row. apply_args aggregates row expressions) rows s)

  -- The table that stands for groups.
  unfoldable pub table_of : Grouped x → Option (StateTable x)
  table_of [] = some []
  table_of ((k, rows) ∷ groups) =
      both (λ state table. (k, state) ∷ table) (state_of rows) (table_of groups)

  apply_rows_snoc :
      (step : Row x → List (Datum x) → Option (List (Datum x))) (rows : List (Row x)) (row : Row x)
      (s : List (Datum x))
      → apply_rows step (rows ++ row ∷ []) s ≡ (apply_rows step rows s >>= step row)
  unfolding apply_rows
  apply_rows_snoc step [] row s = bind_some (step row s)
  apply_rows_snoc step (r ∷ rows) row s = elim (Option-cases (step r s)) [
    | inl e ↦ rw e refl
    | inr (t, e) ↦ rw e (apply_rows_snoc step rows row t)
  ]

  state_of_snoc :
      (rows : List (Row x)) (row : Row x)
      → state_of (rows ++ row ∷ [])
        ≡ (state_of rows >>= (λ s. apply_args aggregates row expressions s))
  state_of_snoc rows row = elim (Option-cases (initialize aggregates expressions)) [
    | inl e ↦ rw e refl
    | inr (t, e) ↦ rw e (apply_rows_snoc (λ row. apply_args aggregates row expressions) rows row t)
  ]

  abbrev step : Row x → StateTable x → Option (StateTable x)
  step row = apply_to aggregates codec order source key_len expressions (key_of row) row

  -- A step on the first entry, or on the others.
  on_first_entry :
      (k key : List ℕ) (row : Row x) (a : Option (List (Datum x))) (b : Option (StateTable x))
      → bytes_eq k (key_of row) ≡ true
      → (both (λ state table. (k, state) ∷ table) a b >>= step row)
        ≡ both
            (λ state table. (k, state) ∷ table)
            (a >>= (λ s. apply_args aggregates row expressions s))
            b
  unfolding apply_to
  on_first_entry k key row none b h = refl
  on_first_entry k key row (some s) none h =
      sym (bind-none (apply_args aggregates row expressions s))
  on_first_entry k key row (some s) (some t) h = rw h refl

  on_other_entry :
      (k : List ℕ) (row : Row x) (a : Option (List (Datum x))) (b : Option (StateTable x))
      → bytes_eq k (key_of row) ≡ false
      → (both (λ state table. (k, state) ∷ table) a b >>= step row)
        ≡ both (λ state table. (k, state) ∷ table) a (b >>= step row)
  unfolding apply_to
  on_other_entry k row none b h = refl
  on_other_entry k row (some s) none h = refl
  on_other_entry k row (some s) (some t) h = rw h refl

  table_of-add_row :
      (row : Row x) (groups : Grouped x)
      → (table_of groups >>= step row) ≡ table_of (add_row row groups)
  unfolding table_of add_row apply_to apply_rows
  table_of-add_row row [] = elim (Option-cases (initialize aggregates expressions)) [
    | inl e ↦ rw e refl
    | inr (s, e) ↦ elim (Option-cases (apply_args aggregates row expressions s)) [
      | inl f ↦ rw (e, f) refl
      | inr (t, f) ↦ rw (e, f) refl
    ]
  ]
  table_of-add_row row ((k, rows) ∷ groups) = elim (Bool-cases (bytes_eq k (key_of row))) [
    | inl h ↦
        rw (h, state_of_snoc rows row) (on_first_entry k k row (state_of rows) (table_of groups) h)
    | inr h ↦
        rw (h, sym (table_of-add_row row groups))
          (on_other_entry k row (state_of rows) (table_of groups) h)
  ]

  unfoldable steps : List (Row x) → StateTable x → Option (StateTable x)
  steps [] table = some table
  steps (row ∷ rows) table = do table' ← step row table; steps rows table'

  table_of-group_rows :
      (rows : List (Row x)) (groups : Grouped x)
      → (table_of groups >>= steps rows) ≡ table_of (group_rows rows groups)
  unfolding steps group_rows
  table_of-group_rows [] groups = bind_some (table_of groups)
  table_of-group_rows (row ∷ rows) groups =
      sym (bind_assoc (table_of groups) (step row) (steps rows))
      ∙ ap (λ m. m >>= steps rows) (table_of-add_row row groups)
      ∙ table_of-group_rows rows (add_row row groups)

  abbrev HasKey : Row x → Type 0
  HasKey row = key_len ≤ length row.0

  ingest_rows-steps :
      (n : ℕ) (s : source.State) (rows : List (Row x)) (table after : StateTable x)
      → length rows < n
      → Yields source s rows
      → All HasKey rows
      → steps rows table ≡ some after
      → (s' : source.State) × (ingest_rows aggregates codec order source key_len expressions n s
            table
          ≡ some (s', after))
  unfolding Yields steps ingest_rows ingest_row slice_to
  ingest_rows-steps zero s rows table after l y k e = absurd (omega arith)
  ingest_rows-steps (suc n) s [] table after l (s', a, g) k e =
      (s', rw (a, g, Option.some-injective table after e) refl)
  ingest_rows-steps (suc n) s (row ∷ rows) table after l (s', a, g, y) k e =
      let (next, first, others) = bind-split (step row table) _ after e in
      let long : leb key_len (length row.0) ≡ true = le→leb key_len (length row.0) k.0 in
      let (t, rest) = ingest_rows-steps n s' rows next after (omega arith) y k.1 others in
      (t, rw (a, g, long, first) rest)

  -- The row of an entry, where its state can be finalized.
  abbrev or_empty : Option (List (Datum x)) → List (Datum x)
  or_empty none = []
  or_empty (some out) = out

  abbrev row_of : List ℕ × List (Datum x) → Row x
  row_of entry = (or_empty (finalize_args aggregates expressions entry.1), pos 1)

  abbrev Finalizes : List ℕ × List (Datum x) → Type 0
  Finalizes entry = ¬ (finalize_args aggregates expressions entry.1 ≡ none)

  -- The values of the expressions on the rows of every key.
  abbrev pub HaveValues : (List (Row x) → List (Datum x)) → Grouped x → Type 0
  HaveValues value groups =
      All (λ group. group_values aggregates expressions group.1 ≡ some (value group.1)) groups

  table_of-values :
      (value : List (Row x) → List (Datum x)) (groups : Grouped x)
      → HaveValues value groups
      → (table : StateTable x) × (table_of groups ≡ some table)
        × All Finalizes table
        × (map row_of table ≡ map (λ group. (value group.1, pos 1)) groups)
  unfolding table_of run_args
  table_of-values value [] h = ([], refl, tt, refl)
  table_of-values value ((k, rows) ∷ groups) (v, h) =
      let (table, e, fins, outs) = table_of-values value groups h in
      let (s, init, rest) =
        bind-split (initialize aggregates expressions) _ (value rows)
          (run_args_lem aggregates expressions rows ∙ v) in
      let (after, app, fin) =
        bind-split (apply_rows (λ row. apply_args aggregates row expressions) rows s) _ (value rows)
          rest in
      (
        (k, after) ∷ table,
        rw (init, app, e) refl,
        ((λ no. absurd (ground arith)), fins),
        ap₂ (λ r l. r ∷ l) (rw fin refl) outs,
      )

  abbrev Executor : Type 0
  Executor = HashGroupExecutor aggregates codec order source key_len expressions

  abbrev iter : ℕ → TupleIter x
  iter = hash_group_executor aggregates codec order source key_len expressions

  abbrev serving : source.State → StateTable x → List (Datum x) → List (Datum x) → Executor
  serving s entries output_state output_tuple = record {
    source_state = s;
    state = [];
    state_iter = some entries;
    output_state = output_state;
    output_tuple = output_tuple;
    done = false;
  }

  serving-Delivers :
      (fuel : ℕ) (s : source.State) (entries : StateTable x)
      (output_state output_tuple : List (Datum x))
      → All Finalizes entries
      → Delivers
          (iter fuel)
          (next_entry aggregates codec order source key_len expressions
            (serving s entries output_state output_tuple)
            (some entries))
          (map row_of entries)
  unfolding hash_group_advance hash_group_get
  serving-Delivers fuel s [] os ot h =
      let ended : Executor = record (serving s [] os ot) { done = true } in (ended, refl, refl)
  serving-Delivers fuel s (entry ∷ entries) os ot h =
      elim (Option-cases (finalize_args aggregates expressions entry.1)) [
        | inl e ↦ absurd (h.0 e)
        | inr (out, e) ↦ (
          serving s entries entry.1 out,
          rw e refl,
          rw e refl,
          Delivers-Yields (iter fuel) _ _ (serving-Delivers fuel s entries entry.1 out h.1),
        )
      ]

  -- A new executor delivers, with frequency 1, the values of the expressions on the rows of each key,
  -- in some order, wherever the rows of a key stand among the others. Two keys are one where their
  -- encodings are. The hash map gives its entries back in some order, the rows have a key, the
  -- expressions have values on the rows of every key, and the bound of a call is above the number of
  -- rows.
  pub hash_group_executor-Yields :
      (fuel : ℕ) (s : source.State) (column_count : ℕ) (rows : List (Row x))
      (value : List (Row x) → List (Datum x))
      → ((table : StateTable x) → Perm (order table) table)
      → length rows < fuel
      → Yields source s rows
      → All HasKey rows
      → HaveValues value (group_rows rows [])
      → (outs : List (Row x)) × Perm outs
          (map (λ group. (value group.1, pos 1)) (group_rows rows []))
        × Yields
            (iter fuel)
            (new_hash_group aggregates codec order source key_len expressions s column_count)
            outs
  unfolding hash_group_advance new_hash_group table_of
  hash_group_executor-Yields fuel s column_count rows value perm l y k v =
      let (table, e, fins, outs) = table_of-values value (group_rows rows []) v in
      let (s', run) =
        ingest_rows-steps fuel s rows [] table l y k (table_of-group_rows rows [] ∙ e) in
      (
        map row_of (order table),
        subst (λ l. Perm (map row_of (order table)) l) outs (Perm.map row_of (perm table)),
        Delivers-Yields (iter fuel) _ _ (
            rw run (
              serving-Delivers fuel s' (order table) [] (replicate column_count null)
                (All-perm Finalizes (λ entry. hlevel) (perm table) fins))),
      )

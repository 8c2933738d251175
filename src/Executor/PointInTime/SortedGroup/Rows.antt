-- ===== src/Executor/PointInTime/SortedGroup/Rows.antt =====
-- src/executor/src/point_in_time/sorted_group.rs: a row for each run of rows with one hash.
use incresql.Prelude.{
  ℕ, zero, suc, ◌<◌, ◌≡◌, ◌≢◌, refl, subst, ◌∙◌, arith, true, false, ◌==◌, Option, some, List, [],
  ◌∷◌, ◌++◌, bind-split, length, length-replicate, length-append, All, replicate,
}
use incresql.Prelude.Int.{pos}
use mathlib.Core.Option
use incresql.Data.Datum.{Externals, Datum, null}
use incresql.Data.TupleIter.{TupleIter, Row, Yields}
use incresql.Data.TupleIter.Peekable.{PeekableIter, lock_in}
use incresql.Data.TupleIter.Peekable.Stream.{
  Comes, next-Comes_row, next-Comes_end, peek-Comes_row, peek-Comes_end,
}
use incresql.Functions.{Functions}
use incresql.Functions.Aggregate.Interface.{Aggregates}
use incresql.Executor.Aggregate.{
  AggregateArgs, state_len_args, reset_args, apply_args, finalize_args, initialize,
}
use incresql.Executor.Aggregate.Rows.{apply_rows, apply_rows-length}
use incresql.Executor.Aggregate.Within.{
  reset_args-StaysWithin, apply_args-StaysWithin, reset_args_again,
}
use incresql.Executor.Aggregate.Value.{run_args, run_args_lem, group_values}
use incresql.Executor.PointInTime.SortedGroup.{
  GroupState, initial, processing, done, SortedGroupExecutor, hash_tuple, apply_rest, group_loop,
  all_rows, next_group, group_advance, group_get, sorted_group_executor, new_sorted_group,
}

-- A run of rows: their hash, the first row and the others.
abbrev pub Run : Externals → Type 0
Run x = ℕ × Row x × List (Row x)

abbrev pub run_rows : {x : Externals} → List (Run x) → List (Row x)
run_rows [] = []
run_rows ((h, row, rows) ∷ runs) = row ∷ rows ++ run_rows runs

module _ {x : Externals} {fs : Functions x} (aggregates : Aggregates x fs.AggregateFunction)
    (hash : List (Datum x) → ℕ) (source : TupleIter x) (key_len : ℕ)
    (expressions : AggregateArgs fs) where
  abbrev pub HasHash : ℕ → Row x → Type 0
  HasHash h row = hash_tuple aggregates hash source key_len expressions row.0 ≡ some h

  abbrev pub StartsOther : ℕ → List (Run x) → Type 0
  StartsOther h [] = Unit
  StartsOther h ((k, row, rows) ∷ runs) = k ≢ h

  -- The keys of the rows of a run have its hash, and runs side by side have different ones.
  abbrev pub AreRuns : List (Run x) → Type 0
  AreRuns [] = Unit
  AreRuns ((h, row, rows) ∷ runs) =
      HasHash h row × All (HasHash h) rows × StartsOther h runs × AreRuns runs

  -- The values of the expressions on each run.
  abbrev pub HaveValues : List (Run x) → List (Row x) → Type 0
  HaveValues [] [] = Unit
  HaveValues [] (out ∷ outs) = ⊥
  HaveValues (r ∷ runs) [] = ⊥
  HaveValues ((h, row, rows) ∷ runs) (out ∷ outs) =
      (group_values aggregates expressions (row ∷ rows) ≡ some out.0)
      × (out.1 ≡ pos 1)
      × HaveValues runs outs

  abbrev applied : List (Row x) → List (Datum x) → Option (List (Datum x))
  applied = apply_rows (λ row. apply_args aggregates row expressions)

  group_loop-run :
      (n h : ℕ) (p : PeekableIter source) (state after : List (Datum x)) (rows : List (Row x))
      (runs : List (Run x))
      → length rows < n
      → Comes source p (rows ++ run_rows runs)
      → All (HasHash h) rows
      → StartsOther h runs
      → AreRuns runs
      → applied rows state ≡ some after
      → (q : PeekableIter source) × (group_loop aggregates hash source key_len expressions n h p
            state
          ≡ some (q, after))
        × Comes source q (run_rows runs)
  unfolding group_loop apply_rows
  group_loop-run zero h p state after rows runs l c hs o r e = absurd (omega arith)
  group_loop-run (suc n) h p state after [] [] l c hs o r e =
      let (q, pk, cq) = peek-Comes_end source p c in
      (q, rw (pk, Option.some-injective state after e) refl, cq)
  group_loop-run (suc n) h p state after [] ((k, row, rows) ∷ runs) l c hs o r e =
      let (q, pk, cq, cl) = peek-Comes_row source p row (rows ++ run_rows runs) c in
      let other : (k == h) ≡ false = ground arith in
      (q, rw (pk, r.0, other, Option.some-injective state after e) refl, cq)
  group_loop-run (suc n) h p state after (row ∷ rows) runs l c hs o r e =
      let (q, pk, cq, cl) = peek-Comes_row source p row (rows ++ run_rows runs) c in
      let same : (h == h) ≡ true = ground arith in
      let (state', ap', rest) =
        bind-split (apply_args aggregates row expressions state) _ after e in
      let (t, loop, ct) =
        group_loop-run n h (lock_in source q) state' after rows runs (omega arith) cl hs.1 o r
          rest in
      (t, rw (pk, hs.0, same, ap') loop, ct)

  abbrev IsState : List (Datum x) → Type 0
  IsState s = length s ≡ state_len_args aggregates expressions

  abbrev Executor : Type 0
  Executor = SortedGroupExecutor aggregates hash source key_len expressions

  abbrev iter : ℕ → TupleIter x
  iter = sorted_group_executor aggregates hash source key_len expressions

  abbrev at : PeekableIter source → List (Datum x) → List (Datum x) → GroupState → Executor
  at p current output st = record {
    source_state = p;
    current_state = current;
    output_tuple = output;
    state = st;
  }

  initialize_from :
      (s : List (Datum x))
      → IsState s
      → reset_args aggregates expressions s ≡ initialize aggregates expressions
  unfolding initialize
  initialize_from s h =
      reset_args_again aggregates expressions s _ h
        (length-replicate (state_len_args aggregates expressions) null)

  -- What a group with a value goes through.
  group_steps :
      (rows : List (Row x)) (out : List (Datum x))
      → group_values aggregates expressions rows ≡ some out
      → (s : List (Datum x)) × (after : List (Datum x)) × (initialize aggregates expressions
          ≡ some s)
        × (applied rows s ≡ some after)
        × (finalize_args aggregates expressions after ≡ some out)
        × IsState after
  unfolding run_args initialize
  group_steps rows out h =
      let (s, init, rest) =
        bind-split (initialize aggregates expressions) _ out
          (run_args_lem aggregates expressions rows ∙ h) in
      let (after, app, fin) = bind-split (applied rows s) _ out rest in
      let size =
        (reset_args-StaysWithin aggregates expressions).1 _ s
          (length-replicate (state_len_args aggregates expressions) null) init in
      (
        s,
        after,
        init,
        app,
        fin,
        apply_rows-length (state_len_args aggregates expressions)
            (λ row. apply_args aggregates row expressions)
            (λ row. apply_args-StaysWithin aggregates row expressions) rows s after size app,
      )

  runs-Yields :
      (fuel : ℕ) (p : PeekableIter source) (current output : List (Datum x)) (runs : List (Run x))
      (outs : List (Row x))
      → 0 < key_len
      → length (run_rows runs) < fuel
      → Comes source p (run_rows runs)
      → AreRuns runs
      → HaveValues runs outs
      → IsState current
      → Yields (iter fuel) (at p current output initial) outs
  unfolding Yields group_advance next_group group_get apply_rows
  runs-Yields fuel p current output [] [] k l c r v size =
      let (q, nx) = next-Comes_end source p c in
      let keyed : (key_len == 0) ≡ false = ground arith in
      (at q current output done, rw (keyed, nx) refl, refl)
  runs-Yields fuel p current output [] (out ∷ outs) k l c r v size = absurd v
  runs-Yields fuel p current output (r ∷ runs) [] k l c h v size = absurd v
  runs-Yields fuel p current output ((h, row, rows) ∷ runs) (out ∷ outs) k l c (hr, hs, o, r)
        (value, one, v) size =
      let keyed : (key_len == 0) ≡ false = ground arith in
      let (q, nx, cq) = next-Comes_row source p row (rows ++ run_rows runs) c in
      let (s, after, init, app, fin, size') = group_steps (row ∷ rows) out.0 value in
      let (s1, first, others) = bind-split (apply_args aggregates row expressions s) _ after app in
      let fresh = initialize_from current size ∙ init in
      let len = length-append rows (run_rows runs) in
      let (t, loop, ct) =
        group_loop-run fuel h q s1 after rows runs (omega arith) cq hs o r others in
      (
        at t after out.0 initial,
        rw (keyed, nx, fresh, first, hr, loop, fin) refl,
        rw one refl,
        runs-Yields fuel t after out.0 runs outs k (omega arith) ct r v size',
      )

  apply_rest-all :
      (n : ℕ) (p : PeekableIter source) (state after : List (Datum x)) (rows : List (Row x))
      → length rows < n
      → Comes source p rows
      → applied rows state ≡ some after
      → (q : PeekableIter source) × (apply_rest aggregates hash source key_len expressions n p state
          ≡ some (q, after))
  unfolding apply_rest apply_rows
  apply_rest-all zero p state after rows l c e = absurd (omega arith)
  apply_rest-all (suc n) p state after [] l c e =
      let (q, nx) = next-Comes_end source p c in
      (q, rw (nx, Option.some-injective state after e) refl)
  apply_rest-all (suc n) p state after (row ∷ rows) l c e =
      let (q, nx, cq) = next-Comes_row source p row rows c in
      let (state', ap', rest) =
        bind-split (apply_args aggregates row expressions state) _ after e in
      let (t, loop) = apply_rest-all n q state' after rows (omega arith) cq rest in
      (t, rw (nx, ap') loop)

  -- A new executor over rows that arrive in runs of equal hashes of the key delivers, with frequency 1,
  -- the values of the expressions on each run, in order. The key is not empty, the expressions have
  -- values on every run, and the bound of a call is above the number of rows.
  pub sorted_group_executor-Yields :
      (fuel : ℕ) (s : source.State) (column_count : ℕ) (e : Executor) (runs : List (Run x))
      (outs : List (Row x))
      → 0 < key_len
      → length (run_rows runs) < fuel
      → new_sorted_group aggregates hash source key_len expressions s column_count ≡ some e
      → Yields source s (run_rows runs)
      → AreRuns runs
      → HaveValues runs outs
      → Yields (iter fuel) e outs
  unfolding new_sorted_group Comes initialize
  sorted_group_executor-Yields fuel s column_count e runs outs k l made y r v =
      let (state, init, same) = bind-split (initialize aggregates expressions) _ e made in
      let size =
        (reset_args-StaysWithin aggregates expressions).1 _ state
          (length-replicate (state_len_args aggregates expressions) null) init in
      let whole = Option.some-injective _ e same in
      subst (λ e. Yields (iter fuel) e outs) whole
        (runs-Yields fuel (record { inner = s; advanced = false }) state
          (replicate column_count null) runs outs k l y r v size)

  -- Without a key a new executor delivers one row, the values of the expressions on all rows of the
  -- source, also where the source is empty, and ends. The bound of a call is above the number of rows.
  pub sorted_group_executor_one :
      (fuel : ℕ) (s : source.State) (column_count : ℕ) (e : Executor) (rows : List (Row x))
      (out : List (Datum x))
      → key_len ≡ 0
      → length rows < fuel
      → new_sorted_group aggregates hash source key_len expressions s column_count ≡ some e
      → Yields source s rows
      → group_values aggregates expressions rows ≡ some out
      → Yields (iter fuel) e ((out, pos 1) ∷ [])
  unfolding new_sorted_group Comes initialize Yields group_advance all_rows group_get
  sorted_group_executor_one fuel s column_count e rows out k l made y v =
      let (state, init, same) = bind-split (initialize aggregates expressions) _ e made in
      let size =
        (reset_args-StaysWithin aggregates expressions).1 _ state
          (length-replicate (state_len_args aggregates expressions) null) init in
      let whole = Option.some-injective _ e same in
      let (s0, after, init', app, fin, size') = group_steps rows out v in
      let fresh = initialize_from state size ∙ init' in
      let p : PeekableIter source = record { inner = s; advanced = false } in
      let (q, loop) = apply_rest-all fuel p s0 after rows l y app in
      let none_left : (key_len == 0) ≡ true = ground arith in
      subst (λ e. Yields (iter fuel) e ((out, pos 1) ∷ [])) whole
        (
          at q after out processing,
          rw (none_left, fresh, loop, fin) refl,
          refl,
          (at q after out done, rw none_left refl, refl),
        )

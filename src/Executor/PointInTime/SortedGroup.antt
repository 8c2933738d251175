-- ===== src/Executor/PointInTime/SortedGroup.antt =====
-- src/executor/src/point_in_time/sorted_group.rs.
pub mod Rows
use incresql.Prelude.{
  ℕ, zero, suc, Bool, true, false, not, ◌&&◌, ◌==◌, Option, none, some, List, [], ◌∷◌,
  if◌then◌else◌, ◌>>=◌, replicate,
}
use incresql.Prelude.Int.{ℤ, pos}
use incresql.Data.Datum.{Externals, Datum, null}
use incresql.Data.TupleIter.{TupleIter, Row}
use incresql.Data.TupleIter.Peekable.{PeekableIter, next, peek, lock_in}
use incresql.Functions.{Functions}
use incresql.Functions.Aggregate.Interface.{Aggregates}
use incresql.Executor.Aggregate.{AggregateArgs, reset_args, apply_args, finalize_args, initialize}
use incresql.Executor.PointInTime.HashJoin.{slice_to}

pub data GroupState : Type 0 where
  initial processing done : GroupState

abbrev is_initial : GroupState → Bool
is_initial initial = true
is_initial processing = false
is_initial done = false

abbrev is_processing : GroupState → Bool
is_processing initial = false
is_processing processing = true
is_processing done = false

abbrev is_done : GroupState → Bool
is_done initial = false
is_done processing = false
is_done done = true

-- `hash` is the standard library's default hasher on a slice of data.
module _ {x : Externals} {fs : Functions x} (aggregates : Aggregates x fs.AggregateFunction)
    (hash : List (Datum x) → ℕ) (source : TupleIter x) (key_len : ℕ)
    (expressions : AggregateArgs fs) where
  pub record SortedGroupExecutor : Type 0 where
    pub source_state : PeekableIter source
    pub current_state : List (Datum x)
    pub output_tuple : List (Datum x)
    pub state : GroupState

  unfoldable pub hash_tuple : List (Datum x) → Option ℕ
  hash_tuple tuple = do key ← slice_to key_len tuple; some (hash key)

  -- The loop without a key: all rows are one group.
  unfoldable pub apply_rest :
      ℕ → PeekableIter source → List (Datum x) → Option (PeekableIter source × List (Datum x))
  apply_rest zero p state = none
  apply_rest (suc fuel) p state = next source p >>= (λ r. elim r.0 [
    | none ↦ some (r.1, state)
    | some row ↦
        apply_args aggregates row expressions state >>= (λ state'. apply_rest fuel r.1 state')
  ])

  -- The loop over the other rows of a group, which ends at a row with another hash.
  unfoldable pub group_loop :
      ℕ → ℕ → PeekableIter source → List (Datum x) → Option (PeekableIter source × List (Datum x))
  group_loop zero group_hash p state = none
  group_loop (suc fuel) group_hash p state = peek source p >>= (λ r. elim r.0 [
    | none ↦ some (r.1, state)
    | some row ↦ hash_tuple row.0 >>= (λ h.
        let again =
          apply_args aggregates row expressions state
          >>= (λ state'. group_loop fuel group_hash (lock_in source r.1) state') in
        if not (h == group_hash) then some (r.1, state) else again)
  ])

  abbrev finish :
      SortedGroupExecutor
      → GroupState
      → PeekableIter source × List (Datum x)
      → Option SortedGroupExecutor
  finish e after (p, state) = do
    output ← finalize_args aggregates expressions state
    some (record { source_state = p; current_state = state; output_tuple = output; state = after })

  unfoldable pub all_rows : ℕ → SortedGroupExecutor → Option SortedGroupExecutor
  all_rows fuel e = do
    state ← reset_args aggregates expressions e.current_state
    applied ← apply_rest fuel e.source_state state
    finish e processing applied

  unfoldable pub next_group : ℕ → SortedGroupExecutor → Option SortedGroupExecutor
  next_group fuel e = next source e.source_state >>= (λ r. elim r.0 [
    | none ↦ some (record e { source_state = r.1; state = done })
    | some row ↦ reset_args aggregates expressions e.current_state >>= (λ fresh.
        apply_args aggregates row expressions fresh
        >>= (λ state. hash_tuple row.0 >>= (λ h. group_loop fuel h r.1 state >>= finish e e.state)))
  ])

  unfoldable pub group_advance : ℕ → SortedGroupExecutor → Option SortedGroupExecutor
  group_advance fuel e =
      if key_len == 0 && is_initial e.state
      then all_rows fuel e
      else if key_len == 0 && is_processing e.state
      then some (record e { state = done })
      else next_group fuel e

  unfoldable pub group_get : SortedGroupExecutor → Option (Row x)
  group_get e = if is_done e.state then none else some (e.output_tuple, pos 1)

  abbrev pub sorted_group_executor : ℕ → TupleIter x
  sorted_group_executor fuel = record {
    State = SortedGroupExecutor;
    advance = group_advance fuel;
    get = group_get;
  }

  -- `SortedGroupExecutor::new`, from the number of the expressions.
  unfoldable pub new_sorted_group : source.State → ℕ → Option SortedGroupExecutor
  new_sorted_group s column_count = do
    state ← initialize aggregates expressions
    some (record {
      source_state = record { inner = s; advanced = false };
      current_state = state;
      output_tuple = replicate column_count null;
      state = initial;
    })

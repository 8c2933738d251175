-- ===== src/Executor/PointInTime/HashGroup.antt =====
-- src/executor/src/point_in_time/hash_group.rs.
pub mod Rows
use incresql.Prelude.{
  ℕ, zero, suc, Bool, true, false, Option, none, some, List, [], ◌∷◌, if◌then◌else◌, ◌>>=◌,
  replicate,
}
use incresql.Prelude.Int.{ℤ, pos}
use incresql.Data.Datum.{Externals, Datum, null, bytes_eq}
use incresql.Data.TupleIter.{TupleIter, Row}
use incresql.Encoding.SortOrder.{asc}
use incresql.Encoding.Datums.{DecimalCodec, as_sortable_bytes}
use incresql.Functions.{Functions}
use incresql.Functions.Aggregate.Interface.{Aggregates}
use incresql.Executor.Aggregate.{AggregateArgs, apply_args, finalize_args, initialize}
use incresql.Executor.PointInTime.HashJoin.{slice_to}

-- The hash map from the bytes of a key to the state of its group.
abbrev pub StateTable : Externals → Type 0
StateTable x = List (List ℕ × List (Datum x))

-- `order` is the order in which the hash map gives its entries back.
module _ {x : Externals} {fs : Functions x} (aggregates : Aggregates x fs.AggregateFunction)
    (codec : DecimalCodec x) (order : StateTable x → StateTable x) (source : TupleIter x)
    (key_len : ℕ) (expressions : AggregateArgs fs) where
  pub record HashGroupExecutor : Type 0 where
    pub source_state : source.State
    pub state : StateTable x
    pub state_iter : Option (StateTable x)
    pub output_state : List (Datum x)
    pub output_tuple : List (Datum x)
    pub done : Bool

  unfoldable pub key_bytes : List (Datum x) → List ℕ → List ℕ
  key_bytes [] key_buf = key_buf
  key_bytes (datum ∷ tuple) key_buf = key_bytes tuple (as_sortable_bytes codec datum asc key_buf)

  -- `get_mut` and `apply`, or `initialize`, `apply` and `insert`.
  unfoldable pub apply_to : List ℕ → Row x → StateTable x → Option (StateTable x)
  apply_to key row [] = do
    state ← initialize aggregates expressions
    state' ← apply_args aggregates row expressions state
    some ((key, state') ∷ [])
  apply_to key row ((k, state) ∷ table) =
      let here =
        apply_args aggregates row expressions state >>= (λ state'. some ((k, state') ∷ table)) in
      let later = apply_to key row table >>= (λ table'. some ((k, state) ∷ table')) in
      if bytes_eq k key then here else later

  unfoldable pub ingest_row : Row x → StateTable x → Option (StateTable x)
  ingest_row row table = do key ← slice_to key_len row.0; apply_to (key_bytes key []) row table

  unfoldable pub ingest_rows :
      ℕ → source.State → StateTable x → Option (source.State × StateTable x)
  ingest_rows zero s table = none
  ingest_rows (suc fuel) s table = source.advance s >>= (λ s'. elim (source.get s') [
    | none ↦ some (s', table)
    | some row ↦ ingest_row row table >>= (λ table'. ingest_rows fuel s' table')
  ])

  abbrev pub with_iter : ℕ → HashGroupExecutor → Option (StateTable x) → Option HashGroupExecutor
  with_iter fuel e (some entries) = some e
  with_iter fuel e none = do
    (s', table) ← ingest_rows fuel e.source_state e.state
    some (record e { source_state = s'; state = []; state_iter = some (order table) })

  abbrev pub next_entry : HashGroupExecutor → Option (StateTable x) → Option HashGroupExecutor
  next_entry e none = none
  next_entry e (some []) = some (record e { done = true })
  next_entry e (some (entry ∷ entries)) = do
    output ← finalize_args aggregates expressions entry.1
    some (record e { state_iter = some entries; output_state = entry.1; output_tuple = output })

  unfoldable pub hash_group_advance : ℕ → HashGroupExecutor → Option HashGroupExecutor
  hash_group_advance fuel e = do e' ← with_iter fuel e e.state_iter; next_entry e' e'.state_iter

  unfoldable pub hash_group_get : HashGroupExecutor → Option (Row x)
  hash_group_get e = if e.done then none else some (e.output_tuple, pos 1)

  abbrev pub hash_group_executor : ℕ → TupleIter x
  hash_group_executor fuel = record {
    State = HashGroupExecutor;
    advance = hash_group_advance fuel;
    get = hash_group_get;
  }

  -- `HashGroupExecutor::new`, from the number of the expressions.
  unfoldable pub new_hash_group : source.State → ℕ → HashGroupExecutor
  new_hash_group s column_count = record {
    source_state = s;
    state = [];
    state_iter = none;
    output_state = [];
    output_tuple = replicate column_count null;
    done = false;
  }

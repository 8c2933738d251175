-- ===== src/Executor/PointInTime/Sort.antt =====
-- src/executor/src/point_in_time/sort.rs.
pub mod Order
pub mod Form
pub mod Buffer
pub mod Rows
use incresql.Prelude.{
  ℕ, zero, suc, ◌+◌, ◌-◌, ◌^◌, ◌%◌, Bool, true, false, Option, none, some, List, [], ◌∷◌, ◌++◌,
  length, take, drop, ltb, leb, if◌then◌else◌, ◌>>=◌, replicate,
}
use incresql.Prelude.Int.{ℤ, pos}
use incresql.Data.Datum.{Externals, Datum, null}
use incresql.Data.TupleIter.{TupleIter, Row}
use incresql.Encoding.SortOrder.{SortOrder, asc}
use incresql.Encoding.Signed.{write_varint_signed, read_varint_signed}
use incresql.Encoding.Datums.{DecimalCodec, as_sortable_bytes, from_sortable_bytes}
use incresql.Functions.{Functions}
use incresql.Ast.Expr.{Expression, SortExpression}
use incresql.Executor.Scalar.{eval_scalar}
use incresql.Executor.PointInTime.Sort.Order.{sort_by}

pub data SortState : Type 0 where
  ready serving done : SortState

abbrev is_ready : SortState → Bool
is_ready ready = true
is_ready serving = false
is_ready done = false

abbrev is_done : SortState → Bool
is_done ready = false
is_done serving = false
is_done done = true

-- A range of the buffer, as two `u32`.
abbrev pub as_u32 : ℕ → ℕ
as_u32 n = n % 2 ^ 32

abbrev pub slice : List ℕ → ℕ × ℕ → List ℕ
slice buffer (start, end) = take (end - start) (drop start buffer)

-- `&buffer[start..end]`, which panics outside the buffer.
abbrev pub checked_slice : List ℕ → ℕ × ℕ → Option (List ℕ)
checked_slice buffer (start, end) =
    if leb start end
    then (if leb end (length buffer) then some (slice buffer (start, end)) else none)
    else none

module _ {x : Externals} (fs : Functions x) (codec : DecimalCodec x) (source : TupleIter x)
    (sort_expressions : List (SortExpression fs)) where
  pub record SortExecutor : Type 0 where
    pub source_state : source.State
    pub sort_buffer : List ℕ
    pub sort_indexes : List (ℕ × ℕ)
    pub state : SortState
    pub tuple_buffer : List (Datum x)
    pub freq : ℤ

  unfoldable pub write_keys : List (SortExpression fs) → List (Datum x) → List ℕ → Option (List ℕ)
  write_keys [] tuple buffer = some buffer
  write_keys (e ∷ exprs) tuple buffer = do
    datum ← eval_scalar fs tuple e.expression
    write_keys exprs tuple (as_sortable_bytes codec datum e.ordering buffer)

  unfoldable pub write_datums : List (Datum x) → List ℕ → List ℕ
  write_datums [] buffer = buffer
  write_datums (datum ∷ tuple) buffer =
      write_datums tuple (as_sortable_bytes codec datum asc buffer)

  -- The panic of an oversized sort is `none` too.
  unfoldable pub ingest_loop :
      ℕ → source.State → List ℕ → List (ℕ × ℕ) → Option (source.State × List ℕ × List (ℕ × ℕ))
  ingest_loop zero s buffer indexes = none
  ingest_loop (suc fuel) s buffer indexes = source.advance s >>= (λ s'. elim (source.get s') [
    | none ↦ some (s', buffer, indexes)
    | some (tuple, freq) ↦ write_keys sort_expressions tuple buffer >>= (λ keyed.
        let written = write_varint_signed freq asc (write_datums tuple keyed) in
        let range : ℕ × ℕ = (as_u32 (length buffer), as_u32 (length written)) in
        let rest = ingest_loop fuel s' written (indexes ++ range ∷ []) in
        if ltb (2 ^ 32 - 1) (length written) then none else rest)
  ])

  -- `sort_unstable_by` on the slices: ranges that compare equal hold the same bytes.
  unfoldable pub ingest : ℕ → SortExecutor → Option SortExecutor
  ingest fuel e = do
    (s', buffer, indexes) ← ingest_loop fuel e.source_state [] []
    some (record e {
      source_state = s';
      sort_buffer = buffer;
      sort_indexes = sort_by (slice buffer) indexes;
      state = serving;
    })

  unfoldable pub skip_keys : List (SortExpression fs) → List ℕ → Option (List ℕ)
  skip_keys [] bytes = some bytes
  skip_keys (e ∷ exprs) bytes = do
    (datum, rest) ← from_sortable_bytes codec bytes
    skip_keys exprs rest

  unfoldable pub read_datums : List (Datum x) → List ℕ → Option (List (Datum x) × List ℕ)
  read_datums [] bytes = some ([], bytes)
  read_datums (old ∷ buffer) bytes = do
    (datum, rest) ← from_sortable_bytes codec bytes
    (tuple, rest') ← read_datums buffer rest
    some (datum ∷ tuple, rest')

  unfoldable pub serve : SortExecutor → List (ℕ × ℕ) → Option SortExecutor
  serve e [] = some (record e { sort_buffer = []; sort_indexes = []; state = done })
  serve e (range ∷ indexes) = do
    bytes ← checked_slice e.sort_buffer range
    rest ← skip_keys sort_expressions bytes
    (tuple, rest') ← read_datums e.tuple_buffer rest
    (freq, rest'') ← read_varint_signed asc rest'
    some (record e { sort_indexes = indexes; tuple_buffer = tuple; freq = freq })

  unfoldable pub sort_advance : ℕ → SortExecutor → Option SortExecutor
  sort_advance fuel e =
      let first = ingest fuel e in
      (if is_ready e.state then first else some e) >>= (λ e'. serve e' e'.sort_indexes)

  unfoldable pub sort_get : SortExecutor → Option (Row x)
  sort_get e = if is_done e.state then none else some (e.tuple_buffer, e.freq)

  abbrev pub sort_executor : ℕ → TupleIter x
  sort_executor fuel = record { State = SortExecutor; advance = sort_advance fuel; get = sort_get }

  -- `SortExecutor::new`, from the column count of the source.
  unfoldable pub new_sort : source.State → ℕ → SortExecutor
  new_sort s column_count = record {
    source_state = s;
    sort_buffer = [];
    sort_indexes = [];
    state = ready;
    tuple_buffer = replicate column_count null;
    freq = pos 0;
  }

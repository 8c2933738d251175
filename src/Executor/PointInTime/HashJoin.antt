-- ===== src/Executor/PointInTime/HashJoin.antt =====
-- src/executor/src/point_in_time/hash_join.rs.
pub mod Buffer
pub mod Table
pub mod Rows
pub mod Join
use incresql.Prelude.{
  ℕ, zero, suc, ◌+◌, ◌-◌, Bool, true, false, ◌&&◌, ◌||◌, Option, none, some, List, [], ◌∷◌, ◌++◌,
  map, leb, ltb, if◌then◌else◌, ◌>>=◌, length, take, drop, replicate,
}
use incresql.Prelude.Int.{ℤ, pos, ◌*ℤ◌}
use incresql.Data.Datum.{Externals, Datum, null, boolean, sql_eq, is_null, as_static, ref_clone}
use incresql.Data.TupleIter.{TupleIter, Row}
use incresql.Storage.Writer.{wrap_i64}
use incresql.Functions.{Functions}
use incresql.Ast.Logical.{JoinType, inner, left_outer}
use incresql.Ast.Expr.{Expression}
use incresql.Executor.Scalar.{eval_scalar}

abbrev pub Bucket : Externals → Type 0
Bucket x = List (List (Datum x) × ℤ)

-- The hash map, as a list of entries with different keys: the hash of a datum agrees with `==`, so
-- that it does not change which entry is found.
abbrev pub HashTable : Externals → Type 0
HashTable x = List (List (Datum x) × Bucket x)

module _ {x : Externals} where
  -- `tuple[0..n]`: a shorter tuple is a panic.
  unfoldable pub slice_to : ℕ → List (Datum x) → Option (List (Datum x))
  slice_to n tuple = if leb n (length tuple) then some (take n tuple) else none

  unfoldable pub any_null : List (Datum x) → Bool
  any_null [] = false
  any_null (d ∷ ds) = is_null d || any_null ds

  -- `==` of `Vec<Datum>` and of slices.
  unfoldable pub tuple_eq : List (Datum x) → List (Datum x) → Bool
  tuple_eq [] [] = true
  tuple_eq [] (e ∷ es) = false
  tuple_eq (d ∷ ds) [] = false
  tuple_eq (d ∷ ds) (e ∷ es) = sql_eq d e true && tuple_eq ds es

  -- `hash_table.entry(key).or_default().push(entry)`.
  unfoldable pub push_entry : List (Datum x) → List (Datum x) × ℤ → HashTable x → HashTable x
  push_entry key entry [] = (key, entry ∷ []) ∷ []
  push_entry key entry ((k, bucket) ∷ table) =
      if tuple_eq k key
      then (k, bucket ++ entry ∷ []) ∷ table
      else (k, bucket) ∷ push_entry key entry table

  abbrev pub insert_entry : List (Datum x) → List (Datum x) × ℤ → HashTable x → HashTable x
  insert_entry key entry table = if any_null key then table else push_entry key entry table

  unfoldable pub get_bucket : List (Datum x) → HashTable x → Option (Bucket x)
  get_bucket key [] = none
  get_bucket key ((k, bucket) ∷ table) =
      if tuple_eq k key then some bucket else get_bucket key table

  -- `buf[i] = datum`.
  unfoldable pub put : ℕ → Datum x → List (Datum x) → Option (List (Datum x))
  put i datum [] = none
  put zero datum (b ∷ buf) = some (datum ∷ buf)
  put (suc i) datum (b ∷ buf) = do buf' ← put i datum buf; some (b ∷ buf')

  -- `for (idx, datum) in tuple.iter().enumerate() { buf[offset + idx] = datum.ref_clone() }`.
  unfoldable pub copy_to : ℕ → List (Datum x) → List (Datum x) → Option (List (Datum x))
  copy_to offset [] buf = some buf
  copy_to offset (datum ∷ tuple) buf = do
    buf' ← put offset (ref_clone datum) buf
    copy_to (suc offset) tuple buf'

  -- `for d in &mut buf[n..] { *d = Datum::Null }`.
  unfoldable pub null_from : ℕ → List (Datum x) → Option (List (Datum x))
  null_from n buf =
      if leb n (length buf) then some (take n buf ++ replicate (length buf - n) null) else none

module _ {x : Externals} (fs : Functions x) (left right : TupleIter x) (left_len key_len : ℕ)
    (non_equi_condition : Expression fs) (join_type : JoinType) where
  pub record HashJoinExecutor : Type 0 where
    pub left_state : left.State
    pub right_state : right.State
    pub hash_table : Option (HashTable x)
    pub tuple_buf : List (Datum x)
    pub left_freq : ℤ
    pub freq : ℤ
    pub bucket_iter : Bucket x
    pub done : Bool

  abbrev copy_key : ℕ → Datum x → List (Datum x) → Option (List (Datum x))
  copy_key idx datum buf =
      if ltb idx key_len
      then put (idx + (left_len + key_len) - key_len) (ref_clone datum) buf
      else some buf

  -- The copy of a left tuple, whose key also goes in front of the right columns.
  unfoldable pub copy_left : ℕ → List (Datum x) → List (Datum x) → Option (List (Datum x))
  copy_left idx [] buf = some buf
  copy_left idx (datum ∷ tuple) buf = do
    once ← put idx (ref_clone datum) buf
    twice ← copy_key idx datum once
    copy_left (suc idx) tuple twice

  -- Both loops over `bucket_iter`: the buffer, and the frequency and the rest of the bucket at the
  -- first row that passes the condition. (The frequency of a row that fails it is written over before
  -- it is read.)
  unfoldable pub scan_bucket :
      ℤ → Bucket x → List (Datum x) → Option (List (Datum x) × Option (ℤ × Bucket x))
  scan_bucket left_freq [] buf = some (buf, none)
  scan_bucket left_freq ((right_tuple, right_freq) ∷ bucket) buf =
      copy_to (left_len + key_len) right_tuple buf >>= (λ buf'.
        let later = scan_bucket left_freq bucket buf' in
        eval_scalar fs buf' non_equi_condition >>= (λ datum.
          if sql_eq datum (boolean true) true
          then some (buf', some (wrap_i64 (right_freq *ℤ left_freq), bucket))
          else later))

  -- A row of the right source is put in the table unless its key has a null.
  unfoldable pub insert_right : Row x → HashTable x → Option (HashTable x)
  insert_right (tuple, freq) table = do
    slice ← slice_to key_len tuple
    some (insert_entry (map as_static slice) (map as_static (drop key_len tuple), freq) table)

  unfoldable pub build_table : ℕ → right.State → HashTable x → Option (right.State × HashTable x)
  build_table zero s table = none
  build_table (suc fuel) s table = right.advance s >>= (λ s'. elim (right.get s') [
    | none ↦ some (s', table)
    | some row ↦ insert_right row table >>= (λ table'. build_table fuel s' table')
  ])

  -- Where the scan of a bucket ends at a row, the call ends; else it goes on.
  abbrev pub after_scan :
      HashJoinExecutor
      → (HashJoinExecutor → Option HashJoinExecutor)
      → List (Datum x) × Option (ℤ × Bucket x)
      → Option HashJoinExecutor
  after_scan e go_on (buf, none) = go_on (record e { tuple_buf = buf; bucket_iter = [] })
  after_scan e go_on (buf, some (freq, bucket)) =
      some (record e { tuple_buf = buf; freq = freq; bucket_iter = bucket })

  -- The end of a round for a left tuple without a row: a left outer join returns the tuple, an inner
  -- join goes round again.
  abbrev pub without_match :
      JoinType
      → Row x
      → (HashJoinExecutor → Option HashJoinExecutor)
      → HashJoinExecutor
      → Option HashJoinExecutor
  without_match inner row again e = again e
  without_match left_outer row again e = do
    copied ← copy_to 0 row.0 e.tuple_buf
    padded ← null_from left_len copied
    some (record e { tuple_buf = padded; freq = row.1 })

  -- The round for a left tuple, by what the table has for its key.
  abbrev pub with_bucket :
      Row x
      → (HashJoinExecutor → Option HashJoinExecutor)
      → HashJoinExecutor
      → Option (Bucket x)
      → Option HashJoinExecutor
  with_bucket row again e none = without_match join_type row again e
  with_bucket row again e (some bucket) = do
    buf ← copy_left 0 row.0 e.tuple_buf
    found ← scan_bucket row.1 bucket buf
    after_scan (record e { left_freq = row.1 }) (without_match join_type row again) found

  -- The `'outer` loop, with a bound on the left tuples that one call reads.
  unfoldable pub next_left : ℕ → HashTable x → HashJoinExecutor → Option HashJoinExecutor
  next_left zero table e = none
  next_left (suc fuel) table e =
      let again = next_left fuel table in
      left.advance e.left_state >>= (λ s'. elim (left.get s') [
        | none ↦ some (record e { left_state = s'; done = true })
        | some row ↦
            slice_to key_len row.0
            >>= (λ key. with_bucket row again (record e { left_state = s' }) (get_bucket key table))
      ])

  -- The table is built by the first call that gets there.
  abbrev pub with_table : ℕ → HashJoinExecutor → Option (HashTable x) → Option HashJoinExecutor
  with_table fuel e (some table) = next_left fuel table e
  with_table fuel e none = do
    (s', table) ← build_table fuel e.right_state []
    next_left fuel table (record e { right_state = s'; hash_table = some table })

  unfoldable pub join_advance : ℕ → HashJoinExecutor → Option HashJoinExecutor
  join_advance fuel e = do
    found ← scan_bucket e.left_freq e.bucket_iter e.tuple_buf
    after_scan e (λ e'. with_table fuel e' e'.hash_table) found

  unfoldable pub join_get : HashJoinExecutor → Option (Row x)
  join_get e = if e.done then none else some (e.tuple_buf, e.freq)

  abbrev pub hash_join_executor : ℕ → TupleIter x
  hash_join_executor fuel = record {
    State = HashJoinExecutor;
    advance = join_advance fuel;
    get = join_get;
  }

  -- `HashJoinExecutor::new`, from the column counts of the sources.
  unfoldable pub new_join : left.State → right.State → ℕ → HashJoinExecutor
  new_join left_state right_state right_len = record {
    left_state = left_state;
    right_state = right_state;
    hash_table = none;
    tuple_buf = replicate (left_len + right_len) null;
    left_freq = pos 0;
    freq = pos 0;
    bucket_iter = [];
    done = false;
  }

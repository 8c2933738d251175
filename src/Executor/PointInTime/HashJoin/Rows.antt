-- ===== src/Executor/PointInTime/HashJoin/Rows.antt =====
-- src/executor/src/point_in_time/hash_join.rs: the rows of a join.
use incresql.Prelude.{
  ℕ, ◌+◌, ◌-◌, ◌≤◌, ◌≡◌, refl, sym, ◌∙◌, arith, true, false, Option, none, some, List, [], ◌∷◌,
  ◌++◌, append-nil, map, length, take, drop, if◌then◌else◌, ◌>>=◌, All, Bool-cases, inl, inr,
  replicate, length-append, length-map, length-take, length-drop, length-replicate,
}
use incresql.Prelude.Int.{ℤ, ◌*ℤ◌}
use incresql.Data.Datum.{Externals, Datum, null, boolean, sql_eq, ref_clone}
use incresql.Data.TupleIter.{TupleIter, Row, Delivers, Delivers-Yields}
use incresql.Storage.Writer.{wrap_i64}
use incresql.Functions.{Functions}
use incresql.Ast.Expr.{Expression}
use incresql.Executor.Scalar.{eval_scalar}
use incresql.Planner.Expr.Predicates.{holds}
use incresql.Ast.Logical.{JoinType, inner, left_outer}
use incresql.Executor.PointInTime.HashJoin.{
  Bucket, HashTable, HashJoinExecutor, copy_to, scan_bucket, after_scan, without_match, with_bucket,
  next_left, with_table, join_advance, join_get, hash_join_executor,
}
use incresql.Executor.PointInTime.HashJoin.Buffer.{
  copy_to-right, copy_to_front, null_from-append, copy_to_start, copy_left_start,
}
use incresql.Executor.PointInTime.HashJoin.Table.{if_any, if_any-some, partners}

module _ {x : Externals} (fs : Functions x) (left right : TupleIter x)
    (left_len right_len key_len : ℕ) (condition : Expression fs) (join_type : JoinType) where
  -- The left columns and the key, as they stand in front of the other right columns.
  abbrev pub front : List (Datum x) → List (Datum x)
  front tuple = map ref_clone tuple ++ map ref_clone (take key_len tuple)

  abbrev pub joined : List (Datum x) → List (Datum x) → List (Datum x)
  joined tuple rest = front tuple ++ map ref_clone rest

  -- The rows that a left row makes with the right ones that have its key: those that pass the
  -- condition, with the product of the frequencies.
  unfoldable pub matched : Row x → Bucket x → List (Row x)
  matched row [] = []
  matched row ((rest, freq) ∷ bucket) =
      if holds fs (joined row.0 rest) condition
      then (joined row.0 rest, wrap_i64 (freq *ℤ row.1)) ∷ matched row bucket
      else matched row bucket

  -- In a left outer join a left row without a partner comes with nulls.
  abbrev pub or_padded : JoinType → Row x → List (Row x) → List (Row x)
  or_padded inner row rows = rows
  or_padded left_outer row [] = (map ref_clone row.0 ++ replicate right_len null, row.1) ∷ []
  or_padded left_outer row (r ∷ rows) = r ∷ rows

  -- The join of two lists of rows, by nested loops.
  unfoldable pub join_rows : List (Row x) → List (Row x) → List (Row x)
  join_rows rights [] = []
  join_rows rights (row ∷ lefts) =
      or_padded join_type row (matched row (partners key_len (take key_len row.0) rights))
      ++ join_rows rights lefts

  abbrev pub Evaluates : Row x → List (Datum x) × ℤ → Type 0
  Evaluates row entry =
      (datum : Datum x) × (eval_scalar fs (joined row.0 entry.0) condition ≡ some datum)

  abbrev pub IsRest : List (Datum x) × ℤ → Type 0
  IsRest entry = length entry.0 ≡ right_len - key_len

  abbrev pub Executor : Type 0
  Executor = HashJoinExecutor fs left right left_len key_len condition join_type

  module _ (fuel : ℕ) (table : HashTable x) (rs : right.State) where
    abbrev pub iter : TupleIter x
    iter = hash_join_executor fs left right left_len key_len condition join_type fuel

    abbrev pub state : left.State → List (Datum x) → ℤ → ℤ → Bucket x → Executor
    state ls buf left_freq freq bucket = record {
      left_state = ls;
      right_state = rs;
      hash_table = some table;
      tuple_buf = buf;
      left_freq = left_freq;
      freq = freq;
      bucket_iter = bucket;
      done = false;
    }

    -- A step goes on to these rows from any buffer of the right size.
    abbrev pub GoesOn : (Executor → Option Executor) → left.State → List (Row x) → Type 0
    GoesOn go ls rows =
        (buf : List (Datum x)) (left_freq freq : ℤ)
        → length buf ≡ left_len + right_len
        → Delivers iter (go (state ls buf left_freq freq [])) rows

    abbrev pub from_left : ℕ → Executor → Option Executor
    from_left n = next_left fs left right left_len key_len condition join_type n table

    -- What a scan delivers, when these rows come where it finds none, and those after the last one.
    abbrev scanned : List (Row x) → List (Row x) → List (Row x) → List (Row x)
    scanned [] missed rows = missed
    scanned (r ∷ found) missed rows = r ∷ found ++ rows

    scanned_same : (found rows : List (Row x)) → scanned found rows rows ≡ found ++ rows
    scanned_same [] rows = refl
    scanned_same (r ∷ found) rows = refl

    module _ (k_left : key_len ≤ left_len) (k_right : key_len ≤ right_len) where
      length-front :
          (tuple : List (Datum x))
          → length tuple ≡ left_len
          → length (front tuple) ≡ left_len + key_len
      length-front tuple h =
          let a = length-append (map ref_clone tuple) (map ref_clone (take key_len tuple)) in
          let b = length-map ref_clone tuple in
          let c = length-map ref_clone (take key_len tuple) in
          let d = length-take key_len tuple in omega arith

      copy-joined :
          (tuple rest q : List (Datum x))
          → length tuple ≡ left_len
          → length rest ≡ length q
          → copy_to (left_len + key_len) rest (front tuple ++ q) ≡ some (joined tuple rest)
      copy-joined tuple rest q h l =
          let copied =
            rw (append-nil q, append-nil (map ref_clone rest)) at
              (copy_to_front rest q [] (sym l)) in
          rw (sym (length-front tuple h))
            (copy_to-right rest (front tuple) q (map ref_clone rest) copied)

      scan-Delivers :
          (row : Row x) (ls : left.State) (b : Bucket x) (q buf : List (Datum x)) (b' : Bucket x)
          (freq : ℤ) (missed rows : List (Row x)) (go : Executor → Option Executor)
          → length row.0 ≡ left_len
          → length q ≡ right_len - key_len
          → All IsRest b
          → All (Evaluates row) b
          → GoesOn go ls missed
          → GoesOn (from_left fuel) ls rows
          → Delivers iter
              (scan_bucket fs left right left_len key_len condition join_type row.1 b
                  (front row.0 ++ q)
                >>= after_scan fs left right left_len key_len condition join_type
                    (state ls buf row.1 freq b')
                    go)
              (scanned (matched row b) missed rows)
      unfolding scan_bucket matched join_advance join_get
      scan-Delivers row ls [] q buf b' freq missed rows go l lq w e on later =
          let a = length-append (front row.0) q in
          let b = length-front row.0 l in on (front row.0 ++ q) row.1 freq (omega arith)
      scan-Delivers row ls ((rest, f) ∷ b) q buf b' freq missed rows go l lq w ((datum, ev), e) on
            later =
          let copied = copy-joined row.0 rest q l (w.0 ∙ sym lq) in
          let lr = length-map ref_clone rest ∙ w.0 in
          elim (Bool-cases (sql_eq datum (boolean true) true)) [
            | inl h ↦
                let again =
                  scan-Delivers row ls b (map ref_clone rest) (joined row.0 rest) b
                    (wrap_i64 (f *ℤ row.1)) rows rows
                    (λ e'.
                      with_table fs left right left_len key_len condition join_type fuel e'
                        e'.hash_table)
                    l lr w.1 e later later in
                rw (copied, ev, h)
                  (
                    state ls (joined row.0 rest) row.1 (wrap_i64 (f *ℤ row.1)) b,
                    refl,
                    refl,
                    Delivers-Yields iter _ _ (rw (scanned_same (matched row b) rows) at again),
                  )
            | inr h ↦
                rw (copied, ev, h)
                  (scan-Delivers row ls b (map ref_clone rest) buf b' freq missed rows go l lr w.1 e
                    on later)
          ]

      abbrev missing : JoinType → Row x → (Executor → Option Executor) → Executor → Option Executor
      missing jt = without_match fs left right left_len key_len condition join_type jt

      missing-Delivers :
          (jt : JoinType) (row : Row x) (ls : left.State) (rows : List (Row x))
          (again : Executor → Option Executor)
          → length row.0 ≡ left_len
          → GoesOn again ls rows
          → GoesOn (from_left fuel) ls rows
          → GoesOn (missing jt row again) ls (or_padded jt row [] ++ rows)
      unfolding join_advance join_get scan_bucket
      missing-Delivers inner row ls rows again l on later = on
      missing-Delivers left_outer row ls rows again l on later = λ buf lf f size.
          let copied = copy_to_start row.0 buf left_len l (omega arith) in
          let cleared =
            null_from-append (map ref_clone row.0) (drop left_len buf) left_len
              (length-map ref_clone row.0 ∙ l) in
          let rest : length (drop left_len buf) ≡ right_len =
            omega (arith, length-drop left_len buf) in
          let padded = map ref_clone row.0 ++ replicate right_len null in
          let total =
            length-append (map ref_clone row.0) (replicate {A = Datum x} right_len null) in
          let size' : length padded ≡ left_len + right_len =
            omega
              (arith, length-map ref_clone row.0, length-replicate {A = Datum x} right_len null) in
          rw (copied, cleared, rest)
            (
              state ls padded lf row.1 [],
              refl,
              refl,
              Delivers-Yields iter _ _ (later padded lf row.1 size'),
            )

      or_padded_some :
          (jt : JoinType) (row : Row x) (found rows : List (Row x))
          → scanned found (or_padded jt row [] ++ rows) rows ≡ or_padded jt row found ++ rows
      or_padded_some inner row [] rows = refl
      or_padded_some left_outer row [] rows = refl
      or_padded_some inner row (r ∷ found) rows = refl
      or_padded_some left_outer row (r ∷ found) rows = refl

      pub with_bucket-Delivers :
          (row : Row x) (ls : left.State) (rows : List (Row x)) (b : Bucket x)
          (again : Executor → Option Executor) (found : Option (Bucket x))
          → found ≡ if_any b
          → length row.0 ≡ left_len
          → All IsRest b
          → All (Evaluates row) b
          → GoesOn again ls rows
          → GoesOn (from_left fuel) ls rows
          → GoesOn
              (λ e.
                with_bucket fs left right left_len key_len condition join_type row again e found)
              ls
              (or_padded join_type row (matched row b) ++ rows)
      unfolding matched
      with_bucket-Delivers row ls rows [] again none h l w e on later =
          missing-Delivers join_type row ls rows again l on later
      with_bucket-Delivers row ls rows (c ∷ b) again none h l w e on later = absurd (ground arith)
      with_bucket-Delivers row ls rows b again (some found) h l w e on later = λ buf lf f size.
          let same : found ≡ b = sym (if_any-some b found (sym h)) in
          let k = length-take key_len row.0 in
          let start =
            copy_left_start fs left right left_len key_len condition join_type row.0 buf l
              (omega arith) in
          let rest : length (drop (length (take key_len row.0)) (drop left_len buf))
              ≡ right_len - key_len =
            omega (
              arith,
              length-drop left_len buf,
              length-drop (length (take key_len row.0)) (drop left_len buf),
            ) in
          rw (start, same, sym (or_padded_some join_type row (matched row b) rows))
            (scan-Delivers row ls b (drop (length (take key_len row.0)) (drop left_len buf)) buf []
              f (or_padded join_type row [] ++ rows) rows (missing join_type row again) l rest w e
              (missing-Delivers join_type row ls rows again l on later) later)

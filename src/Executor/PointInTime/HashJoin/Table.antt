-- ===== src/Executor/PointInTime/HashJoin/Table.antt =====
-- src/executor/src/point_in_time/hash_join.rs: what the hash table has after the right source was read.
use incresql.Data.Datum.Class.{IsEquivalence, sql_eq-IsEquivalence}
use incresql.Prelude.{
  ℕ, zero, suc, ◌<◌, ◌≤◌, ◌≡◌, refl, sym, arith, true, false, ◌&&◌, not, Option, none, some, List,
  [], ◌∷◌, ◌++◌, append_assoc, append-nil, map, length, take, drop, le→leb, if◌then◌else◌, All,
  Bool-cases, inl, inr,
}
use incresql.Prelude.Int.{ℤ}
use incresql.Data.Datum.{Externals, Datum, sql_eq, as_static}
use incresql.Data.TupleIter.{TupleIter, Row, Yields}
use incresql.Functions.{Functions}
use incresql.Ast.Expr.{Expression}
use incresql.Ast.Logical.{JoinType}
use incresql.Executor.PointInTime.HashJoin.{
  Bucket, HashTable, slice_to, any_null, tuple_eq, push_entry, get_bucket, insert_entry,
  insert_right, build_table,
}

-- An empty list is an entry that is not there.
abbrev pub if_any : {A : Type 0} → List A → Option (List A)
if_any [] = none
if_any (a ∷ l) = some (a ∷ l)

if_any-snoc : {A : Type 0} (l : List A) (a : A) → if_any (l ++ a ∷ []) ≡ some (l ++ a ∷ [])
if_any-snoc [] a = refl
if_any-snoc (b ∷ l) a = refl

pub if_any-some : {A : Type 0} (l m : List A) → if_any l ≡ some m → l ≡ m
if_any-some [] m h = absurd (ground arith)
if_any-some (a ∷ l) m h = ground arith

module _ {x : Externals} where
  -- The rows of the right source that have the key, without it, in their order.
  unfoldable pub partners : ℕ → List (Datum x) → List (Row x) → Bucket x
  partners key_len key [] = []
  partners key_len key (row ∷ rows) =
      let found = map as_static (take key_len row.0) in
      let rest = partners key_len key rows in
      if not (any_null found) && tuple_eq found key
      then (map as_static (drop key_len row.0), row.1) ∷ rest
      else rest

  module _ (dec : IsEquivalence x.decimal_eq) (path : IsEquivalence x.jsonpath_eq) where
    same : IsEquivalence {A = Datum x} (λ a b. sql_eq a b true)
    same = sql_eq-IsEquivalence dec path

    tuple_eq_symm : (a b : List (Datum x)) → tuple_eq a b ≡ tuple_eq b a
    unfolding tuple_eq
    tuple_eq_symm [] [] = refl
    tuple_eq_symm [] (e ∷ b) = refl
    tuple_eq_symm (d ∷ a) [] = refl
    tuple_eq_symm (d ∷ a) (e ∷ b) = rw (same.eq_symm d e, tuple_eq_symm a b) refl

    tuple_eq_trans :
        (a b c : List (Datum x)) → tuple_eq a b ≡ true → tuple_eq b c ≡ true → tuple_eq a c ≡ true
    unfolding tuple_eq
    tuple_eq_trans [] [] c h k = k
    tuple_eq_trans [] (e ∷ b) c h k = absurd (ground arith)
    tuple_eq_trans (d ∷ a) [] c h k = absurd (ground arith)
    tuple_eq_trans (d ∷ a) (e ∷ b) [] h k = absurd (ground arith)
    tuple_eq_trans (d ∷ a) (e ∷ b) (f ∷ c) h k =
        ground (arith, same.eq_trans d e f, tuple_eq_trans a b c)

    -- Equal keys are equal to the same keys.
    tuple_eq_congr : (a b c : List (Datum x)) → tuple_eq a b ≡ true → tuple_eq a c ≡ tuple_eq b c
    tuple_eq_congr a b c h =
        ground (arith, tuple_eq_symm a b, tuple_eq_trans a b c, tuple_eq_trans b a c)

    get_bucket-push_entry :
        (q key : List (Datum x)) (entry : List (Datum x) × ℤ) (table : HashTable x) (b : Bucket x)
        → get_bucket q table ≡ if_any b
        → get_bucket q (push_entry key entry table)
          ≡ if_any (if tuple_eq key q then b ++ entry ∷ [] else b)
    unfolding get_bucket push_entry
    get_bucket-push_entry q key entry [] [] h = ground arith
    get_bucket-push_entry q key entry [] (e ∷ b) h = absurd (ground arith)
    get_bucket-push_entry q key entry ((k, bucket) ∷ table) b h =
        elim (Bool-cases (tuple_eq k key)) [
          | inl e ↦
              let congr = tuple_eq_congr k key q e in
              elim (Bool-cases (tuple_eq k q)) [
                | inl f ↦
                    let whole = if_any-some b bucket (sym (rw f at h)) in
                    rw (e, f, sym congr, f, whole) (sym (if_any-snoc bucket entry))
                | inr f ↦ rw (e, f, sym congr, f) (rw f at h)
              ]
          | inr e ↦
              let rest = get_bucket-push_entry q key entry table b in
              elim (Bool-cases (tuple_eq k q)) [
                | inl f ↦
                    let other : tuple_eq key q ≡ false =
                      ground (arith, tuple_eq_symm key q, tuple_eq_trans k q key) in
                    rw (e, f, other) (rw f at h)
                | inr f ↦ rw (e, f) (rest (rw f at h))
              ]
        ]

    -- A table has for each key the partners of the rows read so far, and gains those of the next row.
    abbrev pub Serves : ℕ → HashTable x → (List (Datum x) → Bucket x) → Type 0
    Serves key_len table bucket_of =
        (q : List (Datum x)) → get_bucket q table ≡ if_any (bucket_of q)

    get_bucket-insert_entry :
        (key_len : ℕ) (q : List (Datum x)) (row : Row x) (table : HashTable x) (b : Bucket x)
        → get_bucket q table ≡ if_any b
        → get_bucket q (
            insert_entry
              (map as_static (take key_len row.0))
              (map as_static (drop key_len row.0), row.1)
              table)
          ≡ if_any (b ++ partners key_len q (row ∷ []))
    unfolding partners
    get_bucket-insert_entry key_len q row table b h =
        let found = map as_static (take key_len row.0) in
        let entry : List (Datum x) × ℤ = (map as_static (drop key_len row.0), row.1) in
        let pushed = get_bucket-push_entry q found entry table b h in
        elim (Bool-cases (any_null found)) [
          | inl e ↦ rw (e, append-nil b) h
          | inr e ↦ elim (Bool-cases (tuple_eq found q)) [
            | inl f ↦ rw (e, f) (rw f at pushed)
            | inr f ↦ rw (e, f, append-nil b) (rw f at pushed)
          ]
        ]

module _ {x : Externals} (fs : Functions x) (left right : TupleIter x) (left_len key_len : ℕ)
    (condition : Expression fs) (join_type : JoinType) (dec : IsEquivalence x.decimal_eq)
    (path : IsEquivalence x.jsonpath_eq) where
  partners-snoc :
      (q : List (Datum x)) (row : Row x) (rows : List (Row x))
      → partners key_len q (row ∷ rows) ≡ partners key_len q (row ∷ []) ++ partners key_len q rows
  unfolding partners
  partners-snoc q row rows = ground arith

  abbrev pub HasKey : Row x → Type 0
  HasKey row = key_len ≤ length row.0

  -- Reading the right source gives a table with the partners of every key.
  pub build_table-Serves :
      (fuel : ℕ) (s : right.State) (rows : List (Row x)) (table : HashTable x)
      (before : List (Datum x) → Bucket x)
      → length rows < fuel
      → Yields right s rows
      → All HasKey rows
      → Serves dec path key_len table before
      → (s' : right.State) × (table' : HashTable x) × (build_table fs left right left_len key_len
            condition join_type fuel s table
          ≡ some (s', table'))
        × Serves dec path key_len table' (λ q. before q ++ partners key_len q rows)
  unfolding Yields build_table insert_right slice_to partners
  build_table-Serves zero s rows table before l y k h = absurd (omega arith)
  build_table-Serves (suc fuel) s [] table before l (s', a, g) k h =
      (s', table, rw (a, g) refl, λ q. rw (append-nil (before q)) (h q))
  build_table-Serves (suc fuel) s (row ∷ rows) table before l (s', a, g, y) k h =
      let next =
        insert_entry (map as_static (take key_len row.0))
          (map as_static (drop key_len row.0), row.1) table in
      let (t, table', e, served) =
        build_table-Serves fuel s' rows next (λ q. before q ++ partners key_len q (row ∷ []))
          (omega arith) y k.1
          (λ q. get_bucket-insert_entry dec path key_len q row table (before q) (h q)) in
      (
        t,
        table',
        rw (a, g, le→leb key_len (length row.0) k.0) e,
        λ q.
            rw
              (
                partners-snoc q row rows,
                sym (
                    append_assoc (before q) (partners key_len q (row ∷ []))
                      (partners key_len q rows)),
              )
              (served q),
      )

-- ===== src/Executor/Aggregate/Rows.antt =====
-- src/executor/src/aggregate_expression.rs: a step for each row of a group.
use incresql.Prelude.{
  ℕ, ◌≡◌, refl, sym, arith, Option, some, List, [], ◌∷◌, ◌++◌, ◌>>=◌, Bool-cases, bind-split,
  Option-cases, inl, inr, length, get_elem?, if◌then◌else◌, true, false,
}
use incresql.Data.Datum.{Externals, Datum, null, is_null, as_static, byte_a_ref}
use incresql.Data.TupleIter.{Row}
use incresql.Functions.Aggregate.Interface.{StaysWithin}
use incresql.Executor.Aggregate.{apply_column, then_rest}
use incresql.Executor.Aggregate.Slices.{both, both-bind, then_rest-parts}
use mathlib.Core.Option

module _ {x : Externals} where
  -- A step for each row of a group.
  unfoldable pub apply_rows :
      (Row x → List (Datum x) → Option (List (Datum x)))
      → List (Row x)
      → List (Datum x)
      → Option (List (Datum x))
  apply_rows step [] state = some state
  apply_rows step (row ∷ rows) state = do state' ← step row state; apply_rows step rows state'

  pub apply_rows_none :
      (rows : List (Row x)) (state : List (Datum x))
      → apply_rows (λ row. some) rows state ≡ some state
  unfolding apply_rows
  apply_rows_none [] state = refl
  apply_rows_none (row ∷ rows) state = apply_rows_none rows state

  pub apply_rows-length :
      (n : ℕ) (step : Row x → List (Datum x) → Option (List (Datum x)))
      → ((row : Row x) → StaysWithin n (step row))
      → (rows : List (Row x)) (s r : List (Datum x)) → length s ≡ n
      → apply_rows step rows s ≡ some r
      → length r ≡ n
  unfolding apply_rows
  apply_rows-length n step within [] s r h e = rw (sym (Option.some-injective s r e)) h
  apply_rows-length n step within (row ∷ rows) s r h e =
      let (t, f, rest) = bind-split (step row s) _ r e in
      apply_rows-length n step within rows t r ((within row).1 s t h f) rest

  pub apply_rows-parts :
      (n m : ℕ) (first others : Row x → List (Datum x) → Option (List (Datum x)))
      → ((row : Row x) → StaysWithin n (first row))
      → (rows : List (Row x)) (s t : List (Datum x)) → length s ≡ n
      → apply_rows (λ row. then_rest n (first row) (others row)) rows (s ++ t)
        ≡ both ◌++◌ (apply_rows first rows s) (apply_rows others rows t)
  unfolding apply_rows
  apply_rows-parts n m first others within [] s t h = refl
  apply_rows-parts n m first others within (row ∷ rows) s t h =
      rw (then_rest-parts n m (first row) (others row) (within row) s t h) (
        both-bind ◌++◌ ◌++◌ (first row s) (others row t) (apply_rows first rows)
          (apply_rows others rows) (apply_rows (λ row. then_rest n (first row) (others row)) rows)
          (λ s' t' hs ht.
            apply_rows-parts n m first others within rows s' t' ((within row).1 s s' h hs)))

  -- The first value of a column that is not null; the columns behind it are not looked at.
  unfoldable pub first_value : ℕ → List (Row x) → Option (Datum x)
  first_value offset [] = some null
  first_value offset (row ∷ rows) =
      let later = first_value offset rows in
      get_elem? row.0 offset >>= (λ datum. if is_null datum then later else some (as_static datum))

  as_static-null : (d : Datum x) → is_null d ≡ true → as_static d ≡ null
  unfolding is_null as_static
  as_static-null null h = refl
  as_static-null _ h = absurd (ground arith)

  as_static_kept : (d : Datum x) → is_null d ≡ false → is_null (as_static d) ≡ false
  unfolding is_null as_static
  as_static_kept (byte_a_ref s) h = ground arith
  as_static_kept _ h = ground arith

  kept :
      (offset : ℕ) (rows : List (Row x)) (d : Datum x)
      → is_null d ≡ false
      → apply_rows (λ row. apply_column offset row.0) rows (d ∷ []) ≡ some (d ∷ [])
  unfolding apply_rows
  kept offset [] d h = refl
  kept offset (row ∷ rows) d h = rw h (kept offset rows d h)

  pub apply_column-first_value :
      (offset : ℕ) (rows : List (Row x))
      → apply_rows (λ row. apply_column offset row.0) rows (null ∷ [])
        ≡ (first_value offset rows >>= (λ d. some (d ∷ [])))
  unfolding apply_rows first_value is_null
  apply_column-first_value offset [] = refl
  apply_column-first_value offset (row ∷ rows) = elim (Option-cases (get_elem? row.0 offset)) [
    | inl e ↦ rw e refl
    | inr (d, e) ↦ elim (Bool-cases (is_null d)) [
      | inl h ↦ rw (e, h, as_static-null d h) (apply_column-first_value offset rows)
      | inr h ↦ rw (e, h) (kept offset rows (as_static d) (as_static_kept d h))
    ]
  ]

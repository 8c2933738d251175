-- ===== src/Executor/PointInTime/Sort/Buffer.antt =====
-- src/executor/src/point_in_time/sort.rs: the buffer after `ingest`.
use incresql.Prelude.{
  ℕ, zero, suc, ◌+◌, ◌-◌, ◌^◌, ◌<◌, ◌≡◌, refl, sym, ap, ap₂, ◌∙◌, arith, true, false, some, List,
  [], ◌∷◌, ◌++◌, append_assoc, append-nil, map, length, All, ltb, leb, ltb-false, le→leb,
  length-append, take-append_left, drop-append_left,
}
use incresql.Data.Datum.{Externals, Datum}
use incresql.Data.TupleIter.{TupleIter, Row, Yields}
use incresql.Encoding.SortOrder.{asc}
use incresql.Encoding.Signed.{IsI64, write_varint_signed}
use incresql.Encoding.Signed.RoundTrip.{write_varint_signed-append}
use incresql.Encoding.Datums.{DecimalCodec}
use incresql.Encoding.Datums.RoundTrip.{IsStorable}
use incresql.Functions.{Functions}
use incresql.Ast.Expr.{SortExpression}
use incresql.Executor.PointInTime.Sort.{write_datums, as_u32, slice, checked_slice, ingest_loop}
use incresql.Executor.PointInTime.Sort.Order.{Zipped}
use incresql.Executor.PointInTime.Sort.Form.{
  Keyed, EvalTo, keys_form, datums_form, write_keys-form, write_datums-form,
}

-- The part of a buffer behind its first bytes.
slice_mid :
    (before mid after : List ℕ) (start end : ℕ)
    → start ≡ length before
    → end ≡ length before + length mid
    → checked_slice (before ++ (mid ++ after)) (start, end) ≡ some mid
slice_mid before mid after start end s e =
    let a = length-append before (mid ++ after) in
    let b = length-append mid after in
    let ordered : leb start end ≡ true = le→leb start end (omega arith) in
    let inside : leb end (length (before ++ (mid ++ after))) ≡ true = le→leb _ _ (omega arith) in
    rw
      (
        ordered,
        inside,
        drop-append_left start before (mid ++ after) (sym s),
        take-append_left (end - start) mid after (omega arith),
      )
      refl

pub checked_slice-slice :
    (buffer bytes : List ℕ) (range : ℕ × ℕ)
    → checked_slice buffer range ≡ some bytes
    → slice buffer range ≡ bytes
checked_slice-slice buffer bytes (start, end) h = ground arith

module _ {x : Externals} (fs : Functions x) (codec : DecimalCodec x) (source : TupleIter x)
    (exprs : List (SortExpression fs)) (column_count : ℕ) where
  unfoldable pub form : Keyed x → List ℕ
  form (row, keys) =
      keys_form fs codec exprs keys
      ++ (datums_form fs codec row.0 ++ write_varint_signed row.1 asc [])

  unfoldable pub forms : List (Keyed x) → List ℕ
  forms [] = []
  forms (k ∷ keyed) = form k ++ forms keyed

  -- The expressions have these values, all values fit their types (and none is a decimal), and the
  -- row is as wide as the source declares.
  abbrev pub IsSortable : Keyed x → Type 0
  IsSortable (row, keys) =
      EvalTo fs codec exprs row.0 keys
      × All IsStorable keys
      × All IsStorable row.0
      × IsI64 row.1
      × (length row.0 ≡ column_count)

  unfoldable pub ranges : ℕ → List (Keyed x) → List (ℕ × ℕ)
  ranges start [] = []
  ranges start (k ∷ keyed) =
      (start, start + length (form k)) ∷ ranges (start + length (form k)) keyed

  abbrev pub first_of : Keyed x → Row x
  first_of k = k.0

  write_record :
      (row : Row x) (keys : List (Datum x)) (buffer : List ℕ)
      → All IsStorable row.0
      → write_varint_signed row.1 asc
          (write_datums fs codec source exprs row.0 (buffer ++ keys_form fs codec exprs keys))
        ≡ buffer ++ form (row, keys)
  unfolding form
  write_record row keys buffer h =
      let k = keys_form fs codec exprs keys in
      let d = datums_form fs codec row.0 in
      let f = write_varint_signed row.1 asc [] in
      rw
        (
          write_datums-form fs codec source exprs row.0 (buffer ++ k) h,
          write_varint_signed-append row.1 asc ((buffer ++ k) ++ d),
          append_assoc (buffer ++ k) d f,
        )
        (append_assoc buffer k (d ++ f))

  range_of : (n : ℕ) → n < 2 ^ 32 → as_u32 n ≡ n
  range_of n h = omega arith

  pub ingest_loop-forms :
      (n : ℕ) (s : source.State) (keyed : List (Keyed x)) (buffer : List ℕ) (indexes : List (ℕ × ℕ))
      → length keyed < n
      → Yields source s (map first_of keyed)
      → All IsSortable keyed
      → length buffer + length (forms keyed) < 2 ^ 32
      → (s' : source.State) × (ingest_loop fs codec source exprs n s buffer indexes
          ≡ some (s', buffer ++ forms keyed, indexes ++ ranges (length buffer) keyed))
  unfolding Yields ingest_loop forms ranges form
  ingest_loop-forms zero s keyed buffer indexes l y v b = absurd (omega arith)
  ingest_loop-forms (suc n) s [] buffer indexes l (s', a, g) v b =
      (s', rw (a, g, append-nil buffer, append-nil indexes) refl)
  ingest_loop-forms (suc n) s ((row, keys) ∷ keyed) buffer indexes l (s', a, g, y)
        ((ev, hk, hr, hf, len), v) b =
      let body = form (row, keys) in
      let whole = length-append body (forms keyed) in
      let size = length-append buffer body in
      let fits : ltb (2 ^ 32 - 1) (length (buffer ++ body)) ≡ false = ltb-false _ _ (omega arith) in
      let range : ℕ × ℕ = (length buffer, length buffer + length body) in
      let (t, e) =
        ingest_loop-forms n s' keyed (buffer ++ body) (indexes ++ range ∷ []) (omega arith) y v
          (omega arith) in
      let later = ap (λ m. indexes ++ range ∷ ranges m keyed) size in
      (
        t,
        rw
            (
              a,
              g,
              write_keys-form fs codec source exprs exprs row.0 keys buffer ev hk,
              write_record row keys buffer hr,
              fits,
              range_of (length buffer) (omega arith),
              range_of (length (buffer ++ body)) (omega arith),
              size,
            )
            (e
              ∙ ap₂ (λ b i. some (t, b, i)) (append_assoc buffer body (forms keyed))
                  (append_assoc indexes (range ∷ []) (ranges (length (buffer ++ body)) keyed)
                    ∙ later)),
      )

  -- A range of the buffer that holds the form of a row.
  abbrev pub Holds : List ℕ → ℕ × ℕ → Keyed x → Type 0
  Holds buffer range k = checked_slice buffer range ≡ some (form k)

  pub ranges-Holds :
      (before : List ℕ) (keyed : List (Keyed x)) (start : ℕ)
      → start ≡ length before
      → Zipped (Holds (before ++ forms keyed)) (ranges start keyed) keyed
  unfolding forms ranges
  ranges-Holds before [] start h = tt
  ranges-Holds before (k ∷ keyed) start h =
      let size = length-append before (form k) in
      let rest = ranges-Holds (before ++ form k) keyed (start + length (form k)) (omega arith) in
      (
        slice_mid before (form k) (forms keyed) start (start + length (form k)) h
            (ap (λ n. n + length (form k)) h),
        rw (append_assoc before (form k) (forms keyed)) at rest,
      )

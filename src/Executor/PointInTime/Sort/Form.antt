-- ===== src/Executor/PointInTime/Sort/Form.antt =====
-- src/executor/src/point_in_time/sort.rs: the bytes that stand for a row in the buffer.
use incresql.Prelude.{
  ℕ, ◌≡◌, refl, sym, ap, ◌∙◌, arith, some, List, [], ◌∷◌, ◌++◌, append_assoc, append-nil, map,
  length, All, ◌⊎◌, inl, inr,
}
use incresql.Data.Datum.{
  Externals, Datum, cmp, null, boolean, integer, big_int, decimal, byte_a_ref, byte_a_owned,
  byte_a_inline, jsonpath, jsonpath_ref,
}
use incresql.Prelude.{true, false}
use incresql.Data.Datum.Stored.{stored}
use incresql.Data.TupleIter.{TupleIter, Row}
use incresql.Encoding.SortOrder.{SortOrder, asc, desc}
use incresql.Encoding.Bytes.{BytesLt}
use incresql.Encoding.Datums.{DecimalCodec, as_sortable_bytes}
use incresql.Encoding.Datums.RoundTrip.{
  IsStorable, from-as_sortable_bytes, as_sortable_bytes-append,
}
use incresql.Encoding.Datums.Ordering.{IsComparable, as_sortable_bytes-Sorted}
use incresql.Functions.{Functions}
use incresql.Executor.Scalar.{eval_scalar}
use incresql.Ast.Expr.{SortExpression}
use incresql.Executor.PointInTime.Sort.{write_keys, write_datums, skip_keys, read_datums}
use Prim.Native.Nat.{Ordering}

-- A row with the values of the sort expressions on it.
abbrev pub Keyed : Externals → Type 0
Keyed x = Row x × List (Datum x)

module _ {x : Externals} (fs : Functions x) (codec : DecimalCodec x) where
  unfoldable pub keys_form : List (SortExpression fs) → List (Datum x) → List ℕ
  keys_form [] keys = []
  keys_form (e ∷ exprs) [] = []
  keys_form (e ∷ exprs) (key ∷ keys) =
      as_sortable_bytes codec key e.ordering [] ++ keys_form exprs keys

  abbrev pub EvalTo : List (SortExpression fs) → List (Datum x) → List (Datum x) → Type 0
  EvalTo [] tuple [] = Unit
  EvalTo [] tuple (key ∷ keys) = ⊥
  EvalTo (e ∷ exprs) tuple [] = ⊥
  EvalTo (e ∷ exprs) tuple (key ∷ keys) =
      (eval_scalar fs tuple e.expression ≡ some key) × EvalTo exprs tuple keys

  -- The order of two data in a column.
  abbrev pub ComesBefore : SortOrder → Datum x → Datum x → Type 0
  ComesBefore asc a b = IsComparable a b × (cmp a b ≡ Ordering.lt)
  ComesBefore desc a b = IsComparable b a × (cmp b a ≡ Ordering.lt)

  -- The first columns that differ are in order.
  abbrev pub KeysBefore : List (SortExpression fs) → List (Datum x) → List (Datum x) → Type 0
  KeysBefore [] as' bs = ⊥
  KeysBefore (e ∷ exprs) [] bs = ⊥
  KeysBefore (e ∷ exprs) (a ∷ as') [] = ⊥
  KeysBefore (e ∷ exprs) (a ∷ as') (b ∷ bs) =
      ComesBefore e.ordering a b ⊎ ((stored a ≡ stored b) × KeysBefore exprs as' bs)

  BytesLt-append_left : (xs s t : List ℕ) → BytesLt s t → BytesLt (xs ++ s) (xs ++ t)
  BytesLt-append_left [] s t h = h
  BytesLt-append_left (x ∷ xs) s t h = inr (refl, BytesLt-append_left xs s t h)

  written_stored :
      (d : Datum x) (order : SortOrder)
      → as_sortable_bytes codec (stored d) order [] ≡ as_sortable_bytes codec d order []
  unfolding as_sortable_bytes stored
  written_stored null order = refl
  written_stored (boolean true) order = refl
  written_stored (boolean false) order = refl
  written_stored (integer i) order = refl
  written_stored (big_int i) order = refl
  written_stored (decimal d) order = refl
  written_stored (byte_a_ref s) order = refl
  written_stored (byte_a_owned s) order = refl
  written_stored (byte_a_inline len s) order = refl
  written_stored (jsonpath p) order = refl
  written_stored (jsonpath_ref p) order = refl

  ComesBefore-BytesLt :
      (order : SortOrder) (a b : Datum x) (s t : List ℕ)
      → IsStorable a
      → IsStorable b
      → ComesBefore order a b
      → BytesLt (as_sortable_bytes codec a order [] ++ s) (as_sortable_bytes codec b order [] ++ t)
  ComesBefore-BytesLt asc a b s t ha hb h = as_sortable_bytes-Sorted codec a b asc ha hb h.0 h.1 s t
  ComesBefore-BytesLt desc a b s t ha hb h =
      as_sortable_bytes-Sorted codec b a desc hb ha h.0 h.1 s t

  pub KeysBefore-BytesLt :
      (exprs : List (SortExpression fs)) (k l : List (Datum x)) (s t : List ℕ)
      → All IsStorable k
      → All IsStorable l
      → KeysBefore exprs k l
      → BytesLt (keys_form exprs k ++ s) (keys_form exprs l ++ t)
  unfolding keys_form
  KeysBefore-BytesLt [] k l s t hk hl h = absurd h
  KeysBefore-BytesLt (e ∷ exprs) [] l s t hk hl h = absurd h
  KeysBefore-BytesLt (e ∷ exprs) (a ∷ k) [] s t hk hl h = absurd h
  KeysBefore-BytesLt (e ∷ exprs) (a ∷ k) (b ∷ l) s t hk hl (inl h) =
      rw
        (
          append_assoc (as_sortable_bytes codec a e.ordering []) (keys_form exprs k) s,
          append_assoc (as_sortable_bytes codec b e.ordering []) (keys_form exprs l) t,
        )
        (ComesBefore-BytesLt e.ordering a b (keys_form exprs k ++ s) (keys_form exprs l ++ t) hk.0
          hl.0 h)
  KeysBefore-BytesLt (e ∷ exprs) (a ∷ k) (b ∷ l) s t hk hl (inr (same, h)) =
      let written : as_sortable_bytes codec a e.ordering []
          ≡ as_sortable_bytes codec b e.ordering [] =
        sym (written_stored a e.ordering)
        ∙ ap (λ d. as_sortable_bytes codec d e.ordering []) same
        ∙ written_stored b e.ordering in
      rw
        (
          written,
          append_assoc (as_sortable_bytes codec b e.ordering []) (keys_form exprs k) s,
          append_assoc (as_sortable_bytes codec b e.ordering []) (keys_form exprs l) t,
        )
        (BytesLt-append_left (as_sortable_bytes codec b e.ordering []) (keys_form exprs k ++ s)
          (keys_form exprs l ++ t) (KeysBefore-BytesLt exprs k l s t hk.1 hl.1 h))

  unfoldable pub datums_form : List (Datum x) → List ℕ
  datums_form [] = []
  datums_form (datum ∷ tuple) = as_sortable_bytes codec datum asc [] ++ datums_form tuple

  module _ (source : TupleIter x) (all : List (SortExpression fs)) where
    pub write_keys-form :
        (exprs : List (SortExpression fs)) (tuple keys : List (Datum x)) (buffer : List ℕ)
        → EvalTo exprs tuple keys
        → All IsStorable keys
        → write_keys fs codec source all exprs tuple buffer ≡ some (buffer ++ keys_form exprs keys)
    unfolding write_keys keys_form
    write_keys-form [] tuple [] buffer h k = rw (append-nil buffer) refl
    write_keys-form [] tuple (d ∷ keys) buffer h k = absurd h
    write_keys-form (e ∷ exprs) tuple [] buffer h k = absurd h
    write_keys-form (e ∷ exprs) tuple (d ∷ keys) buffer h k =
        rw (h.0, as_sortable_bytes-append codec d e.ordering buffer k.0)
          (write_keys-form exprs tuple keys _ h.1 k.1
            ∙ ap some (
                append_assoc buffer (as_sortable_bytes codec d e.ordering [])
                  (keys_form exprs keys)))

    pub write_datums-form :
        (tuple : List (Datum x)) (buffer : List ℕ)
        → All IsStorable tuple
        → write_datums fs codec source all tuple buffer ≡ buffer ++ datums_form tuple
    unfolding write_datums datums_form
    write_datums-form [] buffer h = sym (append-nil buffer)
    write_datums-form (d ∷ tuple) buffer h = rw (as_sortable_bytes-append codec d asc buffer h.0) (
        write_datums-form tuple _ h.1
        ∙ append_assoc buffer (as_sortable_bytes codec d asc []) (datums_form tuple))

    pub skip_keys-form :
        (exprs : List (SortExpression fs)) (tuple keys : List (Datum x)) (rest : List ℕ)
        → EvalTo exprs tuple keys
        → All IsStorable keys
        → skip_keys fs codec source all exprs (keys_form exprs keys ++ rest) ≡ some rest
    unfolding skip_keys keys_form
    skip_keys-form [] tuple [] rest h k = refl
    skip_keys-form [] tuple (d ∷ keys) rest h k = absurd h
    skip_keys-form (e ∷ exprs) tuple [] rest h k = absurd h
    skip_keys-form (e ∷ exprs) tuple (d ∷ keys) rest h k =
        rw
          (
            append_assoc (as_sortable_bytes codec d e.ordering []) (keys_form exprs keys) rest,
            from-as_sortable_bytes codec d e.ordering (keys_form exprs keys ++ rest) k.0,
          )
          (skip_keys-form exprs tuple keys rest h.1 k.1)

    pub read_datums-form :
        (tuple old : List (Datum x)) (rest : List ℕ)
        → length old ≡ length tuple
        → All IsStorable tuple
        → read_datums fs codec source all old (datums_form tuple ++ rest)
          ≡ some (map stored tuple, rest)
    unfolding read_datums datums_form
    read_datums-form [] [] rest l h = refl
    read_datums-form [] (o ∷ old) rest l h = absurd (omega arith)
    read_datums-form (d ∷ tuple) [] rest l h = absurd (omega arith)
    read_datums-form (d ∷ tuple) (o ∷ old) rest l h =
        rw
          (
            append_assoc (as_sortable_bytes codec d asc []) (datums_form tuple) rest,
            from-as_sortable_bytes codec d asc (datums_form tuple ++ rest) h.0,
            read_datums-form tuple old rest (omega arith) h.1,
          )
          refl

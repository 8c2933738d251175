-- ===== src/Storage/IndexIter/Tuple.antt =====
-- Reading a run of columns into the tuple buffer.
use incresql.Prelude.{ℕ, ◌+◌, ◌≡◌, refl, ap, ◌∙◌, arith, some}
use incresql.Prelude.{
  List, [], ◌∷◌, ◌++◌, map, length, length-append, All, append_assoc, replicate, length-replicate,
}
use incresql.Data.Datum.{Externals, Datum}
use incresql.Encoding.SortOrder.{SortOrder, asc}
use incresql.Encoding.Datums.{DecimalCodec, as_sortable_bytes}
use incresql.Data.Datum.Stored.{stored}
use incresql.Encoding.Datums.RoundTrip.{IsStorable, from-as_sortable_bytes}
use incresql.Storage.Table.{write_pk, write_datums}
use incresql.Storage.Table.KeyForm.{write_pk-append, write_datums-write_pk}
use incresql.Storage.IndexIter.{set?, read_into}

set?-append :
    {A : Type 0} (pre post : List A) (a b : A)
    → set? (pre ++ (b ∷ post)) (length pre) a ≡ some (pre ++ (a ∷ post))
unfolding set?
set?-append [] post a b = refl
set?-append (c ∷ pre) post a b = rw (set?-append pre post a b)

module _ {x : Externals} (codec : DecimalCodec x) where
  -- A written run of columns replaces the middle of the buffer, and nothing else.
  pub read_into-write_pk :
      (pk : List SortOrder) (tuple pre mid post : List (Datum x)) (rest : List ℕ)
      → length pk ≡ length tuple
      → length mid ≡ length tuple
      → All IsStorable tuple
      → read_into codec
          (length tuple)
          (length pre)
          (pre ++ (mid ++ post))
          (write_pk codec pk tuple [] ++ rest)
        ≡ some (pre ++ (map stored tuple ++ post), rest)
  unfolding read_into write_pk
  read_into-write_pk [] [] pre [] post rest hp hm h = refl
  read_into-write_pk [] [] pre (m ∷ mid) post rest hp hm h = absurd (omega arith)
  read_into-write_pk [] (d ∷ tuple) pre mid post rest hp hm h = absurd (omega arith)
  read_into-write_pk (o ∷ pk) [] pre mid post rest hp hm h = absurd (omega arith)
  read_into-write_pk (o ∷ pk) (d ∷ tuple) pre [] post rest hp hm h = absurd (omega arith)
  read_into-write_pk (o ∷ pk) (d ∷ tuple) pre (m ∷ mid) post rest hp hm h =
      let pre' = pre ++ (stored d ∷ []) in
      let next : length pre + 1 ≡ length pre' = omega (arith, length-append pre (stored d ∷ [])) in
      rw
        (
          write_pk-append codec pk tuple (as_sortable_bytes codec d o []) h.1,
          append_assoc (as_sortable_bytes codec d o []) (write_pk codec pk tuple []) rest,
          from-as_sortable_bytes codec d o (write_pk codec pk tuple [] ++ rest) h.0,
          set?-append pre (mid ++ post) (stored d) m,
          next,
          ← append_assoc pre (stored d ∷ []) (mid ++ post),
        )
        (read_into-write_pk pk tuple pre' mid post rest (omega arith) (omega arith) h.1
          ∙ ap (λ l. some (l, rest)) (append_assoc pre (stored d ∷ []) (map stored tuple ++ post)))

  pub read_into-write_datums :
      (tuple pre mid post : List (Datum x)) (rest : List ℕ)
      → length mid ≡ length tuple
      → All IsStorable tuple
      → read_into codec
          (length tuple)
          (length pre)
          (pre ++ (mid ++ post))
          (write_datums codec tuple [] ++ rest)
        ≡ some (pre ++ (map stored tuple ++ post), rest)
  read_into-write_datums tuple pre mid post rest hm h = rw (write_datums-write_pk codec tuple []) (
      read_into-write_pk (replicate (length tuple) asc) tuple pre mid post rest
        (length-replicate (length tuple) asc) hm h)

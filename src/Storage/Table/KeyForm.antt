-- ===== src/Storage/Table/KeyForm.antt =====
-- The keys and values of the index section as concatenations.
use incresql.Prelude.{ℕ, ◌≡◌, refl, sym, ap, ◌∙◌, Bool, if◌then◌else◌}
use incresql.Prelude.{List, [], ◌∷◌, ◌++◌, length, drop, replicate, All, append-nil, append_assoc}
use incresql.Prelude.Int.{ℤ}
use incresql.Data.Datum.{Externals, Datum}
use incresql.Encoding.SortOrder.{SortOrder, asc}
use incresql.Encoding.Bytes.{push, to_be_bytes}
use incresql.Encoding.Unsigned.{write_varint_unsigned}
use incresql.Encoding.Unsigned.RoundTrip.{write_varint_unsigned-append}
use incresql.Encoding.Signed.{write_varint_signed}
use incresql.Encoding.Signed.RoundTrip.{write_varint_signed-append}
use incresql.Encoding.Datums.{DecimalCodec, as_sortable_bytes}
use incresql.Encoding.Datums.RoundTrip.{IsStorable, as_sortable_bytes-append}
use incresql.Storage.Table.{Table, write_pk, write_datums, write_range_key, write_freq_and_rest}

module _ {x : Externals} (codec : DecimalCodec x) where
  pub write_pk-append :
      (pk : List SortOrder) (tuple : List (Datum x)) (buffer : List ℕ)
      → All IsStorable tuple
      → write_pk codec pk tuple buffer ≡ buffer ++ write_pk codec pk tuple []
  unfolding write_pk
  write_pk-append [] tuple buffer h = sym (append-nil buffer)
  write_pk-append (o ∷ pk) [] buffer h = sym (append-nil buffer)
  write_pk-append (o ∷ pk) (d ∷ tuple) buffer h =
      write_pk-append pk tuple (as_sortable_bytes codec d o buffer) h.1
      ∙ ap (λ l. l ++ write_pk codec pk tuple []) (as_sortable_bytes-append codec d o buffer h.0)
      ∙ append_assoc buffer _ _
      ∙ ap (λ l. buffer ++ l) (sym (write_pk-append pk tuple (as_sortable_bytes codec d o []) h.1))

  -- The columns behind the key are written as a key in ascending order would be.
  pub write_datums-write_pk :
      (tuple : List (Datum x)) (buffer : List ℕ)
      → write_datums codec tuple buffer ≡ write_pk codec (replicate (length tuple) asc) tuple buffer
  unfolding write_datums write_pk
  write_datums-write_pk [] buffer = refl
  write_datums-write_pk (d ∷ tuple) buffer = write_datums-write_pk tuple _

  pub write_datums-append :
      (tuple : List (Datum x)) (buffer : List ℕ)
      → All IsStorable tuple
      → write_datums codec tuple buffer ≡ buffer ++ write_datums codec tuple []
  write_datums-append tuple buffer h =
      rw (write_datums-write_pk tuple buffer, write_datums-write_pk tuple [])
        (write_pk-append (replicate (length tuple) asc) tuple buffer h)

  -- The part of a key that all versions of a row share.
  unfoldable pub key_stem : Table → List (Datum x) → List ℕ
  key_stem table tuple =
      to_be_bytes 4 table.id
      ++ (write_varint_unsigned (length table.pk) asc [] ++ write_pk codec table.pk tuple [])

  pub write_range_key-key_stem :
      (table : Table) (tuple : List (Datum x)) (end : Bool)
      → All IsStorable tuple
      → write_range_key codec table tuple end
        ≡ key_stem table tuple ++ ((if end then 255 else 0) ∷ [])
  unfolding write_range_key key_stem
  write_range_key-key_stem table tuple end h =
      ap (λ l. push l (if end then 255 else 0))
        (write_pk-append table.pk tuple _ h
          ∙ ap (λ l. l ++ write_pk codec table.pk tuple [])
              (write_varint_unsigned-append (length table.pk) asc (to_be_bytes 4 table.id))
          ∙ append_assoc (to_be_bytes 4 table.id) _ _)

  pub write_freq_and_rest-append :
      (table : Table) (tuple : List (Datum x)) (freq : ℤ) (buffer : List ℕ)
      → All IsStorable (drop (length table.pk) tuple)
      → write_freq_and_rest codec table tuple freq buffer
        ≡ buffer
          ++ (write_varint_signed freq asc []
              ++ (write_varint_unsigned (length (drop (length table.pk) tuple)) asc []
                  ++ write_datums codec (drop (length table.pk) tuple) []))
  unfolding write_freq_and_rest
  write_freq_and_rest-append table tuple freq buffer h =
      let rest = drop (length table.pk) tuple in
      write_datums-append rest _ h
      ∙ ap (λ l. l ++ write_datums codec rest [])
          (write_varint_unsigned-append (length rest) asc (write_varint_signed freq asc buffer)
            ∙ ap (λ l. l ++ write_varint_unsigned (length rest) asc [])
                (write_varint_signed-append freq asc buffer))
      ∙ simp append_assoc

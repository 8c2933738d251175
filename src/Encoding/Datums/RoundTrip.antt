-- ===== src/Encoding/Datums/RoundTrip.antt =====
-- A datum that was written is read back.
use incresql.Data.Datum.Stored.{stored}
use incresql.Prelude.{
  ℕ, ◌≡◌, refl, sym, ap, ◌∙◌, append-nil, append_assoc, Bool, true, false, some, List, [], ◌∷◌,
  ◌++◌,
}
use incresql.Prelude.{take, All, All-take}
use incresql.Prelude.Int.{ℤ}
use incresql.Data.Datum.{Externals, Datum, null, boolean, byte_a_ref, byte_a_owned, byte_a_inline}
use incresql.Data.Datum.{integer, big_int, decimal, jsonpath, jsonpath_ref}
use incresql.Encoding.SortOrder.{SortOrder, asc, desc}
use incresql.Encoding.Bytes.{IsByte, bit_not}
use incresql.Encoding.Signed.{IsI64, write_varint_signed}
use incresql.Encoding.Signed.RoundTrip.{read-write_varint_signed, write_varint_signed-append}
use incresql.Encoding.Signed.I32.{IsI32, read-write_i32, write_i32-append, write_i32}
use incresql.Encoding.Chunks.{write_sortable_bytes}
use incresql.Encoding.Chunks.RoundTrip.{read-write_sortable_bytes}
use incresql.Encoding.Chunks.Form.{write_sortable_bytes-append}
use incresql.Encoding.Datums.{DecimalCodec, push_tag, as_sortable_bytes, from_sortable_bytes}

-- The values that Rust's types allow, of the types that the data module encodes by itself; a compiled
-- json path is stored as its text, which has to parse to the path again.
module _ {x : Externals} where
  abbrev pub IsStorable : Datum x → Type 0
  IsStorable null = Unit
  IsStorable (boolean b) = Unit
  IsStorable (integer i) = IsI32 i
  IsStorable (big_int i) = IsI64 i
  IsStorable (decimal d) = ⊥
  IsStorable (byte_a_ref s) = All IsByte s
  IsStorable (byte_a_owned s) = All IsByte s
  IsStorable (byte_a_inline len b) = All IsByte b
  IsStorable (jsonpath p) = All IsByte (x.original p) × (x.parse_jsonpath (x.original p) ≡ some p)
  IsStorable (jsonpath_ref p) =
      All IsByte (x.original p) × (x.parse_jsonpath (x.original p) ≡ some p)

-- A writer that appends still appends behind a tag.
behind_tag :
    (write : List ℕ → List ℕ)
    → ((b : List ℕ) → write b ≡ b ++ write [])
    → (t : ℕ) (sort_order : SortOrder) (buffer : List ℕ)
    → write (push_tag t sort_order buffer) ≡ buffer ++ write (push_tag t sort_order [])
behind_tag write law t asc buffer =
    law (push_tag t asc buffer)
    ∙ append_assoc buffer (t ∷ []) (write [])
    ∙ ap (λ l. buffer ++ l) (sym (law (t ∷ [])))
behind_tag write law t desc buffer =
    law (push_tag t desc buffer)
    ∙ append_assoc buffer (bit_not 8 t ∷ []) (write [])
    ∙ ap (λ l. buffer ++ l) (sym (law (bit_not 8 t ∷ [])))

bytes_behind_tag :
    (s : List ℕ) (t : ℕ) (sort_order : SortOrder) (buffer : List ℕ)
    → All IsByte s
    → write_sortable_bytes s sort_order (push_tag t sort_order buffer)
      ≡ buffer ++ write_sortable_bytes s sort_order (push_tag t sort_order [])
bytes_behind_tag s t o buffer h =
    behind_tag (write_sortable_bytes s o) (λ b. write_sortable_bytes-append s o b h) t o buffer

module _ {x : Externals} (codec : DecimalCodec x) where
  from-integer :
      (i : ℤ) (sort_order : SortOrder) (rest : List ℕ)
      → IsI32 i
      → from_sortable_bytes codec (write_i32 i sort_order (push_tag 4 sort_order []) ++ rest)
        ≡ some (integer i, rest)
  unfolding from_sortable_bytes
  from-integer i asc rest h = rw (write_i32-append i asc (4 ∷ []), read-write_i32 i asc rest h)
  from-integer i desc rest h = rw (write_i32-append i desc (251 ∷ []), read-write_i32 i desc rest h)

  from-big_int :
      (i : ℤ) (sort_order : SortOrder) (rest : List ℕ)
      → IsI64 i
      → from_sortable_bytes codec
          (write_varint_signed i sort_order (push_tag 5 sort_order []) ++ rest)
        ≡ some (big_int i, rest)
  unfolding from_sortable_bytes
  from-big_int i asc rest h =
      rw (write_varint_signed-append i asc (5 ∷ []), read-write_varint_signed i asc rest h)
  from-big_int i desc rest h =
      rw (write_varint_signed-append i desc (250 ∷ []), read-write_varint_signed i desc rest h)

  from-bytes :
      (s : List ℕ) (sort_order : SortOrder) (rest : List ℕ)
      → All IsByte s
      → from_sortable_bytes codec
          (write_sortable_bytes s sort_order (push_tag 7 sort_order []) ++ rest)
        ≡ some (byte_a_owned s, rest)
  unfolding from_sortable_bytes
  from-bytes s asc rest h =
      rw (write_sortable_bytes-append s asc (7 ∷ []) h, read-write_sortable_bytes s asc rest h)
  from-bytes s desc rest h =
      rw (write_sortable_bytes-append s desc (248 ∷ []) h, read-write_sortable_bytes s desc rest h)

  from-jsonpath :
      (p : x.JsonPath) (sort_order : SortOrder) (rest : List ℕ)
      → All IsByte (x.original p)
      → x.parse_jsonpath (x.original p) ≡ some p
      → from_sortable_bytes codec
          (write_sortable_bytes (x.original p) sort_order (push_tag 8 sort_order []) ++ rest)
        ≡ some (jsonpath p, rest)
  unfolding from_sortable_bytes
  from-jsonpath p asc rest h e = rw (
    write_sortable_bytes-append (x.original p) asc (8 ∷ []) h,
    read-write_sortable_bytes (x.original p) asc rest h,
    e,
  )
  from-jsonpath p desc rest h e = rw (
    write_sortable_bytes-append (x.original p) desc (247 ∷ []) h,
    read-write_sortable_bytes (x.original p) desc rest h,
    e,
  )

  from-boolean :
      (b : Bool) (sort_order : SortOrder) (rest : List ℕ)
      → from_sortable_bytes codec (as_sortable_bytes codec (boolean b) sort_order [] ++ rest)
        ≡ some (boolean b, rest)
  unfolding as_sortable_bytes from_sortable_bytes
  from-boolean true asc rest = refl
  from-boolean true desc rest = refl
  from-boolean false asc rest = refl
  from-boolean false desc rest = refl

  from-null :
      (sort_order : SortOrder) (rest : List ℕ)
      → from_sortable_bytes codec (push_tag 1 sort_order [] ++ rest) ≡ some (null, rest)
  unfolding from_sortable_bytes
  from-null asc rest = refl
  from-null desc rest = refl

  -- For every datum other than a decimal whose contents fit their types, `from_sortable_bytes`
  -- finds the sort order and the type in what `as_sortable_bytes` wrote, reads the datum back (its
  -- bytes on the heap), and leaves whatever follows it. A json path parses from its text.
  pub from-as_sortable_bytes :
      (d : Datum x) (sort_order : SortOrder) (rest : List ℕ)
      → IsStorable d
      → from_sortable_bytes codec (as_sortable_bytes codec d sort_order [] ++ rest)
        ≡ some (stored d, rest)
  unfolding as_sortable_bytes stored
  from-as_sortable_bytes null o rest h = from-null o rest
  from-as_sortable_bytes (boolean b) o rest h = from-boolean b o rest
  from-as_sortable_bytes (integer i) o rest h = from-integer i o rest h
  from-as_sortable_bytes (big_int i) o rest h = from-big_int i o rest h
  from-as_sortable_bytes (decimal d) o rest h = absurd h
  from-as_sortable_bytes (byte_a_ref s) o rest h = from-bytes s o rest h
  from-as_sortable_bytes (byte_a_owned s) o rest h = from-bytes s o rest h
  from-as_sortable_bytes (byte_a_inline len b) o rest h =
      from-bytes (take len b) o rest (All-take IsByte len b h)
  from-as_sortable_bytes (jsonpath p) o rest h = from-jsonpath p o rest h.0 h.1
  from-as_sortable_bytes (jsonpath_ref p) o rest h = from-jsonpath p o rest h.0 h.1

  -- What was in the buffer stays in front.
  pub as_sortable_bytes-append :
      (d : Datum x) (sort_order : SortOrder) (buffer : List ℕ)
      → IsStorable d
      → as_sortable_bytes codec d sort_order buffer
        ≡ buffer ++ as_sortable_bytes codec d sort_order []
  unfolding as_sortable_bytes
  as_sortable_bytes-append null o buffer h =
      behind_tag (λ b. b) (λ b. sym (append-nil b)) 1 o buffer
  as_sortable_bytes-append (boolean true) o buffer h =
      behind_tag (λ b. b) (λ b. sym (append-nil b)) 3 o buffer
  as_sortable_bytes-append (boolean false) o buffer h =
      behind_tag (λ b. b) (λ b. sym (append-nil b)) 2 o buffer
  as_sortable_bytes-append (integer i) o buffer h =
      behind_tag (write_i32 i o) (write_i32-append i o) 4 o buffer
  as_sortable_bytes-append (big_int i) o buffer h =
      behind_tag (write_varint_signed i o) (write_varint_signed-append i o) 5 o buffer
  as_sortable_bytes-append (decimal d) o buffer h = absurd h
  as_sortable_bytes-append (byte_a_ref s) o buffer h = bytes_behind_tag s 7 o buffer h
  as_sortable_bytes-append (byte_a_owned s) o buffer h = bytes_behind_tag s 7 o buffer h
  as_sortable_bytes-append (byte_a_inline len b) o buffer h =
      bytes_behind_tag (take len b) 7 o buffer (All-take IsByte len b h)
  as_sortable_bytes-append (jsonpath p) o buffer h = bytes_behind_tag (x.original p) 8 o buffer h.0
  as_sortable_bytes-append (jsonpath_ref p) o buffer h =
      bytes_behind_tag (x.original p) 8 o buffer h.0

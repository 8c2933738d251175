-- ===== src/Server/Packets/Rows.antt =====
-- A row packet tells the nulls and the texts of its columns apart.
use native.Mathlib.Omega.{arith}
use incresql.Prelude.{get_elem?-append_mid, append-nil, length-append}
use incresql.Prelude.{ℕ, zero, suc, ◌≤◌, ◌≡◌, refl, sym, ap, ◌∙◌, true, false}
use incresql.Prelude.{
  Option, none, some, List, [], ◌∷◌, ◌++◌, length, get_elem?, All, ◌==◌, if◌then◌else◌, ◌>>=◌,
  append_assoc,
}
use incresql.Encoding.Bytes.{IsU64}
use incresql.Data.Datum.{Externals, Datum, null, boolean}
use incresql.Data.DataType.{DataType}
use incresql.Server.ProtocolBase.{write_enc_string, read_enc_bytestring}
use incresql.Server.ProtocolBase.RoundTrip.{NotNull, write_enc_string-Encoded}
use incresql.Server.Packets.{write_value, write_values, write_tuple_packet}

-- A column as the protocol has it: the byte 251 for a null, else a string behind its length.
unfoldable pub read_column : List ℕ → Option (Option (List ℕ) × List ℕ)
read_column [] = none
read_column (b ∷ rest) =
    if b == 251
    then some (none, rest)
    else (read_enc_bytestring (b ∷ rest) >>= (λ (s, after). some (some s, after)))

unfoldable pub read_columns : ℕ → List ℕ → Option (List (Option (List ℕ)) × List ℕ)
read_columns zero buffer = some ([], buffer)
read_columns (suc n) buffer = do
  (column, after) ← read_column buffer
  (columns, rest) ← read_columns n after
  some (column ∷ columns, rest)

read_column-string :
    (bytes rest s : List ℕ)
    → NotNull bytes
    → read_enc_bytestring (bytes ++ rest) ≡ some (s, rest)
    → read_column (bytes ++ rest) ≡ some (some s, rest)
unfolding read_column
read_column-string [] rest s h e = absurd h
read_column-string (b ∷ bytes) rest s h e = rw (h, e) refl

module _ {x : Externals} (display : Datum x → DataType → List ℕ) where
  -- What a client sees of a value.
  abbrev pub column_text : DataType → Datum x → Option (List ℕ)
  column_text kind null = none
  column_text kind (boolean true) = some (49 ∷ [])
  column_text kind (boolean false) = some (48 ∷ [])
  column_text kind value = some (display value kind)

  abbrev pub column_texts : List DataType → List (Datum x) → List (Option (List ℕ))
  column_texts types [] = []
  column_texts [] (value ∷ tuple) = []
  column_texts (kind ∷ types) (value ∷ tuple) = column_text kind value ∷ column_texts types tuple

  abbrev pub FitsText : Option (List ℕ) → Type 0
  FitsText none = Unit
  FitsText (some s) = IsU64 (length s)

  -- The reader takes a value's bytes off again, whatever follows them.
  abbrev Column : Option (List ℕ) → List ℕ → Option (List ℕ) → Type 0
  Column text buffer written =
      (bytes : List ℕ) × (written ≡ some (buffer ++ bytes))
      × ((rest : List ℕ) → read_column (bytes ++ rest) ≡ some (text, rest))

  text_read :
      (s buffer : List ℕ)
      → IsU64 (length s)
      → Column (some s) buffer (some (write_enc_string s buffer))
  text_read s buffer h =
      let e = write_enc_string-Encoded s buffer h in
      (
        e.bytes,
        ap some e.appended,
        λ rest. read_column-string e.bytes rest s e.not_null (e.read_back rest),
      )

  -- One value, with its type at its number.
  write_value-read :
      (types : List DataType) (n : ℕ) (kind : DataType) (value : Datum x) (buffer : List ℕ)
      → get_elem? types n ≡ some kind
      → FitsText (column_text kind value)
      → Column (column_text kind value) buffer (write_value display types n value buffer)
  unfolding write_value read_column
  write_value-read types n kind null buffer e h = (251 ∷ [], refl, λ rest. refl)
  write_value-read types n kind (boolean true) buffer e h = text_read _ buffer h
  write_value-read types n kind (boolean false) buffer e h = text_read _ buffer h
  write_value-read types n kind (Datum.byte_a_ref b) buffer e h = rw (e) (text_read _ buffer h)
  write_value-read types n kind (Datum.byte_a_owned b) buffer e h = rw (e) (text_read _ buffer h)
  write_value-read types n kind (Datum.byte_a_inline m b) buffer e h = rw (e) (text_read _ buffer h)
  write_value-read types n kind (Datum.integer i) buffer e h = rw (e) (text_read _ buffer h)
  write_value-read types n kind (Datum.big_int i) buffer e h = rw (e) (text_read _ buffer h)
  write_value-read types n kind (Datum.decimal d) buffer e h = rw (e) (text_read _ buffer h)
  write_value-read types n kind (Datum.jsonpath j) buffer e h = rw (e) (text_read _ buffer h)
  write_value-read types n kind (Datum.jsonpath_ref j) buffer e h = rw (e) (text_read _ buffer h)

  write_values-read :
      (all before types : List DataType) (n : ℕ) (tuple : List (Datum x)) (buffer : List ℕ)
      → all ≡ before ++ types
      → length before ≡ n
      → length tuple ≤ length types
      → All FitsText (column_texts types tuple)
      → (bytes : List ℕ) × (write_values display all n tuple buffer ≡ some (buffer ++ bytes))
        × ((rest : List ℕ)
            → read_columns (length tuple) (bytes ++ rest) ≡ some (column_texts types tuple, rest))
  unfolding write_values read_columns
  write_values-read all before types n [] buffer e k fits h =
      ([], ap some (sym (append-nil buffer)), λ rest. refl)
  write_values-read all before [] n (value ∷ tuple) buffer e k fits h = absurd (omega arith)
  write_values-read all before (kind ∷ types) n (value ∷ tuple) buffer e k fits (h, hs) =
      let at : get_elem? all n ≡ some kind =
        ap (λ ts. get_elem? ts n) e ∙ get_elem?-append_mid before types kind n k in
      let (first, written, read_first) = write_value-read all n kind value buffer at h in
      let (others, written_others, read_others) =
        write_values-read all (before ++ (kind ∷ [])) types (suc n) tuple (buffer ++ first)
          (e ∙ sym (append_assoc before (kind ∷ []) types))
          (omega (arith, length-append before (kind ∷ []))) (omega arith) hs in
      (
        first ++ others,
        rw (written) (written_others ∙ ap some (append_assoc buffer first others)),
        λ rest.
            rw (append_assoc first others rest, read_first (others ++ rest), read_others rest) refl,
      )

  -- A row with a type for each value, whose texts have fewer than 2^64 bytes, is written behind
  -- the buffer, and a client reads the nulls and the texts back, with what follows left over.
  pub read_columns-write_tuple_packet :
      (types : List DataType) (tuple : List (Datum x)) (buffer rest : List ℕ)
      → length tuple ≤ length types
      → All FitsText (column_texts types tuple)
      → (bytes : List ℕ) × (write_tuple_packet display types tuple buffer ≡ some (buffer ++ bytes))
        × (read_columns (length tuple) (bytes ++ rest) ≡ some (column_texts types tuple, rest))
  unfolding write_tuple_packet
  read_columns-write_tuple_packet types tuple buffer rest fits h =
      let (bytes, written, back) =
        write_values-read types [] types 0 tuple buffer refl refl fits h in
      (bytes, written, back rest)

-- ===== src/Server/Packets/Handshake/Attrs.antt =====
-- The loop over the attributes of a connection: its fuel, and what it reads of what was written.
use incresql.Prelude.{ℕ, zero, suc, ◌+◌, ◌≤◌, ◌<◌, ◌≡◌, refl, sym, ap, ◌∙◌}
use incresql.Prelude.{
  Option, some, List, [], ◌∷◌, ◌++◌, length, All, arith, ◌>>=◌, bind-split, bind-ap,
}
use incresql.Encoding.Bytes.{IsU64, read_le, split_bytes, from_le_bytes}
use incresql.Server.ProtocolBase.{
  read_int_2, read_int_3, read_enc_int, read_fixed_length_string, read_fixed_length_bytestring,
  read_enc_string, read_enc_bytestring, write_enc_string,
}
use incresql.Prelude.{none, append_assoc, Bool, true, false, Bool-cases, inl, inr, if◌then◌else◌}
use incresql.Data.Datum.{bytes_eq}
use incresql.Data.Datum.Equality.{bytes_eq→≡, bytes_eq_symm}
use incresql.Server.ProtocolBase.{write_enc_int}
use incresql.Server.ProtocolBase.RoundTrip.{write_enc_string-Encoded, read-write_enc_int}
use incresql.Server.Packets.Handshake.{Attributes, insert, read_attrs, read_connection_attrs}

split_bytes-length :
    (k : ℕ) (buffer s rest : List ℕ)
    → split_bytes k buffer ≡ some (s, rest)
    → length rest + k ≡ length buffer
unfolding split_bytes
split_bytes-length zero buffer s rest h = ground arith
split_bytes-length (suc k) [] s rest h = absurd (ground arith)
split_bytes-length (suc k) (b ∷ buffer) s rest h =
    let ((bs, after), e, found) =
      bind-split (split_bytes k buffer) (λ u. some (b ∷ u.0, u.1)) (s, rest) h in
    let ih = split_bytes-length k buffer bs after e in
    let same : after ≡ rest = ground arith in omega (arith, ih, ap length same)

read_le-length :
    (k n : ℕ) (buffer rest : List ℕ)
    → read_le k buffer ≡ some (n, rest)
    → length rest ≤ length buffer
unfolding read_le
read_le-length k n buffer rest h =
    let ((bs, after), e, k') =
      bind-split (split_bytes k buffer) (λ u. some (from_le_bytes u.0, u.1)) (n, rest) h in
    let ih = split_bytes-length k buffer bs after e in
    let same : after ≡ rest = ground arith in omega (arith, ih, ap length same)

read_int_3-length :
    (n : ℕ) (buffer rest : List ℕ)
    → read_int_3 buffer ≡ some (n, rest)
    → length rest ≤ length buffer
unfolding read_int_3
read_int_3-length n [] rest h = absurd (ground arith)
read_int_3-length n (a ∷ []) rest h = absurd (ground arith)
read_int_3-length n (a ∷ b ∷ []) rest h = absurd (ground arith)
read_int_3-length n (a ∷ b ∷ c ∷ buffer) rest h =
    let same : buffer ≡ rest = ground arith in omega (arith, ap length same)

same_rest :
    (b n : ℕ) (buffer rest : List ℕ)
    → ◌≡◌ {A = Option (ℕ × List ℕ)} (some (b, buffer)) (some (n, rest))
    → length rest ≡ length buffer
same_rest b n buffer rest h = let same : rest ≡ buffer = ground arith in ap length same

-- A length-encoded integer takes a byte at least.
read_enc_int-length :
    (n : ℕ) (buffer rest : List ℕ)
    → read_enc_int buffer ≡ some (n, rest)
    → length rest < length buffer
unfolding read_enc_int read_int_2
read_enc_int-length n [] rest h = absurd (ground arith)
read_enc_int-length n (b ∷ buffer) rest h = ground (
  arith,
  read_le-length 2 n buffer rest,
  read_int_3-length n buffer rest,
  read_le-length 8 n buffer rest,
  same_rest b n buffer rest,
)

-- A string behind its length takes a byte at least.
read_enc_string-length :
    (buffer s rest : List ℕ) → read_enc_string buffer ≡ some (s, rest) → length rest < length buffer
unfolding read_enc_string read_fixed_length_string read_fixed_length_bytestring read_enc_int
read_enc_string-length buffer s rest h =
    let ((size, after), e, k) =
      bind-split (read_enc_int buffer) (λ u. split_bytes u.0 u.1) (s, rest) h in
    omega (arith, read_enc_int-length size buffer after e, split_bytes-length size after s rest k)

read_attrs-fuels :
    (n m : ℕ) (buffer : List ℕ) (attrs : Attributes)
    → length buffer ≤ n
    → length buffer ≤ m
    → read_attrs n buffer attrs ≡ read_attrs m buffer attrs
unfolding read_attrs
read_attrs-fuels n m [] attrs hn hm = refl
read_attrs-fuels zero m (b ∷ buffer) attrs hn hm = absurd (omega arith)
read_attrs-fuels (suc n) zero (b ∷ buffer) attrs hn hm = absurd (omega arith)
read_attrs-fuels (suc n) (suc m) (b ∷ buffer) attrs hn hm =
    bind-ap (read_enc_string (b ∷ buffer))
      (λ k. read_enc_string k.1 >>= (λ v. read_attrs n v.1 (insert k.0 v.0 attrs)))
      (λ k. read_enc_string k.1 >>= (λ v. read_attrs m v.1 (insert k.0 v.0 attrs)))
      (λ k e.
        bind-ap (read_enc_string k.1) (λ v. read_attrs n v.1 (insert k.0 v.0 attrs))
          (λ v. read_attrs m v.1 (insert k.0 v.0 attrs))
          (λ v f.
            let short_k = read_enc_string-length (b ∷ buffer) k.0 k.1 e in
            let short_v = read_enc_string-length k.1 v.0 v.1 f in
            read_attrs-fuels n m v.1 (insert k.0 v.0 attrs) (omega arith) (omega arith)))

-- More fuel than bytes changes nothing, so the loop does not stop for want of fuel.
pub read_attrs-fuel :
    (fuel : ℕ) (buffer : List ℕ) (attrs : Attributes)
    → length buffer ≤ fuel
    → read_attrs fuel buffer attrs ≡ read_attrs (length buffer) buffer attrs
read_attrs-fuel fuel buffer attrs h =
    read_attrs-fuels fuel (length buffer) buffer attrs h (omega arith)

-- The attributes as a client writes them, and the map that they make, the last of a key winning.
unfoldable pub attr_bytes : Attributes → List ℕ
attr_bytes [] = []
attr_bytes ((key, value) ∷ attrs) =
    write_enc_string value (write_enc_string key []) ++ attr_bytes attrs

unfoldable pub insert_all : Attributes → Attributes → Attributes
insert_all [] found = found
insert_all ((key, value) ∷ attrs) found = insert_all attrs (insert key value found)

abbrev pub IsShort : List ℕ × List ℕ → Type 0
IsShort (key, value) = IsU64 (length key) × IsU64 (length value)

-- One round of the loop on a key and a value that are there.
read_attrs-round :
    (n : ℕ) (buffer key value after rest : List ℕ) (found : Attributes)
    → read_enc_string buffer ≡ some (key, after)
    → read_enc_string after ≡ some (value, rest)
    → read_attrs (suc n) buffer found ≡ read_attrs n rest (insert key value found)
unfolding read_attrs
read_attrs-round n [] key value after rest found e f =
    let short = read_enc_string-length [] key after e in absurd (omega (arith, short))
read_attrs-round n (b ∷ buffer) key value after rest found e f = rw (e, f) refl

read_attrs-attr_bytes :
    (n : ℕ) (attrs found : Attributes)
    → length attrs ≤ n
    → All IsShort attrs
    → read_attrs n (attr_bytes attrs) found ≡ some (insert_all attrs found)
unfolding read_attrs attr_bytes insert_all read_enc_string read_enc_bytestring
    read_fixed_length_string read_fixed_length_bytestring
read_attrs-attr_bytes n [] found h k = refl
read_attrs-attr_bytes zero (a ∷ attrs) found h k = absurd (omega arith)
read_attrs-attr_bytes (suc n) ((key, value) ∷ attrs) found h ((hk, hv), ks) =
    let first = write_enc_string-Encoded key [] hk in
    let second = write_enc_string-Encoded value (write_enc_string key []) hv in
    let form : attr_bytes ((key, value) ∷ attrs)
        ≡ first.bytes ++ (second.bytes ++ attr_bytes attrs) =
      ap (λ t. t ++ attr_bytes attrs) (second.appended ∙ ap (λ t. t ++ second.bytes) first.appended)
      ∙ append_assoc first.bytes second.bytes (attr_bytes attrs) in
    ap (λ t. read_attrs (suc n) t found) form
    ∙ read_attrs-round n _ key value _ (attr_bytes attrs) found (first.read_back _)
        (second.read_back _)
    ∙ read_attrs-attr_bytes n attrs (insert key value found) (omega arith) ks

-- The value of a key in a hash map, and the last that a client wrote for it.
unfoldable pub get_attr : List ℕ → Attributes → Option (List ℕ)
get_attr key [] = none
get_attr key ((k, v) ∷ attrs) = if bytes_eq key k then some v else get_attr key attrs

abbrev or_else : Option (List ℕ) → Option (List ℕ) → Option (List ℕ)
or_else none other = other
or_else (some v) other = some v

unfoldable pub last_value : List ℕ → Attributes → Option (List ℕ)
last_value key [] = none
last_value key ((k, v) ∷ attrs) =
    or_else (last_value key attrs) (if bytes_eq key k then some v else none)

-- An insertion of a key's value, read back under any key.
get_attr-insert :
    (key k v : List ℕ) (found : Attributes)
    → get_attr key (insert k v found) ≡ (if bytes_eq key k then some v else get_attr key found)
unfolding get_attr insert
get_attr-insert key k v [] = refl
get_attr-insert key k v ((k', v') ∷ found) = elim (Bool-cases (bytes_eq k k')) [
  | inl e ↦
      let same : bytes_eq key k' ≡ bytes_eq key k = ap (bytes_eq key) (sym (bytes_eq→≡ k k' e)) in
      elim (Bool-cases (bytes_eq key k)) [ inl f ↦ rw (e, f) refl | inr f ↦ rw (e, same, f) refl ]
  | inr e ↦ elim (Bool-cases (bytes_eq key k')) [
    | inl f ↦
        let apart : bytes_eq key k ≡ false =
          ap (λ l. bytes_eq l k) (bytes_eq→≡ key k' f) ∙ bytes_eq_symm k' k ∙ e in
        rw (e, f, apart) refl
    | inr f ↦ rw (e, f) (get_attr-insert key k v found)
  ]
]

or_else-if :
    (o : Option (List ℕ)) (b : Bool) (v : List ℕ) (g : Option (List ℕ))
    → or_else o (if b then some v else g) ≡ or_else (or_else o (if b then some v else none)) g
or_else-if none true v g = refl
or_else-if none false v g = refl
or_else-if (some w) b v g = refl

get_attr-insert_all :
    (key : List ℕ) (attrs found : Attributes)
    → get_attr key (insert_all attrs found) ≡ or_else (last_value key attrs) (get_attr key found)
unfolding insert_all last_value
get_attr-insert_all key [] found = refl
get_attr-insert_all key ((k, v) ∷ attrs) found =
    get_attr-insert_all key attrs (insert k v found)
    ∙ ap (or_else (last_value key attrs)) (get_attr-insert key k v found)
    ∙ or_else-if (last_value key attrs) (bytes_eq key k) v (get_attr key found)

or_else-none : (o : Option (List ℕ)) → or_else o none ≡ o
or_else-none none = refl
or_else-none (some v) = refl

-- The attributes that a client sends behind their size are read as a map that has under each key
-- the last value that the client wrote for it, and nothing under other keys; no bytes are left,
-- and the loop has fuel enough. Keys, values and the whole have fewer than 2^64 bytes.
pub read_connection_attrs-attr_bytes :
    (attrs : Attributes) (key : List ℕ)
    → All IsShort attrs
    → IsU64 (length (attr_bytes attrs))
    → (found : Attributes) × (read_connection_attrs
          (write_enc_int (length (attr_bytes attrs)) [] ++ attr_bytes attrs)
        ≡ some (found, []))
      × (get_attr key found ≡ last_value key attrs)
unfolding read_connection_attrs get_attr
read_connection_attrs-attr_bytes attrs key h k =
    let (bytes, appended, back, small) =
      read-write_enc_int (length (attr_bytes attrs)) [] (attr_bytes attrs) k in
    let n = length (attr_bytes attrs) + length attrs in
    let enough = read_attrs-fuel n (attr_bytes attrs) [] (omega arith) in
    let found = read_attrs-attr_bytes n attrs [] (omega arith) h in
    (
      insert_all attrs [],
      rw (appended, back, sym enough, found) refl,
      get_attr-insert_all key attrs [] ∙ or_else-none (last_value key attrs),
    )

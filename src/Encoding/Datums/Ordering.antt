-- ===== src/Encoding/Datums/Ordering.antt =====
-- The written form of a datum sorts as `Datum::cmp` orders the datums.
use incresql.Prelude.{ℕ, ◌<◌, ◌≡◌, refl, ◌∙◌, inl, inr, true, false, List, [], ◌∷◌, ◌++◌}
use incresql.Prelude.{take, All, All-take, arith}
use incresql.Prelude.Int.{ℤ, ◌<ℤ◌}
use incresql.Data.Datum.{Externals, Datum, null, boolean, byte_a_ref, byte_a_owned, byte_a_inline}
use incresql.Data.Datum.{integer, big_int, decimal, jsonpath, jsonpath_ref, cmp, bytes_cmp, int_cmp}
use incresql.Encoding.SortOrder.{SortOrder, asc, desc}
use incresql.Encoding.Bytes.{IsByte, bit_not, BytesLt}
use incresql.Encoding.Signed.{IsI64, write_varint_signed}
use incresql.Encoding.Signed.RoundTrip.{write_varint_signed-append}
use incresql.Encoding.Signed.Ordering.{
  write_varint_signed-BytesLt, write_varint_signed-BytesLt_desc,
}
use incresql.Encoding.Signed.I32.{IsI32-IsI64, write_i32}
use incresql.Encoding.Chunks.{write_sortable_bytes}
use incresql.Encoding.Chunks.Form.{write_sortable_bytes-append}
use incresql.Encoding.Chunks.Ordering.{
  write_sortable_bytes-BytesLt, write_sortable_bytes-BytesLt_desc,
}
use incresql.Encoding.Datums.{DecimalCodec, push_tag, as_sortable_bytes}
use incresql.Encoding.Datums.RoundTrip.{IsStorable}
use Prim.Native.Nat.{Ordering}

bytes_cmp-BytesLt : (xs ys : List ℕ) → bytes_cmp xs ys ≡ Ordering.lt → BytesLt xs ys
unfolding bytes_cmp
bytes_cmp-BytesLt [] [] h = cc
bytes_cmp-BytesLt [] (y ∷ ys) h = tt
bytes_cmp-BytesLt (x ∷ xs) [] h = cc
bytes_cmp-BytesLt (x ∷ xs) (y ∷ ys) h = ground (arith, bytes_cmp-BytesLt xs ys)

int_cmp-lt : (i j : ℤ) → int_cmp i j ≡ Ordering.lt → i <ℤ j
int_cmp-lt i j h = ground arith

module _ {x : Externals} where
  -- The tag that the ascending format begins with.
  unfoldable pub type_tag : Datum x → ℕ
  type_tag null = 1
  type_tag (boolean false) = 2
  type_tag (boolean true) = 3
  type_tag (integer i) = 4
  type_tag (big_int i) = 5
  type_tag (decimal d) = 6
  type_tag (byte_a_ref s) = 7
  type_tag (byte_a_owned s) = 7
  type_tag (byte_a_inline len b) = 7
  type_tag (jsonpath p) = 8
  type_tag (jsonpath_ref p) = 8

  -- Two datums of one type, or null before any datum. Decimals are left out: their order is external.
  abbrev pub IsComparable : Datum x → Datum x → Type 0
  IsComparable null b = Unit
  IsComparable (boolean a) (boolean b) = Unit
  IsComparable (integer i) (integer j) = Unit
  IsComparable (big_int i) (big_int j) = Unit
  IsComparable (byte_a_ref s) b = type_tag b ≡ 7
  IsComparable (byte_a_owned s) b = type_tag b ≡ 7
  IsComparable (byte_a_inline len s) b = type_tag b ≡ 7
  IsComparable (jsonpath p) b = type_tag b ≡ 8
  IsComparable (jsonpath_ref p) b = type_tag b ≡ 8
  IsComparable _ _ = ⊥

  -- What follows the tag.
  unfoldable pub payload : Datum x → SortOrder → List ℕ
  payload null sort_order = []
  payload (boolean b) sort_order = []
  payload (integer i) sort_order = write_varint_signed i sort_order []
  payload (big_int i) sort_order = write_varint_signed i sort_order []
  payload (decimal d) sort_order = []
  payload (byte_a_ref s) sort_order = write_sortable_bytes s sort_order []
  payload (byte_a_owned s) sort_order = write_sortable_bytes s sort_order []
  payload (byte_a_inline len s) sort_order = write_sortable_bytes (take len s) sort_order []
  payload (jsonpath p) sort_order = write_sortable_bytes (x.original p) sort_order []
  payload (jsonpath_ref p) sort_order = write_sortable_bytes (x.original p) sort_order []

-- In ascending order the first string comes first, in descending order the second; whatever follows.
abbrev pub Sorted : SortOrder → List ℕ → List ℕ → Type 0
Sorted asc xs ys = (s r : List ℕ) → BytesLt (xs ++ s) (ys ++ r)
Sorted desc xs ys = (s r : List ℕ) → BytesLt (ys ++ s) (xs ++ r)

-- The byte that `push_tag` writes.
abbrev tag_byte : ℕ → SortOrder → ℕ
tag_byte t asc = t
tag_byte t desc = bit_not 8 t

behind_tag :
    (t : ℕ) (o : SortOrder) (xs ys : List ℕ)
    → Sorted o xs ys
    → Sorted o (tag_byte t o ∷ xs) (tag_byte t o ∷ ys)
behind_tag t asc xs ys h = λ s r. inr (refl, h s r)
behind_tag t desc xs ys h = λ s r. inr (refl, h s r)

by_tag :
    (t u : ℕ) (o : SortOrder) (xs ys : List ℕ)
    → t < u
    → u < 256
    → Sorted o (tag_byte t o ∷ xs) (tag_byte u o ∷ ys)
by_tag t u asc xs ys h k = λ s r. inl h
by_tag t u desc xs ys h k = λ s r. inl (omega arith)

signed-Sorted :
    (i j : ℤ) (o : SortOrder)
    → i <ℤ j
    → IsI64 i
    → IsI64 j
    → Sorted o (write_varint_signed i o []) (write_varint_signed j o [])
signed-Sorted i j asc h hi hj = λ s r. write_varint_signed-BytesLt i j s r h hi hj
signed-Sorted i j desc h hi hj = λ s r. write_varint_signed-BytesLt_desc i j s r h hi hj

bytes-Sorted :
    (xs ys : List ℕ) (o : SortOrder)
    → bytes_cmp xs ys ≡ Ordering.lt
    → All IsByte xs
    → All IsByte ys
    → Sorted o (write_sortable_bytes xs o []) (write_sortable_bytes ys o [])
bytes-Sorted xs ys asc h hx hy =
    λ s r. write_sortable_bytes-BytesLt xs ys s r hx hy (bytes_cmp-BytesLt xs ys h)
bytes-Sorted xs ys desc h hx hy =
    λ s r. write_sortable_bytes-BytesLt_desc xs ys r s hx hy (bytes_cmp-BytesLt xs ys h)

push_tag-append : (t : ℕ) (o : SortOrder) (xs : List ℕ) → push_tag t o [] ++ xs ≡ tag_byte t o ∷ xs
push_tag-append t asc xs = refl
push_tag-append t desc xs = refl

push_tag-nil : (t : ℕ) (o : SortOrder) → push_tag t o [] ≡ tag_byte t o ∷ []
push_tag-nil t asc = refl
push_tag-nil t desc = refl

module _ {x : Externals} (codec : DecimalCodec x) where
  as_sortable_bytes-payload :
      (d : Datum x) (o : SortOrder)
      → IsStorable d
      → as_sortable_bytes codec d o [] ≡ tag_byte (type_tag d) o ∷ payload d o
  unfolding as_sortable_bytes type_tag payload write_i32
  as_sortable_bytes-payload null o h = push_tag-nil 1 o
  as_sortable_bytes-payload (boolean false) o h = push_tag-nil 2 o
  as_sortable_bytes-payload (boolean true) o h = push_tag-nil 3 o
  as_sortable_bytes-payload (integer i) o h =
      write_varint_signed-append i o (push_tag 4 o []) ∙ push_tag-append 4 o _
  as_sortable_bytes-payload (big_int i) o h =
      write_varint_signed-append i o (push_tag 5 o []) ∙ push_tag-append 5 o _
  as_sortable_bytes-payload (decimal d) o h = absurd h
  as_sortable_bytes-payload (byte_a_ref s) o h =
      write_sortable_bytes-append s o (push_tag 7 o []) h ∙ push_tag-append 7 o _
  as_sortable_bytes-payload (byte_a_owned s) o h =
      write_sortable_bytes-append s o (push_tag 7 o []) h ∙ push_tag-append 7 o _
  as_sortable_bytes-payload (byte_a_inline len s) o h =
      write_sortable_bytes-append (take len s) o (push_tag 7 o []) (All-take IsByte len s h)
      ∙ push_tag-append 7 o _
  as_sortable_bytes-payload (jsonpath p) o h =
      write_sortable_bytes-append (x.original p) o (push_tag 8 o []) h.0 ∙ push_tag-append 8 o _
  as_sortable_bytes-payload (jsonpath_ref p) o h =
      write_sortable_bytes-append (x.original p) o (push_tag 8 o []) h.0 ∙ push_tag-append 8 o _

module _ {x : Externals} where
  abbrev form_of : Datum x → SortOrder → List ℕ
  form_of d o = tag_byte (type_tag d) o ∷ payload d o

  null_first :
      (b : Datum x) (o : SortOrder)
      → cmp {x = x} null b ≡ Ordering.lt
      → Sorted o (form_of null o) (form_of b o)
  unfolding cmp type_tag
  null_first null o h = cc
  null_first (boolean false) o h = by_tag 1 2 o _ _ (omega arith) (omega arith)
  null_first (boolean true) o h = by_tag 1 3 o _ _ (omega arith) (omega arith)
  null_first (integer i) o h = by_tag 1 4 o _ _ (omega arith) (omega arith)
  null_first (big_int i) o h = by_tag 1 5 o _ _ (omega arith) (omega arith)
  null_first (decimal d) o h = by_tag 1 6 o _ _ (omega arith) (omega arith)
  null_first (byte_a_ref s) o h = by_tag 1 7 o _ _ (omega arith) (omega arith)
  null_first (byte_a_owned s) o h = by_tag 1 7 o _ _ (omega arith) (omega arith)
  null_first (byte_a_inline len s) o h = by_tag 1 7 o _ _ (omega arith) (omega arith)
  null_first (jsonpath p) o h = by_tag 1 8 o _ _ (omega arith) (omega arith)
  null_first (jsonpath_ref p) o h = by_tag 1 8 o _ _ (omega arith) (omega arith)

  -- A byte string against a datum that holds one.
  bytes_first :
      (s : List ℕ) (b : Datum x) (o : SortOrder)
      → All IsByte s
      → IsStorable b
      → type_tag b ≡ 7
      → cmp {x = x} (byte_a_owned s) b ≡ Ordering.lt
      → Sorted o (form_of (byte_a_owned s) o) (form_of b o)
  unfolding cmp type_tag payload
  bytes_first s (byte_a_ref t) o hs hb e h = behind_tag 7 o _ _ (bytes-Sorted s t o h hs hb)
  bytes_first s (byte_a_owned t) o hs hb e h = behind_tag 7 o _ _ (bytes-Sorted s t o h hs hb)
  bytes_first s (byte_a_inline len t) o hs hb e h =
      behind_tag 7 o _ _ (bytes-Sorted s (take len t) o h hs (All-take IsByte len t hb))
  bytes_first s null o hs hb e h = absurd (omega arith)
  bytes_first s (boolean false) o hs hb e h = absurd (omega arith)
  bytes_first s (boolean true) o hs hb e h = absurd (omega arith)
  bytes_first s (integer i) o hs hb e h = absurd (omega arith)
  bytes_first s (big_int i) o hs hb e h = absurd (omega arith)
  bytes_first s (decimal d) o hs hb e h = absurd hb
  bytes_first s (jsonpath p) o hs hb e h = absurd (omega arith)
  bytes_first s (jsonpath_ref p) o hs hb e h = absurd (omega arith)

  -- A json path against a json path.
  jsonpath_first :
      (p : x.JsonPath) (b : Datum x) (o : SortOrder)
      → All IsByte (x.original p)
      → IsStorable b
      → type_tag b ≡ 8
      → cmp {x = x} (jsonpath p) b ≡ Ordering.lt
      → Sorted o (form_of (jsonpath p) o) (form_of b o)
  unfolding cmp type_tag payload
  jsonpath_first p (jsonpath q) o hp hb e h = behind_tag 8 o _ _ (bytes-Sorted _ _ o h hp hb.0)
  jsonpath_first p (jsonpath_ref q) o hp hb e h = behind_tag 8 o _ _ (bytes-Sorted _ _ o h hp hb.0)
  jsonpath_first p null o hp hb e h = absurd (omega arith)
  jsonpath_first p (boolean false) o hp hb e h = absurd (omega arith)
  jsonpath_first p (boolean true) o hp hb e h = absurd (omega arith)
  jsonpath_first p (integer i) o hp hb e h = absurd (omega arith)
  jsonpath_first p (big_int i) o hp hb e h = absurd (omega arith)
  jsonpath_first p (decimal d) o hp hb e h = absurd hb
  jsonpath_first p (byte_a_ref s) o hp hb e h = absurd (omega arith)
  jsonpath_first p (byte_a_owned s) o hp hb e h = absurd (omega arith)
  jsonpath_first p (byte_a_inline len s) o hp hb e h = absurd (omega arith)

  form_of-Sorted :
      (a b : Datum x) (o : SortOrder)
      → IsStorable a
      → IsStorable b
      → IsComparable a b
      → cmp a b ≡ Ordering.lt
      → Sorted o (form_of a o) (form_of b o)
  unfolding cmp type_tag payload
  form_of-Sorted null b o ha hb k h = null_first b o h
  form_of-Sorted (boolean false) (boolean false) o ha hb k h = cc
  form_of-Sorted (boolean false) (boolean true) o ha hb k h =
      by_tag 2 3 o _ _ (omega arith) (omega arith)
  form_of-Sorted (boolean true) (boolean false) o ha hb k h = cc
  form_of-Sorted (boolean true) (boolean true) o ha hb k h = cc
  form_of-Sorted (integer i) (integer j) o ha hb k h =
      behind_tag 4 o _ _
        (signed-Sorted i j o (int_cmp-lt i j h) (IsI32-IsI64 i ha) (IsI32-IsI64 j hb))
  form_of-Sorted (big_int i) (big_int j) o ha hb k h =
      behind_tag 5 o _ _ (signed-Sorted i j o (int_cmp-lt i j h) ha hb)
  form_of-Sorted (byte_a_ref s) b o ha hb k h = bytes_first s b o ha hb k h
  form_of-Sorted (byte_a_owned s) b o ha hb k h = bytes_first s b o ha hb k h
  form_of-Sorted (byte_a_inline len s) b o ha hb k h =
      bytes_first (take len s) b o (All-take IsByte len s ha) hb k h
  form_of-Sorted (jsonpath p) b o ha hb k h = jsonpath_first p b o ha.0 hb k h
  form_of-Sorted (jsonpath_ref p) b o ha hb k h = jsonpath_first p b o ha.0 hb k h
  form_of-Sorted _ _ o ha hb k h = absurd k

module _ {x : Externals} (codec : DecimalCodec x) where
  -- Where `cmp` finds one datum smaller than another of its type, or null smaller than any other,
  -- the encodings are in that order too, in descending order the other way round, whatever bytes
  -- follow the two. The data fit their types, a json path parses from its text, and decimals
  -- are left out.
  pub as_sortable_bytes-Sorted :
      (a b : Datum x) (sort_order : SortOrder)
      → IsStorable a
      → IsStorable b
      → IsComparable a b
      → cmp a b ≡ Ordering.lt
      → Sorted sort_order
          (as_sortable_bytes codec a sort_order [])
          (as_sortable_bytes codec b sort_order [])
  as_sortable_bytes-Sorted a b o ha hb k h =
      rw (as_sortable_bytes-payload codec a o ha, as_sortable_bytes-payload codec b o hb)
        (form_of-Sorted a b o ha hb k h)

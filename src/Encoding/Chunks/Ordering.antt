-- ===== src/Encoding/Chunks/Ordering.antt =====
-- The written form of a byte string sorts as the string does.
use incresql.Prelude.{ℕ, zero, suc, ◌≤◌, ◌<◌, ◌≡◌, refl, ap, ap₂, arith}
use incresql.Prelude.{◌⊎◌, inl, inr, true, false, Bool, ltb, if◌then◌else◌, lt→ltb}
use incresql.Prelude.{List, [], ◌∷◌, ◌++◌, length, drop, All, All-append, All-drop, length-drop}
use incresql.Encoding.SortOrder.{asc, desc}
use incresql.Encoding.Bytes.{IsByte, BytesLt, Before}
use incresql.Encoding.Bytes.Order.{Before-BytesLt, Before-append, Before-append_left, Before-not}
use incresql.Encoding.Chunks.{write_sortable_bytes}
use incresql.Encoding.Chunks.Form.{
  pad, marker, chunks, flip, marker-long, marker-le, pad-IsByte, write_sortable_bytes-chunks,
}

pad_nil-Before : (k : ℕ) (ys : List ℕ) → Before (pad k []) (pad k ys) ⊎ (pad k [] ≡ pad k ys)
unfolding pad
pad_nil-Before zero ys = inr refl
pad_nil-Before (suc k) [] = inr refl
pad_nil-Before (suc k) (zero ∷ ys) = elim (pad_nil-Before k ys) [
  | inl h ↦ inl (inr (refl, h))
  | inr e ↦ inr (ap (λ l. 0 ∷ l) e)
]
pad_nil-Before (suc k) (suc y ∷ ys) = inl (inl (omega arith))

-- How two chunks compare: by a byte, by the end of the first string, or in the next chunk.
abbrev Verdict : ℕ → List ℕ → List ℕ → Type 0
Verdict k xs ys =
    Before (pad k xs) (pad k ys)
    ⊎ ((pad k xs ≡ pad k ys)
        × (((length xs ≤ k) × (length xs < length ys))
            ⊎ ((k < length xs) × (k < length ys) × BytesLt (drop k xs) (drop k ys))))

verdict : (k : ℕ) (xs ys : List ℕ) → BytesLt xs ys → Verdict k xs ys
unfolding pad
verdict k xs [] h = absurd h
verdict zero [] (y ∷ ys) h = inr (refl, inl (omega arith, omega arith))
verdict zero (x ∷ xs) (y ∷ ys) h = inr (refl, inr (omega arith, omega arith, h))
verdict (suc k) [] (zero ∷ ys) h = elim (pad_nil-Before k ys) [
  | inl b ↦ inl (inr (refl, b))
  | inr e ↦ inr (ap (λ l. 0 ∷ l) e, inl (omega arith, omega arith))
]
verdict (suc k) [] (suc y ∷ ys) h = inl (inl (omega arith))
verdict (suc k) (x ∷ xs) (y ∷ ys) (inl h) = inl (inl h)
verdict (suc k) (x ∷ xs) (y ∷ ys) (inr (e, h)) = elim (verdict k xs ys h) [
  | inl b ↦ inl (inr (e, b))
  | inr (p, inl (s, l)) ↦ inr (ap₂ (λ a l. a ∷ l) e p, inl (omega arith, omega arith))
  | inr (p, inr (s, l, b)) ↦ inr (ap₂ (λ a l. a ∷ l) e p, inr (omega arith, omega arith, b))
]

marker-lt : (xs ys : List ℕ) → length xs ≤ 8 → length xs < length ys → marker xs < marker ys
unfolding marker
marker-lt xs ys h l = ground arith

-- One step of `chunks`, whatever the fuel.
chunks_parts :
    (n : ℕ) (bytes : List ℕ)
    → (tail : List ℕ) × (chunks n bytes ≡ pad 8 bytes ++ (marker bytes ∷ tail))
unfolding chunks
chunks_parts zero bytes = ([], refl)
chunks_parts (suc n) bytes = (_, refl)

-- The first chunk decides by a byte or by the end of the first string.
by_byte :
    (n m : ℕ) (xs ys : List ℕ) → Before (pad 8 xs) (pad 8 ys) → Before (chunks n xs) (chunks m ys)
by_byte n m xs ys b =
    rw ((chunks_parts n xs).1, (chunks_parts m ys).1) (Before-append (pad 8 xs) (pad 8 ys) _ _ b)

by_end :
    (n m : ℕ) (xs ys : List ℕ)
    → pad 8 xs ≡ pad 8 ys
    → length xs ≤ 8
    → length xs < length ys
    → Before (chunks n xs) (chunks m ys)
by_end n m xs ys p s l =
    rw ((chunks_parts n xs).1, (chunks_parts m ys).1, p)
      (Before-append_left (pad 8 ys) _ _ (inl (marker-lt xs ys s l)))

by_next :
    (n m : ℕ) (xs ys : List ℕ)
    → pad 8 xs ≡ pad 8 ys
    → 8 < length xs
    → 8 < length ys
    → Before (chunks n (drop 8 xs)) (chunks m (drop 8 ys))
    → Before (chunks (suc n) xs) (chunks (suc m) ys)
unfolding chunks
by_next n m xs ys p s l h =
    let more_x = lt→ltb 8 (length xs) s in
    let more_y = lt→ltb 8 (length ys) l in
    rw (more_x, more_y, marker-long xs more_x, marker-long ys more_y, p)
      (Before-append_left (pad 8 ys) _ _ (inr (refl, h)))

chunks-Before :
    (n m : ℕ) (xs ys : List ℕ)
    → length xs ≤ n
    → length ys ≤ m
    → BytesLt xs ys
    → Before (chunks n xs) (chunks m ys)
chunks-Before zero m xs ys hx hy h = elim (verdict 8 xs ys h) [
  | inl b ↦ by_byte zero m xs ys b
  | inr (p, inl (s, l)) ↦ by_end zero m xs ys p s l
  | inr (p, inr (s, l, b)) ↦ absurd (omega arith)
]
chunks-Before (suc n) zero xs ys hx hy h = elim (verdict 8 xs ys h) [
  | inl b ↦ by_byte (suc n) zero xs ys b
  | inr (p, inl (s, l)) ↦ by_end (suc n) zero xs ys p s l
  | inr (p, inr (s, l, b)) ↦ absurd (omega arith)
]
chunks-Before (suc n) (suc m) xs ys hx hy h = elim (verdict 8 xs ys h) [
  | inl b ↦ by_byte (suc n) (suc m) xs ys b
  | inr (p, inl (s, l)) ↦ by_end (suc n) (suc m) xs ys p s l
  | inr (p, inr (s, l, b)) ↦ by_next n m xs ys p s l (
      chunks-Before n m (drop 8 xs) (drop 8 ys) (omega (arith, length-drop 8 xs))
        (omega (arith, length-drop 8 ys)) b)
]

chunks-IsByte : (n : ℕ) (bytes : List ℕ) → All IsByte bytes → All IsByte (chunks n bytes)
unfolding chunks
chunks-IsByte zero bytes b =
    All-append IsByte (pad 8 bytes) _ (pad-IsByte 8 bytes b) (omega (arith, marker-le bytes), tt)
chunks-IsByte (suc n) bytes b = All-append IsByte (pad 8 bytes) _ (pad-IsByte 8 bytes b) (
  omega (arith, marker-le bytes),
  rest (ltb 8 (length bytes)) (chunks-IsByte n (drop 8 bytes) (All-drop IsByte 8 bytes b)),
)
  where
    rest :
        (t : Bool)
        → All IsByte (chunks n (drop 8 bytes))
        → All IsByte (if t then chunks n (drop 8 bytes) else [])
    rest true h = h
    rest false h = tt

-- Of two byte strings, the ascending encoding of the lexicographically smaller is smaller byte by
-- byte, whatever follows the two.
pub write_sortable_bytes-BytesLt :
    (xs ys s t : List ℕ)
    → All IsByte xs
    → All IsByte ys
    → BytesLt xs ys
    → BytesLt (write_sortable_bytes xs asc [] ++ s) (write_sortable_bytes ys asc [] ++ t)
unfolding flip
write_sortable_bytes-BytesLt xs ys s t bx by h =
    rw (write_sortable_bytes-chunks xs asc [] bx, write_sortable_bytes-chunks ys asc [] by)
      (Before-BytesLt _ _ s t
        (chunks-Before (length xs) (length ys) xs ys (omega arith) (omega arith) h))

-- Of two byte strings, the descending encoding of the lexicographically larger is smaller byte by
-- byte, whatever follows the two.
pub write_sortable_bytes-BytesLt_desc :
    (xs ys s t : List ℕ)
    → All IsByte xs
    → All IsByte ys
    → BytesLt xs ys
    → BytesLt (write_sortable_bytes ys desc [] ++ t) (write_sortable_bytes xs desc [] ++ s)
unfolding flip
write_sortable_bytes-BytesLt_desc xs ys s t bx by h =
    rw (write_sortable_bytes-chunks xs desc [] bx, write_sortable_bytes-chunks ys desc [] by)
      (Before-BytesLt _ _ t s (
        Before-not _ _ (chunks-IsByte (length xs) xs bx) (chunks-IsByte (length ys) ys by)
          (chunks-Before (length xs) (length ys) xs ys (omega arith) (omega arith) h)))

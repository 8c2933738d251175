-- ===== src/Encoding/Chunks/Form.antt =====
-- The written form of a byte string, as one recursive description for both sort orders.
use incresql.Prelude.{ℕ, zero, suc, ◌-◌, ◌%◌, ◌^◌, ◌≤◌, ◌≡◌, refl, ap, sym, ◌∙◌, arith}
use incresql.Prelude.{
  List, [], ◌∷◌, ◌++◌, map, length, take, drop, replicate, All, All-take, All-drop, length-take,
  length-drop,
}
use incresql.Prelude.{ltb, if◌then◌else◌, append_assoc, Bool-cases, inl, inr, true}
use incresql.Encoding.SortOrder.{SortOrder, asc, desc}
use incresql.Encoding.Bytes.{IsByte, push, bit_not}
use incresql.Encoding.Bytes.LittleEndian.{to_le_bytes-not}
use incresql.Encoding.Chunks.{write_last_asc, write_last_desc, write_chunks_asc, write_chunks_desc}
use incresql.Encoding.Chunks.{inverted, write_sortable_bytes}
use mathlib.Core.List.{map-append}
use native.Mathlib.Numerals.{unary_clauses}

-- The first `k` bytes, with zeros where the string is shorter.
unfoldable pub pad : ℕ → List ℕ → List ℕ
pad zero bytes = []
pad (suc k) [] = 0 ∷ pad k []
pad (suc k) (b ∷ bytes) = b ∷ pad k bytes

unfoldable pub marker : List ℕ → ℕ
marker bytes = if ltb 8 (length bytes) then 9 else length bytes

unfoldable pub chunks : ℕ → List ℕ → List ℕ
chunks zero bytes = pad 8 bytes ++ (marker bytes ∷ [])
chunks (suc fuel) bytes =
    let more = chunks fuel (drop 8 bytes) in
    pad 8 bytes ++ (marker bytes ∷ (if ltb 8 (length bytes) then more else []))

pad_nil : (k : ℕ) → pad k [] ≡ replicate k 0
unfolding pad
pad_nil zero = refl
pad_nil (suc k) = ap (λ l. 0 ∷ l) (pad_nil k)

map-replicate : (f : ℕ → ℕ) (k b : ℕ) → map f (replicate k b) ≡ replicate k (f b)
map-replicate f zero b = refl
map-replicate f (suc k) b = ap (λ l. f b ∷ l) (map-replicate f k b)

pad-short :
    (k : ℕ) (bytes : List ℕ)
    → length bytes ≤ k
    → pad k bytes ≡ bytes ++ replicate (k - length bytes) 0
unfolding pad
pad-short zero [] h = refl
pad-short zero (b ∷ bytes) h = absurd (omega arith)
pad-short (suc k) [] h = simp unary_clauses (ap (λ l. 0 ∷ l) (pad_nil k))
pad-short (suc k) (b ∷ bytes) h =
    simp unary_clauses (ap (λ l. b ∷ l) (pad-short k bytes (omega arith)))

pad-long : (k : ℕ) (bytes : List ℕ) → k ≤ length bytes → pad k bytes ≡ take k bytes
unfolding pad
pad-long zero bytes h = refl
pad-long (suc k) [] h = absurd (omega arith)
pad-long (suc k) (b ∷ bytes) h = ap (λ l. b ∷ l) (pad-long k bytes (omega arith))

pub marker-short : (bytes : List ℕ) → length bytes ≤ 8 → length bytes % 2 ^ 8 ≡ marker bytes
unfolding marker
marker-short bytes h = ground arith

pub marker-long : (bytes : List ℕ) → ltb 8 (length bytes) ≡ true → marker bytes ≡ 9
unfolding marker
marker-long bytes h = rw h

last_asc :
    (bytes buffer : List ℕ)
    → length bytes ≤ 8
    → write_last_asc bytes buffer ≡ buffer ++ (pad 8 bytes ++ (marker bytes ∷ []))
unfolding write_last_asc
last_asc bytes buffer h = rw (pad-short 8 bytes h, marker-short bytes h) (simp append_assoc)

write_chunks_asc-chunks :
    (fuel : ℕ) (bytes buffer : List ℕ)
    → length bytes ≤ fuel
    → write_chunks_asc fuel bytes buffer ≡ buffer ++ chunks fuel bytes
unfolding write_chunks_asc chunks
write_chunks_asc-chunks zero bytes buffer h = last_asc bytes buffer (omega arith)
write_chunks_asc-chunks (suc fuel) bytes buffer h = elim (Bool-cases (ltb 8 (length bytes))) [
  | inl more ↦ rw more (
      write_chunks_asc-chunks fuel (drop 8 bytes) (push (buffer ++ take 8 bytes) 9)
        (omega (arith, length-drop 8 bytes))
      ∙ rw (pad-long 8 bytes (ground arith), marker-long bytes more) (simp append_assoc))
  | inr last ↦ rw last (last_asc bytes buffer (ground arith))
]

last_desc :
    (bytes buffer : List ℕ)
    → length bytes ≤ 8
    → write_last_desc bytes buffer ≡ buffer ++ map (bit_not 8) (pad 8 bytes ++ (marker bytes ∷ []))
unfolding write_last_desc
last_desc bytes buffer h =
    rw (pad-short 8 bytes h, marker-short bytes h) (simp (append_assoc, map-append, map-replicate))

pub inverted-map :
    (chunk : List ℕ) → length chunk ≡ 8 → All IsByte chunk → inverted chunk ≡ map (bit_not 8) chunk
inverted-map chunk e h = rw e at (to_le_bytes-not chunk h)

write_chunks_desc-chunks :
    (fuel : ℕ) (bytes buffer : List ℕ)
    → All IsByte bytes
    → length bytes ≤ fuel
    → write_chunks_desc fuel bytes buffer ≡ buffer ++ map (bit_not 8) (chunks fuel bytes)
unfolding write_chunks_desc chunks
write_chunks_desc-chunks zero bytes buffer b h = last_desc bytes buffer (omega arith)
write_chunks_desc-chunks (suc fuel) bytes buffer b h = elim (Bool-cases (ltb 8 (length bytes))) [
  | inl more ↦
      rw
        (
          more,
          inverted-map (take 8 bytes) (ground (arith, length-take 8 bytes))
              (All-take IsByte 8 bytes b),
        )
        (write_chunks_desc-chunks fuel (drop 8 bytes) _ (All-drop IsByte 8 bytes b)
            (omega (arith, length-drop 8 bytes))
          ∙ rw (pad-long 8 bytes (ground arith), marker-long bytes more)
              (simp (append_assoc, map-append)))
  | inr last ↦ rw last (last_desc bytes buffer (ground arith))
]

-- Both loops write the same form, complemented in descending order, behind the buffer.
unfoldable pub flip : SortOrder → List ℕ → List ℕ
flip asc bytes = bytes
flip desc bytes = map (bit_not 8) bytes

pub write_sortable_bytes-chunks :
    (bytes : List ℕ) (sort_order : SortOrder) (buffer : List ℕ)
    → All IsByte bytes
    → write_sortable_bytes bytes sort_order buffer
      ≡ buffer ++ flip sort_order (chunks (length bytes) bytes)
unfolding write_sortable_bytes flip
write_sortable_bytes-chunks bytes asc buffer b =
    write_chunks_asc-chunks (length bytes) bytes buffer (omega arith)
write_sortable_bytes-chunks bytes desc buffer b =
    write_chunks_desc-chunks (length bytes) bytes buffer b (omega arith)

pub length-pad : (k : ℕ) (bytes : List ℕ) → length (pad k bytes) ≡ k
unfolding pad
length-pad zero bytes = refl
length-pad (suc k) [] = ap suc (length-pad k [])
length-pad (suc k) (b ∷ bytes) = ap suc (length-pad k bytes)

pub pad-IsByte : (k : ℕ) (bytes : List ℕ) → All IsByte bytes → All IsByte (pad k bytes)
unfolding pad
pad-IsByte zero bytes h = tt
pad-IsByte (suc k) [] h = (omega arith, pad-IsByte k [] tt)
pad-IsByte (suc k) (b ∷ bytes) h = (h.0, pad-IsByte k bytes h.1)

-- As much of the string as fits is the front of the padded chunk.
pub take-pad :
    (k n : ℕ) (bytes : List ℕ) → n ≤ k → n ≤ length bytes → take n (pad k bytes) ≡ take n bytes
unfolding pad
take-pad k zero bytes h l = refl
take-pad zero (suc n) bytes h l = absurd (omega arith)
take-pad (suc k) (suc n) [] h l = absurd (omega arith)
take-pad (suc k) (suc n) (b ∷ bytes) h l =
    ap (λ r. b ∷ r) (take-pad k n bytes (omega arith) (omega arith))

pub marker-le : (bytes : List ℕ) → (marker bytes ≤ 9) × (marker bytes ≤ length bytes)
unfolding marker
marker-le bytes = (ground arith, ground arith)

-- What was in the buffer stays in front.
pub write_sortable_bytes-append :
    (bytes : List ℕ) (sort_order : SortOrder) (buffer : List ℕ)
    → All IsByte bytes
    → write_sortable_bytes bytes sort_order buffer
      ≡ buffer ++ write_sortable_bytes bytes sort_order []
write_sortable_bytes-append bytes sort_order buffer b =
    write_sortable_bytes-chunks bytes sort_order buffer b
    ∙ ap (λ l. buffer ++ l) (sym (write_sortable_bytes-chunks bytes sort_order [] b))

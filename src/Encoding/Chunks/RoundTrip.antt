-- ===== src/Encoding/Chunks/RoundTrip.antt =====
-- A byte string that was written is read back.
use incresql.Prelude.{ℕ, zero, suc, ◌≤◌, ◌<◌, ◌≡◌, refl, ap, ◌∙◌, arith}
use incresql.Prelude.{List, [], ◌∷◌, ◌++◌, length, take, drop, All, All-drop}
use incresql.Prelude.{take_all}
use incresql.Prelude.{length-drop, length-append, take-append-drop, length-map}
use incresql.Prelude.{ltb, ◌==◌, append_assoc, Bool-cases, inl, inr, true, false}
use incresql.Prelude.{some, tests, ltb-false→le}
use incresql.Encoding.SortOrder.{SortOrder, asc, desc}
use incresql.Encoding.Bytes.{IsByte, bit_not}
use incresql.Encoding.Chunks.{read_sortable_bytes, write_sortable_bytes}
use incresql.Encoding.Chunks.Form.{
  pad, marker, chunks, flip, length-pad, take-pad, marker-long, marker-short, pad-IsByte,
  write_sortable_bytes-chunks,
}
use Prim.Native.Nat.{min}
use incresql.Encoding.Chunks.Rounds.{read_chunks, read_round}

flip-nil : (sort_order : SortOrder) → flip sort_order [] ≡ []
unfolding flip
flip-nil asc = refl
flip-nil desc = refl

-- The last chunk ends the loop with the bytes that count.
last_round :
    (sort_order : SortOrder) (fuel : ℕ) (bytes out rest : List ℕ)
    → All IsByte bytes
    → length bytes ≤ 8
    → read_chunks sort_order
        (suc fuel)
        out
        (flip sort_order (pad 8 bytes ++ (marker bytes ∷ [])) ++ rest)
      ≡ some (out ++ bytes, rest)
last_round sort_order fuel bytes out rest b h =
    let m = marker-short bytes h in
    let fits : marker bytes < 256 = omega arith in
    let size : min (marker bytes) 8 ≡ length bytes = omega arith in
    let ends : (marker bytes == 9) ≡ false = ground arith in
    rw (
      read_round sort_order (pad 8 bytes) (marker bytes) [] rest (length-pad 8 bytes)
          (pad-IsByte 8 bytes b) fits fuel out,
      ends,
      size,
      take-pad 8 (length bytes) bytes h (omega arith),
      take_all (length bytes) bytes (omega arith),
      flip-nil,
    )

-- Another chunk follows.
inner_round :
    (sort_order : SortOrder) (fuel : ℕ) (bytes out tail rest : List ℕ)
    → All IsByte bytes
    → ltb 8 (length bytes) ≡ true
    → read_chunks sort_order (suc fuel) out (flip sort_order (pad 8 bytes ++ (9 ∷ tail)) ++ rest)
      ≡ read_chunks sort_order fuel (out ++ take 8 bytes) (flip sort_order tail ++ rest)
inner_round sort_order fuel bytes out tail rest b h = rw (
  read_round sort_order (pad 8 bytes) 9 tail rest (length-pad 8 bytes) (pad-IsByte 8 bytes b)
      (omega arith) fuel out,
  take-pad 8 8 bytes (omega arith) (ground arith),
)

-- The whole loop, with more fuel than there are bytes.
read-chunks :
    (sort_order : SortOrder) (n fuel : ℕ) (bytes out rest : List ℕ)
    → All IsByte bytes
    → length bytes ≤ n
    → length bytes < fuel
    → read_chunks sort_order fuel out (flip sort_order (chunks n bytes) ++ rest)
      ≡ some (out ++ bytes, rest)
unfolding chunks
read-chunks sort_order n zero bytes out rest b h f = absurd (omega arith)
read-chunks sort_order zero (suc fuel) bytes out rest b h f =
    last_round sort_order fuel bytes out rest b (omega arith)
read-chunks sort_order (suc n) (suc fuel) bytes out rest b h f =
    elim (Bool-cases (ltb 8 (length bytes))) [
      | inl more ↦
          rw
            (
              more,
              marker-long bytes more,
              inner_round sort_order fuel bytes out (chunks n (drop 8 bytes)) rest b more,
              read-chunks sort_order n fuel (drop 8 bytes) (out ++ take 8 bytes) rest
                  (All-drop IsByte 8 bytes b) (ground (arith, length-drop 8 bytes))
                  (ground (arith, length-drop 8 bytes)),
            )
            (ap (λ l. some (l, rest)) (append_assoc out _ _ ∙ rw (take-append-drop 8 bytes)))
      | inr last ↦ rw last (last_round sort_order fuel bytes out rest b (ground arith))
    ]

-- The written form is longer than the string.
length-chunks : (n : ℕ) (bytes : List ℕ) → length bytes ≤ n → length bytes < length (chunks n bytes)
unfolding chunks
length-chunks zero bytes h =
    omega (arith, length-append (pad 8 bytes) (marker bytes ∷ []), length-pad 8 bytes)
length-chunks (suc n) bytes h = elim (Bool-cases (ltb 8 (length bytes))) [
  | inl more ↦ rw more (
      omega (
        arith,
        length-append (pad 8 bytes) (marker bytes ∷ chunks n (drop 8 bytes)),
        length-pad 8 bytes,
        length-drop 8 bytes,
        length-chunks n (drop 8 bytes) (ground (arith, length-drop 8 bytes)),
      ))
  | inr last ↦ rw last (
      omega (
        tests,
        length-append (pad 8 bytes) (marker bytes ∷ []),
        length-pad 8 bytes,
        ltb-false→le 8 (length bytes) last,
      ))
]

length-flip :
    (sort_order : SortOrder) (bytes : List ℕ) → length (flip sort_order bytes) ≡ length bytes
unfolding flip
length-flip asc bytes = refl
length-flip desc bytes = length-map (bit_not 8) bytes

read_sortable_bytes-read_chunks :
    (sort_order : SortOrder) (buffer : List ℕ)
    → read_sortable_bytes sort_order buffer ≡ read_chunks sort_order (length buffer) [] buffer
unfolding read_sortable_bytes read_chunks
read_sortable_bytes-read_chunks asc buffer = refl
read_sortable_bytes-read_chunks desc buffer = refl

-- `read_sortable_bytes` reads back the byte string that `write_sortable_bytes` wrote, of any length
-- and in both sort orders, and leaves whatever follows it.
pub read-write_sortable_bytes :
    (bytes : List ℕ) (sort_order : SortOrder) (rest : List ℕ)
    → All IsByte bytes
    → read_sortable_bytes sort_order (write_sortable_bytes bytes sort_order [] ++ rest)
      ≡ some (bytes, rest)
read-write_sortable_bytes bytes sort_order rest b =
    let form = chunks (length bytes) bytes in
    rw
      (
        write_sortable_bytes-chunks bytes sort_order [] b,
        read_sortable_bytes-read_chunks sort_order (flip sort_order form ++ rest),
      )
      (read-chunks sort_order (length bytes) _ bytes [] rest b (omega arith) (
        omega (
          arith,
          length-append (flip sort_order form) rest,
          length-flip sort_order form,
          length-chunks (length bytes) bytes (omega arith),
        )))

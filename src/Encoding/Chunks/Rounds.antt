-- ===== src/Encoding/Chunks/Rounds.antt =====
-- One round of the loop of `read_sortable_bytes`, in both sort orders.
use incresql.Prelude.{ℕ, suc, ◌≤◌, ◌<◌, ◌≡◌, ap, sym, ◌∙◌, arith}
use incresql.Prelude.{List, [], ◌∷◌, ◌++◌, map, length, take, All, All-take}
use incresql.Prelude.{get_elem?-append_mid, drop-append_mid, take-append_le, take_all}
use incresql.Prelude.{length-append, take-map, map_involutive, length-map}
use incresql.Prelude.{leb, ◌==◌, if◌then◌else◌, append_assoc, Bool-cases, inl, inr}
use incresql.Prelude.{Option, some, le→leb, tests}
use incresql.Encoding.SortOrder.{SortOrder, asc, desc}
use incresql.Encoding.Bytes.{IsByte, bit_not}
use incresql.Encoding.Chunks.{read_chunks_asc, read_chunks_desc}
use incresql.Encoding.Chunks.{chunk_desc, slice_to, slice_from}
use incresql.Encoding.Chunks.Form.{inverted-map, flip}
use mathlib.Core.List.{map-append}
use Prim.Native.Nat.{min}

-- A list of eight bytes, a size byte and what follows: the four reads of one round.
module _ (c : List ℕ) (t : ℕ) (rest : List ℕ) (eight : length c ≡ 8) where
  slice_from_nine : slice_from 9 (c ++ (t ∷ rest)) ≡ some rest
  slice_from_nine =
      rw (le→leb 9 (length (c ++ (t ∷ rest))) (omega (arith, length-append c (t ∷ rest))))
        (ap some (drop-append_mid c rest t 8 eight))

  slice_to_le : (n : ℕ) → n ≤ 8 → slice_to n (c ++ (t ∷ rest)) ≡ some (take n c)
  slice_to_le n h =
      rw (le→leb n (length (c ++ (t ∷ rest))) (omega (arith, length-append c (t ∷ rest))))
        (ap some (take-append_le n c (t ∷ rest) (omega arith)))

  round_asc :
      (fuel : ℕ) (bytes : List ℕ)
      → read_chunks_asc (suc fuel) bytes (c ++ (t ∷ rest)) ≡ (
          if t == 9
          then read_chunks_asc fuel (bytes ++ take (min t 8) c) rest
          else some (bytes ++ take (min t 8) c, rest))
  unfolding read_chunks_asc
  round_asc fuel bytes =
      rw (
        get_elem?-append_mid c rest t 8 eight,
        slice_to_le (min t 8) (omega arith),
        slice_from_nine,
      )

not-IsByte : (bytes : List ℕ) → All IsByte (map (bit_not 8) bytes)
not-IsByte [] = tt
not-IsByte (b ∷ bytes) = (omega arith, not-IsByte bytes)

not_not : (bytes : List ℕ) → All IsByte bytes → map (bit_not 8) (map (bit_not 8) bytes) ≡ bytes
not_not bytes h = map_involutive (bit_not 8) bytes (λ b hb. omega arith) h

-- What `chunk_desc` takes from a complemented chunk.
chunk_desc-not :
    (c : List ℕ) (t size : ℕ) (rest : List ℕ)
    → length c ≡ 8
    → All IsByte c
    → chunk_desc t (map (bit_not 8) c ++ (size ∷ rest)) ≡ some (take (min t 8) c)
chunk_desc-not c t size rest eight h =
    let eight' : length (map (bit_not 8) c) ≡ 8 = length-map (bit_not 8) c ∙ eight in
    elim (Bool-cases (leb 8 (min t 8))) [
      | inl whole ↦
          let full : min t 8 ≡ 8 = omega (tests) in
          rw
            (
              whole,
              slice_to_le (map (bit_not 8) c) size rest eight' 8 (omega arith),
              take_all 8 (map (bit_not 8) c) (omega arith),
              inverted-map (map (bit_not 8) c) eight' (not-IsByte c),
              not_not c h,
              full,
            )
            (ap some (sym (take_all 8 c (omega arith))))
      | inr part ↦
          rw
            (
              part,
              slice_to_le (map (bit_not 8) c) size rest eight' (min t 8) (omega arith),
              take-map (bit_not 8) (min t 8) c,
            )
            (ap some (not_not (take (min t 8) c) (All-take IsByte (min t 8) c h)))
    ]

round_desc :
    (c : List ℕ) (t : ℕ) (rest : List ℕ)
    → length c ≡ 8
    → All IsByte c
    → t < 256
    → (fuel : ℕ) (bytes : List ℕ)
    → read_chunks_desc (suc fuel) bytes (map (bit_not 8) c ++ (bit_not 8 t ∷ rest)) ≡ (
        if t == 9
        then read_chunks_desc fuel (bytes ++ take (min t 8) c) rest
        else some (bytes ++ take (min t 8) c, rest))
unfolding read_chunks_desc
round_desc c t rest eight h ht fuel bytes =
    let eight' : length (map (bit_not 8) c) ≡ 8 = length-map (bit_not 8) c ∙ eight in
    let back : bit_not 8 (bit_not 8 t) ≡ t = omega arith in
    rw (
      get_elem?-append_mid (map (bit_not 8) c) rest (bit_not 8 t) 8 eight',
      back,
      chunk_desc-not c t (bit_not 8 t) rest eight h,
      slice_from_nine (map (bit_not 8) c) (bit_not 8 t) rest eight',
    )

unfoldable pub read_chunks : SortOrder → ℕ → List ℕ → List ℕ → Option (List ℕ × List ℕ)
read_chunks asc fuel bytes rem = read_chunks_asc fuel bytes rem
read_chunks desc fuel bytes rem = read_chunks_desc fuel bytes rem

pub read_round :
    (sort_order : SortOrder) (c : List ℕ) (t : ℕ) (tail rest : List ℕ)
    → length c ≡ 8
    → All IsByte c
    → t < 256
    → (fuel : ℕ) (bytes : List ℕ)
    → read_chunks sort_order (suc fuel) bytes (flip sort_order (c ++ (t ∷ tail)) ++ rest) ≡ (
        if t == 9
        then read_chunks sort_order fuel (bytes ++ take (min t 8) c) (flip sort_order tail ++ rest)
        else some (bytes ++ take (min t 8) c, flip sort_order tail ++ rest))
unfolding read_chunks flip
read_round asc c t tail rest eight h ht fuel bytes =
    rw (append_assoc c (t ∷ tail) rest) (round_asc c t (tail ++ rest) eight fuel bytes)
read_round desc c t tail rest eight h ht fuel bytes =
    simp (map-append, append_assoc)
      (round_desc c t (map (bit_not 8) tail ++ rest) eight h ht fuel bytes)

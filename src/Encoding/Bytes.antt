-- ===== src/Encoding/Bytes.antt =====
-- Byte strings: what the codecs take from Rust's standard library (big-endian words, bitwise
-- complement, slicing that panics past the end, the lexicographic order of slices).
pub mod BigEndian
pub mod LittleEndian
pub mod Order
use incresql.Prelude.{ℕ, zero, suc, ◌+◌, ◌-◌, ◌*◌, ◌/◌, ◌%◌, ◌^◌, ◌≤◌, ◌<◌, ◌≡◌, refl, sym, ap, ◌∙◌}
use incresql.Prelude.{
  ◌⊎◌, inl, inr, Option, none, some, List, [], ◌∷◌, ◌++◌, map, length, All, arith, ◌>>=◌,
}
use native.Mathlib.Nat.{div-add-mod, div-add-mod', mod-lt, mod-eq_of_lt, pow-suc, pow-succ'}
use native.Mathlib.Decide.{dec_lt}

abbrev pub IsByte : ℕ → Type 0
IsByte b = b < 256

abbrev pub IsU64 : ℕ → Type 0
IsU64 n = n < 2 ^ 64

-- `buffer.push(b)` and `buffer.extend_from_slice(bs)`.
abbrev pub push : List ℕ → ℕ → List ℕ
push buffer b = buffer ++ (b ∷ [])

-- `!x` of a word that is `w` bits wide.
abbrev pub bit_not : ℕ → ℕ → ℕ
bit_not w x = 2 ^ w - 1 - x

-- `to_be_bytes` of a word of `k` bytes.
unfoldable pub to_be_bytes : ℕ → ℕ → List ℕ
to_be_bytes zero n = []
to_be_bytes (suc k) n = (n / 256 ^ k % 256) ∷ to_be_bytes k (n % 256 ^ k)

unfoldable pub from_be_bytes : List ℕ → ℕ
from_be_bytes [] = 0
from_be_bytes (b ∷ bs) = b * 256 ^ length bs + from_be_bytes bs

-- `(&rem[..k], &rem[k..])`; `none` is the panic of a slice that is too short.
unfoldable pub split_bytes : ℕ → List ℕ → Option (List ℕ × List ℕ)
split_bytes zero rem = some ([], rem)
split_bytes (suc k) [] = none
split_bytes (suc k) (b ∷ rem) = do (bs, rest) ← split_bytes k rem; some (b ∷ bs, rest)

-- `from_be_bytes(rem[..k].try_into().unwrap())` and `&rem[k..]`.
unfoldable pub read_be : ℕ → List ℕ → Option (ℕ × List ℕ)
read_be k rem = do (bs, rest) ← split_bytes k rem; some (from_be_bytes bs, rest)

-- `to_le_bytes` and `from_le_bytes`.
unfoldable pub to_le_bytes : ℕ → ℕ → List ℕ
to_le_bytes zero n = []
to_le_bytes (suc k) n = (n % 256) ∷ to_le_bytes k (n / 256)

unfoldable pub from_le_bytes : List ℕ → ℕ
from_le_bytes [] = 0
from_le_bytes (b ∷ bs) = b + 256 * from_le_bytes bs

-- `from_le_bytes(buffer[..k].try_into().unwrap())` and `&buffer[k..]`.
unfoldable pub read_le : ℕ → List ℕ → Option (ℕ × List ℕ)
read_le k rem = do (bs, rest) ← split_bytes k rem; some (from_le_bytes bs, rest)

-- The order of byte slices.
abbrev pub BytesLt : List ℕ → List ℕ → Type 0
BytesLt xs [] = ⊥
BytesLt [] (y ∷ ys) = Unit
BytesLt (x ∷ xs) (y ∷ ys) = (x < y) ⊎ ((x ≡ y) × BytesLt xs ys)

-- Two strings that differ at a byte both have, and are ordered by it.
abbrev pub Before : List ℕ → List ℕ → Type 0
Before [] ys = ⊥
Before (x ∷ xs) [] = ⊥
Before (x ∷ xs) (y ∷ ys) = (x < y) ⊎ ((x ≡ y) × Before xs ys)

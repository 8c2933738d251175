-- ===== src/Encoding/Bytes/LittleEndian.antt =====
-- Little-endian words, as src/data/src/encoding_core.rs uses them to complement eight bytes at once.
use native.Mathlib.Nat.{pow-succ'}
use incresql.Prelude.{ℕ, zero, suc, ◌+◌, ◌-◌, ◌*◌, ◌/◌, ◌%◌, ◌^◌, ◌<◌, ◌≡◌, refl, ap}
use incresql.Prelude.{some, List, [], ◌∷◌, ◌++◌, map, length, All, arith}
use incresql.Encoding.Bytes.BigEndian.{split_bytes-append}
use incresql.Encoding.Bytes.{IsByte, bit_not, to_le_bytes, from_le_bytes, read_le}

from_le_bytes_lt : (bs : List ℕ) → All IsByte bs → from_le_bytes bs < 256 ^ length bs
unfolding from_le_bytes
from_le_bytes_lt [] h = omega arith
from_le_bytes_lt (b ∷ bs) h = omega (arith, h.0, from_le_bytes_lt bs h.1, pow-succ' 256 (length bs))

-- The complement of a little-endian word complements each byte.
pub to_le_bytes-not :
    (bs : List ℕ)
    → All IsByte bs
    → to_le_bytes (length bs) (256 ^ length bs - 1 - from_le_bytes bs) ≡ map (bit_not 8) bs
unfolding to_le_bytes from_le_bytes
to_le_bytes-not [] h = refl
to_le_bytes-not (b ∷ bs) h =
    let total = pow-succ' 256 (length bs) in
    let fits = from_le_bytes_lt bs h.1 in
    let hb = h.0 in
    let low : (256 ^ suc (length bs) - 1 - (b + 256 * from_le_bytes bs)) % 256 ≡ 255 - b =
      omega arith in
    let high : (256 ^ suc (length bs) - 1 - (b + 256 * from_le_bytes bs)) / 256
        ≡ 256 ^ length bs - 1 - from_le_bytes bs =
      omega arith in
    rw (low, high, to_le_bytes-not bs h.1)

pub to_le_bytes-from_le_bytes :
    (bs : List ℕ) → All IsByte bs → to_le_bytes (length bs) (from_le_bytes bs) ≡ bs
unfolding to_le_bytes from_le_bytes
to_le_bytes-from_le_bytes [] h = refl
to_le_bytes-from_le_bytes (b ∷ bs) h =
    let hb = h.0 in
    let ih = to_le_bytes-from_le_bytes bs h.1 in
    let low : (b + 256 * from_le_bytes bs) % 256 ≡ b = omega arith in
    let high : (b + 256 * from_le_bytes bs) / 256 ≡ from_le_bytes bs = omega arith in
    rw (low, high, ih)

pub length-to_le_bytes : (k n : ℕ) → length (to_le_bytes k n) ≡ k
unfolding to_le_bytes
length-to_le_bytes zero n = refl
length-to_le_bytes (suc k) n = ap suc (length-to_le_bytes k (n / 256))

pub from_le_bytes-to_le_bytes : (k n : ℕ) → n < 256 ^ k → from_le_bytes (to_le_bytes k n) ≡ n
unfolding to_le_bytes from_le_bytes
from_le_bytes-to_le_bytes zero n h = omega arith
from_le_bytes-to_le_bytes (suc k) n h =
    let total = pow-succ' 256 k in
    omega (arith, from_le_bytes-to_le_bytes k (n / 256) (omega arith))

pub read_le-to_le_bytes :
    (k n : ℕ) (rest : List ℕ) → n < 256 ^ k → read_le k (to_le_bytes k n ++ rest) ≡ some (n, rest)
unfolding read_le
read_le-to_le_bytes k n rest h =
    rw (split_bytes-append k (to_le_bytes k n) rest (length-to_le_bytes k n))
      (ap (λ m. some (m, rest)) (from_le_bytes-to_le_bytes k n h))

-- ===== src/Encoding/Bytes/BigEndian.antt =====
-- Big-endian words: read back as written, and ordered as their numbers.
use incresql.Prelude.{ℕ, zero, suc, ◌*◌, ◌/◌, ◌%◌, ◌^◌, ◌<◌, ◌≡◌, refl, ap}
use incresql.Prelude.{◌⊎◌, inl, inr, some, List, [], ◌∷◌, ◌++◌, length, arith}
use native.Mathlib.Nat.{div-add-mod, div-add-mod', mod-lt, mod-eq_of_lt, pow-suc, pow-succ'}
use native.Mathlib.Decide.{dec_lt}
use incresql.Encoding.Bytes.{to_be_bytes, from_be_bytes, split_bytes, read_be, BytesLt}

pub length-to_be_bytes : (k n : ℕ) → length (to_be_bytes k n) ≡ k
unfolding to_be_bytes
length-to_be_bytes zero n = refl
length-to_be_bytes (suc k) n = ap suc (length-to_be_bytes k (n % 256 ^ k))

pub split_bytes-append :
    (k : ℕ) (xs rest : List ℕ) → length xs ≡ k → split_bytes k (xs ++ rest) ≡ some (xs, rest)
unfolding split_bytes
split_bytes-append zero [] rest h = refl
split_bytes-append zero (x ∷ xs) rest h = absurd (omega arith)
split_bytes-append (suc k) [] rest h = absurd (omega arith)
split_bytes-append (suc k) (x ∷ xs) rest h = rw (split_bytes-append k xs rest (omega arith))

pow_pos : (k : ℕ) → 0 < 256 ^ k
pow_pos zero = omega arith
pow_pos (suc k) = omega (arith, pow_pos k, pow-suc 256 k)

-- The first digit of `n` to the base `b`, and what is left.
first_digit_lt : (n b : ℕ) → 0 < b → n < 256 * b → n / b < 256
first_digit_lt n b p h = grind (arith, div-add-mod n b)

pub from_be_bytes-to_be_bytes : (k n : ℕ) → n < 256 ^ k → from_be_bytes (to_be_bytes k n) ≡ n
unfolding to_be_bytes from_be_bytes
from_be_bytes-to_be_bytes zero n h = omega arith
from_be_bytes-to_be_bytes (suc k) n h =
    rw
      (
        length-to_be_bytes k (n % 256 ^ k),
        from_be_bytes-to_be_bytes k (n % 256 ^ k) (mod-lt n (pow_pos k)),
        mod-eq_of_lt (first_digit_lt n (256 ^ k) (pow_pos k) (omega (arith, pow-succ' 256 k))),
      )
      (div-add-mod' n (256 ^ k))

pub read_be-to_be_bytes :
    (k n : ℕ) (rest : List ℕ) → n < 256 ^ k → read_be k (to_be_bytes k n ++ rest) ≡ some (n, rest)
unfolding read_be
read_be-to_be_bytes k n rest h =
    rw (split_bytes-append k (to_be_bytes k n) rest (length-to_be_bytes k n))
      (ap (λ m. some (m, rest)) (from_be_bytes-to_be_bytes k n h))

digits_lt : (n m b : ℕ) → 0 < b → n < m → (n / b < m / b) ⊎ ((n / b ≡ m / b) × (n % b < m % b))
digits_lt n m b p h = elim (dec_lt (n / b) (m / b)) [
  | yes q ↦ inl q
  | no q ↦ grind (arith, div-add-mod n b, div-add-mod m b, mod-lt n p, mod-lt m p)
]

-- Big-endian words of one width are ordered as their numbers, whatever follows them.
pub to_be_bytes-BytesLt :
    (k n m : ℕ) (s t : List ℕ)
    → n < m
    → m < 256 ^ k
    → BytesLt (to_be_bytes k n ++ s) (to_be_bytes k m ++ t)
unfolding to_be_bytes
to_be_bytes-BytesLt zero n m s t h hm = absurd (omega arith)
to_be_bytes-BytesLt (suc k) n m s t h hm =
    let hm' : m < 256 * 256 ^ k = omega (arith, pow-succ' 256 k) in
    let fits_m = mod-eq_of_lt (first_digit_lt m (256 ^ k) (pow_pos k) hm') in
    let fits_n = mod-eq_of_lt (first_digit_lt n (256 ^ k) (pow_pos k) (omega arith)) in
    elim (digits_lt n m (256 ^ k) (pow_pos k) h) [
      | inl q ↦ inl (rw (fits_m, fits_n) q)
      | inr q ↦
          inr (rw (fits_m, fits_n) q.0, to_be_bytes-BytesLt k _ _ s t q.1 (mod-lt m (pow_pos k)))
    ]

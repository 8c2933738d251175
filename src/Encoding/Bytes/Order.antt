-- ===== src/Encoding/Bytes/Order.antt =====
-- Byte strings that differ at a byte both have.
use incresql.Prelude.{ℕ, refl}
use incresql.Prelude.{inl, inr, List, [], ◌∷◌, ◌++◌, map, All, arith}
use incresql.Encoding.Bytes.{IsByte, bit_not, BytesLt, Before}

pub Before-BytesLt : (xs ys s t : List ℕ) → Before xs ys → BytesLt (xs ++ s) (ys ++ t)
Before-BytesLt [] ys s t h = absurd h
Before-BytesLt (x ∷ xs) [] s t h = absurd h
Before-BytesLt (x ∷ xs) (y ∷ ys) s t (inl h) = inl h
Before-BytesLt (x ∷ xs) (y ∷ ys) s t (inr (e, h)) = inr (e, Before-BytesLt xs ys s t h)

pub Before-append : (xs ys s t : List ℕ) → Before xs ys → Before (xs ++ s) (ys ++ t)
Before-append [] ys s t h = absurd h
Before-append (x ∷ xs) [] s t h = absurd h
Before-append (x ∷ xs) (y ∷ ys) s t (inl h) = inl h
Before-append (x ∷ xs) (y ∷ ys) s t (inr (e, h)) = inr (e, Before-append xs ys s t h)

pub Before-append_left : (xs s t : List ℕ) → Before s t → Before (xs ++ s) (xs ++ t)
Before-append_left [] s t h = h
Before-append_left (x ∷ xs) s t h = inr (refl, Before-append_left xs s t h)

-- Complementing every byte turns the order round.
pub Before-not :
    (xs ys : List ℕ)
    → All IsByte xs
    → All IsByte ys
    → Before xs ys
    → Before (map (bit_not 8) ys) (map (bit_not 8) xs)
Before-not [] ys hx hy h = absurd h
Before-not (x ∷ xs) [] hx hy h = absurd h
Before-not (x ∷ xs) (y ∷ ys) (bx, hx) (by, hy) (inl h) = inl (omega arith)
Before-not (x ∷ xs) (y ∷ ys) (bx, hx) (by, hy) (inr (e, h)) =
    inr (omega arith, Before-not xs ys hx hy h)

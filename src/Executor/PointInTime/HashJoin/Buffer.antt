-- ===== src/Executor/PointInTime/HashJoin/Buffer.antt =====
-- src/executor/src/point_in_time/hash_join.rs: what the loops write into the tuple buffer.
use incresql.Prelude.{
  ℕ, zero, suc, ◌+◌, ◌-◌, ◌≤◌, ◌≡◌, refl, sym, ap, ◌∙◌, arith, Option, some, List, [], ◌∷◌, ◌++◌,
  map, length, take, drop, replicate, ltb, leb, le→leb, bind-split, true, inl, inr,
  take-append_left, take-append-drop, length-take, length-drop, append_assoc, length-append,
  append-nil, Bool-cases, ltb→lt, ltb-false→le,
}
use incresql.Data.Datum.{Externals, Datum, null, ref_clone}
use mathlib.Core.Option
use incresql.Data.TupleIter.{TupleIter}
use incresql.Functions.{Functions}
use incresql.Ast.Expr.{Expression}
use incresql.Ast.Logical.{JoinType}
use incresql.Executor.PointInTime.HashJoin.{put, copy_to, null_from, copy_left}

take-nil {ℓ} : {A : Type ℓ} (n : ℕ) → take {A = A} n [] ≡ []
take-nil zero = refl
take-nil (suc n) = refl

module _ {x : Externals} where
  put-left :
      (i : ℕ) (d : Datum x) (p q p' : List (Datum x))
      → put i d p ≡ some p'
      → put i d (p ++ q) ≡ some (p' ++ q)
  unfolding put
  put-left i d [] q p' h = absurd (ground arith)
  put-left zero d (b ∷ p) q p' h = ground arith
  put-left (suc i) d (b ∷ p) q p' h =
      let (r, e, f) = bind-split (put i d p) _ p' h in rw (put-left i d p q r e) (ground arith)

  put-right :
      (i j : ℕ) (d : Datum x) (p q q' : List (Datum x))
      → i ≡ length p + j
      → put j d q ≡ some q'
      → put i d (p ++ q) ≡ some (p ++ q')
  unfolding put
  put-right i j d [] q q' same h = let here : i ≡ j = omega arith in rw here h
  put-right zero j d (b ∷ p) q q' same h = absurd (omega arith)
  put-right (suc i) j d (b ∷ p) q q' same h = rw (put-right i j d p q q' (omega arith) h)

  length-put :
      (i : ℕ) (d : Datum x) (p p' : List (Datum x)) → put i d p ≡ some p' → length p' ≡ length p
  unfolding put
  length-put i d [] p' h = absurd (ground arith)
  length-put zero d (b ∷ p) p' h = ground arith
  length-put (suc i) d (b ∷ p) p' h =
      let (r, e, f) = bind-split (put i d p) _ p' h in
      let same = length-put i d p r e in ground arith

  copy_to-cons :
      (n : ℕ) (ds : List (Datum x)) (y : Datum x) (b b' : List (Datum x))
      → copy_to n ds b ≡ some b'
      → copy_to (suc n) ds (y ∷ b) ≡ some (y ∷ b')
  unfolding copy_to put
  copy_to-cons n [] y b b' h = ground arith
  copy_to-cons n (d ∷ ds) y b b' h =
      let (r, e, f) = bind-split (put n (ref_clone d) b) _ b' h in
      rw e (copy_to-cons (suc n) ds y r b' f)

  pub copy_to-right :
      (ds p q q' : List (Datum x))
      → copy_to 0 ds q ≡ some q'
      → copy_to (length p) ds (p ++ q) ≡ some (p ++ q')
  copy_to-right ds [] q q' h = h
  copy_to-right ds (y ∷ p) q q' h =
      copy_to-cons (length p) ds y (p ++ q) (p ++ q') (copy_to-right ds p q q' h)

  -- A tuple as long as the front of the buffer replaces that.
  pub copy_to_front :
      (ds b r : List (Datum x))
      → length b ≡ length ds
      → copy_to 0 ds (b ++ r) ≡ some (map ref_clone ds ++ r)
  unfolding copy_to put
  copy_to_front [] [] r h = refl
  copy_to_front [] (y ∷ b) r h = absurd (omega arith)
  copy_to_front (d ∷ ds) [] r h = absurd (omega arith)
  copy_to_front (d ∷ ds) (y ∷ b) r h =
      copy_to-cons 0 ds (ref_clone d) (b ++ r) (map ref_clone ds ++ r)
        (copy_to_front ds b r (omega arith))

  pub copy_to_start :
      (ds buf : List (Datum x)) (n : ℕ)
      → length ds ≡ n
      → n ≤ length buf
      → copy_to 0 ds buf ≡ some (map ref_clone ds ++ drop n buf)
  copy_to_start ds buf n h l =
      let len = length-take n buf in
      rw (take-append-drop n buf) at (copy_to_front ds (take n buf) (drop n buf) (omega arith))

  pub null_from-append :
      (p q : List (Datum x)) (n : ℕ)
      → length p ≡ n
      → null_from n (p ++ q) ≡ some (p ++ replicate (length q) null)
  unfolding null_from
  null_from-append p q n h =
      let len = length-append p q in
      let inside : leb n (length (p ++ q)) ≡ true = le→leb _ _ (omega arith) in
      let rest : length (p ++ q) - n ≡ length q = omega arith in
      rw (inside, rest, take-append_left n p q h) refl

module _ {x : Externals} (fs : Functions x) (left right : TupleIter x) (left_len key_len : ℕ)
    (condition : Expression fs) (join_type : JoinType) where
  abbrev copied : ℕ → List (Datum x) → List (Datum x) → Option (List (Datum x))
  copied = copy_left fs left right left_len key_len condition join_type

  -- The copy of a left tuple is one into the left columns, and one of the rest of the key into the
  -- right ones.
  copy_left-split :
      (idx : ℕ) (ds p q p' q' : List (Datum x))
      → length p ≡ left_len
      → copy_to idx ds p ≡ some p'
      → copy_to idx (take (key_len - idx) ds) q ≡ some q'
      → copied idx ds (p ++ q) ≡ some (p' ++ q')
  unfolding copy_left copy_to
  copy_left-split idx [] p q p' q' l h k =
      let none_left : take {A = Datum x} (key_len - idx) [] ≡ [] = take-nil (key_len - idx) in
      let front : p ≡ p' = ground arith in
      let back : q ≡ q' = Option.some-injective q q' (rw none_left at k) in rw (front, back) refl
  copy_left-split idx (d ∷ ds) p q p' q' l h k =
      let (r, e, f) = bind-split (put idx (ref_clone d) p) _ p' h in
      let same = length-put idx (ref_clone d) p r e in
      elim (Bool-cases (ltb idx key_len)) [
        | inl b ↦
            let count : key_len - idx ≡ suc (key_len - suc idx) =
              omega (arith, ltb→lt idx key_len b) in
            let (t, e', f') = bind-split (put idx (ref_clone d) q) _ q' (rw count at k) in
            let inside : idx + (left_len + key_len) - key_len ≡ length r + idx = omega arith in
            rw
              (put-left idx (ref_clone d) p q r e, b, put-right _ idx (ref_clone d) r q t inside e')
              (copy_left-split (suc idx) ds r t p' q' (omega arith) f f')
        | inr b ↦
            let count : key_len - idx ≡ 0 = omega (arith, ltb-false→le idx key_len b) in
            let more : key_len - suc idx ≡ 0 = omega arith in
            let back : q ≡ q' = Option.some-injective q q' (rw count at k) in
            rw (put-left idx (ref_clone d) p q r e, b)
              (copy_left-split (suc idx) ds r q p' q' (omega arith) f (rw more (ap some back)))
      ]

  -- A left tuple is copied into the left columns, and its key in front of the right ones.
  pub copy_left-joined :
      (tuple p key rest : List (Datum x))
      → length p ≡ left_len
      → length tuple ≡ left_len
      → length key ≡ length (take key_len tuple)
      → copied 0 tuple (p ++ (key ++ rest))
        ≡ some (map ref_clone tuple ++ (map ref_clone (take key_len tuple) ++ rest))
  copy_left-joined tuple p key rest l t k =
      let front =
        rw (append-nil p, append-nil (map ref_clone tuple)) at
          (copy_to_front tuple p [] (l ∙ sym t)) in
      let whole : key_len - 0 ≡ key_len = omega arith in
      copy_left-split 0 tuple p (key ++ rest) (map ref_clone tuple) _ l front
        (rw whole (copy_to_front (take key_len tuple) key rest k))

  pub copy_left_start :
      (tuple buf : List (Datum x))
      → length tuple ≡ left_len
      → left_len + length (take key_len tuple) ≤ length buf
      → copied 0 tuple buf
        ≡ some (
            (map ref_clone tuple ++ map ref_clone (take key_len tuple))
            ++ drop (length (take key_len tuple)) (drop left_len buf))
  copy_left_start tuple buf t h =
      let k = length (take key_len tuple) in
      let rest = drop left_len buf in
      let a = length-take left_len buf in
      let b = length-take k rest in
      let c = length-drop left_len buf in
      let whole =
        copy_left-joined tuple (take left_len buf) (take k rest) (drop k rest) (omega arith) t
          (omega arith) in
      rw (append_assoc (map ref_clone tuple) (map ref_clone (take key_len tuple)) (drop k rest))
        (rw (take-append-drop k rest, take-append-drop left_len buf) at whole)

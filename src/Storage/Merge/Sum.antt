-- ===== src/Storage/Merge/Sum.antt =====
-- src/storage/src/storage.rs: merging adds frequencies up, in any grouping.
use incresql.Prelude.{
  ℕ, ◌+◌, ◌-◌, ◌^◌, ◌%◌, ◌<◌, ◌≡◌, refl, sym, ap, ◌∙◌, true, Option, none, some, List, [], ◌∷◌,
  ◌++◌, arith, map, append-nil,
}
use incresql.Prelude.{◌==◌, ◌>>=◌, get_elem?, All, All-append, subst}
use incresql.Prelude.Int.{ℤ, pos, negsuc, ◌+ℤ◌}
use incresql.Encoding.SortOrder.{asc}
use incresql.Encoding.Signed.{IsI64, as_i64, read_varint_signed, write_varint_signed}
use incresql.Encoding.Signed.RoundTrip.{read-write_varint_signed}
use incresql.Storage.Writer.{wrap_i64}
use mathlib.Core.Option
use mathlib.Core.List
use incresql.Storage.Merge.{merge_operands, existing_count, frequency_merge_impl}

wrap_i64-IsI64 : (i : ℤ) → IsI64 (wrap_i64 i)
unfolding wrap_i64
wrap_i64-IsI64 (pos n) = ground arith
wrap_i64-IsI64 (negsuc n) = ground arith

-- The 64 bits of an integer.
residue : ℤ → ℕ
residue (pos n) = n % 2 ^ 64
residue (negsuc n) = 2 ^ 64 - 1 - n % 2 ^ 64

wrap_i64-residue : (i : ℤ) → wrap_i64 i ≡ as_i64 (residue i)
unfolding wrap_i64 residue
wrap_i64-residue (pos n) = refl
wrap_i64-residue (negsuc n) = refl

residue_bound : (i : ℤ) → residue i < 2 ^ 64
unfolding residue
residue_bound (pos n) = omega arith
residue_bound (negsuc n) = omega arith

residue-as_i64 : (r : ℕ) → r < 2 ^ 64 → residue (as_i64 r) ≡ r
unfolding residue
residue-as_i64 r h = ground arith

residue-add : (a b : ℤ) → residue (a +ℤ b) ≡ (residue a + residue b) % 2 ^ 64
unfolding residue ◌+ℤ◌
residue-add (pos a) (pos b) = ground arith
residue-add (pos a) (negsuc b) = ground arith
residue-add (negsuc a) (pos b) = ground arith
residue-add (negsuc a) (negsuc b) = ground arith

residue-wrap_i64 : (i : ℤ) → residue (wrap_i64 i) ≡ residue i
residue-wrap_i64 i = rw (wrap_i64-residue i) (residue-as_i64 (residue i) (residue_bound i))

pub wrap_assoc : (a b c : ℤ) → wrap_i64 (wrap_i64 (a +ℤ b) +ℤ c) ≡ wrap_i64 (a +ℤ wrap_i64 (b +ℤ c))
wrap_assoc a b c =
    wrap_i64-residue _
    ∙ ap as_i64 (
        rw
          (
            residue-add (wrap_i64 (a +ℤ b)) c,
            residue-add a (wrap_i64 (b +ℤ c)),
            residue-wrap_i64 (a +ℤ b),
            residue-wrap_i64 (b +ℤ c),
            residue-add a b,
            residue-add b c,
          )
          (omega arith))
    ∙ sym (wrap_i64-residue _)

-- The frequency that a sequence of changes comes to.
unfoldable pub total : ℤ → List ℤ → ℤ
total count [] = count
total count (f ∷ fs) = total (wrap_i64 (count +ℤ f)) fs

abbrev pub encoded : ℤ → List ℕ
encoded f = write_varint_signed f asc []

abbrev pub AllFit : Option ℤ → Type 0
AllFit none = Unit
AllFit (some f) = IsI64 f

-- The fourth byte of a key in the log section is odd.
abbrev pub IsLogKey : List ℕ → Type 0
IsLogKey key = (id_byte : ℕ) × (get_elem? key 3 ≡ some id_byte) × (id_byte % 2 ≡ 1)

read_encoded : (f : ℤ) → IsI64 f → read_varint_signed asc (encoded f) ≡ some (f, [])
read_encoded f h =
    subst (λ l. read_varint_signed asc l ≡ some (f, [])) (append-nil (encoded f))
      (read-write_varint_signed f asc [] h)

merge_operands-total :
    (count : ℤ) (fs : List ℤ)
    → All IsI64 fs
    → merge_operands count (map encoded fs) ≡ some (total count fs)
unfolding merge_operands total
merge_operands-total count [] h = refl
merge_operands-total count (f ∷ fs) h =
    rw (read_encoded f h.0) (merge_operands-total (wrap_i64 (count +ℤ f)) fs h.1)

pub total-IsI64 : (count : ℤ) (fs : List ℤ) → IsI64 count → IsI64 (total count fs)
unfolding total
total-IsI64 count [] h = h
total-IsI64 count (f ∷ fs) h = total-IsI64 (wrap_i64 (count +ℤ f)) fs (wrap_i64-IsI64 (count +ℤ f))

pub total-append : (count : ℤ) (fs gs : List ℤ) → total count (fs ++ gs) ≡ total (total count fs) gs
unfolding total
total-append count [] gs = refl
total-append count (f ∷ fs) gs = total-append (wrap_i64 (count +ℤ f)) fs gs

pub wrap_i64_fits : (i : ℤ) → IsI64 i → wrap_i64 i ≡ i
unfolding wrap_i64
wrap_i64_fits (pos n) h = ground arith
wrap_i64_fits (negsuc n) h = ground arith

pub add_zero : (i : ℤ) → i +ℤ pos 0 ≡ i
unfolding ◌+ℤ◌
add_zero (pos n) = ground arith
add_zero (negsuc n) = ground arith

-- Adding a sum made beforehand.
wrap-total : (a b : ℤ) (fs : List ℤ) → wrap_i64 (a +ℤ total b fs) ≡ total (wrap_i64 (a +ℤ b)) fs
unfolding total
wrap-total a b [] = refl
wrap-total a b (f ∷ fs) =
    wrap-total a (wrap_i64 (b +ℤ f)) fs ∙ ap (λ c. total c fs) (sym (wrap_assoc a b f))

pub total-change : (c : ℤ) (gs : List ℤ) → IsI64 c → total c (total (pos 0) gs ∷ []) ≡ total c gs
unfolding total
total-change c gs h =
    wrap-total c (pos 0) gs ∙ ap (λ a. total a gs) (ap wrap_i64 (add_zero c) ∙ wrap_i64_fits c h)

start-IsI64 : (existing : Option ℤ) → AllFit existing → IsI64 (Option.get_or existing (pos 0))
start-IsI64 none h = omega arith
start-IsI64 (some f) h = h

-- On a key of the log section, merging changes into a stored frequency stores the frequency that
-- adding them one after the other as `i64` gives; with nothing stored the sum starts at 0. All
-- numbers are `i64`.
pub frequency_merge_impl-total :
    (key : List ℕ) (existing : Option ℤ) (fs : List ℤ)
    → IsLogKey key
    → AllFit existing
    → All IsI64 fs
    → frequency_merge_impl key (Option.map encoded existing) (map encoded fs)
      ≡ some (encoded (total (Option.get_or existing (pos 0)) fs))
unfolding frequency_merge_impl existing_count
frequency_merge_impl-total key none fs (b, at, odd) e h =
    let odd' : (b % 2 == 1) ≡ true = ground arith in
    rw (at, odd', merge_operands-total (pos 0) fs h) refl
frequency_merge_impl-total key (some f) fs (b, at, odd) e h =
    let odd' : (b % 2 == 1) ≡ true = ground arith in
    rw (at, odd', read_encoded f e, merge_operands-total f fs h) refl

-- On a key of the log section, merging some changes into one change first, and that into the stored
-- frequency after the others, stores the same as merging all of them in turn. All numbers are `i64`.
pub frequency_merge_impl-partial :
    (key : List ℕ) (existing : Option ℤ) (fs gs : List ℤ)
    → IsLogKey key
    → AllFit existing
    → All IsI64 fs
    → All IsI64 gs
    → (do
      change ← frequency_merge_impl key none (map encoded gs)
      frequency_merge_impl key (Option.map encoded existing) (map encoded fs ++ (change ∷ [])))
      ≡ frequency_merge_impl key (Option.map encoded existing) (map encoded (fs ++ gs))
frequency_merge_impl-partial key existing fs gs log e hf hg =
    rw
      (
        frequency_merge_impl-total key none gs log tt hg,
        frequency_merge_impl-total key existing (fs ++ gs) log e (All-append IsI64 fs gs hf hg),
      )
      (subst
        (λ l.
          frequency_merge_impl key (Option.map encoded existing) l
          ≡ some (encoded (total start (fs ++ gs))))
        (List.map-append encoded fs (change ∷ []))
        (frequency_merge_impl-total key existing (fs ++ (change ∷ [])) log e
            (All-append IsI64 fs (change ∷ []) hf (total-IsI64 (pos 0) gs (omega arith), tt))
          ∙ ap (λ t. some (encoded t))
              (total-append start fs (change ∷ [])
                ∙ total-change (total start fs) gs (total-IsI64 start fs (start-IsI64 existing e))
                ∙ sym (total-append start fs gs))))
  where
    change : ℤ
    change = total (pos 0) gs

    start : ℤ
    start = Option.get_or existing (pos 0)

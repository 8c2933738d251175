-- ===== src/Server/ProtocolBase/RoundTrip.antt =====
-- What the writers of a packet append, its readers read back, whatever follows it.
use incresql.Prelude.{◌==◌, false}
use incresql.Prelude.{ℕ, suc, ◌%◌, ◌^◌, ◌≤◌, ◌<◌, ◌≡◌, refl, sym, ap, inl, inr, arith}
use incresql.Prelude.{Option, some, List, [], ◌∷◌, ◌++◌, take, length, append_assoc, Bool-cases}
use incresql.Prelude.{
  ltb, leb, ltb→lt, ltb-false→le, leb→le, le→leb, All, length-append, length-take,
}
use incresql.Encoding.Bytes.{IsU64, to_le_bytes, from_le_bytes}
use incresql.Encoding.Bytes.BigEndian.{split_bytes-append}
use incresql.Encoding.Bytes.LittleEndian.{read_le-to_le_bytes, length-to_le_bytes}
use incresql.Server.ProtocolBase.{
  write_int_2, write_int_3, read_int_2, read_int_3, write_enc_int, read_enc_int, write_null_string,
  null_length, read_null_bytestring, write_eof_string, write_enc_string, read_enc_bytestring,
}

-- The three low bytes of a word that fits them.
read-write_int_3 :
    (n : ℕ) (rest : List ℕ)
    → n < 256 ^ 3
    → read_int_3 (take 3 (to_le_bytes 4 n) ++ rest) ≡ some (n, rest)
unfolding read_int_3 to_le_bytes from_le_bytes
read-write_int_3 n rest h = ap (λ m. some (m, rest)) (omega arith)

-- What a length-encoded integer looks like.
data EncInt (n : ℕ) (buffer : List ℕ) : Type 0 where
  one : n < 251 → write_enc_int n buffer ≡ buffer ++ (n ∷ []) → EncInt n buffer
  two : n < 256 ^ 2 → write_enc_int n buffer ≡ buffer ++ (252 ∷ to_le_bytes 2 n) → EncInt n buffer
  three :
      n < 256 ^ 3
      → write_enc_int n buffer ≡ buffer ++ (253 ∷ take 3 (to_le_bytes 4 n))
      → EncInt n buffer
  eight : n < 256 ^ 8 → write_enc_int n buffer ≡ buffer ++ (254 ∷ to_le_bytes 8 n) → EncInt n buffer

EncInt-cases : (n : ℕ) (buffer : List ℕ) → IsU64 n → EncInt n buffer
unfolding write_enc_int write_int_2 write_int_3
EncInt-cases n buffer h = elim (Bool-cases (ltb n 251)) [
  | inl e ↦
      let low = ltb→lt _ _ e in
      let same : n % 2 ^ 8 ≡ n = omega arith in EncInt.one low (rw (e, same) refl)
  | inr e ↦
      let high = le→leb _ _ (ltb-false→le _ _ e) in
      elim (Bool-cases (leb n 65535)) [
        | inl f ↦
            let low = leb→le _ _ f in
            let same : n % 2 ^ 16 ≡ n = omega arith in
            EncInt.two (omega arith) (rw (e, high, f, same) (append_assoc buffer _ _))
        | inr f ↦ elim (Bool-cases (leb n 16777215)) [
          | inl g ↦
              let low = leb→le _ _ g in
              let same : n % 2 ^ 32 ≡ n = omega arith in
              EncInt.three (omega arith) (rw (e, high, f, g, same) (append_assoc buffer _ _))
          | inr g ↦ EncInt.eight h (rw (e, high, f, g) (append_assoc buffer _ _))
        ]
      ]
]

-- The bytes of a field do not start with the byte of a null.
abbrev pub NotNull : List ℕ → Type 0
NotNull [] = ⊥
NotNull (b ∷ bytes) = (b == 251) ≡ false

-- Bytes that a writer puts behind the buffer and a reader takes off.
pub record Encoded {ℓ} {A : Type ℓ} (written : List ℕ) (read : List ℕ → Option (A × List ℕ)) (a : A)
    (buffer : List ℕ) : Type ℓ where
  pub bytes : List ℕ
  pub appended : written ≡ buffer ++ bytes
  pub read_back : (rest : List ℕ) → read (bytes ++ rest) ≡ some (a, rest)
  pub not_null : NotNull bytes

EncInt-read :
    (n : ℕ) (buffer : List ℕ)
    → EncInt n buffer
    → (e : Encoded (write_enc_int n buffer) read_enc_int n buffer) × (length e.bytes ≤ 9)
unfolding read_enc_int read_int_2
EncInt-read n buffer (EncInt.one h e) = (
  record {
    bytes = n ∷ [];
    appended = e;
    read_back = λ rest. ground arith;
    not_null = ground arith;
  },
  omega arith,
)
EncInt-read n buffer (EncInt.two h e) = (
  record {
    bytes = 252 ∷ to_le_bytes 2 n;
    appended = e;
    read_back = λ rest. read_le-to_le_bytes 2 n rest h;
    not_null = refl;
  },
  omega (arith, length-to_le_bytes 2 n),
)
EncInt-read n buffer (EncInt.three h e) = (
  record {
    bytes = 253 ∷ take 3 (to_le_bytes 4 n);
    appended = e;
    read_back = λ rest. read-write_int_3 n rest h;
    not_null = refl;
  },
  omega (arith, length-take 3 (to_le_bytes 4 n)),
)
EncInt-read n buffer (EncInt.eight h e) = (
  record {
    bytes = 254 ∷ to_le_bytes 8 n;
    appended = e;
    read_back = λ rest. read_le-to_le_bytes 8 n rest h;
    not_null = refl;
  },
  omega (arith, length-to_le_bytes 8 n),
)

-- A length-encoded u64 is at most nine bytes behind the buffer, and is read back from them with
-- what follows left over.
pub read-write_enc_int :
    (n : ℕ) (buffer rest : List ℕ)
    → IsU64 n
    → (bytes : List ℕ) × (write_enc_int n buffer ≡ buffer ++ bytes)
      × (read_enc_int (bytes ++ rest) ≡ some (n, rest))
      × (length bytes ≤ 9)
read-write_enc_int n buffer rest h =
    let (e, small) = EncInt-read n buffer (EncInt-cases n buffer h) in
    (e.bytes, e.appended, e.read_back rest, small)

NotNull-append : (xs ys : List ℕ) → NotNull xs → NotNull (xs ++ ys)
NotNull-append [] ys h = absurd h
NotNull-append (x ∷ xs) ys h = h

pub write_enc_string-Encoded :
    (s buffer : List ℕ)
    → IsU64 (length s)
    → Encoded (write_enc_string s buffer) read_enc_bytestring s buffer
unfolding write_enc_string write_eof_string read_enc_bytestring
write_enc_string-Encoded s buffer h =
    let (e, small) = EncInt-read (length s) buffer (EncInt-cases (length s) buffer h) in
    record {
      bytes = e.bytes ++ s;
      appended = rw (e.appended) (append_assoc buffer e.bytes s);
      read_back = λ rest.
          rw (append_assoc e.bytes s rest, e.read_back (s ++ rest))
            (split_bytes-append (length s) s rest refl);
      not_null = NotNull-append e.bytes s e.not_null;
    }

-- A string of fewer than 2^64 bytes behind its length is read back with what follows left over.
pub read-write_enc_string :
    (s buffer rest : List ℕ)
    → IsU64 (length s)
    → (bytes : List ℕ) × (write_enc_string s buffer ≡ buffer ++ bytes)
      × (read_enc_bytestring (bytes ++ rest) ≡ some (s, rest))
read-write_enc_string s buffer rest h =
    let e = write_enc_string-Encoded s buffer h in (e.bytes, e.appended, e.read_back rest)

null_length-append :
    (s rest : List ℕ) → All (λ b. 0 < b) s → null_length (s ++ (0 ∷ rest)) ≡ length s
unfolding null_length
null_length-append [] rest h = refl
null_length-append (b ∷ s) rest h =
    let ih = null_length-append s rest h.1 in let pos = h.0 in ground arith

-- A string without zero bytes, closed by one, is read back with what follows left over.
pub read-write_null_string :
    (s buffer rest : List ℕ)
    → All (λ b. 0 < b) s
    → (bytes : List ℕ) × (write_null_string s buffer ≡ buffer ++ bytes)
      × (read_null_bytestring (bytes ++ rest) ≡ some (s, rest))
unfolding write_null_string read_null_bytestring
read-write_null_string s buffer rest h =
    let with_zero : (s ++ (0 ∷ [])) ++ rest ≡ s ++ (0 ∷ rest) = append_assoc s _ rest in
    let before = split_bytes-append (length s) s (0 ∷ rest) refl in
    let after =
      split_bytes-append (suc (length s)) (s ++ (0 ∷ [])) rest
        (omega (arith, length-append s (0 ∷ []))) in
    (
      s ++ (0 ∷ []),
      append_assoc buffer s (0 ∷ []),
      rw (with_zero, null_length-append s rest h, before, sym with_zero, after) refl,
    )

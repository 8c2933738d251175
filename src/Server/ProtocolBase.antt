-- ===== src/Server/ProtocolBase.antt =====
-- src/server/src/mysql/protocol_base.rs: the integers and the strings of a packet. A writer appends
-- to the buffer; a reader returns what it stores through its reference and the rest of the buffer,
-- or `none` where the buffer is too short. A text is its bytes.
pub mod RoundTrip
use incresql.Prelude.{ℕ, suc, ◌%◌, ◌^◌, Option, none, some, List, [], ◌∷◌, ◌++◌, take, length}
use incresql.Prelude.{ltb, leb, ◌==◌, if◌then◌else◌, ◌&&◌, ◌>>=◌}
use incresql.Encoding.Bytes.{push, to_le_bytes, from_le_bytes, read_le, split_bytes}

unfoldable pub write_int_1 : ℕ → List ℕ → List ℕ
write_int_1 i buffer = push buffer i

unfoldable pub read_int_1 : List ℕ → Option (ℕ × List ℕ)
read_int_1 [] = none
read_int_1 (b ∷ rest) = some (b, rest)

unfoldable pub write_int_2 : ℕ → List ℕ → List ℕ
write_int_2 i buffer = buffer ++ to_le_bytes 2 i

unfoldable pub read_int_2 : List ℕ → Option (ℕ × List ℕ)
read_int_2 buffer = read_le 2 buffer

unfoldable pub write_int_3 : ℕ → List ℕ → List ℕ
write_int_3 i buffer = buffer ++ take 3 (to_le_bytes 4 i)

unfoldable pub read_int_3 : List ℕ → Option (ℕ × List ℕ)
read_int_3 (b0 ∷ b1 ∷ b2 ∷ rest) = some (from_le_bytes (b0 ∷ b1 ∷ b2 ∷ 0 ∷ []), rest)
read_int_3 short = none

unfoldable pub write_int_4 : ℕ → List ℕ → List ℕ
write_int_4 i buffer = buffer ++ to_le_bytes 4 i

unfoldable pub read_int_4 : List ℕ → Option (ℕ × List ℕ)
read_int_4 buffer = read_le 4 buffer

-- A length-encoded integer: one byte below 251, else a tag and two, three or eight bytes.
unfoldable pub write_enc_int : ℕ → List ℕ → List ℕ
write_enc_int i buffer =
    if ltb i 251
    then push buffer (i % 2 ^ 8)
    else if leb 251 i && leb i 65535
    then write_int_2 (i % 2 ^ 16) (push buffer 252)
    else if leb 251 i && leb i 16777215
    then write_int_3 (i % 2 ^ 32) (push buffer 253)
    else (push buffer 254 ++ to_le_bytes 8 i)

unfoldable pub read_enc_int : List ℕ → Option (ℕ × List ℕ)
read_enc_int [] = none
read_enc_int (b ∷ rest) =
    if b == 252
    then read_int_2 rest
    else if b == 253
    then read_int_3 rest
    else if b == 254
    then read_le 8 rest
    else some (b, rest)

unfoldable pub write_null_string : List ℕ → List ℕ → List ℕ
write_null_string s buffer = push (buffer ++ s) 0

-- The loop that counts the bytes before the first zero.
unfoldable pub null_length : List ℕ → ℕ
null_length [] = 0
null_length (b ∷ buffer) = let rest = null_length buffer in if b == 0 then 0 else suc rest

unfoldable pub read_null_bytestring : List ℕ → Option (List ℕ × List ℕ)
read_null_bytestring buffer = do
  (s, after) ← split_bytes (null_length buffer) buffer
  (before, rest) ← split_bytes (suc (null_length buffer)) buffer
  some (s, rest)

unfoldable pub read_null_string : List ℕ → Option (List ℕ × List ℕ)
read_null_string buffer = read_null_bytestring buffer

unfoldable pub write_eof_string : List ℕ → List ℕ → List ℕ
write_eof_string s buffer = buffer ++ s

unfoldable pub read_eof_bytestring : List ℕ → Option (List ℕ × List ℕ)
read_eof_bytestring buffer = some (buffer, [])

unfoldable pub read_eof_string : List ℕ → Option (List ℕ × List ℕ)
read_eof_string buffer = some (buffer, [])

unfoldable pub read_fixed_length_bytestring : ℕ → List ℕ → Option (List ℕ × List ℕ)
read_fixed_length_bytestring length buffer = split_bytes length buffer

unfoldable pub read_fixed_length_string : ℕ → List ℕ → Option (List ℕ × List ℕ)
read_fixed_length_string length buffer = read_fixed_length_bytestring length buffer

-- A string behind its length.
unfoldable pub write_enc_string : List ℕ → List ℕ → List ℕ
write_enc_string s buffer = write_eof_string s (write_enc_int (length s) buffer)

unfoldable pub read_enc_string : List ℕ → Option (List ℕ × List ℕ)
read_enc_string buffer = do (length, rem) ← read_enc_int buffer; read_fixed_length_string length rem

unfoldable pub read_enc_bytestring : List ℕ → Option (List ℕ × List ℕ)
read_enc_bytestring buffer = do (length, rem) ← read_enc_int buffer; split_bytes length rem

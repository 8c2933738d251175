-- ===== src/Server/Packets/Handshake/Flags.antt =====
-- The capabilities that a connection goes by.
use incresql.Prelude.{
  ℕ, zero, suc, ◌+◌, ◌*◌, ◌/◌, ◌%◌, ◌^◌, ◌<◌, ◌≡◌, refl, ap, ◌∙◌, inl, inr, false,
}
use incresql.Prelude.{some, List, arith, Bool-cases, bind-split, if◌then◌else◌}
use incresql.Prelude.{subst}
use incresql.Server.Constants.{capability_client_protocol_41}
use incresql.Server.ProtocolBase.{read_int_2}
use incresql.Server.Packets.Handshake.{read_fields_41, read_fields_320}
use incresql.Server.Packets.{bit_and, has_flag, server_supported_capabilities}
use incresql.Server.Packets.Handshake.{
  HandshakeResponsePacket, assert_empty, read_response_41, read_response_320,
  read_handshake_response,
}

-- The lowest bit of a conjunction, and the bits above it.
product_bit :
    (b c x : ℕ) → b < 2 → c < 2 → ((b * c + 2 * x) % 2 ≡ b * c) × ((b * c + 2 * x) / 2 ≡ x)
product_bit zero c x hb hc = (omega arith, omega arith)
product_bit (suc zero) c x hb hc = (omega arith, omega arith)
product_bit (suc (suc b)) c x hb hc = absurd (omega arith)

product-clear : (a s f : ℕ) → a < 2 → s * f ≡ 0 → a * s * f ≡ 0
product-clear zero s f h e = omega arith
product-clear (suc zero) s f h e = ap (λ t. t * f) (omega arith) ∙ e
product-clear (suc (suc a)) s f h e = absurd (omega arith)

-- A bit that one of two words lacks, their conjunction lacks.
bit_and-clear : (k a s f : ℕ) → bit_and k s f ≡ 0 → bit_and k (bit_and k a s) f ≡ 0
unfolding bit_and
bit_and-clear zero a s f h = refl
bit_and-clear (suc k) a s f h =
    let ih = bit_and-clear k (a / 2) (s / 2) (f / 2) (omega arith) in
    let (low, high) =
      product_bit (a % 2) (s % 2) (bit_and k (a / 2) (s / 2)) (omega arith) (omega arith) in
    rw (low, high, ih, product-clear (a % 2) (s % 2) (f % 2) (omega arith) (omega arith)) refl

-- The flags are in the packet that the fields make.
read_fields_41-client_flags :
    (flags : ℕ) (buffer : List ℕ) (p : HandshakeResponsePacket)
    → read_fields_41 flags buffer ≡ some p
    → p.client_flags ≡ flags
unfolding read_fields_41 assert_empty
read_fields_41-client_flags flags buffer p h = ground arith

read_fields_320-client_flags :
    (flags : ℕ) (buffer : List ℕ) (p : HandshakeResponsePacket)
    → read_fields_320 flags buffer ≡ some p
    → p.client_flags ≡ flags
unfolding read_fields_320 assert_empty
read_fields_320-client_flags flags buffer p h = ground arith

read_response_41-client_flags :
    (lower : ℕ) (buffer : List ℕ) (p : HandshakeResponsePacket)
    → read_response_41 lower buffer ≡ some p
    → (sent : ℕ) × (p.client_flags ≡ bit_and 32 sent server_supported_capabilities)
unfolding read_response_41
read_response_41-client_flags lower buffer p h =
    let (u, e, k) =
      bind-split (read_int_2 buffer)
        (λ u. read_fields_41 (bit_and 32 (lower + u.0 * 2 ^ 16) server_supported_capabilities) u.1)
        p h in
    (_, read_fields_41-client_flags _ u.1 p k)

read_handshake_response-client_flags :
    (buffer : List ℕ) (p : HandshakeResponsePacket)
    → read_handshake_response buffer ≡ some p
    → (sent : ℕ) × (p.client_flags ≡ bit_and 32 sent server_supported_capabilities)
unfolding read_handshake_response read_response_320
read_handshake_response-client_flags buffer p h =
    let (u, e, k) =
      bind-split (read_int_2 buffer)
        (λ u.
          if has_flag u.0 capability_client_protocol_41
          then read_response_41 u.0 u.1
          else read_response_320 u.0 u.1)
        p h in
    elim (Bool-cases (has_flag u.0 capability_client_protocol_41)) [
      | inl c ↦ read_response_41-client_flags u.0 u.1 p (
          subst (λ b. (if b then read_response_41 u.0 u.1 else read_response_320 u.0 u.1) ≡ some p)
            c k)
      | inr c ↦ (
        _,
        read_fields_320-client_flags _ u.1 p (
            subst
              (λ b. (if b then read_response_41 u.0 u.1 else read_response_320 u.0 u.1) ≡ some p) c
              k),
      )
    ]

-- A capability that a connection goes by is one that the server supports, whatever flags the
-- client sent: a flag that no supported capability meets is not on in the packet.
pub read_handshake_response-has_flag :
    (buffer : List ℕ) (p : HandshakeResponsePacket) (flag : ℕ)
    → read_handshake_response buffer ≡ some p
    → has_flag server_supported_capabilities flag ≡ false
    → has_flag p.client_flags flag ≡ false
unfolding has_flag
read_handshake_response-has_flag buffer p flag h off =
    let (sent, same) = read_handshake_response-client_flags buffer p h in
    let clear : bit_and 32 server_supported_capabilities flag ≡ 0 = ground arith in
    rw (same, bit_and-clear 32 sent server_supported_capabilities flag clear) refl

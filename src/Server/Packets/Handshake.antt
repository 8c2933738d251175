-- ===== src/Server/Packets/Handshake.antt =====
-- src/server/src/mysql/packets.rs: what a client sends. A reader is `none` where it panics, also on
-- bytes left over.
pub mod Flags
pub mod Attrs
use incresql.Prelude.{ℕ, zero, suc, ◌+◌, ◌*◌, ◌/◌, ◌%◌, ◌^◌, Bool, true, false, not, ◌&&◌}
use incresql.Prelude.{Option, none, some, List, [], ◌∷◌, length, ◌==◌, if◌then◌else◌, ◌>>=◌}
use incresql.Encoding.Bytes.{split_bytes}
use incresql.Data.Datum.{bytes_eq}
use incresql.Server.Constants.{
  capability_client_connect_with_db, capability_client_protocol_41, capability_client_connect_attrs,
  capability_client_plugin_auth, capability_client_plugin_auth_lenenc_client_data,
}
use incresql.Server.ProtocolBase.{
  read_int_1, read_int_2, read_int_3, read_int_4, read_enc_int, read_null_string,
  read_null_bytestring, read_eof_string, read_eof_bytestring, read_enc_string, read_enc_bytestring,
  read_fixed_length_bytestring,
}
use incresql.Server.Packets.{bit_and, has_flag, server_supported_capabilities}

abbrev is_empty : List ℕ → Bool
is_empty [] = true
is_empty (b ∷ buffer) = false

-- A hash map of texts.
abbrev pub Attributes : Type 0
Attributes = List (List ℕ × List ℕ)

unfoldable pub insert : List ℕ → List ℕ → Attributes → Attributes
insert key value [] = (key, value) ∷ []
insert key value ((k, v) ∷ attrs) =
    if bytes_eq key k then (key, value) ∷ attrs else ((k, v) ∷ insert key value attrs)

pub record HandshakeResponsePacket : Type 0 where
  pub client_flags : ℕ
  pub max_packet_size : ℕ
  pub character_set : ℕ
  pub username : List ℕ
  pub auth_response : List ℕ
  pub database : List ℕ
  pub client_plugin_name : List ℕ
  pub client_connection_attrs : Attributes

-- A field that is read under a condition, and else stays at its default, the empty one.
abbrev read_if {ℓ} :
    {A : Type ℓ} → Bool → (List ℕ → Option (List A × List ℕ)) → List ℕ → Option (List A × List ℕ)
read_if true read buffer = read buffer
read_if false read buffer = some ([], buffer)

-- `while !buffer.is_empty()`, on fuel.
unfoldable pub read_attrs : ℕ → List ℕ → Attributes → Option Attributes
read_attrs fuel [] attrs = some attrs
read_attrs zero (b ∷ buffer) attrs = none
read_attrs (suc fuel) (b ∷ buffer) attrs = do
  (key, after_key) ← read_enc_string (b ∷ buffer)
  (value, rest) ← read_enc_string after_key
  read_attrs fuel rest (insert key value attrs)

-- Each round of the loop takes a byte at least, so the length of the buffer is enough fuel.
unfoldable pub read_connection_attrs : List ℕ → Option (Attributes × List ℕ)
read_connection_attrs buffer = do
  (len_kvs, rest) ← read_enc_int buffer
  attrs ← read_attrs (length rest) rest []
  some (attrs, [])

unfoldable pub read_auth_response : Bool → List ℕ → Option (List ℕ × List ℕ)
read_auth_response true buffer = read_enc_bytestring buffer
read_auth_response false buffer = do
  (len, rest) ← read_int_1 buffer
  read_fixed_length_bytestring len rest

-- `assert!(buffer.is_empty())`.
unfoldable pub assert_empty : List ℕ → HandshakeResponsePacket → Option HandshakeResponsePacket
assert_empty [] packet = some packet
assert_empty (b ∷ buffer) packet = none

-- The fields behind the capabilities of a client of the protocol from 4.1 on.
unfoldable pub read_fields_41 : ℕ → List ℕ → Option HandshakeResponsePacket
read_fields_41 flags b1 = do
  (max_packet_size, b2) ← read_int_4 b1
  (character_set, b3) ← read_int_1 b2
  (filler, b4) ← split_bytes 23 b3
  (username, b5) ← read_null_string b4
  (auth_response, b6) ←
      read_auth_response (has_flag flags capability_client_plugin_auth_lenenc_client_data) b5
  (database, b7) ← read_if (has_flag flags capability_client_connect_with_db) read_null_string b6
  (client_plugin_name, b8) ←
      read_if (not (is_empty b7) && has_flag flags capability_client_plugin_auth) read_null_string
        b7
  (attrs, b9) ←
      read_if (not (is_empty b8) && has_flag flags capability_client_connect_attrs)
        read_connection_attrs b8
  assert_empty b9 (record {
    client_flags = flags;
    max_packet_size = max_packet_size;
    character_set = character_set;
    username = username;
    auth_response = auth_response;
    database = database;
    client_plugin_name = client_plugin_name;
    client_connection_attrs = attrs;
  })

unfoldable pub read_response_41 : ℕ → List ℕ → Option HandshakeResponsePacket
read_response_41 lower_capabilities buffer = do
  (upper_capabilities, b1) ← read_int_2 buffer
  read_fields_41
      (bit_and 32 (lower_capabilities + upper_capabilities * 2 ^ 16) server_supported_capabilities)
      b1

unfoldable pub read_old_auth : Bool → List ℕ → Option (List ℕ × List ℕ × List ℕ)
read_old_auth true buffer = do
  (auth_response, b1) ← read_null_bytestring buffer
  (database, b2) ← read_null_string b1
  some (auth_response, database, b2)
read_old_auth false buffer = do
  (auth_response, b1) ← read_eof_bytestring buffer
  some (auth_response, [], b1)

-- The response of an older client.
unfoldable pub read_fields_320 : ℕ → List ℕ → Option HandshakeResponsePacket
read_fields_320 flags buffer = do
  (max_packet_size, b1) ← read_int_3 buffer
  (username, b2) ← read_null_string b1
  (auth_response, database, b3) ←
      read_old_auth (has_flag flags capability_client_connect_with_db) b2
  assert_empty b3 (record {
    client_flags = flags;
    max_packet_size = max_packet_size;
    character_set = 0;
    username = username;
    auth_response = auth_response;
    database = database;
    client_plugin_name = [];
    client_connection_attrs = [];
  })

unfoldable pub read_response_320 : ℕ → List ℕ → Option HandshakeResponsePacket
read_response_320 lower_capabilities buffer =
    read_fields_320 (bit_and 32 lower_capabilities server_supported_capabilities) buffer

unfoldable pub read_handshake_response : List ℕ → Option HandshakeResponsePacket
read_handshake_response buffer = do
  (lower_capabilities, b1) ← read_int_2 buffer
  if has_flag lower_capabilities capability_client_protocol_41
      then read_response_41 lower_capabilities b1
      else read_response_320 lower_capabilities b1

pub record AuthSwitchResponsePacket : Type 0 where
  pub auth_data : List ℕ

unfoldable pub read_auth_switch_response : List ℕ → Option AuthSwitchResponsePacket
read_auth_switch_response buffer = do
  (bytes, rest) ← read_eof_bytestring buffer
  some (record { auth_data = bytes })

pub record ComInitDbPacket : Type 0 where
  pub schema : List ℕ

unfoldable pub read_com_init_db : List ℕ → Option ComInitDbPacket
read_com_init_db buffer = do (text, rest) ← read_eof_string buffer; some (record { schema = text })

pub record ComQueryPacket : Type 0 where
  pub query : List ℕ

unfoldable pub read_com_query : List ℕ → Option ComQueryPacket
read_com_query buffer = do (text, rest) ← read_eof_string buffer; some (record { query = text })

-- ===== src/Examples/Server.antt =====
-- Packets of src/server/src/mysql, those of its tests among them.
use incresql.Prelude.{ℕ, ◌≡◌, refl, none, some, List, [], ◌∷◌, ◌++◌, true, false, length, arith}
use incresql.Data.DataType.{integer_type, text_type, boolean_type}
use incresql.Data.Datum.{null, boolean, integer}
use incresql.Prelude.Int.{pos}
use incresql.Examples.Sample.{SampleDatum}
use incresql.Encoding.Bytes.{IsU64}
use incresql.Server.Constants.{capability_client_session_track, mysql_er_no_tables_used}
use incresql.Server.ProtocolBase.{
  write_enc_int, write_enc_string, write_null_string, read_null_bytestring,
}
use incresql.Server.Packets.{
  server_supported_capabilities, has_flag, write_handshake_packet, write_err_packet_from_err,
  write_ok_packet, write_eof_packet, write_resultset_packet, write_column_packet,
  write_tuple_packet,
}
use incresql.Server.Packets.{bit_and, write_err_packet, write_column_41, column_type}
use incresql.Data.Datum.{bytes_eq}
use incresql.Server.Packets.Handshake.{
  Attributes, read_response_320, read_fields_320, read_old_auth, assert_empty,
}
use incresql.Server.ProtocolBase.{
  write_int_1, write_int_2, write_int_4, write_eof_string, read_int_2, read_int_3, read_null_string,
  null_length, read_eof_bytestring,
}
use incresql.Encoding.Bytes.{to_le_bytes, from_le_bytes, split_bytes, read_le}
use incresql.Data.DataType.{DataType}
use incresql.Server.Packets.Rows.{read_columns, read_columns-write_tuple_packet}
use incresql.Server.Packets.Handshake.{
  HandshakeResponsePacket, read_handshake_response, read_connection_attrs,
}
use incresql.Server.Packets.Handshake.Flags.{read_handshake_response-has_flag}
use incresql.Server.Packets.Handshake.Attrs.{
  attr_bytes, get_attr, last_value, read_connection_attrs-attr_bytes,
}

write_err_packet_from_err_test :
    write_err_packet_from_err mysql_er_no_tables_used server_supported_capabilities []
    ≡ 255 ∷ 72 ∷ 4 ∷ 35 ∷ 72 ∷ 89 ∷ 48 ∷ 48 ∷ 48 ∷ 78 ∷ 111 ∷ 32 ∷ 116 ∷ 97 ∷ 98 ∷ 108 ∷ 101 ∷ 115
      ∷ 32 ∷ 117 ∷ 115 ∷ 101 ∷ 100 ∷ []
unfolding write_err_packet_from_err write_err_packet has_flag bit_and write_int_1 write_int_2
    write_int_4 write_enc_int write_null_string write_eof_string write_enc_string to_le_bytes
write_err_packet_from_err_test = refl

write_handshake_packet_test :
    write_handshake_packet 1 []
    ≡ 10 ∷ 56 ∷ 46 ∷ 48 ∷ 46 ∷ 48 ∷ 45 ∷ 105 ∷ 110 ∷ 99 ∷ 114 ∷ 101 ∷ 115 ∷ 113 ∷ 108 ∷ 0 ∷ 1 ∷ 0
      ∷ 0 ∷ 0 ∷ 1 ∷ 2 ∷ 3 ∷ 4 ∷ 5 ∷ 6 ∷ 7 ∷ 0 ∷ 0 ∷ 31 ∷ 130 ∷ 33 ∷ 0 ∷ 0 ∷ 56 ∷ 1 ∷ 20 ∷ 0 ∷ 0 ∷ 0
      ∷ 0 ∷ 0 ∷ 0 ∷ 0 ∷ 0 ∷ 0 ∷ 0 ∷ 1 ∷ 1 ∷ 2 ∷ 3 ∷ 4 ∷ 5 ∷ 6 ∷ 7 ∷ 8 ∷ 9 ∷ 1 ∷ 1 ∷ 0 ∷ 109 ∷ 121
      ∷ 115 ∷ 113 ∷ 108 ∷ 95 ∷ 110 ∷ 97 ∷ 116 ∷ 105 ∷ 118 ∷ 101 ∷ 95 ∷ 112 ∷ 97 ∷ 115 ∷ 115 ∷ 119
      ∷ 111 ∷ 114 ∷ 100 ∷ 0 ∷ []
unfolding write_handshake_packet has_flag bit_and write_int_1 write_int_2 write_int_4 write_enc_int
    write_null_string write_eof_string write_enc_string to_le_bytes
write_handshake_packet_test = refl

write_ok_packet_test :
    write_ok_packet false 0 server_supported_capabilities [] ≡ 0 ∷ 0 ∷ 0 ∷ 2 ∷ 0 ∷ 0 ∷ 0 ∷ []
unfolding write_ok_packet has_flag bit_and write_int_1 write_int_2 write_int_4 write_enc_int
    write_null_string write_eof_string write_enc_string to_le_bytes
write_ok_packet_test = refl

write_eof_packet_test : write_eof_packet server_supported_capabilities [] ≡ 254 ∷ 0 ∷ 0 ∷ 2 ∷ 0 ∷ []
unfolding write_eof_packet has_flag bit_and write_int_1 write_int_2 write_int_4 write_enc_int
    write_null_string write_eof_string write_enc_string to_le_bytes
write_eof_packet_test = refl

write_column_packet_test :
    write_column_packet
      (102 ∷ 111 ∷ 111 ∷ [])
      (98 ∷ 97 ∷ 114 ∷ [])
      integer_type
      server_supported_capabilities
      []
    ≡ 3 ∷ 100 ∷ 101 ∷ 102 ∷ 0 ∷ 3 ∷ 102 ∷ 111 ∷ 111 ∷ 0 ∷ 3 ∷ 98 ∷ 97 ∷ 114 ∷ 0 ∷ 12 ∷ 33 ∷ 0 ∷ 0
      ∷ 4 ∷ 0 ∷ 0 ∷ 3 ∷ 0 ∷ 0 ∷ 0 ∷ 0 ∷ 0 ∷ []
unfolding write_column_packet write_column_41 column_type has_flag bit_and write_int_1 write_int_2
    write_int_4 write_enc_int write_null_string write_eof_string write_enc_string to_le_bytes
write_column_packet_test = refl

write_resultset_packet_test : write_resultset_packet 4 server_supported_capabilities [] ≡ 4 ∷ []
unfolding write_resultset_packet has_flag bit_and write_int_1 write_int_2 write_int_4 write_enc_int
    write_null_string write_eof_string write_enc_string to_le_bytes
write_resultset_packet_test = refl

-- The response of a client before 4.1, whose user is `old`.
abbrev old_response : List ℕ
old_response =
    133 ∷ 36 ∷ 0 ∷ 0 ∷ 0 ∷ 111 ∷ 108 ∷ 100 ∷ 0 ∷ 71 ∷ 68 ∷ 83 ∷ 67 ∷ 81 ∷ 89 ∷ 82 ∷ 95 ∷ []

abbrev old_packet : HandshakeResponsePacket
old_packet = record {
  client_flags = 5;
  max_packet_size = 0;
  character_set = 0;
  username = 111 ∷ 108 ∷ 100 ∷ [];
  auth_response = 71 ∷ 68 ∷ 83 ∷ 67 ∷ 81 ∷ 89 ∷ 82 ∷ 95 ∷ [];
  database = [];
  client_plugin_name = [];
  client_connection_attrs = [];
}

old_response_reads : read_handshake_response old_response ≡ some old_packet
unfolding read_handshake_response read_response_320 read_fields_320 read_old_auth assert_empty
    read_int_2 read_int_3 read_le split_bytes from_le_bytes read_null_string read_null_bytestring
    null_length read_eof_bytestring has_flag bit_and
old_response_reads = refl

session_track_off : has_flag server_supported_capabilities capability_client_session_track ≡ false
unfolding has_flag bit_and
session_track_off = refl

read_handshake_response-has_flag_example :
    has_flag old_packet.client_flags capability_client_session_track ≡ false
read_handshake_response-has_flag_example =
    read_handshake_response-has_flag old_response old_packet capability_client_session_track
      old_response_reads session_track_off

-- Two values of one key, with another key between them.
abbrev sample_attrs : List (List ℕ × List ℕ)
sample_attrs = (102 ∷ [], 98 ∷ 97 ∷ 114 ∷ []) ∷ (95 ∷ [], []) ∷ (102 ∷ [], 99 ∷ []) ∷ []

abbrev answer : SampleDatum → DataType → List ℕ
answer value kind = 52 ∷ 50 ∷ []

abbrev sample_types : List DataType
sample_types = boolean_type ∷ integer_type ∷ text_type ∷ []

abbrev sample_row : List SampleDatum
sample_row = boolean true ∷ integer (pos 42) ∷ null ∷ []

read_columns-write_tuple_packet_example :
    (bytes : List ℕ) × (write_tuple_packet answer sample_types sample_row [] ≡ some bytes)
    × (read_columns 3 (bytes ++ (7 ∷ []))
        ≡ some (some (49 ∷ []) ∷ some (52 ∷ 50 ∷ []) ∷ none ∷ [], 7 ∷ []))
read_columns-write_tuple_packet_example =
    read_columns-write_tuple_packet answer sample_types sample_row [] (7 ∷ []) (omega arith)
      (omega arith, (omega arith, (tt, tt)))

attrs_short : IsU64 (length (attr_bytes sample_attrs))
unfolding attr_bytes write_enc_string write_enc_int write_eof_string
attrs_short = omega arith

read_connection_attrs-attr_bytes_example :
    (found : Attributes) × (read_connection_attrs
        (write_enc_int (length (attr_bytes sample_attrs)) [] ++ attr_bytes sample_attrs)
      ≡ some (found, []))
    × (get_attr (102 ∷ []) found ≡ some (99 ∷ []))
unfolding last_value bytes_eq
read_connection_attrs-attr_bytes_example =
    read_connection_attrs-attr_bytes sample_attrs (102 ∷ [])
      ((omega arith, omega arith), ((omega arith, omega arith), ((omega arith, omega arith), tt)))
      attrs_short

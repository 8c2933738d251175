-- ===== src/Server/Packets.antt =====
-- src/server/src/mysql/packets.rs: what the server sends. A writer appends to the buffer.
pub mod Handshake
pub mod Rows
use incresql.Prelude.{ℕ, zero, suc, ◌+◌, ◌*◌, ◌/◌, ◌%◌, ◌^◌, Bool, true, false, not}
use incresql.Prelude.{
  Option, none, some, List, [], ◌∷◌, ◌++◌, get_elem?, ◌==◌, if◌then◌else◌, ◌>>=◌,
}
use incresql.Encoding.Bytes.{push}
use incresql.Data.Datum.{Externals, Datum, null, boolean}
use incresql.Data.DataType
use incresql.Data.DataType.{DataType}
use incresql.Server.Constants.{
  capability_client_long_password, capability_client_found_rows, capability_client_long_flag,
  capability_client_connect_with_db, capability_client_no_schema, capability_client_protocol_41,
  capability_client_secure_connection, capability_client_connect_attrs,
  capability_client_plugin_auth, capability_client_plugin_auth_lenenc_client_data,
  capability_client_deprecate_eof, capability_client_transactions, capability_client_session_track,
  capability_client_multi_results, charset_utf8_general_ci, status_flag_autocommit, mysql_type_null,
  mysql_type_var_string, mysql_type_long, mysql_type_date, mysql_type_longlong, mysql_type_tiny,
  mysql_type_newdecimal, mysql_type_blob, mysql_type_datetime, MyError,
}
use incresql.Server.ProtocolBase.{
  write_int_1, write_int_2, write_int_4, write_enc_int, write_null_string, write_eof_string,
  write_enc_string,
}

-- `a & b` of words of `k` bits.
unfoldable pub bit_and : ℕ → ℕ → ℕ → ℕ
bit_and zero a b = 0
bit_and (suc k) a b = (a % 2) * (b % 2) + 2 * bit_and k (a / 2) (b / 2)

-- `(capabilities & flag) != 0`.
unfoldable pub has_flag : ℕ → ℕ → Bool
has_flag capabilities flag = not (bit_and 32 capabilities flag == 0)

-- The `|` of flags with no bit in common is their sum.
abbrev pub server_supported_capabilities : ℕ
server_supported_capabilities =
    capability_client_long_password + capability_client_found_rows + capability_client_long_flag
    + capability_client_connect_with_db + capability_client_no_schema
    + capability_client_protocol_41 + capability_client_secure_connection
    + capability_client_connect_attrs + capability_client_plugin_auth
    + capability_client_plugin_auth_lenenc_client_data + capability_client_deprecate_eof

abbrev pub mysql_native_password : List ℕ
mysql_native_password =
    109 ∷ 121 ∷ 115 ∷ 113 ∷ 108 ∷ 95 ∷ 110 ∷ 97 ∷ 116 ∷ 105 ∷ 118 ∷ 101 ∷ 95 ∷ 112 ∷ 97 ∷ 115 ∷ 115
    ∷ 119 ∷ 111 ∷ 114 ∷ 100 ∷ []

abbrev pub server_version : List ℕ
server_version = 56 ∷ 46 ∷ 48 ∷ 46 ∷ 48 ∷ 45 ∷ 105 ∷ 110 ∷ 99 ∷ 114 ∷ 101 ∷ 115 ∷ 113 ∷ 108 ∷ []

unfoldable pub write_handshake_packet : ℕ → List ℕ → List ℕ
write_handshake_packet connection_id buffer =
    let auth_plugin_data_part_1 = 1 ∷ 2 ∷ 3 ∷ 4 ∷ 5 ∷ 6 ∷ 7 ∷ 0 ∷ [] in
    let reserved = 0 ∷ 0 ∷ 0 ∷ 0 ∷ 0 ∷ 0 ∷ 0 ∷ 0 ∷ 0 ∷ 0 ∷ [] in
    let auth_plugin_data_part_2 = 1 ∷ 1 ∷ 2 ∷ 3 ∷ 4 ∷ 5 ∷ 6 ∷ 7 ∷ 8 ∷ 9 ∷ 1 ∷ 1 ∷ 0 ∷ [] in
    let b1 = write_int_1 10 buffer in
    let b2 = write_null_string server_version b1 in
    let b3 = write_int_4 connection_id b2 in
    let b4 = b3 ++ auth_plugin_data_part_1 in
    let b5 = write_int_1 0 b4 in
    let b6 = write_int_2 (server_supported_capabilities % 2 ^ 16) b5 in
    let b7 = write_int_1 charset_utf8_general_ci b6 in
    let b8 = write_int_2 0 b7 in
    let b9 = write_int_2 (server_supported_capabilities / 2 ^ 16 % 2 ^ 16) b8 in
    let plugin = has_flag server_supported_capabilities capability_client_plugin_auth in
    let b10 = if plugin then write_int_1 20 b9 else write_int_1 0 b9 in
    let b11 = b10 ++ reserved in
    let b12 = b11 ++ auth_plugin_data_part_2 in
    if plugin then write_null_string mysql_native_password b12 else b12

unfoldable pub write_auth_switch_request_packet : List ℕ → List ℕ
write_auth_switch_request_packet buffer =
    let plugin_data =
      1 ∷ 1 ∷ 1 ∷ 1 ∷ 2 ∷ 2 ∷ 2 ∷ 2 ∷ 3 ∷ 3 ∷ 3 ∷ 3 ∷ 4 ∷ 4 ∷ 4 ∷ 4 ∷ 5 ∷ 5 ∷ 5 ∷ 5 ∷ [] in
    let b1 = write_int_1 254 buffer in
    let b2 = write_null_string mysql_native_password b1 in write_null_string plugin_data b2

unfoldable pub write_err_packet : ℕ → List ℕ → List ℕ → ℕ → List ℕ → List ℕ
write_err_packet error_code error_message sql_state capabilities buffer =
    let b1 = write_int_1 255 buffer in
    let b2 = write_int_2 error_code b1 in
    let b3 =
      if has_flag capabilities capability_client_protocol_41
      then write_int_1 35 b2 ++ sql_state
      else b2 in
    write_eof_string error_message b3

unfoldable pub write_err_packet_from_err : MyError → ℕ → List ℕ → List ℕ
write_err_packet_from_err err capabilities buffer =
    write_err_packet err.code err.msg err.sql_state capabilities buffer

-- A row of values; `display` is how a value of a type prints. `none` is the panic on a value
-- beyond the types.
module _ {x : Externals} (display : Datum x → DataType → List ℕ) (types : List DataType) where
  unfoldable pub write_value : ℕ → Datum x → List ℕ → Option (List ℕ)
  write_value idx null buffer = some (push buffer 251)
  write_value idx (boolean b) buffer =
      some (write_enc_string (if b then 49 ∷ [] else 48 ∷ []) buffer)
  write_value idx value buffer = do
    data_type ← get_elem? types idx
    some (write_enc_string (display value data_type) buffer)

  unfoldable pub write_values : ℕ → List (Datum x) → List ℕ → Option (List ℕ)
  write_values idx [] buffer = some buffer
  write_values idx (value ∷ tuple) buffer = do
    written ← write_value idx value buffer
    write_values (suc idx) tuple written

  unfoldable pub write_tuple_packet : List (Datum x) → List ℕ → Option (List ℕ)
  write_tuple_packet tuple buffer = write_values 0 tuple buffer

unfoldable pub write_ok_packet : Bool → ℕ → ℕ → List ℕ → List ℕ
write_ok_packet eof affected_rows capabilities buffer =
    let header = if eof then 254 else 0 in
    let b1 = write_int_1 header buffer in
    let b2 = write_enc_int affected_rows b1 in
    let b3 = write_enc_int 0 b2 in
    let b4 =
      if has_flag capabilities capability_client_protocol_41
      then write_int_2 0 (write_int_2 status_flag_autocommit b3)
      else if has_flag capabilities capability_client_transactions
      then write_int_2 status_flag_autocommit b3
      else b3 in
    if has_flag capabilities capability_client_session_track
    then write_null_string [] b4
    else write_eof_string [] b4

unfoldable pub write_eof_packet : ℕ → List ℕ → List ℕ
write_eof_packet capabilities buffer =
    let b1 = write_int_1 254 buffer in
    if has_flag capabilities capability_client_protocol_41
    then write_int_2 status_flag_autocommit (write_int_2 0 b1)
    else b1

unfoldable pub write_resultset_packet : ℕ → ℕ → List ℕ → List ℕ
write_resultset_packet column_count capabilities buffer =
    let b1 =
      if has_flag capabilities capability_client_multi_results
      then write_int_1 1 buffer
      else buffer in
    write_enc_int column_count b1

-- The type, the length and the decimals of a column.
unfoldable pub column_type : DataType → ℕ × ℕ × ℕ
column_type DataType.null_type = (mysql_type_null, 1024, 0)
column_type DataType.text_type = (mysql_type_var_string, 1024, 31)
column_type DataType.json_type = (mysql_type_var_string, 1024, 31)
column_type DataType.jsonpath_type = (mysql_type_var_string, 1024, 31)
column_type DataType.integer_type = (mysql_type_long, 1024, 0)
column_type DataType.date_type = (mysql_type_date, 1024, 0)
column_type DataType.big_int_type = (mysql_type_longlong, 1024, 0)
column_type DataType.boolean_type = (mysql_type_tiny, 1024, 0)
column_type (DataType.decimal_type precision scale) = (mysql_type_newdecimal, precision, scale)
column_type DataType.byte_a_type = (mysql_type_blob, 1024, 0)
column_type DataType.timestamp_type = (mysql_type_datetime, 1024, 0)

-- The two forms of a column, by the protocol of the client.
unfoldable pub write_column_41 : List ℕ → List ℕ → ℕ × ℕ × ℕ → List ℕ → List ℕ
write_column_41 table name (kind, column_length, decimals) buffer =
    let b1 = write_enc_string (100 ∷ 101 ∷ 102 ∷ []) buffer in
    let b2 = write_enc_string [] b1 in
    let b3 = write_enc_string table b2 in
    let b4 = write_enc_string [] b3 in
    let b5 = write_enc_string name b4 in
    let b6 = write_enc_string [] b5 in
    let b7 = write_enc_int 12 b6 in
    let b8 = write_int_2 charset_utf8_general_ci b7 in
    let b9 = write_int_4 column_length b8 in
    let b10 = write_int_1 kind b9 in
    let b11 = write_int_2 0 b10 in let b12 = write_int_1 decimals b11 in write_int_2 0 b12

unfoldable pub write_column_320 : List ℕ → List ℕ → ℕ × ℕ × ℕ → ℕ → List ℕ → List ℕ
write_column_320 table name (kind, column_length, decimals) capabilities buffer =
    let b1 = write_enc_string table buffer in
    let b2 = write_enc_string name b1 in
    let b3 = write_int_1 1 b2 in
    let b4 = write_int_1 kind b3 in
    if has_flag capabilities capability_client_long_flag
    then write_int_1 decimals (write_int_2 0 (write_enc_int 3 b4))
    else write_int_1 decimals (write_int_1 0 (write_enc_int 2 b4))

unfoldable pub write_column_packet : List ℕ → List ℕ → DataType → ℕ → List ℕ → List ℕ
write_column_packet table name data_type capabilities buffer =
    if has_flag capabilities capability_client_protocol_41
    then write_column_41 table name (column_type data_type) buffer
    else write_column_320 table name (column_type data_type) capabilities buffer

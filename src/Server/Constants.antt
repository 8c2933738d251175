-- ===== src/Server/Constants.antt =====
-- src/server/src/mysql/constants.rs: the capabilities, the types of the columns and the errors that
-- the packets name.
use incresql.Prelude.{ℕ, List, [], ◌∷◌}

abbrev pub capability_client_long_password : ℕ
capability_client_long_password = 1

abbrev pub capability_client_found_rows : ℕ
capability_client_found_rows = 2

abbrev pub capability_client_long_flag : ℕ
capability_client_long_flag = 4

abbrev pub capability_client_connect_with_db : ℕ
capability_client_connect_with_db = 8

abbrev pub capability_client_no_schema : ℕ
capability_client_no_schema = 16

abbrev pub capability_client_protocol_41 : ℕ
capability_client_protocol_41 = 512

abbrev pub capability_client_secure_connection : ℕ
capability_client_secure_connection = 32768

abbrev pub capability_client_connect_attrs : ℕ
capability_client_connect_attrs = 1048576

abbrev pub capability_client_plugin_auth : ℕ
capability_client_plugin_auth = 524288

abbrev pub capability_client_plugin_auth_lenenc_client_data : ℕ
capability_client_plugin_auth_lenenc_client_data = 2097152

abbrev pub capability_client_deprecate_eof : ℕ
capability_client_deprecate_eof = 16777216

abbrev pub capability_client_transactions : ℕ
capability_client_transactions = 8192

abbrev pub capability_client_session_track : ℕ
capability_client_session_track = 8388608

abbrev pub capability_client_multi_results : ℕ
capability_client_multi_results = 131072

abbrev pub charset_utf8_general_ci : ℕ
charset_utf8_general_ci = 33

abbrev pub status_flag_autocommit : ℕ
status_flag_autocommit = 2

abbrev pub mysql_type_null : ℕ
mysql_type_null = 6

abbrev pub mysql_type_var_string : ℕ
mysql_type_var_string = 253

abbrev pub mysql_type_long : ℕ
mysql_type_long = 3

abbrev pub mysql_type_date : ℕ
mysql_type_date = 10

abbrev pub mysql_type_longlong : ℕ
mysql_type_longlong = 8

abbrev pub mysql_type_tiny : ℕ
mysql_type_tiny = 1

abbrev pub mysql_type_newdecimal : ℕ
mysql_type_newdecimal = 246

abbrev pub mysql_type_blob : ℕ
mysql_type_blob = 252

abbrev pub mysql_type_datetime : ℕ
mysql_type_datetime = 12

pub record MyError : Type 0 where
  pub code : ℕ
  pub msg : List ℕ
  pub sql_state : List ℕ

abbrev pub mysql_er_no_tables_used : MyError
mysql_er_no_tables_used = record {
  code = 1096;
  msg = 78 ∷ 111 ∷ 32 ∷ 116 ∷ 97 ∷ 98 ∷ 108 ∷ 101 ∷ 115 ∷ 32 ∷ 117 ∷ 115 ∷ 101 ∷ 100 ∷ [];
  sql_state = 72 ∷ 89 ∷ 48 ∷ 48 ∷ 48 ∷ [];
}

-- ===== src/Protocol/Types.antt =====
-- The packet structures and the constants of inc/trilogy/protocol.h. A pointer with its length is a list
-- of bytes, an enumeration that the code fills from the wire is the number that it holds.
use trilogy.Prelude.{ℕ, Bool, not, List, Option, bit_and, ◌==◌}

-- `flags & bit`, as a condition.
abbrev pub has : ℕ → ℕ → Bool
has flags bit = not (bit_and flags bit == 0)

abbrev pub capabilities_connect_with_db : ℕ
capabilities_connect_with_db = 0x00000008

abbrev pub capabilities_protocol_41 : ℕ
capabilities_protocol_41 = 0x00000200

abbrev pub capabilities_ssl : ℕ
capabilities_ssl = 0x00000800

abbrev pub capabilities_transactions : ℕ
capabilities_transactions = 0x00002000

abbrev pub capabilities_secure_connection : ℕ
capabilities_secure_connection = 0x00008000

abbrev pub capabilities_plugin_auth : ℕ
capabilities_plugin_auth = 0x00080000

abbrev pub capabilities_session_track : ℕ
capabilities_session_track = 0x00800000

abbrev pub capabilities_deprecate_eof : ℕ
capabilities_deprecate_eof = 0x01000000

abbrev pub server_status_session_state_changed : ℕ
server_status_session_state_changed = 0x4000

abbrev pub session_track_gtids : ℕ
session_track_gtids = 0x03

abbrev pub max_last_gtid_len : ℕ
max_last_gtid_len = 57

abbrev pub column_flag_unsigned : ℕ
column_flag_unsigned = 0x20

abbrev pub scramble_len : ℕ
scramble_len = 20

-- `last_gtid` is empty where the packet brings none.
pub record OkPacket : Type 0 where
  pub affected_rows : ℕ
  pub last_insert_id : ℕ
  pub status_flags : ℕ
  pub warning_count : ℕ
  pub txn_status_flags : ℕ
  pub session_status : List ℕ
  pub session_state_changes : List ℕ
  pub info : List ℕ
  pub last_gtid : List ℕ

pub record EofPacket : Type 0 where
  pub warning_count : ℕ
  pub status_flags : ℕ

pub record ErrPacket : Type 0 where
  pub error_code : ℕ
  pub sql_state_marker : ℕ
  pub sql_state : List ℕ
  pub error_message : List ℕ

-- `scramble` is the bytes that are copied; what the array holds behind them stays as it was.
pub record AuthSwitchRequestPacket : Type 0 where
  pub auth_plugin : List ℕ
  pub scramble : List ℕ

-- The texts are without the NUL that ends them. `auth_plugin` is `none` where it is left unset.
pub record Handshake : Type 0 where
  pub proto_version : ℕ
  pub server_version : List ℕ
  pub conn_id : ℕ
  pub scramble : List ℕ
  pub capabilities : ℕ
  pub server_charset : ℕ
  pub server_status : ℕ
  pub auth_plugin : Option (List ℕ)

pub record ColumnPacket : Type 0 where
  pub catalog : List ℕ
  pub schema : List ℕ
  pub table : List ℕ
  pub original_table : List ℕ
  pub name : List ℕ
  pub original_name : List ℕ
  pub charset : ℕ
  pub len : ℕ
  pub type : ℕ
  pub flags : ℕ
  pub decimals : ℕ
  pub default_value : List ℕ

pub record StmtOkPacket : Type 0 where
  pub id : ℕ
  pub column_count : ℕ
  pub parameter_count : ℕ
  pub warning_count : ℕ

-- ===== src/Protocol/Commands.antt =====
-- src/protocol.c: the packets of the commands that the client sends, but for the execution of a statement and
-- the authentication.
pub mod Packed
use trilogy.Prelude.{ℕ, Bool, List, length, replicate, bit_or, Run, ◌>>=◌, ◌>>◌}
use trilogy.Builder.{
  Builder, max_packet_len, write_uint8, write_uint16, write_uint32, write_buffer, finalize,
}
use trilogy.Protocol.Types.{
  capabilities_protocol_41, capabilities_ssl, capabilities_transactions,
  capabilities_secure_connection, capabilities_plugin_auth, capabilities_session_track,
  capabilities_deprecate_eof,
}

abbrev pub cmd_quit : ℕ
cmd_quit = 0x01

abbrev pub cmd_change_db : ℕ
cmd_change_db = 0x02

abbrev pub cmd_query : ℕ
cmd_query = 0x03

abbrev pub cmd_ping : ℕ
cmd_ping = 0x0e

abbrev pub cmd_set_option : ℕ
cmd_set_option = 0x1b

abbrev pub cmd_stmt_prepare : ℕ
cmd_stmt_prepare = 0x16

abbrev pub cmd_stmt_execute : ℕ
cmd_stmt_execute = 0x17

abbrev pub cmd_stmt_send_long_data : ℕ
cmd_stmt_send_long_data = 0x18

abbrev pub cmd_stmt_close : ℕ
cmd_stmt_close = 0x19

abbrev pub cmd_stmt_reset : ℕ
cmd_stmt_reset = 0x1a

-- The capabilities that this client always asks for.
abbrev pub capabilities_client : ℕ
capabilities_client =
    bit_or
      (bit_or
        (bit_or
          (bit_or (bit_or capabilities_protocol_41 capabilities_secure_connection)
            capabilities_deprecate_eof)
          capabilities_session_track)
        capabilities_plugin_auth)
      capabilities_transactions

module _ (grants : ℕ → Bool) where
  unfoldable pub build_ping_packet : Run Builder (Unit {0})
  build_ping_packet = do write_uint8 grants cmd_ping; finalize

  unfoldable pub build_query_packet : List ℕ → Run Builder (Unit {0})
  build_query_packet sql = do write_uint8 grants cmd_query; write_buffer grants sql; finalize

  unfoldable pub build_change_db_packet : List ℕ → Run Builder (Unit {0})
  build_change_db_packet name = do
    write_uint8 grants cmd_change_db
    write_buffer grants name
    finalize

  unfoldable pub build_quit_packet : Run Builder (Unit {0})
  build_quit_packet = do write_uint8 grants cmd_quit; finalize

  unfoldable pub build_set_option_packet : ℕ → Run Builder (Unit {0})
  build_set_option_packet option = do
    write_uint8 grants cmd_set_option
    write_uint16 grants option
    finalize

  unfoldable pub build_ssl_request_packet : ℕ → ℕ → Run Builder (Unit {0})
  build_ssl_request_packet flags client_encoding = do
    write_uint32 grants (bit_or (bit_or flags capabilities_client) capabilities_ssl)
    write_uint32 grants max_packet_len
    write_uint8 grants client_encoding
    write_buffer grants (replicate 23 0)
    finalize

  unfoldable pub build_stmt_prepare_packet : List ℕ → Run Builder (Unit {0})
  build_stmt_prepare_packet sql = do
    write_uint8 grants cmd_stmt_prepare
    write_buffer grants sql
    finalize

  unfoldable pub build_stmt_bind_data_packet : ℕ → ℕ → List ℕ → Run Builder (Unit {0})
  build_stmt_bind_data_packet stmt_id param_id bytes = do
    write_uint8 grants cmd_stmt_send_long_data
    write_uint32 grants stmt_id
    write_uint16 grants param_id
    write_buffer grants bytes
    finalize

  unfoldable pub build_stmt_reset_packet : ℕ → Run Builder (Unit {0})
  build_stmt_reset_packet stmt_id = do
    write_uint8 grants cmd_stmt_reset
    write_uint32 grants stmt_id
    finalize

  unfoldable pub build_stmt_close_packet : ℕ → Run Builder (Unit {0})
  build_stmt_close_packet stmt_id = do
    write_uint8 grants cmd_stmt_close
    write_uint32 grants stmt_id
    finalize

  unfoldable pub build_auth_clear_password : List ℕ → Run Builder (Unit {0})
  build_auth_clear_password pass = do write_buffer grants pass; write_uint8 grants 0; finalize

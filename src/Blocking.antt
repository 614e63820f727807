-- ===== src/Blocking.antt =====
-- src/blocking.c: the client that waits until a call is done. `rounds` bounds each loop.
pub mod Flush
pub mod Delivery
pub mod Requests
pub mod Answer
pub mod Success
use trilogy.Prelude.{ℕ, Bool, List, Option, none, some, Run, done, ◌>>=◌, ◌>>◌}
use trilogy.Protocol.Types.{ColumnPacket, StmtOkPacket, Handshake}
use trilogy.Protocol.BinaryValue.{BinaryValue}
use trilogy.Client.Connection.{Sock, SockOpt, Connection, on_socket}
use trilogy.Client.Wait.{retry, pump}
use trilogy.Client.Phase.{flush_writes}
use trilogy.Client.Commands.{
  change_db_send, change_db_recv, set_option_send, set_option_recv, ping_send, ping_recv,
  query_send, query_recv, read_column, read_row, close_send, close_recv, stmt_prepare_send,
  stmt_prepare_recv, stmt_execute_send, stmt_execute_recv, stmt_bind_data_send, stmt_read_row,
  stmt_reset_send, stmt_reset_recv, stmt_close_send,
}
use trilogy.Client.Auth.{
  connect_send, connect_send_socket, connect_recv, auth_send, auth_switch_send, auth_recv,
}

module _ {W : Type 0} (sock : Sock W) (rounds : ℕ) where
  unfoldable pub flush_full : Run (Connection W) (Unit {0})
  flush_full = do
    on_socket sock.wait_write
    retry rounds (on_socket sock.wait_write) (flush_writes sock)

  -- A command is written to its end, with flush_full behind a first write that was short.
  unfoldable pub sent : Run (Connection W) (Unit {0}) → Run (Connection W) (Unit {0})
  sent send = pump rounds (on_socket sock.wait_write) send (flush_writes sock)

  -- An answer is waited for.
  unfoldable pub received : {A : Type 0} → Run (Connection W) A → Run (Connection W) A
  received recv = retry rounds (on_socket sock.wait_read) recv

module _ {W : Type 0} (sha1 sha256 : List ℕ → List ℕ) (grants : ℕ → Bool) (sock : Sock W)
    (rounds : ℕ) where
  -- A second switch is returned to the caller, as the first is not.
  unfoldable pub connect_auth_switch : Handshake → Run (Connection W) (Option Handshake)
  connect_auth_switch handshake = do
    sent sock rounds (auth_switch_send sha1 sha256 grants sock handshake)
    received sock rounds (auth_recv grants sock rounds handshake)

  unfoldable pub connect_handshake : Run (Connection W) (Option Handshake)
  connect_handshake = do
    handshake ← received sock rounds (connect_recv grants sock)
    sent sock rounds (auth_send sha1 sha256 grants sock handshake)
    answer ← received sock rounds (auth_recv grants sock rounds handshake)
    elim answer [ none ↦ done none | some switched ↦ connect_auth_switch switched ]

  unfoldable pub connect : Bool → Run W (Unit {0}) → SockOpt → Run (Connection W) (Option Handshake)
  connect made resolve o = do connect_send grants sock made resolve o; connect_handshake

  unfoldable pub connect_sock : SockOpt → Run (Connection W) (Option Handshake)
  connect_sock o = do connect_send_socket grants sock o; connect_handshake

module _ {W : Type 0} (grants : ℕ → Bool) (sock : Sock W) (rounds : ℕ) where
  unfoldable pub change_db : List ℕ → Run (Connection W) (Unit {0})
  change_db name = do
    sent sock rounds (change_db_send grants sock name)
    received sock rounds (change_db_recv grants sock)

  unfoldable pub set_option : ℕ → Run (Connection W) (Unit {0})
  set_option option = do
    sent sock rounds (set_option_send grants sock option)
    received sock rounds (set_option_recv grants sock)

  unfoldable pub ping : Run (Connection W) (Unit {0})
  ping = do sent sock rounds (ping_send grants sock); received sock rounds (ping_recv grants sock)

  unfoldable pub query : List ℕ → Run (Connection W) (Option ℕ)
  query sql = do
    sent sock rounds (query_send grants sock sql)
    received sock rounds (query_recv grants sock)

  unfoldable pub read_full_column : Run (Connection W) ColumnPacket
  read_full_column = received sock rounds (read_column grants sock)

  unfoldable pub read_full_row : Run (Connection W) (List (Option (List ℕ)))
  read_full_row = received sock rounds (read_row grants sock)

  unfoldable pub close : Run (Connection W) (Unit {0})
  close = do
    sent sock rounds (close_send grants sock)
    received sock rounds (close_recv grants sock)

  unfoldable pub stmt_prepare : List ℕ → Run (Connection W) StmtOkPacket
  stmt_prepare stmt = do
    sent sock rounds (stmt_prepare_send grants sock stmt)
    received sock rounds (stmt_prepare_recv grants sock)

  unfoldable pub stmt_execute :
      StmtOkPacket → ℕ → Option (List BinaryValue) → Run (Connection W) (Option ℕ)
  stmt_execute stmt flags binds = do
    sent sock rounds (stmt_execute_send grants sock stmt flags binds)
    received sock rounds (stmt_execute_recv grants sock)

  unfoldable pub stmt_bind_data : StmtOkPacket → ℕ → List ℕ → Run (Connection W) (Unit {0})
  stmt_bind_data stmt param_num bytes =
      sent sock rounds (stmt_bind_data_send grants sock stmt param_num bytes)

  unfoldable pub stmt_read_full_row :
      StmtOkPacket → List ColumnPacket → List BinaryValue → Run (Connection W) (List BinaryValue)
  stmt_read_full_row stmt columns values_out =
      received sock rounds (stmt_read_row grants sock stmt columns values_out)

  unfoldable pub stmt_reset : StmtOkPacket → Run (Connection W) (Unit {0})
  stmt_reset stmt = do
    sent sock rounds (stmt_reset_send grants sock stmt)
    received sock rounds (stmt_reset_recv grants sock)

  unfoldable pub stmt_close : StmtOkPacket → Run (Connection W) (Unit {0})
  stmt_close stmt = sent sock rounds (stmt_close_send grants sock stmt)

-- ===== src/Blocking/Requests.antt =====
-- The requests that the blocking calls send, from the call to the socket.
use trilogy.Prelude.{ℕ, ◌≡◌, Bool, true, false, List, length, some, Run, All}
use trilogy.Builder.{Builder}
use trilogy.Builder.Packs.{Packs}
use trilogy.Protocol.Types.{StmtOkPacket}
use trilogy.Protocol.BinaryValue.{BinaryValue}
use trilogy.Protocol.Commands.{
  build_ping_packet, build_query_packet, build_change_db_packet, build_quit_packet,
  build_set_option_packet, build_stmt_prepare_packet, build_stmt_bind_data_packet,
  build_stmt_reset_packet, build_stmt_close_packet,
}
use trilogy.Protocol.Commands.Packed.{
  ping, quit, query, change_db, prepare, set_option, reset, close, bind_data, command_bytes,
}
use trilogy.Protocol.Execute.{build_stmt_execute_packet}
use trilogy.Protocol.Execute.Packed.{execute_bytes, IsBind}
use trilogy.Client.Connection.{Sock, Connection}
use trilogy.Client.Phase.{send, send_long}
use trilogy.Client.Commands.{
  change_db_send, set_option_send, ping_send, query_send, close_send, stmt_prepare_send,
  stmt_execute_send, stmt_bind_data_send, stmt_reset_send, stmt_close_send,
}

-- What a connection is asked to send behind the authentication, with the statement where there is one.
pub data Request : Type 0 where
  to_ping to_quit : Request
  to_query to_change_db to_prepare : List ℕ → Request
  to_set_option : ℕ → Request
  to_reset to_close : StmtOkPacket → Request
  to_bind_data : StmtOkPacket → ℕ → List ℕ → Request
  to_execute : StmtOkPacket → ℕ → List BinaryValue → Request

-- The call that sends each of them.
abbrev pub request_send :
    {W : Type 0} → (ℕ → Bool) → Sock W → Request → Run (Connection W) (Unit {0})
request_send grants sock to_ping = ping_send grants sock
request_send grants sock to_quit = close_send grants sock
request_send grants sock (to_query sql) = query_send grants sock sql
request_send grants sock (to_change_db name) = change_db_send grants sock name
request_send grants sock (to_prepare sql) = stmt_prepare_send grants sock sql
request_send grants sock (to_set_option option) = set_option_send grants sock option
request_send grants sock (to_reset stmt) = stmt_reset_send grants sock stmt
request_send grants sock (to_close stmt) = stmt_close_send grants sock stmt
request_send grants sock (to_bind_data stmt param bytes) =
    stmt_bind_data_send grants sock stmt param bytes
request_send grants sock (to_execute stmt flags vs) =
    stmt_execute_send grants sock stmt flags (some vs)

-- The payload that the protocol gives it.
abbrev pub request_bytes : Request → List ℕ
request_bytes to_ping = command_bytes ping
request_bytes to_quit = command_bytes quit
request_bytes (to_query sql) = command_bytes (query sql)
request_bytes (to_change_db name) = command_bytes (change_db name)
request_bytes (to_prepare sql) = command_bytes (prepare sql)
request_bytes (to_set_option option) = command_bytes (set_option option)
request_bytes (to_reset stmt) = command_bytes (reset stmt.id)
request_bytes (to_close stmt) = command_bytes (close stmt.id)
request_bytes (to_bind_data stmt param bytes) = command_bytes (bind_data stmt.id param bytes)
request_bytes (to_execute stmt flags vs) = execute_bytes stmt.id flags vs

-- A value for each parameter of a statement that is executed.
abbrev pub IsRequest : Request → Type 0
IsRequest (to_execute stmt flags vs) = (length vs ≡ stmt.parameter_count) × All IsBind vs
IsRequest _ = Unit

-- The requests whose answer goes on from the number of their last frame; that of the others is number 1.
abbrev pub is_long : Request → Bool
is_long (to_query sql) = true
is_long (to_execute stmt flags vs) = true
is_long _ = false

abbrev request_build : (ℕ → Bool) → Request → Run Builder (Unit {0})
request_build grants to_ping = build_ping_packet grants
request_build grants to_quit = build_quit_packet grants
request_build grants (to_query sql) = build_query_packet grants sql
request_build grants (to_change_db name) = build_change_db_packet grants name
request_build grants (to_prepare sql) = build_stmt_prepare_packet grants sql
request_build grants (to_set_option option) = build_set_option_packet grants option
request_build grants (to_reset stmt) = build_stmt_reset_packet grants stmt.id
request_build grants (to_close stmt) = build_stmt_close_packet grants stmt.id
request_build grants (to_bind_data stmt param bytes) =
    build_stmt_bind_data_packet grants stmt.id param bytes
request_build grants (to_execute stmt flags vs) =
    build_stmt_execute_packet grants stmt.id flags (some vs) stmt.parameter_count

abbrev sends :
    {W : Type 0}
    → Bool
    → Sock W
    → (ℕ → Bool)
    → Run Builder (Unit {0})
    → Run (Connection W) (Unit {0})
sends true sock grants m = send_long sock grants 0 m
sends false sock grants m = send sock grants 0 m

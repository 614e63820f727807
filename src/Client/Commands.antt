-- ===== src/Client/Commands.antt =====
-- src/client.c: the commands, sent and answered. TRILOGY_HAVE_RESULTS is `some` count of columns, and an answer
-- without results `none`. TRILOGY_EOF is the status `eof`.
use trilogy.Prelude.{
  ℕ, zero, suc, take, ltb, ◌==◌, ◌&&◌, not, ◌||◌, Bool, true, false, if◌then◌else◌, List, length,
  Option, none, some, Result, Run, ok, err, fault, done, fail, ◌>>=◌, ◌>>◌, eof, unexpected_packet,
  protocol_violation, closed_connection,
}
use trilogy.Buffer.{buffer_free}
use trilogy.Protocol.Types.{has, ColumnPacket, StmtOkPacket, capabilities_deprecate_eof}
use trilogy.Protocol.Rows.{
  parse_result_packet, parse_column_packet, parse_row_packet, parse_stmt_ok_packet,
}
use trilogy.Protocol.BinaryValue.{BinaryValue}
use trilogy.Protocol.BinaryRow.{parse_stmt_row_packet}
use trilogy.Protocol.Commands.{
  build_ping_packet, build_query_packet, build_change_db_packet, build_quit_packet,
  build_set_option_packet, build_stmt_prepare_packet, build_stmt_bind_data_packet,
  build_stmt_reset_packet, build_stmt_close_packet,
}
use trilogy.Protocol.Execute.{build_stmt_execute_packet}
use trilogy.Client.Connection.{Sock, Connection, modify, asks, on_socket, packet, lift, receive}
use trilogy.Client.Phase.{send, send_long}
use trilogy.Client.Responses.{
  packet_ok, packet_eof, packet_err, current_packet_type, read_ok_packet, read_err_packet,
  read_eof_packet, read_generic_response,
}

-- The switch of trilogy_set_option_recv, which takes an EOF packet for an OK packet.
unfoldable pub set_option_response : {W : Type 0} → Run (Connection W) (Unit {0})
set_option_response = do
  type ← current_packet_type
  if type == packet_ok || type == packet_eof
      then read_ok_packet
      else if type == packet_err
      then read_err_packet
      else fail unexpected_packet

module _ {W : Type 0} (grants : ℕ → Bool) (sock : Sock W) where
  unfoldable pub change_db_send : List ℕ → Run (Connection W) (Unit {0})
  change_db_send name = send sock grants 0 (build_change_db_packet grants name)

  unfoldable pub change_db_recv : Run (Connection W) (Unit {0})
  change_db_recv = read_generic_response grants sock

  unfoldable pub set_option_send : ℕ → Run (Connection W) (Unit {0})
  set_option_send option = send sock grants 0 (build_set_option_packet grants option)

  unfoldable pub set_option_recv : Run (Connection W) (Unit {0})
  set_option_recv = do receive grants sock; set_option_response

  unfoldable pub ping_send : Run (Connection W) (Unit {0})
  ping_send = send sock grants 0 (build_ping_packet grants)

  unfoldable pub ping_recv : Run (Connection W) (Unit {0})
  ping_recv = read_generic_response grants sock

  unfoldable pub query_send : List ℕ → Run (Connection W) (Unit {0})
  query_send query = send_long sock grants 0 (build_query_packet grants query)

  -- The header of a result set.
  unfoldable pub read_result_packet : Run (Connection W) ℕ
  read_result_packet = do
    o ← asks (λ c. parse_result_packet (packet c))
    column_count ← lift o
    modify (λ c. record c { column_count = column_count })
    done column_count

  unfoldable pub query_recv : Run (Connection W) (Option ℕ)
  query_recv = do
    receive grants sock
    type ← current_packet_type
    if type == packet_ok
        then (do read_ok_packet; done none)
        else if type == packet_err
        then read_err_packet
        else (do
          column_count ← read_result_packet
          modify (λ c. record c { started_reading_rows = false })
          done (some column_count))

  unfoldable pub read_column : Run (Connection W) ColumnPacket
  read_column = do receive grants sock; o ← asks (λ c. parse_column_packet (packet c) false); lift o

  unfoldable pub read_eof : Run (Connection W) (Unit {0})
  read_eof = do receive grants sock; read_eof_packet

  -- The EOF packet behind the column packets, before the first row.
  unfoldable pub skip_eof : Bool → Bool → Run (Connection W) (Unit {0})
  skip_eof started expected = if started then done tt else (do
    if expected then read_eof else done tt
    modify (λ c. record c { started_reading_rows = true }))

  -- A packet of a result set: the end, an error, or a row, which `m` parses.
  unfoldable pub row_packet : {A : Type 0} → (Connection W → Result A) → Run (Connection W) A
  row_packet parse = do
    receive grants sock
    type ← current_packet_type
    len ← asks (λ c. length (packet c))
    if type == packet_eof && ltb len 9
        then (do read_eof_packet; fail eof)
        else if type == packet_err
        then read_err_packet
        else (do o ← asks parse; lift o)

  unfoldable pub read_row : Run (Connection W) (List (Option (List ℕ)))
  read_row = do
    started ← asks (λ c. c.started_reading_rows)
    expected ← asks (λ c. not (has c.capabilities capabilities_deprecate_eof))
    skip_eof started expected
    row_packet (λ c. parse_row_packet (packet c) c.column_count)

  -- `while (1)`: packets are read until one looks like an EOF packet. Out of rounds is a fault.
  unfoldable pub drain_rounds : ℕ → Run (Connection W) (Unit {0})
  drain_rounds zero c = (fault, c)
  drain_rounds (suc rounds) c =
      (do
        receive grants sock
        type ← current_packet_type
        len ← asks (λ c. length (packet c))
        if type == packet_eof && ltb len 9 then done tt else drain_rounds rounds)
        c

  unfoldable pub drain_results : ℕ → Run (Connection W) (Unit {0})
  drain_results rounds = do
    started ← asks (λ c. c.started_reading_rows)
    skip_eof started true
    drain_rounds rounds

  unfoldable pub close_send : Run (Connection W) (Unit {0})
  close_send = send sock grants 0 (build_quit_packet grants)

  -- The end of the stream is what is waited for; a packet is none.
  unfoldable pub closed : Result (Unit {0}) → Result (Unit {0})
  closed (ok _) = err protocol_violation
  closed (err closed_connection) = ok tt
  closed (err e) = err e
  closed fault = fault

  -- The status of the shutdown is not looked at.
  unfoldable pub shut : Run (Connection W) (Unit {0})
  shut c = let o = on_socket sock.shutdown c in (elim o.0 [ fault ↦ fault | _ ↦ ok tt ], o.1)

  unfoldable pub close_recv : Run (Connection W) (Unit {0})
  unfolding closed
  close_recv = do shut; λ c. (closed (receive grants sock c).0, (receive grants sock c).1)

  unfoldable pub free : Connection W → Connection W
  free c = elim c.socket [
    | none ↦ record c { io = record c.io { packet_buffer = buffer_free c.io.packet_buffer } }
    | some o ↦ record c {
      socket = none;
      world = sock.close c.world;
      io = record c.io { packet_buffer = buffer_free c.io.packet_buffer };
    }
  ]

  unfoldable pub discard : Run (Connection W) (Unit {0})
  discard = do on_socket sock.shutdown; modify free

  unfoldable pub stmt_prepare_send : List ℕ → Run (Connection W) (Unit {0})
  stmt_prepare_send stmt = send sock grants 0 (build_stmt_prepare_packet grants stmt)

  unfoldable pub stmt_prepare_recv : Run (Connection W) StmtOkPacket
  stmt_prepare_recv = do
    receive grants sock
    type ← current_packet_type
    if type == packet_ok
        then (do
          o ← asks (λ c. parse_stmt_ok_packet (packet c))
          stmt ← lift o
          modify (λ c. record c { warning_count = stmt.warning_count })
          done stmt)
        else if type == packet_err
        then read_err_packet
        else fail unexpected_packet

  unfoldable pub stmt_execute_send :
      StmtOkPacket → ℕ → Option (List BinaryValue) → Run (Connection W) (Unit {0})
  stmt_execute_send stmt flags binds =
      send_long sock grants 0
        (build_stmt_execute_packet grants stmt.id flags binds stmt.parameter_count)

  unfoldable pub stmt_execute_recv : Run (Connection W) (Option ℕ)
  stmt_execute_recv = do
    receive grants sock
    type ← current_packet_type
    if type == packet_ok
        then (do read_ok_packet; done none)
        else if type == packet_err
        then read_err_packet
        else (do column_count ← read_result_packet; done (some column_count))

  unfoldable pub stmt_bind_data_send : StmtOkPacket → ℕ → List ℕ → Run (Connection W) (Unit {0})
  stmt_bind_data_send stmt param_num bytes =
      send sock grants 0 (build_stmt_bind_data_packet grants stmt.id param_num bytes)

  -- `columns` and `values_out` are arrays of column_count elements at least; the parser reads no value that it has not
  -- written, but leaves those members of an element alone that it does not write.
  unfoldable pub stmt_read_row :
      StmtOkPacket → List ColumnPacket → List BinaryValue → Run (Connection W) (List BinaryValue)
  stmt_read_row stmt columns values_out = row_packet (λ c.
      if ltb (length columns) stmt.column_count
      then fault
      else parse_stmt_row_packet (packet c) (take stmt.column_count columns) values_out)

  unfoldable pub stmt_reset_send : StmtOkPacket → Run (Connection W) (Unit {0})
  stmt_reset_send stmt = send sock grants 0 (build_stmt_reset_packet grants stmt.id)

  unfoldable pub stmt_reset_recv : Run (Connection W) (Unit {0})
  stmt_reset_recv = read_generic_response grants sock

  unfoldable pub stmt_close_send : StmtOkPacket → Run (Connection W) (Unit {0})
  stmt_close_send stmt = send sock grants 0 (build_stmt_close_packet grants stmt.id)

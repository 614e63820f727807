-- ===== src/Tests/Packets.antt =====
-- The packet parsers' theorems at concrete packets.
use trilogy.Prelude.{
  ℕ, ◌≡◌, ◌≢◌, refl, arith, true, false, List, [], ◌∷◌, ◌++◌, Option, none, some, ok, fault,
}
use trilogy.Wire.{lenenc}
use trilogy.Protocol.Types.{ColumnPacket, ErrPacket, StmtOkPacket, Handshake}
use trilogy.Protocol.BinaryValue.{BinaryValue, as_uint8}
use trilogy.Protocol.Replies.{parse_ok_packet, parse_eof_packet, parse_err_packet}
use trilogy.Protocol.Handshake.{parse_auth_switch_request_packet, parse_handshake_packet}
use trilogy.Protocol.Rows.{
  parse_result_packet, parse_row_packet, parse_column_packet, parse_stmt_ok_packet,
}
use trilogy.Protocol.BinaryRow.{parse_stmt_row_packet}
use trilogy.Protocol.Total.{parse_text-ne-fault, parse_stmt_row_packet-ne-fault}
use trilogy.Protocol.RoundTrip.Column.{column_bytes, parse_column_packet-column_bytes}
use trilogy.Protocol.RoundTrip.Row.{row_bytes, parse_row_packet-row_bytes}
use trilogy.Protocol.RoundTrip.Replies.{
  err_bytes, parse_err_packet-err_bytes, stmt_ok_bytes, parse_stmt_ok_packet-stmt_ok_bytes,
}
use trilogy.Protocol.RoundTrip.Ok.{Session, changed}
use trilogy.Protocol.RoundTrip.Track.{change, gtid}
use trilogy.Protocol.Bounds.{FitsArrays, parse_handshake_packet-FitsArrays}
use trilogy.Protocol.RoundTrip.Handshake.{
  IsHandshake, handshake_bytes, parse_handshake_packet-handshake_bytes,
}

-- A packet of four bytes.
abbrev some_bytes : List ℕ
some_bytes = 0xff ∷ 0x15 ∷ 0x04 ∷ 0x23 ∷ []

parse_text-ne-fault_example :
    (parse_handshake_packet some_bytes ≢ fault)
    × (parse_auth_switch_request_packet some_bytes 0x80200 ≢ fault)
    × (parse_ok_packet some_bytes 0x80200 ≢ fault)
    × (parse_eof_packet some_bytes 0x80200 ≢ fault)
    × (parse_err_packet some_bytes 0x80200 ≢ fault)
    × (parse_result_packet some_bytes ≢ fault)
    × (parse_column_packet some_bytes true ≢ fault)
    × (parse_row_packet some_bytes 2 ≢ fault)
    × (parse_stmt_ok_packet some_bytes ≢ fault)
parse_text-ne-fault_example = parse_text-ne-fault some_bytes 0x80200 2 true (omega arith)

abbrev a_column : ColumnPacket
a_column = record {
  catalog = 100 ∷ [];
  schema = [];
  table = 116 ∷ [];
  original_table = 116 ∷ [];
  name = 97 ∷ 98 ∷ [];
  original_name = 97 ∷ [];
  charset = 33;
  len = 1024;
  type = 253;
  flags = 0x20;
  decimals = 0;
  default_value = 55 ∷ [];
}

abbrev a_value : BinaryValue
a_value = record { is_null = false; is_unsigned = false; type = 0; value = as_uint8 0 }

-- The row is cut off inside its string.
parse_stmt_row_packet-ne-fault_example :
    parse_stmt_row_packet (0 ∷ 0 ∷ 2 ∷ 65 ∷ []) (a_column ∷ []) (a_value ∷ []) ≢ fault
parse_stmt_row_packet-ne-fault_example =
    parse_stmt_row_packet-ne-fault (0 ∷ 0 ∷ 2 ∷ 65 ∷ []) (a_column ∷ []) (a_value ∷ [])
      (omega arith) (omega arith) (omega arith)

parse_column_packet-column_bytes_example :
    parse_column_packet (column_bytes a_column true) true ≡ ok a_column
unfolding lenenc
parse_column_packet-column_bytes_example =
    parse_column_packet-column_bytes a_column true
      (record {
        catalog = omega arith;
        schema = omega arith;
        table = omega arith;
        original_table = omega arith;
        name = omega arith;
        original_name = omega arith;
        charset = omega arith;
        len = omega arith;
        flags = omega arith;
        default_value = omega arith;
        default_if = refl;
      })
      (omega arith)

abbrev a_row : List (Option (List ℕ))
a_row = some (49 ∷ 50 ∷ []) ∷ none ∷ some [] ∷ []

parse_row_packet-row_bytes_example : parse_row_packet (row_bytes a_row) 3 ≡ ok a_row
unfolding lenenc
parse_row_packet-row_bytes_example =
    parse_row_packet-row_bytes a_row (omega arith, (tt, (omega arith, tt))) (omega arith)

abbrev an_error : ErrPacket
an_error = record {
  error_code = 1045;
  sql_state_marker = 35;
  sql_state = 50 ∷ 56 ∷ 48 ∷ 48 ∷ 48 ∷ [];
  error_message = 78 ∷ 111 ∷ [];
}

parse_err_packet-err_bytes_example : parse_err_packet (err_bytes an_error 0x200) 0x200 ≡ ok an_error
parse_err_packet-err_bytes_example =
    parse_err_packet-err_bytes an_error 0x200
      (record { error_code = omega arith; sql_state = refl; marker_if = refl; state_if = refl })
      (omega arith)

abbrev a_statement : StmtOkPacket
a_statement = record { id = 70000; column_count = 2; parameter_count = 300; warning_count = 0 }

parse_stmt_ok_packet-stmt_ok_bytes_example :
    parse_stmt_ok_packet (stmt_ok_bytes a_statement) ≡ ok a_statement
parse_stmt_ok_packet-stmt_ok_bytes_example =
    parse_stmt_ok_packet-stmt_ok_bytes a_statement (omega arith) (omega arith) (omega arith)
      (omega arith)

abbrev front_scramble : List ℕ
front_scramble = 1 ∷ 2 ∷ 3 ∷ 4 ∷ 5 ∷ 6 ∷ 7 ∷ 8 ∷ []

abbrev back_scramble : List ℕ
back_scramble = 11 ∷ 12 ∷ 13 ∷ 14 ∷ 15 ∷ 16 ∷ 17 ∷ 18 ∷ 19 ∷ 20 ∷ 21 ∷ 22 ∷ 0 ∷ []

abbrev a_handshake : Handshake
a_handshake = record {
  proto_version = 0xa;
  server_version = 56 ∷ 46 ∷ 48 ∷ [];
  conn_id = 70000;
  scramble = front_scramble ++ back_scramble;
  capabilities = 0x88200;
  server_charset = 45;
  server_status = 2;
  auth_plugin = some (109 ∷ 110 ∷ []);
}

a_handshake_good : IsHandshake a_handshake front_scramble back_scramble (109 ∷ 110 ∷ [])
a_handshake_good = record {
  version = refl;
  server = (omega arith, (omega arith, (omega arith, tt)));
  server_le = omega arith;
  conn_id = omega arith;
  halves = refl;
  length_front = refl;
  length_back = refl;
  capabilities = omega arith;
  protocol_41 = refl;
  secure = refl;
  status = omega arith;
  plugin_auth = refl;
  plugin = refl;
  name_zero = (omega arith, (omega arith, tt));
  name_le = omega arith;
}

parse_handshake_packet-handshake_bytes_example :
    parse_handshake_packet
      (handshake_bytes a_handshake front_scramble back_scramble (109 ∷ 110 ∷ []))
    ≡ ok a_handshake
parse_handshake_packet-handshake_bytes_example =
    parse_handshake_packet-handshake_bytes a_handshake front_scramble back_scramble (109 ∷ 110 ∷ [])
      a_handshake_good (omega arith)

-- A session that changed: a schema, and then a GTID.
abbrev a_session : Session
a_session = changed [] (change 1 (2 ∷ 97 ∷ 98 ∷ []) ∷ gtid (49 ∷ 58 ∷ 50 ∷ []) ∷ [])

parse_handshake_packet-FitsArrays_example : FitsArrays a_handshake
parse_handshake_packet-FitsArrays_example =
    parse_handshake_packet-FitsArrays
      (handshake_bytes a_handshake front_scramble back_scramble (109 ∷ 110 ∷ [])) a_handshake
      (parse_handshake_packet-handshake_bytes a_handshake front_scramble back_scramble
        (109 ∷ 110 ∷ []) a_handshake_good (omega arith))

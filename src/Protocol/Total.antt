-- ===== src/Protocol/Total.antt =====
-- src/protocol.c: the parsers of packets, on arbitrary bytes.
use trilogy.Prelude.{ℕ, ◌+◌, ◌≤◌, ◌<◌, ◌≢◌, Bool, List, length, fault}
use trilogy.Reader.{size_mod}
use trilogy.Protocol.Types.{ColumnPacket}
use trilogy.Protocol.BinaryValue.{BinaryValue}
use trilogy.Protocol.Replies.{parse_ok_packet, parse_eof_packet, parse_err_packet}
use trilogy.Protocol.Handshake.{parse_auth_switch_request_packet, parse_handshake_packet}
use trilogy.Protocol.Rows.{
  parse_result_packet, parse_row_packet, parse_column_packet, parse_stmt_ok_packet,
}
use trilogy.Protocol.BinaryRow.{parse_stmt_row_packet}
use trilogy.Protocol.Safety.{
  parse_packet-ne-fault, parse_eof_fields-IsSafe, parse_err_fields-IsSafe,
  parse_auth_switch_request_fields-IsSafe, parse_handshake_fields-IsSafe,
  parse_result_fields-IsSafe, parse_row_fields-IsSafe, parse_column_fields-IsSafe,
  parse_stmt_ok_fields-IsSafe,
}
use trilogy.Protocol.Safety.Ok.{parse_ok_fields-IsSafe}
use trilogy.Protocol.Safety.BinaryRow.{parse_stmt_row_fields-IsSafe}

-- On any bytes of a packet that fits the address space, with any capabilities and any column count, none of
-- the parsers of text packets reads outside the packet, and the loops over session state and rows end.
pub parse_text-ne-fault :
    (buff : List ℕ) (caps column_count : ℕ) (field_list : Bool)
    → length buff < size_mod
    → (parse_handshake_packet buff ≢ fault)
      × (parse_auth_switch_request_packet buff caps ≢ fault)
      × (parse_ok_packet buff caps ≢ fault)
      × (parse_eof_packet buff caps ≢ fault)
      × (parse_err_packet buff caps ≢ fault)
      × (parse_result_packet buff ≢ fault)
      × (parse_column_packet buff field_list ≢ fault)
      × (parse_row_packet buff column_count ≢ fault)
      × (parse_stmt_ok_packet buff ≢ fault)
unfolding parse_handshake_packet parse_auth_switch_request_packet parse_ok_packet parse_eof_packet
    parse_err_packet parse_result_packet parse_column_packet parse_row_packet parse_stmt_ok_packet
parse_text-ne-fault buff caps column_count field_list h = (
  parse_packet-ne-fault _ buff parse_handshake_fields-IsSafe h,
  parse_packet-ne-fault _ buff (parse_auth_switch_request_fields-IsSafe caps) h,
  parse_packet-ne-fault _ buff (parse_ok_fields-IsSafe caps) h,
  parse_packet-ne-fault _ buff (parse_eof_fields-IsSafe caps) h,
  parse_packet-ne-fault _ buff (parse_err_fields-IsSafe caps) h,
  parse_packet-ne-fault _ buff parse_result_fields-IsSafe h,
  parse_packet-ne-fault _ buff (parse_column_fields-IsSafe field_list) h,
  parse_packet-ne-fault _ buff (parse_row_fields-IsSafe column_count) h,
  parse_packet-ne-fault _ buff parse_stmt_ok_fields-IsSafe h,
)

-- On any bytes of a packet that fits the address space, the parser of a row of the binary protocol accesses
-- neither the packet nor its NULL bitmap nor the array of values out of bounds. The array has room for a value
-- per column, and there are fewer columns than the address space has bytes, by 16.
pub parse_stmt_row_packet-ne-fault :
    (buff : List ℕ) (columns : List ColumnPacket) (olds : List BinaryValue)
    → length buff < size_mod
    → length columns + 16 < size_mod
    → length columns ≤ length olds
    → parse_stmt_row_packet buff columns olds ≢ fault
unfolding parse_stmt_row_packet
parse_stmt_row_packet-ne-fault buff columns olds h few room =
    parse_packet-ne-fault _ buff (parse_stmt_row_fields-IsSafe columns olds few room) h

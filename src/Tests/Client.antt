-- ===== src/Tests/Client.antt =====
-- The theorems about the client, at concrete inputs.
use trilogy.Prelude.{
  ℕ, ◌<◌, ◌≡◌, refl, arith, Bool, true, false, List, [], ◌∷◌, ◌++◌, length, take, drop, none, some,
  ok, err, generic, truncated_packet,
}
use trilogy.Prelude.{◌>>=◌, done, fail_if}
use trilogy.Buffer.{expand, store}
use trilogy.Builder.{max_packet_len}
use trilogy.Reader.{get_uint8, get_uint16, get_lenenc, check, next_uint8, get_eof_buffer, finish}
use trilogy.Protocol.Replies.{
  parse_ok_packet, parse_packet, parse_ok_fields, ok_flags, ok_rest, at_eof,
}
use trilogy.Client.Callbacks.{on_packet_begin, on_packet_data, on_packet_end}
use trilogy.Client.ReadPacket.{read_packet}
use trilogy.Builder.Frames.{joined, last}
use trilogy.PacketParser.{packet_parser_init, execute, loop, round_in, end_of_payload}
use trilogy.Protocol.Types.{ErrPacket, Handshake, capabilities_protocol_41, max_last_gtid_len}
use trilogy.Client.Connection.{
  Sock, SockOpt, Connection, packet, receive, with_nread, packet_byte, asks, lift, modify,
}
use trilogy.Client.Commands.{set_option_response}
use trilogy.Client.Responses.{
  set_error, read_generic_response, read_ok_packet, handle_generic_response,
}
use trilogy.Client.Auth.{auth_recv, auth_clear_password, set_opts}
use trilogy.Client.Answers.{
  handle_generic_response-err_bytes, read_ok_packet-gtid, set_option_response-eof,
}
use trilogy.Client.Password.{IsCleared, auth_recv-password}
use trilogy.Client.Escape.{escape}
use trilogy.Client.Escape.Literal.{scan, plain, single, other}
use trilogy.Client.Escape.Safe.{escape-escaped, escape-scan, holding}
use trilogy.Blocking.{flush_full, received}
use trilogy.Blocking.Answer.{Gives, received-err_bytes}
use trilogy.Blocking.Flush.{Takes, flush_full-Sent}
use trilogy.Prelude.{if◌then◌else◌, again}
use trilogy.Protocol.Types.{StmtOkPacket}
use trilogy.Protocol.BinaryValue.{BinaryValue, as_uint8}
use trilogy.Reader.{slice}

abbrev all_granted : ℕ → Bool
all_granted n = true

-- A socket that takes one byte, and then none until it is waited for. It remembers what it took, and whether it has room.
abbrev slow : Sock (List ℕ × Bool)
slow = record {
  connect = λ w. (ok tt, w);
  read = λ w. (ok [], w);
  write = λ xs w. if w.1 then (ok 1, (w.0 ++ take 1 xs, false)) else (err again, w);
  wait_read = λ w. (ok tt, w);
  wait_write = λ w. (ok tt, (w.0, true));
  shutdown = λ w. (ok tt, w);
  close = λ w. w;
}

slow-Takes : Takes slow (λ w. w.0) (λ w. w.1)
slow-Takes = record {
  writes = λ xs w room pos. (1, (w.0 ++ take 1 xs, false), rw room refl, omega arith, pos, refl);
  refuses = λ xs w full. (w, rw full refl, refl);
  waits = λ w. ((w.0, true), refl, refl, refl);
}

abbrev options : SockOpt
options = record {
  has_path = false;
  database = none;
  username = none;
  password = 65 ∷ 66 ∷ [];
  encoding = 45;
  enable_cleartext_plugin = false;
  flags = 0;
  max_allowed_packet = 0;
}

-- A connection with the bytes `recv` received, and the packet `buff`.
abbrev connection : List ℕ → List ℕ → Connection (List ℕ × Bool)
connection recv buff = record {
  affected_rows = 0;
  last_insert_id = 0;
  warning_count = 0;
  last_gtid = [];
  error_code = 0;
  error_message = [];
  capabilities = capabilities_protocol_41;
  server_status = 2;
  socket = some options;
  io = record {
    recv = recv;
    packet_parser = packet_parser_init;
    packet_buffer = record { allocated = true; cap = 64; buff = buff };
  };
  packet_buffer_written = 0;
  column_count = 0;
  started_reading_rows = false;
  world = ([], false);
}

-- it's
abbrev its : List ℕ
its = 105 ∷ 116 ∷ 39 ∷ 115 ∷ []

escape-escaped_example :
    (cap : ℕ) × (escape all_granted its (connection [] []) ≡ (
      ok (105 ∷ 116 ∷ 92 ∷ 39 ∷ 115 ∷ []),
      holding (connection [] []) cap (105 ∷ 116 ∷ 92 ∷ 39 ∷ 115 ∷ []),
    ))
escape-escaped_example =
    escape-escaped all_granted its (connection [] []) (λ n. refl) refl (omega arith) (omega arith)

escape-scan_example :
    (xs : List ℕ) × ((escape all_granted its (connection [] [])).0 ≡ ok xs)
    × (scan false 39 plain (xs ++ 39 ∷ 59 ∷ []) ≡ some (its, 59 ∷ []))
escape-scan_example =
    escape-scan all_granted its (59 ∷ []) 39 (connection [] []) (λ n. refl) refl (omega arith)
      (omega arith) (single false) (other 59 [] refl)

flush_full-Sent_example :
    (c' : Connection (List ℕ × Bool)) × (flush_full slow 3 (connection [] (1 ∷ 2 ∷ 3 ∷ []))
      ≡ (ok tt, c'))
    × (c'.world.0 ≡ [] ++ drop 0 (1 ∷ 2 ∷ 3 ∷ []))
    × (c'.io ≡ (connection [] (1 ∷ 2 ∷ 3 ∷ [])).io)
unfolding packet
flush_full-Sent_example =
    flush_full-Sent slow (λ w. w.0) (λ w. w.1) 3 options (connection [] (1 ∷ 2 ∷ 3 ∷ [])) slow-Takes
      refl (omega arith) (omega arith) (omega arith)

-- A statement with one parameter, and a byte for it.
abbrev statement : StmtOkPacket
statement = record { id = 9; column_count = 0; parameter_count = 1; warning_count = 0 }

abbrev small_value : BinaryValue
small_value = record { type = 0x01; is_unsigned = true; is_null = false; value = as_uint8 5 }

abbrev denied : ErrPacket
denied = record {
  error_code = 1045;
  sql_state_marker = 35;
  sql_state = 50 ∷ 56 ∷ 48 ∷ 48 ∷ 48 ∷ [];
  error_message = 110 ∷ 111 ∷ [];
}

abbrev denied_packet : List ℕ
denied_packet = 0xff ∷ 21 ∷ 4 ∷ 35 ∷ 50 ∷ 56 ∷ 48 ∷ 48 ∷ 48 ∷ 110 ∷ 111 ∷ []

handle_generic_response-err_bytes_example :
    handle_generic_response (connection [] denied_packet)
    ≡ (err generic, set_error denied (connection [] denied_packet))
unfolding packet
handle_generic_response-err_bytes_example =
    handle_generic_response-err_bytes denied (connection [] denied_packet) refl
      (record { error_code = omega arith; sql_state = refl; marker_if = refl; state_if = refl })
      (omega arith)

read_ok_packet-gtid_example :
    length (read_ok_packet (connection [] (0 ∷ 1 ∷ 2 ∷ 2 ∷ 0 ∷ 0 ∷ 0 ∷ []))).1.last_gtid
    < max_last_gtid_len
read_ok_packet-gtid_example =
    read_ok_packet-gtid (connection [] (0 ∷ 1 ∷ 2 ∷ 2 ∷ 0 ∷ 0 ∷ 0 ∷ [])) (omega arith)

set_option_response-eof_example :
    set_option_response (connection [] (0xfe ∷ 0 ∷ 0 ∷ 2 ∷ 0 ∷ []))
    ≡ (err truncated_packet, connection [] (0xfe ∷ 0 ∷ 0 ∷ 2 ∷ 0 ∷ []))
unfolding packet
set_option_response-eof_example =
    set_option_response-eof 0 2 (connection [] (0xfe ∷ 0 ∷ 0 ∷ 2 ∷ 0 ∷ [])) refl (omega arith)
      (omega arith) refl

abbrev greeting : Handshake
greeting = record {
  proto_version = 10;
  server_version = [];
  conn_id = 1;
  scramble = [];
  capabilities = 0;
  server_charset = 0;
  server_status = 0;
  auth_plugin = none;
}

-- An OK packet with its header.
abbrev welcome : Connection (List ℕ × Bool)
welcome = connection (7 ∷ 0 ∷ 0 ∷ 0 ∷ 0 ∷ 0 ∷ 0 ∷ 2 ∷ 0 ∷ 0 ∷ 0 ∷ []) []

auth_recv-password_example : IsCleared options (auth_recv all_granted slow 4 greeting welcome).1
unfolding auth_recv ◌>>=◌ done receive with_nread read_packet execute loop round_in on_packet_begin
    on_packet_data expand store end_of_payload max_packet_len on_packet_end packet_byte packet
    auth_clear_password set_opts handle_generic_response read_ok_packet asks lift modify
    parse_ok_packet parse_packet parse_ok_fields ok_flags ok_rest at_eof get_uint8 get_uint16
    get_lenenc check next_uint8 get_eof_buffer slice finish fail_if
auth_recv-password_example =
    auth_recv-password all_granted slow 4 greeting options welcome refl refl

-- A socket that has pieces to give, one for each wait.
abbrev giving : Sock (List (List ℕ) × Bool)
giving = record {
  connect = λ w. (ok tt, w);
  read = λ w.
      if w.1 then elim w.0 [ x ∷ xs ↦ (ok x, (xs, false)) | [] ↦ (ok [], w) ] else (err again, w);
  write = λ xs w. (ok 1, w);
  wait_read = λ w. (ok tt, (w.0, true));
  wait_write = λ w. (ok tt, w);
  shutdown = λ w. (ok tt, w);
  close = λ w. w;
}

giving-Gives : Gives giving (λ w. w.0) (λ w. w.1)
giving-Gives = record {
  reads = λ w x xs there e. ((xs, false), rw (there, e) refl, refl);
  lacks = λ w lacking. (w, rw lacking refl, refl);
  waits = λ w. ((w.0, true), refl, refl, refl);
}

abbrev facing : List (List ℕ) → Connection (List (List ℕ) × Bool)
facing pieces = record {
  affected_rows = 0;
  last_insert_id = 0;
  warning_count = 0;
  last_gtid = [];
  error_code = 0;
  error_message = [];
  capabilities = capabilities_protocol_41;
  server_status = 2;
  socket = some options;
  io = (connection [] []).io;
  packet_buffer_written = 0;
  column_count = 0;
  started_reading_rows = false;
  world = (pieces, false);
}

-- The refusal in two pieces, and a byte behind it.
abbrev two_pieces : List (List ℕ)
two_pieces =
    (11 ∷ 0 ∷ 0 ∷ 0 ∷ 0xff ∷ 21 ∷ []) ∷ (4 ∷ 35 ∷ 50 ∷ 56 ∷ 48 ∷ 48 ∷ 48 ∷ 110 ∷ 111 ∷ 7 ∷ []) ∷ []

denied_short : length denied_packet < max_packet_len
unfolding max_packet_len
denied_short = omega arith

received-err_bytes_example :
    (conn : Connection (List (List ℕ) × Bool)) × (received giving 3
        (read_generic_response all_granted giving)
        (facing two_pieces)
      ≡ (err generic, conn))
    × (conn.error_code ≡ 1045)
    × (conn.error_message ≡ 110 ∷ 111 ∷ [])
    × (conn.io.recv ++ joined conn.world.0 ≡ 7 ∷ [])
received-err_bytes_example =
    received-err_bytes all_granted giving (λ w. w.0) (λ w. w.1) 3 0 denied (denied_packet ∷ [])
      (7 ∷ []) options (facing two_pieces) giving-Gives (λ n. refl) refl
      (record { error_code = omega arith; sql_state = refl; marker_if = refl; state_if = refl })
      (last denied_short) refl (omega arith, (omega arith, tt))
      (record { at_start = refl; no_fragment = refl; not_deferred = refl; in_step = refl }) refl
      refl (omega arith) (omega arith) (omega arith)

-- An OK packet of three rows changed, in two pieces.
abbrev three_changed : List (List ℕ)
three_changed = (7 ∷ 0 ∷ 0 ∷ 0 ∷ 0 ∷ []) ∷ (3 ∷ 0 ∷ 2 ∷ 0 ∷ 0 ∷ 0 ∷ 7 ∷ []) ∷ []

abbrev three_rows : List ℕ
three_rows = 0 ∷ 3 ∷ 0 ∷ 2 ∷ 0 ∷ 0 ∷ 0 ∷ []

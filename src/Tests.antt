-- ===== src/Tests.antt =====
-- The theorems at concrete inputs.
pub mod Packets
pub mod Commands
pub mod Client
use trilogy.Prelude.{
  ℕ, ◌+◌, ◌%◌, ◌^◌, ◌*◌, ◌≤◌, ◌<◌, ◌≡◌, ◌≢◌, refl, arith, Bool, true, false, List, [], ◌∷◌, ◌++◌,
  length, Option, none, some, Result, ok, fault,
}
use trilogy.Wire.{le, lenenc, lenenc_str, nul_str}
use trilogy.Buffer.{Buffer, expand}
use trilogy.Buffer.Growth.{expand_total}
use trilogy.Prelude.{◌>>=◌}
use trilogy.Buffer.{grow, store}
use trilogy.Builder.{
  builder_init, write_header, on_buffer, start_fragment, next_seq, fragment_remaining,
  refuse_buffer, append_bytes, count, finalize, poke, max_packet_len, Builder, write_uint8,
  write_bytes, write_lenenc, write_buffer, write_lenenc_buffer, write_string,
}
use trilogy.Builder.Frames.{last, max_packet_len_small, frames, IsSplit}
use trilogy.Builder.Framing.{build, build-IsSplit}
use trilogy.Builder.Fields.{field_bytes, write_fields, build-write_fields}
use trilogy.Builder.Limit.{Below, writes-Below}
use trilogy.Reader.{Reader, reader_init, get_uint64, get_lenenc, get_lenenc_buffer, get_string}
use trilogy.Reader.View.{Views, Views-reader_init}
use trilogy.Reader.RoundTrip.{
  get_uint64-le, get_lenenc-lenenc, get_lenenc_buffer-lenenc_str, get_string-nul_str,
}
use trilogy.PacketParser.{Callbacks, PacketParser, Progress, packet_parser_init, execute}
use trilogy.PacketParser.Execute.{execute_total}
use trilogy.Client.Reassembly.{Idle}
use trilogy.Client.Reassembly.Packet.{HasPacket, waiting, read_packet-frames}
use trilogy.Client.Reassembly.Sent.{read_packet-build}
use trilogy.Client.Callbacks.{packet_parser_callbacks}
use trilogy.Protocol.Types.{
  ColumnPacket, ErrPacket, StmtOkPacket, Handshake, capabilities_protocol_41,
}
use trilogy.Protocol.BinaryValue.{BinaryValue}
use trilogy.Protocol.Replies.{parse_ok_packet, parse_eof_packet, parse_err_packet}
use trilogy.Protocol.Handshake.{parse_auth_switch_request_packet, parse_handshake_packet}
use trilogy.Protocol.Rows.{
  parse_result_packet, parse_row_packet, parse_column_packet, parse_stmt_ok_packet,
}
use trilogy.Protocol.BinaryRow.{parse_stmt_row_packet}
use trilogy.Protocol.Total.{parse_text-ne-fault, parse_stmt_row_packet-ne-fault}
use trilogy.Protocol.RoundTrip.Column.{column_bytes, parse_column_packet-column_bytes}
use trilogy.Protocol.RoundTrip.Row.{row_bytes, parse_row_packet-row_bytes}
use trilogy.Protocol.RoundTrip.Replies.{
  err_bytes, parse_err_packet-err_bytes, stmt_ok_bytes, parse_stmt_ok_packet-stmt_ok_bytes,
}
use trilogy.Protocol.RoundTrip.Handshake.{handshake_bytes, parse_handshake_packet-handshake_bytes}

abbrev any_size : ℕ → Bool
any_size n = true

abbrev small_buffer : Buffer
small_buffer = record { allocated = true; cap = 1; buff = 7 ∷ [] }

build-write_fields_example :
    (chunks : List (List ℕ)) × (b : Builder) × (build any_size small_buffer 255
        (write_fields any_size 3 4 70000 251 (1 ∷ 2 ∷ []) (65 ∷ 66 ∷ []) (9 ∷ []))
      ≡ (ok tt, b))
    × IsSplit chunks (field_bytes 3 4 70000 251 (1 ∷ 2 ∷ []) (65 ∷ 66 ∷ []) (9 ∷ []))
    × (b.buffer.buff ≡ frames 255 chunks)
    × (b.seq ≡ (255 + length chunks) % 256)
unfolding lenenc
build-write_fields_example =
    build-write_fields any_size small_buffer 255 3 4 70000 251 (1 ∷ 2 ∷ []) (65 ∷ 66 ∷ []) (9 ∷ [])
      (λ k. refl) refl (omega arith) (omega arith) (omega arith) (omega arith) (omega arith)

abbrev limited : Builder
limited = record {
  buffer = record { allocated = true; cap = 8; buff = 0 ∷ 0 ∷ 0 ∷ 1 ∷ [] };
  header_offset = 0;
  packet_length = 0;
  packet_max_length = 3;
  fragment_length = 0;
  seq = 2;
}

writes-Below_example :
    Below 0 (write_uint8 any_size 700 limited).1
    × Below 0 (write_bytes any_size 4 700 limited).1
    × Below 0 (write_lenenc any_size 700 limited).1
    × Below 0 (write_buffer any_size (1 ∷ 2 ∷ []) limited).1
    × Below 0 (write_lenenc_buffer any_size (1 ∷ 2 ∷ []) limited).1
    × Below 0 (write_string any_size (1 ∷ 2 ∷ []) limited).1
writes-Below_example =
    writes-Below any_size 4 700 (1 ∷ 2 ∷ []) limited (omega arith)
      (record { below = omega arith; size_t = omega arith })

expand_total_example :
    (c : ℕ) × (expand any_size 100 small_buffer ≡ (ok tt, record small_buffer { cap = c }))
    × (length small_buffer.buff + 100 ≤ c)
    × (0 < c)
expand_total_example =
    expand_total any_size (λ n. refl) 100 small_buffer refl (omega arith) (omega arith)

-- A reader at the start of `xs`.
abbrev at_start : List ℕ → Reader
at_start xs = reader_init xs (length xs)

get_uint64-le_example :
    ((get_uint64 (at_start (le 8 70000 ++ 5 ∷ []))).0 ≡ ok 70000)
    × Views (get_uint64 (at_start (le 8 70000 ++ 5 ∷ []))).1 (5 ∷ [])
get_uint64-le_example =
    get_uint64-le (at_start (le 8 70000 ++ 5 ∷ [])) 70000 (5 ∷ []) (omega arith)
      (Views-reader_init _ (omega arith))

get_lenenc-lenenc_example :
    ((get_lenenc (at_start (0xfd ∷ 0x70 ∷ 0x11 ∷ 0x01 ∷ 5 ∷ []))).0 ≡ ok 70000)
    × Views (get_lenenc (at_start (0xfd ∷ 0x70 ∷ 0x11 ∷ 0x01 ∷ 5 ∷ []))).1 (5 ∷ [])
unfolding lenenc
get_lenenc-lenenc_example =
    get_lenenc-lenenc (at_start (0xfd ∷ 0x70 ∷ 0x11 ∷ 0x01 ∷ 5 ∷ [])) 70000 (5 ∷ []) (omega arith)
      (Views-reader_init _ (omega arith))

get_lenenc_buffer-lenenc_str_example :
    ((get_lenenc_buffer (at_start (2 ∷ 8 ∷ 9 ∷ 5 ∷ []))).0 ≡ ok (8 ∷ 9 ∷ []))
    × Views (get_lenenc_buffer (at_start (2 ∷ 8 ∷ 9 ∷ 5 ∷ []))).1 (5 ∷ [])
unfolding lenenc
get_lenenc_buffer-lenenc_str_example =
    get_lenenc_buffer-lenenc_str (at_start (2 ∷ 8 ∷ 9 ∷ 5 ∷ [])) (8 ∷ 9 ∷ []) (5 ∷ []) (omega arith)
      (Views-reader_init _ (omega arith))

get_string-nul_str_example :
    ((get_string (at_start (nul_str (8 ∷ 9 ∷ []) ++ 5 ∷ []))).0 ≡ ok (8 ∷ 9 ∷ []))
    × Views (get_string (at_start (nul_str (8 ∷ 9 ∷ []) ++ 5 ∷ []))).1 (5 ∷ [])
get_string-nul_str_example =
    get_string-nul_str (at_start (nul_str (8 ∷ 9 ∷ []) ++ 5 ∷ [])) (8 ∷ 9 ∷ []) (5 ∷ [])
      (omega arith, (omega arith, tt)) (Views-reader_init _ (omega arith))

execute_total_example :
    (o : Progress Buffer) × (execute
        (packet_parser_callbacks any_size)
        packet_parser_init
        small_buffer
        (1 ∷ 0 ∷ 0 ∷ 0 ∷ 42 ∷ 9 ∷ [])
      ≡ some o)
    × (o.consumed ≤ 6)
execute_total_example =
    execute_total (packet_parser_callbacks any_size) packet_parser_init small_buffer
      (1 ∷ 0 ∷ 0 ∷ 0 ∷ 42 ∷ 9 ∷ [])

abbrev expecting_255 : PacketParser
expecting_255 = record packet_parser_init { sequence_number = 255 }

expecting_255-Idle : Idle 255 expecting_255
expecting_255-Idle = record {
  at_start = refl;
  no_fragment = refl;
  not_deferred = refl;
  in_step = refl;
}

read_packet-frames_example :
    HasPacket any_size
      (9 ∷ [])
      256
      (42 ∷ [])
      ((1 ∷ 0 ∷ []) ∷ (0 ∷ 255 ∷ 42 ∷ 9 ∷ []) ∷ [])
      (waiting expecting_255 small_buffer)
read_packet-frames_example =
    read_packet-frames any_size (42 ∷ []) (9 ∷ []) ((42 ∷ []) ∷ [])
      ((1 ∷ 0 ∷ []) ∷ (0 ∷ 255 ∷ 42 ∷ 9 ∷ []) ∷ []) 255 expecting_255 small_buffer (λ n. refl)
      (last (omega (arith, max_packet_len_small))) refl (omega arith, (omega arith, tt))
      expecting_255-Idle refl (omega arith) (omega arith)

built_42 :
    1 ∷ 0 ∷ 0 ∷ 255 ∷ 42 ∷ 9 ∷ []
    ≡ (build any_size small_buffer 255 (write_buffer any_size (42 ∷ []))).1.buffer.buff ++ 9 ∷ []
unfolding build builder_init write_header on_buffer expand grow store start_fragment next_seq
    write_buffer fragment_remaining refuse_buffer append_bytes count finalize poke ◌>>=◌
    max_packet_len
built_42 = refl

read_packet-build_example :
    (e : ℕ) × (r : HasPacket any_size
      (9 ∷ [])
      e
      (42 ∷ [])
      ((1 ∷ 0 ∷ []) ∷ (0 ∷ 255 ∷ 42 ∷ 9 ∷ []) ∷ [])
      (waiting expecting_255 small_buffer))
    × (r.conn'.packet_parser.sequence_number
        ≡ (build any_size small_buffer 255 (write_buffer any_size (42 ∷ []))).1.seq)
read_packet-build_example =
    read_packet-build any_size small_buffer 255 (42 ∷ []) (9 ∷ [])
      ((1 ∷ 0 ∷ []) ∷ (0 ∷ 255 ∷ 42 ∷ 9 ∷ []) ∷ []) expecting_255 small_buffer (λ n. refl) refl
      (omega arith) (omega arith) (omega arith) built_42 (omega arith, (omega arith, tt))
      expecting_255-Idle refl (omega arith)

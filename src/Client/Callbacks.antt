-- ===== src/Client/Callbacks.antt =====
-- src/client.c: the packet parser's callbacks, which collect a packet in a buffer.
use trilogy.Prelude.{Bool, List, [], ℕ, length, Option, none, some, Result, ok, err, fault, ◌>>◌}
use trilogy.Buffer.{Buffer, expand, store}
use trilogy.PacketParser.{Stop, failed, positive, Callbacks}

-- `len = 0`
unfoldable pub on_packet_begin : Buffer → Option Stop × Buffer
on_packet_begin buff = (none, record buff { buff = [] })

-- A number that no callback returns, for a fault of the copy, which read_packet makes a fault again.
abbrev pub fault_code : ℕ
fault_code = 2

-- The status of the expansion and the copy.
unfoldable pub stop_of : Result (Unit {0}) → Option Stop
stop_of (ok _) = none
stop_of (err e) = some (failed e)
stop_of fault = some (positive fault_code)

module _ (grants : ℕ → Bool) where
  unfoldable pub on_packet_data : List ℕ → Buffer → Option Stop × Buffer
  unfolding stop_of
  on_packet_data bytes buff =
      let o = (expand grants (length bytes) >> store bytes) buff in (stop_of o.0, o.1)

  -- 1: the parser pauses, so that the packet can be returned.
  unfoldable pub on_packet_end : Buffer → Option Stop × Buffer
  on_packet_end buff = (some (positive 1), buff)

  abbrev pub packet_parser_callbacks : Callbacks Buffer
  packet_parser_callbacks = record {
    on_packet_begin = on_packet_begin;
    on_packet_data = on_packet_data;
    on_packet_end = on_packet_end;
  }

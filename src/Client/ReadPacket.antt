-- ===== src/Client/ReadPacket.antt =====
-- src/client.c: read_packet, over what the socket's read gives.
use trilogy.Prelude.{
  ℕ, Bool, List, [], ◌∷◌, drop, Option, none, some, Result, ok, err, fault, closed_connection,
  again, ◌==◌, if◌then◌else◌,
}
use trilogy.Buffer.{Buffer}
use trilogy.PacketParser.{failed, positive, PacketParser, Progress, execute}
use trilogy.Client.Callbacks.{fault_code, packet_parser_callbacks}

-- `recv` is what lies in recv_buff between `recv_buff_pos` and `recv_buff_len`.
pub record Conn : Type 0 where
  pub recv : List ℕ
  pub packet_parser : PacketParser
  pub packet_buffer : Buffer

-- What read_packet makes of the parser's `rc`, and its bytes taken.
unfoldable pub after_execute : Option (Progress Buffer) → Conn → Result (Unit {0}) × Conn
after_execute none conn = (fault, conn)
after_execute (some o) conn = (
  elim o.error [
    | none ↦ err again
    | some (failed e) ↦ err e
    | some (positive n) ↦ if n == fault_code then fault else ok tt
  ],
  record { recv = drop o.consumed conn.recv; packet_parser = o.parser; packet_buffer = o.user },
)

module _ (grants : ℕ → Bool) where
  unfoldable pub parse_recv : Conn → Result (Unit {0}) × Conn
  unfolding after_execute
  parse_recv conn =
      after_execute
        (execute (packet_parser_callbacks grants) conn.packet_parser conn.packet_buffer conn.recv)
        conn

  -- `nread` is the result of trilogy_sock_read, whose bytes are in recv_buff, where the code calls it.
  unfoldable pub read_packet : Result (List ℕ) → Conn → Result (Unit {0}) × Conn
  unfolding parse_recv
  read_packet nread conn = elim conn.recv [
    | x ∷ xs ↦ parse_recv conn
    | [] ↦ elim nread [
      | err e ↦ (err e, conn)
      | fault ↦ (fault, conn)
      | ok [] ↦ (err closed_connection, conn)
      | ok (x ∷ xs) ↦ parse_recv (record conn { recv = x ∷ xs })
    ]
  ]

-- ===== src/Protocol/Commands/Packed.antt =====
-- The commands, and the payload that the protocol's documents give each of them.
use trilogy.Prelude.{
  ℕ, ◌^◌, ◌<◌, ◌≡◌, Bool, true, List, [], ◌∷◌, ◌++◌, length, replicate, bit_or, Run, ok,
}
use trilogy.Wire.{le}
use trilogy.Buffer.{Buffer}
use trilogy.Builder.{Builder, max_packet_len, write_uint16, write_uint32}
use trilogy.Builder.Writes.{Writes-uint8, Writes-le}
use trilogy.Builder.WriteBuffer.{Writes-buffer}
use trilogy.Builder.Packs.{IsPacket, Packs, Packs-bind, Packs-last, pack, pack-IsPacket}
use trilogy.Protocol.Types.{capabilities_ssl}
use trilogy.Protocol.Commands.{
  capabilities_client, build_ping_packet, build_query_packet, build_change_db_packet,
  build_quit_packet, build_set_option_packet, build_ssl_request_packet, build_stmt_prepare_packet,
  build_stmt_bind_data_packet, build_stmt_reset_packet, build_stmt_close_packet,
  build_auth_clear_password,
}

pub data Command : Type 0 where
  ping quit : Command
  query change_db prepare clear_password : List ℕ → Command
  set_option reset close : ℕ → Command
  ssl_request : ℕ → ℕ → Command
  bind_data : ℕ → ℕ → List ℕ → Command

abbrev pub build_command : (ℕ → Bool) → Command → Run Builder (Unit {0})
build_command grants ping = build_ping_packet grants
build_command grants quit = build_quit_packet grants
build_command grants (query sql) = build_query_packet grants sql
build_command grants (change_db name) = build_change_db_packet grants name
build_command grants (prepare sql) = build_stmt_prepare_packet grants sql
build_command grants (clear_password pass) = build_auth_clear_password grants pass
build_command grants (set_option option) = build_set_option_packet grants option
build_command grants (reset id) = build_stmt_reset_packet grants id
build_command grants (close id) = build_stmt_close_packet grants id
build_command grants (ssl_request flags charset) = build_ssl_request_packet grants flags charset
build_command grants (bind_data id param bytes) = build_stmt_bind_data_packet grants id param bytes

-- A byte for the command, and its arguments: the last of them has no length, since the packet has one.
abbrev pub command_bytes : Command → List ℕ
command_bytes ping = 0x0e ∷ []
command_bytes quit = 0x01 ∷ []
command_bytes (query sql) = 0x03 ∷ sql
command_bytes (change_db name) = 0x02 ∷ name
command_bytes (prepare sql) = 0x16 ∷ sql
command_bytes (clear_password pass) = pass ++ 0 ∷ []
command_bytes (set_option option) = 0x1b ∷ le 2 option
command_bytes (reset id) = 0x1a ∷ le 4 id
command_bytes (close id) = 0x19 ∷ le 4 id
command_bytes (ssl_request flags charset) =
    le 4 (bit_or (bit_or flags capabilities_client) capabilities_ssl)
    ++ (le 4 max_packet_len ++ (charset ∷ [] ++ replicate 23 0))
command_bytes (bind_data id param bytes) = 0x18 ∷ [] ++ (le 4 id ++ (le 2 param ++ bytes))

module _ (grants : ℕ → Bool) (granted : (n : ℕ) → grants n ≡ true) where
  pub Packs-build_command : (c : Command) → Packs (build_command grants c) (command_bytes c)
  unfolding build_ping_packet build_query_packet build_change_db_packet build_quit_packet
      build_set_option_packet build_ssl_request_packet build_stmt_prepare_packet
      build_stmt_bind_data_packet build_stmt_reset_packet build_stmt_close_packet
      build_auth_clear_password write_uint16 write_uint32
  Packs-build_command ping = Packs-last _ (Writes-uint8 grants granted 0x0e)
  Packs-build_command quit = Packs-last _ (Writes-uint8 grants granted 0x01)
  Packs-build_command (query sql) =
      Packs-bind _ _ (Writes-uint8 grants granted 0x03)
        (Packs-last _ (Writes-buffer grants granted sql))
  Packs-build_command (change_db name) =
      Packs-bind _ _ (Writes-uint8 grants granted 0x02)
        (Packs-last _ (Writes-buffer grants granted name))
  Packs-build_command (prepare sql) =
      Packs-bind _ _ (Writes-uint8 grants granted 0x16)
        (Packs-last _ (Writes-buffer grants granted sql))
  Packs-build_command (clear_password pass) =
      Packs-bind _ _ (Writes-buffer grants granted pass)
        (Packs-last _ (Writes-uint8 grants granted 0))
  Packs-build_command (set_option option) =
      Packs-bind _ _ (Writes-uint8 grants granted 0x1b)
        (Packs-last _ (Writes-le grants granted 2 option))
  Packs-build_command (reset id) =
      Packs-bind _ _ (Writes-uint8 grants granted 0x1a)
        (Packs-last _ (Writes-le grants granted 4 id))
  Packs-build_command (close id) =
      Packs-bind _ _ (Writes-uint8 grants granted 0x19)
        (Packs-last _ (Writes-le grants granted 4 id))
  Packs-build_command (ssl_request flags charset) = Packs-bind _ _ (Writes-le grants granted 4 _) (
      Packs-bind _ _ (Writes-le grants granted 4 max_packet_len) (
        Packs-bind _ _ (Writes-uint8 grants granted charset)
          (Packs-last _ (Writes-buffer grants granted (replicate 23 0)))))
  Packs-build_command (bind_data id param bytes) =
      Packs-bind _ _ (Writes-uint8 grants granted 0x18) (
        Packs-bind _ _ (Writes-le grants granted 4 id) (
          Packs-bind _ _ (Writes-le grants granted 2 param)
            (Packs-last _ (Writes-buffer grants granted bytes))))

-- Each of the eleven commands, built on a fresh builder where memory is granted, is in the buffer the payload that the
-- protocol gives it, cut into frames from the sequence number `seq` on. The payload is shorter than 2 ^ 60 bytes.
pub pack-build_command :
    (grants : ℕ → Bool) (buff : Buffer) (seq : ℕ) (c : Command)
    → ((n : ℕ) → grants n ≡ true)
    → buff.allocated ≡ true
    → 0 < buff.cap
    → seq < 256
    → length (command_bytes c) < 2 ^ 60
    → (b : Builder) × (pack grants buff seq (build_command grants c) ≡ (ok tt, b))
      × IsPacket seq (command_bytes c) b
pack-build_command grants buff seq c granted live pos byte short =
    pack-IsPacket grants buff seq (build_command grants c) (command_bytes c) granted live pos byte
      short (Packs-build_command grants granted c)

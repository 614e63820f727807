-- ===== src/Protocol/Handshake.antt =====
-- src/protocol.c: the parsers of the initial handshake and of the auth switch request.
use trilogy.Prelude.{
  ℕ, ◌+◌, ◌-◌, ◌*◌, ◌^◌, ltb, ◌==◌, bit_or, if◌then◌else◌, ◌&&◌, not, List, ◌++◌, length, take, min,
  Option, none, some, Run, Result, fail, fail_if, done, ◌>>=◌, ◌>>◌, protocol_violation,
  auth_plugin_too_long,
}
use trilogy.Reader.{
  Reader, get_uint8, get_uint16, get_uint32, get_buffer, copy_buffer, get_string, get_eof_buffer,
  finish,
}
use trilogy.Protocol.Types.{
  has, Handshake, AuthSwitchRequestPacket, capabilities_protocol_41, capabilities_plugin_auth,
  capabilities_secure_connection, scramble_len,
}
use trilogy.Protocol.Replies.{parse_packet}

-- sizeof(auth_plugin) and sizeof(server_version)
abbrev pub auth_plugin_size : ℕ
auth_plugin_size = 32

abbrev pub server_version_size : ℕ
server_version_size = 32

-- A plugin's name, where it fits the array with its NUL.
unfoldable pub get_auth_plugin : Run Reader (List ℕ)
get_auth_plugin = do
  name ← get_string
  fail_if (ltb (auth_plugin_size - 1) (length name)) auth_plugin_too_long
  done name

unfoldable pub parse_auth_switch_request_fields : ℕ → Run Reader AuthSwitchRequestPacket
parse_auth_switch_request_fields caps = do
  get_uint8
  if has caps capabilities_plugin_auth
      then (do
        name ← get_auth_plugin
        auth_data ← get_eof_buffer
        finish
        done (record { auth_plugin = name; scramble = take 21 auth_data }))
      else fail protocol_violation

unfoldable pub parse_auth_switch_request_packet : List ℕ → ℕ → Result AuthSwitchRequestPacket
parse_auth_switch_request_packet buff caps =
    parse_packet (parse_auth_switch_request_fields caps) buff

-- From the protocol version to the filler.
unfoldable pub handshake_head : Run Reader (ℕ × List ℕ × ℕ × List ℕ)
handshake_head = do
  version ← get_uint8
  fail_if (not (version == 0xa)) protocol_violation
  server ← get_string
  conn_id ← get_uint32
  scramble ← copy_buffer 8
  filler ← get_uint8
  fail_if (not (filler == 0)) protocol_violation
  done (version, take (min (length server) (server_version_size - 1)) server, conn_id, scramble)

-- Both halves of the capabilities, with the charset and the status between them.
unfoldable pub handshake_flags : Run Reader (ℕ × ℕ × ℕ)
handshake_flags = do
  low ← get_uint16
  fail_if (not (has low capabilities_protocol_41)) protocol_violation
  charset ← get_uint8
  status ← get_uint16
  high ← get_uint16
  done (bit_or low (high * 2 ^ 16), charset, status)

-- The rest of the scramble: 21 bytes of it or none at all are refused.
unfoldable pub handshake_scramble : ℕ → Run Reader (List ℕ)
handshake_scramble caps = do
  auth_data_len ← get_uint8
  fail_if (not (has caps capabilities_plugin_auth) && not (auth_data_len == 0)) protocol_violation
  get_buffer 10
  if has caps capabilities_secure_connection && ltb 8 auth_data_len
      then (do
        fail_if (not (scramble_len + 1 == auth_data_len)) protocol_violation
        copy_buffer (auth_data_len - 8))
      else fail protocol_violation

unfoldable pub handshake_plugin : ℕ → Run Reader (Option (List ℕ))
handshake_plugin caps =
    if has caps capabilities_plugin_auth
    then (do name ← get_auth_plugin; done (some name))
    else done none

unfoldable pub parse_handshake_fields : Run Reader Handshake
parse_handshake_fields = do
  (version, server, conn_id, scramble) ← handshake_head
  (caps, charset, status) ← handshake_flags
  more ← handshake_scramble caps
  plugin ← handshake_plugin caps
  finish
  done (record {
    proto_version = version;
    server_version = server;
    conn_id = conn_id;
    scramble = scramble ++ more;
    capabilities = caps;
    server_charset = charset;
    server_status = status;
    auth_plugin = plugin;
  })

unfoldable pub parse_handshake_packet : List ℕ → Result Handshake
parse_handshake_packet buff = parse_packet parse_handshake_fields buff

-- ===== src/Client/Auth.antt =====
-- src/client.c: the beginning of a connection and the authentication.
use trilogy.Prelude.{
  ℕ, ◌==◌, ◌&&◌, not, bit_or, Bool, if◌then◌else◌, List, length, replicate, Option, none, some, Run,
  ok, fault, done, fail, fail_if, ◌>>=◌, ◌>>◌, generic, unexpected_packet, unsupported,
}
use trilogy.Protocol.Types.{has, Handshake, capabilities_ssl}
use trilogy.Protocol.Handshake.{parse_handshake_packet}
use trilogy.Protocol.Commands.{build_ssl_request_packet, build_auth_clear_password}
use trilogy.Protocol.Auth.{build_auth_packet, build_auth_switch_response_packet}
use trilogy.Client.Connection.{
  Sock, SockOpt, Connection, modify, asks, opts, on_socket, set_sequence_number, sequence_number,
  packet, packet_byte, lift, receive,
}
use trilogy.Client.Phase.{begin_command_phase, on_builder, begin_write, flush_writes, send}
use trilogy.Client.Wait.{retry, pump}
use trilogy.Client.Responses.{
  packet_eof, packet_err, packet_auth_more_data, current_packet_type, read_err_packet,
  read_auth_switch_packet, handle_generic_response,
}

abbrev pub fast_auth_ok : ℕ
fast_auth_ok = 3

abbrev pub fast_auth_fail : ℕ
fast_auth_fail = 4

-- `opts.flags |= flags`
abbrev pub set_flags : ℕ → SockOpt → SockOpt
set_flags flags o = record o { flags = bit_or o.flags flags }

module _ {W : Type 0} where
  unfoldable pub set_opts : (SockOpt → SockOpt) → Run (Connection W) (Unit {0})
  set_opts f c = elim c.socket [
    | none ↦ (fault, c)
    | some o ↦ (ok tt, record c { socket = some (f o) })
  ]

  -- The password's bytes are overwritten; its length stays.
  unfoldable pub auth_clear_password : Run (Connection W) (Unit {0})
  auth_clear_password = set_opts (λ o. record o { password = replicate (length o.password) 0 })

  module _ (grants : ℕ → Bool) (sock : Sock W) where
    unfoldable pub connect_send_socket : SockOpt → Run (Connection W) (Unit {0})
    connect_send_socket o = do
      λ c. ((sock.connect c.world).0, record c { world = (sock.connect c.world).1 })
      modify (λ c. record c { socket = some o })
      set_sequence_number 0

    -- trilogy_sock_new and trilogy_sock_resolve: `made` is whether there is a socket, `resolve` the status of the other.
    unfoldable pub connect_send : Bool → Run W (Unit {0}) → SockOpt → Run (Connection W) (Unit {0})
    connect_send made resolve o = do
      fail_if (not made) generic
      λ c. ((resolve c.world).0, record c { world = (resolve c.world).1 })
      connect_send_socket o

    unfoldable pub connect_recv : Run (Connection W) Handshake
    connect_recv = do
      receive grants sock
      type ← current_packet_type
      if type == packet_err then read_err_packet else (do
        o ← asks (λ c. parse_handshake_packet (packet c))
        handshake ← lift o
        modify (λ c. record c {
          capabilities = handshake.capabilities;
          server_status = handshake.server_status;
        })
        done handshake)

    unfoldable pub ssl_request_send : Run (Connection W) (Unit {0})
    ssl_request_send = do
      seq ← asks sequence_number
      builder ← begin_command_phase grants seq
      set_opts (set_flags capabilities_ssl)
      o ← opts
      on_builder builder (build_ssl_request_packet grants o.flags o.encoding)
      begin_write sock

    -- The second byte of the packet: the server has the password in its cache, or it is to be sent in clear.
    unfoldable pub fast_auth : ℕ → ℕ → Run (Connection W) (Unit {0})
    fast_auth rounds byte =
        if byte == fast_auth_ok
        then done tt
        else if byte == fast_auth_fail
        then (do
          seq ← asks sequence_number
          builder ← begin_command_phase grants seq
          o ← opts
          on_builder builder (build_auth_clear_password grants o.password)
          pump rounds (on_socket sock.wait_write) (begin_write sock) (flush_writes sock))
        else fail unexpected_packet

    -- The answer of a server that has more data: only over TLS or a Unix socket.
    unfoldable pub auth_more_data : ℕ → Run (Connection W) (Unit {0})
    auth_more_data rounds = do
      o ← opts
      fail_if (not (has o.flags capabilities_ssl) && not o.has_path) unsupported
      byte ← packet_byte 1
      fast_auth rounds byte
      retry rounds (on_socket sock.wait_read) (receive grants sock)

    -- TRILOGY_AUTH_SWITCH is `some` handshake, and TRILOGY_OK is `none`.
    unfoldable pub auth_recv : ℕ → Handshake → Run (Connection W) (Option Handshake)
    auth_recv rounds handshake = do
      receive grants sock
      type ← current_packet_type
      if type == packet_eof
          then (do switched ← read_auth_switch_packet handshake; done (some switched))
          else (do
            if type == packet_auth_more_data then auth_more_data rounds else done tt
            auth_clear_password
            handle_generic_response
            done none)

  module _ (sha1 sha256 : List ℕ → List ℕ) (grants : ℕ → Bool) (sock : Sock W) where
    unfoldable pub auth_send : Handshake → Run (Connection W) (Unit {0})
    auth_send handshake = do
      seq ← asks sequence_number
      o ← opts
      send sock grants seq (
          build_auth_packet sha1 sha256 grants o.username o.password o.database o.encoding
            handshake.auth_plugin handshake.scramble o.flags)

    unfoldable pub auth_switch_send : Handshake → Run (Connection W) (Unit {0})
    auth_switch_send handshake = do
      seq ← asks sequence_number
      o ← opts
      send sock grants seq (
          build_auth_switch_response_packet sha1 sha256 grants o.password handshake.auth_plugin
            handshake.scramble o.enable_cleartext_plugin)

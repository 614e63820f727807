-- ===== src/Client/Responses.antt =====
-- src/client.c: what the client makes of a packet that it has read.
use trilogy.Prelude.{
  ℕ, ltb, ◌==◌, ◌&&◌, not, ◌||◌, Bool, if◌then◌else◌, List, length, some, Run, ok, err, fault, done,
  fail, fail_if, ◌>>=◌, ◌>>◌, generic, eof, unexpected_packet, protocol_violation,
}
use trilogy.Protocol.Types.{
  has, OkPacket, ErrPacket, Handshake, AuthSwitchRequestPacket, capabilities_protocol_41,
  capabilities_deprecate_eof, max_last_gtid_len,
}
use trilogy.Protocol.Replies.{parse_ok_packet, parse_err_packet, parse_eof_packet}
use trilogy.Protocol.Handshake.{parse_auth_switch_request_packet}
use trilogy.Protocol.Auth.{same_text, native_password, caching_sha2_password, clear_password}
use trilogy.Client.Connection.{Sock, Connection, modify, asks, packet, packet_byte, lift, receive}

-- TRILOGY_PACKET_TYPE_t
abbrev pub packet_ok : ℕ
packet_ok = 0x0

abbrev pub packet_auth_more_data : ℕ
packet_auth_more_data = 0x01

abbrev pub packet_eof : ℕ
packet_eof = 0xfe

abbrev pub packet_err : ℕ
packet_err = 0xff

-- `plugin` and `scramble` of the handshake are the request's; the status is TRILOGY_AUTH_SWITCH.
unfoldable pub switched : AuthSwitchRequestPacket → Handshake → Handshake
switched p h = record h { auth_plugin = some p.auth_plugin; scramble = p.scramble }

abbrev pub supported : List ℕ → Bool
supported plugin =
    same_text native_password plugin
    || (same_text caching_sha2_password plugin || same_text clear_password plugin)

module _ {W : Type 0} where
  abbrev pub current_packet_type : Run (Connection W) ℕ
  current_packet_type = packet_byte 0

  unfoldable pub set_error : ErrPacket → Connection W → Connection W
  set_error p c = record c { error_code = p.error_code; error_message = p.error_message }

  -- The counts are taken over under CLIENT_PROTOCOL_41 only.
  unfoldable pub set_status : ℕ → ℕ → Connection W → Connection W
  set_status warning_count status_flags c =
      if has c.capabilities capabilities_protocol_41
      then record c { warning_count = warning_count; server_status = status_flags }
      else c

  unfoldable pub set_gtid : List ℕ → Connection W → Connection W
  set_gtid gtid c =
      if ltb 0 (length gtid) && ltb (length gtid) max_last_gtid_len
      then record c { last_gtid = gtid }
      else c

  unfoldable pub set_ok : OkPacket → Connection W → Connection W
  unfolding set_status set_gtid
  set_ok p c = set_gtid p.last_gtid (record (set_status p.warning_count p.status_flags c) {
    affected_rows = p.affected_rows;
    last_insert_id = p.last_insert_id;
  })

  unfoldable pub read_ok_packet : Run (Connection W) (Unit {0})
  read_ok_packet = do
    o ← asks (λ c. parse_ok_packet (packet c) c.capabilities)
    ok_packet ← lift o
    modify (set_ok ok_packet)

  -- The status of an ERR packet is TRILOGY_ERR.
  unfoldable pub read_err_packet : {A : Type 0} → Run (Connection W) A
  read_err_packet = do
    o ← asks (λ c. parse_err_packet (packet c) c.capabilities)
    err_packet ← lift o
    modify (set_error err_packet)
    fail generic

  unfoldable pub read_deprecated_eof_packet : Run (Connection W) (Unit {0})
  read_deprecated_eof_packet = do
    o ← asks (λ c. parse_eof_packet (packet c) c.capabilities)
    eof_packet ← lift o
    modify (set_status eof_packet.warning_count eof_packet.status_flags)
    fail eof

  -- TRILOGY_EOF becomes TRILOGY_OK.
  unfoldable pub eof_is_ok : Run (Connection W) (Unit {0}) → Run (Connection W) (Unit {0})
  eof_is_ok m c =
      (elim (m c).0 [ ok _ ↦ ok tt | err eof ↦ ok tt | err e ↦ err e | fault ↦ fault ], (m c).1)

  unfoldable pub read_eof_packet : Run (Connection W) (Unit {0})
  read_eof_packet = do
    deprecated ← asks (λ c. has c.capabilities capabilities_deprecate_eof)
    if deprecated then read_ok_packet else eof_is_ok read_deprecated_eof_packet

  -- TRILOGY_AUTH_SWITCH, with the handshake that the request has changed.
  unfoldable pub read_auth_switch_packet : Handshake → Run (Connection W) Handshake
  read_auth_switch_packet handshake = do
    o ← asks (λ c. parse_auth_switch_request_packet (packet c) c.capabilities)
    request ← lift o
    fail_if (not (supported request.auth_plugin)) protocol_violation
    done (switched request handshake)

  unfoldable pub handle_generic_response : Run (Connection W) (Unit {0})
  handle_generic_response = do
    type ← current_packet_type
    if type == packet_ok
        then read_ok_packet
        else if type == packet_err
        then read_err_packet
        else fail unexpected_packet

  unfoldable pub read_generic_response : (ℕ → Bool) → Sock W → Run (Connection W) (Unit {0})
  read_generic_response grants sock = do receive grants sock; handle_generic_response

-- ===== src/Client/Phase.antt =====
-- src/client.c: how a connection begins, how a command is built in its packet buffer, and how it is written.
use trilogy.Prelude.{
  ℕ, ◌+◌, ◌%◌, ◌^◌, ltb, Bool, if◌then◌else◌, [], length, drop, none, Result, Run, ok, err, fault,
  done, fail_if, ◌>>=◌, ◌>>◌, again,
}
use trilogy.Buffer.{buffer_init}
use trilogy.Builder.{Builder, builder_init, set_max_packet_length}
use trilogy.PacketParser.{packet_parser_init}
use trilogy.Client.Connection.{
  Sock, Connection, modify, asks, opts, on_socket, set_sequence_number, packet,
}

abbrev pub default_buf_size : ℕ
default_buf_size = 32768

-- The result of trilogy_builder_set_max_packet_length is not looked at.
unfoldable pub limited : ℕ → Builder → Builder
limited max b = if ltb 0 max then (set_max_packet_length max b).1 else b

module _ {W : Type 0} where
  -- trilogy_init_no_buffer over the memory `c`: all but the packet buffer, its cursor and what a result set has.
  unfoldable pub init_no_buffer : Connection W → Connection W
  init_no_buffer c = record c {
    affected_rows = 0;
    last_insert_id = 0;
    warning_count = 0;
    last_gtid = [];
    error_code = 0;
    error_message = [];
    capabilities = 0;
    server_status = 0;
    socket = none;
    io = record c.io { recv = []; packet_parser = packet_parser_init };
  }

  unfoldable pub init : (ℕ → Bool) → Run (Connection W) (Unit {0})
  init grants c =
      let o = buffer_init grants default_buf_size in
      (o.0, record (init_no_buffer c) { io = record (init_no_buffer c).io { packet_buffer = o.1 } })

  -- The builder works on the connection's packet buffer, and leaves it to the connection.
  unfoldable pub with_builder : Result (Unit {0}) × Builder → Run (Connection W) Builder
  with_builder (o, b) c = (
    elim o [ ok _ ↦ ok b | err e ↦ err e | fault ↦ fault ],
    record c { io = record c.io { packet_buffer = b.buffer } },
  )

  module _ (grants : ℕ → Bool) where
    unfoldable pub begin_builder : ℕ → Run (Connection W) Builder
    begin_builder seq c = with_builder (builder_init grants c.io.packet_buffer seq) c

    unfoldable pub begin_command_phase : ℕ → Run (Connection W) Builder
    begin_command_phase seq = do
      builder ← begin_builder seq
      o ← opts
      set_sequence_number ((seq + 1) % 256)
      done (limited o.max_allowed_packet builder)

  -- A call of a `trilogy_build_…`.
  unfoldable pub on_builder : Builder → Run Builder (Unit {0}) → Run (Connection W) Builder
  on_builder b m = with_builder (m b)

  module _ (sock : Sock W) where
    -- One write of what is left, and whether that was all.
    unfoldable pub flush_writes : Run (Connection W) (Unit {0})
    flush_writes = do
      rest ← asks (λ c. drop c.packet_buffer_written (packet c))
      bytes ← on_socket (sock.write rest)
      modify (λ c. record c { packet_buffer_written = (c.packet_buffer_written + bytes) % 2 ^ 64 })
      more ← asks (λ c. ltb c.packet_buffer_written (length (packet c)))
      fail_if more again

    unfoldable pub begin_write : Run (Connection W) (Unit {0})
    begin_write = do modify (λ c. record c { packet_buffer_written = 0 }); flush_writes

    -- What every `trilogy_…_send` does around the building of its packet.
    unfoldable pub send : (ℕ → Bool) → ℕ → Run Builder (Unit {0}) → Run (Connection W) (Unit {0})
    send grants seq m = do
      builder ← begin_command_phase grants seq
      on_builder builder m
      begin_write

    -- The same, where the answer goes on from the builder's sequence number.
    unfoldable pub send_long :
        (ℕ → Bool) → ℕ → Run Builder (Unit {0}) → Run (Connection W) (Unit {0})
    send_long grants seq m = do
      builder ← begin_command_phase grants seq
      built ← on_builder builder m
      set_sequence_number built.seq
      begin_write

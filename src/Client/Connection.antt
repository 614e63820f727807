-- ===== src/Client/Connection.antt =====
-- inc/trilogy/client.h and inc/trilogy/socket.h: a connection, and the socket's operations as the client calls them.
use trilogy.Prelude.{ℕ, Bool, List, [], ◌∷◌, Option, none, some, Result, Run, ok, fault, get_elem?}
use trilogy.Buffer.{Buffer}
use trilogy.Client.ReadPacket.{Conn, read_packet}

-- The options that the client reads. `path` is whether there is one; an absent password is an empty one.
pub record SockOpt : Type 0 where
  pub has_path : Bool
  pub database : Option (List ℕ)
  pub username : Option (List ℕ)
  pub password : List ℕ
  pub encoding : ℕ
  pub enable_cleartext_plugin : Bool
  pub flags : ℕ
  pub max_allowed_packet : ℕ

-- What the pointers of trilogy_sock_t call, over the world outside the program. A read gives the bytes it put into
-- recv_buff, a write the count of the bytes it took.
pub record Sock (W : Type 0) : Type 0 where
  pub connect : Run W (Unit {0})
  pub read : Run W (List ℕ)
  pub write : List ℕ → Run W ℕ
  pub wait_read : Run W (Unit {0})
  pub wait_write : Run W (Unit {0})
  pub shutdown : Run W (Unit {0})
  pub close : W → W

-- trilogy_conn_t. `socket` is the options of the socket, and `none` where it is NULL. `io` has recv_buff, the packet
-- parser and packet_buffer. The error message, which points into packet_buffer, is the bytes it had when it was set.
pub record Connection (W : Type 0) : Type 0 where
  pub affected_rows : ℕ
  pub last_insert_id : ℕ
  pub warning_count : ℕ
  pub last_gtid : List ℕ
  pub error_code : ℕ
  pub error_message : List ℕ
  pub capabilities : ℕ
  pub server_status : ℕ
  pub socket : Option SockOpt
  pub io : Conn
  pub packet_buffer_written : ℕ
  pub column_count : ℕ
  pub started_reading_rows : Bool
  pub world : W

module _ {W : Type 0} where
  -- `*conn = f(*conn)` and a value that is looked up.
  unfoldable pub modify : (Connection W → Connection W) → Run (Connection W) (Unit {0})
  modify f c = (ok tt, f c)

  unfoldable pub asks : {A : Type 0} → (Connection W → A) → Run (Connection W) A
  asks f c = (ok (f c), c)

  -- `conn->socket->opts`
  unfoldable pub opts : Run (Connection W) SockOpt
  opts c = elim c.socket [ none ↦ (fault, c) | some o ↦ (ok o, c) ]

  -- A call through `conn->socket`, which is not to be NULL.
  unfoldable pub on_socket : {A : Type 0} → Run W A → Run (Connection W) A
  on_socket m c = elim c.socket [
    | none ↦ (fault, c)
    | some o ↦ ((m c.world).0, record c { world = (m c.world).1 })
  ]

  unfoldable pub on_packet_buffer : {A : Type 0} → Run Buffer A → Run (Connection W) A
  on_packet_buffer m c = (
    (m c.io.packet_buffer).0,
    record c { io = record c.io { packet_buffer = (m c.io.packet_buffer).1 } },
  )

  -- `packet_parser.sequence_number = seq`
  unfoldable pub set_sequence_number : ℕ → Run (Connection W) (Unit {0})
  unfolding modify
  set_sequence_number seq = modify (λ c. record c {
    io = record c.io { packet_parser = record c.io.packet_parser { sequence_number = seq } };
  })

  unfoldable pub sequence_number : Connection W → ℕ
  sequence_number c = c.io.packet_parser.sequence_number

  -- The bytes of the packet that was read, and its byte `i`. Behind its end the memory holds what earlier packets left.
  unfoldable pub packet : Connection W → List ℕ
  packet c = c.io.packet_buffer.buff

  unfoldable pub packet_byte : ℕ → Run (Connection W) ℕ
  packet_byte i c = elim (get_elem? (packet c) i) [ none ↦ (fault, c) | some b ↦ (ok b, c) ]

  -- What a parser of a packet returned.
  unfoldable pub lift : {A : Type 0} → Result A → Run (Connection W) A
  lift o c = (o, c)

  module _ (grants : ℕ → Bool) (sock : Sock W) where
    -- read_packet, which reads from the socket where recv_buff is used up.
    unfoldable pub with_nread : Result (List ℕ) → Run (Connection W) (Unit {0})
    with_nread nread c =
        ((read_packet grants nread c.io).0, record c { io = (read_packet grants nread c.io).1 })

    unfoldable pub receive : Run (Connection W) (Unit {0})
    unfolding with_nread on_socket
    receive c = elim c.io.recv [
      | x ∷ xs ↦ with_nread (ok []) c
      | [] ↦ (let o = on_socket sock.read c in with_nread o.0 o.1)
    ]

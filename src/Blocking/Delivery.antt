-- ===== src/Blocking/Delivery.antt =====
-- A packet from the call to the socket: built in the packet buffer, framed, and written to its end.
use trilogy.Prelude.{
  ℕ, ◌+◌, ◌*◌, ◌%◌, ◌^◌, ◌≤◌, ◌<◌, ◌≡◌, refl, ap, ◌∙◌, arith, ltb, ltb_ge, Bool, true, Bool-cases,
  inl, inr, List, [], ◌++◌, length, length-append, none, some, Run, ok, fault, done, bind_run,
  if◌then◌else◌,
}
use trilogy.Buffer.{Buffer, size_max}
use trilogy.Builder.{Builder, set_max_packet_length}
use trilogy.Builder.Frames.{frames, frame, IsSplit, last, more, max_packet_len_small}
use trilogy.Builder.Framing.{builder_init-Holds}
use trilogy.Builder.Writes.{Holds, Holds-packet}
use trilogy.Builder.Packs.{IsPacket, Packs}
use trilogy.Client.Connection.{Sock, SockOpt, Connection, modify, opts, set_sequence_number, packet}
use trilogy.Client.Phase.{
  limited, with_builder, begin_builder, begin_command_phase, on_builder, flush_writes, begin_write,
  send, send_long,
}
use trilogy.Blocking.{sent}
use trilogy.Blocking.Flush.{Takes, pump-Sent}

-- The most that a packet's payload may have.
abbrev pub allowed : SockOpt → ℕ
allowed o = if ltb 0 o.max_allowed_packet then o.max_allowed_packet else size_max

limited-Holds :
    (seq max : ℕ) (b : Builder)
    → Holds seq [] size_max b
    → Holds seq [] (if ltb 0 max then max else size_max) (limited max b)
unfolding limited set_max_packet_length
limited-Holds seq max b h = elim (Bool-cases (ltb 0 max)) [
  | inr e ↦ rw e h
  | inl e ↦
      rw (e, ltb_ge max b.packet_length (omega (arith, Holds-packet h)))
        (record {
          full = h.full;
          part = h.part;
          is_open = record {
            closed = h.is_open.closed;
            part_le = h.is_open.part_le;
            bytes = h.is_open.bytes;
            offset = h.is_open.offset;
            next = h.is_open.next;
            fragment = h.is_open.fragment;
            packet = h.is_open.packet;
            limited = refl;
            live = h.is_open.live;
            room = h.is_open.room;
          };
          payload = h.payload;
          short = h.short;
        })
]

-- The bytes on the wire are at least a header, and not many more than the payload.
length-frames_split :
    (s : ℕ) {cs : List (List ℕ)} {p : List ℕ}
    → IsSplit cs p
    → (4 ≤ length (frames s cs)) × (length (frames s cs) ≤ 2 * length p + 4)
length-frames_split s (last {p} short) =
    let n = length-append (frame s p) [] in (omega (arith, n), omega (arith, n))
length-frames_split s (more {c} {p} {cs} full rest) =
    let (low, high) = length-frames_split (s + 1) rest in
    let n = length-append (frame s c) (frames (s + 1) cs) in
    let k = length-append c p in
    let big = max_packet_len_small.0 in
    (omega (arith, n, low), omega (arith, n, high, k, full, big))

module _ {W : Type 0} (grants : ℕ → Bool) where
  -- The connection while a command is built in its packet buffer.
  abbrev pub with_packet : Connection W → Buffer → ℕ → Connection W
  with_packet c b seq = record c {
    io = record c.io {
      packet_parser = record c.io.packet_parser { sequence_number = seq };
      packet_buffer = b;
    };
  }

  opts_run : (c : Connection W) {o : SockOpt} → c.socket ≡ some o → opts c ≡ (ok o, c)
  unfolding opts
  opts_run c h = ap (λ s. elim s [ none ↦ (fault, c) | some o ↦ (ok o, c) ]) h

  -- A packet that is built for a connection.
  pub record Built (seq : ℕ) (m : Run Builder (Unit {0})) (p : List ℕ) (c : Connection W)
      : Type 0 where
    pub begun : Builder
    pub first : Buffer
    pub built : Builder
    pub begins :
        begin_command_phase grants seq c ≡ (ok begun, with_packet c first ((seq + 1) % 256))
    pub builds :
        on_builder begun m (with_packet c first ((seq + 1) % 256))
        ≡ (ok built, with_packet c built.buffer ((seq + 1) % 256))
    pub is_packet : IsPacket seq p built

  pub Packs-Built :
      (seq : ℕ) (m : Run Builder (Unit {0})) (p : List ℕ) (c : Connection W) (o : SockOpt)
      → ((n : ℕ) → grants n ≡ true)
      → c.socket ≡ some o
      → c.io.packet_buffer.allocated ≡ true
      → 0 < c.io.packet_buffer.cap
      → seq < 256
      → length p < allowed o
      → length p < 2 ^ 60
      → allowed o < 2 ^ 64
      → Packs m p
      → Built seq m p c
  unfolding begin_command_phase begin_builder with_builder on_builder set_sequence_number modify
      done
  Packs-Built seq m p c o granted connected live pos byte below small size w =
      let (b, e, h) = builder_init-Holds grants granted c.io.packet_buffer seq live pos byte in
      let begun = limited o.max_allowed_packet b in
      let (built, e', is) =
        w.at seq [] (allowed o) begun (limited-Holds seq o.max_allowed_packet b h)
          (record { below = omega (arith, below); small = omega (arith, small); size_t = size }) in
      record {
        begun = begun;
        first = b.buffer;
        built = built;
        begins =
            bind_run (begin_builder grants seq) _ (ap (λ r. with_builder r c) e)
            ∙ bind_run opts _ (opts_run _ connected)
            ∙ bind_run (set_sequence_number ((seq + 1) % 256)) _ refl;
        builds = ap (λ r. with_builder r (with_packet c b.buffer ((seq + 1) % 256))) e';
        is_packet = is;
      }

module _ {W : Type 0} (grants : ℕ → Bool) (sock : Sock W) (log : W → List ℕ) (ready : W → Bool)
    (takes : Takes sock log ready) (rounds : ℕ) where
  -- From a call that comes down to the first write of a packet.
  pub delivered :
      (m : Run (Connection W) (Unit {0})) {seq next : ℕ} {p : List ℕ} (o : SockOpt) (b : Builder)
      (c : Connection W)
      → c.socket ≡ some o
      → (is : IsPacket seq p b) → length p < 2 ^ 60
      → 2 * length p + 4 ≤ rounds
      → m c
        ≡ flush_writes sock
            (record (with_packet grants c b.buffer next) { packet_buffer_written = 0 })
      → (conn : Connection W) × (sent sock rounds m c ≡ (ok tt, conn))
        × (log conn.world ≡ log c.world ++ frames seq is.chunks)
        × (conn.io.packet_parser.sequence_number ≡ next)
  unfolding sent packet
  delivered m {seq} {next} {p} o b c connected is small enough e =
      let (low, high) = length-frames_split seq is.split in
      let size : length b.buffer.buff ≡ length (frames seq is.chunks) = ap length is.bytes in
      let c' = record (with_packet grants c b.buffer next) { packet_buffer_written = 0 } in
      let (conn, returns, s) =
        pump-Sent sock log ready takes {all = log c.world ++ b.buffer.buff} {io = c'.io} rounds
          (length b.buffer.buff) m c c' (omega (arith, size, low))
          (omega (arith, size, high, enough))
          (record {
            opt = o;
            connected = connected;
            holds = refl;
            small = omega (arith, size, high, small);
            counted = omega arith;
            total = refl;
          })
          e in
      (
        conn,
        returns,
        s.taken ∙ ap (λ l. log c.world ++ l) is.bytes,
        ap (λ io. io.packet_parser.sequence_number) s.kept,
      )

  pub send_lem :
      (seq : ℕ) (m : Run Builder (Unit {0})) {p : List ℕ} (c : Connection W)
      (b : Built grants seq m p c)
      → send sock grants seq m c
        ≡ flush_writes sock (record (with_packet grants c b.built.buffer ((seq + 1) % 256)) {
          packet_buffer_written = 0;
        })
  unfolding send begin_write modify
  send_lem seq m c b =
      bind_run (begin_command_phase grants seq) _ b.begins
      ∙ bind_run (on_builder b.begun m) _ b.builds
      ∙ bind_run (modify (λ c. record c { packet_buffer_written = 0 })) _ refl

  pub send_long_lem :
      (seq : ℕ) (m : Run Builder (Unit {0})) {p : List ℕ} (c : Connection W)
      (b : Built grants seq m p c)
      → send_long sock grants seq m c
        ≡ flush_writes sock
            (record (with_packet grants c b.built.buffer b.built.seq) { packet_buffer_written = 0 })
  unfolding send_long begin_write modify set_sequence_number
  send_long_lem seq m c b =
      bind_run (begin_command_phase grants seq) _ b.begins
      ∙ bind_run (on_builder b.begun m) _ b.builds
      ∙ bind_run (set_sequence_number b.built.seq) _ refl
      ∙ bind_run (modify (λ c. record c { packet_buffer_written = 0 })) _ refl

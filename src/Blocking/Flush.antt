-- ===== src/Blocking/Flush.antt =====
-- flush_full over a socket that may refuse bytes, until it is waited for.
use mathlib.Core.Path.{subst}
use trilogy.Prelude.{
  ℕ, zero, suc, ◌+◌, ◌%◌, ◌^◌, ◌≤◌, ◌<◌, ◌≡◌, refl, sym, ap, ◌∙◌, arith, ltb, ltb_ge, lt→ltb, Bool,
  true, false, Bool-cases, inl, inr, List, ◌++◌, append_assoc, append-nil, length, length-drop,
  take, drop, drop-add, drop_all, take-append-drop, none, some, fault, ltb→lt, ◌-◌, Run, Result, ok,
  err, fail_if, ◌>>◌, bind_run, bind_stop, again, if◌then◌else◌,
}
use trilogy.Client.ReadPacket.{Conn}
use trilogy.Client.Connection.{Sock, SockOpt, Connection, modify, asks, on_socket, packet}
use trilogy.Client.Wait.{is_again, retry, pump}
use trilogy.Client.Phase.{flush_writes}
use trilogy.Blocking.{flush_full}

-- `log` is what the socket has taken so far, and `ready` whether it has room, both matters of the world outside. With
-- room, a write takes a byte at least and no more than it is given, and says how many; without, it returns TRILOGY_AGAIN.
-- A wait ends when there is room. A write may use the room up.
pub record Takes {W : Type 0} (sock : Sock W) (log : W → List ℕ) (ready : W → Bool) : Type 0 where
  pub writes :
      (xs : List ℕ) (w : W)
      → ready w ≡ true
      → 0 < length xs
      → (n : ℕ) × (w' : W) × (sock.write xs w ≡ (ok n, w'))
        × (0 < n)
        × (n ≤ length xs)
        × (log w' ≡ log w ++ take n xs)
  pub refuses :
      (xs : List ℕ) (w : W)
      → ready w ≡ false
      → (w' : W) × (sock.write xs w ≡ (err again, w')) × (log w' ≡ log w)
  pub waits :
      (w : W) → (w' : W) × (sock.wait_write w ≡ (ok tt, w')) × (log w' ≡ log w) × (ready w' ≡ true)

-- A call through a socket that there is.
pub on_socket_run :
    {W A : Type 0} (m : Run W A) (c : Connection W) {o : SockOpt} {a : Result A} {w : W}
    → c.socket ≡ some o
    → m c.world ≡ (a, w)
    → on_socket m c ≡ (a, record c { world = w })
unfolding on_socket
on_socket_run m c h e =
    ap
      (λ s. elim s [
        | none ↦ (fault, c)
        | some o ↦ ((m c.world).0, record c { world = (m c.world).1 })
      ])
      h
    ∙ (λ i. ((e i).0, record c { world = (e i).1 }))

module _ {W : Type 0} (sock : Sock W) (log : W → List ℕ) (ready : W → Bool)
    (takes : Takes sock log ready) where
  -- `left` bytes of the packet in `io` are still to be written; `all` is what the socket will have taken then.
  pub record Pending (all : List ℕ) (io : Conn) (left : ℕ) (c : Connection W) : Type 0 where
    pub opt : SockOpt
    pub connected : c.socket ≡ some opt
    pub holds : c.io ≡ io
    pub small : length io.packet_buffer.buff < 2 ^ 64
    pub counted : c.packet_buffer_written + left ≡ length io.packet_buffer.buff
    pub total : log c.world ++ drop c.packet_buffer_written io.packet_buffer.buff ≡ all

  pub record Sent (all : List ℕ) (io : Conn) (c : Connection W) : Type 0 where
    pub taken : log c.world ≡ all
    pub kept : c.io ≡ io

  -- The outcome of one flush_writes; `room` is whether the socket had room before it.
  pub data Flushed (all : List ℕ) (io : Conn) (left : ℕ) (room : Bool)
      : Result (Unit {0}) × Connection W → Type 0 where
    all_sent : (c : Connection W) → Sent all io c → Flushed all io left room (ok tt, c)
    some_sent :
        (c : Connection W) (left' : ℕ)
        → Pending all io left' c
        → 0 < left'
        → left' ≤ left
        → (room ≡ true → left' < left)
        → Flushed all io left room (err again, c)

  flush_writes-refused :
      {all : List ℕ} {io : Conn} {left : ℕ} (c : Connection W)
      → Pending all io left c
      → 0 < left
      → ready c.world ≡ false
      → Flushed all io left false (flush_writes sock c)
  unfolding flush_writes asks packet
  flush_writes-refused {all} {io} {left} c h pos full =
      let (w', e, logged) = takes.refuses (drop c.packet_buffer_written (packet c)) c.world full in
      subst (Flushed all io left false)
        (sym (
          bind_run (asks (λ c. drop c.packet_buffer_written (packet c))) _ refl
          ∙ bind_stop (on_socket (sock.write (drop c.packet_buffer_written (packet c)))) _
              (on_socket_run _ c h.connected e)))
        (some_sent (record c { world = w' }) left
          (record {
            opt = h.opt;
            connected = h.connected;
            holds = h.holds;
            small = h.small;
            counted = h.counted;
            total =
                ap (λ l. l ++ drop c.packet_buffer_written io.packet_buffer.buff) logged ∙ h.total;
          })
          pos (omega arith) (λ e. absurd (no e)))
    where
      no : false ≡ true → ⊥
      no e = cc

  flush_writes-taken :
      {all : List ℕ} {io : Conn} {left : ℕ} (c : Connection W)
      → Pending all io left c
      → 0 < left
      → ready c.world ≡ true
      → Flushed all io left true (flush_writes sock c)
  unfolding flush_writes asks modify fail_if packet
  flush_writes-taken {all} {io} {left} c h pos room =
      let p = io.packet_buffer.buff in
      let written = c.packet_buffer_written in
      let rest = drop written p in
      let size : length rest ≡ left = omega (arith, length-drop written p, h.counted) in
      let (n, w', e, some_, fits, logged) =
        takes.writes rest c.world room (omega (arith, size, pos)) in
      let c1 = record c { world = w' } in
      let c2 = record c1 { packet_buffer_written = (written + n) % 2 ^ 64 } in
      let wrote : sock.write (drop written (packet c)) c.world ≡ (ok n, w') =
        ap (λ t. sock.write (drop written t.packet_buffer.buff) c.world) h.holds ∙ e in
      let moved : (written + n) % 2 ^ 64 ≡ written + n =
        omega (arith, fits, size, h.counted, h.small) in
      let run : flush_writes sock c
          ≡ fail_if (ltb ((written + n) % 2 ^ 64) (length (packet c))) again c2 =
        bind_run (asks (λ c. drop c.packet_buffer_written (packet c))) _ refl
        ∙ bind_run (on_socket (sock.write (drop written (packet c)))) _
            (on_socket_run _ c h.connected wrote)
        ∙ bind_run
            (modify
              (λ c. record c { packet_buffer_written = (c.packet_buffer_written + n) % 2 ^ 64 }))
            _ refl
        ∙ bind_run (asks (λ c. ltb c.packet_buffer_written (length (packet c)))) _ refl in
      let more : length (packet c) ≡ length p = ap (λ t. length t.packet_buffer.buff) h.holds in
      let total : log w' ++ drop (written + n) p ≡ all =
        ap (λ l. l ++ drop (written + n) p) logged
        ∙ append_assoc (log c.world) (take n rest) (drop (written + n) p)
        ∙ ap (λ l. log c.world ++ (take n rest ++ l)) (drop-add written n p)
        ∙ ap (λ l. log c.world ++ l) (take-append-drop n rest)
        ∙ h.total in
      elim (Bool-cases (ltb n left)) [
        | inl some_left ↦
            subst (Flushed all io left true)
              (sym (
                run
                ∙ ap (λ b. fail_if b again c2)
                    (lt→ltb _ _ (omega (arith, moved, more, h.counted, ltb→lt n left some_left)))))
              (some_sent c2 (left - n)
                (record {
                  opt = h.opt;
                  connected = h.connected;
                  holds = h.holds;
                  small = h.small;
                  counted = omega (arith, moved, h.counted, ltb→lt n left some_left);
                  total = ap (λ k. log w' ++ drop k p) moved ∙ total;
                })
                (omega (arith, ltb→lt n left some_left)) (omega (arith, some_, pos))
                (λ e. omega (arith, some_, pos)))
        | inr none_left ↦
            let whole : length p ≤ written + n = ground (arith, none_left, h.counted) in
            subst (Flushed all io left true)
              (sym (
                run
                ∙ ap (λ b. fail_if b again c2) (ltb_ge _ _ (omega (arith, moved, more, whole)))))
              (all_sent c2 (record {
                taken =
                    sym (append-nil (log w'))
                    ∙ ap (λ l. log w' ++ l) (sym (drop_all (written + n) p whole))
                    ∙ total;
                kept = h.holds;
              }))
      ]

  pub flush_writes-Flushed :
      {all : List ℕ} {io : Conn} {left : ℕ} (c : Connection W)
      → Pending all io left c
      → 0 < left
      → Flushed all io left (ready c.world) (flush_writes sock c)
  flush_writes-Flushed {all} {io} {left} c h pos = elim (Bool-cases (ready c.world)) [
    | inl room ↦
        subst (λ b. Flushed all io left b (flush_writes sock c)) (sym room)
          (flush_writes-taken c h pos room)
    | inr full ↦
        subst (λ b. Flushed all io left b (flush_writes sock c)) (sym full)
          (flush_writes-refused c h pos full)
  ]

  abbrev pub wait : Run (Connection W) (Unit {0})
  wait = on_socket sock.wait_write

  -- A wait changes nothing but the world, and then there is room.
  waited :
      {all : List ℕ} {io : Conn} {left : ℕ} (m : Run (Connection W) (Unit {0})) (c : Connection W)
      → Pending all io left c
      → ((c' : Connection W)
          → Pending all io left c'
          → ready c'.world ≡ true
          → (c'' : Connection W) × (m c' ≡ (ok tt, c'')) × Sent all io c'')
      → (c' : Connection W) × ((wait >> m) c ≡ (ok tt, c')) × Sent all io c'
  waited {all} {io} m c h rest =
      let (w', e, logged, room) = takes.waits c.world in
      let (c', e', s) =
        rest (record c { world = w' })
          (record {
            opt = h.opt;
            connected = h.connected;
            holds = h.holds;
            small = h.small;
            counted = h.counted;
            total =
                ap (λ l. l ++ drop c.packet_buffer_written io.packet_buffer.buff) logged ∙ h.total;
          })
          room in
      (c', bind_run wait _ (on_socket_run sock.wait_write c h.connected e) ∙ e', s)

  -- The rounds behind the outcome of a flush.
  after_flush :
      {all : List ℕ} {io : Conn} {left : ℕ} {room : Bool} (more : Run (Connection W) (Unit {0}))
      {r : Result (Unit {0}) × Connection W}
      → Flushed all io left room r
      → ((left' : ℕ)
          → 0 < left'
          → left' ≤ left
          → (room ≡ true → left' < left)
          → (c' : Connection W) → Pending all io left' c'
          → ready c'.world ≡ true
          → (c'' : Connection W) × (more c' ≡ (ok tt, c'')) × Sent all io c'')
      → (c' : Connection W) × ((if is_again r.0 then (wait >> more) r.1 else r) ≡ (ok tt, c'))
        × Sent all io c'
  unfolding is_again
  after_flush more (all_sent c s) rest = (c, refl, s)
  after_flush more (some_sent c left' h pos le lt) rest = waited more c h (rest left' pos le lt)

  retry-Sent :
      {all : List ℕ} {io : Conn} (rounds left : ℕ)
      → 0 < left
      → left ≤ rounds
      → (c : Connection W) → Pending all io left c
      → ready c.world ≡ true
      → (c' : Connection W) × (retry rounds wait (flush_writes sock) c ≡ (ok tt, c'))
        × Sent all io c'
  unfolding retry
  retry-Sent zero left pos enough c h room = absurd (omega arith)
  retry-Sent (suc rounds) left pos enough c h room =
      after_flush (retry rounds wait (flush_writes sock)) (flush_writes-Flushed c h pos)
        (λ left' pos' le lt. retry-Sent rounds left' pos' (omega (arith, enough, lt room)))

  -- A first call that ends in a flush of a packet, and the rounds behind it.
  pub pump-Sent :
      {all : List ℕ} {io : Conn} (rounds left : ℕ) (first : Run (Connection W) (Unit {0}))
      (c c' : Connection W)
      → 0 < left
      → left ≤ rounds
      → Pending all io left c'
      → first c ≡ flush_writes sock c'
      → (c'' : Connection W) × (pump rounds wait first (flush_writes sock) c ≡ (ok tt, c''))
        × Sent all io c''
  unfolding pump
  pump-Sent {all} {io} rounds left first c c' pos enough h e =
      after_flush (retry rounds wait (flush_writes sock))
        (subst (Flushed all io left (ready c'.world)) (sym e) (flush_writes-Flushed c' h pos))
        (λ left' pos' le lt. retry-Sent rounds left' pos' (omega (arith, enough, le)))

-- flush_full ends within as many rounds as there are bytes left to write, with TRILOGY_OK, and the socket has then taken
-- these bytes behind what it had taken, each once and in order; the packet and the state of the parser stay as they are.
-- Some bytes are left. The socket returns TRILOGY_AGAIN to a write while it has no room, a wait for it ends with room, and
-- with room a write takes a byte at least.
pub flush_full-Sent :
    {W : Type 0} (sock : Sock W) (log : W → List ℕ) (ready : W → Bool) (rounds : ℕ) (o : SockOpt)
    (c : Connection W)
    → Takes sock log ready
    → c.socket ≡ some o
    → length (packet c) < 2 ^ 64
    → c.packet_buffer_written < length (packet c)
    → length (packet c) ≤ c.packet_buffer_written + rounds
    → (c' : Connection W) × (flush_full sock rounds c ≡ (ok tt, c'))
      × (log c'.world ≡ log c.world ++ drop c.packet_buffer_written (packet c))
      × (c'.io ≡ c.io)
unfolding flush_full packet
flush_full-Sent sock log ready rounds o c takes connected small some_left enough =
    let left = length (packet c) - c.packet_buffer_written in
    let (c', e, s) =
      waited sock log ready takes (retry rounds (wait sock log ready takes) (flush_writes sock)) c
        (record {
          opt = o;
          connected = connected;
          holds = refl;
          small = small;
          counted = omega (arith, some_left);
          total = refl;
        })
        (retry-Sent sock log ready takes rounds left (omega (arith, some_left))
          (omega (arith, enough))) in
    (c', e, s.taken, s.kept)

-- ===== src/Blocking/Answer.antt =====
-- An answer from the network to what the blocking call returns.
use trilogy.Prelude.{
  Bool-cases, inl, inr, again, ℕ, zero, suc, ◌^◌, ◌≤◌, ◌<◌, ◌≡◌, refl, ap, ◌∙◌, arith, Bool, true,
  false, List, [], ◌∷◌, ◌++◌, All, length, some, Run, Result, ok, err, ◌>>◌, bind_run, bind_stop,
  generic,
}
use trilogy.Builder.Frames.{joined, frames, IsSplit}
use trilogy.Protocol.Types.{ErrPacket}
use trilogy.Protocol.RoundTrip.Replies.{err_bytes, IsErr}
use trilogy.Client.ReadPacket.{Conn, read_packet}
use trilogy.Client.Reassembly.{Idle}
use trilogy.Client.Reassembly.Packet.{Reads, returns, retries, read_packet-frames}
use trilogy.Client.Connection.{Sock, SockOpt, Connection, on_socket, with_nread, receive, packet}
use trilogy.Client.Responses.{handle_generic_response, read_generic_response, set_error}
use trilogy.Client.Answers.{handle_generic_response-err_bytes}
use trilogy.Client.Wait.{is_again, retry, retry_stop, retry_again}
use trilogy.Blocking.{received}
use trilogy.Blocking.Flush.{on_socket_run}

-- `pieces` is what the network has for the socket and `ready` whether some of it is there. Then a read gives the first
-- piece; before, it returns TRILOGY_AGAIN. A wait ends when some is there. A read may be the last for which it is.
pub record Gives {W : Type 0} (sock : Sock W) (pieces : W → List (List ℕ)) (ready : W → Bool)
    : Type 0 where
  pub reads :
      (w : W) (x : List ℕ) (xs : List (List ℕ))
      → ready w ≡ true
      → pieces w ≡ x ∷ xs
      → (w' : W) × (sock.read w ≡ (ok x, w')) × (pieces w' ≡ xs)
  pub lacks :
      (w : W)
      → ready w ≡ false
      → (w' : W) × (sock.read w ≡ (err again, w')) × (pieces w' ≡ pieces w)
  pub waits :
      (w : W)
      → (w' : W) × (sock.wait_read w ≡ (ok tt, w')) × (pieces w' ≡ pieces w) × (ready w' ≡ true)

-- The connection with the bytes and the packet that `io` has.
abbrev pub at_io : {W : Type 0} → Connection W → Conn → W → Connection W
at_io c io w = record c { io = io; world = w }

module _ {W A : Type 0} (grants : ℕ → Bool) (sock : Sock W) (pieces : W → List (List ℕ))
    (ready : W → Bool) (gives : Gives sock pieces ready) (answer : Run (Connection W) A) where
  -- A call that asks the socket for bytes.
  receive_lem :
      (c : Connection W) (o : SockOpt) {nread : Result (List ℕ)} {r : Result (Unit {0})} {io : Conn}
      {w : W}
      → c.socket ≡ some o
      → sock.read c.world ≡ (nread, w)
      → c.io.recv ≡ []
      → read_packet grants nread c.io ≡ (r, io)
      → receive grants sock c ≡ (r, at_io c io w)
  unfolding receive with_nread
  receive_lem c o {w} connected got used e =
      ap (λ l. elim l [ y ∷ ys ↦ with_nread grants sock (ok []) c | [] ↦ read_more c ]) used
      ∙ ap (λ t. with_nread grants sock t.0 t.1) (on_socket_run sock.read c connected got)
      ∙ (λ i. ((e i).0, at_io c (e i).1 w))
    where
      read_more : Connection W → Result (Unit {0}) × Connection W
      read_more c = let t = on_socket sock.read c in with_nread grants sock t.0 t.1

  read_packet_again :
      (conn : Conn) → conn.recv ≡ [] → read_packet grants (err again) conn ≡ (err again, conn)
  unfolding read_packet
  read_packet_again conn used = rw used refl

  abbrev pub wait_read : Run (Connection W) (Unit {0})
  wait_read = on_socket sock.wait_read

  -- The calls that read the packet, with a wait behind each that did not, and then the answer.
  received_Reads :
      {ps later : List (List ℕ)} {io io' : Conn} (rounds : ℕ) (o : SockOpt) (c : Connection W)
      → Reads grants ps io io' later
      → c.io ≡ io
      → c.socket ≡ some o
      → pieces c.world ≡ ps
      → ready c.world ≡ true
      → length ps ≤ rounds
      → ((w : W) → is_again (answer (at_io c io' w)).0 ≡ false)
      → (w : W) × (retry rounds wait_read (receive grants sock >> answer) c
          ≡ answer (at_io c io' w))
        × (pieces w ≡ later)
  received_Reads zero o c (returns used e) same connected here there enough final =
      absurd (omega (arith, enough))
  received_Reads zero o c (retries between used e rest) same connected here there enough final =
      absurd (omega (arith, enough))
  received_Reads {io'} (suc rounds) o c (returns {piece} {pieces = ps} used e) same connected here
        there enough final =
      let (w, read, left) = gives.reads c.world piece ps there here in
      let got =
        receive_lem c o connected read (ap (λ t. t.recv) same ∙ used)
          (ap (read_packet grants (ok piece)) same ∙ e) in
      let run = bind_run (receive grants sock) (λ _. answer) got in
      (w, retry_stop rounds wait_read (receive grants sock >> answer) run (final w), left)
  received_Reads {io'} (suc rounds) o c (retries {piece} {pieces = ps} between used e rest) same
        connected here there enough final =
      let (w, read, left) = gives.reads c.world piece ps there here in
      let got =
        receive_lem c o connected read (ap (λ t. t.recv) same ∙ used)
          (ap (read_packet grants (ok piece)) same ∙ e) in
      let run = bind_stop (receive grants sock) (λ _. answer) got in
      let (w', waited, left', there') = gives.waits w in
      let (w'', goes, left'') =
        received_Reads rounds o (at_io c between w') rest refl connected (left' ∙ left) there'
          (omega (arith, enough)) final in
      (
        w'',
        retry_again rounds wait_read (receive grants sock >> answer) run
            ∙ bind_run wait_read _
                (on_socket_run sock.wait_read (at_io c between w) connected waited)
            ∙ goes,
        left'',
      )

  -- The same where nothing may be there yet, which takes another round.
  received_packet :
      {ps later : List (List ℕ)} {io io' : Conn} (rounds : ℕ) (o : SockOpt) (c : Connection W)
      → Reads grants ps io io' later
      → c.io ≡ io
      → c.io.recv ≡ []
      → c.socket ≡ some o
      → pieces c.world ≡ ps
      → length ps < rounds
      → ((w : W) → is_again (answer (at_io c io' w)).0 ≡ false)
      → (w : W) × (retry rounds wait_read (receive grants sock >> answer) c
          ≡ answer (at_io c io' w))
        × (pieces w ≡ later)
  received_packet zero o c reads same used connected here enough final =
      absurd (omega (arith, enough))
  received_packet (suc rounds) o c reads same used connected here enough final =
      elim (Bool-cases (ready c.world)) [
        | inl there ↦
            received_Reads (suc rounds) o c reads same connected here there (omega (arith, enough))
              final
        | inr lacking ↦
            let (w, read, left) = gives.lacks c.world lacking in
            let run =
              bind_stop (receive grants sock) (λ _. answer)
                (receive_lem c o connected read used (read_packet_again c.io used)) in
            let (w', waited, left', there) = gives.waits w in
            let (w'', goes, left'') =
              received_Reads rounds o (at_io c c.io w') reads same connected (left' ∙ left ∙ here)
                there (omega (arith, enough)) final in
            (
              w'',
              retry_again rounds wait_read (receive grants sock >> answer) run
                  ∙ bind_run wait_read _
                      (on_socket_run sock.wait_read (at_io c c.io w) connected waited)
                  ∙ goes,
              left'',
            )
      ]

  -- A payload that comes in any pieces is handed to `answer`, whose outcome for it is known.
  pub received_payload :
      (out : Connection W → Result A × Connection W) (payload extra : List ℕ)
      (chunks : List (List ℕ)) (rounds s : ℕ) (o : SockOpt) (c : Connection W)
      → ((n : ℕ) → grants n ≡ true)
      → c.socket ≡ some o
      → IsSplit chunks payload
      → joined (pieces c.world) ≡ frames s chunks ++ extra
      → All (λ x. 0 < length x) (pieces c.world)
      → Idle s c.io.packet_parser
      → c.io.recv ≡ []
      → c.io.packet_buffer.allocated ≡ true
      → 0 < c.io.packet_buffer.cap
      → length payload ≤ 2 ^ 62
      → length (pieces c.world) < rounds
      → ((io : Conn) (w : W)
          → io.packet_buffer.buff ≡ payload
          → (answer (at_io c io w) ≡ out (at_io c io w))
            × (is_again (out (at_io c io w)).0 ≡ false))
      → (io : Conn) × (w : W) × (received sock rounds (receive grants sock >> answer) c
          ≡ out (at_io c io w))
        × (io.recv ++ joined (pieces w) ≡ extra)
  unfolding received
  received_payload out payload extra chunks rounds s o c granted connected split stream full idle
        used live room small enough outcome =
      let r =
        read_packet-frames grants payload extra chunks (pieces c.world) s c.io.packet_parser
          c.io.packet_buffer granted split stream full idle live room small in
      let (w, e, left) =
        received_packet rounds o c r.reads (λ i. record c.io { recv = used i }) used connected refl
          enough
          (λ w. let (got, ends) = outcome r.conn' w r.buff in ap (λ t. is_again t.0) got ∙ ends) in
      (
        r.conn',
        w,
        e ∙ (outcome r.conn' w r.buff).0,
        ap (λ l. r.conn'.recv ++ joined l) left ∙ r.behind,
      )

-- The blocking wait for the answer to a command that the server refuses: however the network cuts the frames of the ERR
-- packet into pieces, none of them empty, and whatever is behind them, the wait ends within as many rounds as there are
-- pieces and one, and returns TRILOGY_ERR, with the code and the message of the packet in the connection and the bytes
-- behind the frames still to be read. The socket returns TRILOGY_AGAIN to a read while no piece is there, at the first read
-- too; a wait for it ends when a piece is there, and then a read gives it. The frames are numbered from the number that the
-- parser awaits, the packet is well-formed, nothing was left in recv_buff, the packet buffer has memory and more is granted.
pub received-err_bytes :
    {W : Type 0} (grants : ℕ → Bool) (sock : Sock W) (pieces : W → List (List ℕ)) (ready : W → Bool)
    (rounds s : ℕ) (p : ErrPacket) (chunks : List (List ℕ)) (extra : List ℕ) (o : SockOpt)
    (c : Connection W)
    → Gives sock pieces ready
    → ((n : ℕ) → grants n ≡ true)
    → c.socket ≡ some o
    → IsErr p c.capabilities
    → IsSplit chunks (err_bytes p c.capabilities)
    → joined (pieces c.world) ≡ frames s chunks ++ extra
    → All (λ x. 0 < length x) (pieces c.world)
    → Idle s c.io.packet_parser
    → c.io.recv ≡ []
    → c.io.packet_buffer.allocated ≡ true
    → 0 < c.io.packet_buffer.cap
    → length (err_bytes p c.capabilities) ≤ 2 ^ 62
    → length (pieces c.world) < rounds
    → (conn : Connection W) × (received sock rounds (read_generic_response grants sock) c
        ≡ (err generic, conn))
      × (conn.error_code ≡ p.error_code)
      × (conn.error_message ≡ p.error_message)
      × (conn.io.recv ++ joined (pieces conn.world) ≡ extra)
unfolding read_generic_response set_error packet is_again
received-err_bytes grants sock pieces ready rounds s p chunks extra o c gives granted connected
      is_err split stream full idle used live room small enough =
    let (io, w, e, behind) =
      received_payload grants sock pieces ready gives handle_generic_response
        (λ t. (err generic, set_error p t)) (err_bytes p c.capabilities) extra chunks rounds s o c
        granted connected split stream full idle used live room small enough
        (λ io w buff. (
          handle_generic_response-err_bytes p (at_io c io w) buff is_err (omega (arith, small)),
          refl,
        )) in
    (set_error p (at_io c io w), e, refl, refl, behind)

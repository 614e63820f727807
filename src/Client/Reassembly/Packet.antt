-- ===== src/Client/Reassembly/Packet.antt =====
-- A packet that arrives in pieces, read by a caller that retries while read_packet returns TRILOGY_AGAIN.
use mathlib.Core.Path.{subst}
use trilogy.Prelude.{
  ℕ, ◌+◌, ◌^◌, ◌≤◌, ◌<◌, ◌≡◌, refl, sym, ap, ◌∙◌, arith, Bool, true, List, [], ◌∷◌, ◌++◌, All,
  length, drop, drop_all, drop-append, length-append, none, some, ok, err, again,
}
use trilogy.Wire.{le}
use trilogy.Buffer.{Buffer}
use trilogy.Builder.Frames.{joined, frames, IsSplit}
use trilogy.PacketParser.{
  State, s_len_0, s_len_1, s_len_2, s_seq, s_payload, positive, PacketParser, Progress, execute,
}
use trilogy.Client.Callbacks.{packet_parser_callbacks}
use trilogy.Client.ReadPacket.{Conn, after_execute, parse_recv, read_packet}
use trilogy.Client.Reassembly.{
  Phase, at_len_0, at_len_1, at_len_2, at_seq, at_payload, Awaits, Idle,
}
use trilogy.Client.Reassembly.Stream.{Received, awaits, complete, execute-Received, Idle-Awaits}

-- The calls of read_packet on the pieces that the socket gives where recv_buff is used up, until one returns
-- TRILOGY_OK: the connection then, and the pieces that have not been asked for.
pub data Reads (grants : ℕ → Bool) : List (List ℕ) → Conn → Conn → List (List ℕ) → Type 0 where
  returns :
      {piece : List ℕ} {pieces : List (List ℕ)} {conn conn' : Conn}
      → conn.recv ≡ []
      → read_packet grants (ok piece) conn ≡ (ok tt, conn')
      → Reads grants (piece ∷ pieces) conn conn' pieces
  retries :
      {piece : List ℕ} {pieces later : List (List ℕ)} {conn conn' : Conn} (between : Conn)
      → conn.recv ≡ []
      → read_packet grants (ok piece) conn ≡ (err again, between)
      → Reads grants pieces between conn' later
      → Reads grants (piece ∷ pieces) conn conn' later

-- No byte is left in recv_buff.
abbrev pub waiting : PacketParser → Buffer → Conn
waiting p u = record { recv = []; packet_parser = p; packet_buffer = u }

some_left :
    (extra : List ℕ) (s e : ℕ) (frag : Bool) (remaining : ℕ) (got todo payload : List ℕ)
    (st : State)
    → Phase extra s e frag remaining got todo payload st
    → 0 < length todo
some_left extra s e frag remaining got todo payload s_len_0 (at_len_0 c tail le eq pay) =
    omega (arith, ap length eq)
some_left extra s e frag remaining got todo payload s_len_1 (at_len_1 c tail le eq pay low) =
    omega (arith, ap length eq)
some_left extra s e frag remaining got todo payload s_len_2 (at_len_2 c tail le eq pay low) =
    omega (arith, ap length eq)
some_left extra s e frag remaining got todo payload s_seq (at_seq c tail eq pay rem) =
    omega (arith, ap length eq)
some_left extra s e frag remaining got todo payload s_payload
      (at_payload left {todo'} tail eq pay rem pos) =
    omega (arith, ap length eq, length-append left todo')

module _ (grants : ℕ → Bool) (p : PacketParser) (u : Buffer) (b : ℕ) (bs : List ℕ)
    (o : Progress Buffer)
    (run : execute (packet_parser_callbacks grants) p u (b ∷ bs) ≡ some o) where
  abbrev after : Conn
  after = record {
    recv = drop o.consumed (b ∷ bs);
    packet_parser = o.parser;
    packet_buffer = o.user;
  }

  read_again : o.error ≡ none → read_packet grants (ok (b ∷ bs)) (waiting p u) ≡ (err again, after)
  unfolding read_packet parse_recv after_execute
  read_again h = rw (run, h) refl

  read_ok :
      o.error ≡ some (positive 1) → read_packet grants (ok (b ∷ bs)) (waiting p u) ≡ (ok tt, after)
  unfolding read_packet parse_recv after_execute
  read_ok h = rw (run, h) refl

-- The packet has been read from the pieces, and what is left of them is `extra`.
pub record HasPacket (grants : ℕ → Bool) (extra : List ℕ) (e : ℕ) (payload : List ℕ)
    (pieces : List (List ℕ)) (conn : Conn) : Type 0 where
  pub conn' : Conn
  pub later : List (List ℕ)
  pub reads : Reads grants pieces conn conn' later
  pub buff : conn'.packet_buffer.buff ≡ payload
  pub behind : conn'.recv ++ joined later ≡ extra
  pub idle : Idle e conn'.packet_parser

module _ (grants : ℕ → Bool) (granted : (n : ℕ) → grants n ≡ true) (extra : List ℕ) (e : ℕ)
    (payload : List ℕ) where
  -- A piece, by what the parser has received.
  one_piece :
      (p : PacketParser) (u : Buffer) (b : ℕ) (bs : List ℕ) (pieces : List (List ℕ))
      (o : Progress Buffer)
      → execute (packet_parser_callbacks grants) p u (b ∷ bs) ≡ some o
      → Received extra e payload (b ∷ bs) (joined pieces) 0 o
      → (Awaits extra e (joined pieces) payload o.parser o.user
          → HasPacket grants extra e payload pieces (waiting o.parser o.user))
      → HasPacket grants extra e payload ((b ∷ bs) ∷ pieces) (waiting p u)
  one_piece p u b bs pieces o run (awaits ne n a) rec =
      let r = rec a in
      let nothing : drop o.consumed (b ∷ bs) ≡ [] =
        drop_all o.consumed (b ∷ bs) (omega (arith, n)) in
      record {
        conn' = r.conn';
        later = r.later;
        reads =
            retries (waiting o.parser o.user) refl
              (read_again grants p u b bs o run ne
                ∙ ap
                    (λ l. (
                      err again,
                      record { recv = l; packet_parser = o.parser; packet_buffer = o.user },
                    ))
                    nothing)
              r.reads;
        buff = r.buff;
        behind = r.behind;
        idle = r.idle;
      }
  one_piece p u b bs pieces o run (complete used rest' ne cut n next buff live room idle) rec =
      let left : drop o.consumed (b ∷ bs) ≡ rest' =
        ap (λ k. drop k (b ∷ bs)) (n ∙ (omega arith))
        ∙ ap (drop (length used)) cut
        ∙ drop-append used rest' in
      record {
        conn' = after grants p u b bs o run;
        later = pieces;
        reads = returns refl (read_ok grants p u b bs o run ne);
        buff = buff;
        behind = ap (λ l. l ++ joined pieces) left ∙ next;
        idle = idle;
      }

  pieces-HasPacket :
      (pieces : List (List ℕ)) (p : PacketParser) (u : Buffer)
      → All (λ x. 0 < length x) pieces
      → Awaits extra e (joined pieces) payload p u
      → HasPacket grants extra e payload pieces (waiting p u)
  pieces-HasPacket [] p u h a = absurd (omega (arith, some_left _ _ _ _ _ _ _ _ _ a.phase))
  pieces-HasPacket ([] ∷ pieces) p u h a = absurd (omega (arith, h.0))
  pieces-HasPacket ((b ∷ bs) ∷ pieces) p u h a =
      let (o, run, got) =
        execute-Received grants granted extra e payload p u (b ∷ bs) (joined pieces) a in
      one_piece p u b bs pieces o run got (λ a'. pieces-HasPacket pieces o.parser o.user h.1 a')

-- However the network cuts the stream into pieces, none of them empty: where the stream is the frames of a
-- payload, numbered from the sequence number the parser expects, with anything behind them, and memory is granted,
-- the calls of read_packet return TRILOGY_AGAIN until the last frame is in, and then TRILOGY_OK; the packet
-- buffer is then the payload, the bytes behind the frames are still to be read, and the parser expects a packet
-- with the next sequence number. The payload is at most 2 ^ 62 bytes, and the buffer's capacity is not 0.
pub read_packet-frames :
    (grants : ℕ → Bool) (payload extra : List ℕ) (chunks pieces : List (List ℕ)) (s : ℕ)
    (p : PacketParser) (u : Buffer)
    → ((n : ℕ) → grants n ≡ true)
    → IsSplit chunks payload
    → joined pieces ≡ frames s chunks ++ extra
    → All (λ x. 0 < length x) pieces
    → Idle s p
    → u.allocated ≡ true
    → 0 < u.cap
    → length payload ≤ 2 ^ 62
    → HasPacket grants extra (s + length chunks) payload pieces (waiting p u)
read_packet-frames grants payload extra chunks pieces s p u granted split stream h idle live room
      small =
    pieces-HasPacket grants granted extra (s + length chunks) payload pieces p u h (
      subst (λ l. Awaits extra (s + length chunks) l payload p u) (sym stream)
        (Idle-Awaits extra payload chunks s p u idle split live room small))

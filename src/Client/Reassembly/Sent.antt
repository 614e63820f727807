-- ===== src/Client/Reassembly/Sent.antt =====
-- The builder of one side against the parser of the other.
use trilogy.Prelude.{
  ℕ, ◌+◌, ◌^◌, ◌<◌, ◌≡◌, sym, ap, ◌∙◌, arith, Bool, true, List, ◌++◌, All, length,
}
use trilogy.Buffer.{Buffer}
use trilogy.Builder.{write_buffer}
use trilogy.Builder.Frames.{joined}
use trilogy.Builder.Framing.{build, build-IsSplit}
use trilogy.Builder.WriteBuffer.{Writes-buffer}
use trilogy.PacketParser.{PacketParser}
use trilogy.Client.Reassembly.{Idle}
use trilogy.Client.Reassembly.Packet.{HasPacket, waiting, read_packet-frames}

-- A payload that the builder has framed, and that arrives in pieces with anything behind it, is what
-- read_packet collects: the packet buffer is the payload, what is behind it is still to be read, and the
-- parser expects the sequence number that the builder would use next. Memory is granted, the capacities are
-- not 0, the payload is shorter than 2 ^ 60 bytes, and no piece is empty.
pub read_packet-build :
    (grants : ℕ → Bool) (buff : Buffer) (seq : ℕ) (payload extra : List ℕ) (pieces : List (List ℕ))
    (p : PacketParser) (u : Buffer)
    → ((n : ℕ) → grants n ≡ true)
    → buff.allocated ≡ true
    → 0 < buff.cap
    → seq < 256
    → length payload < 2 ^ 60
    → joined pieces ≡ (build grants buff seq (write_buffer grants payload)).1.buffer.buff ++ extra
    → All (λ x. 0 < length x) pieces
    → Idle seq p
    → u.allocated ≡ true
    → 0 < u.cap
    → (e : ℕ) × (r : HasPacket grants extra e payload pieces (waiting p u))
      × (r.conn'.packet_parser.sequence_number
          ≡ (build grants buff seq (write_buffer grants payload)).1.seq)
read_packet-build grants buff seq payload extra pieces p u granted ok_buff cap_pos byte short stream
      h idle live room =
    let (chunks, b, run, split, bytes, next) =
      build-IsSplit grants granted buff seq (write_buffer grants payload) payload ok_buff cap_pos
        byte short (Writes-buffer grants granted payload) in
    let arrived : joined pieces ≡ _ =
      stream ∙ ap (λ o. o.1.buffer.buff ++ extra) run ∙ ap (λ l. l ++ extra) bytes in
    let r =
      read_packet-frames grants payload extra chunks pieces seq p u granted split arrived h idle
        live room (omega (arith, short)) in
    (seq + length chunks, r, r.idle.in_step ∙ sym next ∙ sym (ap (λ o. o.1.seq) run))

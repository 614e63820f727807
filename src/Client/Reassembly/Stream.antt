-- ===== src/Client/Reassembly/Stream.antt =====
-- The parser's loop on a piece of the stream, and the start of a packet.
use mathlib.Core.Path.{subst}
use trilogy.Prelude.{
  ℕ, zero, suc, ◌+◌, ◌^◌, ◌≤◌, ◌<◌, ◌≡◌, refl, sym, ap, ◌∙◌, arith, Bool, true, false, List, [],
  ◌∷◌, ◌++◌, append_assoc, if◌then◌else◌, length, drop, drop-append, length-append, none, some,
}
use trilogy.Buffer.{Buffer}
use trilogy.Builder.Frames.{frames, IsSplit}
use trilogy.PacketParser.{positive, PacketParser, Progress, round_in, loop, execute, after_deferred}
use trilogy.PacketParser.Rounds.{loop_on, loop_stop}
use trilogy.Client.Callbacks.{packet_parser_callbacks}
use trilogy.Client.Reassembly.{first_chunk, at_len_0, Awaits, Idle, Outcome, goes_on, pauses}
use trilogy.Client.Reassembly.Payload.{round_Outcome}

-- What has come of the bytes `rest`, with `i` bytes taken before them: all are taken and more is awaited, or
-- the packet is complete and only its own bytes are taken.
pub data Received (extra : List ℕ) (e : ℕ) (payload rest ys : List ℕ) (i : ℕ) (o : Progress Buffer)
    : Type 0 where
  awaits :
      o.error ≡ none
      → o.consumed ≡ i + length rest
      → Awaits extra e ys payload o.parser o.user
      → Received extra e payload rest ys i o
  complete :
      (used rest' : List ℕ)
      → o.error ≡ some (positive 1)
      → rest ≡ used ++ rest'
      → o.consumed ≡ i + length used
      → rest' ++ ys ≡ extra
      → o.user.buff ≡ payload
      → o.user.allocated ≡ true
      → 0 < o.user.cap
      → Idle e o.parser
      → Received extra e payload rest ys i o

-- Bytes before those received.
Received-later :
    {extra payload ys : List ℕ} {e i : ℕ} (used rest : List ℕ) (o : Progress Buffer)
    → Received extra e payload rest ys (i + length used) o
    → Received extra e payload (used ++ rest) ys i o
Received-later used rest o (awaits ne n a) = awaits ne (omega (arith, n, length-append used rest)) a
Received-later used rest o (complete used' rest' ne cut n behind buff live room idle) =
    complete (used ++ used') rest' ne (ap (◌++◌ used) cut ∙ sym (append_assoc used used' rest'))
      (omega (arith, n, length-append used used')) behind buff live room idle

module _ (grants : ℕ → Bool) (granted : (n : ℕ) → grants n ≡ true) (extra : List ℕ) (e : ℕ)
    (payload : List ℕ) where
  -- A run of the loop with its outcome.
  abbrev pub Runs : ℕ → ℕ → PacketParser → Buffer → List ℕ → List ℕ → Type 0
  Runs fuel i p u rest ys =
      (o : Progress Buffer) × (loop (packet_parser_callbacks grants) fuel i p u rest ≡ some o)
      × Received extra e payload rest ys i o

  pub loop-Runs :
      (fuel i : ℕ) (p : PacketParser) (u : Buffer) (rest ys : List ℕ)
      → Awaits extra e (rest ++ ys) payload p u
      → length rest < fuel
      → Runs fuel i p u rest ys
  unfolding loop
  loop-Runs zero i p u rest ys a enough = absurd (omega arith)
  loop-Runs (suc fuel) i p u [] ys a enough = (_, refl, awaits refl (omega arith) a)
  loop-Runs (suc fuel) i p u (b ∷ bs) ys a enough =
      go (round_Outcome grants granted extra e payload p u b bs ys a)
        (λ i' p' u' rest'. loop-Runs fuel i' p' u' rest' ys)
    where
      r : Progress Buffer
      r = round_in (packet_parser_callbacks grants) p.state p u b bs

      go :
          Outcome extra e payload (b ∷ bs) ys r
          → ((i' : ℕ) (p' : PacketParser) (u' : Buffer) (rest' : List ℕ)
              → Awaits extra e (rest' ++ ys) payload p' u'
              → length rest' < fuel
              → Runs fuel i' p' u' rest' ys)
          → Runs (suc fuel) i p u (b ∷ bs) ys
      go (pauses used rest' ne cut n behind buff live room idle) rec = (
        record r { consumed = i + r.consumed },
        loop_stop (packet_parser_callbacks grants) fuel i p u b bs (positive 1) ne,
        complete used rest' ne cut (ap (λ k. i + k) n) behind buff live room idle,
      )
      go (goes_on used rest' ne cut n pos aw) rec =
          let (o, run, got) =
            rec (i + length used) r.parser r.user rest' aw
              (omega (arith, ap length cut, length-append used rest', pos)) in
          let left : drop r.consumed (b ∷ bs) ≡ rest' =
            ap (λ k. drop k (b ∷ bs)) n ∙ ap (drop (length used)) cut ∙ drop-append used rest' in
          (
            o,
            loop_on (packet_parser_callbacks grants) fuel i p u b bs ne
                ∙ ap
                    (λ k.
                      loop (packet_parser_callbacks grants) fuel (i + k) r.parser r.user
                        (drop r.consumed (b ∷ bs)))
                    n
                ∙ ap (loop (packet_parser_callbacks grants) fuel (i + length used) r.parser r.user)
                    left
                ∙ run,
            subst (λ l. Received extra e payload l ys i o) (sym cut)
                (Received-later used rest' o got),
          )

  execute-loop :
      (p : PacketParser) (u : Buffer) (rest : List ℕ)
      → p.deferred_end_callback ≡ false
      → execute (packet_parser_callbacks grants) p u rest
        ≡ loop (packet_parser_callbacks grants) (length rest + 2) 0 p u rest
  unfolding execute
  execute-loop p u rest h =
      subst
        (λ d.
          (if d
            then after_deferred (packet_parser_callbacks grants)
                (record p { deferred_end_callback = false }) rest
                ((packet_parser_callbacks grants).on_packet_end u)
            else loop (packet_parser_callbacks grants) (length rest + 2) 0 p u rest)
          ≡ loop (packet_parser_callbacks grants) (length rest + 2) 0 p u rest)
        (sym h) refl

  -- A call of the parser on the next bytes of a packet.
  pub execute-Received :
      (p : PacketParser) (u : Buffer) (rest ys : List ℕ)
      → Awaits extra e (rest ++ ys) payload p u
      → (o : Progress Buffer) × (execute (packet_parser_callbacks grants) p u rest ≡ some o)
        × Received extra e payload rest ys 0 o
  execute-Received p u rest ys a =
      let (o, run, got) = loop-Runs (length rest + 2) 0 p u rest ys a (omega arith) in
      (o, execute-loop p u rest a.not_deferred ∙ run, got)

-- Between two packets, with the frames of the next one to come.
pub Idle-Awaits :
    (extra payload : List ℕ) (chunks : List (List ℕ)) (s : ℕ) (p : PacketParser) (u : Buffer)
    → Idle s p
    → IsSplit chunks payload
    → u.allocated ≡ true
    → 0 < u.cap
    → length payload ≤ 2 ^ 62
    → Awaits extra (s + length chunks) (frames s chunks ++ extra) payload p u
Idle-Awaits extra payload chunks s p u idle split live room small =
    let one = first_chunk extra s (s + length chunks) split refl in
    record {
      s = s;
      in_step = idle.in_step;
      not_deferred = idle.not_deferred;
      live = live;
      room = room;
      small = small;
      phase =
          rw (idle.at_start, idle.no_fragment)
            (at_len_0 one.chunk one.tail one.chunk_le one.stream one.payload);
    }

-- ===== src/Client/Reassembly/Rounds.antt =====
-- One round of the parser's loop, in each state.
use trilogy.Prelude.{
  ℕ, zero, suc, ◌+◌, ◌*◌, ◌/◌, ◌%◌, ◌^◌, ◌≤◌, ◌<◌, ◌≡◌, refl, sym, ap, ◌∙◌, arith, Bool, true,
  false, ◌==◌, if◌then◌else◌, bit_or, bit_or_shifted, List, [], ◌∷◌, ◌++◌, append-nil, length, take,
  drop, none,
}
use trilogy.Buffer.{Buffer}
use trilogy.Builder.{max_packet_len}
use trilogy.Builder.Frames.{frame, max_packet_len_small}
use trilogy.PacketParser.{
  s_len_0, s_len_1, s_len_2, PacketParser, Progress, round_in, end_of_payload,
}
use trilogy.Client.Callbacks.{on_packet_begin, on_packet_end, packet_parser_callbacks}
use trilogy.Client.Reassembly.{
  Tail, ends, goes, first_chunk, at_len_0, at_len_1, at_len_2, at_seq, Awaits, Outcome, goes_on,
  pauses,
}

pub cons_head : {a b : ℕ} {xs ys : List ℕ} → a ∷ xs ≡ b ∷ ys → a ≡ b
cons_head e = cc

pub cons_tail : {a b : ℕ} {xs ys : List ℕ} → a ∷ xs ≡ b ∷ ys → xs ≡ ys
cons_tail e = cc

module _ (grants : ℕ → Bool) (granted : (n : ℕ) → grants n ≡ true) (extra : List ℕ) (e : ℕ)
    (payload : List ℕ) where
  abbrev round : PacketParser → Buffer → ℕ → List ℕ → Progress Buffer
  round p u b bs = round_in (packet_parser_callbacks grants) p.state p u b bs

  -- A header's byte, taken with no callback.
  header_byte :
      (b : ℕ) (bs ys : List ℕ) (o : Progress Buffer)
      → o.error ≡ none
      → o.consumed ≡ 1
      → Awaits extra e (bs ++ ys) payload o.parser o.user
      → Outcome extra e payload (b ∷ bs) ys o
  header_byte b bs ys o no_error one a = goes_on (b ∷ []) bs no_error refl one (omega arith) a

  pub len_0 :
      (c : List ℕ) {todo' q' : List ℕ} (p : PacketParser) (u : Buffer) (b : ℕ) (bs ys : List ℕ)
      (a : Awaits extra e (b ∷ (bs ++ ys)) payload p u)
      → Tail extra (a.s + 1) e (length c == max_packet_len) todo' q'
      → length c ≤ max_packet_len
      → b ∷ (bs ++ ys) ≡ frame a.s c ++ todo'
      → payload ≡ (if p.fragment then u.buff else []) ++ (c ++ q')
      → Outcome extra e payload
          (b ∷ bs)
          ys
          (round_in (packet_parser_callbacks grants) s_len_0 p u b bs)
  unfolding round_in
  len_0 c p u b bs ys a tail c_le stream pay = header_byte b bs ys _ refl refl (record {
    s = a.s;
    in_step = a.in_step;
    not_deferred = a.not_deferred;
    live = a.live;
    room = a.room;
    small = a.small;
    phase = at_len_1 c tail c_le (cons_tail stream) pay (cons_head stream);
  })

  pub len_1 :
      (c : List ℕ) {todo' q' : List ℕ} (p : PacketParser) (u : Buffer) (b : ℕ) (bs ys : List ℕ)
      (a : Awaits extra e (b ∷ (bs ++ ys)) payload p u)
      → Tail extra (a.s + 1) e (length c == max_packet_len) todo' q'
      → length c ≤ max_packet_len
      → b ∷ (bs ++ ys)
        ≡ (length c / 256 % 256) ∷ (length c / 256 / 256 % 256) ∷ (a.s % 256) ∷ (c ++ todo')
      → payload ≡ (if p.fragment then u.buff else []) ++ (c ++ q')
      → p.bytes_remaining ≡ length c % 256
      → Outcome extra e payload
          (b ∷ bs)
          ys
          (round_in (packet_parser_callbacks grants) s_len_1 p u b bs)
  unfolding round_in
  len_1 c p u b bs ys a tail c_le stream pay low = header_byte b bs ys _ refl refl (record {
    s = a.s;
    in_step = a.in_step;
    not_deferred = a.not_deferred;
    live = a.live;
    room = a.room;
    small = a.small;
    phase = at_len_2 c tail c_le (cons_tail stream) pay (
        omega (
          arith,
          low,
          cons_head stream,
          bit_or_shifted 8 p.bytes_remaining b (omega (arith, low)),
        ));
  })

  -- The third byte of the length: a new packet begins, unless the last frame was a full one.
  pub len_2 :
      (c : List ℕ) {todo' q' : List ℕ} (p : PacketParser) (u : Buffer) (b : ℕ) (bs ys : List ℕ)
      (a : Awaits extra e (b ∷ (bs ++ ys)) payload p u)
      → Tail extra (a.s + 1) e (length c == max_packet_len) todo' q'
      → length c ≤ max_packet_len
      → b ∷ (bs ++ ys) ≡ (length c / 256 / 256 % 256) ∷ (a.s % 256) ∷ (c ++ todo')
      → payload ≡ (if p.fragment then u.buff else []) ++ (c ++ q')
      → p.bytes_remaining ≡ length c % 2 ^ 16
      → Outcome extra e payload
          (b ∷ bs)
          ys
          (round_in (packet_parser_callbacks grants) s_len_2 p u b bs)
  unfolding round_in on_packet_begin
  len_2 c p u b bs ys a tail c_le stream pay low = go p.fragment refl
    where
      whole : bit_or p.bytes_remaining (b * 2 ^ 16) % 2 ^ 24 ≡ length c
      whole = omega (
        arith,
        low,
        cons_head stream,
        c_le,
        max_packet_len_small,
        bit_or_shifted 16 p.bytes_remaining b (omega (arith, low)),
      )

      go :
          (f : Bool)
          → p.fragment ≡ f
          → Outcome extra e payload
              (b ∷ bs)
              ys
              (round_in (packet_parser_callbacks grants) s_len_2 p u b bs)
      go true f =
          rw (f, whole)
            (header_byte b bs ys _ refl refl (record {
              s = a.s;
              in_step = a.in_step;
              not_deferred = a.not_deferred;
              live = a.live;
              room = a.room;
              small = a.small;
              phase = at_seq c tail (cons_tail stream) (rw f at pay) refl;
            }))
      go false f =
          rw (f, whole)
            (header_byte b bs ys _ refl refl (record {
              s = a.s;
              in_step = a.in_step;
              not_deferred = a.not_deferred;
              live = a.live;
              room = a.room;
              small = a.small;
              phase = at_seq c tail (cons_tail stream) (rw f at pay) refl;
            }))

  -- The label end_of_payload, behind the bytes `used`: the packet is complete, or another frame of it follows.
  pub ended :
      (frag : Bool) (s : ℕ) (used rest' rest ys todo' q' : List ℕ) (p : PacketParser) (u : Buffer)
      → p.fragment ≡ frag
      → Tail extra s e frag todo' q'
      → rest ≡ used ++ rest'
      → 0 < length used
      → rest' ++ ys ≡ todo'
      → payload ≡ u.buff ++ q'
      → p.sequence_number ≡ s % 256
      → p.deferred_end_callback ≡ false
      → u.allocated ≡ true
      → 0 < u.cap
      → length payload ≤ 2 ^ 62
      → Outcome extra e payload rest ys
          (end_of_payload (packet_parser_callbacks grants) (length used) p u)
  unfolding end_of_payload on_packet_end
  ended false s used rest' rest ys todo' q' p u f (ends t q h) cut pos next pay step calm live room
        small =
      rw f (
        pauses used rest' refl cut refl (next ∙ t)
          (sym (pay ∙ ap (◌++◌ u.buff) q ∙ append-nil u.buff)) live room
          (record {
            at_start = refl;
            no_fragment = refl;
            not_deferred = calm;
            in_step = step ∙ ap (λ n. n % 256) (sym h);
          }))
  ended true s used rest' rest ys todo' q' p u f (goes split t h) cut pos next pay step calm live
        room small =
      let one = first_chunk extra s e split h in
      rw f (
        goes_on used rest' refl cut refl pos (record {
          s = s;
          in_step = step;
          not_deferred = calm;
          live = live;
          room = room;
          small = small;
          phase =
              at_len_0 one.chunk one.tail one.chunk_le (next ∙ t ∙ one.stream)
                (pay ∙ ap (◌++◌ u.buff) one.payload);
        }))

-- Two ways to cut a stream: the first `n` bytes agree, and so does what is behind them.
pub prefix :
    (n : ℕ) (xs ys left todo : List ℕ)
    → xs ++ ys ≡ left ++ todo
    → n ≤ length xs
    → n ≤ length left
    → (take n xs ≡ take n left) × (drop n xs ++ ys ≡ drop n left ++ todo)
prefix zero xs ys left todo e h k = (refl, e)
prefix (suc n) [] ys left todo e h k = absurd (omega arith)
prefix (suc n) (x ∷ xs) ys [] todo e h k = absurd (omega arith)
prefix (suc n) (x ∷ xs) ys (y ∷ left) todo e h k =
    let (a, b) = prefix n xs ys left todo (cons_tail e) (omega arith) (omega arith) in
    (ap (λ z. z ∷ take n xs) (cons_head e) ∙ ap (◌∷◌ y) a, b)

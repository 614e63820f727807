-- ===== src/Client/Reassembly/Payload.antt =====
-- The rounds of the parser's loop behind a header.
use mathlib.Core.Path.{subst}
use trilogy.Prelude.{
  ℕ, ◌+◌, ◌-◌, ◌%◌, ◌^◌, ◌≤◌, ◌<◌, ◌≡◌, refl, sym, ap, ◌∙◌, arith, Bool, true, false, ltb, ◌==◌,
  ==_iff, if◌then◌else◌, List, [], ◌∷◌, ◌++◌, append_assoc, length, take, drop, length-append,
  length-take, length-drop, take-append-drop, none,
}
use trilogy.Buffer.{Buffer}
use trilogy.PacketParser.{
  State, s_len_0, s_len_1, s_len_2, s_seq, s_payload, PacketParser, round_in, end_of_payload,
}
use trilogy.Client.Callbacks.{packet_parser_callbacks}
use trilogy.Client.Reassembly.{
  Tail, Phase, at_len_0, at_len_1, at_len_2, at_seq, at_payload, Awaits, Outcome, goes_on,
}
use trilogy.Prelude.{le→leb, ◌>>=◌}
use trilogy.Buffer.{store}
use trilogy.Buffer.Growth.{expand_total}
use trilogy.Client.Callbacks.{on_packet_data, stop_of}
use trilogy.PacketParser.{seq_round, payload_round, after_data}
use trilogy.Client.Reassembly.Rounds.{cons_head, cons_tail, prefix, ended, len_0, len_1, len_2}

length_zero : (c : List ℕ) → length c ≡ 0 → c ≡ []
length_zero [] h = refl
length_zero (x ∷ c) h = absurd (omega arith)

module _ (grants : ℕ → Bool) (granted : (n : ℕ) → grants n ≡ true) (extra : List ℕ) (e : ℕ)
    (payload : List ℕ) where
  seq :
      (c todo' q' : List ℕ) (p : PacketParser) (u : Buffer) (b : ℕ) (bs ys : List ℕ)
      (a : Awaits extra e (b ∷ (bs ++ ys)) payload p u)
      → Tail extra (a.s + 1) e p.fragment todo' q'
      → b ∷ (bs ++ ys) ≡ (a.s % 256) ∷ (c ++ todo')
      → payload ≡ u.buff ++ (c ++ q')
      → p.bytes_remaining ≡ length c
      → Outcome extra e payload
          (b ∷ bs)
          ys
          (round_in (packet_parser_callbacks grants) s_seq p u b bs)
  unfolding round_in seq_round
  seq c todo' q' p u b bs ys a tail stream pay left = rw agrees (go (p.bytes_remaining == 0) refl)
    where
      agrees : (b == p.sequence_number) ≡ true
      agrees = (==_iff _ _).1 (cons_head stream ∙ sym a.in_step)

      p' : PacketParser
      p' = record p { sequence_number = (p.sequence_number + 1) % 256; state = s_payload }

      step : (p.sequence_number + 1) % 256 ≡ (a.s + 1) % 256
      step = omega (arith, a.in_step)

      go :
          (z : Bool)
          → (p.bytes_remaining == 0) ≡ z
          → Outcome extra e payload (b ∷ bs) ys (
              if z
              then end_of_payload (packet_parser_callbacks grants) 1 p' u
              else record { consumed = 1; error = none; parser = p'; user = u })
      go true z =
          let nothing : c ≡ [] = length_zero c (sym left ∙ (==_iff _ _).0 z) in
          ended grants granted extra e payload p.fragment (a.s + 1) (b ∷ []) bs (b ∷ bs) ys todo' q'
            p' u refl tail refl (omega arith) (cons_tail stream ∙ ap (λ l. l ++ todo') nothing)
            (pay ∙ ap (λ l. u.buff ++ (l ++ q')) nothing) step a.not_deferred a.live a.room a.small
      go false z = goes_on (b ∷ []) bs refl refl refl (omega arith) (record {
        s = a.s + 1;
        in_step = step;
        not_deferred = a.not_deferred;
        live = a.live;
        room = a.room;
        small = a.small;
        phase = at_payload c tail (cons_tail stream) pay left (ground (arith, left));
      })

  -- What on_packet_data does with bytes that fit the memory.
  collects :
      (xs : List ℕ) (u : Buffer)
      → u.allocated ≡ true
      → 0 < u.cap
      → length u.buff + length xs ≤ 2 ^ 63
      → (c : ℕ) × (on_packet_data grants xs u ≡ (none, record u { cap = c; buff = u.buff ++ xs }))
        × (0 < c)
  unfolding on_packet_data stop_of store ◌>>=◌
  collects xs u live room small =
      let (c, got, roomy, pos) = expand_total grants granted (length xs) u live room small in
      (c, rw (got, le→leb (length u.buff + length xs) c roomy) refl, pos)

  -- Behind the bytes that on_packet_data has taken.
  taken :
      (left : List ℕ) (n s : ℕ) (rest ys todo' q' : List ℕ) (p : PacketParser) (u : Buffer)
      → Tail extra s e p.fragment todo' q'
      → p.state ≡ s_payload
      → p.bytes_remaining ≡ length (drop n left)
      → n ≤ length rest
      → 0 < n
      → drop n rest ++ ys ≡ drop n left ++ todo'
      → payload ≡ u.buff ++ (drop n left ++ q')
      → p.sequence_number ≡ s % 256
      → p.deferred_end_callback ≡ false
      → u.allocated ≡ true
      → 0 < u.cap
      → length payload ≤ 2 ^ 62
      → Outcome extra e payload rest ys (after_data (packet_parser_callbacks grants) n p (none, u))
  unfolding after_data
  taken left n s rest ys todo' q' p u tail at_p rem le pos next pay step calm live room small =
      go (p.bytes_remaining == 0) refl
    where
      used : length (take n rest) ≡ n
      used = omega (arith, length-take n rest)

      go :
          (z : Bool)
          → (p.bytes_remaining == 0) ≡ z
          → Outcome extra e payload rest ys (
              if z
              then end_of_payload (packet_parser_callbacks grants) n p u
              else record { consumed = n; error = none; parser = p; user = u })
      go true z =
          let nothing : drop n left ≡ [] = length_zero (drop n left) (sym rem ∙ (==_iff _ _).0 z) in
          subst
            (λ k.
              Outcome extra e payload rest ys
                (end_of_payload (packet_parser_callbacks grants) k p u))
            used
            (ended grants granted extra e payload p.fragment s (take n rest) (drop n rest) rest ys
              todo' q' p u refl tail (sym (take-append-drop n rest)) (omega (arith, used))
              (next ∙ ap (λ l. l ++ todo') nothing) (pay ∙ ap (λ l. u.buff ++ (l ++ q')) nothing)
              step calm live room small)
      go false z =
          goes_on (take n rest) (drop n rest) refl (sym (take-append-drop n rest)) (sym used)
            (omega (arith, used))
            (record {
              s = s;
              in_step = step;
              not_deferred = calm;
              live = live;
              room = room;
              small = small;
              phase =
                  subst
                    (Phase extra s e p.fragment p.bytes_remaining u.buff (drop n rest ++ ys)
                      payload)
                    (sym at_p) (at_payload (drop n left) tail next pay rem (ground (arith, rem)));
            })

  payload_bytes :
      (left todo' q' : List ℕ) (p : PacketParser) (u : Buffer) (b : ℕ) (bs ys : List ℕ)
      (a : Awaits extra e (b ∷ (bs ++ ys)) payload p u)
      → p.state ≡ s_payload
      → Tail extra a.s e p.fragment todo' q'
      → b ∷ (bs ++ ys) ≡ left ++ todo'
      → payload ≡ u.buff ++ (left ++ q')
      → p.bytes_remaining ≡ length left
      → 0 < length left
      → Outcome extra e payload
          (b ∷ bs)
          ys
          (round_in (packet_parser_callbacks grants) s_payload p u b bs)
  unfolding round_in payload_round
  payload_bytes left todo' q' p u b bs ys a at_p tail stream pay rem pos =
      let n : ℕ =
        if ltb p.bytes_remaining (length (b ∷ bs)) then p.bytes_remaining else length (b ∷ bs) in
      let n_le : n ≤ length (b ∷ bs) = ground arith in
      let n_left : n ≤ length left = ground (arith, rem) in
      let n_pos : 0 < n = ground (arith, rem, pos) in
      let (same, next) = prefix n (b ∷ bs) ys left todo' stream n_le n_left in
      let total : length payload ≡ length u.buff + (length left + length q') =
        ap length pay
        ∙ length-append u.buff (left ++ q')
        ∙ ap (λ k. length u.buff + k) (length-append left q') in
      let (cap_, got, room) =
        collects (take n (b ∷ bs)) u a.live a.room
          (omega (arith, total, a.small, length-take n (b ∷ bs), n_left)) in
      let cut : left ++ q' ≡ take n (b ∷ bs) ++ (drop n left ++ q') =
        ap (λ l. l ++ q') (sym (take-append-drop n left))
        ∙ append_assoc (take n left) (drop n left) q'
        ∙ ap (λ l. l ++ (drop n left ++ q')) (sym same) in
      subst
        (λ o. Outcome extra e payload (b ∷ bs) ys (
          after_data (packet_parser_callbacks grants) n
            (record p { bytes_remaining = p.bytes_remaining - n }) o))
        (sym got)
        (taken left n a.s (b ∷ bs) ys todo' q'
          (record p { bytes_remaining = p.bytes_remaining - n }) _ tail at_p
          (omega (arith, rem, length-drop n left)) n_le n_pos next
          (pay
            ∙ ap (◌++◌ u.buff) cut
            ∙ sym (append_assoc u.buff (take n (b ∷ bs)) (drop n left ++ q')))
          a.in_step a.not_deferred a.live room a.small)

  -- Any round.
  pub round_Outcome :
      (p : PacketParser) (u : Buffer) (b : ℕ) (bs ys : List ℕ)
      → Awaits extra e (b ∷ (bs ++ ys)) payload p u
      → Outcome extra e payload
          (b ∷ bs)
          ys
          (round_in (packet_parser_callbacks grants) p.state p u b bs)
  round_Outcome p u b bs ys a = go p.state refl a.phase
    where
      go :
          (st : State)
          → p.state ≡ st
          → Phase extra a.s e p.fragment p.bytes_remaining u.buff (b ∷ (bs ++ ys)) payload st
          → Outcome extra e payload
              (b ∷ bs)
              ys
              (round_in (packet_parser_callbacks grants) st p u b bs)
      go s_len_0 h (at_len_0 c tail le stream pay) =
          len_0 grants granted extra e payload c p u b bs ys a tail le stream pay
      go s_len_1 h (at_len_1 c tail le stream pay low) =
          len_1 grants granted extra e payload c p u b bs ys a tail le stream pay low
      go s_len_2 h (at_len_2 c tail le stream pay low) =
          len_2 grants granted extra e payload c p u b bs ys a tail le stream pay low
      go s_seq h (at_seq c {todo'} {q'} tail stream pay rem) =
          seq c todo' q' p u b bs ys a tail stream pay rem
      go s_payload h (at_payload left {todo'} {q'} tail stream pay rem pos) =
          payload_bytes left todo' q' p u b bs ys a h tail stream pay rem pos

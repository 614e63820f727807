-- ===== src/PacketParser/Execute.antt =====
-- src/packet_parser.c: trilogy_packet_parser_execute as a whole, with its fuel.
use mathlib.Core.Path.{subst}
use trilogy.Prelude.{
  ℕ, zero, suc, ◌+◌, ◌-◌, ◌≤◌, ◌<◌, ◌≡◌, refl, sym, ap, ◌∙◌, arith, Bool, true, false, Bool-cases,
  inl, inr, ◌⊎◌, lt→ltb, if◌then◌else◌, List, [], ◌∷◌, length, drop, length-drop, Option, none,
  some,
}
use trilogy.PacketParser.{
  State, s_len_0, s_len_1, s_len_2, s_seq, s_payload, Stop, Callbacks, PacketParser, Progress,
  end_of_payload, after_data, payload_round, round_in, loop, after_deferred, execute,
}
use trilogy.PacketParser.Rounds.{SteadyIn, Moves, round_in-Moves, loop_on, loop_stop}

module _ {U : Type 0} (c : Callbacks U) where
  -- With a round for every byte and one to spare, the loop ends, and has taken no more than there is.
  loop-le :
      (fuel i : ℕ) (p : PacketParser) (u : U) (rest : List ℕ)
      → SteadyIn p.state p.bytes_remaining
      → length rest < fuel
      → (o : Progress U) × (loop c fuel i p u rest ≡ some o) × (o.consumed ≤ i + length rest)
  unfolding loop
  loop-le zero i p u rest h enough = absurd (omega arith)
  loop-le (suc fuel) i p u [] h enough = (_, refl, omega arith)
  loop-le (suc fuel) i p u (b ∷ bs) h enough = go _ refl (λ steady shorter.
      loop-le fuel (i + r.consumed) r.parser r.user (drop r.consumed (b ∷ bs)) steady shorter)
    where
      r : Progress U
      r = round_in c p.state p u b bs

      m : Moves (suc (length bs)) r
      m = round_in-Moves c p.state p u b bs h

      left : length (drop r.consumed (b ∷ bs)) ≡ suc (length bs) - r.consumed
      left = length-drop r.consumed (b ∷ bs)

      go :
          (e : Option Stop)
          → r.error ≡ e
          → (SteadyIn r.parser.state r.parser.bytes_remaining
              → length (drop r.consumed (b ∷ bs)) < fuel
              → (o : Progress U) × (loop c fuel
                    (i + r.consumed)
                    r.parser
                    r.user
                    (drop r.consumed (b ∷ bs))
                  ≡ some o)
                × (o.consumed ≤ i + r.consumed + length (drop r.consumed (b ∷ bs))))
          → (o : Progress U) × (loop c (suc fuel) i p u (b ∷ bs) ≡ some o)
            × (o.consumed ≤ i + length (b ∷ bs))
      go (some stop) e rest = (
        record r { consumed = i + r.consumed },
        loop_stop c fuel i p u b bs stop e,
        omega (arith, m.le),
      )
      go none e rest =
          let (o, e', le) = rest (m.on e).1 (omega (arith, left, (m.on e).0)) in
          (o, loop_on c fuel i p u b bs e ∙ e', omega (arith, m.le, left, le))

  -- The round in a payload of which nothing is left takes nothing; if the loop goes on, the parser is at a
  -- header.
  zero_round :
      (p : PacketParser) (u : U) (b : ℕ) (bs : List ℕ)
      → p.bytes_remaining ≡ 0
      → ((round_in c s_payload p u b bs).consumed ≡ 0)
        × ((round_in c s_payload p u b bs).error ≡ none
            → SteadyIn
                (round_in c s_payload p u b bs).parser.state
                (round_in c s_payload p u b bs).parser.bytes_remaining)
  unfolding round_in payload_round after_data end_of_payload
  zero_round p u b bs h =
      rw (h, lt→ltb 0 (suc (length bs)) (omega arith))
        (go (c.on_packet_data [] u).0 (c.on_packet_data [] u).1)
    where
      go :
          (o : Option Stop) (u' : U)
          → ((after_data c 0 (record p { bytes_remaining = 0 }) (o, u')).consumed ≡ 0)
            × ((after_data c 0 (record p { bytes_remaining = 0 }) (o, u')).error ≡ none
                → SteadyIn
                    (after_data c 0 (record p { bytes_remaining = 0 }) (o, u')).parser.state
                    (after_data c 0
                      (record p { bytes_remaining = 0 })
                      (o, u')).parser.bytes_remaining)
      go (some stop) u' = (refl, λ e. cc)
      go none u' = elim (Bool-cases p.fragment) [
        | inl e ↦ rw e (refl, λ _. tt)
        | inr e ↦ rw e (refl, λ _. tt)
      ]

  Steady-cases : (st : State) (n : ℕ) → SteadyIn st n ⊎ ((st ≡ s_payload) × (n ≡ 0))
  Steady-cases s_payload zero = inr (refl, refl)
  Steady-cases s_payload (suc n) = inl (omega arith)
  Steady-cases s_len_0 n = inl tt
  Steady-cases s_len_1 n = inl tt
  Steady-cases s_len_2 n = inl tt
  Steady-cases s_seq n = inl tt

  stuck_first :
      (fuel : ℕ) (p : PacketParser) (u : U) (b : ℕ) (bs : List ℕ)
      → p.state ≡ s_payload
      → p.bytes_remaining ≡ 0
      → length (b ∷ bs) < fuel
      → (o : Progress U) × (loop c (suc fuel) 0 p u (b ∷ bs) ≡ some o)
        × (o.consumed ≤ length (b ∷ bs))
  stuck_first fuel p u b bs at_payload nothing enough = go _ refl
    where
      r : Progress U
      r = round_in c p.state p u b bs

      z : (r.consumed ≡ 0) × (r.error ≡ none → SteadyIn r.parser.state r.parser.bytes_remaining)
      z =
          subst
            (λ st.
              ((round_in c st p u b bs).consumed ≡ 0)
              × ((round_in c st p u b bs).error ≡ none
                  → SteadyIn (round_in c st p u b bs).parser.state
                      (round_in c st p u b bs).parser.bytes_remaining))
            (sym at_payload) (zero_round p u b bs nothing)

      left : length (drop r.consumed (b ∷ bs)) ≡ suc (length bs) - r.consumed
      left = length-drop r.consumed (b ∷ bs)

      go :
          (e : Option Stop)
          → r.error ≡ e
          → (o : Progress U) × (loop c (suc fuel) 0 p u (b ∷ bs) ≡ some o)
            × (o.consumed ≤ length (b ∷ bs))
      go (some stop) e = (
        record r { consumed = 0 + r.consumed },
        loop_stop c fuel 0 p u b bs stop e,
        omega (arith, z.0),
      )
      go none e =
          let (o, e', le) =
            loop-le fuel (0 + r.consumed) r.parser r.user (drop r.consumed (b ∷ bs)) (z.1 e)
              (omega (arith, left, z.0)) in
          (o, loop_on c fuel 0 p u b bs e ∙ e', omega (arith, left, z.0, le))

  any_state :
      (fuel : ℕ) (p : PacketParser) (u : U) (rest : List ℕ)
      → length rest < fuel
      → (o : Progress U) × (loop c (suc fuel) 0 p u rest ≡ some o) × (o.consumed ≤ length rest)
  unfolding loop
  any_state fuel p u [] enough = (_, refl, omega arith)
  any_state fuel p u (b ∷ bs) enough = elim (Steady-cases p.state p.bytes_remaining) [
    | inl h ↦
        let (o, e, le) = loop-le (suc fuel) 0 p u (b ∷ bs) h (omega arith) in
        (o, e, omega (arith, le))
    | inr (at_payload, nothing) ↦ stuck_first fuel p u b bs at_payload nothing enough
  ]

  whole :
      (p : PacketParser) (u : U) (rest : List ℕ)
      → (o : Progress U) × (loop c (length rest + 2) 0 p u rest ≡ some o)
        × (o.consumed ≤ length rest)
  whole p u rest =
      let (o, e, le) = any_state (length rest + 1) p u rest (omega arith) in
      let fuel : length rest + 2 ≡ suc (length rest + 1) = omega arith in
      (o, ap (λ n. loop c n 0 p u rest) fuel ∙ e, le)

  -- The parser's loop ends on any bytes, in any state and with any callbacks: the call returns, and it has taken
  -- no more bytes than it was given.
  pub execute_total :
      (p : PacketParser) (u : U) (buff : List ℕ)
      → (o : Progress U) × (execute c p u buff ≡ some o) × (o.consumed ≤ length buff)
  unfolding execute after_deferred
  execute_total p u buff = go p.deferred_end_callback
    where
      deferred :
          (s : Option Stop) (u' : U)
          → (o : Progress U) × (after_deferred c
                (record p { deferred_end_callback = false })
                buff
                (s, u')
              ≡ some o)
            × (o.consumed ≤ length buff)
      deferred (some stop) u' = (_, refl, omega arith)
      deferred none u' = whole _ u' buff

      go :
          (d : Bool)
          → (o : Progress U) × ((if d
                then after_deferred c
                    (record p { deferred_end_callback = false })
                    buff
                    (c.on_packet_end u)
                else loop c (length buff + 2) 0 p u buff)
              ≡ some o)
            × (o.consumed ≤ length buff)
      go true = deferred (c.on_packet_end u).0 (c.on_packet_end u).1
      go false = whole p u buff

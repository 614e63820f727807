-- ===== src/PacketParser/Rounds.antt =====
-- src/packet_parser.c: one round of the parser's loop, and the loop by its first round.
use mathlib.Core.Path.{subst}
use trilogy.Prelude.{
  ℕ, suc, ◌+◌, ◌-◌, ◌≤◌, ◌<◌, ◌≡◌, refl, sym, arith, ltb, ◌==◌, Bool-cases, inl, inr, if◌then◌else◌,
  List, ◌∷◌, length, take, drop, Option, none, some,
}
use trilogy.PacketParser.{
  State, s_len_0, s_len_1, s_len_2, s_seq, s_payload, Stop, Callbacks, PacketParser, Progress,
  end_of_payload, len_2_round, seq_round, after_data, payload_round, round_in, loop,
}

-- In the middle of a payload, some of it is left.
abbrev pub SteadyIn : State → ℕ → Type 0
SteadyIn s_payload n = 0 < n
SteadyIn s_len_0 n = Unit
SteadyIn s_len_1 n = Unit
SteadyIn s_len_2 n = Unit
SteadyIn s_seq n = Unit

SteadyIn-left : (st : State) (n : ℕ) → 0 < n → SteadyIn st n
SteadyIn-left s_payload n h = h
SteadyIn-left s_len_0 n h = tt
SteadyIn-left s_len_1 n h = tt
SteadyIn-left s_len_2 n h = tt
SteadyIn-left s_seq n h = tt

-- A round on `n` bytes: it takes no more, and at least one if the loop goes on.
pub record Moves {U : Type 0} (n : ℕ) (o : Progress U) : Type 0 where
  pub le : o.consumed ≤ n
  pub on : o.error ≡ none → (0 < o.consumed) × SteadyIn o.parser.state o.parser.bytes_remaining

module _ {U : Type 0} (c : Callbacks U) where
  end_of_payload-Moves :
      (n k : ℕ) (p : PacketParser) (u : U) → k ≤ n → 0 < k → Moves n (end_of_payload c k p u)
  unfolding end_of_payload
  end_of_payload-Moves n k p u h pos = elim (Bool-cases p.fragment) [
    | inl e ↦ rw e (record { le = h; on = λ _. (pos, tt) })
    | inr e ↦ rw e (record { le = h; on = λ _. (pos, tt) })
  ]

  len_2_round-Moves : (n k : ℕ) (p : PacketParser) (u : U) → 0 < n → Moves n (len_2_round c p u k)
  unfolding len_2_round
  len_2_round-Moves n k p u h = elim (Bool-cases p.fragment) [
    | inl e ↦ rw e (record { le = h; on = λ _. (omega arith, tt) })
    | inr e ↦ rw e (record { le = h; on = λ _. (omega arith, tt) })
  ]

  seq_round-Moves : (n b : ℕ) (p : PacketParser) (u : U) → 0 < n → Moves n (seq_round c p u b)
  unfolding seq_round
  seq_round-Moves n b p u h = elim (Bool-cases (b == p.sequence_number)) [
    | inr e ↦ rw e (record { le = omega arith; on = λ x. cc })
    | inl e ↦ rw e (elim (Bool-cases (p.bytes_remaining == 0)) [
      | inl e' ↦ rw e' (end_of_payload-Moves n 1 _ u h (omega arith))
      | inr e' ↦ rw e' (record { le = h; on = λ _. (omega arith, ground arith) })
    ])
  ]

  after_data-Moves :
      (n k : ℕ) (p : PacketParser) (o : Option Stop) (u : U)
      → k ≤ n
      → 0 < k
      → Moves n (after_data c k p (o, u))
  unfolding after_data
  after_data-Moves n k p (some stop) u h pos = record { le = h; on = λ x. cc }
  after_data-Moves n k p none u h pos = elim (Bool-cases (p.bytes_remaining == 0)) [
    | inl e ↦ rw e (end_of_payload-Moves n k p u h pos)
    | inr e ↦ rw e (record { le = h; on = λ _. (pos, SteadyIn-left p.state _ (ground arith)) })
  ]

  pub round_in-Moves :
      (st : State) (p : PacketParser) (u : U) (b : ℕ) (bs : List ℕ)
      → SteadyIn st p.bytes_remaining
      → Moves (suc (length bs)) (round_in c st p u b bs)
  unfolding round_in payload_round
  round_in-Moves s_len_0 p u b bs h = record { le = omega arith; on = λ _. (omega arith, tt) }
  round_in-Moves s_len_1 p u b bs h = record { le = omega arith; on = λ _. (omega arith, tt) }
  round_in-Moves s_len_2 p u b bs h = len_2_round-Moves _ _ p u (omega arith)
  round_in-Moves s_seq p u b bs h = seq_round-Moves _ b p u (omega arith)
  round_in-Moves s_payload p u b bs h =
      let n : ℕ =
        if ltb p.bytes_remaining (length (b ∷ bs)) then p.bytes_remaining else length (b ∷ bs) in
      let data_ = c.on_packet_data (take n (b ∷ bs)) u in
      after_data-Moves _ n (record p { bytes_remaining = p.bytes_remaining - n }) data_.0 data_.1
        (ground arith) (ground (arith, h))

  -- The loop by its first round.
  pub loop_on :
      (fuel i : ℕ) (p : PacketParser) (u : U) (b : ℕ) (bs : List ℕ)
      → (round_in c p.state p u b bs).error ≡ none
      → loop c (suc fuel) i p u (b ∷ bs) ≡ (
          let r = round_in c p.state p u b bs in
          loop c fuel (i + r.consumed) r.parser r.user (drop r.consumed (b ∷ bs)))
  unfolding loop
  loop_on fuel i p u b bs h =
      let r = round_in c p.state p u b bs in
      let next = loop c fuel (i + r.consumed) r.parser r.user (drop r.consumed (b ∷ bs)) in
      subst
        (λ (e : Option Stop).
          (elim e as (λ _. Option (Progress U)) [
            | some stop ↦ some (record r { consumed = i + r.consumed })
            | none ↦ next
          ])
          ≡ next)
        (sym h) refl

  pub loop_stop :
      (fuel i : ℕ) (p : PacketParser) (u : U) (b : ℕ) (bs : List ℕ) (stop : Stop)
      → (round_in c p.state p u b bs).error ≡ some stop
      → loop c (suc fuel) i p u (b ∷ bs)
        ≡ (let r = round_in c p.state p u b bs in some (record r { consumed = i + r.consumed }))
  unfolding loop
  loop_stop fuel i p u b bs stop h =
      let r = round_in c p.state p u b bs in
      let ended = some (record r { consumed = i + r.consumed }) in
      subst
        (λ (e : Option Stop).
          (elim e as (λ _. Option (Progress U)) [
            | some stop ↦ ended
            | none ↦ loop c fuel (i + r.consumed) r.parser r.user (drop r.consumed (b ∷ bs))
          ])
          ≡ ended)
        (sym h) refl

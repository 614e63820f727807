-- ===== src/PacketParser.antt =====
-- src/packet_parser.c and inc/trilogy/packet_parser.h: the incremental parser of a stream of frames.
pub mod Rounds
pub mod Execute
use trilogy.Prelude.{
  ℕ, zero, suc, ◌+◌, ◌-◌, ◌*◌, ◌%◌, ◌^◌, ltb, ◌==◌, Bool, true, false, not, if◌then◌else◌, bit_or,
  List, [], ◌∷◌, length, take, drop, Option, none, some, Rc, invalid_sequence_id,
}
use trilogy.Builder.{max_packet_len}

pub data State : Type 0 where
  s_len_0 s_len_1 s_len_2 s_seq s_payload : State

-- A callback's int other than 0: one of the library's negative codes, or a positive number.
pub data Stop : Type 0 where
  failed : Rc → Stop
  positive : ℕ → Stop

pub record Callbacks (U : Type 0) : Type 0 where
  pub on_packet_begin : U → Option Stop × U
  pub on_packet_data : List ℕ → U → Option Stop × U
  pub on_packet_end : U → Option Stop × U

pub record PacketParser : Type 0 where
  pub sequence_number : ℕ
  pub bytes_remaining : ℕ
  pub state : State
  pub fragment : Bool
  pub deferred_end_callback : Bool

-- trilogy_packet_parser_init does not set `bytes_remaining`, which the first byte overwrites.
abbrev pub packet_parser_init : PacketParser
packet_parser_init = record {
  sequence_number = 0;
  bytes_remaining = 0;
  state = s_len_0;
  fragment = false;
  deferred_end_callback = false;
}

-- How far a round of the loop, or the whole call, has come: the bytes taken, the error, the state.
pub record Progress (U : Type 0) : Type 0 where
  pub consumed : ℕ
  pub error : Option Stop
  pub parser : PacketParser
  pub user : U

module _ {U : Type 0} (c : Callbacks U) where
  -- The label end_of_payload, with `n` bytes taken.
  unfoldable pub end_of_payload : ℕ → PacketParser → U → Progress U
  end_of_payload n p u =
      let p' = record p { state = s_len_0 } in
      let ended = c.on_packet_end u in
      if p.fragment
      then record { consumed = n; error = none; parser = p'; user = u }
      else record { consumed = n; error = ended.0; parser = p'; user = ended.1 }

  len_2_round : PacketParser → U → ℕ → Progress U
  len_2_round p u remaining =
      let p' = record p {
        bytes_remaining = remaining;
        fragment = remaining == max_packet_len;
        state = s_seq;
      } in
      let begun = c.on_packet_begin u in
      if p.fragment
      then record { consumed = 1; error = none; parser = p'; user = u }
      else record { consumed = 1; error = begun.0; parser = p'; user = begun.1 }

  unfoldable pub seq_round : PacketParser → U → ℕ → Progress U
  seq_round p u cur_byte =
      let p' = record p { sequence_number = (p.sequence_number + 1) % 256; state = s_payload } in
      if not (cur_byte == p.sequence_number)
      then record { consumed = 0; error = some (failed invalid_sequence_id); parser = p; user = u }
      else if p.bytes_remaining == 0
      then end_of_payload 1 p' u
      else record { consumed = 1; error = none; parser = p'; user = u }

  -- After on_packet_data has returned `rc`, with `n` bytes taken.
  unfoldable pub after_data : ℕ → PacketParser → Option Stop × U → Progress U
  after_data n p (some stop, u) = record {
    consumed = n;
    error = some stop;
    parser = (if p.bytes_remaining == 0 then record p { deferred_end_callback = true } else p);
    user = u;
  }
  after_data n p (none, u) =
      if p.bytes_remaining == 0
      then end_of_payload n p u
      else record { consumed = n; error = none; parser = p; user = u }

  unfoldable pub payload_round : PacketParser → U → List ℕ → Progress U
  payload_round p u rest =
      let n = if ltb p.bytes_remaining (length rest) then p.bytes_remaining else length rest in
      after_data n (record p { bytes_remaining = p.bytes_remaining - n })
        (c.on_packet_data (take n rest) u)

  -- One round of the loop in each state, at the byte `b` with `bs` behind it.
  unfoldable pub round_in : State → PacketParser → U → ℕ → List ℕ → Progress U
  unfolding len_2_round seq_round after_data payload_round
  round_in s_len_0 p u b bs = record {
    consumed = 1;
    error = none;
    parser = record p { bytes_remaining = b; state = s_len_1 };
    user = u;
  }
  round_in s_len_1 p u b bs = record {
    consumed = 1;
    error = none;
    parser = record p {
      bytes_remaining = bit_or p.bytes_remaining (b * 2 ^ 8) % 2 ^ 24;
      state = s_len_2;
    };
    user = u;
  }
  round_in s_len_2 p u b bs = len_2_round p u (bit_or p.bytes_remaining (b * 2 ^ 16) % 2 ^ 24)
  round_in s_seq p u b bs = seq_round p u b
  round_in s_payload p u b bs = payload_round p u (b ∷ bs)

  -- `while (i < len)`, with `rest` the bytes from `buff + i` on. `none` is out of fuel.
  unfoldable pub loop : ℕ → ℕ → PacketParser → U → List ℕ → Option (Progress U)
  loop zero i p u rest = none
  loop (suc fuel) i p u [] = some (record { consumed = i; error = none; parser = p; user = u })
  loop (suc fuel) i p u (b ∷ bs) =
      let o = round_in p.state p u b bs in
      elim o.error [
        | some stop ↦ some (record o { consumed = i + o.consumed })
        | none ↦ loop fuel (i + o.consumed) o.parser o.user (drop o.consumed (b ∷ bs))
      ]

  -- The deferred on_packet_end, whose error ends the call with nothing taken.
  unfoldable pub after_deferred : PacketParser → List ℕ → Option Stop × U → Option (Progress U)
  after_deferred p buff (some stop, u) =
      some (record { consumed = 0; error = some stop; parser = p; user = u })
  after_deferred p buff (none, u) = loop (length buff + 2) 0 p u buff

  unfoldable pub execute : PacketParser → U → List ℕ → Option (Progress U)
  unfolding after_deferred
  execute p u buff =
      if p.deferred_end_callback
      then after_deferred (record p { deferred_end_callback = false }) buff (c.on_packet_end u)
      else loop (length buff + 2) 0 p u buff

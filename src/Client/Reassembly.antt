-- ===== src/Client/Reassembly.antt =====
-- The packet parser with the client's callbacks, in the middle of a stream of frames: what is still to
-- come, and what the whole packet will be.
pub mod Rounds
pub mod Payload
pub mod Stream
pub mod Packet
pub mod Sent
use trilogy.Prelude.{
  ℕ, zero, suc, ◌+◌, ◌*◌, ◌/◌, ◌%◌, ◌^◌, ◌≤◌, ◌<◌, ◌≡◌, refl, sym, ap, ◌∙◌, arith, Bool, true,
  false, ◌==◌, if◌then◌else◌, List, [], ◌∷◌, ◌++◌, append_assoc, append-nil, length, Option, none,
  some,
}
use trilogy.Wire.{le}
use trilogy.Buffer.{Buffer}
use trilogy.Builder.{max_packet_len}
use trilogy.Builder.Frames.{joined, frame, frames, IsSplit, last, more}
use trilogy.PacketParser.{
  State, s_len_0, s_len_1, s_len_2, s_seq, s_payload, Stop, positive, PacketParser, Progress,
}

-- Behind a chunk, by whether it was full: the frames `todo` of the rest `q` of the payload, and then
-- `extra`. `s` is the next sequence number and `e` the one behind the packet.
pub data Tail (extra : List ℕ) (s e : ℕ) : Bool → List ℕ → List ℕ → Type 0 where
  ends : {todo q : List ℕ} → todo ≡ extra → q ≡ [] → e ≡ s → Tail extra s e false todo q
  goes :
      {cs : List (List ℕ)} {todo q : List ℕ}
      → IsSplit cs q
      → todo ≡ frames s cs ++ extra
      → e ≡ s + length cs
      → Tail extra s e true todo q

-- The first chunk of a payload, and what is behind it.
pub record Chunked (extra : List ℕ) (s e : ℕ) (todo q : List ℕ) : Type 0 where
  pub chunk : List ℕ
  pub todo' : List ℕ
  pub q' : List ℕ
  pub stream : todo ≡ frame s chunk ++ todo'
  pub payload : q ≡ chunk ++ q'
  pub tail : Tail extra (s + 1) e (length chunk == max_packet_len) todo' q'
  pub chunk_le : length chunk ≤ max_packet_len

pub first_chunk :
    {cs : List (List ℕ)} {q : List ℕ} (extra : List ℕ) (s e : ℕ)
    → IsSplit cs q
    → e ≡ s + length cs
    → Chunked extra s e (frames s cs ++ extra) q
first_chunk extra s e (last {p} short) h = record {
  chunk = p;
  todo' = extra;
  q' = [];
  stream = ap (λ l. l ++ extra) (append-nil (frame s p));
  payload = sym (append-nil p);
  tail = rw (not_full (length p) short) (ends refl refl (omega arith));
  chunk_le = omega arith;
}
  where
    not_full : (n : ℕ) → n < max_packet_len → (n == max_packet_len) ≡ false
    not_full n h = ground arith
first_chunk extra s e (more {c} {p} {cs} is_full rest) h = record {
  chunk = c;
  todo' = frames (s + 1) cs ++ extra;
  q' = p;
  stream = append_assoc (frame s c) (frames (s + 1) cs) extra;
  payload = refl;
  tail = rw (full (length c) is_full) (goes rest refl (omega arith));
  chunk_le = omega arith;
}
  where
    full : (n : ℕ) → n ≡ max_packet_len → (n == max_packet_len) ≡ true
    full n h = ground arith

-- Where the parser stands in a frame with the chunk `c`. `got` is what the buffer holds.
pub data Phase (extra : List ℕ) (s e : ℕ) (frag : Bool) (remaining : ℕ) (got todo payload : List ℕ)
    : State → Type 0 where
  at_len_0 :
      (c : List ℕ) {todo' q' : List ℕ}
      → Tail extra (s + 1) e (length c == max_packet_len) todo' q'
      → length c ≤ max_packet_len
      → todo ≡ frame s c ++ todo'
      → payload ≡ (if frag then got else []) ++ (c ++ q')
      → Phase extra s e frag remaining got todo payload s_len_0
  at_len_1 :
      (c : List ℕ) {todo' q' : List ℕ}
      → Tail extra (s + 1) e (length c == max_packet_len) todo' q'
      → length c ≤ max_packet_len
      → todo ≡ (length c / 256 % 256) ∷ (length c / 256 / 256 % 256) ∷ (s % 256) ∷ (c ++ todo')
      → payload ≡ (if frag then got else []) ++ (c ++ q')
      → remaining ≡ length c % 256
      → Phase extra s e frag remaining got todo payload s_len_1
  at_len_2 :
      (c : List ℕ) {todo' q' : List ℕ}
      → Tail extra (s + 1) e (length c == max_packet_len) todo' q'
      → length c ≤ max_packet_len
      → todo ≡ (length c / 256 / 256 % 256) ∷ (s % 256) ∷ (c ++ todo')
      → payload ≡ (if frag then got else []) ++ (c ++ q')
      → remaining ≡ length c % 2 ^ 16
      → Phase extra s e frag remaining got todo payload s_len_2
  at_seq :
      (c : List ℕ) {todo' q' : List ℕ}
      → Tail extra (s + 1) e frag todo' q'
      → todo ≡ (s % 256) ∷ (c ++ todo')
      → payload ≡ got ++ (c ++ q')
      → remaining ≡ length c
      → Phase extra s e frag remaining got todo payload s_seq
  at_payload :
      (left : List ℕ) {todo' q' : List ℕ}
      → Tail extra s e frag todo' q'
      → todo ≡ left ++ todo'
      → payload ≡ got ++ (left ++ q')
      → remaining ≡ length left
      → 0 < length left
      → Phase extra s e frag remaining got todo payload s_payload

-- The parser and its buffer, with the stream `todo` to come, of which `extra` is not of this packet.
pub record Awaits (extra : List ℕ) (e : ℕ) (todo payload : List ℕ) (p : PacketParser) (u : Buffer)
    : Type 0 where
  pub s : ℕ
  pub in_step : p.sequence_number ≡ s % 256
  pub not_deferred : p.deferred_end_callback ≡ false
  pub live : u.allocated ≡ true
  pub room : 0 < u.cap
  pub small : length payload ≤ 2 ^ 62
  pub phase : Phase extra s e p.fragment p.bytes_remaining u.buff todo payload p.state

-- Between two packets: the next frame is to have the sequence number `e`.
pub record Idle (e : ℕ) (p : PacketParser) : Type 0 where
  pub at_start : p.state ≡ s_len_0
  pub no_fragment : p.fragment ≡ false
  pub not_deferred : p.deferred_end_callback ≡ false
  pub in_step : p.sequence_number ≡ e % 256

-- What has come of the bytes `rest`, where `ys` is still behind them: all is taken and more is awaited, or the
-- packet is complete, the parser has paused, and it has taken the packet's bytes and no other.
pub data Outcome (extra : List ℕ) (e : ℕ) (payload rest ys : List ℕ) (o : Progress Buffer)
    : Type 0 where
  goes_on :
      (used rest' : List ℕ)
      → o.error ≡ none
      → rest ≡ used ++ rest'
      → o.consumed ≡ length used
      → 0 < length used
      → Awaits extra e (rest' ++ ys) payload o.parser o.user
      → Outcome extra e payload rest ys o
  pauses :
      (used rest' : List ℕ)
      → o.error ≡ some (positive 1)
      → rest ≡ used ++ rest'
      → o.consumed ≡ length used
      → rest' ++ ys ≡ extra
      → o.user.buff ≡ payload
      → o.user.allocated ≡ true
      → 0 < o.user.cap
      → Idle e o.parser
      → Outcome extra e payload rest ys o

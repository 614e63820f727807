-- ===== src/Builder.antt =====
-- src/builder.c and inc/trilogy/builder.h: builds a packet in a buffer, cut into fragments of
-- TRILOGY_MAX_PACKET_LEN bytes. A status other than TRILOGY_OK leaves the builder as far as it had come.
pub mod Frames
pub mod Fragment
pub mod Writes
pub mod WriteBuffer
pub mod Framing
pub mod Limit
pub mod Fields
pub mod Packs
use trilogy.Prelude.{
  ℕ, zero, suc, ◌+◌, ◌-◌, ◌*◌, ◌/◌, ◌%◌, ◌^◌, ltb, leb, ◌==◌, Bool, true, false, if◌then◌else◌,
  List, [], ◌∷◌, ◌++◌, length, set, take, drop, Result, Run, ok, err, fault, done, fail, fail_if,
  ◌>>=◌, ◌>>◌, max_packet_exceeded,
}
use trilogy.Buffer.{Buffer, expand, store, size_max}
use trilogy.Wire.{le}

-- Shut, so that no proof counts up to it.
unfoldable pub max_packet_len : ℕ
max_packet_len = 0xffffff

pub record Builder : Type 0 where
  pub buffer : Buffer
  pub header_offset : ℕ
  pub packet_length : ℕ
  pub packet_max_length : ℕ
  pub fragment_length : ℕ
  pub seq : ℕ

-- A buffer operation on the builder's buffer.
unfoldable pub on_buffer : {A : Type 0} → Run Buffer A → Run Builder A
on_buffer m b = ((m b.buffer).0, record b { buffer = (m b.buffer).1 })

-- The offset and length of a fragment that begins here.
unfoldable pub start_fragment : Run Builder (Unit {0})
start_fragment b = (ok tt, record b { header_offset = length b.buffer.buff; fragment_length = 0 })

-- `builder->seq++`, a uint8_t
unfoldable pub next_seq : Run Builder ℕ
next_seq b = (ok b.seq, record b { seq = (b.seq + 1) % 256 })

-- `buff[header_offset + i] = v`
unfoldable pub poke : ℕ → ℕ → Run Builder (Unit {0})
poke i v b =
    if ltb (b.header_offset + i) (length b.buffer.buff)
    then (
      ok tt,
      record b { buffer = record b.buffer { buff = set b.buffer.buff (b.header_offset + i) v } },
    )
    else (fault, b)

-- `fragment_length += n`, a uint32_t, and `packet_length += n`, a size_t
unfoldable pub count : ℕ → Run Builder (Unit {0})
count n b = (
  ok tt,
  record b {
    fragment_length = (b.fragment_length + n) % 2 ^ 32;
    packet_length = (b.packet_length + n) % 2 ^ 64;
  },
)

-- `packet_max_length - 1`, in size_t
abbrev pub max_less_one : Builder → ℕ
max_less_one b = (b.packet_max_length + 2 ^ 64 - 1) % 2 ^ 64

unfoldable pub refuse_uint8 : Run Builder (Unit {0})
unfolding fail_if
refuse_uint8 b = fail_if (leb (max_less_one b) b.packet_length) max_packet_exceeded b

unfoldable pub refuse_buffer : ℕ → Run Builder (Unit {0})
unfolding fail_if
refuse_buffer n b =
    fail_if (leb b.packet_max_length ((b.packet_length + n) % 2 ^ 64)) max_packet_exceeded b

-- `fragment_length == TRILOGY_MAX_PACKET_LEN`
unfoldable pub fragment_full : Run Builder Bool
fragment_full b = (ok (b.fragment_length == max_packet_len), b)

-- `TRILOGY_MAX_PACKET_LEN - fragment_length`
unfoldable pub fragment_remaining : Run Builder ℕ
fragment_remaining b = (ok ((max_packet_len + 2 ^ 32 - b.fragment_length) % 2 ^ 32), b)

module _ (grants : ℕ → Bool) where
  unfoldable pub write_header : Run Builder (Unit {0})
  write_header = do
    on_buffer (expand grants 4)
    start_fragment
    on_buffer (store (0 ∷ 0 ∷ 0 ∷ []))
    seq ← next_seq
    on_buffer (store (seq ∷ []))

  unfoldable pub write_continuation_header : Run Builder (Unit {0})
  write_continuation_header = do poke 0 0xff; poke 1 0xff; poke 2 0xff; write_header

  -- What each write does with bytes that fit the fragment: expand, copy, count.
  unfoldable pub append_bytes : List ℕ → Run Builder (Unit {0})
  append_bytes xs = do
    on_buffer (expand grants (length xs))
    on_buffer (store xs)
    count (length xs)

  unfoldable pub builder_init : Buffer → ℕ → Result (Unit {0}) × Builder
  builder_init buff seq = write_header (record {
    buffer = record buff { buff = [] };
    header_offset = 0;
    packet_length = 0;
    packet_max_length = size_max;
    fragment_length = 0;
    seq = seq;
  })

  unfoldable pub continue_if : Bool → Run Builder (Unit {0})
  continue_if full = if full then write_continuation_header else done tt

  unfoldable pub write_uint8 : ℕ → Run Builder (Unit {0})
  write_uint8 val = do refuse_uint8; append_bytes (val ∷ []); full ← fragment_full; continue_if full

  -- The bytes of an integer, the lowest first: `(val >> 8 * i) & 0xff` for each i below `n`.
  unfoldable pub write_bytes : ℕ → ℕ → Run Builder (Unit {0})
  write_bytes zero val = done tt
  write_bytes (suc n) val = do write_uint8 (val % 256); write_bytes n (val / 256)

  unfoldable pub write_uint16 : ℕ → Run Builder (Unit {0})
  write_uint16 = write_bytes 2

  unfoldable pub write_uint24 : ℕ → Run Builder (Unit {0})
  write_uint24 = write_bytes 3

  unfoldable pub write_uint32 : ℕ → Run Builder (Unit {0})
  write_uint32 = write_bytes 4

  unfoldable pub write_uint64 : ℕ → Run Builder (Unit {0})
  write_uint64 = write_bytes 8

  -- A float and a double are their bit patterns.
  unfoldable pub write_float : ℕ → Run Builder (Unit {0})
  write_float = write_bytes 4

  unfoldable pub write_double : ℕ → Run Builder (Unit {0})
  write_double = write_bytes 8

  unfoldable pub write_lenenc : ℕ → Run Builder (Unit {0})
  write_lenenc val =
      if ltb val 251
      then write_uint8 (val % 256)
      else if leb val 0xffff
      then (do write_uint8 0xfc; write_uint16 (val % 2 ^ 16))
      else if leb val 0xffffff
      then (do write_uint8 0xfd; write_uint24 (val % 2 ^ 32))
      else (do write_uint8 0xfe; write_uint64 val)

  -- `while (len >= fragment_remaining)`; the first argument bounds the rounds. The list is what
  -- is left from `ptr` on. What is left behind the loop is appended, if it is not empty.
  unfoldable pub write_fragments : ℕ → ℕ → List ℕ → Run Builder (Unit {0})
  write_fragments zero left xs b = (fault, b)
  write_fragments (suc rounds) left xs b =
      let more =
        (do
          append_bytes (take left xs)
          write_continuation_header
          write_fragments rounds max_packet_len (drop left xs))
          b in
      if leb left (length xs)
      then more
      else if length xs == 0
      then (ok tt, b)
      else append_bytes xs b

  unfoldable pub write_buffer : List ℕ → Run Builder (Unit {0})
  write_buffer xs = do
    left ← fragment_remaining
    refuse_buffer (length xs)
    if ltb (length xs) left then append_bytes xs else write_fragments (length xs + 2) left xs

  unfoldable pub write_lenenc_buffer : List ℕ → Run Builder (Unit {0})
  write_lenenc_buffer xs = do write_lenenc (length xs); write_buffer xs

  -- A C string is its bytes before the NUL.
  unfoldable pub write_string : List ℕ → Run Builder (Unit {0})
  write_string xs = do write_buffer xs; write_uint8 0

-- `(fragment_length >> 8 * i) & 0xff`, at the three bytes of the header
unfoldable pub finalize : Run Builder (Unit {0})
finalize b =
    (do
      poke 0 (b.fragment_length % 256)
      poke 1 (b.fragment_length / 256 % 256)
      poke 2 (b.fragment_length / 65536 % 256))
      b

unfoldable pub set_max_packet_length : ℕ → Run Builder (Unit {0})
set_max_packet_length max_length b =
    if ltb max_length b.packet_length
    then (err max_packet_exceeded, b)
    else (ok tt, record b { packet_max_length = max_length })

-- ===== src/Reader.antt =====
-- src/reader.c and inc/trilogy/reader.h: a cursor over a received packet. `buff` is the memory from
-- the pointer `buff` on; `len` and `pos` are size_t. The functions are stated as if every out
-- pointer were given, and a NULL one is a caller that drops the result. A pointer into the packet,
-- with its length, is the slice of bytes that it stands for.
pub mod View
pub mod Stays
pub mod Fields
pub mod Safety
pub mod Decode
pub mod Lenenc
pub mod Breaks
pub mod RoundTrip
use trilogy.Prelude.{
  ℕ, zero, suc, ◌+◌, ◌-◌, ◌*◌, ◌%◌, ◌^◌, bit_or, List, [], ◌∷◌, take, drop, get_elem?, Bool, not,
  ltb, ◌==◌, if◌then◌else◌, Option, none, some,
}
use trilogy.Prelude.{
  Rc, Result, Run, ok, err, fault, truncated_packet, null_value, protocol_violation,
  extra_data_in_packet, ◌>>=◌, ◌>>◌, done, fail, fail_if,
}

pub record Reader : Type 0 where
  pub buff : List ℕ
  pub len : ℕ
  pub pos : ℕ

abbrev pub size_mod : ℕ
size_mod = 2 ^ 64

-- trilogy_reader_init, and the macro TRILOGY_READER
abbrev pub reader_init : List ℕ → ℕ → Reader
reader_init buff len = record { buff = buff; len = len; pos = 0 }

-- `reader->len - reader->pos`, in size_t
abbrev pub remaining : Reader → ℕ
remaining r = (r.len + size_mod - r.pos) % size_mod

-- `reader->pos += n`
abbrev pub advance : Reader → ℕ → Reader
advance r n = record r { pos = (r.pos + n) % size_mod }

-- CHECK(n)
unfoldable pub check : ℕ → Run Reader (Unit {0})
unfolding fail_if
check n r = fail_if (ltb (remaining r) n) truncated_packet r

read_at : Option ℕ → Run Reader ℕ
read_at none r = (fault, r)
read_at (some a) r = (ok a, advance r 1)

-- `reader->buff[reader->pos++]`
unfoldable pub next_uint8 : Run Reader ℕ
unfolding read_at
next_uint8 r = read_at (get_elem? r.buff r.pos) r

unfoldable pub get_uint8 : Run Reader ℕ
get_uint8 = do check 1; next_uint8

unfoldable pub get_uint16 : Run Reader ℕ
get_uint16 = do check 2; a ← next_uint8; b ← next_uint8; done (bit_or a (b * 2 ^ 8) % 2 ^ 16)

unfoldable pub get_uint24 : Run Reader ℕ
get_uint24 = do
  check 3
  a ← next_uint8
  b ← next_uint8
  c ← next_uint8
  done (bit_or (bit_or a (b * 2 ^ 8)) (c * 2 ^ 16))

unfoldable pub get_uint32 : Run Reader ℕ
get_uint32 = do
  check 4
  a ← next_uint8
  b ← next_uint8
  c ← next_uint8
  d ← next_uint8
  done (bit_or (bit_or (bit_or a (b * 2 ^ 8)) (c * 2 ^ 16)) (d * 2 ^ 24))

unfoldable pub get_uint64 : Run Reader ℕ
get_uint64 = do
  check 8
  a ← next_uint8
  b ← next_uint8
  c ← next_uint8
  d ← next_uint8
  e ← next_uint8
  f ← next_uint8
  g ← next_uint8
  h ← next_uint8
  let low = bit_or (bit_or (bit_or a (b * 2 ^ 8)) (c * 2 ^ 16)) (d * 2 ^ 24)
  done (bit_or (bit_or (bit_or (bit_or low (e * 2 ^ 32)) (f * 2 ^ 40)) (g * 2 ^ 48)) (h * 2 ^ 56))

-- A float and a double are their bit patterns, as the unions of the source read them.
unfoldable pub get_float : Run Reader ℕ
get_float = do check 4; u ← get_uint32; done u

unfoldable pub get_double : Run Reader ℕ
get_double = do check 8; u ← get_uint64; done u

-- The switch on a leader that is not below 0xfb.
unfoldable pub lenenc_tail : ℕ → Run Reader ℕ
lenenc_tail leader =
    if leader == 0xfb
    then fail null_value
    else if leader == 0xfc
    then get_uint16
    else if leader == 0xfd
    then get_uint24
    else if leader == 0xfe
    then get_uint64
    else fail protocol_violation

unfoldable pub get_lenenc : Run Reader ℕ
get_lenenc = do
  check 1
  leader ← next_uint8
  if ltb leader 0xfb then done leader else lenenc_tail leader

-- The `n` bytes at the cursor; a fault if they are not all in memory.
unfoldable pub slice : ℕ → List ℕ → Option (List ℕ)
slice zero xs = some []
slice (suc n) [] = none
slice (suc n) (x ∷ xs) = elim (slice n xs) [ none ↦ none | some ys ↦ some (x ∷ ys) ]

take_slice : ℕ → Option (List ℕ) → Run Reader (List ℕ)
take_slice n none r = (fault, r)
take_slice n (some xs) r = (ok xs, advance r n)

unfoldable pub slice_at : ℕ → Run Reader (List ℕ)
unfolding slice take_slice
slice_at n r = take_slice n (slice n (drop r.pos r.buff)) r

unfoldable pub get_buffer : ℕ → Run Reader (List ℕ)
get_buffer n = do check n; slice_at n

-- memcpy of the same bytes to a buffer of the caller
unfoldable pub copy_buffer : ℕ → Run Reader (List ℕ)
copy_buffer n = do check n; slice_at n

unfoldable pub get_lenenc_buffer : Run Reader (List ℕ)
get_lenenc_buffer = do n ← get_lenenc; check n; get_buffer n

-- memchr(_, 0, n): how far the first zero is. It reads a byte after the other, up to the first zero; to pass the end of
-- the memory is a fault, and to find none TRILOGY_TRUNCATED_PACKET.
unfoldable pub memchr_zero : ℕ → List ℕ → Result ℕ
memchr_zero zero xs = err truncated_packet
memchr_zero (suc n) [] = fault
memchr_zero (suc n) (x ∷ xs) =
    if x == 0
    then ok 0
    else elim (memchr_zero n xs) [ ok k ↦ ok (suc k) | err e ↦ err e | fault ↦ fault ]

unfoldable pub string_at : Result ℕ → Run Reader (List ℕ)
string_at (ok n) r = (ok (take n (drop r.pos r.buff)), advance r (n + 1))
string_at (err e) r = (err e, r)
string_at fault r = (fault, r)

unfoldable pub get_string : Run Reader (List ℕ)
unfolding string_at
get_string r = string_at (memchr_zero (remaining r) (drop r.pos r.buff)) r

-- The pointer and the length that are handed out; a fault if the stretch is not all in memory.
unfoldable pub eof_at : Option (List ℕ) → Run Reader (List ℕ)
eof_at none r = (fault, r)
eof_at (some xs) r = (ok xs, record r { pos = r.len })

unfoldable pub get_eof_buffer : Run Reader (List ℕ)
unfolding eof_at
get_eof_buffer r = eof_at (slice (remaining r) (drop r.pos r.buff)) r

unfoldable pub reader_eof : Reader → Bool
reader_eof r = not (ltb r.pos r.len)

unfoldable pub finish : Run Reader (Unit {0})
unfolding fail_if
finish r = fail_if (ltb r.pos r.len) extra_data_in_packet r

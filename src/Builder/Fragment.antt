-- ===== src/Builder/Fragment.antt =====
-- The state of a builder between two writes, and the steps that keep it: bytes that fit the fragment, a
-- full fragment closed, the last fragment closed.
use trilogy.Prelude.{
  ℕ, ◌+◌, ◌*◌, ◌%◌, ◌^◌, ◌≤◌, ◌<◌, ◌≡◌, refl, sym, ap, ◌∙◌, arith, Bool, true, List, [], ◌∷◌, ◌++◌,
  append_assoc, length, length-append, set, set-append, All-append, lt→ltb, le→leb, Run, ok, ◌>>=◌,
  ◌>>◌,
}
use trilogy.Wire.{le}
use trilogy.Buffer.{store}
use trilogy.Buffer.Growth.{expand_total}
use trilogy.Builder.{
  Builder, max_packet_len, on_buffer, start_fragment, next_seq, poke, count, write_header,
  write_continuation_header, append_bytes, finalize,
}
use trilogy.Builder.Frames.{
  joined, frame, frames, AllFull, max_packet_len_small, le_max_packet_len, joined-append,
  frames_snoc, length-frames, length-joined,
}

-- The header of a fragment that is still open: its length is not known yet.
abbrev pub open_frame : ℕ → List ℕ → List ℕ
open_frame seq p = 0 ∷ 0 ∷ 0 ∷ seq % 256 ∷ p

-- The fragments `full` are closed, `part` is in the open one; `limit` is the packet's maximum.
pub record Open (s : ℕ) (full : List (List ℕ)) (part : List ℕ) (limit : ℕ) (b : Builder)
    : Type 0 where
  pub closed : AllFull full
  pub part_le : length part ≤ max_packet_len
  pub bytes : b.buffer.buff ≡ frames s full ++ open_frame (s + length full) part
  pub offset : b.header_offset ≡ length (frames s full)
  pub next : b.seq ≡ (s + length full + 1) % 256
  pub fragment : b.fragment_length ≡ length part
  pub packet : b.packet_length ≡ length (joined full) + length part
  pub limited : b.packet_max_length ≡ limit
  pub live : b.buffer.allocated ≡ true
  pub room : 0 < b.buffer.cap

-- The headers take less than the payload and four bytes.
length-buff :
    {s limit : ℕ} {full : List (List ℕ)} {part : List ℕ} {b : Builder}
    → Open s full part limit b
    → length b.buffer.buff ≤ 2 * b.packet_length + 4
length-buff {s} {full} {part} o = omega (
  arith,
  ap length o.bytes,
  length-append (frames s full) (open_frame (s + length full) part),
  length-frames s full,
  length-joined full o.closed,
)

-- All fragments `cs` are closed, and the next one has not begun.
pub record Closed (s : ℕ) (cs : List (List ℕ)) (limit : ℕ) (b : Builder) : Type 0 where
  pub closed : AllFull cs
  pub bytes : b.buffer.buff ≡ frames s cs
  pub next : b.seq ≡ (s + length cs) % 256
  pub packet : b.packet_length ≡ length (joined cs)
  pub limited : b.packet_max_length ≡ limit
  pub live : b.buffer.allocated ≡ true
  pub room : 0 < b.buffer.cap

-- A store into the bytes `ys` of the open fragment, header included.
abbrev poked : Builder → List ℕ → Builder
poked b l = record b { buffer = record b.buffer { buff = l } }

poke_lem :
    (i v : ℕ) (xs ys : List ℕ) (b : Builder)
    → b.buffer.buff ≡ xs ++ ys
    → b.header_offset ≡ length xs
    → i < length ys
    → poke i v b ≡ (ok tt, poked b (xs ++ set ys i v))
unfolding poke
poke_lem i v xs ys b e h inside = rw (
  lt→ltb (b.header_offset + i) (length b.buffer.buff)
      (omega (arith, ap length e, length-append xs ys)),
  e,
  set-append xs ys i (b.header_offset + i) v (omega arith),
)

module _ (u v w q : ℕ) (xs p : List ℕ) (b : Builder) (e : b.buffer.buff ≡ xs ++ 0 ∷ 0 ∷ 0 ∷ q ∷ p)
    (h : b.header_offset ≡ length xs) where
  -- The three bytes of a fragment's length.
  pokes_lem :
      (m : Run Builder (Unit {0}))
      → (poke 0 u >> (poke 1 v >> (poke 2 w >> m))) b ≡ m (poked b (xs ++ u ∷ v ∷ w ∷ q ∷ p))
  unfolding ◌>>=◌
  pokes_lem m = rw (
    poke_lem 0 u xs (0 ∷ 0 ∷ 0 ∷ q ∷ p) b e h (omega arith),
    poke_lem 1 v xs (u ∷ 0 ∷ 0 ∷ q ∷ p) (poked b (xs ++ u ∷ 0 ∷ 0 ∷ q ∷ p)) refl h (omega arith),
    poke_lem 2 w xs (u ∷ v ∷ 0 ∷ q ∷ p) (poked b (xs ++ u ∷ v ∷ 0 ∷ q ∷ p)) refl h (omega arith),
  )

  pokes_last : (poke 0 u >> (poke 1 v >> poke 2 w)) b ≡ (ok tt, poked b (xs ++ u ∷ v ∷ w ∷ q ∷ p))
  unfolding ◌>>=◌
  pokes_last = rw (
    poke_lem 0 u xs (0 ∷ 0 ∷ 0 ∷ q ∷ p) b e h (omega arith),
    poke_lem 1 v xs (u ∷ 0 ∷ 0 ∷ q ∷ p) (poked b (xs ++ u ∷ 0 ∷ 0 ∷ q ∷ p)) refl h (omega arith),
    poke_lem 2 w xs (u ∷ v ∷ 0 ∷ q ∷ p) (poked b (xs ++ u ∷ v ∷ 0 ∷ q ∷ p)) refl h (omega arith),
  )

module _ (grants : ℕ → Bool) (granted : (n : ℕ) → grants n ≡ true) where
  -- Bytes that fit the open fragment are added to it.
  pub append_bytes-Open :
      {s limit : ℕ} {full : List (List ℕ)} {part : List ℕ} (xs : List ℕ) (b : Builder)
      → Open s full part limit b
      → length part + length xs ≤ max_packet_len
      → b.packet_length + length xs < 2 ^ 60
      → (b' : Builder) × (append_bytes grants xs b ≡ (ok tt, b'))
        × Open s full (part ++ xs) limit b'
  unfolding append_bytes on_buffer store count ◌>>=◌
  append_bytes-Open {s} {limit} {full} {part} xs b o fits small =
      let (c, e, roomy, pos) =
        expand_total grants granted (length xs) b.buffer o.live o.room
          (omega (arith, length-buff o)) in
      (
        record b {
          buffer = record b.buffer { cap = c; buff = b.buffer.buff ++ xs };
          fragment_length = (b.fragment_length + length xs) % 2 ^ 32;
          packet_length = (b.packet_length + length xs) % 2 ^ 64;
        },
        rw (e, le→leb _ _ roomy),
        record {
          closed = o.closed;
          part_le = omega (arith, length-append part xs);
          bytes = ap (λ l. l ++ xs) o.bytes ∙ append_assoc (frames s full) _ xs;
          offset = o.offset;
          next = o.next;
          fragment = omega (arith, o.fragment, length-append part xs, max_packet_len_small);
          packet = omega (arith, o.packet, length-append part xs);
          limited = o.limited;
          live = o.live;
          room = pos;
        },
      )

  -- The header of the next fragment.
  pub write_header-Open :
      {s limit : ℕ} {cs : List (List ℕ)} (b : Builder)
      → Closed s cs limit b
      → b.packet_length < 2 ^ 60
      → (b' : Builder) × (write_header grants b ≡ (ok tt, b'))
        × Open s cs [] limit b'
        × (b'.packet_length ≡ b.packet_length)
  unfolding write_header on_buffer start_fragment next_seq store ◌>>=◌
  write_header-Open {s} {limit} {cs} b o small =
      let size : length b.buffer.buff ≤ 2 * b.packet_length =
        omega (arith, ap length o.bytes, length-frames s cs, length-joined cs o.closed) in
      let (c, e, roomy, pos) = expand_total grants granted 4 b.buffer o.live o.room (omega arith) in
      let l = b.buffer.buff in
      let fits : length (l ++ 0 ∷ 0 ∷ 0 ∷ []) + 1 ≤ c =
        omega (arith, length-append l (0 ∷ 0 ∷ 0 ∷ [])) in
      (
        record b {
          buffer = record b.buffer { cap = c; buff = (l ++ 0 ∷ 0 ∷ 0 ∷ []) ++ b.seq ∷ [] };
          header_offset = length l;
          fragment_length = 0;
          seq = (b.seq + 1) % 256;
        },
        rw (e, le→leb (length l + 3) c (omega arith), le→leb _ c fits),
        record {
          closed = o.closed;
          part_le = omega arith;
          bytes =
              append_assoc l (0 ∷ 0 ∷ 0 ∷ []) (b.seq ∷ [])
              ∙ ap (λ k. k ++ 0 ∷ 0 ∷ 0 ∷ b.seq ∷ []) o.bytes
              ∙ ap (λ q. frames s cs ++ 0 ∷ 0 ∷ 0 ∷ q ∷ []) o.next;
          offset = ap length o.bytes;
          next = omega (arith, o.next);
          fragment = refl;
          packet = omega (arith, o.packet);
          limited = o.limited;
          live = o.live;
          room = pos;
        },
        refl,
      )

-- A fragment whose length is written in its header is a frame.
frame_bytes :
    (seq : ℕ) (p : List ℕ) (u v w : ℕ)
    → le 3 (length p) ≡ u ∷ v ∷ w ∷ []
    → u ∷ v ∷ w ∷ seq % 256 ∷ p ≡ frame seq p
frame_bytes seq p u v w e = ap (λ l. l ++ seq % 256 ∷ p) (sym e)

module _ (grants : ℕ → Bool) (granted : (n : ℕ) → grants n ≡ true) where
  -- A full fragment is closed, and the next one begins.
  pub write_continuation_header-Open :
      {s limit : ℕ} {full : List (List ℕ)} {part : List ℕ} (b : Builder)
      → Open s full part limit b
      → length part ≡ max_packet_len
      → b.packet_length < 2 ^ 60
      → (b' : Builder) × (write_continuation_header grants b ≡ (ok tt, b'))
        × Open s (full ++ part ∷ []) [] limit b'
        × (b'.packet_length ≡ b.packet_length)
  unfolding write_continuation_header
  write_continuation_header-Open {s} {limit} {full} {part} b o is_full small =
      let l = frames s full ++ 0xff ∷ 0xff ∷ 0xff ∷ (s + length full) % 256 ∷ part in
      let shut : Closed s (full ++ part ∷ []) limit (poked b l) = record {
        closed = All-append _ full (part ∷ []) o.closed (is_full, tt);
        bytes =
            ap (◌++◌ (frames s full)) (
              frame_bytes (s + length full) part 0xff 0xff 0xff
                (ap (le 3) is_full ∙ le_max_packet_len))
            ∙ sym (frames_snoc s full part);
        next = o.next ∙ ap (λ n. n % 256) (omega (arith, length-append full (part ∷ [])));
        packet = omega (
          arith,
          o.packet,
          ap length (joined-append full (part ∷ [])),
          length-append (joined full) (joined (part ∷ [])),
          length-append part [],
        );
        limited = o.limited;
        live = o.live;
        room = o.room;
      } in
      let (b', e, o', same) = write_header-Open grants granted (poked b l) shut small in
      (
        b',
        pokes_lem 0xff 0xff 0xff _ (frames s full) part b o.bytes o.offset (write_header grants)
            ∙ e,
        o',
        same,
      )

-- The last fragment is closed: the buffer is the frames, and nothing else has changed.
pub finalize-Open :
    {s limit : ℕ} {full : List (List ℕ)} {part : List ℕ} (b : Builder)
    → Open s full part limit b
    → finalize b ≡ (ok tt, poked b (frames s (full ++ part ∷ [])))
unfolding finalize
finalize-Open {s} {full} {part} b o =
    pokes_last _ _ _ _ (frames s full) part b o.bytes o.offset
    ∙ ap (λ l. (ok tt, poked b l))
        (ap (◌++◌ (frames s full))
            (frame_bytes (s + length full) part _ _ _ (ground (arith, o.fragment)))
          ∙ sym (frames_snoc s full part))

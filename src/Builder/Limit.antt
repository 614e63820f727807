-- ===== src/Builder/Limit.antt =====
-- src/builder.c: the limit on the length of a packet.
use trilogy.Prelude.{
  ℕ, zero, suc, ◌+◌, ◌-◌, ◌/◌, ◌^◌, ◌%◌, ◌≤◌, ◌<◌, ◌≡◌, arith, Bool, true, false, List, [], ◌∷◌,
  length, take, drop, length-take, length-drop, ltb, leb, Bool-cases, inl, inr, if◌then◌else◌, ◌==◌,
  Result, Run, ok, err, fault, and_then, done, ◌>>=◌, ◌>>◌,
}
use trilogy.Buffer.{Buffer}
use trilogy.Builder.{
  Builder, max_packet_len, max_less_one, on_buffer, start_fragment, next_seq, poke, count,
  refuse_uint8, refuse_buffer, fragment_full, fragment_remaining, write_header,
  write_continuation_header, append_bytes, continue_if, write_uint8, write_bytes, write_uint16,
  write_uint24, write_uint64, write_lenenc, write_fragments, write_buffer, write_lenenc_buffer,
  write_string,
}

-- `n` more bytes stay below the maximum, which is at most half of the address space.
pub record Below (n : ℕ) (b : Builder) : Type 0 where
  pub below : b.packet_length + n < b.packet_max_length
  pub size_t : b.packet_max_length ≤ 2 ^ 63

-- `m` takes at most `n` bytes, on every path.
record Takes {A : Type 0} (n : ℕ) (m : Run Builder A) : Type 0 where
  pub at : (b : Builder) (k : ℕ) → Below (n + k) b → Below k (m b).1

-- On every path of `m` the packet stays below its maximum.
pub record KeepsBelow {A : Type 0} (m : Run Builder A) : Type 0 where
  pub at : (b : Builder) → Below 0 b → Below 0 (m b).1

Below-less : {n k : ℕ} {b : Builder} → k ≤ n → Below n b → Below k b
Below-less h o = record { below = omega (arith, o.below); size_t = o.size_t }

module _ {A B : Type 0} (m : Run Builder A) (f : A → Run Builder B) where
  and_then-Below :
      (k k' : ℕ) (o : Result A) (b : Builder)
      → k ≤ k'
      → Below k' b
      → ((a : A) → Below k (f a b).1)
      → Below k (and_then f o b).1
  and_then-Below k k' (ok a) b h o hf = hf a
  and_then-Below k k' (err e) b h o hf = Below-less h o
  and_then-Below k k' fault b h o hf = Below-less h o

  Takes-bind : {n n' : ℕ} → Takes n m → ((a : A) → Takes n' (f a)) → Takes (n + n') (m >>= f)
  unfolding ◌>>=◌
  Takes-bind {n} {n'} hm hf = record {
    at = λ b k o.
        let o' : Below (n' + k) (m b).1 = hm.at b (n' + k) (Below-less (omega arith) o) in
        and_then-Below k (n' + k) (m b).0 (m b).1 (omega arith) o' (λ a. (hf a).at (m b).1 k o');
  }

  KeepsBelow-bind : KeepsBelow m → ((a : A) → KeepsBelow (f a)) → KeepsBelow (m >>= f)
  unfolding ◌>>=◌
  KeepsBelow-bind hm hf = record {
    at = λ b o.
        let o' = hm.at b o in
        and_then-Below 0 0 (m b).0 (m b).1 (omega arith) o' (λ a. (hf a).at (m b).1 o');
  }

Takes-same : {A : Type 0} {m : Run Builder A} {n n' : ℕ} → n ≡ n' → Takes n m → Takes n' m
Takes-same e h = rw (← e) h

Takes-on_buffer : {A : Type 0} (m : Run Buffer A) → Takes 0 (on_buffer m)
unfolding on_buffer
Takes-on_buffer m = record {
  at = λ b k o. record { below = omega (arith, o.below); size_t = o.size_t };
}

Takes-count : (n : ℕ) → Takes n (count n)
unfolding count
Takes-count n = record {
  at = λ b k o. record { below = omega (arith, o.below, o.size_t); size_t = o.size_t };
}

Takes-poke : (i v : ℕ) → Takes 0 (poke i v)
unfolding poke
Takes-poke i v = record {
  at = λ b k o. elim (Bool-cases (ltb (b.header_offset + i) (length b.buffer.buff))) [
    | inl h ↦ rw h (record { below = omega (arith, o.below); size_t = o.size_t })
    | inr h ↦ rw h (Below-less (omega arith) o)
  ];
}

Takes-start_fragment : Takes 0 start_fragment
unfolding start_fragment
Takes-start_fragment = record {
  at = λ b k o. record { below = omega (arith, o.below); size_t = o.size_t };
}

Takes-next_seq : Takes 0 next_seq
unfolding next_seq
Takes-next_seq = record {
  at = λ b k o. record { below = omega (arith, o.below); size_t = o.size_t };
}

Takes-done : Takes 0 (done tt)
unfolding done
Takes-done = record { at = λ b k o. Below-less (omega arith) o }

Takes→KeepsBelow : {A : Type 0} (m : Run Builder A) → Takes 0 m → KeepsBelow m
Takes→KeepsBelow m h = record { at = λ b o. h.at b 0 o }

module _ (grants : ℕ → Bool) where
  Takes-write_header : Takes 0 (write_header grants)
  unfolding write_header
  Takes-write_header = Takes-same (omega arith) (
      Takes-bind _ _ (Takes-on_buffer _) (λ _. Takes-bind _ _ Takes-start_fragment (λ _.
        Takes-bind _ _ (Takes-on_buffer _)
          (λ _. Takes-bind _ _ Takes-next_seq (λ seq. Takes-on_buffer _)))))

  Takes-write_continuation_header : Takes 0 (write_continuation_header grants)
  unfolding write_continuation_header
  Takes-write_continuation_header = Takes-same (omega arith) (
      Takes-bind _ _ (Takes-poke _ _) (λ _.
        Takes-bind _ _ (Takes-poke _ _)
          (λ _. Takes-bind _ _ (Takes-poke _ _) (λ _. Takes-write_header))))

  Takes-append_bytes : (xs : List ℕ) → Takes (length xs) (append_bytes grants xs)
  unfolding append_bytes
  Takes-append_bytes xs = Takes-same (omega arith) (
      Takes-bind _ _ (Takes-on_buffer _)
        (λ _. Takes-bind _ _ (Takes-on_buffer _) (λ _. Takes-count (length xs))))

  Takes-continue_if : (full : Bool) → Takes 0 (continue_if grants full)
  unfolding continue_if
  Takes-continue_if true = Takes-write_continuation_header
  Takes-continue_if false = Takes-done

  Takes-fragment_full : Takes 0 fragment_full
  unfolding fragment_full
  Takes-fragment_full = record { at = λ b k o. Below-less (omega arith) o }

  -- What follows the guard of a byte.
  Takes-byte :
      (v : ℕ)
      → Takes (1 + 0) (append_bytes grants (v ∷ []) >> (fragment_full >>= continue_if grants))
  Takes-byte v =
      Takes-bind _ _ (Takes-append_bytes (v ∷ []))
        (λ _. Takes-bind _ _ Takes-fragment_full Takes-continue_if)

  KeepsBelow-write_uint8 : (v : ℕ) → KeepsBelow (write_uint8 grants v)
  unfolding write_uint8 refuse_uint8 ◌>>=◌
  KeepsBelow-write_uint8 v = record {
    at = λ b o. elim (Bool-cases (leb (max_less_one b) b.packet_length)) [
      | inl refused ↦ rw refused o
      | inr allowed ↦ rw allowed (
          (Takes-byte v).at b 0
            (record { below = ground (arith, o.below, o.size_t); size_t = o.size_t }))
    ];
  }

  -- The rounds over the fragments take what is left and no more.
  Takes-write_fragments :
      (rounds left : ℕ) (xs : List ℕ) → Takes (length xs) (write_fragments grants rounds left xs)
  unfolding write_fragments
  Takes-write_fragments zero left xs = record { at = λ b k o. Below-less (omega arith) o }
  Takes-write_fragments (suc rounds) left xs = record {
    at = λ b k o.
        let round = Takes-bind _ _ (Takes-append_bytes (take left xs)) (λ _.
          Takes-bind _ _ Takes-write_continuation_header
            (λ _. Takes-write_fragments rounds max_packet_len (drop left xs))) in
        let rest = (Takes-append_bytes xs).at b k o in
        elim (Bool-cases (leb left (length xs))) [
          | inl more ↦ rw more (
              round.at b k (record {
                below = ground (arith, o.below, length-take left xs, length-drop left xs);
                size_t = o.size_t;
              }))
          | inr short ↦ rw short (elim (Bool-cases (length xs == 0)) [
            | inl none_left ↦ rw none_left (Below-less (omega arith) o)
            | inr some_left ↦ rw some_left rest
          ])
        ];
  }

  KeepsBelow-write_bytes : (n v : ℕ) → KeepsBelow (write_bytes grants n v)
  unfolding write_bytes
  KeepsBelow-write_bytes zero v = Takes→KeepsBelow (done tt) Takes-done
  KeepsBelow-write_bytes (suc n) v =
      KeepsBelow-bind _ _ (KeepsBelow-write_uint8 (v % 256))
        (λ _. KeepsBelow-write_bytes n (v / 256))

  KeepsBelow-write_lenenc : (v : ℕ) → KeepsBelow (write_lenenc grants v)
  unfolding write_lenenc write_uint16 write_uint24 write_uint64
  KeepsBelow-write_lenenc v = elim (Bool-cases (ltb v 251)) [
    | inl one ↦ rw one (KeepsBelow-write_uint8 (v % 256))
    | inr more ↦ rw more (elim (Bool-cases (leb v 0xffff)) [
      | inl two ↦
          rw two
            (KeepsBelow-bind _ _ (KeepsBelow-write_uint8 0xfc) (λ _. KeepsBelow-write_bytes 2 _))
      | inr more' ↦ rw more' (elim (Bool-cases (leb v 0xffffff)) [
        | inl three ↦
            rw three
              (KeepsBelow-bind _ _ (KeepsBelow-write_uint8 0xfd) (λ _. KeepsBelow-write_bytes 3 _))
        | inr eight ↦
            rw eight
              (KeepsBelow-bind _ _ (KeepsBelow-write_uint8 0xfe) (λ _. KeepsBelow-write_bytes 8 _))
      ])
    ])
  ]

  KeepsBelow-write_buffer : (xs : List ℕ) → length xs < 2 ^ 63 → KeepsBelow (write_buffer grants xs)
  unfolding write_buffer refuse_buffer fragment_remaining ◌>>=◌
  KeepsBelow-write_buffer xs short = record {
    at = λ b o.
        elim (Bool-cases (leb b.packet_max_length ((b.packet_length + length xs) % 2 ^ 64))) [
          | inl refused ↦ rw refused o
          | inr allowed ↦ rw allowed (
              then_ b
                (record { below = ground (arith, o.below, o.size_t, short); size_t = o.size_t })
                (ltb (length xs) ((max_packet_len + 2 ^ 32 - b.fragment_length) % 2 ^ 32)))
        ];
  }
    where
      then_ :
          (b : Builder)
          → Below (length xs) b
          → (short : Bool)
          → Below 0
              ((if short
                  then append_bytes grants xs
                  else write_fragments grants
                      (length xs + 2)
                      ((max_packet_len + 2 ^ 32 - b.fragment_length) % 2 ^ 32)
                      xs)
                b).1
      then_ b o true = (Takes-append_bytes xs).at b 0 (Below-less (omega arith) o)
      then_ b o false = (Takes-write_fragments _ _ xs).at b 0 (Below-less (omega arith) o)

-- Whatever the allocator grants, and on every path, errors included: a packet below its maximum length is
-- still below it after a byte, an integer of any width, a length-encoded integer, a run of bytes, a
-- length-encoded string or a C string has been written. The maximum and the run are at most half of the
-- address space.
pub writes-Below :
    (grants : ℕ → Bool) (n v : ℕ) (xs : List ℕ) (b : Builder)
    → length xs < 2 ^ 63
    → Below 0 b
    → Below 0 (write_uint8 grants v b).1
      × Below 0 (write_bytes grants n v b).1
      × Below 0 (write_lenenc grants v b).1
      × Below 0 (write_buffer grants xs b).1
      × Below 0 (write_lenenc_buffer grants xs b).1
      × Below 0 (write_string grants xs b).1
unfolding write_lenenc_buffer write_string
writes-Below grants n v xs b short o = (
  (KeepsBelow-write_uint8 grants v).at b o,
  (KeepsBelow-write_bytes grants n v).at b o,
  (KeepsBelow-write_lenenc grants v).at b o,
  (KeepsBelow-write_buffer grants xs short).at b o,
  (KeepsBelow-bind _ _ (KeepsBelow-write_lenenc grants (length xs))
        (λ _. KeepsBelow-write_buffer grants xs short)).at
      b o,
  (KeepsBelow-bind _ _ (KeepsBelow-write_buffer grants xs short)
        (λ _. KeepsBelow-write_uint8 grants 0)).at
      b o,
)

-- ===== src/Builder/WriteBuffer.antt =====
-- src/builder.c: trilogy_builder_write_buffer, across the fragments.
use trilogy.Prelude.{
  ℕ, zero, suc, ◌+◌, ◌-◌, ◌%◌, ◌^◌, ◌≤◌, ◌<◌, ◌≡◌, refl, sym, ap, ◌∙◌, arith, Bool, true, false,
  Bool-cases, inl, inr, List, [], ◌∷◌, ◌++◌, append-nil, append_assoc, length, length-append, take,
  drop, length-take, length-drop, take-append-drop, ltb, leb, leb_lt, ltb→lt, leb→le, ◌==◌, ==_iff,
  Run, ok, ◌>>=◌, ◌>>◌, bind_run,
}
use mathlib.Core.Path.{subst}
use trilogy.Wire.{lenenc_str, nul_str}
use trilogy.Builder.{
  Builder, max_packet_len, refuse_buffer, fragment_remaining, append_bytes,
  write_continuation_header, write_fragments, write_buffer, write_lenenc_buffer, write_string,
}
use trilogy.Builder.Frames.{joined, joined-append, max_packet_len_small}
use trilogy.Builder.Fragment.{Open, append_bytes-Open, write_continuation_header-Open}
use trilogy.Builder.Writes.{
  Holds, Holds-packet, Fits, Writes, Writes-bind, Writes-uint8, Writes-lenenc,
}

regroup :
    (full : List (List ℕ)) (part t d : List ℕ) {xs : List ℕ}
    → t ++ d ≡ xs
    → joined (full ++ (part ++ t) ∷ []) ++ d ≡ joined full ++ (part ++ xs)
regroup full part t d e =
    simp (joined-append, append-nil, append_assoc) (ap (λ l. joined full ++ (part ++ l)) e)

append_empty : (xs ys : List ℕ) → length ys ≡ 0 → xs ++ ys ≡ xs
append_empty xs [] e = append-nil xs
append_empty xs (y ∷ ys) e = absurd (omega arith)

module _ (grants : ℕ → Bool) (granted : (n : ℕ) → grants n ≡ true) where
  -- The rest of the bytes, where it does not fill the open fragment.
  append_rest :
      {s limit : ℕ} {full : List (List ℕ)} {part : List ℕ} (xs : List ℕ) (b : Builder)
      → Open s full part limit b
      → length part + length xs < max_packet_len
      → b.packet_length + length xs < 2 ^ 60
      → (b' : Builder) × (append_bytes grants xs b ≡ (ok tt, b'))
        × Holds s (joined full ++ (part ++ xs)) limit b'
  append_rest {full} {part} xs b o fits small =
      let (b', e, o') = append_bytes-Open grants granted xs b o (omega arith) small in
      (
        b',
        e,
        record {
          full = full;
          part = part ++ xs;
          is_open = o';
          payload = refl;
          short = omega (arith, length-append part xs);
        },
      )

  -- One round of the loop: the bytes that fill the open fragment, and the next header.
  fragment_round :
      {s limit : ℕ} {full : List (List ℕ)} {part : List ℕ} (ys : List ℕ) (b : Builder)
      → Open s full part limit b
      → length part + length ys ≡ max_packet_len
      → b.packet_length + length ys < 2 ^ 60
      → (b' : Builder) × ((k : Run Builder (Unit {0}))
          → (append_bytes grants ys >> (write_continuation_header grants >> k)) b ≡ k b')
        × Open s (full ++ (part ++ ys) ∷ []) [] limit b'
        × (b'.packet_length ≡ b.packet_length + length ys)
  fragment_round {part = part} ys b o fits small =
      let (b₁, e₁, o₁) = append_bytes-Open grants granted ys b o (omega arith) small in
      let size : b₁.packet_length ≡ b.packet_length + length ys =
        omega (arith, o₁.packet, o.packet, length-append part ys) in
      let (b₂, e₂, o₂, same) =
        write_continuation_header-Open grants granted b₁ o₁ (omega (arith, length-append part ys))
          (omega arith) in
      (
        b₂,
        λ k.
            bind_run (append_bytes grants ys) _ e₁
            ∙ bind_run (write_continuation_header grants) _ e₂,
        o₂,
        same ∙ size,
      )

  write_fragments_over :
      (rounds left : ℕ) (xs : List ℕ) (b : Builder)
      → leb left (length xs) ≡ true
      → write_fragments grants (suc rounds) left xs b
        ≡ (append_bytes grants (take left xs)
              >> (write_continuation_header grants
                  >> write_fragments grants rounds max_packet_len (drop left xs)))
            b
  unfolding write_fragments
  write_fragments_over rounds left xs b over = rw over

  -- The loop, from an open fragment with room for `left` more bytes. It ends within its rounds.
  write_fragments-Holds :
      (rounds left : ℕ) (xs : List ℕ) {s limit : ℕ} {full : List (List ℕ)} {part : List ℕ}
      (b : Builder)
      → Open s full part limit b
      → length part + left ≡ max_packet_len
      → 0 < left
      → length xs < rounds
      → b.packet_length + length xs < 2 ^ 60
      → (b' : Builder) × (write_fragments grants rounds left xs b ≡ (ok tt, b'))
        × Holds s (joined full ++ (part ++ xs)) limit b'
  write_fragments-Holds zero left xs b o room pos enough small = absurd (omega arith)
  write_fragments-Holds (suc rounds) left xs {s} {limit} {full} {part} b o room pos enough small =
      elim (Bool-cases (leb left (length xs))) [
        | inl over ↦
            let le : left ≤ length xs = leb→le left (length xs) over in
            let k : length (take left xs) ≡ left = omega (arith, length-take left xs) in
            let d : length (drop left xs) ≡ length xs - left = length-drop left xs in
            let (b₁, e₁, o₁, size) =
              fragment_round (take left xs) b o (omega arith) (omega arith) in
            let (b₂, e₂, h₂) =
              write_fragments-Holds rounds max_packet_len (drop left xs) b₁ o₁ (omega arith)
                (omega (arith, max_packet_len_small)) (omega arith) (omega (arith, size)) in
            let same = regroup full part (take left xs) (drop left xs) (take-append-drop left xs) in
            (
              b₂,
              write_fragments_over rounds left xs b over ∙ e₁ _ ∙ e₂,
              subst (λ l. Holds s l limit b₂) same h₂,
            )
        | inr under ↦
            unfold write_fragments in
            elim (Bool-cases (length xs == 0)) [
              | inl none_left ↦ (
                b,
                rw (under, none_left),
                record {
                  full = full;
                  part = part;
                  is_open = o;
                  payload =
                      ap (◌++◌ (joined full)) (append_empty part xs ((==_iff _ _).0 none_left));
                  short = omega arith;
                },
              )
              | inr some_left ↦
                  let (b', e, h) = append_rest xs b o (ground arith) small in
                  (b', rw (under, some_left) e, h)
            ]
      ]

  module _ (xs : List ℕ) (left : ℕ) (b : Builder)
      (room : (max_packet_len + 2 ^ 32 - b.fragment_length) % 2 ^ 32 ≡ left)
      (allowed : leb b.packet_max_length ((b.packet_length + length xs) % 2 ^ 64) ≡ false) where
    write_buffer_under :
        ltb (length xs) left ≡ true → write_buffer grants xs b ≡ append_bytes grants xs b
    unfolding write_buffer fragment_remaining refuse_buffer ◌>>=◌
    write_buffer_under under = rw (room, allowed, under)

    write_buffer_over :
        ltb (length xs) left ≡ false
        → write_buffer grants xs b ≡ write_fragments grants (length xs + 2) left xs b
    unfolding write_buffer fragment_remaining refuse_buffer ◌>>=◌
    write_buffer_over over = rw (room, allowed, over)

  pub Writes-buffer : (xs : List ℕ) → Writes (write_buffer grants xs) xs
  Writes-buffer xs = record { at = go }
    where
      go :
          (s : ℕ) (p : List ℕ) (limit : ℕ) (b : Builder)
          → Holds s p limit b
          → Fits limit p (length xs)
          → (b' : Builder) × (write_buffer grants xs b ≡ (ok tt, b')) × Holds s (p ++ xs) limit b'
      go s p limit b h f =
          let n : b.packet_length ≡ length p = Holds-packet h in
          let allowed : leb b.packet_max_length ((b.packet_length + length xs) % 2 ^ 64) ≡ false =
            leb_lt _ _ (omega (arith, n, f.below, f.size_t, h.is_open.limited)) in
          let room : (max_packet_len + 2 ^ 32 - b.fragment_length) % 2 ^ 32
              ≡ max_packet_len - length h.part =
            omega (arith, h.is_open.fragment, h.short, max_packet_len_small) in
          let same : joined h.full ++ (h.part ++ xs) ≡ p ++ xs =
            sym (append_assoc (joined h.full) h.part xs) ∙ ap (λ l. l ++ xs) (sym h.payload) in
          elim (Bool-cases (ltb (length xs) (max_packet_len - length h.part))) [
            | inl under ↦
                let (b', e, h') =
                  append_rest xs b h.is_open (omega (arith, h.short, ltb→lt _ _ under))
                    (omega (arith, n, f.small)) in
                (
                  b',
                  write_buffer_under xs _ b room allowed under ∙ e,
                  subst (λ l. Holds s l limit b') same h',
                )
            | inr over ↦
                let (b', e, h') =
                  write_fragments-Holds (length xs + 2) (max_packet_len - length h.part) xs b
                    h.is_open (omega (arith, h.short)) (omega (arith, h.short)) (omega arith)
                    (omega (arith, n, f.small)) in
                (
                  b',
                  write_buffer_over xs _ b room allowed over ∙ e,
                  subst (λ l. Holds s l limit b') same h',
                )
          ]

  pub Writes-lenenc_buffer :
      (xs : List ℕ) → length xs < 2 ^ 64 → Writes (write_lenenc_buffer grants xs) (lenenc_str xs)
  unfolding write_lenenc_buffer
  Writes-lenenc_buffer xs h =
      Writes-bind _ _ (Writes-lenenc grants granted (length xs) h) (Writes-buffer xs)

  pub Writes-string : (xs : List ℕ) → Writes (write_string grants xs) (nul_str xs)
  unfolding write_string
  Writes-string xs = Writes-bind _ _ (Writes-buffer xs) (Writes-uint8 grants granted 0)

-- ===== src/Reader/Lenenc.antt =====
-- Length-encoded integers and strings, NUL strings and fixed stretches, read back.
use trilogy.Prelude.{
  ℕ, zero, suc, ◌+◌, ◌^◌, ◌<◌, ◌≡◌, refl, ap, ◌∙◌, arith, List, [], ◌∷◌, ◌++◌, length, take, drop,
  take-append, length-append, append_assoc, ltb, leb, inl, inr, Bool-cases,
}
use trilogy.Prelude.{ok}
use trilogy.Wire.{lenenc, lenenc_str, nul_str, NoZero}
use trilogy.Reader.{
  Reader, remaining, get_lenenc, lenenc_tail, slice_at, get_buffer, copy_buffer, get_lenenc_buffer,
  get_string, memchr_zero,
}
use trilogy.Reader.View.{Views, Views-remaining, Views-advance}
use trilogy.Reader.Safety.{slice_at_lem}
use trilogy.Reader.Decode.{
  Decodes, Decodes-bind, Decodes-checked, Decodes-byte, Decodes-done, Decodes-uint16,
  Decodes-uint24, Decodes-uint64,
}

-- A length-encoded integer is read back, at each of its four sizes.
pub Decodes-lenenc : (v : ℕ) → v < 2 ^ 64 → Decodes get_lenenc (lenenc v) v
unfolding get_lenenc lenenc lenenc_tail
Decodes-lenenc v h = elim (Bool-cases (ltb v 251)) [
  | inl one ↦
      rw one (Decodes-checked 1 _ (omega arith) (Decodes-byte v _ (rw one (Decodes-done v))))
  | inr more ↦ rw more (elim (Bool-cases (leb v 0xffff)) [
    | inl two ↦
        rw two (
          Decodes-checked 1 _ (omega arith) (Decodes-byte 0xfc _ (Decodes-uint16 v (ground arith))))
    | inr more' ↦ rw more' (elim (Bool-cases (leb v 0xffffff)) [
      | inl three ↦ rw three (
          Decodes-checked 1 _ (omega arith) (Decodes-byte 0xfd _ (Decodes-uint24 v (ground arith))))
      | inr eight ↦
          rw eight (Decodes-checked 1 _ (omega arith) (Decodes-byte 0xfe _ (Decodes-uint64 v h)))
    ])
  ])
]

-- `n` bytes at the cursor, all of them the stretch `d`.
Decodes-slice : (d : List ℕ) → Decodes (slice_at (length d)) d d
Decodes-slice d = record {
  at = λ r ys v.
      rw
        (
          slice_at_lem (length d) r (d ++ ys) v (omega (arith, length-append d ys)),
          take-append d ys,
        )
        (refl, Views-advance r d ys (length d) v refl);
}

pub Decodes-buffer : (n : ℕ) (d : List ℕ) → length d ≡ n → Decodes (get_buffer n) d d
unfolding get_buffer
Decodes-buffer n d e = rw (← e) (Decodes-checked (length d) _ (omega arith) (Decodes-slice d))

pub Decodes-copy : (n : ℕ) (d : List ℕ) → length d ≡ n → Decodes (copy_buffer n) d d
unfolding copy_buffer
Decodes-copy n d e = rw (← e) (Decodes-checked (length d) _ (omega arith) (Decodes-slice d))

pub Decodes-lenenc_buffer :
    (d : List ℕ) → length d < 2 ^ 64 → Decodes get_lenenc_buffer (lenenc_str d) d
unfolding get_lenenc_buffer
Decodes-lenenc_buffer d h =
    Decodes-bind get_lenenc _ (Decodes-lenenc (length d) h)
      (Decodes-checked (length d) _ (omega arith) (Decodes-buffer (length d) d refl))

-- The first zero of a string, a zero and what follows.
memchr_zero_found :
    (d ys : List ℕ) (n : ℕ) → NoZero d → length d < n → memchr_zero n (d ++ 0 ∷ ys) ≡ ok (length d)
unfolding memchr_zero
memchr_zero_found [] ys zero nz h = absurd (omega arith)
memchr_zero_found [] ys (suc n) nz h = refl
memchr_zero_found (x ∷ d) ys zero nz h = absurd (omega arith)
memchr_zero_found (x ∷ d) ys (suc n) nz h =
    ground (arith, memchr_zero_found d ys n nz.1 (omega arith))

pub Decodes-string : (d : List ℕ) → NoZero d → Decodes get_string (nul_str d) d
unfolding get_string
Decodes-string d nz = record { at = go }
  where
    go :
        (r : Reader) (ys : List ℕ)
        → Views r (nul_str d ++ ys)
        → ((get_string r).0 ≡ ok d) × Views (get_string r).1 ys
    go r ys v =
        let split : drop r.pos r.buff ≡ d ++ 0 ∷ (ys ++ v.after) = v.split ∙ simp append_assoc in
        let count : length d + 1 + length ys ≡ remaining r =
          omega
            (arith, Views-remaining v, length-append (nul_str d) ys, length-append d (0 ∷ [])) in
        let found : memchr_zero (remaining r) (drop r.pos r.buff) ≡ ok (length d) =
          rw split (memchr_zero_found d (ys ++ v.after) (remaining r) nz (omega arith)) in
        rw found (
          ap ok (ap (take (length d)) split ∙ take-append d (0 ∷ (ys ++ v.after))),
          Views-advance r (nul_str d) ys (length d + 1) v (omega (arith, length-append d (0 ∷ []))),
        )

-- ===== src/Builder/Writes.antt =====
-- What each write adds to the payload of a packet, where allocation succeeds and the limit is not met.
use trilogy.Prelude.{
  ℕ, zero, suc, ◌+◌, ◌/◌, ◌%◌, ◌^◌, ◌<◌, ◌≡◌, refl, sym, ap, ◌∙◌, arith, Bool, true, false,
  Bool-cases, inl, inr, List, [], ◌∷◌, ◌++◌, append-nil, append_assoc, length, length-append, ltb,
  leb, leb_lt, ◌==◌, ==_iff, Run, ok, done, ◌>>=◌, ◌>>◌, bind_ok,
}
use trilogy.Wire.{le, lenenc}
use trilogy.Builder.{
  Builder, max_packet_len, max_less_one, refuse_uint8, fragment_full, continue_if, write_uint8,
  write_bytes, write_uint16, write_uint24, write_uint64, write_lenenc,
}
use trilogy.Builder.Frames.{joined, joined_snoc, max_packet_len_small}
use trilogy.Builder.Fragment.{Open, append_bytes-Open, write_continuation_header-Open}

-- A builder that began at the sequence number `s` and has the payload `p` so far.
pub record Holds (s : ℕ) (p : List ℕ) (limit : ℕ) (b : Builder) : Type 0 where
  pub full : List (List ℕ)
  pub part : List ℕ
  pub is_open : Open s full part limit b
  pub payload : p ≡ joined full ++ part
  pub short : length part < max_packet_len

-- `n` more bytes stay below the packet's maximum. The second bound is one that memory implies.
pub record Fits (limit : ℕ) (p : List ℕ) (n : ℕ) : Type 0 where
  pub below : length p + n < limit
  pub small : length p + n < 2 ^ 60
  pub size_t : limit < 2 ^ 64

-- `m` returns TRILOGY_OK and has added `xs` to the payload.
pub record Writes (m : Run Builder (Unit {0})) (xs : List ℕ) : Type 0 where
  pub at :
      (s : ℕ) (p : List ℕ) (limit : ℕ) (b : Builder)
      → Holds s p limit b
      → Fits limit p (length xs)
      → (b' : Builder) × (m b ≡ (ok tt, b')) × Holds s (p ++ xs) limit b'

pub Holds-packet :
    {s limit : ℕ} {p : List ℕ} {b : Builder} → Holds s p limit b → b.packet_length ≡ length p
Holds-packet h = h.is_open.packet ∙ sym (ap length h.payload ∙ length-append (joined h.full) h.part)

pub Writes-done : Writes (done tt) []
unfolding done
Writes-done = record { at = λ s p limit b h f. (b, refl, rw append-nil h) }

pub Writes-bind :
    (m k : Run Builder (Unit {0})) {xs ys : List ℕ}
    → Writes m xs
    → Writes k ys
    → Writes (m >> k) (xs ++ ys)
Writes-bind m k {xs} {ys} hm hk = record {
  at = λ s p limit b h f.
      let n : length (xs ++ ys) ≡ length xs + length ys = length-append xs ys in
      let first : Fits limit p (length xs) = record {
        below = omega (arith, f.below);
        small = omega (arith, f.small);
        size_t = f.size_t;
      } in
      let (b', e, h') = hm.at s p limit b h first in
      let then_ : Fits limit (p ++ xs) (length ys) = record {
        below = omega (arith, f.below, length-append p xs);
        small = omega (arith, f.small, length-append p xs);
        size_t = f.size_t;
      } in
      let (b'', e', h'') = hk.at s (p ++ xs) limit b' h' then_ in
      (b'', bind_ok m (λ _. k) (ap (λ o. o.0) e) ∙ ap (λ o. k o.1) e ∙ e', rw (← append_assoc) h'');
}

pub Writes-bytes :
    {m : Run Builder (Unit {0})} {xs ys : List ℕ} → Writes m xs → xs ≡ ys → Writes m ys
Writes-bytes w e = rw (← e) w

module _ (grants : ℕ → Bool) (granted : (n : ℕ) → grants n ≡ true) where
  -- `if (fragment_length == TRILOGY_MAX_PACKET_LEN)`: afterwards the open fragment is not full.
  continue_if-Holds :
      {s limit : ℕ} {full : List (List ℕ)} {part : List ℕ} (p : List ℕ) (b : Builder)
      → Open s full part limit b
      → p ≡ joined full ++ part
      → b.packet_length < 2 ^ 60
      → (b' : Builder) × ((fragment_full >>= continue_if grants) b ≡ (ok tt, b'))
        × Holds s p limit b'
  unfolding fragment_full continue_if ◌>>=◌
  continue_if-Holds {full} {part} p b o e small =
      elim (Bool-cases (b.fragment_length == max_packet_len)) [
        | inl is_full ↦
            let (b', e', o', same) =
              write_continuation_header-Open grants granted b o
                (sym o.fragment ∙ (==_iff _ _).0 is_full) small in
            (
              b',
              rw is_full e',
              record {
                full = full ++ part ∷ [];
                part = [];
                is_open = o';
                payload = e ∙ sym (joined_snoc full part);
                short = omega (arith, max_packet_len_small);
              },
            )
        | inr more ↦ (
          b,
          rw more,
          record {
            full = full;
            part = part;
            is_open = o;
            payload = e;
            short = ground (arith, o.fragment, o.part_le);
          },
        )
      ]

  pub Writes-uint8 : (v : ℕ) → Writes (write_uint8 grants v) (v ∷ [])
  unfolding write_uint8 refuse_uint8 ◌>>=◌
  Writes-uint8 v = record {
    at = λ s p limit b h f.
        let n : b.packet_length ≡ length p = Holds-packet h in
        let allowed : leb (max_less_one b) b.packet_length ≡ false =
          leb_lt _ _ (omega (arith, n, f.below, f.size_t, h.is_open.limited)) in
        let (b', e, o) =
          append_bytes-Open grants granted (v ∷ []) b h.is_open (omega (arith, h.short))
            (omega (arith, n, f.small)) in
        let grown : p ++ v ∷ [] ≡ joined h.full ++ (h.part ++ v ∷ []) =
          ap (λ l. l ++ v ∷ []) h.payload ∙ append_assoc (joined h.full) h.part (v ∷ []) in
        let size : b'.packet_length < 2 ^ 60 =
          omega (arith, o.packet, h.is_open.packet, n, f.small, length-append h.part (v ∷ [])) in
        let (b'', e', h') = continue_if-Holds (p ++ v ∷ []) b' o grown size in
        (b'', rw (allowed, e) e', h');
  }

  pub Writes-le : (n v : ℕ) → Writes (write_bytes grants n v) (le n v)
  unfolding write_bytes
  Writes-le zero v = Writes-done
  Writes-le (suc n) v = Writes-bind _ _ (Writes-uint8 (v % 256)) (Writes-le n (v / 256))

  -- A length-encoded integer is written in its shortest form.
  pub Writes-lenenc : (v : ℕ) → v < 2 ^ 64 → Writes (write_lenenc grants v) (lenenc v)
  unfolding write_lenenc lenenc write_uint16 write_uint24 write_uint64
  Writes-lenenc v h = elim (Bool-cases (ltb v 251)) [
    | inl one ↦ rw one (Writes-bytes (Writes-uint8 (v % 256)) (ap (λ x. x ∷ []) (ground arith)))
    | inr more ↦ rw more (elim (Bool-cases (leb v 0xffff)) [
      | inl two ↦ rw two (
          Writes-bind _ _ (Writes-uint8 0xfc)
            (Writes-bytes (Writes-le 2 (v % 2 ^ 16)) (ap (le 2) (ground arith))))
      | inr more' ↦ rw more' (elim (Bool-cases (leb v 0xffffff)) [
        | inl three ↦ rw three (
            Writes-bind _ _ (Writes-uint8 0xfd)
              (Writes-bytes (Writes-le 3 (v % 2 ^ 32)) (ap (le 3) (ground arith))))
        | inr eight ↦ rw eight (Writes-bind _ _ (Writes-uint8 0xfe) (Writes-le 8 v))
      ])
    ])
  ]

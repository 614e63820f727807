-- ===== src/Builder/Packs.antt =====
-- Code that finishes a packet: writes, and trilogy_builder_finalize behind them.
use mathlib.Core.Path.{subst}
use trilogy.Prelude.{
  ℕ, ◌+◌, ◌%◌, ◌^◌, ◌<◌, ◌≡◌, sym, ap, ◌∙◌, arith, Bool, true, List, [], ◌∷◌, ◌++◌, append_assoc,
  append-nil, length, length-append, Result, Run, ok, and_then, ◌>>◌, bind_ok,
}
use trilogy.Buffer.{Buffer, size_max}
use trilogy.Builder.{Builder, builder_init, finalize}
use trilogy.Builder.Framing.{builder_init-Holds}
use trilogy.Builder.Frames.{frames, IsSplit, AllFull-IsSplit}
use trilogy.Builder.Fragment.{finalize-Open}
use trilogy.Builder.Writes.{Holds, Fits, Writes}

-- The builder's buffer is the payload `p` cut into frames from the sequence number `s` on, and its sequence number
-- is the one behind the last frame's.
pub record IsPacket (s : ℕ) (p : List ℕ) (b : Builder) : Type 0 where
  pub chunks : List (List ℕ)
  pub split : IsSplit chunks p
  pub bytes : b.buffer.buff ≡ frames s chunks
  pub next : b.seq ≡ (s + length chunks) % 256
  pub live : b.buffer.allocated ≡ true
  pub room : 0 < b.buffer.cap

-- `m` returns TRILOGY_OK, and has added `xs` to the payload and finished the packet.
pub record Packs (m : Run Builder (Unit {0})) (xs : List ℕ) : Type 0 where
  pub at :
      (s : ℕ) (p : List ℕ) (limit : ℕ) (b : Builder)
      → Holds s p limit b
      → Fits limit p (length xs)
      → (b' : Builder) × (m b ≡ (ok tt, b')) × IsPacket s (p ++ xs) b'

pub Packs-finalize : Packs finalize []
Packs-finalize = record {
  at = λ s p limit b h f.
      let done_ = finalize-Open b h.is_open in
      (
        (finalize b).1,
        ap (λ t. (t, (finalize b).1)) (ap (λ o. o.0) done_),
        record {
          chunks = h.full ++ h.part ∷ [];
          split =
              subst (IsSplit (h.full ++ h.part ∷ [])) (sym (append-nil p ∙ h.payload))
                (AllFull-IsSplit h.full h.part h.is_open.closed h.short);
          bytes = ap (λ o. o.1.buffer.buff) done_;
          next =
              ap (λ o. o.1.seq) done_
              ∙ h.is_open.next
              ∙ ap (λ n. n % 256) (omega (arith, length-append h.full (h.part ∷ [])));
          live = ap (λ o. o.1.buffer.allocated) done_ ∙ h.is_open.live;
          room = subst (λ c. 0 < c) (sym (ap (λ o. o.1.buffer.cap) done_)) h.is_open.room;
        },
      );
}

pub Packs-bind :
    (m k : Run Builder (Unit {0})) {xs ys : List ℕ}
    → Writes m xs
    → Packs k ys
    → Packs (m >> k) (xs ++ ys)
Packs-bind m k {xs} {ys} hm hk = record {
  at = λ s p limit b h f.
      let n : length (xs ++ ys) ≡ length xs + length ys = length-append xs ys in
      let first : Fits limit p (length xs) = record {
        below = omega (arith, f.below);
        small = omega (arith, f.small);
        size_t = f.size_t;
      } in
      let (b', e, h') = hm.at s p limit b h first in
      let then_ : Fits limit (p ++ xs) (length ys) = record {
        below = omega (arith, f.below, length-append p xs);
        small = omega (arith, f.small, length-append p xs);
        size_t = f.size_t;
      } in
      let (b'', e', h'') = hk.at s (p ++ xs) limit b' h' then_ in
      (
        b'',
        bind_ok m (λ _. k) (ap (λ o. o.0) e) ∙ ap (λ o. k o.1) e ∙ e',
        subst (λ l. IsPacket s l b'') (append_assoc p xs ys) h'',
      );
}

-- The last write before the end.
pub Packs-last : (m : Run Builder (Unit {0})) {xs : List ℕ} → Writes m xs → Packs (m >> finalize) xs
Packs-last m {xs} h =
    subst (Packs (m >> finalize)) (append-nil xs) (Packs-bind m finalize h Packs-finalize)

-- The code `m` on a builder that has just begun.
unfoldable pub pack : (ℕ → Bool) → Buffer → ℕ → Run Builder (Unit {0}) → Result (Unit {0}) × Builder
pack grants buff seq m = let b = builder_init grants buff seq in and_then (λ _. m) b.0 b.1

pub pack-IsPacket :
    (grants : ℕ → Bool) (buff : Buffer) (seq : ℕ) (m : Run Builder (Unit {0})) (p : List ℕ)
    → ((n : ℕ) → grants n ≡ true)
    → buff.allocated ≡ true
    → 0 < buff.cap
    → seq < 256
    → length p < 2 ^ 60
    → Packs m p
    → (b : Builder) × (pack grants buff seq m ≡ (ok tt, b)) × IsPacket seq p b
unfolding pack
pack-IsPacket grants buff seq m p granted live pos byte short w =
    let (b, e, h) = builder_init-Holds grants granted buff seq live pos byte in
    let (b', e', h') = w.at seq [] size_max b h (record {
      below = omega (arith, short);
      small = omega (arith, short);
      size_t = omega arith;
    }) in
    (b', rw e e', h')

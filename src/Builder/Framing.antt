-- ===== src/Builder/Framing.antt =====
-- A packet built from its first byte to its last: trilogy_builder_init, any writes, trilogy_builder_finalize.
use mathlib.Core.Path.{subst}
use trilogy.Prelude.{
  ℕ, ◌+◌, ◌%◌, ◌^◌, ◌<◌, ◌≡◌, refl, sym, ap, ◌∙◌, arith, Bool, true, List, [], ◌∷◌, ◌++◌, length,
  length-append, Result, Run, ok, and_then, ◌>>◌, bind_ok,
}
use trilogy.Buffer.{Buffer, size_max}
use trilogy.Builder.{Builder, builder_init, finalize}
use trilogy.Builder.Frames.{frames, IsSplit, AllFull-IsSplit, max_packet_len_small}
use trilogy.Builder.Fragment.{write_header-Open, finalize-Open}
use trilogy.Builder.Writes.{Holds, Writes}

-- The life of a builder on the buffer `buff`, with the first sequence number `seq` and the writes `m`.
unfoldable pub build :
    (ℕ → Bool) → Buffer → ℕ → Run Builder (Unit {0}) → Result (Unit {0}) × Builder
build grants buff seq m =
    let b = builder_init grants buff seq in and_then (λ _. m >> finalize) b.0 b.1

module _ (grants : ℕ → Bool) (granted : (n : ℕ) → grants n ≡ true) where
  pub builder_init-Holds :
      (buff : Buffer) (seq : ℕ)
      → buff.allocated ≡ true
      → 0 < buff.cap
      → seq < 256
      → (b : Builder) × (builder_init grants buff seq ≡ (ok tt, b)) × Holds seq [] size_max b
  unfolding builder_init
  builder_init-Holds buff seq live pos byte =
      let small : 0 < 2 ^ 60 = omega arith in
      let (b, e, o, same) =
        write_header-Open grants granted {s = seq} {limit = size_max} {cs = []} _
          (record {
            closed = tt;
            bytes = refl;
            next = omega (arith, byte);
            packet = refl;
            limited = refl;
            live = live;
            room = pos;
          })
          small in
      (
        b,
        e,
        record {
          full = [];
          part = [];
          is_open = o;
          payload = refl;
          short = omega (arith, max_packet_len_small);
        },
      )

  -- With memory to be had, writes that add the payload `p` give a buffer that is `p` cut into frames: all but
  -- the last of full length, the last one shorter and possibly empty, numbered from `seq` modulo 256; and
  -- the builder's next sequence number is the one behind the last frame's. The payload is shorter
  -- than 2 ^ 60 bytes.
  pub build-IsSplit :
      (buff : Buffer) (seq : ℕ) (m : Run Builder (Unit {0})) (p : List ℕ)
      → buff.allocated ≡ true
      → 0 < buff.cap
      → seq < 256
      → length p < 2 ^ 60
      → Writes m p
      → (chunks : List (List ℕ)) × (b : Builder) × (build grants buff seq m ≡ (ok tt, b))
        × IsSplit chunks p
        × (b.buffer.buff ≡ frames seq chunks)
        × (b.seq ≡ (seq + length chunks) % 256)
  unfolding build
  build-IsSplit buff seq m p live pos byte short w =
      let (b, e, h) = builder_init-Holds buff seq live pos byte in
      let (b', e', h') = w.at seq [] size_max b h (record {
        below = omega (arith, short);
        small = omega (arith, short);
        size_t = omega arith;
      }) in
      let done_ = finalize-Open b' h'.is_open in
      (
        h'.full ++ h'.part ∷ [],
        (finalize b').1,
        rw e (
            bind_ok m (λ _. finalize) (ap (λ o. o.0) e')
            ∙ ap (λ o. finalize o.1) e'
            ∙ ap (λ t. (t, (finalize b').1)) (ap (λ o. o.0) done_)),
        subst (IsSplit (h'.full ++ h'.part ∷ [])) (sym h'.payload)
            (AllFull-IsSplit h'.full h'.part h'.is_open.closed h'.short),
        ap (λ o. o.1.buffer.buff) done_,
        ap (λ o. o.1.seq) done_
            ∙ h'.is_open.next
            ∙ ap (λ n. n % 256) (omega (arith, length-append h'.full (h'.part ∷ []))),
      )

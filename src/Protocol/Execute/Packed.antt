-- ===== src/Protocol/Execute/Packed.antt =====
-- The packet that executes a prepared statement, as the protocol's documents describe it, and as the builder has it.
use trilogy.Prelude.{
  ℕ, suc, ◌+◌, ◌*◌, ◌/◌, ◌%◌, ◌^◌, ◌≤◌, ◌<◌, ◌≡◌, sym, ap, ◌∙◌, arith, ltb_ge, ◌==◌, bit_or,
  bit_or_shifted, Bool, true, false, Bool-cases, inl, inr, not, if◌then◌else◌, List, [], ◌∷◌, ◌++◌,
  length, take_all, All, some, ok,
}
use mathlib.Core.Path.{subst}
use native.Mathlib.Nat.{pow-suc, pow-le-pow_right}
use trilogy.Wire.{le}
use trilogy.Buffer.{Buffer}
use trilogy.Builder.{Builder, write_uint32}
use trilogy.Builder.Writes.{Writes, Writes-bind, Writes-done, Writes-bytes, Writes-uint8, Writes-le}
use trilogy.Builder.Packs.{IsPacket, Packs, Packs-bind, Packs-last, pack, pack-IsPacket}
use trilogy.Protocol.BinaryValue.{null, kind, BinaryValue}
use trilogy.Protocol.Execute.{
  when, write_null_bits, write_types, write_as, write_values, write_binds, write_array,
  build_stmt_execute_packet,
}
use trilogy.Protocol.Execute.Values.{as_bytes, IsAs}
use trilogy.Protocol.Execute.Values.Written.{Writes-as}

-- The flags of the binds as a number, the first bind's the lowest bit.
abbrev pub null_number : List BinaryValue → ℕ
null_number [] = 0
null_number (v ∷ vs) = (if v.is_null then 1 else 0) + null_number vs * 2

abbrev pub types_bytes : List BinaryValue → List ℕ
types_bytes [] = []
types_bytes (v ∷ vs) =
    v.type ∷ [] ++ ((if v.is_unsigned then 0x80 else 0x00) ∷ [] ++ types_bytes vs)

-- There is no value for a NULL.
abbrev pub values_bytes : List BinaryValue → List ℕ
values_bytes [] = []
values_bytes (v ∷ vs) =
    (if v.is_null then [] else as_bytes (kind v.type) v.value) ++ values_bytes vs

-- The null bitmap has a bit for each bind and is filled up to a whole byte. A statement without binds has neither it nor
-- what is behind it.
abbrev pub binds_bytes : List BinaryValue → List ℕ
binds_bytes [] = []
binds_bytes (v ∷ vs) =
    le ((length (v ∷ vs) + 7) / 8) (null_number (v ∷ vs))
    ++ (1 ∷ [] ++ (types_bytes (v ∷ vs) ++ values_bytes (v ∷ vs)))

abbrev pub execute_bytes : ℕ → ℕ → List BinaryValue → List ℕ
execute_bytes stmt_id flags vs =
    0x17 ∷ [] ++ (le 4 stmt_id ++ (flags ∷ [] ++ (le 4 1 ++ binds_bytes vs)))

-- A bind that says NULL in its type as well as in its flag, or a value of its type.
pub data IsBind (v : BinaryValue) : Type 0 where
  null_bind : kind v.type ≡ null → v.is_null ≡ true → IsBind v
  value_bind : v.is_null ≡ false → IsAs (kind v.type) v.value → IsBind v

-- A bit of the bitmap, in the byte that is not full yet.
or_flag :
    (r bits n : ℕ) (b : Bool)
    → bits < 2 ^ r
    → ((if b then bit_or bits (2 ^ r) else bits) < 2 ^ suc r)
      × (bits + ((if b then 1 else 0) + n * 2) * 2 ^ r
          ≡ (if b then bit_or bits (2 ^ r) else bits) + n * 2 ^ suc r)
or_flag r bits n true h =
    let p : bit_or bits (2 ^ r) ≡ bits + 2 ^ r =
      ap (bit_or bits) (omega arith) ∙ bit_or_shifted r bits 1 h ∙ omega arith in
    let q : n * 2 ^ suc r ≡ n * (2 ^ r * 2) = ap (λ t. n * t) (pow-suc 2 r) in
    (ground (arith, p, pow-suc 2 r), ground (arith, p, q))
or_flag r bits n false h =
    let q : n * 2 ^ suc r ≡ n * (2 ^ r * 2) = ap (λ t. n * t) (pow-suc 2 r) in
    (ground (arith, pow-suc 2 r), ground (arith, q))

le_same : {k k' x x' : ℕ} → k ≡ k' → x ≡ x' → le k x ≡ le k' x'
le_same e f = λ i. le (e i) (f i)

le_full :
    (k k' x low high : ℕ)
    → low < 256
    → k ≡ suc k'
    → x ≡ low + high * 256
    → low ∷ le k' high ≡ le k x
le_full k k' x low high h e f =
    let low_ : low ≡ (low + high * 256) % 256 = omega (arith, h) in
    let high_ : high ≡ (low + high * 256) / 256 = omega (arith, h) in
    (λ i. low_ i ∷ le k' (high_ i)) ∙ le_same (sym e) (sym f)

pow_lt : (r : ℕ) → r < 8 → 2 ^ r ≤ 128
pow_lt r h = pow-le-pow_right {n = 2} (omega arith) {i = r} {j = 7} (omega arith)

module _ (grants : ℕ → Bool) (granted : (n : ℕ) → grants n ≡ true) where
  Writes-null_bits :
      (i bits : ℕ) (vs : List BinaryValue)
      → bits < 2 ^ (i % 8)
      → Writes
          (write_null_bits grants i bits vs)
          (le ((i % 8 + length vs + 7) / 8) (bits + null_number vs * 2 ^ (i % 8)))
  unfolding write_null_bits when
  Writes-null_bits i bits [] h = elim (Bool-cases (i % 8 == 0)) [
    | inl e ↦
        rw e
          (Writes-bytes Writes-done (le_same {k = 0} {x = bits} (ground (arith, e)) (omega arith)))
    | inr e ↦ rw e (
        Writes-bytes (Writes-uint8 grants granted bits) (
          le_full ((i % 8 + 0 + 7) / 8) 0 (bits + 0 * 2 ^ (i % 8)) bits 0
            (omega (arith, h, pow_lt (i % 8) (omega arith))) (ground (arith, e)) (omega arith)))
  ]
  Writes-null_bits i bits (v ∷ vs) h =
      let (below, same) = or_flag (i % 8) bits (null_number vs) v.is_null h in
      elim (Bool-cases (i % 8 == 7)) [
        | inl e ↦
            let r : i % 8 ≡ 7 = ground (arith, e) in
            let next : (i + 1) % 8 ≡ 0 = omega (arith, r) in
            let byte : (if v.is_null then bit_or bits (2 ^ (i % 8)) else bits) < 256 =
              subst (λ t. (if v.is_null then bit_or bits (2 ^ (i % 8)) else bits) < 2 ^ suc t) r
                below in
            rw e (
              Writes-bytes
                (Writes-bind _ _ (Writes-uint8 grants granted _)
                  (Writes-null_bits (i + 1) 0 vs (rw next (omega arith))))
                (le_full ((i % 8 + suc (length vs) + 7) / 8) (((i + 1) % 8 + length vs + 7) / 8) _ _
                  _ byte (omega (arith, r, next)) (same ∙ tail _ r next)))
        | inr e ↦
            let next : (i + 1) % 8 ≡ suc (i % 8) = ground (arith, e) in
            rw e (
              Writes-bytes
                (Writes-bind _ _ Writes-done (Writes-null_bits (i + 1) _ vs (rw next below)))
                (le_same (omega (arith, next)) (rw next (sym same))))
      ]
    where
      tail :
          (x : ℕ)
          → i % 8 ≡ 7
          → (i + 1) % 8 ≡ 0
          → x + null_number vs * 2 ^ suc (i % 8)
            ≡ x + (0 + null_number vs * 2 ^ ((i + 1) % 8)) * 256
      tail x r next =
          ap (λ t. x + null_number vs * 2 ^ suc t) r
          ∙ omega arith
          ∙ sym (ap (λ t. x + (0 + null_number vs * 2 ^ t) * 256) next)

  Writes-types : (vs : List BinaryValue) → Writes (write_types grants vs) (types_bytes vs)
  unfolding write_types
  Writes-types [] = Writes-done
  Writes-types (v ∷ vs) = Writes-bind _ _ (Writes-uint8 grants granted v.type) (
      Writes-bind _ _ (Writes-uint8 grants granted (if v.is_unsigned then 0x80 else 0x00))
        (Writes-types vs))

  Writes-value :
      (v : BinaryValue)
      → IsBind v
      → Writes
          (write_as grants (kind v.type) v.value)
          (if v.is_null then [] else as_bytes (kind v.type) v.value)
  unfolding write_as
  Writes-value v (null_bind k b) = rw (k, b) Writes-done
  Writes-value v (value_bind b w) = rw b (Writes-as grants granted (kind v.type) v.value w)

  Writes-values :
      (vs : List BinaryValue) → All IsBind vs → Writes (write_values grants vs) (values_bytes vs)
  unfolding write_values
  Writes-values [] w = Writes-done
  Writes-values (v ∷ vs) w = Writes-bind _ _ (Writes-value v w.0) (Writes-values vs w.1)

  nonempty : (n : ℕ) → (suc n == 0) ≡ false
  nonempty n = ground arith

  Writes-binds :
      (vs : List BinaryValue)
      → All IsBind vs
      → Writes
          (when (not (length vs == 0)) (write_array grants (some vs) (length vs)))
          (binds_bytes vs)
  unfolding when write_array write_binds
  Writes-binds [] w = Writes-done
  Writes-binds (v ∷ vs) w =
      rw
        (
          nonempty (length vs),
          ltb_ge (length (v ∷ vs)) (length (v ∷ vs)) (omega arith),
          take_all (length (v ∷ vs)) (v ∷ vs) (omega arith),
        )
        (Writes-bind _ _
          (Writes-bytes (Writes-null_bits 0 0 (v ∷ vs) (omega arith))
            (le_same (omega arith) (omega arith)))
          (Writes-bind _ _ (Writes-uint8 grants granted 1)
            (Writes-bind _ _ (Writes-types (v ∷ vs)) (Writes-values (v ∷ vs) w))))

  pub Packs-execute :
      (stmt_id flags : ℕ) (vs : List BinaryValue)
      → All IsBind vs
      → Packs
          (build_stmt_execute_packet grants stmt_id flags (some vs) (length vs))
          (execute_bytes stmt_id flags vs)
  unfolding build_stmt_execute_packet write_uint32
  Packs-execute stmt_id flags vs w = Packs-bind _ _ (Writes-uint8 grants granted 0x17) (
      Packs-bind _ _ (Writes-le grants granted 4 stmt_id) (
        Packs-bind _ _ (Writes-uint8 grants granted flags)
          (Packs-bind _ _ (Writes-le grants granted 4 1) (Packs-last _ (Writes-binds vs w)))))

-- The packet that executes a statement, built on a fresh builder where memory is granted, is in the buffer the payload
-- that the protocol gives it, cut into frames from the sequence number `seq` on: the null bitmap is the number of the
-- null flags in as many bytes as their bits fill, and each value that is not NULL is laid out as its type says. A
-- bind that is NULL says so in its type as well as in its flag; every other has a value that fits its type, and no time has
-- days or a sign alone, without an hour, a minute, a second or microseconds. There is a bind for each parameter, and the
-- payload is shorter than 2 ^ 60 bytes.
pub pack-build_stmt_execute_packet :
    (grants : ℕ → Bool) (buff : Buffer) (seq stmt_id flags : ℕ) (vs : List BinaryValue)
    → ((n : ℕ) → grants n ≡ true)
    → buff.allocated ≡ true
    → 0 < buff.cap
    → seq < 256
    → length (execute_bytes stmt_id flags vs) < 2 ^ 60
    → All IsBind vs
    → (b : Builder) × (pack grants buff seq
          (build_stmt_execute_packet grants stmt_id flags (some vs) (length vs))
        ≡ (ok tt, b))
      × IsPacket seq (execute_bytes stmt_id flags vs) b
pack-build_stmt_execute_packet grants buff seq stmt_id flags vs granted live pos byte short w =
    pack-IsPacket grants buff seq
      (build_stmt_execute_packet grants stmt_id flags (some vs) (length vs))
      (execute_bytes stmt_id flags vs) granted live pos byte short
      (Packs-execute grants granted stmt_id flags vs w)

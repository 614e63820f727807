-- ===== src/Reader/Decode.antt =====
-- What the reader makes of well-formed bytes: one rule for each way to build a parser.
use trilogy.Prelude.{
  ℕ, ◌*◌, ◌/◌, ◌%◌, ◌^◌, ◌≤◌, ◌<◌, ◌≡◌, refl, arith, List, [], ◌∷◌, ◌++◌, length, length-append,
  append_assoc, ltb_ge, bit_or, bit_or_shifted,
}
use trilogy.Prelude.{take_all, Run, ok, done, fail_if, ◌>>=◌, ◌>>◌, bind_ok}
use trilogy.Wire.{le}
use trilogy.Reader.{
  Reader, remaining, check, next_uint8, get_uint8, get_uint16, get_uint24, get_uint32, get_uint64,
  get_float, get_double, get_eof_buffer, finish,
}
use trilogy.Reader.Fields.{slice-take}
use trilogy.Reader.View.{Views, Views-remaining, Views-advance}
use trilogy.Reader.Safety.{next_uint8_lem, Views-end}

-- `m` reads the bytes `xs`, whatever follows them, gives `a`, and leaves what follows.
pub record Decodes {A : Type 0} (m : Run Reader A) (xs : List ℕ) (a : A) : Type 0 where
  pub at : (r : Reader) (ys : List ℕ) → Views r (xs ++ ys) → ((m r).0 ≡ ok a) × Views (m r).1 ys

-- `m` gives `a` where the bytes `xs` are the rest of the packet.
pub record Ends {A : Type 0} (m : Run Reader A) (xs : List ℕ) (a : A) : Type 0 where
  pub at : (r : Reader) → Views r xs → (m r).0 ≡ ok a

module _ {A : Type 0} where
  pub Decodes-done : (a : A) → Decodes (done a) [] a
  unfolding done
  Decodes-done a = record { at = λ r ys v. (refl, v) }

  pub Ends-done : (a : A) → Ends (done a) [] a
  unfolding done
  Ends-done a = record { at = λ r v. refl }

  pub Decodes-value :
      {m : Run Reader A} {xs : List ℕ} {a b : A} → Decodes m xs a → a ≡ b → Decodes m xs b
  Decodes-value d e = rw (← e) d

  pub Decodes-checked :
      (n : ℕ) (m : Run Reader A) {xs : List ℕ} {a : A}
      → n ≤ length xs
      → Decodes m xs a
      → Decodes (check n >> m) xs a
  unfolding check ◌>>=◌
  Decodes-checked n m {xs} h d = record {
    at = λ r ys v.
        rw (ltb_ge (remaining r) n (omega (arith, Views-remaining v, length-append xs ys)))
          (d.at r ys v);
  }

module _ {A B : Type 0} (m : Run Reader A) (f : A → Run Reader B) {xs ys : List ℕ} {a : A}
    {b : B} where
  pub Decodes-bind : Decodes m xs a → Decodes (f a) ys b → Decodes (m >>= f) (xs ++ ys) b
  Decodes-bind d e = record {
    at = λ r zs v.
        let (got, v') = d.at r (ys ++ zs) (rw append_assoc at v) in
        rw (bind_ok m f got) (e.at (m r).1 zs v');
  }

  pub Ends-bind : Decodes m xs a → Ends (f a) ys b → Ends (m >>= f) (xs ++ ys) b
  Ends-bind d e = record {
    at = λ r v. let (got, v') = d.at r ys v in rw (bind_ok m f got) (e.at (m r).1 v');
  }

pub Decodes-next : (x : ℕ) → Decodes next_uint8 (x ∷ []) x
Decodes-next x = record {
  at = λ r ys v. rw (next_uint8_lem r x ys v) (refl, Views-advance r (x ∷ []) ys 1 v refl);
}

pub Ends-finish : Ends finish [] tt
unfolding finish fail_if
Ends-finish = record { at = λ r v. rw (ltb_ge r.pos r.len (omega (arith, v.count))) }

-- The byte `x`, and the rest of a block.
pub Decodes-byte :
    {A : Type 0} (x : ℕ) (f : ℕ → Run Reader A) {xs : List ℕ} {a : A}
    → Decodes (f x) xs a
    → Decodes (next_uint8 >>= f) (x ∷ xs) a
Decodes-byte x f d = Decodes-bind next_uint8 f (Decodes-next x) d

pub Decodes-uint8 : (x : ℕ) → Decodes get_uint8 (x ∷ []) x
unfolding get_uint8
Decodes-uint8 x = Decodes-checked 1 next_uint8 (omega arith) (Decodes-next x)

pub Decodes-uint16 : (v : ℕ) → v < 2 ^ 16 → Decodes get_uint16 (le 2 v) v
unfolding get_uint16
Decodes-uint16 v h =
    Decodes-value
      (Decodes-checked 2 _ (omega arith) (Decodes-byte _ _ (Decodes-byte _ _ (Decodes-done _))))
      (omega (arith, bit_or_shifted 8 (v % 256) (v / 256 % 256) (omega arith)))

-- One more byte `|`-ed on, above the low bits of `v`.
or_byte_1 : (v : ℕ) → bit_or (v % 256) (v / 256 % 256 * 2 ^ 8) ≡ v % 2 ^ 16
or_byte_1 v = omega (arith, bit_or_shifted 8 (v % 256) (v / 256 % 256) (omega arith))

or_byte_2 : (v : ℕ) → bit_or (v % 2 ^ 16) (v / 256 / 256 % 256 * 2 ^ 16) ≡ v % 2 ^ 24
or_byte_2 v = omega (arith, bit_or_shifted 16 (v % 2 ^ 16) (v / 256 / 256 % 256) (omega arith))

or_byte_3 : (v : ℕ) → bit_or (v % 2 ^ 24) (v / 256 / 256 / 256 % 256 * 2 ^ 24) ≡ v % 2 ^ 32
or_byte_3 v =
    omega (arith, bit_or_shifted 24 (v % 2 ^ 24) (v / 256 / 256 / 256 % 256) (omega arith))

or_byte_4 : (v : ℕ) → bit_or (v % 2 ^ 32) (v / 256 / 256 / 256 / 256 % 256 * 2 ^ 32) ≡ v % 2 ^ 40
or_byte_4 v =
    omega (arith, bit_or_shifted 32 (v % 2 ^ 32) (v / 256 / 256 / 256 / 256 % 256) (omega arith))

or_byte_5 :
    (v : ℕ) → bit_or (v % 2 ^ 40) (v / 256 / 256 / 256 / 256 / 256 % 256 * 2 ^ 40) ≡ v % 2 ^ 48
or_byte_5 v =
    omega
      (arith, bit_or_shifted 40 (v % 2 ^ 40) (v / 256 / 256 / 256 / 256 / 256 % 256) (omega arith))

or_byte_6 :
    (v : ℕ)
    → bit_or (v % 2 ^ 48) (v / 256 / 256 / 256 / 256 / 256 / 256 % 256 * 2 ^ 48) ≡ v % 2 ^ 56
or_byte_6 v = omega (
  arith,
  bit_or_shifted 48 (v % 2 ^ 48) (v / 256 / 256 / 256 / 256 / 256 / 256 % 256) (omega arith),
)

or_byte_7 :
    (v : ℕ)
    → bit_or (v % 2 ^ 56) (v / 256 / 256 / 256 / 256 / 256 / 256 / 256 % 256 * 2 ^ 56) ≡ v % 2 ^ 64
or_byte_7 v = omega (
  arith,
  bit_or_shifted 56 (v % 2 ^ 56) (v / 256 / 256 / 256 / 256 / 256 / 256 / 256 % 256) (omega arith),
)

pub Decodes-uint24 : (v : ℕ) → v < 2 ^ 24 → Decodes get_uint24 (le 3 v) v
unfolding get_uint24
Decodes-uint24 v h =
    Decodes-value
      (Decodes-checked 3 _ (omega arith)
        (Decodes-byte _ _ (Decodes-byte _ _ (Decodes-byte _ _ (Decodes-done _)))))
      (rw (or_byte_1 v, or_byte_2 v) (omega arith))

pub Decodes-uint32 : (v : ℕ) → v < 2 ^ 32 → Decodes get_uint32 (le 4 v) v
unfolding get_uint32
Decodes-uint32 v h =
    Decodes-value
      (Decodes-checked 4 _ (omega arith) (
        Decodes-byte _ _ (Decodes-byte _ _ (Decodes-byte _ _ (Decodes-byte _ _ (Decodes-done _))))))
      (rw (or_byte_1 v, or_byte_2 v, or_byte_3 v) (omega arith))

pub Decodes-uint64 : (v : ℕ) → v < 2 ^ 64 → Decodes get_uint64 (le 8 v) v
unfolding get_uint64
Decodes-uint64 v h =
    Decodes-value
      (Decodes-checked 8 _ (omega arith) (
        Decodes-byte _ _ (
          Decodes-byte _ _ (
            Decodes-byte _ _ (
              Decodes-byte _ _ (
                Decodes-byte _ _
                  (Decodes-byte _ _ (Decodes-byte _ _ (Decodes-byte _ _ (Decodes-done _))))))))))
      (rw
        (or_byte_1 v, or_byte_2 v, or_byte_3 v, or_byte_4 v, or_byte_5 v, or_byte_6 v, or_byte_7 v)
        (omega arith))

pub Decodes-float : (v : ℕ) → v < 2 ^ 32 → Decodes get_float (le 4 v) v
unfolding get_float
Decodes-float v h =
    Decodes-checked 4 _ (omega arith) (Decodes-bind _ _ (Decodes-uint32 v h) (Decodes-done v))

pub Decodes-double : (v : ℕ) → v < 2 ^ 64 → Decodes get_double (le 8 v) v
unfolding get_double
Decodes-double v h =
    Decodes-checked 8 _ (omega arith) (Decodes-bind _ _ (Decodes-uint64 v h) (Decodes-done v))

pub Ends-eof_buffer :
    {A : Type 0} (f : List ℕ → Run Reader A) {xs : List ℕ} {a : A}
    → Ends (f xs) [] a
    → Ends (get_eof_buffer >>= f) xs a
unfolding get_eof_buffer ◌>>=◌
Ends-eof_buffer f {xs} e = record {
  at = λ r v.
      rw
        (
          Views-remaining v,
          v.split,
          slice-take (length xs) xs v.after (omega arith),
          take_all (length xs) xs (omega arith),
        )
        (e.at (record r { pos = r.len }) (Views-end r xs v));
}

-- ===== src/Reader/Fields.antt =====
-- src/reader.c: the reader's fields of fixed and of given lengths, as accesses within a packet.
use trilogy.Prelude.{
  ℕ, zero, suc, ◌≤◌, ◌<◌, ◌≡◌, refl, sym, ap, inl, inr, arith, List, [], ◌∷◌, ◌++◌, length, take,
  drop, get_elem?-drop, length-take, lt→ltb, ltb_ge, bind-eq-ok, take-append-drop, ltb, Bool-cases,
  Option-cases, some,
}
use trilogy.Prelude.{Result, Run, ok, err, truncated_packet, and_then, ◌>>=◌, ◌>>◌}
use trilogy.Reader.{
  Reader, remaining, advance, check, next_uint8, get_uint8, get_uint16, get_uint24, get_uint32,
  get_uint64, get_float, get_double, lenenc_tail, get_lenenc, size_mod, slice, slice_at, get_buffer,
  copy_buffer, get_lenenc_buffer,
}
use trilogy.Reader.View.{Views, Views-remaining, Views-advance}
use trilogy.Reader.Stays.{
  Stays, IsSafe, Stays-here, IsSafe-done, IsSafe-fail, IsSafe-fail_if, IsSafe-bind, IsSafe-if,
}

-- Safe where `n` more bytes are known to be there.
record IsSafeFor {A : Type 0} (n : ℕ) (m : Run Reader A) : Type 0 where
  at : (r : Reader) (xs : List ℕ) → Views r xs → n ≤ length xs → Stays xs (m r)

module _ {A : Type 0} where
  IsSafe-checked : (n : ℕ) (m : Run Reader A) → IsSafeFor n m → IsSafe (check n >> m)
  unfolding check ◌>>=◌
  IsSafe-checked n m h = record {
    at = λ r xs v. elim (Bool-cases (ltb (remaining r) n)) [
      | inl short ↦ rw short (Stays-here (err truncated_packet) v (λ p. cc))
      | inr long ↦ rw long (h.at r xs v (ground (arith, Views-remaining v)))
    ];
  }

  IsSafeFor-zero : (m : Run Reader A) → IsSafe m → IsSafeFor 0 m
  IsSafeFor-zero m h = record { at = λ r xs v _. h.at r xs v }

pub next_uint8_lem :
    (r : Reader) (x : ℕ) (xs : List ℕ) → Views r (x ∷ xs) → next_uint8 r ≡ (ok x, advance r 1)
unfolding next_uint8
next_uint8_lem r x xs v = rw (get_elem?-drop r.pos r.buff v.split)

module _ {A : Type 0} where
  pub Stays-past : (x : ℕ) {xs : List ℕ} {o : Result A × Reader} → Stays xs o → Stays (x ∷ xs) o
  Stays-past x s = record {
    taken = x ∷ s.taken;
    rest = s.rest;
    split = ap (◌∷◌ x) s.split;
    views = s.views;
    no_fault = s.no_fault;
  }

  IsSafeFor-next :
      (n : ℕ) (f : ℕ → Run Reader A)
      → ((a : ℕ) → IsSafeFor n (f a))
      → IsSafeFor (suc n) (next_uint8 >>= f)
  unfolding ◌>>=◌
  IsSafeFor-next n f h = record { at = go }
    where
      go :
          (r : Reader) (xs : List ℕ)
          → Views r xs
          → suc n ≤ length xs
          → Stays xs (and_then f (next_uint8 r).0 (next_uint8 r).1)
      go r [] v enough = absurd (omega arith)
      go r (x ∷ xs) v enough = rw (next_uint8_lem r x xs v) (
          Stays-past x
            ((h x).at (advance r 1) xs (Views-advance r (x ∷ []) xs 1 v refl) (omega arith)))

next_uint8-IsSafeFor : IsSafeFor 1 next_uint8
next_uint8-IsSafeFor = record { at = go }
  where
    go : (r : Reader) (xs : List ℕ) → Views r xs → 1 ≤ length xs → Stays xs (next_uint8 r)
    go r [] v enough = absurd (omega arith)
    go r (x ∷ xs) v enough =
        rw (next_uint8_lem r x xs v)
          (Stays-past x (Stays-here (ok x) (Views-advance r (x ∷ []) xs 1 v refl) (λ e. cc)))

ruleset fixed_rules = (
  IsSafe-checked, IsSafeFor-next, next_uint8-IsSafeFor, IsSafeFor-zero, IsSafe-done, IsSafe-fail,
  IsSafe-bind, IsSafe-if,
)

pub get_uint8-IsSafe : IsSafe get_uint8
unfolding get_uint8
get_uint8-IsSafe = search fixed_rules

pub get_uint16-IsSafe : IsSafe get_uint16
unfolding get_uint16
get_uint16-IsSafe = search fixed_rules

pub get_uint24-IsSafe : IsSafe get_uint24
unfolding get_uint24
get_uint24-IsSafe = search fixed_rules depth 12

pub get_uint32-IsSafe : IsSafe get_uint32
unfolding get_uint32
get_uint32-IsSafe = search fixed_rules depth 12

pub get_uint64-IsSafe : IsSafe get_uint64
unfolding get_uint64
get_uint64-IsSafe = search fixed_rules depth 12

IsSafeFor-safe : {A : Type 0} (n : ℕ) (m : Run Reader A) → IsSafe m → IsSafeFor n m
IsSafeFor-safe n m h = record { at = λ r xs v _. h.at r xs v }

pub get_float-IsSafe : IsSafe get_float
unfolding get_float
get_float-IsSafe = search (fixed_rules, IsSafeFor-safe, get_uint32-IsSafe)

pub get_double-IsSafe : IsSafe get_double
unfolding get_double
get_double-IsSafe = search (fixed_rules, IsSafeFor-safe, get_uint64-IsSafe)

lenenc_tail-IsSafe : (leader : ℕ) → IsSafe (lenenc_tail leader)
unfolding lenenc_tail
lenenc_tail-IsSafe leader =
    search (fixed_rules, get_uint16-IsSafe, get_uint24-IsSafe, get_uint64-IsSafe)

pub get_lenenc-IsSafe : IsSafe get_lenenc
unfolding get_lenenc
get_lenenc-IsSafe = search (fixed_rules, lenenc_tail-IsSafe)

-- A slice that lies within the packet.
pub slice-take : (n : ℕ) (xs ys : List ℕ) → n ≤ length xs → slice n (xs ++ ys) ≡ some (take n xs)
unfolding slice
slice-take zero xs ys h = refl
slice-take (suc n) [] ys h = absurd (omega arith)
slice-take (suc n) (x ∷ xs) ys h = rw (slice-take n xs ys (omega arith))

pub slice_at_lem :
    (n : ℕ) (r : Reader) (xs : List ℕ)
    → Views r xs
    → n ≤ length xs
    → slice_at n r ≡ (ok (take n xs), advance r n)
unfolding slice_at
slice_at_lem n r xs v h = rw (v.split, slice-take n xs v.after h)

pub Views-advance_take :
    (n : ℕ) (r : Reader) (xs : List ℕ)
    → Views r xs
    → n ≤ length xs
    → Views (advance r n) (drop n xs)
Views-advance_take n r xs v h =
    Views-advance r (take n xs) (drop n xs) n (rw (take-append-drop n xs) v)
      (omega (arith, length-take n xs))

slice_at-IsSafeFor : (n : ℕ) → IsSafeFor n (slice_at n)
slice_at-IsSafeFor n = record {
  at = λ r xs v h. rw (slice_at_lem n r xs v h) (record {
    taken = take n xs;
    rest = drop n xs;
    split = sym (take-append-drop n xs);
    views = Views-advance_take n r xs v h;
    no_fault = λ e. cc;
  });
}

check-IsSafe : (n : ℕ) → IsSafe (check n)
unfolding check
check-IsSafe n = record {
  at = λ r xs v. (IsSafe-fail_if (ltb (remaining r) n) truncated_packet).at r xs v;
}

pub get_buffer-IsSafe : (n : ℕ) → IsSafe (get_buffer n)
unfolding get_buffer
get_buffer-IsSafe n = search (IsSafe-checked, slice_at-IsSafeFor)

pub copy_buffer-IsSafe : (n : ℕ) → IsSafe (copy_buffer n)
unfolding copy_buffer
copy_buffer-IsSafe n = search (IsSafe-checked, slice_at-IsSafeFor)

pub get_lenenc_buffer-IsSafe : IsSafe get_lenenc_buffer
unfolding get_lenenc_buffer
get_lenenc_buffer-IsSafe = search (IsSafe-bind, check-IsSafe, get_lenenc-IsSafe, get_buffer-IsSafe)

length-slice : (n : ℕ) (xs : List ℕ) {d : List ℕ} → slice n xs ≡ some d → length d ≡ n
unfolding slice
length-slice zero xs e = ground arith
length-slice (suc n) [] e = cc
length-slice (suc n) (x ∷ xs) e = elim (Option-cases (slice n xs)) [
  | inl short ↦ ground arith
  | inr (ys, got) ↦ ground (arith, length-slice n xs got)
]

pub length-get_buffer_eq :
    (n : ℕ) (r : Reader) (d : List ℕ) → (get_buffer n r).0 ≡ ok d → length d ≡ n
unfolding get_buffer check slice_at ◌>>=◌
length-get_buffer_eq n r d e = elim (Option-cases (slice n (drop r.pos r.buff))) [
  | inl short ↦ ground arith
  | inr (ys, got) ↦ ground (arith, length-slice n (drop r.pos r.buff) got)
]

-- A stretch that the reader hands out is shorter than the address space.
pub length-get_buffer :
    (n : ℕ) (r : Reader) (d : List ℕ) → (get_buffer n r).0 ≡ ok d → length d < size_mod
unfolding get_buffer check slice_at ◌>>=◌
length-get_buffer n r d e = elim (Option-cases (slice n (drop r.pos r.buff))) [
  | inl short ↦ ground arith
  | inr (ys, got) ↦ ground (arith, length-slice n (drop r.pos r.buff) got)
]

pub length-get_lenenc_buffer :
    (r : Reader) (d : List ℕ) → (get_lenenc_buffer r).0 ≡ ok d → length d < size_mod
unfolding get_lenenc_buffer
length-get_lenenc_buffer r d e =
    let (n, _, e') = bind-eq-ok get_lenenc _ e in
    let (_, _, e'') = bind-eq-ok (check n) _ e' in length-get_buffer n _ d e''

pub get_uint8_nil : (r : Reader) → Views r [] → get_uint8 r ≡ (err truncated_packet, r)
unfolding get_uint8 check ◌>>=◌
get_uint8_nil r v = rw (lt→ltb (remaining r) 1 (omega (arith, Views-remaining v)))

pub get_uint8_cons :
    (r : Reader) (x : ℕ) (xs : List ℕ) → Views r (x ∷ xs) → get_uint8 r ≡ (ok x, advance r 1)
unfolding get_uint8 check ◌>>=◌
get_uint8_cons r x xs v =
    rw (ltb_ge (remaining r) 1 (omega (arith, Views-remaining v))) (next_uint8_lem r x xs v)

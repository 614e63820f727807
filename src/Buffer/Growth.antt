-- ===== src/Buffer/Growth.antt =====
-- src/buffer.c: the loop in trilogy_buffer_expand, what it reaches, and what an expansion then gives.
use trilogy.Prelude.{
  ℕ, zero, suc, ◌+◌, ◌*◌, ◌%◌, ◌^◌, ◌≤◌, ◌<◌, ◌≡◌, ◌≢◌, refl, ap, arith, ltb, Bool, true,
  Bool-cases, inl, inr, length, Rc, Result, ok, err, fault,
}
use native.Mathlib.Nat.{pow-suc}
use trilogy.Buffer.{Buffer, grow, grow_fuel, expand}

doubled_pow : (c k : ℕ) → c * 2 ^ suc k ≡ c * 2 * 2 ^ k
doubled_pow c k = omega (arith, ap (λ (t : ℕ). c * t) (pow-suc 2 k))

-- With enough fuel the loop ends: at a capacity that suffices, or by its overflow test.
pub grow-ne-fault :
    (fuel needed c : ℕ) → needed < 2 ^ 64 → 2 ^ 64 ≤ c * 2 ^ fuel → grow (suc fuel) needed c ≢ fault
unfolding grow
grow-ne-fault zero needed c h enough = ground arith
grow-ne-fault (suc fuel) needed c h enough =
    let rest = grow-ne-fault fuel needed (c * 2) h (omega (arith, doubled_pow c fuel)) in
    ground (arith, rest)

-- What the loop reaches holds what is needed, and is no less than the capacity before.
pub grow-le :
    (fuel needed c new_cap : ℕ)
    → grow fuel needed c ≡ ok new_cap
    → (needed ≤ new_cap) × (c ≤ new_cap)
unfolding grow
grow-le zero needed c new_cap e = cc
grow-le (suc fuel) needed c new_cap e = ground (arith, grow-le fuel needed (c * 2) new_cap)

-- Below half of the address space the overflow test never stops it.
grow-ne-err : (fuel needed c : ℕ) (e : Rc) → needed ≤ 2 ^ 63 → grow fuel needed c ≢ err e
unfolding grow
grow-ne-err zero needed c e h = ground arith
grow-ne-err (suc fuel) needed c e h = ground (arith, grow-ne-err fuel needed (c * 2) e h)

-- From any capacity but 0 a capacity is found for up to half of the address space.
pub grow_total :
    (needed c : ℕ)
    → 0 < c
    → needed ≤ 2 ^ 63
    → (new_cap : ℕ) × (grow grow_fuel needed c ≡ ok new_cap) × (needed ≤ new_cap) × (c ≤ new_cap)
grow_total needed c pos h = go (grow grow_fuel needed c) refl
  where
    go :
        (o : Result ℕ)
        → grow grow_fuel needed c ≡ o
        → (new_cap : ℕ) × (grow grow_fuel needed c ≡ ok new_cap)
          × (needed ≤ new_cap)
          × (c ≤ new_cap)
    go (ok n) e = let (p, q) = grow-le grow_fuel needed c n e in (n, e, p, q)
    go (err x) e = absurd (grow-ne-err grow_fuel needed c x h e)
    go fault e = absurd (grow-ne-fault 64 needed c (omega arith) (omega arith) e)

module _ (grants : ℕ → Bool) (granted : (n : ℕ) → grants n ≡ true) where
  -- Where memory is granted, a buffer that is allocated and whose capacity is not 0 finds room for `n` more bytes, and
  -- nothing that is stored changes. What is stored and the `n` bytes are half of the address space at most.
  pub expand_total :
      (n : ℕ) (b : Buffer)
      → b.allocated ≡ true
      → 0 < b.cap
      → length b.buff + n ≤ 2 ^ 63
      → (c : ℕ) × (expand grants n b ≡ (ok tt, record b { cap = c }))
        × (length b.buff + n ≤ c)
        × (0 < c)
  unfolding expand
  expand_total n b live pos small =
      let total : (length b.buff + n) % 2 ^ 64 ≡ length b.buff + n = omega arith in
      elim (Bool-cases (ltb b.cap (length b.buff + n))) [
        | inl full ↦
            let (c, got, room, more) = grow_total (length b.buff + n) b.cap pos small in
            (c, rw (total, full, live, got, granted c), room, omega arith)
        | inr fits ↦ (b.cap, rw (total, fits), ground arith, pos)
      ]

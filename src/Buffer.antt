-- ===== src/Buffer.antt =====
-- src/buffer.c and inc/trilogy/buffer.h: a growing byte buffer. `buff` is the first `len` bytes of the
-- allocated memory, so that `len` is its length; `allocated` tells whether the pointer is not NULL. What the
-- memory holds behind `len` is not modelled. A store behind `cap` is a fault.
pub mod Growth
use trilogy.Prelude.{
  ℕ, zero, suc, ◌+◌, ◌-◌, ◌*◌, ◌/◌, ◌%◌, ◌^◌, ltb, leb, Bool, true, false, if◌then◌else◌, not, List,
  [], ◌∷◌, ◌++◌, length, Result, Run, ok, err, fault, ◌>>=◌, ◌>>◌, syserr, mem_error, type_overflow,
}

pub record Buffer : Type 0 where
  pub allocated : Bool
  pub cap : ℕ
  pub buff : List ℕ

abbrev pub size_max : ℕ
size_max = 2 ^ 64 - 1

abbrev pub expand_multiplier : ℕ
expand_multiplier = 2

-- The loop that doubles `new_cap`. Out of fuel is a fault.
unfoldable pub grow : ℕ → ℕ → ℕ → Result ℕ
grow zero needed new_cap = fault
grow (suc fuel) needed new_cap =
    let doubled = grow fuel needed (new_cap * expand_multiplier) in
    if ltb new_cap needed
    then (if ltb (size_max / expand_multiplier) new_cap then err type_overflow else doubled)
    else ok new_cap

-- 64 doublings bring any capacity but 0 past the largest size_t.
abbrev pub grow_fuel : ℕ
grow_fuel = 65

-- `buff[len++] = …` and memcpy to `buff + len`, with the new `len`.
unfoldable pub store : List ℕ → Run Buffer (Unit {0})
store xs b =
    if leb (length b.buff + length xs) b.cap
    then (ok tt, record b { buff = b.buff ++ xs })
    else (fault, b)

-- `grants n`: the system has a block of `n` bytes for malloc or realloc.
module _ (grants : ℕ → Bool) where
  unfoldable pub buffer_init : ℕ → Result (Unit {0}) × Buffer
  buffer_init initial_capacity = (
    if grants initial_capacity then ok tt else err syserr,
    record { allocated = grants initial_capacity; cap = initial_capacity; buff = [] },
  )

  reallocate : Result ℕ → Run Buffer (Unit {0})
  reallocate (ok new_cap) b =
      if grants new_cap then (ok tt, record b { cap = new_cap }) else (err syserr, b)
  reallocate (err e) b = (err e, b)
  reallocate fault b = (fault, b)

  unfoldable pub expand : ℕ → Run Buffer (Unit {0})
  unfolding reallocate
  expand needed b =
      let total = (length b.buff + needed) % 2 ^ 64 in
      if ltb b.cap total
      then (if b.allocated then reallocate (grow grow_fuel total b.cap) b else (err mem_error, b))
      else (ok tt, b)

  unfoldable pub putc : ℕ → Run Buffer (Unit {0})
  putc c = do expand 1; store (c ∷ [])

  unfoldable pub write : List ℕ → Run Buffer (Unit {0})
  write xs = do expand (length xs); store xs

unfoldable pub buffer_free : Buffer → Buffer
buffer_free b = if b.allocated then record { allocated = false; cap = 0; buff = [] } else b

-- ===== src/Reader/View.antt =====
-- A reader seen as the list of the bytes that are still to be read.
use trilogy.Prelude.{
  ℕ, ◌+◌, ◌%◌, ◌<◌, ◌≡◌, sym, ap, ◌∙◌, arith, List, [], ◌++◌, length, drop, length-append,
  append-nil, append_assoc, drop_past,
}
use trilogy.Reader.{Reader, size_mod, remaining, advance, reader_init}

-- `xs` is what lies between `pos` and `len`; the memory may go on with `after`.
pub record Views (r : Reader) (xs : List ℕ) : Type 0 where
  pub after : List ℕ
  pub split : drop r.pos r.buff ≡ xs ++ after
  pub count : r.pos + length xs ≡ r.len
  pub bound : r.len < size_mod

pub Views-remaining : {r : Reader} {xs : List ℕ} → Views r xs → remaining r ≡ length xs
Views-remaining v = omega arith

-- Reading on: the cursor moves over `xs`.
pub Views-advance :
    (r : Reader) (xs ys : List ℕ) (n : ℕ)
    → Views r (xs ++ ys)
    → n ≡ length xs
    → Views (advance r n) ys
Views-advance r xs ys n v e = record {
  after = v.after;
  split =
      ap (λ m. drop m r.buff) moved
      ∙ drop_past r.pos r.buff xs (ys ++ v.after) (v.split ∙ append_assoc xs ys v.after);
  count = omega (arith, length-append xs ys);
  bound = v.bound;
}
  where
    moved : (r.pos + n) % size_mod ≡ r.pos + length xs
    moved = omega (arith, length-append xs ys)

-- A packet of `len` bytes, in memory, seen from its start.
pub Views-reader_init :
    (buff : List ℕ) → length buff < size_mod → Views (reader_init buff (length buff)) buff
Views-reader_init buff h = record {
  after = [];
  split = sym (append-nil buff);
  count = omega arith;
  bound = h;
}

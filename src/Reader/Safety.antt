-- ===== src/Reader/Safety.antt =====
-- Memory safety of the reader: strings, the rest of a packet and its end; and the rules for all of it.
use trilogy.Prelude.{
  ℕ, zero, suc, ◌+◌, ◌≤◌, ◌<◌, ◌≡◌, refl, sym, ap, ◌∙◌, arith, List, [], ◌∷◌, length, take, drop,
  append-nil, take-append-drop, drop_past, ltb,
}
use trilogy.Prelude.{
  ◌++◌, ◌≢◌, Bool, true, false, ◌==◌, if◌then◌else◌, Result, ok, fault, Run, err, truncated_packet,
  extra_data_in_packet, and_then, ◌>>=◌,
}
use trilogy.Reader.{
  Reader, remaining, advance, get_uint8, string_at, memchr_zero, get_string, get_eof_buffer, finish,
}
use trilogy.Reader.Fields.{slice-take}
use trilogy.Reader.View.{Views, Views-remaining, Views-advance}
pub use trilogy.Reader.Stays.{
  Stays, IsSafe, Stays-here, IsSafe-done, IsSafe-fail_if, IsSafeBelow, IsSafe-bind_post,
  IsSafe-bind, IsSafeBelow-bind_post, IsSafeBelow-bind, IsSafe-if, IsSafe→IsSafeBelow,
  IsSafeBelow-if,
}
use trilogy.Reader.Stays.{IsSafe-fail}
pub use trilogy.Reader.Fields.{
  next_uint8_lem, get_uint8-IsSafe, slice_at_lem, get_buffer-IsSafe, get_lenenc_buffer-IsSafe,
  length-get_buffer_eq, length-get_lenenc_buffer,
}
use trilogy.Reader.Fields.{
  Stays-past, get_uint16-IsSafe, get_uint24-IsSafe, get_uint32-IsSafe, get_uint64-IsSafe,
  get_float-IsSafe, get_double-IsSafe, get_lenenc-IsSafe, slice-take, Views-advance_take,
  copy_buffer-IsSafe, length-get_buffer, get_uint8_nil, get_uint8_cons,
}

-- A pass of a loop that takes a byte first.
pub IsSafeBelow-step :
    {A : Type 0} (n : ℕ) (f : ℕ → Run Reader A)
    → ((a : ℕ) → IsSafeBelow n (f a))
    → IsSafeBelow (suc n) (get_uint8 >>= f)
unfolding ◌>>=◌
IsSafeBelow-step n f h = record { at = go }
  where
    go :
        (r : Reader) (xs : List ℕ)
        → Views r xs
        → length xs < suc n
        → Stays xs (and_then f (get_uint8 r).0 (get_uint8 r).1)
    go r [] v below = rw (get_uint8_nil r v) (Stays-here (err truncated_packet) v (λ p. cc))
    go r (x ∷ xs) v below = rw (get_uint8_cons r x xs v) (
        Stays-past x
          ((h x).at (advance r 1) xs (Views-advance r (x ∷ []) xs 1 v refl) (omega arith)))

-- Where the first zero is, it is within the bytes that were searched.
pub memchr_zero-lt : (n : ℕ) (xs : List ℕ) (k : ℕ) → memchr_zero n xs ≡ ok k → k < n
unfolding memchr_zero
memchr_zero-lt zero xs k e = cc
memchr_zero-lt (suc n) [] k e = cc
memchr_zero-lt (suc n) (x ∷ xs) k e = go (x == 0) (memchr_zero n xs) (memchr_zero-lt n xs) e
  where
    go :
        (b : Bool) (o : Result ℕ)
        → ((j : ℕ) → o ≡ ok j → j < n)
        → (if b then ok 0 else elim o [ ok j ↦ ok (suc j) | err c ↦ err c | fault ↦ fault ]) ≡ ok k
        → k < suc n
    go true o below h = (let same : 0 ≡ k = cc in omega arith)
    go false (ok j) below h = (let same : suc j ≡ k = cc in omega (arith, below j refl))
    go false (err c) below h = cc
    go false fault below h = cc

-- The search stays in memory that has the bytes to be searched.
memchr_zero-ne-fault : (xs ys : List ℕ) → memchr_zero (length xs) (xs ++ ys) ≢ fault
unfolding memchr_zero
memchr_zero-ne-fault [] ys e = cc
memchr_zero-ne-fault (x ∷ xs) ys e =
    go (x == 0) (memchr_zero (length xs) (xs ++ ys)) (memchr_zero-ne-fault xs ys) e
  where
    go :
        (b : Bool) (o : Result ℕ)
        → o ≢ fault
        → (if b then ok 0 else elim o [ ok j ↦ ok (suc j) | err c ↦ err c | fault ↦ fault ]) ≢ fault
    go true o safe h = cc
    go false (ok j) safe h = cc
    go false (err c) safe h = cc
    go false fault safe h = safe refl

pub get_string-IsSafe : IsSafe get_string
unfolding get_string
get_string-IsSafe = record {
  at = λ r xs v. go r xs v (memchr_zero (remaining r) (drop r.pos r.buff)) refl;
}
  where
    go :
        (r : Reader) (xs : List ℕ)
        → Views r xs
        → (o : Result ℕ) → memchr_zero (remaining r) (drop r.pos r.buff) ≡ o
        → Stays xs (string_at o r)
    go r xs v (err c) e = Stays-here (err c) v (λ p. cc)
    go r xs v fault e = absurd (
        memchr_zero-ne-fault xs v.after (
          sym (
            ap (λ n. memchr_zero n (drop r.pos r.buff)) (Views-remaining v)
            ∙ ap (memchr_zero (length xs)) v.split)
          ∙ e))
    go r xs v (ok n) e =
        let h : n + 1 ≤ length xs = omega (arith, memchr_zero-lt _ _ n e, Views-remaining v) in
        record {
          taken = take (n + 1) xs;
          rest = drop (n + 1) xs;
          split = sym (take-append-drop (n + 1) xs);
          views = Views-advance_take (n + 1) r xs v h;
          no_fault = λ p. cc;
        }

pub Views-end : (r : Reader) (xs : List ℕ) → Views r xs → Views (record r { pos = r.len }) []
Views-end r xs v = record {
  after = v.after;
  split = ap (λ m. drop m r.buff) (sym v.count) ∙ drop_past r.pos r.buff xs v.after v.split;
  count = omega arith;
  bound = v.bound;
}

pub get_eof_buffer-IsSafe : IsSafe get_eof_buffer
unfolding get_eof_buffer
get_eof_buffer-IsSafe = record {
  at = λ r xs v.
      rw (Views-remaining v, v.split, slice-take (length xs) xs v.after (omega arith))
        (record {
          taken = xs;
          rest = [];
          split = sym (append-nil xs);
          views = Views-end r xs v;
          no_fault = λ p. cc;
        });
}

pub finish-IsSafe : IsSafe finish
unfolding finish
finish-IsSafe = record {
  at = λ r xs v. (IsSafe-fail_if (ltb r.pos r.len) extra_data_in_packet).at r xs v;
}

pub ruleset safe_rules = (
  IsSafe-done, IsSafe-fail, IsSafe-fail_if, IsSafe-bind, IsSafe-if, get_uint8-IsSafe,
  get_uint16-IsSafe, get_uint24-IsSafe, get_uint32-IsSafe, get_uint64-IsSafe, get_float-IsSafe,
  get_double-IsSafe, get_lenenc-IsSafe, get_buffer-IsSafe, copy_buffer-IsSafe,
  get_lenenc_buffer-IsSafe, get_string-IsSafe, get_eof_buffer-IsSafe, finish-IsSafe,
)

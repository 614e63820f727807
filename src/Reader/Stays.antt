-- ===== src/Reader/Stays.antt =====
-- Parsers that stay within a packet: one rule for each way to build one.
use trilogy.Prelude.{
  ℕ, ◌<◌, ◌≡◌, ◌≢◌, refl, sym, ap, ◌∙◌, arith, Bool, true, false, List, [], ◌++◌, length,
  append_assoc, length-append, if◌then◌else◌,
}
use trilogy.Prelude.{Rc, Result, Run, ok, err, fault, and_then, done, fail, fail_if, ◌>>=◌}
use trilogy.Reader.{Reader}
use trilogy.Reader.View.{Views}

-- An outcome with no access out of bounds, whose cursor has moved on within the packet.
pub record Stays {A : Type 0} (xs : List ℕ) (o : Result A × Reader) : Type 0 where
  pub taken : List ℕ
  pub rest : List ℕ
  pub split : xs ≡ taken ++ rest
  pub views : Views o.1 rest
  pub no_fault : o.0 ≢ fault

pub record IsSafe {A : Type 0} (m : Run Reader A) : Type 0 where
  pub at : (r : Reader) (xs : List ℕ) → Views r xs → Stays xs (m r)

pub Stays-here :
    {A : Type 0} {r : Reader} {xs : List ℕ} (o : Result A)
    → Views r xs
    → o ≢ fault
    → Stays xs (o, r)
Stays-here {xs} o v h = record { taken = []; rest = xs; split = refl; views = v; no_fault = h }

pub IsSafe-done : {A : Type 0} (a : A) → IsSafe (done a)
unfolding done
IsSafe-done a = record { at = λ r xs v. Stays-here (ok a) v (λ e. cc) }

pub IsSafe-fail : {A : Type 0} (e : Rc) → IsSafe (fail {A = A} e)
unfolding fail
IsSafe-fail e = record { at = λ r xs v. Stays-here (err e) v (λ p. cc) }

pub IsSafe-fail_if : (b : Bool) (e : Rc) → IsSafe (fail_if b e)
unfolding fail_if
IsSafe-fail_if true e = record { at = λ r xs v. Stays-here (err e) v (λ p. cc) }
IsSafe-fail_if false e = record { at = λ r xs v. Stays-here (ok tt) v (λ p. cc) }

-- Safe on fewer than `n` bytes: what a loop with the fuel `n` is.
pub record IsSafeBelow {A : Type 0} (n : ℕ) (m : Run Reader A) : Type 0 where
  pub at : (r : Reader) (xs : List ℕ) → Views r xs → length xs < n → Stays xs (m r)

module _ {A B : Type 0} where
  -- The rest of a block, after a call that stayed within the packet.
  Stays-and_then :
      (f : A → Run Reader B) (o : Result A) (r : Reader) {xs : List ℕ} (s : Stays xs (o, r))
      → ((a : A) → o ≡ ok a → Stays s.rest (f a r))
      → Stays xs (and_then f o r)
  Stays-and_then f (ok a) r s hf =
      let t = hf a refl in
      record {
        taken = s.taken ++ t.taken;
        rest = t.rest;
        split = s.split ∙ ap (◌++◌ s.taken) t.split ∙ sym (append_assoc s.taken t.taken t.rest);
        views = t.views;
        no_fault = t.no_fault;
      }
  Stays-and_then f (err e) r s hf = record {
    taken = s.taken;
    rest = s.rest;
    split = s.split;
    views = s.views;
    no_fault = λ p. cc;
  }
  Stays-and_then f fault r s hf = absurd (s.no_fault refl)

  module _ (m : Run Reader A) (f : A → Run Reader B) where
    -- The rest may use what is known of the result.
    pub IsSafe-bind_post :
        (P : A → Type 0)
        → IsSafe m
        → ((r : Reader) (a : A) → (m r).0 ≡ ok a → P a)
        → ((a : A) → P a → IsSafe (f a))
        → IsSafe (m >>= f)
    unfolding ◌>>=◌
    IsSafe-bind_post P hm post hf = record {
      at = λ r xs v.
          let s = hm.at r xs v in
          Stays-and_then f (m r).0 (m r).1 s (λ a e. (hf a (post r a e)).at (m r).1 s.rest s.views);
    }

    pub IsSafe-bind : IsSafe m → ((a : A) → IsSafe (f a)) → IsSafe (m >>= f)
    IsSafe-bind hm hf = IsSafe-bind_post (λ a. Unit) hm (λ r a e. tt) (λ a _. hf a)

    pub IsSafeBelow-bind_post :
        (P : A → Type 0) (n : ℕ)
        → IsSafe m
        → ((r : Reader) (a : A) → (m r).0 ≡ ok a → P a)
        → ((a : A) → P a → IsSafeBelow n (f a))
        → IsSafeBelow n (m >>= f)
    unfolding ◌>>=◌
    IsSafeBelow-bind_post P n hm post hf = record {
      at = λ r xs v below.
          let s = hm.at r xs v in
          let shorter : length s.rest < n =
            omega (arith, ap length s.split, length-append s.taken s.rest) in
          Stays-and_then f (m r).0 (m r).1 s
            (λ a e. (hf a (post r a e)).at (m r).1 s.rest s.views shorter);
    }

    pub IsSafeBelow-bind :
        (n : ℕ) → IsSafe m → ((a : A) → IsSafeBelow n (f a)) → IsSafeBelow n (m >>= f)
    IsSafeBelow-bind n hm hf = IsSafeBelow-bind_post (λ a. Unit) n hm (λ r a e. tt) (λ a _. hf a)

pub IsSafe-if :
    {A : Type 0} (b : Bool) (m n : Run Reader A) → IsSafe m → IsSafe n → IsSafe (if b then m else n)
IsSafe-if true m n hm hn = hm
IsSafe-if false m n hm hn = hn

pub IsSafe→IsSafeBelow : {A : Type 0} {m : Run Reader A} (n : ℕ) → IsSafe m → IsSafeBelow n m
IsSafe→IsSafeBelow n h = record { at = λ r xs v _. h.at r xs v }

pub IsSafeBelow-if :
    {A : Type 0} (b : Bool) (m n : Run Reader A) (k : ℕ)
    → IsSafeBelow k m
    → IsSafeBelow k n
    → IsSafeBelow k (if b then m else n)
IsSafeBelow-if true m n k hm hn = hm
IsSafeBelow-if false m n k hm hn = hn

-- ===== src/Reader/Breaks.antt =====
-- What the reader makes of bytes that end too early: one rule for each way to build a parser.
use trilogy.Prelude.{
  ℕ, ◌<◌, ◌≡◌, refl, ap, arith, lt→ltb, List, ◌++◌, length, Rc, Run, err, fail_if, ◌>>=◌, bind_ok,
  bind_err, truncated_packet,
}
use trilogy.Reader.{Reader, remaining, check}
use trilogy.Reader.View.{Views, Views-remaining}
use trilogy.Reader.Decode.{Decodes}
use mathlib.Core.Path.{subst}

-- `m` fails with `e` where the bytes `xs` are the rest of the packet.
pub record Breaks {A : Type 0} (m : Run Reader A) (xs : List ℕ) (e : Rc) : Type 0 where
  pub at : (r : Reader) → Views r xs → (m r).0 ≡ err e

pub Breaks-bytes :
    {A : Type 0} {m : Run Reader A} {xs ys : List ℕ} {e : Rc}
    → Breaks m xs e
    → xs ≡ ys
    → Breaks m ys e
Breaks-bytes {m} {e} b h = subst (λ l. Breaks m l e) h b

module _ {A B : Type 0} (m : Run Reader A) (f : A → Run Reader B) where
  -- Behind fields that are there.
  pub Breaks-bind :
      {xs ys : List ℕ} {a : A} {e : Rc}
      → Decodes m xs a
      → Breaks (f a) ys e
      → Breaks (m >>= f) (xs ++ ys) e
  Breaks-bind {ys} d b = record {
    at = λ r v. let (got, v') = d.at r ys v in rw (bind_ok m f got) (b.at (m r).1 v');
  }

  pub Breaks-first : {xs : List ℕ} {e : Rc} → Breaks m xs e → Breaks (m >>= f) xs e
  Breaks-first b = record { at = λ r v. ap (λ o. o.0) (bind_err m f (b.at r v)) }

-- CHECK where fewer bytes are left.
pub Breaks-check : (n : ℕ) (xs : List ℕ) → length xs < n → Breaks (check n) xs truncated_packet
unfolding check fail_if
Breaks-check n xs h = record {
  at = λ r v. rw (lt→ltb (remaining r) n (omega (arith, Views-remaining v, h))) refl;
}

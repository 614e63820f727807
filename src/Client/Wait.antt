-- ===== src/Client/Wait.antt =====
-- src/blocking.c and src/client.c: the loops around TRILOGY_AGAIN.
use trilogy.Prelude.{
  ℕ, zero, suc, Bool, true, false, if◌then◌else◌, Result, Run, ◌≡◌, ap, ◌∙◌, ok, err, fault, ◌>>◌,
  again,
}

unfoldable pub is_again : {A : Type 0} → Result A → Bool
is_again (ok a) = false
is_again (err again) = true
is_again (err e) = false
is_again fault = false

-- `while (1)`: a call that is made anew, behind a wait, as long as it returns TRILOGY_AGAIN. Out of rounds is a fault.
unfoldable pub retry : {S A : Type 0} → ℕ → Run S (Unit {0}) → Run S A → Run S A
retry zero wait m s = (fault, s)
retry (suc rounds) wait m s =
    let rest = (wait >> retry rounds wait m) (m s).1 in if is_again (m s).0 then rest else m s

-- The first call, and where it returns TRILOGY_AGAIN a wait and the other call, again and again.
unfoldable pub pump : {S A : Type 0} → ℕ → Run S (Unit {0}) → Run S A → Run S A → Run S A
pump rounds wait first m s =
    let rest = (wait >> retry rounds wait m) (first s).1 in
    if is_again (first s).0 then rest else first s

-- A round that ends the loop, and one that goes on.
module _ {S A : Type 0} (rounds : ℕ) (wait : Run S (Unit {0})) (m : Run S A) {s : S} where
  pub retry_stop :
      {r : Result A × S} → m s ≡ r → is_again r.0 ≡ false → retry (suc rounds) wait m s ≡ r
  unfolding retry
  retry_stop {r} e h =
      ap (λ r. if is_again r.0 then (wait >> retry rounds wait m) r.1 else r) e
      ∙ ap (λ b. if b then (wait >> retry rounds wait m) r.1 else r) h

  pub retry_again :
      {t : S} → m s ≡ (err again, t) → retry (suc rounds) wait m s ≡ (wait >> retry rounds wait m) t
  unfolding retry is_again
  retry_again e = ap (λ r. if is_again r.0 then (wait >> retry rounds wait m) r.1 else r) e

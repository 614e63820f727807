-- ===== src/Prelude/Status.antt =====
-- Code that returns an int status, fills in a result and changes a state: `Run S A`.
-- A status is TRILOGY_OK, with the result, or one of the negative codes of inc/trilogy/error.h.
use mathlib.Core.Path.{◌≡◌, refl}
use mathlib.Core.Bool.{Bool, true, false}

-- TRILOGY_ERROR_CODES without TRILOGY_OK, in the order of their numbers, -1 to -24.
pub data Rc : Type 0 where
  generic eof syserr unexpected_packet truncated_packet protocol_violation : Rc
  auth_plugin_too_long extra_data_in_packet invalid_charset again closed_connection : Rc
  have_results null_value invalid_sequence_id type_overflow openssl_err unsupported : Rc
  dns_err auth_switch max_packet_exceeded unknown_type timeout auth_plugin_error mem_error : Rc

-- `fault` is no value of the program: an access outside the memory that the code was given.
pub data Result (A : Type 0) : Type 0 where
  ok : A → Result A
  err : Rc → Result A
  fault : Result A

abbrev pub Run : Type 0 → Type 0 → Type 0
Run S A = S → Result A × S

-- What the rest of a function does with the outcome of a call: go on, or return its status.
abbrev pub and_then : {S A B : Type 0} → (A → Run S B) → Result A → S → Result B × S
and_then f (ok a) s = f a s
and_then f (err e) s = (err e, s)
and_then f fault s = (fault, s)

-- These are shut, so that rules about them apply by their shape. To open the first opens all.
unfoldable pub done : {S A : Type 0} → A → Run S A
done a s = (ok a, s)

unfoldable pub fail : {S A : Type 0} → Rc → Run S A
fail e s = (err e, s)

-- `if (b) return e;`
unfoldable pub fail_if : {S : Type 0} → Bool → Rc → Run S (Unit {0})
fail_if true e s = (err e, s)
fail_if false e s = (ok tt, s)

infixl 5 ◌>>=◌ ◌>>◌
unfoldable pub ◌>>=◌ : {S A B : Type 0} → Run S A → (A → Run S B) → Run S B
unfolding done fail fail_if
◌>>=◌ m f s = and_then f (m s).0 (m s).1

abbrev pub ◌>>◌ : {S A B : Type 0} → Run S A → Run S B → Run S B
m >> k = m >>= λ _. k

and_then-eq-ok :
    {S A B : Type 0} (f : A → Run S B) (o : Result A) (s : S) {b : B}
    → (and_then f o s).0 ≡ ok b
    → (a : A) × (o ≡ ok a) × ((f a s).0 ≡ ok b)
and_then-eq-ok f (ok a) s h = (a, refl, h)
and_then-eq-ok f (err e) s h = cc
and_then-eq-ok f fault s h = cc

module _ {S A B : Type 0} (m : Run S A) (f : A → Run S B) {s : S} where
  -- A bind step by step, with the parts shut.
  pub bind_ok : {a : A} → (m s).0 ≡ ok a → (m >>= f) s ≡ f a (m s).1
  unfolding ◌>>=◌
  bind_ok h = rw h

  pub bind_err : {e : Rc} → (m s).0 ≡ err e → (m >>= f) s ≡ (err e, (m s).1)
  unfolding ◌>>=◌
  bind_err h = rw h

  -- Inversion of a successful bind.
  pub bind-eq-ok :
      {b : B} → ((m >>= f) s).0 ≡ ok b → (a : A) × ((m s).0 ≡ ok a) × ((f a (m s).1).0 ≡ ok b)
  unfolding ◌>>=◌
  bind-eq-ok h = and_then-eq-ok f (m s).0 (m s).1 h

  -- A step whose whole outcome is known.
  pub bind_run : {a : A} {t : S} → m s ≡ (ok a, t) → (m >>= f) s ≡ f a t
  unfolding ◌>>=◌
  bind_run h = rw h

  pub bind_stop : {e : Rc} {t : S} → m s ≡ (err e, t) → (m >>= f) s ≡ (err e, t)
  unfolding ◌>>=◌
  bind_stop h = rw h

-- ===== src/Client/Password.antt =====
-- What the authentication leaves of the password.
use trilogy.Prelude.{
  ℕ, ◌≡◌, sym, ap, ◌∙◌, ◌==◌, Bool, true, false, if◌then◌else◌, length, replicate, Option, none,
  some, Result, Run, ok, fault, done, ◌>>=◌, ◌>>◌, bind_ok, bind-eq-ok,
}
use mathlib.Core.Path.{subst}
use trilogy.Protocol.Types.{Handshake}
use trilogy.Client.Connection.{Sock, SockOpt, Connection, receive}
use trilogy.Client.Responses.{
  packet_eof, packet_auth_more_data, current_packet_type, handle_generic_response,
  read_auth_switch_packet,
}
use trilogy.Client.Auth.{set_opts, auth_clear_password, auth_more_data, auth_recv}
use trilogy.Prelude.{bind_run}
use trilogy.Client.Keeps.{
  Keeps, Keeps-bind, Keeps-done, Keeps-if, Keeps-packet_byte, Keeps-receive,
  Keeps-handle_generic_response, Keeps-auth_more_data,
}

module _ {W : Type 0} where
  -- The socket's options are `o`, with as many zeros as the password had bytes in its place.
  abbrev pub IsCleared : SockOpt → Connection W → Type 0
  IsCleared o c = c.socket ≡ some (record o { password = replicate (length o.password) 0 })

  -- Where `m` returns the answer `a`, the password of `o` is cleared.
  record Clears {A : Type 0} (o : SockOpt) (a : A) (m : Run (Connection W) A) (c : Connection W)
      : Type 0 where
    at : c.socket ≡ some o → (m c).0 ≡ ok a → IsCleared o (m c).1

  -- By what follows a call that leaves the options alone.
  Clears-bind :
      {A B : Type 0} {o : SockOpt} {b : B} (m : Run (Connection W) A) (f : A → Run (Connection W) B)
      (c : Connection W)
      → Keeps m
      → ((a : A) → Clears o b (f a) (m c).1)
      → Clears o b (m >>= f) c
  Clears-bind {o} m f c l k = record {
    at = λ s h.
        let (a, e, h') = bind-eq-ok m f h in
        subst (λ t. IsCleared o t.1) (sym (bind_ok m f e)) ((k a).at (l.at c ∙ s) h');
  }

  clear_run :
      (o : SockOpt) (c : Connection W)
      → c.socket ≡ some o
      → auth_clear_password c ≡ (
        ok tt,
        record c { socket = some (record o { password = replicate (length o.password) 0 }) },
      )
  unfolding auth_clear_password set_opts
  clear_run o c s =
      ap
        (λ t. elim t as (λ x. Result (Unit {0}) × Connection W) [
          | none ↦ (fault, c)
          | some o ↦ (
            ok tt,
            record c { socket = some (record o { password = replicate (length o.password) 0 }) },
          )
        ])
        s

  Clears-auth :
      (o : SockOpt) (c : Connection W)
      → Clears {A = Option Handshake} o none
          (auth_clear_password >> (handle_generic_response >> done none))
          c
  Clears-auth o c = record {
    at = λ s h.
        subst (IsCleared o) (sym (ap (λ t. t.1) (bind_run auth_clear_password _ (clear_run o c s))))
          ((Keeps-bind _ _ Keeps-handle_generic_response (λ t. Keeps-done none)).at
            (record c { socket = some (record o { password = replicate (length o.password) 0 }) }));
  }

  -- An answer that is a switch is not the answer `none`.
  Clears-switch :
      (o : SockOpt) (m : Run (Connection W) Handshake) (c : Connection W)
      → Clears o none (do h ← m; done (some h)) c
  unfolding done
  Clears-switch o m c = record {
    at = λ s h. let (a, e, h') = bind-eq-ok m (λ h. done (some h)) h in absurd (no h');
  }
    where
      no : {h : Handshake} → ok (some h) ≡ ok none → ⊥
      no e = cc

  Clears-if :
      {A : Type 0} {o : SockOpt} {a : A} (b : Bool) {m k : Run (Connection W) A} {c : Connection W}
      → Clears o a m c
      → Clears o a k c
      → Clears o a (if b then m else k) c
  Clears-if true h l = h
  Clears-if false h l = l

-- Where trilogy_auth_recv returns TRILOGY_OK, by whatever way, each byte of the password in the options that the call began
-- with is overwritten with a zero, and the other options are as they were. TRILOGY_AUTH_SWITCH, behind which the password is
-- needed once more, is another answer.
pub auth_recv-password :
    {W : Type 0} (grants : ℕ → Bool) (sock : Sock W) (rounds : ℕ) (handshake : Handshake)
    (o : SockOpt) (c : Connection W)
    → c.socket ≡ some o
    → (auth_recv grants sock rounds handshake c).0 ≡ ok none
    → IsCleared o (auth_recv grants sock rounds handshake c).1
unfolding auth_recv
auth_recv-password grants sock rounds handshake o c =
    (Clears-bind (receive grants sock) _ c (Keeps-receive grants sock) (λ t.
      Clears-bind current_packet_type _ _ (Keeps-packet_byte 0) (λ type.
        Clears-if (type == packet_eof) (Clears-switch o (read_auth_switch_packet handshake) _) (
          Clears-bind
            (if type == packet_auth_more_data then auth_more_data grants sock rounds else done tt) _
            _
            (Keeps-if (type == packet_auth_more_data) (Keeps-auth_more_data grants sock rounds)
              (Keeps-done tt))
            (λ t. Clears-auth o _))))).at

-- ===== src/Client/Keeps.antt =====
-- The calls of the client that leave the socket's options alone.
use trilogy.Prelude.{
  ℕ, ltb, ◌≡◌, refl, ◌∙◌, ◌==◌, ◌&&◌, Bool, true, false, if◌then◌else◌, List, length, Option, none,
  some, Result, Run, ok, err, fault, done, fail, ◌>>=◌, and_then, Rc, get_elem?,
}
use trilogy.Protocol.Types.{has, OkPacket, capabilities_protocol_41, max_last_gtid_len}
use trilogy.Client.Connection.{
  Sock, SockOpt, Connection, modify, asks, packet, packet_byte, lift, receive,
}
use trilogy.Client.Responses.{
  set_error, set_status, set_gtid, set_ok, read_ok_packet, read_err_packet, handle_generic_response,
}
use trilogy.Client.Auth.{auth_more_data}
use trilogy.Prelude.{zero, suc, fail_if, again, [], ◌∷◌}
use trilogy.Builder.{Builder}
use trilogy.Client.Connection.{opts, on_socket, set_sequence_number, with_nread}
use trilogy.Client.Phase.{
  begin_builder, with_builder, begin_command_phase, on_builder, flush_writes, begin_write,
}
use trilogy.Client.Wait.{is_again, retry, pump}
use trilogy.Client.Auth.{fast_auth, fast_auth_ok, fast_auth_fail}

module _ {W : Type 0} where
  -- Calls that leave the socket's options alone.
  pub record Keeps {A : Type 0} (m : Run (Connection W) A) : Type 0 where
    pub at : (c : Connection W) → (m c).1.socket ≡ c.socket

  pub Keeps-bind :
      {A B : Type 0} (m : Run (Connection W) A) (f : A → Run (Connection W) B)
      → Keeps m
      → ((a : A) → Keeps (f a))
      → Keeps (m >>= f)
  unfolding ◌>>=◌
  Keeps-bind {A} {B} m f k l = record { at = λ c. go (m c).0 (m c).1 ∙ k.at c }
    where
      go : (o : Result A) (c : Connection W) → (and_then f o c).1.socket ≡ c.socket
      go (ok a) c = (l a).at c
      go (err e) c = refl
      go fault c = refl

  pub Keeps-asks : {A : Type 0} (f : Connection W → A) → Keeps (asks f)
  unfolding asks
  Keeps-asks f = record { at = λ c. refl }

  pub Keeps-lift : {A : Type 0} (o : Result A) → Keeps (lift o)
  unfolding lift
  Keeps-lift o = record { at = λ c. refl }

  pub Keeps-fail : {A : Type 0} (e : Rc) → Keeps {A = A} (fail e)
  unfolding fail
  Keeps-fail e = record { at = λ c. refl }

  pub Keeps-modify :
      (f : Connection W → Connection W)
      → ((c : Connection W) → (f c).socket ≡ c.socket)
      → Keeps (modify f)
  unfolding modify
  Keeps-modify f k = record { at = k }

  pub Keeps-packet_byte : (i : ℕ) → Keeps (packet_byte i)
  unfolding packet_byte
  Keeps-packet_byte i = record { at = λ c. go c (get_elem? (packet c) i) }
    where
      go :
          (c : Connection W) (o : Option ℕ)
          → (elim o as (λ x. Result ℕ × Connection W) [
            | none ↦ (fault, c)
            | some b ↦ (ok b, c)
          ]).1.socket
            ≡ c.socket
      go c none = refl
      go c (some b) = refl

  pub Keeps-if :
      {A : Type 0} (b : Bool) {m k : Run (Connection W) A}
      → Keeps m
      → Keeps k
      → Keeps (if b then m else k)
  Keeps-if true h l = h
  Keeps-if false h l = l

  if_socket :
      (b : Bool) (x y c : Connection W)
      → x.socket ≡ c.socket
      → y.socket ≡ c.socket
      → (if b then x else y).socket ≡ c.socket
  if_socket true x y c h k = h
  if_socket false x y c h k = k

  set_status-socket : (w t : ℕ) (c : Connection W) → (set_status w t c).socket ≡ c.socket
  unfolding set_status
  set_status-socket w t c =
      if_socket (has c.capabilities capabilities_protocol_41)
        (record c { warning_count = w; server_status = t }) c c refl refl

  set_gtid-socket : (gtid : List ℕ) (c : Connection W) → (set_gtid gtid c).socket ≡ c.socket
  unfolding set_gtid
  set_gtid-socket gtid c =
      if_socket (ltb 0 (length gtid) && ltb (length gtid) max_last_gtid_len)
        (record c { last_gtid = gtid }) c c refl refl

  set_ok-socket : (p : OkPacket) (c : Connection W) → (set_ok p c).socket ≡ c.socket
  unfolding set_ok
  set_ok-socket p c =
      set_gtid-socket p.last_gtid _ ∙ set_status-socket p.warning_count p.status_flags c

  pub Keeps-handle_generic_response : Keeps handle_generic_response
  unfolding handle_generic_response read_ok_packet read_err_packet set_error
  Keeps-handle_generic_response = Keeps-bind _ _ (Keeps-packet_byte 0) (λ type.
      Keeps-if _
        (Keeps-bind _ _ (Keeps-asks _)
          (λ o. Keeps-bind _ _ (Keeps-lift o) (λ p. Keeps-modify (set_ok p) (set_ok-socket p))))
        (Keeps-if _
          (Keeps-bind _ _ (Keeps-asks _) (λ o.
            Keeps-bind _ _ (Keeps-lift o)
              (λ p. Keeps-bind _ _ (Keeps-modify (set_error p) (λ c. refl)) (λ t. Keeps-fail _))))
          (Keeps-fail _)))

  if_outcome :
      {A : Type 0} (b : Bool) (x y : Result A × Connection W) (c : Connection W)
      → x.1.socket ≡ c.socket
      → y.1.socket ≡ c.socket
      → (if b then x else y).1.socket ≡ c.socket
  if_outcome true x y c h k = h
  if_outcome false x y c h k = k

  pub Keeps-done : {A : Type 0} (a : A) → Keeps (done a)
  unfolding done
  Keeps-done a = record { at = λ c. refl }

  pub Keeps-fail_if : (b : Bool) (e : Rc) → Keeps (fail_if b e)
  unfolding fail_if
  Keeps-fail_if true e = record { at = λ c. refl }
  Keeps-fail_if false e = record { at = λ c. refl }

  pub Keeps-opts : Keeps opts
  unfolding opts
  Keeps-opts = record { at = λ c. go c c.socket }
    where
      go :
          (c : Connection W) (s : Option SockOpt)
          → (elim s as (λ x. Result SockOpt × Connection W) [
            | none ↦ (fault, c)
            | some o ↦ (ok o, c)
          ]).1.socket
            ≡ c.socket
      go c none = refl
      go c (some o) = refl

  pub Keeps-on_socket : {A : Type 0} (m : Run W A) → Keeps (on_socket m)
  unfolding on_socket
  Keeps-on_socket {A} m = record { at = λ c. go c c.socket }
    where
      go :
          (c : Connection W) (s : Option SockOpt)
          → (elim s as (λ x. Result A × Connection W) [
            | none ↦ (fault, c)
            | some o ↦ ((m c.world).0, record c { world = (m c.world).1 })
          ]).1.socket
            ≡ c.socket
      go c none = refl
      go c (some o) = refl

  module _ (grants : ℕ → Bool) (sock : Sock W) where
    pub Keeps-receive : Keeps (receive grants sock)
    unfolding receive with_nread
    Keeps-receive = record { at = λ c. go c c.io.recv }
      where
        go :
            (c : Connection W) (l : List ℕ)
            → (elim l as (λ x. Result (Unit {0}) × Connection W) [
              | x ∷ xs ↦ with_nread grants sock (ok []) c
              | [] ↦ with_nread grants sock (on_socket sock.read c).0 (on_socket sock.read c).1
            ]).1.socket
              ≡ c.socket
        go c (x ∷ xs) = refl
        go c [] = (Keeps-on_socket sock.read).at c

    pub Keeps-begin_command_phase : (seq : ℕ) → Keeps (begin_command_phase grants seq)
    unfolding begin_command_phase begin_builder with_builder set_sequence_number modify
    Keeps-begin_command_phase seq =
        Keeps-bind _ _ (record { at = λ c. refl })
          (λ b.
            Keeps-bind _ _ Keeps-opts
              (λ o. Keeps-bind _ _ (record { at = λ c. refl }) (λ t. Keeps-done _)))

    pub Keeps-on_builder : (b : Builder) (m : Run Builder (Unit {0})) → Keeps (on_builder b m)
    unfolding on_builder with_builder
    Keeps-on_builder b m = record { at = λ c. refl }

    pub Keeps-flush_writes : Keeps (flush_writes sock)
    unfolding flush_writes modify
    Keeps-flush_writes = Keeps-bind _ _ (Keeps-asks _) (λ rest.
        Keeps-bind _ _ (Keeps-on_socket (sock.write rest)) (λ n.
          Keeps-bind _ _ (record { at = λ c. refl })
            (λ t. Keeps-bind _ _ (Keeps-asks _) (λ more. Keeps-fail_if more again))))

    pub Keeps-begin_write : Keeps (begin_write sock)
    unfolding begin_write modify
    Keeps-begin_write = Keeps-bind _ _ (record { at = λ c. refl }) (λ t. Keeps-flush_writes)

  pub Keeps-retry :
      {A : Type 0} (rounds : ℕ) (wait : Run (Connection W) (Unit {0})) (m : Run (Connection W) A)
      → Keeps wait
      → Keeps m
      → Keeps (retry rounds wait m)
  unfolding retry
  Keeps-retry zero wait m k l = record { at = λ c. refl }
  Keeps-retry (suc rounds) wait m k l = record {
    at = λ c.
        if_outcome (is_again (m c).0) _ (m c) c
          ((Keeps-bind wait _ k (λ t. Keeps-retry rounds wait m k l)).at (m c).1 ∙ l.at c) (l.at c);
  }

  pub Keeps-pump :
      {A : Type 0} (rounds : ℕ) (wait : Run (Connection W) (Unit {0}))
      (first m : Run (Connection W) A)
      → Keeps wait
      → Keeps first
      → Keeps m
      → Keeps (pump rounds wait first m)
  unfolding pump
  Keeps-pump rounds wait first m k f l = record {
    at = λ c.
        if_outcome (is_again (first c).0) _ (first c) c
          ((Keeps-bind wait _ k (λ t. Keeps-retry rounds wait m k l)).at (first c).1 ∙ f.at c)
          (f.at c);
  }

  module _ (grants : ℕ → Bool) (sock : Sock W) where
    Keeps-fast_auth : (rounds byte : ℕ) → Keeps (fast_auth grants sock rounds byte)
    unfolding fast_auth
    Keeps-fast_auth rounds byte = Keeps-if (byte == fast_auth_ok) (Keeps-done tt) (
        Keeps-if (byte == fast_auth_fail)
          (Keeps-bind _ _ (Keeps-asks _) (λ seq.
            Keeps-bind _ _ (Keeps-begin_command_phase grants sock seq) (λ b.
              Keeps-bind _ _ Keeps-opts (λ o.
                Keeps-bind _ _ (Keeps-on_builder grants sock b _) (λ b'.
                  Keeps-pump rounds _ _ _ (Keeps-on_socket sock.wait_write)
                    (Keeps-begin_write grants sock) (Keeps-flush_writes grants sock))))))
          (Keeps-fail _))

    pub Keeps-auth_more_data : (rounds : ℕ) → Keeps (auth_more_data grants sock rounds)
    unfolding auth_more_data
    Keeps-auth_more_data rounds = Keeps-bind _ _ Keeps-opts (λ o.
        Keeps-bind _ _ (Keeps-fail_if _ _) (λ t. Keeps-bind _ _ (Keeps-packet_byte 1) (λ byte.
          Keeps-bind _ _ (Keeps-fast_auth rounds byte) (λ u.
            Keeps-retry rounds _ _ (Keeps-on_socket sock.wait_read) (Keeps-receive grants sock)))))

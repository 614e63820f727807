-- ===== src/Protocol/Bounds.antt =====
-- src/protocol.c: what the initial handshake holds fits its arrays, whatever the server sends.
use mathlib.Core.Path.{subst}
use trilogy.Prelude.{
  ℕ, ◌+◌, ◌-◌, ◌<◌, ◌≡◌, refl, arith, Bool, true, false, ltb, ◌==◌, not, ◌&&◌, min, List, length,
  length-append, length-take, Option, none, some, Rc, Run, ok, err, done, fail, fail_if, ◌>>=◌,
  ◌>>◌, bind-eq-ok, if◌then◌else◌, protocol_violation, auth_plugin_too_long,
}
use trilogy.Reader.{
  Reader, reader_init, get_uint8, get_uint32, get_string, get_buffer, copy_buffer, finish,
}
use trilogy.Reader.Fields.{length-get_buffer_eq}
use trilogy.Protocol.Types.{
  has, Handshake, capabilities_plugin_auth, capabilities_secure_connection, scramble_len,
}
use trilogy.Protocol.Replies.{parse_packet}
use trilogy.Protocol.Handshake.{
  server_version_size, auth_plugin_size, get_auth_plugin, handshake_head, handshake_flags,
  handshake_scramble, handshake_plugin, parse_handshake_fields, parse_handshake_packet,
}

-- What `m` returns, where it returns, has the property `P`.
record Returns {A : Type 0} (m : Run Reader A) (P : A → Type 0) : Type 0 where
  at : (r : Reader) {a : A} → (m r).0 ≡ ok a → P a

module _ {A : Type 0} (P : A → Type 0) where
  Returns-done : {a : A} → P a → Returns (done a) P
  unfolding done
  Returns-done {a} h = record { at = λ r {a = a'} e. (let same : a ≡ a' = cc in subst P same h) }

  Returns-fail : (e : Rc) → Returns (fail e) P
  unfolding fail
  Returns-fail e = record { at = λ r h. absurd (let no : err e ≡ ok _ = h in cc) }

  -- A call with nothing known of what it returns.
  Returns-bind :
      {B : Type 0} (m : Run Reader B) (f : B → Run Reader A)
      → ((b : B) → Returns (f b) P)
      → Returns (m >>= f) P
  Returns-bind m f h = record {
    at = λ r e. let (b, got, e') = bind-eq-ok m f e in (h b).at (m r).1 e';
  }

  Returns-first :
      {B : Type 0} {Q : B → Type 0} (m : Run Reader B) (f : B → Run Reader A)
      → Returns m Q
      → ((b : B) → Q b → Returns (f b) P)
      → Returns (m >>= f) P
  Returns-first m f q h = record {
    at = λ r e. let (b, got, e') = bind-eq-ok m f e in (h b (q.at r got)).at (m r).1 e';
  }

Returns-fail_if : (b : Bool) (e : Rc) → Returns (fail_if b e) (λ _. b ≡ false)
unfolding fail_if
Returns-fail_if true e = record { at = λ r h. cc }
Returns-fail_if false e = record { at = λ r h. refl }

copy_buffer_lem : (n : ℕ) → Returns (copy_buffer n) (λ d. length d ≡ n)
unfolding copy_buffer get_buffer
copy_buffer_lem n = record { at = λ r {a} e. length-get_buffer_eq n r a e }

get_auth_plugin_lem : Returns get_auth_plugin (λ name. length name < auth_plugin_size)
unfolding get_auth_plugin
get_auth_plugin_lem = Returns-bind _ get_string _ (λ name.
    Returns-first _ (fail_if (ltb (auth_plugin_size - 1) (length name)) auth_plugin_too_long) _
      (Returns-fail_if _ _) (λ u e. Returns-done _ (ground (arith, e))))

handshake_head_lem :
    Returns handshake_head (λ t. (t.0 ≡ 10) × (length t.1 < server_version_size) × (length t.3 ≡ 8))
unfolding handshake_head
handshake_head_lem = Returns-bind _ get_uint8 _ (λ version.
    Returns-first _ (fail_if (not (version == 0xa)) protocol_violation) _ (Returns-fail_if _ _)
      (λ u known. Returns-bind _ get_string _ (λ server. Returns-bind _ get_uint32 _ (λ conn_id.
        Returns-first _ (copy_buffer 8) _ (copy_buffer_lem 8) (λ scramble front.
          Returns-bind _ get_uint8 _ (λ filler.
            Returns-bind _ (fail_if (not (filler == 0)) protocol_violation) _ (λ v. Returns-done _ (
              ground (arith, known),
              omega (arith, length-take (min (length server) (server_version_size - 1)) server),
              front,
            ))))))))

handshake_scramble_lem : (caps : ℕ) → Returns (handshake_scramble caps) (λ more. length more ≡ 13)
unfolding handshake_scramble
handshake_scramble_lem caps = Returns-bind _ get_uint8 _ (λ n.
    Returns-bind _
      (fail_if (not (has caps capabilities_plugin_auth) && not (n == 0)) protocol_violation) _
      (λ u.
        Returns-bind _ (get_buffer 10) _
          (λ v. go n (has caps capabilities_secure_connection && ltb 8 n))))
  where
    go :
        (n : ℕ) (b : Bool)
        → Returns
            (if b
              then (do
                fail_if (not (scramble_len + 1 == n)) protocol_violation
                copy_buffer (n - 8))
              else fail protocol_violation)
            (λ more. length more ≡ 13)
    go n true =
        Returns-first _ (fail_if (not (scramble_len + 1 == n)) protocol_violation) _
          (Returns-fail_if _ _)
          (λ u e. record {
            at =
                λ r {a} h. (let same = (copy_buffer_lem (n - 8)).at r h in ground (arith, e, same));
          })
    go n false = Returns-fail _ _

-- The name of the plugin, where there is one.
abbrev pub FitsPlugin : Option (List ℕ) → Type 0
FitsPlugin none = Unit
FitsPlugin (some name) = length name < auth_plugin_size

handshake_plugin_lem : (caps : ℕ) → Returns (handshake_plugin caps) FitsPlugin
unfolding handshake_plugin
handshake_plugin_lem caps = go (has caps capabilities_plugin_auth)
  where
    go :
        (b : Bool)
        → Returns
            (if b then (do name ← get_auth_plugin; done (some name)) else done none)
            FitsPlugin
    go true =
        Returns-first _ get_auth_plugin _ get_auth_plugin_lem (λ name short. Returns-done _ short)
    go false = Returns-done _ tt

abbrev pub FitsArrays : Handshake → Type 0
FitsArrays h =
    (h.proto_version ≡ 10)
    × (length h.server_version < server_version_size)
    × (length h.scramble ≡ scramble_len + 1)
    × FitsPlugin h.auth_plugin

handshake_lem : Returns parse_handshake_fields FitsArrays
unfolding parse_handshake_fields
handshake_lem =
    Returns-first _ handshake_head _ handshake_head_lem (λ (version, server, conn_id, front) head.
      Returns-bind _ handshake_flags _ (λ (caps, charset, status).
        Returns-first _ (handshake_scramble caps) _ (handshake_scramble_lem caps) (λ back back_size.
          Returns-first _ (handshake_plugin caps) _ (handshake_plugin_lem caps)
            (λ plugin plugin_size. Returns-bind _ finish _ (λ u. Returns-done _ (
              head.0,
              head.1,
              omega (arith, length-append front back, back_size, head.2),
              plugin_size,
            ))))))

-- Whatever bytes the server sends, a handshake that is accepted has the protocol version 10, a server version and a plugin's
-- name that are shorter than their arrays of 32 bytes, so that their NULs fit, and a scramble of exactly 21 bytes.
pub parse_handshake_packet-FitsArrays :
    (buff : List ℕ) (h : Handshake) → parse_handshake_packet buff ≡ ok h → FitsArrays h
unfolding parse_handshake_packet parse_packet
parse_handshake_packet-FitsArrays buff h e = handshake_lem.at (reader_init buff (length buff)) e

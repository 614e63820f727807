-- ===== src/Protocol/RoundTrip/Handshake.antt =====
-- The initial handshake packet.
use mathlib.Core.Path.{subst}
use trilogy.Prelude.{
  ℕ, ◌*◌, ◌/◌, ◌%◌, ◌^◌, ◌<◌, ◌≡◌, refl, sym, ap, ◌∙◌, arith, true, List, [], ◌∷◌, ◌++◌, length,
  replicate, some, ok, done, fail_if, ◌>>◌, bit_or, bit_or_shifted, take, take_all, min,
  auth_plugin_too_long, ltb_ge, ltb,
}
use trilogy.Wire.{le, nul_str, NoZero}
use trilogy.Reader.{size_mod}
use trilogy.Reader.Decode.{
  Decodes, Ends, Decodes-bind, Ends-bind, Decodes-done, Decodes-uint8, Decodes-uint16,
  Decodes-uint32,
}
use trilogy.Reader.Lenenc.{Decodes-copy, Decodes-buffer, Decodes-string}
use trilogy.Protocol.Types.{has, capabilities_protocol_41}
use trilogy.Protocol.RoundTrip.{
  parse_packet-Ends, Ends-finished, Ends-last, Decodes-last, Decodes-passed,
}
use trilogy.Protocol.Types.{Handshake, capabilities_plugin_auth, capabilities_secure_connection}
use trilogy.Protocol.Handshake.{
  get_auth_plugin, handshake_head, handshake_flags, handshake_scramble, handshake_plugin,
  parse_handshake_fields, parse_handshake_packet,
}

-- The initial handshake packet, protocol version 10: the scramble is cut in two, and the two halves of
-- the capabilities stand apart.
abbrev pub handshake_bytes : Handshake → List ℕ → List ℕ → List ℕ → List ℕ
handshake_bytes h front back name =
    (0xa ∷ [] ++ (nul_str h.server_version ++ (le 4 h.conn_id ++ (front ++ 0 ∷ []))))
    ++ ((le 2 (h.capabilities % 2 ^ 16)
          ++ (h.server_charset ∷ [] ++ (le 2 h.server_status ++ le 2 (h.capabilities / 2 ^ 16))))
        ++ ((21 ∷ [] ++ (replicate 10 0 ++ back)) ++ nul_str name))

-- A server that speaks protocol 4.1, names its plugin, and sends a scramble of 20 bytes and a NUL.
pub record IsHandshake (h : Handshake) (front back name : List ℕ) : Type 0 where
  pub version : h.proto_version ≡ 0xa
  pub server : NoZero h.server_version
  pub server_le : length h.server_version < 32
  pub conn_id : h.conn_id < 2 ^ 32
  pub halves : h.scramble ≡ front ++ back
  pub length_front : length front ≡ 8
  pub length_back : length back ≡ 13
  pub capabilities : h.capabilities < 2 ^ 32
  pub protocol_41 : has (h.capabilities % 2 ^ 16) capabilities_protocol_41 ≡ true
  pub secure : has h.capabilities capabilities_secure_connection ≡ true
  pub status : h.server_status < 2 ^ 16
  pub plugin_auth : has h.capabilities capabilities_plugin_auth ≡ true
  pub plugin : h.auth_plugin ≡ some name
  pub name_zero : NoZero name
  pub name_le : length name < 32

head-Decodes :
    (h : Handshake) (front back name : List ℕ)
    → IsHandshake h front back name
    → Decodes handshake_head
        (0xa ∷ [] ++ (nul_str h.server_version ++ (le 4 h.conn_id ++ (front ++ 0 ∷ []))))
        (0xa, h.server_version, h.conn_id, front)
unfolding handshake_head
head-Decodes h front back name w = Decodes-bind _ _ (Decodes-uint8 0xa) (
    Decodes-passed _ _ (
      Decodes-bind _ _ (Decodes-string h.server_version w.server) (
        Decodes-bind _ _ (Decodes-uint32 h.conn_id w.conn_id) (
          Decodes-bind _ _ (Decodes-copy 8 front w.length_front)
            (Decodes-last _ _ (Decodes-uint8 0) (Decodes-passed _ _ rw whole (Decodes-done _)))))))
  where
    whole : take (min (length h.server_version) 31) h.server_version ≡ h.server_version
    whole = take_all _ _ (omega (arith, w.server_le))

flags-Decodes :
    (h : Handshake) (front back name : List ℕ)
    → IsHandshake h front back name
    → Decodes handshake_flags
        (le 2 (h.capabilities % 2 ^ 16)
          ++ (h.server_charset ∷ [] ++ (le 2 h.server_status ++ le 2 (h.capabilities / 2 ^ 16))))
        (h.capabilities, h.server_charset, h.server_status)
unfolding handshake_flags
flags-Decodes h front back name w =
    Decodes-bind _ _ (Decodes-uint16 (h.capabilities % 2 ^ 16) (omega arith)) (
      rw w.protocol_41 (
        Decodes-passed _ _ (
          Decodes-bind _ _ (Decodes-uint8 h.server_charset) (
            Decodes-bind _ _ (Decodes-uint16 h.server_status w.status) (
              Decodes-last _ _
                (Decodes-uint16 (h.capabilities / 2 ^ 16) (omega (arith, w.capabilities)))
                (rw whole (Decodes-done _)))))))
  where
    whole : bit_or (h.capabilities % 2 ^ 16) (h.capabilities / 2 ^ 16 * 2 ^ 16) ≡ h.capabilities
    whole =
        omega (
          arith,
          bit_or_shifted 16 (h.capabilities % 2 ^ 16) (h.capabilities / 2 ^ 16) (omega arith),
        )

scramble-Decodes :
    (h : Handshake) (front back name : List ℕ)
    → IsHandshake h front back name
    → Decodes (handshake_scramble h.capabilities) (21 ∷ [] ++ (replicate 10 0 ++ back)) back
unfolding handshake_scramble
scramble-Decodes h front back name w = Decodes-bind _ _ (Decodes-uint8 21) (
    rw (w.plugin_auth, w.secure)
      (Decodes-passed _ _ (
        Decodes-bind _ _ (Decodes-buffer 10 (replicate 10 0) refl)
          (Decodes-passed _ _ (Decodes-copy 13 back w.length_back)))))

plugin-Decodes :
    (h : Handshake) (front back name : List ℕ)
    → IsHandshake h front back name
    → Decodes (handshake_plugin h.capabilities) (nul_str name) h.auth_plugin
unfolding handshake_plugin get_auth_plugin
plugin-Decodes h front back name w =
    rw (w.plugin_auth, w.plugin)
      (Decodes-last _ _ (Decodes-last _ _ (Decodes-string name w.name_zero) fits)
        (Decodes-done (some name)))
  where
    fits : Decodes (fail_if (ltb 31 (length name)) auth_plugin_too_long >> done name) [] name
    fits =
        rw (ltb_ge 31 (length name) (omega (arith, w.name_le)))
          (Decodes-passed _ _ (Decodes-done name))

-- The initial handshake of a server that speaks protocol 4.1 and has a plugin for a scramble of 20 bytes is
-- parsed to what it says: version, connection, scramble, capabilities, charset, status and plugin. The
-- names are shorter than 32 bytes and hold no NUL.
pub parse_handshake_packet-handshake_bytes :
    (h : Handshake) (front back name : List ℕ)
    → IsHandshake h front back name
    → length (handshake_bytes h front back name) < size_mod
    → parse_handshake_packet (handshake_bytes h front back name) ≡ ok h
unfolding parse_handshake_packet parse_handshake_fields
parse_handshake_packet-handshake_bytes h front back name w short =
    parse_packet-Ends _ (handshake_bytes h front back name) h
      (Ends-bind _ _ (head-Decodes h front back name w) (
        Ends-bind _ _ (flags-Decodes h front back name w) (
          Ends-bind _ _ (scramble-Decodes h front back name w) (
            Ends-last _ _ (plugin-Decodes h front back name w)
              (subst (Ends _ []) same (Ends-finished _))))))
      short
  where
    same : record h { proto_version = 0xa; scramble = front ++ back } ≡ h
    same =
        ap (λ v. record h { proto_version = v; scramble = front ++ back }) (sym w.version)
        ∙ ap (λ l. record h { scramble = l }) (sym w.halves)

-- ===== src/Protocol/RoundTrip/Replies.antt =====
-- ERR packets, and the reply to the preparation of a statement.
use trilogy.Prelude.{
  ℕ, ◌^◌, ◌<◌, ◌≡◌, arith, Bool, true, false, List, [], ◌∷◌, ◌++◌, length, replicate, ok, done,
  ◌>>=◌, if◌then◌else◌,
}
use trilogy.Wire.{le}
use trilogy.Reader.{size_mod, get_uint8}
use trilogy.Reader.Decode.{
  Decodes, Decodes-bind, Ends-bind, Decodes-done, Decodes-uint8, Decodes-uint16, Decodes-uint32,
  Ends-eof_buffer,
}
use trilogy.Reader.Lenenc.{Decodes-copy}
use trilogy.Reader.{copy_buffer}
use trilogy.Protocol.Types.{has, StmtOkPacket, ErrPacket, capabilities_protocol_41}
use trilogy.Protocol.Replies.{parse_err_packet, parse_err_fields, sql_state_fields}
use trilogy.Protocol.Rows.{parse_stmt_ok_packet, parse_stmt_ok_fields}
use trilogy.Protocol.RoundTrip.{
  parse_packet-Ends, Ends-finished, Ends-last, Decodes-last, Ends-passed,
}

-- An ERR packet; the SQL state is there under CLIENT_PROTOCOL_41.
abbrev pub err_bytes : ErrPacket → ℕ → List ℕ
err_bytes p caps =
    0xff ∷ []
    ++ (le 2 p.error_code
        ++ ((if has caps capabilities_protocol_41
              then p.sql_state_marker ∷ [] ++ p.sql_state
              else [])
            ++ p.error_message))

-- A code of 16 bits, and an SQL state of five bytes, zeros where the packet has none.
pub record IsErr (p : ErrPacket) (caps : ℕ) : Type 0 where
  pub error_code : p.error_code < 2 ^ 16
  pub sql_state : length p.sql_state ≡ 5
  pub marker_if :
      p.sql_state_marker ≡ (if has caps capabilities_protocol_41 then p.sql_state_marker else 0)
  pub state_if :
      p.sql_state ≡ (if has caps capabilities_protocol_41 then p.sql_state else replicate 5 0)

sql_state-Decodes :
    (p : ErrPacket) (caps : ℕ)
    → IsErr p caps
    → Decodes
        (sql_state_fields caps)
        (if has caps capabilities_protocol_41 then p.sql_state_marker ∷ [] ++ p.sql_state else [])
        (p.sql_state_marker, p.sql_state)
unfolding sql_state_fields
sql_state-Decodes p caps h = go (has caps capabilities_protocol_41) h.marker_if h.state_if
  where
    go :
        (b : Bool)
        → p.sql_state_marker ≡ (if b then p.sql_state_marker else 0)
        → p.sql_state ≡ (if b then p.sql_state else replicate 5 0)
        → Decodes {A = ℕ × List ℕ}
            (if b
              then (do marker ← get_uint8; state ← copy_buffer 5; done (marker, state))
              else done (0, replicate 5 0))
            (if b then p.sql_state_marker ∷ [] ++ p.sql_state else [])
            (p.sql_state_marker, p.sql_state)
    go true e e' =
        Decodes-bind _ _ (Decodes-uint8 p.sql_state_marker)
          (Decodes-last _ _ (Decodes-copy 5 p.sql_state h.sql_state) (Decodes-done _))
    go false e e' = rw (e, e') (Decodes-done (0, replicate 5 0))

-- An ERR packet is parsed to the code, the SQL state and the message it brings, with
-- CLIENT_PROTOCOL_41 and without. The packet fits the address space.
pub parse_err_packet-err_bytes :
    (p : ErrPacket) (caps : ℕ)
    → IsErr p caps
    → length (err_bytes p caps) < size_mod
    → parse_err_packet (err_bytes p caps) caps ≡ ok p
unfolding parse_err_packet parse_err_fields
parse_err_packet-err_bytes p caps h short =
    parse_packet-Ends _ (err_bytes p caps) p
      (Ends-bind _ _ (Decodes-uint8 0xff) (
        Ends-bind _ _ (Decodes-uint16 p.error_code h.error_code)
          (Ends-bind _ _ (sql_state-Decodes p caps h) (Ends-eof_buffer _ (Ends-finished p)))))
      short

-- The reply to the preparation of a statement.
abbrev pub stmt_ok_bytes : StmtOkPacket → List ℕ
stmt_ok_bytes p =
    0 ∷ []
    ++ (le 4 p.id
        ++ (le 2 p.column_count ++ (le 2 p.parameter_count ++ (0 ∷ [] ++ le 2 p.warning_count))))

-- A prepared statement's OK packet is parsed to the ids and counts it brings, where they fit
-- their fields.
pub parse_stmt_ok_packet-stmt_ok_bytes :
    (p : StmtOkPacket)
    → p.id < 2 ^ 32
    → p.column_count < 2 ^ 16
    → p.parameter_count < 2 ^ 16
    → p.warning_count < 2 ^ 16
    → parse_stmt_ok_packet (stmt_ok_bytes p) ≡ ok p
unfolding parse_stmt_ok_packet parse_stmt_ok_fields
parse_stmt_ok_packet-stmt_ok_bytes p h1 h2 h3 h4 =
    parse_packet-Ends _ (stmt_ok_bytes p) p
      (Ends-bind _ _ (Decodes-uint8 0) (
        Ends-bind _ _ (Decodes-uint32 p.id h1) (
          Ends-bind _ _ (Decodes-uint16 p.column_count h2) (
            Ends-bind _ _ (Decodes-uint16 p.parameter_count h3) (
              Ends-bind _ _ (Decodes-uint8 0) (
                Ends-passed _ _
                  (Ends-last _ _ (Decodes-uint16 p.warning_count h4) (Ends-finished p))))))))
      (omega arith)

-- ===== src/Client/Answers.antt =====
-- What comes of the server's answers.
use mathlib.Core.Path.{subst}
use trilogy.Prelude.{
  ℕ, ◌%◌, ◌/◌, ◌^◌, ◌<◌, ◌≡◌, refl, sym, ap, ◌∙◌, arith, ltb, ltb→lt, lt→ltb, append-nil, ◌&&◌,
  Bool, true, false, Bool-cases, inl, inr, if◌then◌else◌, List, [], ◌∷◌, ◌++◌, length, get_elem?,
  none, some, Result, ok, err, fault, fail, ◌>>=◌, bind_run, bind_stop, generic, truncated_packet,
}
use trilogy.Wire.{le, lenenc}
use trilogy.Reader.{size_mod, check, get_uint8, get_uint16, get_lenenc}
use trilogy.Reader.View.{Views-reader_init}
use trilogy.Reader.Decode.{Decodes-uint8, Decodes-uint16}
use trilogy.Reader.Lenenc.{Decodes-lenenc}
use trilogy.Reader.Breaks.{Breaks, Breaks-bytes, Breaks-bind, Breaks-first, Breaks-check}
use trilogy.Protocol.Types.{has, OkPacket, ErrPacket, capabilities_protocol_41, max_last_gtid_len}
use trilogy.Protocol.Replies.{
  parse_packet, parse_ok_packet, parse_ok_fields, ok_flags, parse_err_packet,
}
use trilogy.Protocol.RoundTrip.Replies.{err_bytes, IsErr, parse_err_packet-err_bytes}
use trilogy.Protocol.RoundTrip.Ok.{
  Session, with_session, IsSession, ok_head, ok_bytes, parse_ok_packet-ok_bytes,
}
use trilogy.Client.Connection.{Connection, modify, asks, packet, packet_byte, lift}
use trilogy.Client.Responses.{
  current_packet_type, set_error, set_status, set_gtid, set_ok, read_ok_packet, read_err_packet,
  handle_generic_response,
}
use trilogy.Client.Commands.{set_option_response}

-- An ERR packet as the answer to a command makes the call return TRILOGY_ERR, with the code and the message of the packet
-- in the connection and nothing else changed there. The packet is well-formed and fits the address space.
pub handle_generic_response-err_bytes :
    {W : Type 0} (p : ErrPacket) (c : Connection W)
    → packet c ≡ err_bytes p c.capabilities
    → IsErr p c.capabilities
    → length (err_bytes p c.capabilities) < size_mod
    → handle_generic_response c ≡ (err generic, set_error p c)
unfolding handle_generic_response read_err_packet packet_byte asks lift modify fail
handle_generic_response-err_bytes p c e w short =
    bind_run current_packet_type _
      (ap (λ l. elim (get_elem? l 0) [ none ↦ (fault, c) | some b ↦ (ok b, c) ]) e)
    ∙ bind_run (asks (λ c. parse_err_packet (packet c) c.capabilities)) _ refl
    ∙ bind_run (lift (parse_err_packet (packet c) c.capabilities)) _ (
        ap (λ o. (o, c))
          (ap (λ l. parse_err_packet l c.capabilities) e
            ∙ parse_err_packet-err_bytes p c.capabilities w short))
    ∙ bind_run (modify (set_error p)) _ refl

-- An OK packet as the answer to a command makes the call return TRILOGY_OK, with the packet taken over.
pub handle_generic_response-ok_bytes :
    {W : Type 0} (affected insert_id status warnings : ℕ) (session : Session) (c : Connection W)
    → packet c ≡ ok_bytes affected insert_id status warnings session
    → has c.capabilities capabilities_protocol_41 ≡ true
    → affected < 2 ^ 64
    → insert_id < 2 ^ 64
    → status < 2 ^ 16
    → warnings < 2 ^ 16
    → IsSession c.capabilities status session
    → length (ok_bytes affected insert_id status warnings session) < size_mod
    → handle_generic_response c
      ≡ (ok tt, set_ok (with_session session (ok_head affected insert_id status warnings)) c)
unfolding handle_generic_response read_ok_packet packet_byte asks lift modify
handle_generic_response-ok_bytes affected insert_id status warnings session c e p41 a_small i_small
      s_small w_small w short =
    bind_run current_packet_type _
      (ap (λ l. elim (get_elem? l 0) [ none ↦ (fault, c) | some b ↦ (ok b, c) ]) e)
    ∙ bind_run (asks (λ c. parse_ok_packet (packet c) c.capabilities)) _ refl
    ∙ bind_run (lift (parse_ok_packet (packet c) c.capabilities)) _ (
        ap (λ o. (o, c))
          (ap (λ l. parse_ok_packet l c.capabilities) e
            ∙ parse_ok_packet-ok_bytes c.capabilities affected insert_id status warnings session p41
                a_small i_small s_small w_small w short))

-- Taking a GTID over keeps it shorter than its array.
set_gtid_lem :
    {W : Type 0} (gtid : List ℕ) (c : Connection W)
    → length c.last_gtid < max_last_gtid_len
    → length (set_gtid gtid c).last_gtid < max_last_gtid_len
unfolding set_gtid
set_gtid_lem gtid c h = elim (Bool-cases (ltb (length gtid) max_last_gtid_len)) [
  | inl short ↦
      go (ltb 0 (length gtid)) (ltb (length gtid) max_last_gtid_len) (λ e. ltb→lt _ _ short)
  | inr long ↦
      go (ltb 0 (length gtid)) (ltb (length gtid) max_last_gtid_len) (λ e. absurd (no long e))
]
  where
    no : {b : Bool} → b ≡ false → b ≡ true → ⊥
    no e f = cc

    go :
        (a b : Bool)
        → (b ≡ true → length gtid < max_last_gtid_len)
        → length (if a && b then record c { last_gtid = gtid } else c).last_gtid < max_last_gtid_len
    go true true short = short refl
    go true false short = h
    go false b short = h

set_status-gtid :
    {W : Type 0} (warnings status : ℕ) (c : Connection W)
    → (set_status warnings status c).last_gtid ≡ c.last_gtid
unfolding set_status
set_status-gtid warnings status c = go (has c.capabilities capabilities_protocol_41)
  where
    go :
        (b : Bool)
        → (if b then record c { warning_count = warnings; server_status = status } else c).last_gtid
          ≡ c.last_gtid
    go true = refl
    go false = refl

-- Whatever packet read_ok_packet reads, and whether it succeeds or fails, a GTID that is shorter than its array stays
-- shorter than it.
pub read_ok_packet-gtid :
    {W : Type 0} (c : Connection W)
    → length c.last_gtid < max_last_gtid_len
    → length (read_ok_packet c).1.last_gtid < max_last_gtid_len
unfolding read_ok_packet asks lift modify set_ok ◌>>=◌
read_ok_packet-gtid c h = go (parse_ok_packet (packet c) c.capabilities)
  where
    kept : (p : OkPacket) → length (set_ok p c).last_gtid < max_last_gtid_len
    kept p = set_gtid_lem p.last_gtid _ (
        subst (λ l. length l < max_last_gtid_len)
          (sym (set_status-gtid p.warning_count p.status_flags c)) h)

    go :
        (o : Result OkPacket)
        → length ((lift o >>= λ ok_packet. modify (set_ok ok_packet)) c).1.last_gtid
          < max_last_gtid_len
    go (ok p) = kept p
    go (err e) = h
    go fault = h

lenenc_one : (v : ℕ) → v < 251 → lenenc v ≡ v ∷ []
unfolding lenenc
lenenc_one v h = rw (lt→ltb v 251 h) refl

-- A word where the status and the warnings are expected.
ok_flags-Breaks :
    (status caps : ℕ)
    → has caps capabilities_protocol_41 ≡ true
    → status < 2 ^ 16
    → Breaks (ok_flags caps) (le 2 status) truncated_packet
unfolding ok_flags get_uint16
ok_flags-Breaks status caps p41 fits = rw p41 (
    Breaks-bytes
      (Breaks-bind get_uint16 _ (Decodes-uint16 status fits)
        (Breaks-first get_uint16 _ (Breaks-first (check 2) _ (Breaks-check 2 [] (omega arith)))))
      (append-nil (le 2 status)))

-- A true EOF packet, read as an OK packet, ends in the middle.
parse_ok_packet-eof :
    (warnings status caps : ℕ)
    → has caps capabilities_protocol_41 ≡ true
    → warnings < 251
    → status < 2 ^ 16
    → parse_ok_packet (0xfe ∷ [] ++ (le 2 warnings ++ le 2 status)) caps ≡ err truncated_packet
unfolding parse_ok_packet parse_packet parse_ok_fields
parse_ok_packet-eof warnings status caps p41 few fits =
    (Breaks-bind get_uint8 _ (Decodes-uint8 0xfe) (
        Breaks-bytes
          (Breaks-bind get_lenenc _ (Decodes-lenenc warnings (omega (arith, few))) (
            Breaks-bind get_lenenc _ (Decodes-lenenc 0 (omega arith))
              (Breaks-first (ok_flags caps) _ (ok_flags-Breaks status caps p41 fits))))
          bytes)).at
      _ (Views-reader_init _ (omega arith))
  where
    short : lenenc warnings ++ (lenenc 0 ++ le 2 status) ≡ warnings ∷ 0 ∷ le 2 status
    short = λ i. lenenc_one warnings few i ++ (lenenc_one 0 (omega arith) i ++ le 2 status)

    bytes : lenenc warnings ++ (lenenc 0 ++ le 2 status) ≡ le 2 warnings ++ le 2 status
    bytes =
        let low : warnings ≡ warnings % 256 = omega (arith, few) in
        let high : 0 ≡ warnings / 256 % 256 = omega (arith, few) in
        short ∙ (λ i. low i ∷ high i ∷ le 2 status)

-- Under CLIENT_PROTOCOL_41 the answer to COM_SET_OPTION is refused where the server sends a true EOF packet, with fewer
-- than 251 warnings: the call returns TRILOGY_TRUNCATED_PACKET, and nothing of the connection changes.
pub set_option_response-eof :
    {W : Type 0} (warnings status : ℕ) (c : Connection W)
    → has c.capabilities capabilities_protocol_41 ≡ true
    → warnings < 251
    → status < 2 ^ 16
    → packet c ≡ 0xfe ∷ [] ++ (le 2 warnings ++ le 2 status)
    → set_option_response c ≡ (err truncated_packet, c)
unfolding set_option_response read_ok_packet packet_byte asks lift modify
set_option_response-eof warnings status c p41 few fits e =
    bind_run current_packet_type _
      (ap (λ l. elim (get_elem? l 0) [ none ↦ (fault, c) | some b ↦ (ok b, c) ]) e)
    ∙ bind_run (asks (λ c. parse_ok_packet (packet c) c.capabilities)) _ refl
    ∙ bind_stop (lift (parse_ok_packet (packet c) c.capabilities)) _ (
        ap (λ o. (o, c))
          (ap (λ l. parse_ok_packet l c.capabilities) e
            ∙ parse_ok_packet-eof warnings status c.capabilities p41 few fits))

-- ===== src/Protocol/RoundTrip/Ok.antt =====
-- OK packets, with the session's state that they track.
use trilogy.Prelude.{
  ℕ, ◌+◌, ◌^◌, ◌<◌, ◌≡◌, arith, true, false, List, [], ◌∷◌, ◌++◌, length, length-append, ok, done,
  All,
}
use trilogy.Wire.{le, lenenc, lenenc_str}
use trilogy.Reader.{size_mod, get_uint8, get_lenenc, get_lenenc_buffer}
use trilogy.Reader.Decode.{
  Decodes, Ends, Decodes-bind, Ends-bind, Decodes-done, Decodes-uint8, Decodes-uint16,
  Ends-eof_buffer,
}
use trilogy.Reader.Lenenc.{Decodes-lenenc, Decodes-lenenc_buffer}
use trilogy.Protocol.Types.{
  has, OkPacket, capabilities_protocol_41, capabilities_session_track,
  server_status_session_state_changed,
}
use trilogy.Protocol.Replies.{
  nested, track_loop, state_changes, ok_rest, ok_flags, parse_ok_fields, parse_ok_packet,
}
use trilogy.Protocol.RoundTrip.{parse_packet-Ends, Ends-finished, Ends-last, Decodes-last}
use trilogy.Protocol.RoundTrip.Track.{
  Entry, entries_bytes, IsEntry, last_gtid, Ends-not_eof, Ends-at_any, Decodes-nested,
  Ends-track_loop, Decodes-track_loop, length-lenenc,
}

-- What is behind the flags: a text, or under CLIENT_SESSION_TRACK a status with the changes of the session, if any.
pub data Session : Type 0 where
  untracked : List ℕ → Session
  unchanged : List ℕ → Session
  changed : List ℕ → List Entry → Session

abbrev pub session_bytes : Session → List ℕ
session_bytes (untracked info) = info
session_bytes (unchanged status) = lenenc_str status
session_bytes (changed status es) = lenenc_str status ++ lenenc_str (entries_bytes es)

abbrev pub with_session : Session → OkPacket → OkPacket
with_session (untracked info) p = record p { info = info }
with_session (unchanged status) p = record p { session_status = status }
with_session (changed status es) p = record p {
  session_status = status;
  session_state_changes = entries_bytes es;
  last_gtid = last_gtid es [];
}

abbrev pub IsSession : ℕ → ℕ → Session → Type 0
IsSession caps flags (untracked info) = has caps capabilities_session_track ≡ false
IsSession caps flags (unchanged status) =
    (has caps capabilities_session_track ≡ true)
    × (has flags server_status_session_state_changed ≡ false)
    × (length status < 2 ^ 62)
IsSession caps flags (changed status es) =
    (has caps capabilities_session_track ≡ true)
    × (has flags server_status_session_state_changed ≡ true)
    × (length status < 2 ^ 62)
    × (length (entries_bytes es) < 2 ^ 62)
    × All IsEntry es

-- The fields in front of the session, under CLIENT_PROTOCOL_41.
abbrev pub ok_head : ℕ → ℕ → ℕ → ℕ → OkPacket
ok_head affected insert_id status warnings = record {
  affected_rows = affected;
  last_insert_id = insert_id;
  status_flags = status;
  warning_count = warnings;
  txn_status_flags = 0;
  session_status = [];
  session_state_changes = [];
  info = [];
  last_gtid = [];
}

Ends-ok_rest :
    (caps a i status warnings : ℕ) (session : Session)
    → IsSession caps status session
    → Ends
        (ok_rest caps (ok_head a i status warnings))
        (session_bytes session)
        (with_session session (ok_head a i status warnings))
unfolding ok_rest state_changes
Ends-ok_rest caps a i status warnings (untracked info) w =
    Ends-at_any _ (λ b. rw w (Ends-eof_buffer _ (Ends-finished _)))
Ends-ok_rest caps a i status warnings (unchanged state) w =
    Ends-not_eof _
      (omega (arith, length-append (lenenc (length state)) state, length-lenenc (length state)))
      (rw (w.0, w.1)
        (Ends-last get_lenenc_buffer _ (Decodes-lenenc_buffer state (omega (arith, w.2))) (
          Ends-bind (done []) _ (Decodes-done []) (
            Ends-bind (nested [] (track_loop 1 [])) _
              (Decodes-nested [] (track_loop 1 []) (Ends-track_loop 1 [] [] (omega arith) tt)
                (omega arith))
              (Ends-finished _)))))
Ends-ok_rest caps a i status warnings (changed state es) w =
    Ends-not_eof _
      (omega (
        arith,
        length-append (lenenc_str state) (lenenc_str (entries_bytes es)),
        length-append (lenenc (length state)) state,
        length-lenenc (length state),
      ))
      (rw (w.0, w.1)
        (Ends-bind get_lenenc_buffer _ (Decodes-lenenc_buffer state (omega (arith, w.2))) (
          Ends-last get_lenenc_buffer _
            (Decodes-lenenc_buffer (entries_bytes es) (omega (arith, w.3)))
            (Ends-bind (nested (entries_bytes es) (track_loop (length (entries_bytes es) + 1) [])) _
              (Decodes-track_loop es w.3 w.4) (Ends-finished _)))))

-- An OK packet of the protocol 4.1.
abbrev pub ok_bytes : ℕ → ℕ → ℕ → ℕ → Session → List ℕ
ok_bytes affected insert_id status warnings session =
    0 ∷ []
    ++ (lenenc affected
        ++ (lenenc insert_id ++ ((le 2 status ++ le 2 warnings) ++ session_bytes session)))

Decodes-ok_flags :
    (caps status warnings : ℕ)
    → has caps capabilities_protocol_41 ≡ true
    → status < 2 ^ 16
    → warnings < 2 ^ 16
    → Decodes (ok_flags caps) (le 2 status ++ le 2 warnings) (status, warnings, 0)
unfolding ok_flags
Decodes-ok_flags caps status warnings e h h' = rw e (
    Decodes-bind _ _ (Decodes-uint16 status h)
      (Decodes-last _ _ (Decodes-uint16 warnings h') (Decodes-done _)))

pub parse_ok_packet-ok_bytes :
    (caps affected insert_id status warnings : ℕ) (session : Session)
    → has caps capabilities_protocol_41 ≡ true
    → affected < 2 ^ 64
    → insert_id < 2 ^ 64
    → status < 2 ^ 16
    → warnings < 2 ^ 16
    → IsSession caps status session
    → length (ok_bytes affected insert_id status warnings session) < size_mod
    → parse_ok_packet (ok_bytes affected insert_id status warnings session) caps
      ≡ ok (with_session session (ok_head affected insert_id status warnings))
unfolding parse_ok_packet parse_ok_fields
parse_ok_packet-ok_bytes caps affected insert_id status warnings session e a_small i_small s_small
      w_small w short =
    parse_packet-Ends _ (ok_bytes affected insert_id status warnings session) _
      (Ends-bind get_uint8 _ (Decodes-uint8 0) (
        Ends-bind get_lenenc _ (Decodes-lenenc affected a_small) (
          Ends-bind get_lenenc _ (Decodes-lenenc insert_id i_small) (
            Ends-bind (ok_flags caps) _ (Decodes-ok_flags caps status warnings e s_small w_small)
              (Ends-ok_rest caps affected insert_id status warnings session w)))))
      short

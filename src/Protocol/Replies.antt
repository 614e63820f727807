-- ===== src/Protocol/Replies.antt =====
-- src/protocol.c: the parsers of the OK, EOF and ERR packets.
use trilogy.Prelude.{
  ℕ, zero, suc, ◌+◌, ltb, ◌==◌, Bool, if◌then◌else◌, ◌&&◌, not, List, [], length, replicate, Run,
  Result, ok, fault, fail_if, done, ◌>>=◌, ◌>>◌, protocol_violation,
}
use trilogy.Reader.{
  Reader, reader_init, reader_eof, get_uint8, get_uint16, get_lenenc, copy_buffer,
  get_lenenc_buffer, get_eof_buffer, finish,
}
use trilogy.Protocol.Types.{
  has, OkPacket, EofPacket, ErrPacket, capabilities_protocol_41, capabilities_transactions,
  capabilities_session_track, server_status_session_state_changed, session_track_gtids,
  max_last_gtid_len,
}

unfoldable pub at_eof : Run Reader Bool
at_eof r = (ok (reader_eof r), r)

-- A second reader over the bytes `d`, while the first one stands still.
unfoldable pub nested : {A : Type 0} → List ℕ → Run Reader A → Run Reader A
nested d m r = ((m (reader_init d (length d))).0, r)

-- A loop that has run out of fuel, which counts as a fault.
unfoldable pub out_of_fuel : {A : Type 0} → Run Reader A
out_of_fuel r = (fault, r)

-- The entry of type TRILOGY_SESSION_TRACK_GTIDS.
unfoldable pub gtid_entry : Run Reader (List ℕ)
gtid_entry = do
  get_uint8
  gtid ← get_lenenc_buffer
  fail_if (ltb max_last_gtid_len (length gtid)) protocol_violation
  done gtid

-- One pass of the switch over the type of an entry.
unfoldable pub track_entry : ℕ → List ℕ → List ℕ → Run Reader (List ℕ)
track_entry type info gtid =
    if type == session_track_gtids then nested info gtid_entry else done gtid

-- `while (!trilogy_reader_eof(&state_reader))`: every pass takes a byte at least.
unfoldable pub track_loop : ℕ → List ℕ → Run Reader (List ℕ)
track_loop zero gtid = out_of_fuel
track_loop (suc fuel) gtid = do
  ended ← at_eof
  if ended then done gtid else (do
    type ← get_uint8
    info ← get_lenenc_buffer
    gtid' ← track_entry type info gtid
    track_loop fuel gtid')

unfoldable pub state_changes : Bool → Run Reader (List ℕ)
state_changes changed = if changed then get_lenenc_buffer else done []

-- What follows the status flags, from session tracking to the end.
unfoldable pub ok_rest : ℕ → OkPacket → Run Reader OkPacket
ok_rest caps p = do
  ended ← at_eof
  if has caps capabilities_session_track && not ended
      then (do
        status ← get_lenenc_buffer
        changes ← state_changes (has p.status_flags server_status_session_state_changed)
        gtid ← nested changes (track_loop (length changes + 1) [])
        finish
        done (record p {
          session_status = status;
          session_state_changes = changes;
          last_gtid = gtid;
        }))
      else (do info ← get_eof_buffer; finish; done (record p { info = info }))

-- The three flag words: status flags, warning count, transaction status.
unfoldable pub ok_flags : ℕ → Run Reader (ℕ × ℕ × ℕ)
ok_flags caps =
    if has caps capabilities_protocol_41
    then (do status ← get_uint16; warnings ← get_uint16; done (status, warnings, 0))
    else if has caps capabilities_transactions
    then (do txn ← get_uint16; done (0, 0, txn))
    else done (0, 0, 0)

unfoldable pub parse_ok_fields : ℕ → Run Reader OkPacket
parse_ok_fields caps = do
  get_uint8
  affected ← get_lenenc
  insert_id ← get_lenenc
  (status, warnings, txn) ← ok_flags caps
  ok_rest caps (record {
    affected_rows = affected;
    last_insert_id = insert_id;
    status_flags = status;
    warning_count = warnings;
    txn_status_flags = txn;
    session_status = [];
    session_state_changes = [];
    info = [];
    last_gtid = [];
  })

-- Each `parse_…_packet` runs its fields over a reader of the `len` bytes of `buff`.
unfoldable pub parse_packet : {A : Type 0} → Run Reader A → List ℕ → Result A
parse_packet m buff = (m (reader_init buff (length buff))).0

unfoldable pub parse_ok_packet : List ℕ → ℕ → Result OkPacket
parse_ok_packet buff caps = parse_packet (parse_ok_fields caps) buff

unfoldable pub parse_eof_fields : ℕ → Run Reader EofPacket
parse_eof_fields caps = do
  get_uint8
  p ←
      (if has caps capabilities_protocol_41
        then (do
          warnings ← get_uint16
          status ← get_uint16
          done (record { warning_count = warnings; status_flags = status }))
        else done (record { warning_count = 0; status_flags = 0 }))
  finish
  done p

unfoldable pub parse_eof_packet : List ℕ → ℕ → Result EofPacket
parse_eof_packet buff caps = parse_packet (parse_eof_fields caps) buff

unfoldable pub sql_state_fields : ℕ → Run Reader (ℕ × List ℕ)
sql_state_fields caps =
    if has caps capabilities_protocol_41
    then (do marker ← get_uint8; state ← copy_buffer 5; done (marker, state))
    else done (0, replicate 5 0)

unfoldable pub parse_err_fields : ℕ → Run Reader ErrPacket
parse_err_fields caps = do
  get_uint8
  code ← get_uint16
  (marker, state) ← sql_state_fields caps
  message ← get_eof_buffer
  finish
  done (record {
    error_code = code;
    sql_state_marker = marker;
    sql_state = state;
    error_message = message;
  })

unfoldable pub parse_err_packet : List ℕ → ℕ → Result ErrPacket
parse_err_packet buff caps = parse_packet (parse_err_fields caps) buff

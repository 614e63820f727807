-- ===== src/Protocol/RoundTrip.antt =====
-- What the parsers make of the packets that the protocol's documents describe. The encodings are stated in the
-- modules below, apart from the code.
pub mod Column
pub mod Row
pub mod Replies
pub mod Ok
pub mod Track
pub mod Handshake
use mathlib.Core.Path.{subst}
use trilogy.Prelude.{
  ℕ, zero, suc, ◌+◌, ◌*◌, ◌/◌, ◌%◌, ◌^◌, ◌≤◌, ◌<◌, ◌≡◌, refl, sym, ap, ◌∙◌, arith, Bool, true,
  false, List, [], ◌∷◌, ◌++◌, append_assoc, append-nil, length, All, replicate, Option, none, some,
  Result, Run, ok, err, null_value, done, fail, fail_if, ◌>>=◌, ◌>>◌, Rc, bind_ok, bind_err, ltb_ge,
  ltb, bind_run, if◌then◌else◌,
}
use trilogy.Wire.{le, lenenc, lenenc_str, nul_str, NoZero}
use trilogy.Reader.{
  Reader, size_mod, get_uint8, get_uint16, get_uint32, remaining, get_lenenc, get_lenenc_buffer,
  get_eof_buffer, finish, next_uint8, check, lenenc_tail,
}
use trilogy.Reader.View.{Views, Views-remaining, Views-reader_init}
use trilogy.Reader.Decode.{
  Decodes, Ends, Decodes-bind, Ends-bind, Decodes-done, Ends-done, Decodes-uint8, Decodes-uint16,
  Decodes-uint32, Ends-finish, Ends-eof_buffer, Decodes-next, Decodes-checked,
}
use trilogy.Reader.Lenenc.{Decodes-lenenc, Decodes-lenenc_buffer, Decodes-copy}
use trilogy.Protocol.Types.{
  has, ColumnPacket, StmtOkPacket, ErrPacket, EofPacket, capabilities_protocol_41,
}
use trilogy.Protocol.Replies.{
  parse_packet, parse_err_packet, parse_err_fields, sql_state_fields, parse_eof_packet,
  parse_eof_fields,
}
use trilogy.Protocol.Rows.{
  null_as_value, get_value, row_loop, parse_row_fields, parse_row_packet, parse_column_packet,
  parse_column_fields, column_default, parse_stmt_ok_packet, parse_stmt_ok_fields,
  parse_result_packet, parse_result_fields,
}

pub parse_packet-Ends :
    {A : Type 0} (m : Run Reader A) (buff : List ℕ) (a : A)
    → Ends m buff a
    → length buff < size_mod
    → parse_packet m buff ≡ ok a
unfolding parse_packet
parse_packet-Ends m buff a e h = e.at _ (Views-reader_init buff h)

-- `finish` behind the last field.
pub Ends-finished : {A : Type 0} (a : A) → Ends (finish >> done a) [] a
unfolding finish fail_if done ◌>>=◌
Ends-finished a = record { at = λ r v. rw (ltb_ge r.pos r.len (omega (arith, v.count))) refl }

pub Ends-last :
    {A B : Type 0} (m : Run Reader A) (f : A → Run Reader B) {xs : List ℕ} {a : A} {b : B}
    → Decodes m xs a
    → Ends (f a) [] b
    → Ends (m >>= f) xs b
Ends-last m f {xs} {b} d e = subst (λ l. Ends (m >>= f) l b) (append-nil xs) (Ends-bind m f d e)

pub Decodes-last :
    {A B : Type 0} (m : Run Reader A) (f : A → Run Reader B) {xs : List ℕ} {a : A} {b : B}
    → Decodes m xs a
    → Decodes (f a) [] b
    → Decodes (m >>= f) xs b
Decodes-last m f {xs} {b} d e =
    subst (λ l. Decodes (m >>= f) l b) (append-nil xs) (Decodes-bind m f d e)

-- Behind a test that passes.
pub Ends-passed :
    {A : Type 0} (e : Rc) (m : Run Reader A) {xs : List ℕ} {a : A}
    → Ends m xs a
    → Ends (fail_if false e >> m) xs a
unfolding fail_if ◌>>=◌
Ends-passed e m h = record { at = λ r v. h.at r v }

pub Decodes-passed :
    {A : Type 0} (e : Rc) (m : Run Reader A) {xs : List ℕ} {a : A}
    → Decodes m xs a
    → Decodes (fail_if false e >> m) xs a
unfolding fail_if ◌>>=◌
Decodes-passed e m h = record { at = λ r ys v. h.at r ys v }

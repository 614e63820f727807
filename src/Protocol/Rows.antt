-- ===== src/Protocol/Rows.antt =====
-- src/protocol.c: the parsers of the result, row, column and prepared-statement packets.
use trilogy.Prelude.{
  ℕ, zero, suc, ◌==◌, Bool, if◌then◌else◌, not, List, [], ◌∷◌, Option, none, some, Run, Result, ok,
  err, fault, fail_if, done, ◌>>=◌, ◌>>◌, null_value, protocol_violation,
}
use trilogy.Reader.{
  Reader, get_uint8, get_uint16, get_uint32, get_lenenc, get_lenenc_buffer, finish,
}
use trilogy.Protocol.Types.{ColumnPacket, StmtOkPacket}
use trilogy.Protocol.Replies.{parse_packet}

unfoldable pub parse_result_fields : Run Reader ℕ
parse_result_fields = do column_count ← get_lenenc; finish; done column_count

unfoldable pub parse_result_packet : List ℕ → Result ℕ
parse_result_packet buff = parse_packet parse_result_fields buff

-- The switch on `rc` in trilogy_parse_row_packet: TRILOGY_NULL_VALUE is a value too.
unfoldable pub null_as_value : Result (List ℕ) → Result (Option (List ℕ))
null_as_value (ok d) = ok (some d)
null_as_value (err null_value) = ok none
null_as_value (err e) = err e
null_as_value fault = fault

-- One trilogy_value_t; `none` is a value with `is_null` set.
unfoldable pub get_value : Run Reader (Option (List ℕ))
unfolding null_as_value
get_value r = (null_as_value (get_lenenc_buffer r).0, (get_lenenc_buffer r).1)

unfoldable pub row_loop : ℕ → Run Reader (List (Option (List ℕ)))
row_loop zero = done []
row_loop (suc n) = do v ← get_value; vs ← row_loop n; done (v ∷ vs)

unfoldable pub parse_row_fields : ℕ → Run Reader (List (Option (List ℕ)))
parse_row_fields column_count = do values ← row_loop column_count; finish; done values

unfoldable pub parse_row_packet : List ℕ → ℕ → Result (List (Option (List ℕ)))
parse_row_packet buff column_count = parse_packet (parse_row_fields column_count) buff

unfoldable pub column_default : Bool → Run Reader (List ℕ)
column_default field_list = if field_list then get_lenenc_buffer else done []

unfoldable pub parse_column_fields : Bool → Run Reader ColumnPacket
parse_column_fields field_list = do
  catalog ← get_lenenc_buffer
  schema ← get_lenenc_buffer
  table ← get_lenenc_buffer
  original_table ← get_lenenc_buffer
  name ← get_lenenc_buffer
  original_name ← get_lenenc_buffer
  get_lenenc
  charset ← get_uint16
  len ← get_uint32
  type ← get_uint8
  flags ← get_uint16
  decimals ← get_uint8
  get_uint16
  default_value ← column_default field_list
  finish
  done (record {
    catalog = catalog;
    schema = schema;
    table = table;
    original_table = original_table;
    name = name;
    original_name = original_name;
    charset = charset;
    len = len;
    type = type;
    flags = flags;
    decimals = decimals;
    default_value = default_value;
  })

unfoldable pub parse_column_packet : List ℕ → Bool → Result ColumnPacket
parse_column_packet buff field_list = parse_packet (parse_column_fields field_list) buff

unfoldable pub parse_stmt_ok_fields : Run Reader StmtOkPacket
parse_stmt_ok_fields = do
  get_uint8
  id ← get_uint32
  column_count ← get_uint16
  parameter_count ← get_uint16
  filler ← get_uint8
  fail_if (not (filler == 0)) protocol_violation
  warning_count ← get_uint16
  finish
  done (record {
    id = id;
    column_count = column_count;
    parameter_count = parameter_count;
    warning_count = warning_count;
  })

unfoldable pub parse_stmt_ok_packet : List ℕ → Result StmtOkPacket
parse_stmt_ok_packet buff = parse_packet parse_stmt_ok_fields buff

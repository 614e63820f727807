-- ===== src/Protocol/BinaryRow.antt =====
-- src/protocol.c: `is_null` and trilogy_parse_stmt_row_packet. The values are in and out: what the code
-- does not assign (`is_unsigned` of a signed column, `as` of a NULL) stays as the caller left it.
use trilogy.Prelude.{
  ℕ, ◌+◌, ◌-◌, ◌*◌, ◌/◌, ◌%◌, ◌^◌, ltb, ◌==◌, Bool, true, false, if◌then◌else◌, not, List, [], ◌∷◌,
  get_elem?, length, bit_and, Option, none, some, Run, Result, ok, fault, fail, fail_if, done,
  ◌>>=◌, ◌>>◌, protocol_violation, unknown_type,
}
use trilogy.Reader.{
  Reader, size_mod, get_uint8, get_uint16, get_uint32, get_uint64, get_float, get_double,
  get_buffer, get_lenenc_buffer, finish,
}
use trilogy.Protocol.Types.{ColumnPacket, has, column_flag_unsigned}
use trilogy.Protocol.BinaryValue.{
  Kind, int8, int16, int32, int64, flt, dbl, year, time, date, str, null, other, kind, Date, Time,
  As, as_uint8, as_uint16, as_uint32, as_uint64, as_flt, as_dbl, as_year, as_str, as_date, as_time,
  BinaryValue, type_null,
}
use trilogy.Protocol.Replies.{parse_packet}

-- A read of an array that the caller must have made long enough.
unfoldable pub elem_at : {A : Type 0} → Option A → Run Reader A
elem_at none r = (fault, r)
elem_at (some a) r = (ok a, r)

unfoldable pub is_null : List ℕ → ℕ → ℕ → Run Reader Bool
is_null null_bitmap bitmap_len column_offset = do
  fail_if (ltb ((bitmap_len * 8 % size_mod + size_mod - 1) % size_mod) column_offset)
      protocol_violation
  let offset = (column_offset + 2) % size_mod
  byte ← elem_at (get_elem? null_bitmap (offset / 8))
  done (not (bit_and byte (2 ^ (offset % 8)) == 0))

-- year, month and day
unfoldable pub get_day : Run Reader Date
get_day = do
  y ← get_uint16
  m ← get_uint8
  d ← get_uint8
  done
      (record { year = y; month = m; day = d; hour = 0; minute = 0; second = 0; micro_seconds = 0 })

-- the same with hour, minute and second
unfoldable pub get_moment : Run Reader Date
get_moment = do
  day ← get_day
  h ← get_uint8
  m ← get_uint8
  s ← get_uint8
  done (record day { hour = h; minute = m; second = s })

abbrev pub zero_date : Date
zero_date = record {
  year = 0;
  month = 0;
  day = 0;
  hour = 0;
  minute = 0;
  second = 0;
  micro_seconds = 0;
}

-- The switch over the length of a date.
unfoldable pub date_body : ℕ → Run Reader Date
date_body time_len =
    if time_len == 0
    then done zero_date
    else if time_len == 4
    then get_day
    else if time_len == 7
    then get_moment
    else if time_len == 11
    then (do t ← get_moment; us ← get_uint32; done (record t { micro_seconds = us }))
    else fail protocol_violation

-- sign, days, hour, minute and second
unfoldable pub get_span : Run Reader Time
get_span = do
  negative ← get_uint8
  days ← get_uint32
  h ← get_uint8
  m ← get_uint8
  s ← get_uint8
  done (record {
    is_negative = negative == 1;
    days = days;
    hour = h;
    minute = m;
    second = s;
    micro_seconds = 0;
  })

abbrev pub zero_time : Time
zero_time = record {
  is_negative = false;
  days = 0;
  hour = 0;
  minute = 0;
  second = 0;
  micro_seconds = 0;
}

-- The switch over the length of a time.
unfoldable pub time_body : ℕ → Run Reader Time
time_body time_len =
    if time_len == 0
    then done zero_time
    else if time_len == 8
    then get_span
    else if time_len == 12
    then (do t ← get_span; us ← get_uint32; done (record t { micro_seconds = us }))
    else fail protocol_violation

-- The switch over the type of a column, on a value that is not NULL.
unfoldable pub get_as : Kind → Run Reader As
get_as str = do d ← get_lenenc_buffer; done (as_str d)
get_as int64 = do v ← get_uint64; done (as_uint64 v)
get_as dbl = do v ← get_double; done (as_dbl v)
get_as int32 = do v ← get_uint32; done (as_uint32 v)
get_as flt = do v ← get_float; done (as_flt v)
get_as int16 = do v ← get_uint16; done (as_uint16 v)
get_as year = do v ← get_uint16; done (as_year v)
get_as int8 = do v ← get_uint8; done (as_uint8 v)
get_as date = do time_len ← get_uint8; d ← date_body time_len; done (as_date d)
get_as time = do time_len ← get_uint8; t ← time_body time_len; done (as_time t)
get_as null = fail unknown_type
get_as other = fail unknown_type

-- One column that is not NULL.
unfoldable pub get_binary_value : ColumnPacket → BinaryValue → Run Reader BinaryValue
get_binary_value c old = do
  v ← get_as (kind c.type)
  done (record {
    is_null = false;
    is_unsigned = if has c.flags column_flag_unsigned then true else old.is_unsigned;
    type = c.type;
    value = v;
  })

unfoldable pub binary_column : Bool → ColumnPacket → BinaryValue → Run Reader BinaryValue
binary_column column_is_null c old =
    if column_is_null
    then done (record old { is_null = true; type = type_null })
    else get_binary_value c old

-- The loop at column `i`, over the columns and the values that are left.
unfoldable pub binary_row_loop :
    List ℕ → ℕ → ℕ → List ColumnPacket → List BinaryValue → Run Reader (List BinaryValue)
binary_row_loop bitmap bitmap_len i [] olds = done []
binary_row_loop bitmap bitmap_len i (c ∷ cs) [] = elem_at none
binary_row_loop bitmap bitmap_len i (c ∷ cs) (old ∷ olds) = do
  column_is_null ← is_null bitmap bitmap_len i
  v ← binary_column column_is_null c old
  vs ← binary_row_loop bitmap bitmap_len (i + 1) cs olds
  done (v ∷ vs)

-- `column_count` is the length of `columns`.
unfoldable pub parse_stmt_row_fields :
    List ColumnPacket → List BinaryValue → Run Reader (List BinaryValue)
parse_stmt_row_fields columns olds = do
  get_uint8
  let bitmap_len = (length columns + 7 + 2) % size_mod / 8
  bitmap ← get_buffer bitmap_len
  values ← binary_row_loop bitmap bitmap_len 0 columns olds
  finish
  done values

unfoldable pub parse_stmt_row_packet :
    List ℕ → List ColumnPacket → List BinaryValue → Result (List BinaryValue)
parse_stmt_row_packet buff columns olds = parse_packet (parse_stmt_row_fields columns olds) buff

-- ===== src/Protocol/Execute.antt =====
-- src/protocol.c: trilogy_build_stmt_execute_packet.
pub mod Values
pub mod Packed
use trilogy.Prelude.{
  ℕ, ◌+◌, ◌%◌, ◌^◌, ltb, ◌==◌, bit_or, Bool, true, false, not, ◌||◌, if◌then◌else◌, List, [], ◌∷◌,
  length, take, Option, none, some, Run, fault, done, fail, ◌>>=◌, ◌>>◌, protocol_violation,
  unknown_type,
}
use trilogy.Builder.{
  Builder, write_uint8, write_uint16, write_uint32, write_uint64, write_float, write_double,
  write_lenenc_buffer, finalize,
}
use trilogy.Protocol.Commands.{cmd_stmt_execute}
use trilogy.Protocol.BinaryValue.{
  Kind, int8, int16, int32, int64, flt, dbl, year, time, date, str, null, other, kind, Date, Time,
  As, as_uint8, as_uint16, as_uint32, as_uint64, as_flt, as_dbl, as_year, as_str, as_date, as_time,
  BinaryValue,
}

-- A read of an array behind its end, or of a member of a union that was not the last one written.
unfoldable pub bad_read : Run Builder (Unit {0})
bad_read b = (fault, b)

unfoldable pub when : Bool → Run Builder (Unit {0}) → Run Builder (Unit {0})
when b m = if b then m else done tt

-- A bool in a byte.
abbrev pub bool_byte : Bool → ℕ
bool_byte b = if b then 1 else 0

-- `field_len`
unfoldable pub time_len : Time → ℕ
time_len t =
    if not (t.micro_seconds == 0)
    then 12
    else if not (t.hour == 0) || (not (t.minute == 0) || not (t.second == 0))
    then 8
    else 0

unfoldable pub date_len : Date → ℕ
date_len d =
    if not (d.micro_seconds == 0)
    then 11
    else if not (d.hour == 0) || (not (d.minute == 0) || not (d.second == 0))
    then 7
    else if not (d.year == 0) || (not (d.month == 0) || not (d.day == 0))
    then 4
    else 0

module _ (grants : ℕ → Bool) where
  -- The null bitmap from the bind `i` on, with the bits of the byte that is not full yet.
  unfoldable pub write_null_bits : ℕ → ℕ → List BinaryValue → Run Builder (Unit {0})
  write_null_bits i current_bits [] = when (not (i % 8 == 0)) (write_uint8 grants current_bits)
  write_null_bits i current_bits (v ∷ vs) = do
    let bits = if v.is_null then bit_or current_bits (2 ^ (i % 8)) else current_bits
    when (i % 8 == 7) (write_uint8 grants bits)
    write_null_bits (i + 1) (if i % 8 == 7 then 0 else bits) vs

  unfoldable pub write_types : List BinaryValue → Run Builder (Unit {0})
  write_types [] = done tt
  write_types (v ∷ vs) = do
    write_uint8 grants v.type
    write_uint8 grants (if v.is_unsigned then 0x80 else 0x00)
    write_types vs

  unfoldable pub write_time : Time → Run Builder (Unit {0})
  write_time t = do
    write_uint8 grants (time_len t)
    when (ltb 0 (time_len t)) (do
      write_uint8 grants (bool_byte t.is_negative)
      write_uint32 grants t.days
      write_uint8 grants t.hour
      write_uint8 grants t.minute
      write_uint8 grants t.second
      when (ltb 8 (time_len t)) (write_uint32 grants t.micro_seconds))

  unfoldable pub write_date : Date → Run Builder (Unit {0})
  write_date d = do
    write_uint8 grants (date_len d)
    when (ltb 0 (date_len d)) (do
      write_uint16 grants d.year
      write_uint8 grants d.month
      write_uint8 grants d.day
      when (ltb 4 (date_len d)) (do
        write_uint8 grants d.hour
        write_uint8 grants d.minute
        write_uint8 grants d.second
        when (ltb 7 (date_len d)) (write_uint32 grants d.micro_seconds)))

  -- The switch over the type of a bind.
  unfoldable pub write_as : Kind → As → Run Builder (Unit {0})
  write_as int8 (as_uint8 v) = write_uint8 grants v
  write_as int16 (as_uint16 v) = write_uint16 grants v
  write_as int32 (as_uint32 v) = write_uint32 grants v
  write_as int64 (as_uint64 v) = write_uint64 grants v
  write_as flt (as_flt v) = write_float grants v
  write_as dbl (as_dbl v) = write_double grants v
  write_as year (as_year v) = write_uint16 grants v
  write_as time (as_time t) = write_time t
  write_as date (as_date d) = write_date d
  write_as str (as_str d) = write_lenenc_buffer grants d
  write_as null v = done tt
  write_as other v = fail unknown_type
  write_as k v = bad_read

  unfoldable pub write_values : List BinaryValue → Run Builder (Unit {0})
  write_values [] = done tt
  write_values (v ∷ vs) = do write_as (kind v.type) v.value; write_values vs

  unfoldable pub write_binds : List BinaryValue → Run Builder (Unit {0})
  write_binds vs = do
    write_null_bits 0 0 vs
    write_uint8 grants 0x1
    write_types vs
    write_values vs

  -- `none` is NULL; an array holds `num_binds` binds at least.
  unfoldable pub write_array : Option (List BinaryValue) → ℕ → Run Builder (Unit {0})
  write_array none num_binds = fail protocol_violation
  write_array (some vs) num_binds =
      if ltb (length vs) num_binds then bad_read else write_binds (take num_binds vs)

  unfoldable pub build_stmt_execute_packet :
      ℕ → ℕ → Option (List BinaryValue) → ℕ → Run Builder (Unit {0})
  build_stmt_execute_packet stmt_id flags binds num_binds = do
    write_uint8 grants cmd_stmt_execute
    write_uint32 grants stmt_id
    write_uint8 grants flags
    write_uint32 grants 1
    when (not (num_binds == 0)) (write_array binds num_binds)
    finalize

-- ===== src/Protocol/BinaryValue.antt =====
-- inc/trilogy/protocol.h: the column types and trilogy_binary_value_t.
use trilogy.Prelude.{ℕ, Bool, ◌==◌, ◌||◌, if◌then◌else◌, List}

-- TRILOGY_TYPES
abbrev pub type_decimal : ℕ
type_decimal = 0x00

abbrev pub type_tiny : ℕ
type_tiny = 0x01

abbrev pub type_short : ℕ
type_short = 0x02

abbrev pub type_long : ℕ
type_long = 0x03

abbrev pub type_float : ℕ
type_float = 0x04

abbrev pub type_double : ℕ
type_double = 0x05

abbrev pub type_null : ℕ
type_null = 0x06

abbrev pub type_timestamp : ℕ
type_timestamp = 0x07

abbrev pub type_longlong : ℕ
type_longlong = 0x08

abbrev pub type_int24 : ℕ
type_int24 = 0x09

abbrev pub type_date : ℕ
type_date = 0x0a

abbrev pub type_time : ℕ
type_time = 0x0b

abbrev pub type_datetime : ℕ
type_datetime = 0x0c

abbrev pub type_year : ℕ
type_year = 0x0d

abbrev pub type_varchar : ℕ
type_varchar = 0x0f

abbrev pub type_bit : ℕ
type_bit = 0x10

abbrev pub type_vector : ℕ
type_vector = 0xf2

abbrev pub type_json : ℕ
type_json = 0xf5

abbrev pub type_newdecimal : ℕ
type_newdecimal = 0xf6

abbrev pub type_enum : ℕ
type_enum = 0xf7

abbrev pub type_set : ℕ
type_set = 0xf8

abbrev pub type_tiny_blob : ℕ
type_tiny_blob = 0xf9

abbrev pub type_medium_blob : ℕ
type_medium_blob = 0xfa

abbrev pub type_long_blob : ℕ
type_long_blob = 0xfb

abbrev pub type_blob : ℕ
type_blob = 0xfc

abbrev pub type_var_string : ℕ
type_var_string = 0xfd

abbrev pub type_string : ℕ
type_string = 0xfe

abbrev pub type_geometry : ℕ
type_geometry = 0xff

-- The case labels of the switches over a type in trilogy_build_stmt_execute_packet and
-- trilogy_parse_stmt_row_packet, which group the types alike; `other` is their default.
pub data Kind : Type 0 where
  int8 int16 int32 int64 flt dbl year time date str null other : Kind

abbrev pub is_str_type : ℕ → Bool
is_str_type t =
    t == type_decimal
    || t == type_varchar
    || t == type_bit
    || t == type_newdecimal
    || t == type_enum
    || t == type_set
    || t == type_tiny_blob
    || t == type_blob
    || t == type_medium_blob
    || t == type_long_blob
    || t == type_var_string
    || t == type_string
    || t == type_geometry
    || t == type_json
    || t == type_vector

unfoldable pub kind : ℕ → Kind
kind t =
    if t == type_tiny
    then int8
    else if t == type_short
    then int16
    else if t == type_int24 || t == type_long
    then int32
    else if t == type_longlong
    then int64
    else if t == type_float
    then flt
    else if t == type_double
    then dbl
    else if t == type_year
    then year
    else if t == type_time
    then time
    else if t == type_date || t == type_datetime || t == type_timestamp
    then date
    else if is_str_type t
    then str
    else if t == type_null
    then null
    else other

-- as.date and as.time
pub record Date : Type 0 where
  pub year : ℕ
  pub month : ℕ
  pub day : ℕ
  pub hour : ℕ
  pub minute : ℕ
  pub second : ℕ
  pub micro_seconds : ℕ

pub record Time : Type 0 where
  pub is_negative : Bool
  pub days : ℕ
  pub hour : ℕ
  pub minute : ℕ
  pub second : ℕ
  pub micro_seconds : ℕ

-- The union `as`, by the member that was written last. Signed members share the bits of the
-- unsigned ones, and a float or double is its bit pattern.
pub data As : Type 0 where
  as_uint8 as_uint16 as_uint32 as_uint64 as_flt as_dbl as_year : ℕ → As
  as_str : List ℕ → As
  as_date : Date → As
  as_time : Time → As

pub record BinaryValue : Type 0 where
  pub is_null : Bool
  pub is_unsigned : Bool
  pub type : ℕ
  pub value : As

-- ===== src/Protocol/Execute/Values.antt =====
-- Values of the binary protocol, as the documents lay them out: what the client writes for a bind, and what the parser
-- of a binary row reads.
pub mod Written
pub mod Read
pub mod RoundTrip
use trilogy.Prelude.{
  ℕ, ◌+◌, ◌*◌, ◌/◌, ◌%◌, ◌^◌, ◌<◌, ◌≡◌, refl, sym, ap, ◌∙◌, arith, ltb, ◌==◌, Bool, true, false,
  Bool-cases, ==_iff, inl, inr, ◌⊎◌, not, ◌||◌, if◌then◌else◌, List, [], ◌∷◌, ◌++◌, length, Run,
  done, ◌>>=◌, ◌>>◌,
}
use mathlib.Core.Path.{subst}
use trilogy.Prelude.{append-nil}
use trilogy.Wire.{le, lenenc_str}
use trilogy.Reader.{Reader, get_uint8, get_uint32}
use trilogy.Reader.Decode.{
  Decodes, Decodes-bind, Decodes-done, Decodes-value, Decodes-uint8, Decodes-uint16, Decodes-uint32,
  Decodes-uint64, Decodes-float, Decodes-double,
}
use trilogy.Reader.Lenenc.{Decodes-lenenc_buffer}
use trilogy.Builder.Writes.{Writes, Writes-bind, Writes-done, Writes-uint8, Writes-le}
use trilogy.Builder.WriteBuffer.{Writes-lenenc_buffer}
use trilogy.Builder.{write_uint16, write_uint32, write_uint64, write_float, write_double}
use trilogy.Protocol.BinaryValue.{
  Kind, int8, int16, int32, int64, flt, dbl, year, time, date, str, null, other, Date, Time, As,
  as_uint8, as_uint16, as_uint32, as_uint64, as_flt, as_dbl, as_year, as_str, as_date, as_time,
}
use trilogy.Protocol.BinaryRow.{
  get_day, get_moment, zero_date, date_body, get_span, zero_time, time_body, get_as,
}
use trilogy.Protocol.Execute.{when, bool_byte, time_len, date_len, write_time, write_date, write_as}
use trilogy.Protocol.RoundTrip.{Decodes-last}

abbrev pub span_bytes : Time → List ℕ
span_bytes t =
    bool_byte t.is_negative ∷ []
    ++ (le 4 t.days ++ (t.hour ∷ [] ++ (t.minute ∷ [] ++ t.second ∷ [])))

-- A time: nothing behind the length where it is 0, and the microseconds only where there are some.
unfoldable pub time_bytes : Time → List ℕ
time_bytes t =
    if t.days + t.hour + t.minute + t.second + t.micro_seconds == 0
    then 0 ∷ []
    else if t.micro_seconds == 0
    then 8 ∷ [] ++ span_bytes t
    else 12 ∷ [] ++ (span_bytes t ++ le 4 t.micro_seconds)

abbrev pub day_bytes : Date → List ℕ
day_bytes d = le 2 d.year ++ (d.month ∷ [] ++ d.day ∷ [])

abbrev pub moment_bytes : Date → List ℕ
moment_bytes d = day_bytes d ++ (d.hour ∷ [] ++ (d.minute ∷ [] ++ d.second ∷ []))

-- A date and time: cut off where the rest is 0.
unfoldable pub date_bytes : Date → List ℕ
date_bytes d =
    if not (d.micro_seconds == 0)
    then 11 ∷ [] ++ (moment_bytes d ++ le 4 d.micro_seconds)
    else if not (d.hour + d.minute + d.second == 0)
    then 7 ∷ [] ++ moment_bytes d
    else if not (d.year + d.month + d.day == 0)
    then 4 ∷ [] ++ day_bytes d
    else 0 ∷ []

-- The layout of each kind of value; there is none for a NULL or for a member that is not the kind's.
unfoldable pub as_bytes : Kind → As → List ℕ
as_bytes int8 (as_uint8 v) = v ∷ []
as_bytes int16 (as_uint16 v) = le 2 v
as_bytes int32 (as_uint32 v) = le 4 v
as_bytes int64 (as_uint64 v) = le 8 v
as_bytes flt (as_flt v) = le 4 v
as_bytes dbl (as_dbl v) = le 8 v
as_bytes year (as_year v) = le 2 v
as_bytes time (as_time t) = time_bytes t
as_bytes date (as_date d) = date_bytes d
as_bytes str (as_str d) = lenenc_str d
as_bytes k v = []

-- A time that its members hold. A sign needs something to be the sign of, and days do not come alone.
pub record IsTime (t : Time) : Type 0 where
  pub days : t.days < 2 ^ 32
  pub micro_seconds : t.micro_seconds < 2 ^ 32
  pub counted :
      t.hour + t.minute + t.second + t.micro_seconds ≡ 0 → (t.days ≡ 0) × (t.is_negative ≡ false)

pub record IsDate (d : Date) : Type 0 where
  pub year : d.year < 2 ^ 16
  pub micro_seconds : d.micro_seconds < 2 ^ 32

-- The member that the kind says was written, and a value that fits it.
pub data IsAs : Kind → As → Type 0 where
  is_int8 : (v : ℕ) → v < 2 ^ 8 → IsAs int8 (as_uint8 v)
  is_int16 : (v : ℕ) → v < 2 ^ 16 → IsAs int16 (as_uint16 v)
  is_int32 : (v : ℕ) → v < 2 ^ 32 → IsAs int32 (as_uint32 v)
  is_int64 : (v : ℕ) → v < 2 ^ 64 → IsAs int64 (as_uint64 v)
  is_flt : (v : ℕ) → v < 2 ^ 32 → IsAs flt (as_flt v)
  is_dbl : (v : ℕ) → v < 2 ^ 64 → IsAs dbl (as_dbl v)
  is_year : (v : ℕ) → v < 2 ^ 16 → IsAs year (as_year v)
  is_time : (t : Time) → IsTime t → IsAs time (as_time t)
  is_date : (d : Date) → IsDate d → IsAs date (as_date d)
  is_str : (d : List ℕ) → length d < 2 ^ 64 → IsAs str (as_str d)

-- The tests of the code on three numbers, by their sum.
any_of_sum :
    (a b c : ℕ) → (a + b + c == 0) ≡ false → (not (a == 0) || (not (b == 0) || not (c == 0))) ≡ true
any_of_sum a b c h = ground arith

none_of_sum :
    (a b c : ℕ) → (a + b + c == 0) ≡ true → (not (a == 0) || (not (b == 0) || not (c == 0))) ≡ false
none_of_sum a b c h = ground arith

pub time-cases :
    (t : Time)
    → IsTime t
    → ((time_len t ≡ 12) × (time_bytes t ≡ 12 ∷ [] ++ (span_bytes t ++ le 4 t.micro_seconds)))
      ⊎ (((time_len t ≡ 8) × (time_bytes t ≡ 8 ∷ [] ++ span_bytes t) × (t.micro_seconds ≡ 0))
          ⊎ ((time_len t ≡ 0) × (time_bytes t ≡ 0 ∷ []) × (t ≡ zero_time)))
unfolding time_len time_bytes
time-cases t w = elim (Bool-cases (t.micro_seconds == 0)) [
  | inr e ↦ inl (rw e refl, rw (some_us e, e) refl)
  | inl e ↦ elim (Bool-cases (t.hour + t.minute + t.second == 0)) [
    | inr f ↦ inr (
        inl (
          rw (e, any_of_sum t.hour t.minute t.second f) refl,
          rw (some_hms f, e) refl,
          (==_iff _ _).0 e,
        ))
    | inl f ↦
        let none_ = none_of_sum t.hour t.minute t.second f in
        let (days, sign) = w.counted (ground (arith, e, f)) in
        let sum : (t.days + t.hour + t.minute + t.second + t.micro_seconds == 0) ≡ true =
          ground (arith, e, f, days) in
        inr (inr (rw (e, none_) refl, rw sum refl, zero sign days e f))
  ]
]
  where
    some_us :
        (t.micro_seconds == 0) ≡ false
        → (t.days + t.hour + t.minute + t.second + t.micro_seconds == 0) ≡ false
    some_us e = ground (arith, e)

    some_hms :
        (t.hour + t.minute + t.second == 0) ≡ false
        → (t.days + t.hour + t.minute + t.second + t.micro_seconds == 0) ≡ false
    some_hms f = ground (arith, f)

    zero :
        t.is_negative ≡ false
        → t.days ≡ 0
        → (t.micro_seconds == 0) ≡ true
        → (t.hour + t.minute + t.second == 0) ≡ true
        → t ≡ zero_time
    zero sign days e f =
        let h : t.hour ≡ 0 = ground (arith, f) in
        let m : t.minute ≡ 0 = ground (arith, f) in
        let s : t.second ≡ 0 = ground (arith, f) in
        let us : t.micro_seconds ≡ 0 = (==_iff _ _).0 e in
        λ i. record {
          is_negative = sign i;
          days = days i;
          hour = h i;
          minute = m i;
          second = s i;
          micro_seconds = us i;
        }

pub date-cases :
    (d : Date)
    → ((date_len d ≡ 11) × (date_bytes d ≡ 11 ∷ [] ++ (moment_bytes d ++ le 4 d.micro_seconds)))
      ⊎ (((date_len d ≡ 7) × (date_bytes d ≡ 7 ∷ [] ++ moment_bytes d) × (d.micro_seconds ≡ 0))
          ⊎ (((date_len d ≡ 4)
                × (date_bytes d ≡ 4 ∷ [] ++ day_bytes d)
                × (d ≡ record zero_date { year = d.year; month = d.month; day = d.day }))
              ⊎ ((date_len d ≡ 0) × (date_bytes d ≡ 0 ∷ []) × (d ≡ zero_date))))
unfolding date_len date_bytes
date-cases d = elim (Bool-cases (d.micro_seconds == 0)) [
  | inr e ↦ inl (rw e refl, rw e refl)
  | inl e ↦ elim (Bool-cases (d.hour + d.minute + d.second == 0)) [
    | inr f ↦
        inr (
          inl
            (rw (e, any_of_sum d.hour d.minute d.second f) refl, rw (e, f) refl, (==_iff _ _).0 e))
    | inl f ↦ elim (Bool-cases (d.year + d.month + d.day == 0)) [
      | inr g ↦ inr (
          inr (
            inl (
              rw (e, none_of_sum d.hour d.minute d.second f, any_of_sum d.year d.month d.day g)
                  refl,
              rw (e, f, g) refl,
              day e f,
            )))
      | inl g ↦ inr (
          inr (
            inr (
              rw (e, none_of_sum d.hour d.minute d.second f, none_of_sum d.year d.month d.day g)
                  refl,
              rw (e, f, g) refl,
              day e f ∙ zero g,
            )))
    ]
  ]
]
  where
    day :
        (d.micro_seconds == 0) ≡ true
        → (d.hour + d.minute + d.second == 0) ≡ true
        → d ≡ record zero_date { year = d.year; month = d.month; day = d.day }
    day e f =
        let h : d.hour ≡ 0 = ground (arith, f) in
        let m : d.minute ≡ 0 = ground (arith, f) in
        let s : d.second ≡ 0 = ground (arith, f) in
        let us : d.micro_seconds ≡ 0 = (==_iff _ _).0 e in
        λ i. record d { hour = h i; minute = m i; second = s i; micro_seconds = us i }

    zero :
        (d.year + d.month + d.day == 0) ≡ true
        → record zero_date { year = d.year; month = d.month; day = d.day } ≡ zero_date
    zero g =
        let y : d.year ≡ 0 = ground (arith, g) in
        let m : d.month ≡ 0 = ground (arith, g) in
        let n : d.day ≡ 0 = ground (arith, g) in
        λ i. record zero_date { year = y i; month = m i; day = n i }

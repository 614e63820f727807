-- ===== src/Protocol/Execute/Values/Read.antt =====
-- What the parser of a binary row reads for a column.
use trilogy.Prelude.{◌^◌, ◌<◌, ◌≡◌, refl, sym, ap, ◌==◌, Bool, true, false, inl, inr}
use trilogy.Reader.Decode.{
  Decodes, Decodes-bind, Decodes-done, Decodes-value, Decodes-uint8, Decodes-uint16, Decodes-uint32,
  Decodes-uint64, Decodes-float, Decodes-double,
}
use trilogy.Reader.Lenenc.{Decodes-lenenc_buffer}
use trilogy.Protocol.BinaryValue.{Kind, time, date, Date, Time, As, as_date, as_time}
use trilogy.Protocol.BinaryRow.{
  get_day, get_moment, zero_date, date_body, get_span, zero_time, time_body, get_as,
}
use trilogy.Protocol.Execute.{bool_byte}
use trilogy.Protocol.RoundTrip.{Decodes-last}
use trilogy.Protocol.Execute.Values.{
  span_bytes, time_bytes, day_bytes, moment_bytes, date_bytes, as_bytes, IsTime, IsDate, IsAs,
  is_int8, is_int16, is_int32, is_int64, is_flt, is_dbl, is_year, is_time, is_date, is_str,
  time-cases, date-cases,
}

Decodes-span :
    (t : Time) → t.days < 2 ^ 32 → Decodes get_span (span_bytes t) (record t { micro_seconds = 0 })
unfolding get_span
Decodes-span t h = Decodes-bind _ _ (Decodes-uint8 (bool_byte t.is_negative)) (
    Decodes-bind _ _ (Decodes-uint32 t.days h) (
      Decodes-bind _ _ (Decodes-uint8 t.hour) (
        Decodes-bind _ _ (Decodes-uint8 t.minute) (
          Decodes-last _ _ (Decodes-uint8 t.second) (
            Decodes-value (Decodes-done _)
              (ap (λ s. record t { is_negative = s; micro_seconds = 0 }) (sign t.is_negative)))))))
  where
    sign : (b : Bool) → (bool_byte b == 1) ≡ b
    sign true = refl
    sign false = refl

Decodes-time : (t : Time) → IsTime t → Decodes (get_as time) (time_bytes t) (as_time t)
unfolding get_as time_body
Decodes-time t w = elim (time-cases t w) [
  | inl (n, xs) ↦ rw xs (
      Decodes-bind _ _ (Decodes-uint8 12) (
        Decodes-last _ _
          (Decodes-bind _ _ (Decodes-span t w.days)
            (Decodes-last _ _ (Decodes-uint32 t.micro_seconds w.micro_seconds) (Decodes-done t)))
          (Decodes-done (as_time t))))
  | inr (inl (n, xs, us)) ↦ rw xs (
      Decodes-bind _ _ (Decodes-uint8 8) (
        Decodes-last _ _ (Decodes-span t w.days) (
          Decodes-value (Decodes-done _)
            (ap (λ k. as_time (record t { micro_seconds = k })) (sym us)))))
  | inr (inr (n, xs, zero)) ↦ rw xs (
      Decodes-bind _ _ (Decodes-uint8 0) (
        Decodes-bind _ _ (Decodes-done zero_time)
          (Decodes-value (Decodes-done (as_time zero_time)) (ap as_time (sym zero)))))
]

Decodes-day :
    (d : Date)
    → d.year < 2 ^ 16
    → Decodes get_day
        (day_bytes d)
        (record zero_date { year = d.year; month = d.month; day = d.day })
unfolding get_day
Decodes-day d h = Decodes-bind _ _ (Decodes-uint16 d.year h) (
    Decodes-bind _ _ (Decodes-uint8 d.month)
      (Decodes-last _ _ (Decodes-uint8 d.day) (Decodes-done _)))

Decodes-moment :
    (d : Date)
    → d.year < 2 ^ 16
    → Decodes get_moment (moment_bytes d) (record d { micro_seconds = 0 })
unfolding get_moment
Decodes-moment d h = Decodes-bind _ _ (Decodes-day d h) (
    Decodes-bind _ _ (Decodes-uint8 d.hour) (
      Decodes-bind _ _ (Decodes-uint8 d.minute)
        (Decodes-last _ _ (Decodes-uint8 d.second) (Decodes-done _))))

Decodes-date : (d : Date) → IsDate d → Decodes (get_as date) (date_bytes d) (as_date d)
unfolding get_as date_body
Decodes-date d w = elim (date-cases d) [
  | inl (n, xs) ↦ rw xs (
      Decodes-bind _ _ (Decodes-uint8 11) (
        Decodes-last _ _
          (Decodes-bind _ _ (Decodes-moment d w.year)
            (Decodes-last _ _ (Decodes-uint32 d.micro_seconds w.micro_seconds) (Decodes-done d)))
          (Decodes-done (as_date d))))
  | inr (inl (n, xs, us)) ↦ rw xs (
      Decodes-bind _ _ (Decodes-uint8 7) (
        Decodes-last _ _ (Decodes-moment d w.year) (
          Decodes-value (Decodes-done _)
            (ap (λ k. as_date (record d { micro_seconds = k })) (sym us)))))
  | inr (inr (inl (n, xs, day))) ↦ rw xs (
      Decodes-bind _ _ (Decodes-uint8 4) (
        Decodes-last _ _ (Decodes-day d w.year)
          (Decodes-value (Decodes-done _) (ap as_date (sym day)))))
  | inr (inr (inr (n, xs, zero))) ↦ rw xs (
      Decodes-bind _ _ (Decodes-uint8 0) (
        Decodes-bind _ _ (Decodes-done zero_date)
          (Decodes-value (Decodes-done (as_date zero_date)) (ap as_date (sym zero)))))
]

pub Decodes-as : (k : Kind) (v : As) → IsAs k v → Decodes (get_as k) (as_bytes k v) v
unfolding get_as as_bytes
Decodes-as _ _ (is_int8 v h) = Decodes-last _ _ (Decodes-uint8 v) (Decodes-done _)
Decodes-as _ _ (is_int16 v h) = Decodes-last _ _ (Decodes-uint16 v h) (Decodes-done _)
Decodes-as _ _ (is_int32 v h) = Decodes-last _ _ (Decodes-uint32 v h) (Decodes-done _)
Decodes-as _ _ (is_int64 v h) = Decodes-last _ _ (Decodes-uint64 v h) (Decodes-done _)
Decodes-as _ _ (is_flt v h) = Decodes-last _ _ (Decodes-float v h) (Decodes-done _)
Decodes-as _ _ (is_dbl v h) = Decodes-last _ _ (Decodes-double v h) (Decodes-done _)
Decodes-as _ _ (is_year v h) = Decodes-last _ _ (Decodes-uint16 v h) (Decodes-done _)
Decodes-as _ _ (is_time t w) = Decodes-time t w
Decodes-as _ _ (is_date d w) = Decodes-date d w
Decodes-as _ _ (is_str d h) = Decodes-last _ _ (Decodes-lenenc_buffer d h) (Decodes-done _)

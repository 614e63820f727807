-- ===== src/Protocol/Execute/Values/Written.antt =====
-- What the code writes for a bind.
use trilogy.Prelude.{ℕ, ◌≡◌, refl, Bool, true, inl, inr, [], ◌∷◌}
use trilogy.Builder.Writes.{Writes, Writes-bind, Writes-done, Writes-bytes, Writes-uint8, Writes-le}
use trilogy.Builder.WriteBuffer.{Writes-lenenc_buffer}
use trilogy.Builder.{
  write_uint8, write_uint16, write_uint32, write_uint64, write_float, write_double,
}
use trilogy.Protocol.BinaryValue.{Kind, Date, Time, As}
use trilogy.Protocol.Execute.{when, bool_byte, write_time, write_date, write_as}
use trilogy.Protocol.Execute.Values.{
  time_bytes, date_bytes, as_bytes, IsTime, IsAs, is_int8, is_int16, is_int32, is_int64, is_flt,
  is_dbl, is_year, is_time, is_date, is_str, time-cases, date-cases,
}

module _ (grants : ℕ → Bool) (granted : (n : ℕ) → grants n ≡ true) where
  byte : (v : ℕ) → Writes (write_uint8 grants v) (v ∷ [])
  byte v = Writes-uint8 grants granted v

  Writes-time : (t : Time) → IsTime t → Writes (write_time grants t) (time_bytes t)
  unfolding write_time when write_uint32
  Writes-time t w = elim (time-cases t w) [
    | inl (n, xs) ↦
        rw (n, xs)
          (Writes-bind _ _ (byte 12) (
            Writes-bytes
              (Writes-bind _ _ (byte (bool_byte t.is_negative)) (
                Writes-bind _ _ (Writes-le grants granted 4 t.days) (
                  Writes-bind _ _ (byte t.hour) (
                    Writes-bind _ _ (byte t.minute) (
                      Writes-bind _ _ (byte t.second)
                        (Writes-le grants granted 4 t.micro_seconds))))))
              refl))
    | inr (inl (n, xs, us)) ↦
        rw (n, xs)
          (Writes-bind _ _ (byte 8) (
            Writes-bind _ _ (byte (bool_byte t.is_negative)) (
              Writes-bind _ _ (Writes-le grants granted 4 t.days) (
                Writes-bind _ _ (byte t.hour) (
                  Writes-bind _ _ (byte t.minute) (Writes-bind _ _ (byte t.second) Writes-done))))))
    | inr (inr (n, xs, zero)) ↦ rw (n, xs) (Writes-bind _ _ (byte 0) Writes-done)
  ]

  Writes-date : (d : Date) → Writes (write_date grants d) (date_bytes d)
  unfolding write_date when write_uint16 write_uint32
  Writes-date d = elim (date-cases d) [
    | inl (n, xs) ↦
        rw (n, xs)
          (Writes-bind _ _ (byte 11) (
            Writes-bind _ _ (Writes-le grants granted 2 d.year) (
              Writes-bind _ _ (byte d.month) (
                Writes-bind _ _ (byte d.day) (
                  Writes-bind _ _ (byte d.hour) (
                    Writes-bind _ _ (byte d.minute) (
                      Writes-bind _ _ (byte d.second)
                        (Writes-le grants granted 4 d.micro_seconds))))))))
    | inr (inl (n, xs, us)) ↦
        rw (n, xs)
          (Writes-bind _ _ (byte 7) (
            Writes-bind _ _ (Writes-le grants granted 2 d.year) (
              Writes-bind _ _ (byte d.month) (
                Writes-bind _ _ (byte d.day) (
                  Writes-bind _ _ (byte d.hour) (
                    Writes-bind _ _ (byte d.minute)
                      (Writes-bind _ _ (byte d.second) Writes-done)))))))
    | inr (inr (inl (n, xs, day))) ↦
        rw (n, xs)
          (Writes-bind _ _ (byte 4) (
            Writes-bind _ _ (Writes-le grants granted 2 d.year)
              (Writes-bind _ _ (byte d.month) (Writes-bind _ _ (byte d.day) Writes-done))))
    | inr (inr (inr (n, xs, zero))) ↦ rw (n, xs) (Writes-bind _ _ (byte 0) Writes-done)
  ]

  pub Writes-as : (k : Kind) (v : As) → IsAs k v → Writes (write_as grants k v) (as_bytes k v)
  unfolding write_as as_bytes write_uint16 write_uint32 write_uint64 write_float write_double
  Writes-as _ _ (is_int8 v h) = byte v
  Writes-as _ _ (is_int16 v h) = Writes-le grants granted 2 v
  Writes-as _ _ (is_int32 v h) = Writes-le grants granted 4 v
  Writes-as _ _ (is_int64 v h) = Writes-le grants granted 8 v
  Writes-as _ _ (is_flt v h) = Writes-le grants granted 4 v
  Writes-as _ _ (is_dbl v h) = Writes-le grants granted 8 v
  Writes-as _ _ (is_year v h) = Writes-le grants granted 2 v
  Writes-as _ _ (is_time t w) = Writes-time t w
  Writes-as _ _ (is_date d w) = Writes-date d
  Writes-as _ _ (is_str d h) = Writes-lenenc_buffer grants granted d h

-- ===== src/Protocol/Execute/Values/RoundTrip.antt =====
-- A value that is written for a bind, and read as a column.
use trilogy.Prelude.{
  ℕ, ◌^◌, ◌<◌, ◌≡◌, refl, arith, Bool, true, List, [], ◌∷◌, ◌++◌, length, ok, ◌>>◌,
}
use trilogy.Buffer.{Buffer}
use trilogy.Builder.{Builder, finalize}
use trilogy.Builder.Writes.{Writes-bind, Writes-done, Writes-uint8}
use trilogy.Builder.Packs.{IsPacket, Packs-last, pack, pack-IsPacket}
use trilogy.Reader.{size_mod, reader_init}
use trilogy.Reader.View.{Views, Views-reader_init}
use trilogy.Protocol.BinaryValue.{Kind, As, Time, time, as_time}
use trilogy.Protocol.BinaryRow.{get_as, zero_time}
use trilogy.Protocol.Execute.{when, time_len, write_as, write_time}
use trilogy.Protocol.Execute.Values.{time_bytes, as_bytes, IsAs, is_time}
use trilogy.Protocol.Execute.Values.Written.{Writes-as}
use trilogy.Protocol.Execute.Values.Read.{Decodes-as}

-- A value that fits its type, written behind nothing else where memory is granted, makes a packet of the bytes
-- `as_bytes k v`; and the parser of a binary row reads from these bytes, whatever the bytes `ys` behind them are, the
-- value again and stops before `ys`. A time with a sign or with days has an hour, a minute, a second or microseconds
-- too. What is written and what is read stays below 2 ^ 60 bytes.
pub get_as-write_as :
    (grants : ℕ → Bool) (buff : Buffer) (seq : ℕ) (k : Kind) (v : As) (ys : List ℕ)
    → ((n : ℕ) → grants n ≡ true)
    → buff.allocated ≡ true
    → 0 < buff.cap
    → seq < 256
    → IsAs k v
    → length (as_bytes k v) < 2 ^ 60
    → length (as_bytes k v ++ ys) < size_mod
    → ((b : Builder) × (pack grants buff seq (write_as grants k v >> finalize) ≡ (ok tt, b))
        × IsPacket seq (as_bytes k v) b)
      × (((get_as k (reader_init (as_bytes k v ++ ys) (length (as_bytes k v ++ ys)))).0 ≡ ok v)
          × Views (get_as k (reader_init (as_bytes k v ++ ys) (length (as_bytes k v ++ ys)))).1 ys)
get_as-write_as grants buff seq k v ys granted live pos byte w short fits = (
  pack-IsPacket grants buff seq (write_as grants k v >> finalize) (as_bytes k v) granted live pos
      byte short (Packs-last _ (Writes-as grants granted k v w)),
  (Decodes-as k v w).at _ ys (Views-reader_init (as_bytes k v ++ ys) fits),
)

-- A time of whole days.
abbrev pub days_alone : ℕ → Bool → Time
days_alone days is_negative = record zero_time { days = days; is_negative = is_negative }

-- A time of any number of days and of either sign, with no hour, no minute, no second and no microseconds, is written
-- where memory is granted as the one byte 0, and read from it as the time of no days: the days are lost.
pub write_as-get_as_days :
    (grants : ℕ → Bool) (buff : Buffer) (seq days : ℕ) (is_negative : Bool)
    → ((n : ℕ) → grants n ≡ true)
    → buff.allocated ≡ true
    → 0 < buff.cap
    → seq < 256
    → ((b : Builder) × (pack grants buff seq
            (write_as grants time (as_time (days_alone days is_negative)) >> finalize)
          ≡ (ok tt, b))
        × IsPacket seq (0 ∷ []) b)
      × ((get_as time (reader_init (0 ∷ []) 1)).0 ≡ ok (as_time zero_time))
unfolding write_as write_time time_len when as_bytes time_bytes
write_as-get_as_days grants buff seq days is_negative granted live pos byte = (
  pack-IsPacket grants buff seq
      (write_as grants time (as_time (days_alone days is_negative)) >> finalize) (0 ∷ []) granted
      live pos byte (omega arith)
      (Packs-last _ (Writes-bind _ _ (Writes-uint8 grants granted 0) Writes-done)),
  ((Decodes-as time (as_time zero_time) (
        is_time zero_time (record {
          days = omega arith;
          micro_seconds = omega arith;
          counted = λ e. (refl, refl);
        }))).at
      _ [] (Views-reader_init (0 ∷ []) (omega arith))).0,
)

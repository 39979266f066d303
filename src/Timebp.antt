-- ===== src/Timebp.antt =====
-- timebp/microsecond.go and timebp/millisecond.go: times and durations as decimal numbers, in text and JSON.
-- A time.Time is here the signed number of nanoseconds since the zero time, 1 January of the year 1 (UTC).
pub mod RoundTrip
mod Tests
use baseplate_go.Common.{
  ℕ, suc, ◌+◌, ◌-◌, ◌*◌, ◌/◌, ◌≡◌, Bool, true, false, ◌&&◌, List, [], ◌∷◌, Bytes, codes, bytes_eq,
  is_empty, Option, none, some, ltb, ◌==◌, if◌then◌else◌,
}
use baseplate_go.Common.Int.{ℤ, pos, negsuc, ◌+ℤ◌, ◌-ℤ◌, leb_ℤ}
use baseplate_go.Std.Instant.{second, epoch}
use baseplate_go.Std.Int64.{wrap_64, show}
use baseplate_go.Std.Decimal.{parse_int}

-- TimestampMicrosecond and TimestampMillisecond.
pub data Precision : Type 0 where
  micro milli : Precision

abbrev pub nanoseconds : Precision → ℕ
nanoseconds micro = 1_000
nanoseconds milli = 1_000_000

abbrev pub units_per_second : Precision → ℕ
units_per_second micro = 1_000_000
units_per_second milli = 1_000

abbrev pub is_zero : ℤ → Bool
is_zero z = leb_ℤ z (pos 0) && leb_ℤ (pos 0) z

-- Rounded down, as Time counts seconds.
abbrev pub floor_div : ℤ → ℕ → ℤ
floor_div (pos n) d = pos (n / d)
floor_div (negsuc n) d = negsuc (n / d)

abbrev pub times : ℤ → ℕ → ℤ
times (pos n) d = pos (n * d)
times (negsuc n) d = negsuc (suc n * d - 1)

-- UnixMicro and UnixMilli, of a time within their range.
abbrev pub unix_units : Precision → ℤ → ℤ
unix_units micro t = floor_div t 1_000 -ℤ pos (epoch * 1_000_000)
unix_units milli t = floor_div t 1_000_000 -ℤ pos (epoch * 1_000)

-- time.UnixMicro and time.UnixMilli.
abbrev pub of_unix_units : Precision → ℤ → ℤ
of_unix_units micro n = pos (epoch * second) +ℤ times n 1_000
of_unix_units milli n = pos (epoch * second) +ℤ times n 1_000_000

-- TimeToMicroseconds, TimeToMilliseconds
unfoldable pub time_to_units : Precision → ℤ → ℤ
time_to_units p t = if is_zero t then pos 0 else unix_units p t

-- MicrosecondsToTime, MillisecondsToTime
unfoldable pub units_to_time : Precision → ℤ → ℤ
units_to_time p n = if is_zero n then pos 0 else of_unix_units p n

abbrev pub null : Bytes
null = codes "null"

unfoldable pub marshal_text : Precision → ℤ → Bytes
marshal_text p t = if is_zero t then [] else show (time_to_units p t)

unfoldable pub marshal_json : Precision → ℤ → Bytes
marshal_json p t = if is_zero t then null else marshal_text p t

abbrev pub time_of : Precision → Option ℤ → Option ℤ
time_of p none = none
time_of p (some n) = some (units_to_time p n)

-- none is the error of ParseInt.
unfoldable pub unmarshal_text : Precision → Bytes → Option ℤ
unmarshal_text p s = if is_empty s then some (pos 0) else time_of p (parse_int s)

unfoldable pub unmarshal_json : Precision → Bytes → Option ℤ
unmarshal_json p s = if bytes_eq s null then some (pos 0) else unmarshal_text p s

-- DurationMicrosecond: the division goes towards zero.
abbrev pub toward_zero : ℤ → ℕ → ℤ
toward_zero (pos n) d = pos (n / d)
toward_zero (negsuc n) d = if ltb (suc n) d then pos 0 else negsuc (suc n / d - 1)

unfoldable pub marshal_duration_text : ℤ → Bytes
marshal_duration_text d = show (toward_zero d 1_000)

unfoldable pub marshal_duration_json : ℤ → Bytes
marshal_duration_json d = if is_zero d then null else marshal_duration_text d

abbrev pub duration_of : Option ℤ → Option ℤ
duration_of none = none
duration_of (some n) = some (wrap_64 (times n 1_000))

unfoldable pub unmarshal_duration_text : Bytes → Option ℤ
unmarshal_duration_text s = if is_empty s then some (pos 0) else duration_of (parse_int s)

unfoldable pub unmarshal_duration_json : Bytes → Option ℤ
unmarshal_duration_json s = if bytes_eq s null then some (pos 0) else unmarshal_duration_text s

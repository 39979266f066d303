-- ===== src/Prometheusbpint.antt =====
-- internal/prometheusbpint/high_watermark.go: HighWatermarkValue, an int64 gauge with its highest value.
-- Each method holds the lock, so a use of it is a list of calls.
pub mod Peaks
mod Tests
use baseplate_go.Common.{List, [], ◌∷◌, if◌then◌else◌}
use baseplate_go.Common.Int.{ℤ, pos, ◌+ℤ◌, ◌-ℤ◌, ltb_ℤ}
use baseplate_go.Std.Int64.{wrap_64}

pub record HighWatermarkValue : Type 0 where
  pub curr : ℤ
  pub max : ℤ

abbrev pub raise : HighWatermarkValue → ℤ → HighWatermarkValue
raise hwv v = record { curr = v; max = if ltb_ℤ hwv.max v then v else hwv.max }

abbrev pub inc : HighWatermarkValue → HighWatermarkValue
inc hwv = raise hwv (wrap_64 (hwv.curr +ℤ pos 1))

abbrev pub dec : HighWatermarkValue → HighWatermarkValue
dec hwv = record hwv { curr = wrap_64 (hwv.curr -ℤ pos 1) }

abbrev pub set : HighWatermarkValue → ℤ → HighWatermarkValue
set hwv v = raise hwv v

abbrev pub get_both : HighWatermarkValue → ℤ × ℤ
get_both hwv = (hwv.curr, hwv.max)

pub data Call : Type 0 where
  call_inc call_dec : Call
  call_set : ℤ → Call

abbrev pub step : HighWatermarkValue → Call → HighWatermarkValue
step hwv call_inc = inc hwv
step hwv call_dec = dec hwv
step hwv (call_set v) = set hwv v

unfoldable pub run : HighWatermarkValue → List Call → HighWatermarkValue
run hwv [] = hwv
run hwv (c ∷ cs) = run (step hwv c) cs

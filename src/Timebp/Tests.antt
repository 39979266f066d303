-- ===== src/Timebp/Tests.antt =====
-- Tests of timebp/microsecond.go and timebp/millisecond.go.
use baseplate_go.Common.{◌≡◌, ◌+◌, ◌*◌, refl, codes, bytes_eq, some, arith}
use baseplate_go.Common.Int.{ℤ, pos, negsuc, ◌+ℤ◌, ◌-ℤ◌}
use baseplate_go.Std.Instant.{second, epoch}
use baseplate_go.Std.Int64.{show}
use baseplate_go.Std.Decimal.{parse_int}
use baseplate_go.Timebp.{
  micro, milli, time_to_units, units_to_time, marshal_text, marshal_json, unmarshal_text,
  unmarshal_json, marshal_duration_text, unmarshal_duration_json, null,
}
use baseplate_go.Timebp.RoundTrip.{kept, timestamp_roundtrip}

abbrev long_after : ℤ
long_after = pos (epoch * second + 1_234_567)

timestamp_roundtrip_example :
    (unmarshal_text micro (marshal_text micro long_after) ≡ some (kept micro long_after))
    × (unmarshal_json micro (marshal_json micro long_after) ≡ some (kept micro long_after))
unfolding time_to_units ◌-ℤ◌
timestamp_roundtrip_example = timestamp_roundtrip micro long_after (omega arith)

written : marshal_text milli long_after ≡ codes "1"
unfolding marshal_text time_to_units ◌-ℤ◌ show
written = refl

before_epoch : marshal_text milli (pos (epoch * second) +ℤ negsuc 0) ≡ codes "-1"
unfolding marshal_text time_to_units ◌-ℤ◌ ◌+ℤ◌ show
before_epoch = refl

epoch_lost : unmarshal_text micro (marshal_text micro (pos (epoch * second))) ≡ some (pos 0)
unfolding marshal_text unmarshal_text time_to_units units_to_time ◌-ℤ◌ show parse_int
epoch_lost = refl

duration_cut : marshal_duration_text (negsuc 1_999) ≡ codes "-2"
unfolding marshal_duration_text show
duration_cut = refl

duration_null : unmarshal_duration_json null ≡ some (pos 0)
unfolding unmarshal_duration_json bytes_eq
duration_null = refl

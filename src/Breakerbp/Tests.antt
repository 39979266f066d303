-- ===== src/Breakerbp/Tests.antt =====
-- A breaker that trips at half of ten requests.
use baseplate_go.Common.{◌≡◌, refl, true, false}
use baseplate_go.Common.Int.{pos}
use baseplate_go.Std.Float64.{of_int, div, rounded}
use baseplate_go.Breakerbp.{FailureRatioBreaker, should_trip}

abbrev half : FailureRatioBreaker
half = record {
  min_requests_to_trip = pos 10;
  failure_threshold = div (of_int (pos 1)) (of_int (pos 2));
}

too_few : should_trip half (record { requests = 9; total_failures = 9 }) ≡ false
unfolding should_trip
too_few = refl

exactly_half : should_trip half (record { requests = 10; total_failures = 5 }) ≡ true
unfolding should_trip div of_int rounded
exactly_half = refl

below_half : should_trip half (record { requests = 11; total_failures = 5 }) ≡ false
unfolding should_trip div of_int rounded
below_half = refl

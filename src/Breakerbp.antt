-- ===== src/Breakerbp.antt =====
-- breakerbp/failure_ratio.go: when the breaker trips, and its gauge. The circuit breaker itself is a library.
mod Tests
use baseplate_go.Common.{
  ℕ, ◌≡◌, ap, Bool, true, false, ◌&&◌, ◌||◌, List, [], ◌∷◌, ltb, leb, ◌<◌, ◌≤◌, ◌%◌, ◌^◌, ◌-◌, ◌+◌,
  arith, if◌then◌else◌,
}
use baseplate_go.Common.Int.{ℤ, pos, negsuc}
use baseplate_go.Std.Float64.{Float64, of_int, div, lt, eq}
use baseplate_go.Std.Int64.{bits_64}

-- The fields of FailureRatioBreaker that shouldTrip reads; and what it reads of gobreaker.Counts.
pub record FailureRatioBreaker : Type 0 where
  pub min_requests_to_trip : ℤ
  pub failure_threshold : Float64

pub record Counts : Type 0 where
  pub requests : ℕ
  pub total_failures : ℕ

abbrev pub at_least : Float64 → Float64 → Bool
at_least x y = lt y x || eq x y

-- uint32 of an int.
abbrev pub as_uint_32 : ℤ → ℕ
as_uint_32 z = bits_64 z % 2 ^ 32

abbrev pub is_eligible : ℤ → ℕ → Bool
is_eligible min_requests requests = ltb 0 requests && leb (as_uint_32 min_requests) requests

unfoldable pub should_trip : FailureRatioBreaker → Counts → Bool
should_trip cb counts =
    if is_eligible cb.min_requests_to_trip counts.requests
    then at_least (div (of_int (pos counts.total_failures)) (of_int (pos counts.requests)))
        cb.failure_threshold
    else false

pub data State : Type 0 where
  state_closed : State
  state_half_open : State
  state_open : State

-- The gauge breakerClosed, which NewFailureRatioBreaker sets to 1.
abbrev pub new_gauge : ℕ
new_gauge = 1

abbrev pub state_changed : State → ℕ
state_changed state_closed = 1
state_changed state_half_open = 1
state_changed state_open = 0

-- A minimum that is negative is a large number as a uint32.
negative_large : (n : ℕ) → n < 2 ^ 31 → 2 ^ 31 ≤ as_uint_32 (negsuc n)
negative_large n h = omega arith

not_eligible : (n r : ℕ) → r < 2 ^ 31 → 2 ^ 31 ≤ n → (ltb 0 r && leb n r) ≡ false
not_eligible n r h k = ground arith

-- With a minimum from -2 ^ 31 to -1 and fewer than 2 ^ 31 requests the breaker never trips.
pub negative_never_trips :
    (n : ℕ) (threshold : Float64) (counts : Counts)
    → n < 2 ^ 31
    → counts.requests < 2 ^ 31
    → should_trip (record { min_requests_to_trip = negsuc n; failure_threshold = threshold }) counts
      ≡ false
unfolding should_trip
negative_never_trips n threshold counts h k =
    ap
      (λ b.
        if b
        then at_least (div (of_int (pos counts.total_failures)) (of_int (pos counts.requests)))
            threshold
        else false)
      (not_eligible (as_uint_32 (negsuc n)) counts.requests k (negative_large n h))

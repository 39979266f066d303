-- ===== src/Retrybp/Delay.antt =====
-- retrybp/delay.go: the capped exponential backoff.
-- Durations are signed numbers of nanoseconds, the uint64 arithmetic is modulo 2 ^ 64. The default delay
-- of the retry library and the floor of math.Log2 of a float64 are parameters; the random number and the
-- RetryAfterDuration that errors.As finds in the error, if it finds one, are arguments.
use baseplate_go.Common.{
  ℕ, ◌+◌, ◌-◌, ◌*◌, ◌%◌, ◌^◌, Bool, not, ◌&&◌, Option, none, some, ltb, if◌then◌else◌,
}
use baseplate_go.Common.Int.{ℤ, pos, ◌-ℤ◌, ltb_ℤ, pos_part}
use baseplate_go.Std.Int64.{bits_64}

pub record CappedExponentialBackoffArgs : Type 0 where
  pub initial_delay : ℤ
  pub max_delay : ℤ
  pub max_exponent : ℤ
  pub max_jitter : ℤ
  pub ignore_retry_after_error : Bool

abbrev pub is_positive : ℤ → Bool
is_positive z = ltb_ℤ (pos 0) z

abbrev pub max_int64 : ℕ
max_int64 = 2 ^ 63 - 1

module _ (default_delay : ℤ) (floor_log2 : ℕ → ℕ) where
  -- The base is at least 1.
  unfoldable pub base_delay : CappedExponentialBackoffArgs → ℕ
  base_delay args =
      if is_positive args.initial_delay
      then pos_part args.initial_delay
      else if is_positive default_delay
      then pos_part default_delay
      else 1

  unfoldable pub actual_max_exponent : ℕ → ℤ
  actual_max_exponent base = pos 62 -ℤ pos (floor_log2 base)

  -- uint(maxExponent)
  unfoldable pub max_exponent_of : CappedExponentialBackoffArgs → ℕ
  unfolding actual_max_exponent
  max_exponent_of args =
      let actual = actual_max_exponent (base_delay args) in
      if is_positive args.max_exponent && ltb_ℤ args.max_exponent actual
      then bits_64 args.max_exponent
      else bits_64 actual

  abbrev pub shifted : CappedExponentialBackoffArgs → ℕ → ℕ
  shifted args n =
      let m = max_exponent_of args in base_delay args * 2 ^ (if ltb m n then m else n) % 2 ^ 64

  abbrev pub capped : CappedExponentialBackoffArgs → ℕ → ℕ
  capped args delay =
      if is_positive args.max_delay && ltb (pos_part args.max_delay) delay
      then pos_part args.max_delay
      else delay

  abbrev pub at_least : CappedExponentialBackoffArgs → Option ℤ → ℕ → ℕ
  at_least args none delay = delay
  at_least args (some after) delay =
      if not args.ignore_retry_after_error && (is_positive after && ltb delay (pos_part after))
      then pos_part after
      else delay

  abbrev pub with_jitter : CappedExponentialBackoffArgs → ℕ → ℕ → ℕ
  with_jitter args jitter delay =
      if is_positive args.max_jitter then (delay + jitter) % 2 ^ 64 else delay

  -- The function that cappedExponentialBackoffFunc returns, at the number of the retry, the
  -- RetryAfterDuration and the random number.
  unfoldable pub backoff : CappedExponentialBackoffArgs → ℕ → Option ℤ → ℕ → ℕ
  backoff args n after jitter =
      let delay = with_jitter args jitter (at_least args after (capped args (shifted args n))) in
      if ltb max_int64 delay then max_int64 else delay

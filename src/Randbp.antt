-- ===== src/Randbp.antt =====
-- randbp: jitter.go, sample.go and string.go.
-- What the generator R draws is an argument: the results of Float64, which lie in [0, 1), and of Intn.
pub mod Strings
mod Tests
use baseplate_go.Common.{
  ℕ, zero, suc, ◌+◌, ◌-◌, ◌≤◌, ◌<◌, ◌≡◌, Bool, true, false, not, List, [], ◌∷◌, Bytes, codes,
  Option, none, some, is_empty, if◌then◌else◌,
}
use baseplate_go.Common.Int.{ℤ, pos}
use baseplate_go.Std.Float64.{Float64, finite, of_int, to_int, mul, sub, lt, eq}
use baseplate_go.Std.Int64.{wrap_64}

-- The constants 0, 1 and 2.
abbrev pub float_0 : Float64
float_0 = finite (pos 0)

abbrev pub float_1 : Float64
float_1 = of_int (pos 1)

abbrev pub float_2 : Float64
float_2 = of_int (pos 2)

-- jitter <= 0
abbrev pub not_positive : Float64 → Bool
not_positive x = if lt x float_0 then true else eq x float_0

unfoldable pub jitter_ratio : Float64 → Float64 → Float64
jitter_ratio drawn jitter =
    if not_positive jitter
    then float_1
    else let jitter' = if lt float_1 jitter then float_1 else jitter in
      sub float_1 (mul (sub (mul drawn float_2) float_1) jitter')

unfoldable pub jitter_duration : Float64 → ℤ → Float64 → ℤ
jitter_duration drawn center jitter = to_int (mul (of_int center) (jitter_ratio drawn jitter))

abbrev pub should_sample_with_rate : Float64 → Float64 → Bool
should_sample_with_rate drawn rate = lt drawn rate

-- ===== src/Prometheusbpint/Tests.antt =====
-- A gauge that goes up and down (internal/prometheusbpint/high_watermark.go).
use baseplate_go.Common.{◌≡◌, refl, ◌⊎◌, List, [], ◌∷◌, All, arith}
use baseplate_go.Common.Int.{pos, ◌≤ℤ◌, ◌+ℤ◌, ◌-ℤ◌}
use baseplate_go.Std.Int64.{wrap_64}
use baseplate_go.Prometheusbpint.{HighWatermarkValue, Call, call_inc, call_dec, call_set, run}
use baseplate_go.Prometheusbpint.Peaks.{Occurs, values, run-Peak}

-- The zero value.
abbrev fresh : HighWatermarkValue
fresh = record { curr = pos 0; max = pos 0 }

abbrev calls : List Call
calls = call_inc ∷ call_set (pos 5) ∷ call_dec ∷ []

calls-run : run fresh calls ≡ record { curr = pos 4; max = pos 5 }
unfolding run wrap_64 ◌+ℤ◌ ◌-ℤ◌
calls-run = refl

run-Peak_example :
    All (λ v. v ≤ℤ (run fresh calls).max) (values fresh calls)
    × (pos 0 ≤ℤ (run fresh calls).max)
    × (((run fresh calls).max ≡ pos 0) ⊎ Occurs (run fresh calls).max (values fresh calls))
run-Peak_example =
    run-Peak fresh calls (record { fits = (omega arith, omega arith); below = omega arith })
      ((omega arith, omega arith), (omega arith, tt))

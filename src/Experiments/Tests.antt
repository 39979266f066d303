-- ===== src/Experiments/Tests.antt =====
-- Small experiments, and the theorems on them (experiments/variants.go).
use baseplate_go.Common.{◌≡◌, ◌*◌, ◌^◌, refl, List, [], ◌∷◌, some, String, arith, eq_iff}
use baseplate_go.Common.Int.{ℤ, pos, ◌-ℤ◌, ◌+ℤ◌}
use baseplate_go.Std.Float64.{Float64, finite, to_int, mul, of_int, rounded, add}
use baseplate_go.Experiments.Variants.{
  Variant, single, multi, made, scaled, choose_variant, from_experiment_type, single_validate,
}
use baseplate_go.Experiments.Sizes.{Shares, single_growth}
use baseplate_go.Experiments.Intervals.{multi_variant_interval}
use baseplate_go.Experiments.Choices.{Chooses, from_experiment_type-Chooses}

-- The float64 nearest to 0.1, and its multiples by powers of two.
abbrev tenth : Float64
tenth = finite (pos (7_205_759_403_792_794 * 2 ^ 1_018))

abbrev fifth : Float64
fifth = finite (pos (7_205_759_403_792_794 * 2 ^ 1_019))

abbrev of_size : String → Float64 → Variant
of_size name size = record {
  name = name;
  size = size;
  range_start = finite (pos 0);
  range_end = finite (pos 0);
}

abbrev thousand : ℤ
thousand = pos 1_000

scaled-tenth : scaled tenth thousand ≡ pos 100
unfolding scaled to_int mul of_int rounded
scaled-tenth = refl

scaled-fifth : scaled fifth thousand ≡ pos 200
unfolding scaled to_int mul of_int rounded
scaled-fifth = refl

-- A variant and a control.
small-Shares : Shares (of_size "a" tenth) (of_size "b" tenth) thousand
unfolding ◌-ℤ◌
small-Shares = record {
  first = ground (arith, scaled-tenth);
  second = ground (arith, scaled-tenth);
  fits = (omega arith, omega arith);
  disjoint = ground (arith, scaled-tenth);
}

large-Shares : Shares (of_size "a" fifth) (of_size "b" tenth) thousand
unfolding ◌-ℤ◌
large-Shares = record {
  first = ground (arith, scaled-fifth);
  second = ground (arith, scaled-tenth);
  fits = (omega arith, omega arith);
  disjoint = ground (arith, scaled-tenth, scaled-fifth);
}

chosen_small :
    choose_variant (single (of_size "a" tenth ∷ of_size "b" tenth ∷ []) thousand) (pos 50)
    ≡ some "a"
unfolding choose_variant
chosen_small = ground (arith, scaled-tenth)

single_growth_case :
    choose_variant (single (of_size "a" fifth ∷ of_size "b" tenth ∷ []) thousand) (pos 50)
    ≡ choose_variant (single (of_size "a" tenth ∷ of_size "b" tenth ∷ []) thousand) (pos 50)
single_growth_case =
    single_growth (of_size "a" tenth) (of_size "b" tenth) (of_size "a" fifth) (of_size "b" tenth)
      thousand (pos 50) refl refl small-Shares large-Shares
      (ground (arith, scaled-tenth, scaled-fifth)) (omega arith)
      (ground (arith, chosen_small, eq_iff "a" ""))

multi_variant_interval_example :
    choose_variant
      (multi (of_size "a" tenth ∷ of_size "b" fifth ∷ of_size "c" tenth ∷ []) thousand)
      (pos 250)
    ≡ some "b"
multi_variant_interval_example =
    multi_variant_interval thousand (of_size "a" tenth ∷ []) (of_size "c" tenth ∷ [])
      (of_size "b" fifth) 250 (ground (arith, scaled-tenth), tt) (ground (arith, scaled-fifth))
      (ground (arith, scaled-tenth, scaled-fifth)) (ground (arith, scaled-tenth))
      (ground (arith, scaled-tenth, scaled-fifth))

abbrev on_off : List Variant
on_off = of_size "a" tenth ∷ of_size "b" fifth ∷ []

on_off_made :
    from_experiment_type "single_variant" (some on_off) thousand ≡ made (single on_off thousand)
unfolding from_experiment_type single_validate add of_int rounded ◌+ℤ◌
on_off_made = refl

from_experiment_type-Chooses_example : Chooses (single on_off thousand) on_off
from_experiment_type-Chooses_example =
    from_experiment_type-Chooses "single_variant" (some on_off) thousand (single on_off thousand)
      on_off_made

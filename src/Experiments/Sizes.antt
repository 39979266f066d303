-- ===== src/Experiments/Sizes.antt =====
-- Changes of the sizes of feature rollouts and single variants (experiments/variants.go).
use baseplate_go.Common.{◌≡◌, ◌≢◌, [], ◌∷◌, some, arith}
use baseplate_go.Common.Int.{ℤ, pos, ◌≤ℤ◌, ◌-ℤ◌, -ℤ_parts}
use baseplate_go.Std.Int64.{wrap_64, wrap_64_id, Fits}
use baseplate_go.Experiments.Variants.{Variant, single, scaled, choose_variant}

-- The sizes of two variants in buckets are not negative, and share the buckets.
pub record Shares (v w : Variant) (buckets : ℤ) : Type 0 where
  pub first : pos 0 ≤ℤ scaled v.size buckets
  pub second : pos 0 ≤ℤ scaled w.size buckets
  pub fits : Fits buckets
  pub disjoint : scaled v.size buckets ≤ℤ (buckets -ℤ scaled w.size buckets)

second_start :
    (v w : Variant) (buckets : ℤ)
    → Shares v w buckets
    → wrap_64 (buckets -ℤ scaled w.size buckets) ≡ buckets -ℤ scaled w.size buckets
second_start v w buckets s = wrap_64_id _ (
  omega (arith, s.first, s.second, s.disjoint, s.fits.1, -ℤ_parts buckets (scaled w.size buckets)),
  omega (arith, s.first, s.second, s.disjoint, s.fits.1, -ℤ_parts buckets (scaled w.size buckets)),
)

-- If the sizes of the variants of a single-variant experiment grow and still share the buckets, every
-- bucket that has a variant keeps it.
pub single_growth :
    (v w v' w' : Variant) (buckets bucket : ℤ)
    → v.name ≡ v'.name
    → w.name ≡ w'.name
    → Shares v w buckets
    → Shares v' w' buckets
    → scaled v.size buckets ≤ℤ scaled v'.size buckets
    → scaled w.size buckets ≤ℤ scaled w'.size buckets
    → choose_variant (single (v ∷ w ∷ []) buckets) bucket ≢ some ""
    → choose_variant (single (v' ∷ w' ∷ []) buckets) bucket
      ≡ choose_variant (single (v ∷ w ∷ []) buckets) bucket
unfolding choose_variant
single_growth v w v' w' buckets bucket e f s s' h k n = ground (
  arith,
  second_start v w buckets s,
  second_start v' w' buckets s',
  s.disjoint,
  s'.disjoint,
  -ℤ_parts buckets (scaled w.size buckets),
  -ℤ_parts buckets (scaled w'.size buckets),
)

-- ===== src/Experiments/Choices.antt =====
-- The variant sets that FromExperimentType of experiments/variants.go makes, and their choices.
use baseplate_go.Common.{
  ◌≡◌, refl, subst, ◌⊎◌, inl, inr, Bool, true, false, List, [], ◌∷◌, Option, none, some, String,
  str_eq, if◌then◌else◌, arith, Bool-cases,
}
use baseplate_go.Common.Int.{ℤ, pos, ltb_ℤ, leb_ℤ, ◌+ℤ◌, ◌-ℤ◌}
use baseplate_go.Std.Int64.{wrap_64}
use baseplate_go.Std.Float64.{add}
use baseplate_go.Experiments.Variants.{
  Variant, VariantSet, outside, single, multi, range, Error, Made, made, refused, scaled, slice,
  single_validate, multi_validate, rollout_validate, range_validate, checked, rollout_of,
  from_experiment_type, choose_variant, choose_multi, choose_range,
}

abbrev pub Named : String → List Variant → Type 0
Named name [] = ⊥
Named name (v ∷ vs) = (name ≡ v.name) ⊎ Named name vs

-- Choosing returns the empty name or the name of one of the variants.
abbrev pub Chooses : VariantSet → List Variant → Type 0
Chooses s vs =
    (bucket : ℤ)
    → (name : String) × (choose_variant s bucket ≡ some name) × ((name ≡ "") ⊎ Named name vs)

abbrev pub Sound : List Variant → Made → Type 0
Sound vs (made s) = Chooses s vs
Sound vs (refused e) = Unit

choose_multi-Named :
    (o : ℤ) (vs : List Variant) (buckets bucket : ℤ)
    → (choose_multi o vs buckets bucket ≡ "") ⊎ Named (choose_multi o vs buckets bucket) vs
unfolding choose_multi
choose_multi-Named o [] buckets bucket = inl refl
choose_multi-Named o (v ∷ vs) buckets bucket =
    let o' = wrap_64 (o +ℤ scaled v.size buckets) in
    ground (arith, choose_multi-Named o' vs buckets bucket)

choose_range-Named :
    (vs : List Variant) (buckets bucket : ℤ)
    → (choose_range vs buckets bucket ≡ "") ⊎ Named (choose_range vs buckets bucket) vs
unfolding choose_range
choose_range-Named [] buckets bucket = inl refl
choose_range-Named (v ∷ vs) buckets bucket = ground (arith, choose_range-Named vs buckets bucket)

if_Named :
    (t : Bool) (v : Variant) (vs : List Variant)
    → (name : String) × ((if t then some v.name else some "") ≡ some name)
      × ((name ≡ "") ⊎ Named name (v ∷ vs))
if_Named true v vs = (v.name, refl, inr (inl refl))
if_Named false v vs = ("", refl, inl refl)

two-Named :
    (t u : Bool) (v w : Variant)
    → (name : String) × ((if t then some v.name else if u then some w.name else some "")
        ≡ some name)
      × ((name ≡ "") ⊎ Named name (v ∷ w ∷ []))
two-Named true u v w = (v.name, refl, inr (inl refl))
two-Named false true v w = (w.name, refl, inr (inr (inl refl)))
two-Named false false v w = ("", refl, inl refl)

single_checked :
    (vs : Option (List Variant)) (buckets : ℤ)
    → Sound (slice vs) (checked (single_validate vs) (single (slice vs) buckets))
unfolding single_validate choose_variant
single_checked none buckets = tt
single_checked (some []) buckets = tt
single_checked (some (v ∷ [])) buckets = tt
single_checked (some (v ∷ w ∷ [])) buckets = elim (Bool-cases (outside (add v.size w.size))) [
  | inl e ↦ rw e tt
  | inr e ↦ rw e λ bucket.
      two-Named (ltb_ℤ bucket (scaled v.size buckets))
        (leb_ℤ (wrap_64 (buckets -ℤ scaled w.size buckets)) bucket) v w
]
single_checked (some (v ∷ w ∷ x ∷ vs)) buckets = tt

multi_checked :
    (vs : Option (List Variant)) (buckets : ℤ)
    → Sound (slice vs) (checked (multi_validate vs buckets) (multi (slice vs) buckets))
unfolding choose_variant
multi_checked vs buckets = go (multi_validate vs buckets)
  where
    go : (e : Option Error) → Sound (slice vs) (checked e (multi (slice vs) buckets))
    go none = λ bucket. (_, refl, choose_multi-Named (pos 0) (slice vs) buckets bucket)
    go (some e) = tt

range_checked :
    (vs : Option (List Variant)) (buckets : ℤ)
    → Sound (slice vs) (checked (range_validate vs buckets) (range (slice vs) buckets))
unfolding choose_variant
range_checked vs buckets = go (range_validate vs buckets)
  where
    go : (e : Option Error) → Sound (slice vs) (checked e (range (slice vs) buckets))
    go none = λ bucket. (_, refl, choose_range-Named (slice vs) buckets bucket)
    go (some e) = tt

rollout_checked :
    (vs : Option (List Variant)) (buckets : ℤ)
    → Sound
        (slice vs)
        (elim (rollout_validate vs) [ none ↦ rollout_of (slice vs) buckets | some e ↦ refused e ])
unfolding choose_variant
rollout_checked vs buckets = go (rollout_validate vs) (slice vs)
  where
    go :
        (e : Option Error) (us : List Variant)
        → Sound us (elim e [ none ↦ rollout_of us buckets | some e ↦ refused e ])
    go (some e) us = tt
    go none [] = tt
    go none (v ∷ us) = λ bucket. if_Named (ltb_ℤ bucket (scaled v.size buckets)) v us

pub from_experiment_type-Sound :
    (type : String) (vs : Option (List Variant)) (buckets : ℤ)
    → Sound (slice vs) (from_experiment_type type vs buckets)
unfolding from_experiment_type
from_experiment_type-Sound type vs buckets = elim (Bool-cases (str_eq type "single_variant")) [
  | inl e ↦ rw e (single_checked vs buckets)
  | inr a ↦ rw a (elim (Bool-cases (str_eq type "multi_variant")) [
    | inl e ↦ rw e (multi_checked vs buckets)
    | inr b ↦ rw b (elim (Bool-cases (str_eq type "feature_rollout")) [
      | inl e ↦ rw e (rollout_checked vs buckets)
      | inr c ↦ rw c (elim (Bool-cases (str_eq type "range_variant")) [
        | inl e ↦ rw e (range_checked vs buckets)
        | inr d ↦ rw d tt
      ])
    ])
  ])
]

-- A variant set that FromExperimentType makes never panics when it chooses, and chooses for every
-- bucket no variant or one of those that it was made of.
pub from_experiment_type-Chooses :
    (type : String) (vs : Option (List Variant)) (buckets : ℤ) (s : VariantSet)
    → from_experiment_type type vs buckets ≡ made s
    → Chooses s (slice vs)
from_experiment_type-Chooses type vs buckets s h =
    subst (Sound (slice vs)) h (from_experiment_type-Sound type vs buckets)

-- ===== src/Experiments/Variants.antt =====
-- experiments/variants.go: the variant sets, which give a variant to a bucket.
-- A variant set is checked when it is made. A slice that may be nil is an Option. `none` as the result
-- of a choice is the panic of an index out of range.
use baseplate_go.Common.{
  Bool, ◌||◌, ◌&&◌, List, [], ◌∷◌, Option, none, some, String, str_eq, length, ltb, if◌then◌else◌,
}
use baseplate_go.Common.Int.{ℤ, pos, ◌+ℤ◌, ◌-ℤ◌, ltb_ℤ, leb_ℤ}
use baseplate_go.Std.Int64.{wrap_64}
use baseplate_go.Std.Float64.{Float64, finite, of_int, mul, add, sub, lt, to_int}

pub record Variant : Type 0 where
  pub name : String
  pub size : Float64
  pub range_start : Float64
  pub range_end : Float64

-- The VariantValidationErrors, and the error of an unknown type.
pub data Error : Type 0 where
  no_variants one_variant_and_one_control three_or_more only_one : Error
  sum_not_between size_not_between sum_too_large : Error
  unknown_type : String → Error

pub data VariantSet : Type 0 where
  single multi range : List Variant → ℤ → VariantSet
  rollout : Variant → ℤ → VariantSet

pub data Made : Type 0 where
  made : VariantSet → Made
  refused : Error → Made

-- int(size * float64(buckets))
unfoldable pub scaled : Float64 → ℤ → ℤ
scaled size buckets = to_int (mul size (of_int buckets))

abbrev pub zero_size : Float64
zero_size = finite (pos 0)

abbrev pub full_size : Float64
full_size = of_int (pos 1)

abbrev pub outside : Float64 → Bool
outside x = lt x zero_size || lt full_size x

-- Each validate: none is success. The arguments are all of the slice.
unfoldable pub single_validate : Option (List Variant) → Option Error
single_validate none = some no_variants
single_validate (some (v ∷ w ∷ [])) =
    if outside (add v.size w.size) then some sum_not_between else none
single_validate (some _) = some one_variant_and_one_control

-- The loops that sum the sizes.
unfoldable pub total_size : Float64 → ℤ → List Variant → Float64
total_size sum buckets [] = sum
total_size sum buckets (v ∷ vs) = total_size (add sum (mul v.size (of_int buckets))) buckets vs

unfoldable pub multi_validate : Option (List Variant) → ℤ → Option Error
unfolding total_size
multi_validate none buckets = some no_variants
multi_validate (some vs) buckets =
    if ltb (length vs) 3
    then some three_or_more
    else if lt (of_int buckets) (total_size zero_size buckets vs)
    then some sum_too_large
    else none

unfoldable pub rollout_validate : Option (List Variant) → Option Error
rollout_validate none = some no_variants
rollout_validate (some (v ∷ [])) = if outside v.size then some size_not_between else none
rollout_validate (some _) = some only_one

unfoldable pub total_range : ℤ → ℤ → List Variant → ℤ
total_range sum buckets [] = sum
total_range sum buckets (v ∷ vs) =
    total_range (wrap_64 (sum +ℤ scaled (sub v.range_end v.range_start) buckets)) buckets vs

unfoldable pub range_validate : Option (List Variant) → ℤ → Option Error
unfolding total_range
range_validate none buckets = some no_variants
range_validate (some []) buckets = some no_variants
range_validate (some vs) buckets =
    if ltb_ℤ buckets (total_range (pos 0) buckets vs) then some sum_too_large else none

abbrev pub slice : Option (List Variant) → List Variant
slice none = []
slice (some vs) = vs

abbrev pub checked : Option Error → VariantSet → Made
checked none s = made s
checked (some e) s = refused e

abbrev pub new_single_variant_set : Option (List Variant) → ℤ → Made
new_single_variant_set vs buckets = checked (single_validate vs) (single (slice vs) buckets)

abbrev pub new_multi_variant_set : Option (List Variant) → ℤ → Made
new_multi_variant_set vs buckets = checked (multi_validate vs buckets) (multi (slice vs) buckets)

-- A validated slice has a first element.
abbrev pub rollout_of : List Variant → ℤ → Made
rollout_of [] buckets = refused no_variants
rollout_of (v ∷ vs) buckets = made (rollout v buckets)

abbrev pub new_rollout_variant_set : Option (List Variant) → ℤ → Made
new_rollout_variant_set vs buckets = elim (rollout_validate vs) [
  | none ↦ rollout_of (slice vs) buckets
  | some e ↦ refused e
]

abbrev pub new_range_variant_set : Option (List Variant) → ℤ → Made
new_range_variant_set vs buckets = checked (range_validate vs buckets) (range (slice vs) buckets)

unfoldable pub from_experiment_type : String → Option (List Variant) → ℤ → Made
from_experiment_type type vs buckets =
    if str_eq type "single_variant"
    then new_single_variant_set vs buckets
    else if str_eq type "multi_variant"
    then new_multi_variant_set vs buckets
    else if str_eq type "feature_rollout"
    then new_rollout_variant_set vs buckets
    else if str_eq type "range_variant"
    then new_range_variant_set vs buckets
    else refused (unknown_type type)

abbrev pub choose_single : List Variant → ℤ → ℤ → Option String
choose_single (v ∷ w ∷ _) buckets bucket =
    if ltb_ℤ bucket (scaled v.size buckets)
    then some v.name
    else if leb_ℤ (wrap_64 (buckets -ℤ scaled w.size buckets)) bucket
    then some w.name
    else some ""
choose_single (v ∷ []) buckets bucket =
    if ltb_ℤ bucket (scaled v.size buckets) then some v.name else none
choose_single [] buckets bucket = none

-- The loop of MultiVariantSet, from the running offset.
unfoldable pub choose_multi : ℤ → List Variant → ℤ → ℤ → String
choose_multi offset [] buckets bucket = ""
choose_multi offset (v ∷ vs) buckets bucket =
    let offset' = wrap_64 (offset +ℤ scaled v.size buckets) in
    let rest = choose_multi offset' vs buckets bucket in
    if ltb_ℤ bucket offset' then v.name else rest

unfoldable pub choose_range : List Variant → ℤ → ℤ → String
choose_range [] buckets bucket = ""
choose_range (v ∷ vs) buckets bucket =
    let rest = choose_range vs buckets bucket in
    if leb_ℤ (scaled v.range_start buckets) bucket && ltb_ℤ bucket (scaled v.range_end buckets)
    then v.name
    else rest

-- ChooseVariant of each variant set.
unfoldable pub choose_variant : VariantSet → ℤ → Option String
choose_variant (single vs buckets) bucket = choose_single vs buckets bucket
choose_variant (multi vs buckets) bucket = some (choose_multi (pos 0) vs buckets bucket)
choose_variant (range vs buckets) bucket = some (choose_range vs buckets bucket)
choose_variant (rollout v buckets) bucket =
    if ltb_ℤ bucket (scaled v.size buckets) then some v.name else some ""

-- ===== src/Experiments/Simple.antt =====
-- experiments/experiments.go: SimpleExperiment, and how it is made from a configuration.
-- The timestamps of a configuration come as instants, its targeting configurations decoded. The clock is
-- an argument; SHA-1 and the text of a float64 are parameters.
use baseplate_go.Common.{
  ℕ, ◌+◌, ◌*◌, ◌%◌, Bool, true, false, not, ◌&&◌, List, [], ◌∷◌, ◌++◌, Option, none, some, Bytes,
  String, codes, to_lower, is_empty, if◌then◌else◌,
}
use baseplate_go.Common.Int.{ℤ, pos}
use baseplate_go.Std.Instant.{Instant, before}
use baseplate_go.Std.Int64.{show}
use baseplate_go.Std.Float64.{Float64}
use baseplate_go.Experiments.Variants as Variants
use baseplate_go.Experiments.Variants.{
  Variant, VariantSet, made, from_experiment_type, choose_variant,
}
use baseplate_go.Experiments.Targeting as Targeting
use baseplate_go.Experiments.Targeting.{
  Text, Value, Arg, nil, text_arg, Args, argument, Node, override_node, Parsed, parsed, panic,
  map_parsed, new_targeting,
}
use baseplate_go.Experiments.Evaluate.{evaluate}

-- The configuration of an experiment: ExperimentConfig with its Experiment. `targeting` is none if the
-- message is empty, and some none if it is no JSON.
pub record ExperimentConfig : Type 0 where
  pub id : ℤ
  pub name : Text
  pub enabled : Option Bool
  pub type : String
  pub start_timestamp : Instant
  pub stop_timestamp : Instant
  pub shuffle_version : ℤ
  pub bucket_val : Text
  pub variants : Option (List Variant)
  pub bucket_seed : Text
  pub targeting : Option (Option Value)
  pub overrides : List (List (String × Option Value))

pub record SimpleExperiment : Type 0 where
  pub name : Text
  pub bucket_seed : Text
  pub num_buckets : ℕ
  pub enabled : Bool
  pub start_time : Instant
  pub end_time : Instant
  pub bucket_val : Text
  pub variant_set : VariantSet
  pub targeting : Node
  pub overrides : List (List (String × Node))

pub data Built : Type 0 where
  built : SimpleExperiment → Built
  variants_refused : Variants.Error → Built
  targeting_refused : Targeting.Error → Built
  crashed : Built

abbrev pub num_buckets : ℕ
num_buckets = 1_000

abbrev pub or_default : Text → Text → Text
or_default s d = if is_empty s then d else s

-- fmt.Sprintf("%d.%s.%d", experiment.ID, experiment.Name, experiment.Experiment.ShuffleVersion)
abbrev pub default_seed : ExperimentConfig → Text
default_seed c = show c.id ++ b'.' ∷ c.name ++ b'.' ∷ show c.shuffle_version

-- The targeting of a configuration without one is `{"OVERRIDE": true}`.
abbrev pub targeting_of : Option (Option Value) → Parsed Node
targeting_of none = parsed (override_node true)
targeting_of (some config) = new_targeting config

abbrev pub bind_parsed : {A B : Type 0} → Parsed A → (A → Parsed B) → Parsed B
bind_parsed (parsed a) f = f a
bind_parsed (Targeting.refused e) f = Targeting.refused e
bind_parsed panic f = panic

-- The two loops over the overrides.
unfoldable pub parse_override : List (String × Option Value) → Parsed (List (String × Node))
parse_override [] = parsed []
parse_override ((variant, config) ∷ rest) =
    bind_parsed (new_targeting config)
      λ n. map_parsed (λ ns. (variant, n) ∷ ns) (parse_override rest)

unfoldable pub parse_overrides :
    List (List (String × Option Value)) → Parsed (List (List (String × Node)))
unfolding parse_override
parse_overrides [] = parsed []
parse_overrides (o ∷ rest) =
    bind_parsed (parse_override o) λ ns. map_parsed (λ rest'. ns ∷ rest') (parse_overrides rest)

abbrev pub assemble :
    ExperimentConfig → VariantSet → Node → List (List (String × Node)) → SimpleExperiment
assemble c s n os = record {
  name = c.name;
  bucket_seed = or_default c.bucket_seed (default_seed c);
  num_buckets = num_buckets;
  enabled = elim c.enabled [ none ↦ true | some b ↦ b ];
  start_time = c.start_timestamp;
  end_time = c.stop_timestamp;
  bucket_val = or_default c.bucket_val (codes "user_id");
  variant_set = s;
  targeting = n;
  overrides = os;
}

abbrev pub build :
    (Node → List (List (String × Node)) → SimpleExperiment)
    → Parsed Node
    → Parsed (List (List (String × Node)))
    → Built
build f (Targeting.refused e) os = targeting_refused e
build f panic os = crashed
build f (parsed n) (Targeting.refused e) = targeting_refused e
build f (parsed n) panic = crashed
build f (parsed n) (parsed os) = built (f n os)

abbrev pub with_variants : ExperimentConfig → Variants.Made → Built
with_variants c (Variants.refused e) = variants_refused e
with_variants c (made s) =
    build (assemble c s) (targeting_of c.targeting) (parse_overrides c.overrides)

unfoldable pub new_simple_experiment : ExperimentConfig → Built
new_simple_experiment c = with_variants c (from_experiment_type c.type c.variants (pos num_buckets))

unfoldable pub is_enabled : SimpleExperiment → Instant → Bool
is_enabled e now = e.enabled && not (before now e.start_time) && before now e.end_time

-- lowerArguments: of two keys that differ only in case the one that is visited later wins. It stands
-- first here.
unfoldable pub lower_onto : Args → Args → Args
lower_onto lowered [] = lowered
lower_onto lowered ((key, value) ∷ rest) = lower_onto ((to_lower key, value) ∷ lowered) rest

unfoldable pub lower_arguments : Args → Args
lower_arguments args = lower_onto [] args

-- value == nil || value == ""
abbrev pub is_missing : Arg → Bool
is_missing nil = true
is_missing (text_arg []) = true
is_missing _ = false

-- A number from its digits in base 256, the highest first.
abbrev pub big_endian : ℕ → Bytes → ℕ
big_endian n [] = n
big_endian n (b ∷ bs) = big_endian (n * 256 + b) bs

pub data Choice : Type 0 where
  chosen : String → Choice
  missing_bucket_key : (experiment_name args_key : Text) → Choice
  not_a_string crash : Choice

abbrev pub choice_of : Option String → Choice
choice_of none = crash
choice_of (some name) = chosen name

module _ (sha1 : Bytes → Bytes) (show_float : Float64 → Text)
    (parse_float : Text → Option Float64) where
  -- NewSimpleExperiment sets a number of buckets that is not 0.
  unfoldable pub calculate_bucket : SimpleExperiment → Text → ℕ
  calculate_bucket e bucket_key = big_endian 0 (sha1 (e.bucket_seed ++ bucket_key)) % e.num_buckets

  abbrev pub bucketed : SimpleExperiment → Arg → Choice
  bucketed e (text_arg bucket_val) =
      choice_of (choose_variant e.variant_set (pos (calculate_bucket e bucket_val)))
  bucketed e _ = not_a_string

  abbrev pub targeted : SimpleExperiment → Args → Choice
  targeted e args = elim (evaluate show_float parse_float e.targeting args) [
    | none ↦ crash
    | some b ↦ if b then bucketed e (argument e.bucket_val args) else chosen ""
  ]

  -- The loops over the overrides, and what comes after them.
  unfoldable pub override_or : List (String × Node) → Args → Choice → Choice
  override_or [] args next = next
  override_or ((variant, n) ∷ rest) args next =
      let later = override_or rest args next in
      elim (evaluate show_float parse_float n args) [
        | none ↦ crash
        | some b ↦ if b then chosen variant else later
      ]

  unfoldable pub overrides_or : List (List (String × Node)) → Args → Choice → Choice
  unfolding override_or
  overrides_or [] args next = next
  overrides_or (o ∷ os) args next = override_or o args (overrides_or os args next)

  -- SimpleExperiment.Variant
  unfoldable pub variant : SimpleExperiment → Args → Instant → Choice
  variant e args now =
      let lowered = lower_arguments args in
      if is_enabled e now
      then (if is_missing (argument e.bucket_val lowered)
          then missing_bucket_key e.name e.bucket_val
          else overrides_or e.overrides lowered (targeted e lowered))
      else chosen ""

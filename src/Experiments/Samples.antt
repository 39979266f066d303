-- ===== src/Experiments/Samples.antt =====
-- A small experiment with targeting and an override, and the theorems on it (experiments/experiments.go
-- and experiments/targeting.go).
use baseplate_go.Common.{
  ◌^◌, ◌≡◌, ◌≢◌, refl, true, List, [], ◌∷◌, Option, none, some, Bytes, codes, to_lower, bytes_eq,
}
use baseplate_go.Common.Int.{pos, ◌+ℤ◌}
use baseplate_go.Std.Int64.{show}
use baseplate_go.Std.Float64.{Float64, finite, of_int, rounded, add}
use baseplate_go.Experiments.Variants.{Variant, single, from_experiment_type, single_validate}
use baseplate_go.Experiments.Targeting.{
  Text, Value, number, text, object, no_items, item, no_fields, field, text_arg, float_arg, int_arg,
  Args, Node, Nodes, equal_node, override_node, comparison_node, greater_than, no_nodes, node,
  any_node, all_node, not_node, new_targeting, argument,
}
use baseplate_go.Experiments.Evaluate.{evaluate}
use baseplate_go.Experiments.Evaluation.{
  WellTyped, Evaluates, evaluate-WellTyped, negated, evaluate_de_morgan, comparison_float_never,
}
use baseplate_go.Experiments.Simple.{
  ExperimentConfig, SimpleExperiment, built, new_simple_experiment, parse_overrides, variant,
  lower_arguments, lower_onto,
}
use baseplate_go.Experiments.Legal.{Legal, variant-Legal, comparison_upper_never}

abbrev sha1 : Bytes → Bytes
sha1 message = message

abbrev show_float : Float64 → Text
show_float x = codes "1.5"

abbrev parse_float : Text → Option Float64
parse_float t = some (of_int (pos 1))

abbrev half : Float64
half = finite (pos (2 ^ 1_073))

abbrev halves : List Variant
halves =
    record { name = "a"; size = half; range_start = finite (pos 0); range_end = finite (pos 0) }
    ∷ record { name = "b"; size = half; range_start = finite (pos 0); range_end = finite (pos 0) }
    ∷ []

-- {"EQ": {"field": "Staff", "value": "yes"}}
abbrev is_staff : Value
is_staff = object (
    field (codes "EQ")
      (object (
        field (codes "field") (text (codes "Staff"))
          (field (codes "value") (text (codes "yes")) no_fields)))
      no_fields)

abbrev config : ExperimentConfig
config = record {
  id = pos 7;
  name = codes "buttons";
  enabled = none;
  type = "single_variant";
  start_timestamp = 10;
  stop_timestamp = 20;
  shuffle_version = pos 1;
  bucket_val = [];
  variants = some halves;
  bucket_seed = [];
  targeting = none;
  overrides = (("b", some is_staff) ∷ []) ∷ [];
}

abbrev staff : Node
staff = equal_node (codes "staff") (item (text (codes "yes")) no_items)

abbrev experiment : SimpleExperiment
experiment = record {
  name = codes "buttons";
  bucket_seed = codes "7.buttons.1";
  num_buckets = 1_000;
  enabled = true;
  start_time = 10;
  end_time = 20;
  bucket_val = codes "user_id";
  variant_set = single halves (pos 1_000);
  targeting = override_node true;
  overrides = (("b", staff) ∷ []) ∷ [];
}

config-built : new_simple_experiment config ≡ built experiment
unfolding new_simple_experiment from_experiment_type single_validate add of_int rounded ◌+ℤ◌
    parse_overrides new_targeting bytes_eq to_lower show
config-built = refl

abbrev request : Args
request = (codes "User_ID", text_arg (codes "t2_1")) ∷ (codes "staff", text_arg (codes "yes")) ∷ []

variant-Legal_example :
    Legal halves
      ((("b", staff) ∷ []) ∷ [])
      (variant sha1 show_float parse_float experiment request 15)
unfolding WellTyped
variant-Legal_example =
    variant-Legal sha1 show_float parse_float config experiment request 15 config-built tt
      (((tt, tt), tt), tt)

-- NOT ANY: the tree and its children.
abbrev children : Nodes
children =
    node staff (node (comparison_node (codes "age") (number (codes "18")) greater_than) no_nodes)

evaluate-WellTyped_example :
    Evaluates (evaluate show_float parse_float (any_node children) (lower_arguments request))
unfolding WellTyped
evaluate-WellTyped_example =
    evaluate-WellTyped show_float parse_float (any_node children) (lower_arguments request)
      ((tt, tt), (tt, tt))

evaluate_de_morgan_case :
    evaluate show_float parse_float (not_node (any_node children)) request
    ≡ evaluate show_float parse_float (all_node (negated children)) request
evaluate_de_morgan_case = evaluate_de_morgan show_float parse_float children request

abbrev aged : Args
aged = (codes "age", float_arg (of_int (pos 20))) ∷ []

comparison_float_never_case :
    evaluate show_float parse_float
      (comparison_node (codes "age") (number (codes "18")) greater_than)
      aged
    ≢ some true
unfolding argument bytes_eq
comparison_float_never_case =
    comparison_float_never show_float parse_float (codes "age") (number (codes "18")) greater_than
      aged (of_int (pos 20)) refl

capital_differs : codes "Age" ≢ to_lower (codes "Age")
unfolding to_lower
capital_differs = λ h. cc h

comparison_upper_never_case :
    evaluate show_float parse_float
      (comparison_node (codes "Age") (number (codes "18")) greater_than)
      (lower_arguments ((codes "Age", int_arg (pos 20)) ∷ []))
    ≢ some true
comparison_upper_never_case =
    comparison_upper_never show_float parse_float (codes "Age") (number (codes "18")) greater_than
      ((codes "Age", int_arg (pos 20)) ∷ []) capital_differs

-- Without the capital letter the same request passes.
staff_passes : evaluate show_float parse_float staff (lower_arguments request) ≡ some true
unfolding evaluate lower_arguments argument lower_onto bytes_eq to_lower
staff_passes = refl

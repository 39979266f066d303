-- ===== src/Experiments/Evaluate.antt =====
-- The Evaluate methods of experiments/targeting.go; `none` is a panic.
use baseplate_go.Common.{Bool, true, false, not, Option, none, some, bytes_eq, if◌then◌else◌}
use baseplate_go.Std.Int64.{show}
use baseplate_go.Std.Float64.{Float64, of_int}
use baseplate_go.Experiments.Targeting.{
  Text, Value, null, bool, number, text, array, object, Items, no_items, item, Arg, nil, bool_arg,
  int_arg, float_arg, text_arg, number_arg, array_arg, object_arg, Args, argument, Comparer,
  compares, Node, any_node, all_node, equal_node, not_node, override_node, comparison_node, Nodes,
  no_nodes, node,
}

-- The == of two interface values; two arrays, or two objects, cannot be compared.
abbrev pub same : Arg → Value → Option Bool
same nil null = some true
same (bool_arg true) (bool b) = some b
same (bool_arg false) (bool b) = some (not b)
same (number_arg s) (number t) = some (bytes_eq s t)
same (text_arg s) (text t) = some (bytes_eq s t)
same array_arg (array vs) = none
same object_arg (object fs) = none
same _ _ = some false

abbrev pub not_option : Option Bool → Option Bool
not_option none = none
not_option (some b) = some (not b)

-- The text of a float64 in the format %v, and strconv.ParseFloat, `none` for its error.
module _ (show_float : Float64 → Text) (parse_float : Text → Option Float64) where
  abbrev pub candidate : Arg → Arg
  candidate (int_arg n) = number_arg (show n)
  candidate (float_arg x) = number_arg (show_float x)
  candidate a = a

  -- The loop over the accepted values.
  unfoldable pub accepts : Arg → Items → Option Bool
  accepts a no_items = some false
  accepts a (item v vs) =
      let rest = accepts a vs in
      elim (same a v) [ none ↦ none | some b ↦ if b then some true else rest ]

  -- The float64 case calls the comparer and drops its result.
  abbrev pub compare_with : Comparer → Arg → Float64 → Bool
  compare_with c (int_arg n) value = compares c (of_int n) value
  compare_with c _ value = false

  unfoldable pub evaluate_comparison : Arg → Value → Comparer → Option Bool
  evaluate_comparison a null c = some false
  evaluate_comparison a (number t) c = elim (parse_float t) [
    | none ↦ some false
    | some value ↦ some (compare_with c a value)
  ]
  evaluate_comparison a _ c = none

  unfoldable mutual
    unfolding accepts evaluate_comparison

    pub evaluate : Node → Args → Option Bool
    evaluate (any_node ns) inputs = evaluate_any ns inputs
    evaluate (all_node ns) inputs = evaluate_all ns inputs
    evaluate (equal_node name vs) inputs = accepts (candidate (argument name inputs)) vs
    evaluate (not_node n) inputs = not_option (evaluate n inputs)
    evaluate (override_node b) inputs = some b
    evaluate (comparison_node name value c) inputs =
        evaluate_comparison (argument name inputs) value c

    pub evaluate_any : Nodes → Args → Option Bool
    evaluate_any no_nodes inputs = some false
    evaluate_any (node n ns) inputs =
        let rest = evaluate_any ns inputs in
        elim (evaluate n inputs) [ none ↦ none | some b ↦ if b then some true else rest ]

    pub evaluate_all : Nodes → Args → Option Bool
    evaluate_all no_nodes inputs = some true
    evaluate_all (node n ns) inputs =
        let rest = evaluate_all ns inputs in
        elim (evaluate n inputs) [ none ↦ none | some b ↦ if b then rest else some false ]

-- ===== src/Experiments/Evaluation.antt =====
-- The evaluation of targeting trees (experiments/targeting.go).
use baseplate_go.Common.{◌≡◌, ◌≢◌, refl, Bool, true, Option, none, some, arith, Option-cases}
use baseplate_go.Std.Float64.{Float64}
use baseplate_go.Experiments.Targeting.{
  Text, Value, null, bool, number, text, array, object, Items, no_items, item, Arg, float_arg, Args,
  argument, Comparer, Node, any_node, all_node, equal_node, not_node, override_node,
  comparison_node, Nodes, no_nodes, node,
}
use baseplate_go.Experiments.Evaluate.{
  same, accepts, evaluate_comparison, not_option, evaluate, evaluate_any, evaluate_all,
}

-- Values that can be compared with every argument.
abbrev pub Scalar : Value → Type 0
Scalar null = Unit
Scalar (bool b) = Unit
Scalar (number t) = Unit
Scalar (text t) = Unit
Scalar (array vs) = ⊥
Scalar (object fs) = ⊥

abbrev pub Scalars : Items → Type 0
Scalars no_items = Unit
Scalars (item v vs) = Scalar v × Scalars vs

abbrev pub NumberOrNull : Value → Type 0
NumberOrNull null = Unit
NumberOrNull (number t) = Unit
NumberOrNull _ = ⊥

-- A tree whose accepted values are scalars, and whose comparisons are with numbers or null.
unfoldable mutual
  pub WellTyped : Node → Type 0
  WellTyped (any_node ns) = AllWellTyped ns
  WellTyped (all_node ns) = AllWellTyped ns
  WellTyped (equal_node name vs) = Scalars vs
  WellTyped (not_node n) = WellTyped n
  WellTyped (override_node b) = Unit
  WellTyped (comparison_node name v c) = NumberOrNull v

  pub AllWellTyped : Nodes → Type 0
  AllWellTyped no_nodes = Unit
  AllWellTyped (node n ns) = WellTyped n × AllWellTyped ns

abbrev pub Evaluates : Option Bool → Type 0
Evaluates r = (b : Bool) × (r ≡ some b)

Evaluates-intro : (r : Option Bool) → r ≢ none → Evaluates r
Evaluates-intro none h = absurd (h refl)
Evaluates-intro (some b) h = (b, refl)

same-ne-none : (a : Arg) (v : Value) → Scalar v → same a v ≢ none
same-ne-none a v s h = ground arith

-- The negations of the children.
abbrev pub negated : Nodes → Nodes
negated no_nodes = no_nodes
negated (node n ns) = node (not_node n) (negated ns)

module _ (show_float : Float64 → Text) (parse_float : Text → Option Float64) where
  not-any :
      (ns : Nodes) (inputs : Args)
      → not_option (evaluate_any show_float parse_float ns inputs)
        ≡ evaluate_all show_float parse_float (negated ns) inputs
  unfolding evaluate
  not-any no_nodes inputs = refl
  not-any (node n ns) inputs =
      ground (arith, not-any ns inputs, Option-cases (evaluate show_float parse_float n inputs))

  accepts-ne-none : (a : Arg) (vs : Items) → Scalars vs → accepts show_float parse_float a vs ≢ none
  unfolding accepts
  accepts-ne-none a no_items s h = cc h
  accepts-ne-none a (item v vs) (s, ss) h =
      ground (arith, same-ne-none a v s, accepts-ne-none a vs ss, Option-cases (same a v))

  comparison-ne-none :
      (a : Arg) (v : Value) (c : Comparer)
      → NumberOrNull v
      → evaluate_comparison show_float parse_float a v c ≢ none
  unfolding evaluate_comparison
  comparison-ne-none a null c s h = cc h
  comparison-ne-none a (bool b) c s h = absurd s
  comparison-ne-none a (text t) c s h = absurd s
  comparison-ne-none a (array vs) c s h = absurd s
  comparison-ne-none a (object fs) c s h = absurd s
  comparison-ne-none a (number t) c s h = ground (arith, Option-cases (parse_float t))

  mutual
    unfolding evaluate WellTyped

    evaluate-ne-none :
        (n : Node) (inputs : Args) → WellTyped n → evaluate show_float parse_float n inputs ≢ none
    evaluate-ne-none (any_node ns) inputs w h = any-ne-none ns inputs w h
    evaluate-ne-none (all_node ns) inputs w h = all-ne-none ns inputs w h
    evaluate-ne-none (equal_node name vs) inputs w h = accepts-ne-none _ vs w h
    evaluate-ne-none (not_node n) inputs w h = ground (
      arith,
      evaluate-ne-none n inputs w,
      Option-cases (evaluate show_float parse_float n inputs),
    )
    evaluate-ne-none (override_node b) inputs w h = cc h
    evaluate-ne-none (comparison_node name v c) inputs w h = comparison-ne-none _ v c w h

    any-ne-none :
        (ns : Nodes) (inputs : Args)
        → AllWellTyped ns
        → evaluate_any show_float parse_float ns inputs ≢ none
    any-ne-none no_nodes inputs w h = cc h
    any-ne-none (node n ns) inputs (w, ws) h = ground (
      arith,
      evaluate-ne-none n inputs w,
      any-ne-none ns inputs ws,
      Option-cases (evaluate show_float parse_float n inputs),
    )

    all-ne-none :
        (ns : Nodes) (inputs : Args)
        → AllWellTyped ns
        → evaluate_all show_float parse_float ns inputs ≢ none
    all-ne-none no_nodes inputs w h = cc h
    all-ne-none (node n ns) inputs (w, ws) h = ground (
      arith,
      evaluate-ne-none n inputs w,
      all-ne-none ns inputs ws,
      Option-cases (evaluate show_float parse_float n inputs),
    )

  -- A tree whose accepted values are scalars, and whose comparisons are with numbers or null, evaluates to
  -- a result on all arguments: no evaluation of it panics.
  pub evaluate-WellTyped :
      (n : Node) (inputs : Args)
      → WellTyped n
      → Evaluates (evaluate show_float parse_float n inputs)
  evaluate-WellTyped n inputs w = Evaluates-intro _ (evaluate-ne-none n inputs w)

  -- The negation of an ANY node evaluates as the ALL node of the negated children, a panic of a child
  -- included.
  pub evaluate_de_morgan :
      (ns : Nodes) (inputs : Args)
      → evaluate show_float parse_float (not_node (any_node ns)) inputs
        ≡ evaluate show_float parse_float (all_node (negated ns)) inputs
  unfolding evaluate
  evaluate_de_morgan ns inputs = not-any ns inputs

  -- A comparison with an argument that is a float64 is never true, whatever the numbers are.
  pub comparison_float_never :
      (name : Text) (value : Value) (c : Comparer) (inputs : Args) (x : Float64)
      → argument name inputs ≡ float_arg x
      → evaluate show_float parse_float (comparison_node name value c) inputs ≢ some true
  unfolding evaluate
  comparison_float_never name null c inputs x e h = cc h
  comparison_float_never name (number t) c inputs x e h =
      ground (arith, Option-cases (parse_float t))
  comparison_float_never name value c inputs x e h = cc h

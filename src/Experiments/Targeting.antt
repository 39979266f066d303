-- ===== src/Experiments/Targeting.antt =====
-- experiments/targeting.go: targeting trees, how they are read and evaluated.
-- A configuration comes decoded from JSON, with numbers as their texts; the fields of an object stand in
-- the order in which a range visits them, each name once. Names are lists of code points. `panic`, and
-- `none` as the result of an evaluation, is a panic of the Go code.
use baseplate_go.Common.{
  ℕ, suc, Bool, false, not, ◌||◌, List, [], ◌∷◌, Option, none, some, Bytes, bytes_eq, codes,
  to_lower, ◌==◌, if◌then◌else◌,
}
use baseplate_go.Common.Int.{ℤ}
use baseplate_go.Std.Float64.{Float64, lt, eq}

abbrev pub Text : Type 0
Text = Bytes

mutual
  pub data Value : Type 0 where
    null : Value
    bool : Bool → Value
    number text : Text → Value
    array : Items → Value
    object : Fields → Value

  pub data Items : Type 0 where
    no_items : Items
    item : Value → Items → Items

  pub data Fields : Type 0 where
    no_fields : Fields
    field : Text → Value → Fields → Fields

-- The arguments of a request: `interface{}` values by their dynamic type. Arrays and objects are those
-- types that JSON decoding makes too, and cannot be compared; `other` is any other type.
pub data Arg : Type 0 where
  nil : Arg
  bool_arg : Bool → Arg
  int_arg : ℤ → Arg
  float_arg : Float64 → Arg
  text_arg number_arg : Text → Arg
  array_arg object_arg other : Arg

abbrev pub Args : Type 0
Args = List (Text × Arg)

-- args[key], nil for a missing key.
unfoldable pub argument : Text → Args → Arg
argument key [] = nil
argument key ((k, v) ∷ rest) = let later = argument key rest in if bytes_eq k key then v else later

pub data Comparer : Type 0 where
  greater_than greater_equals less_than less_equals not_equal : Comparer

abbrev pub compares : Comparer → Float64 → Float64 → Bool
compares greater_than i j = lt j i
compares greater_equals i j = lt j i || eq j i
compares less_than i j = lt i j
compares less_equals i j = lt i j || eq i j
compares not_equal i j = not (eq i j)

mutual
  pub data Node : Type 0 where
    any_node all_node : Nodes → Node
    equal_node : (field_name : Text) → (accepted_values : Items) → Node
    not_node : Node → Node
    override_node : Bool → Node
    comparison_node : (field : Text) → (value : Value) → Comparer → Node

  pub data Nodes : Type 0 where
    no_nodes : Nodes
    node : Node → Nodes → Nodes

pub data Error : Type 0 where
  not_json targeting_node : Error
  unknown_operator : Text → Error

pub data Parsed (A : Type 0) : Type 0 where
  parsed : A → Parsed A
  refused : Error → Parsed A
  panic : Parsed A

abbrev pub map_parsed : {A B : Type 0} → (A → B) → Parsed A → Parsed B
map_parsed f (parsed a) = parsed (f a)
map_parsed f (refused e) = refused e
map_parsed f panic = panic

abbrev pub size : Fields → ℕ
size no_fields = 0
size (field k v fs) = suc (size fs)

abbrev pub get_field : Text → Fields → Option Value
get_field key no_fields = none
get_field key (field k v fs) =
    let later = get_field key fs in if bytes_eq k key then some v else later

-- The accepted values: `values` wins over `value`; an assertion of a wrong type panics.
abbrev pub accepted : Option Value → Option Value → Parsed Items
accepted value (some (array vs)) = parsed vs
accepted value (some _) = panic
accepted (some v) none = parsed (item v no_items)
accepted none none = refused targeting_node

abbrev pub equal_on : Value → Parsed Items → Parsed Node
equal_on (text name) (parsed vs) = parsed (equal_node (to_lower name) vs)
equal_on _ (parsed vs) = panic
equal_on _ (refused e) = refused e
equal_on _ panic = panic

unfoldable pub new_equal_node : Fields → Parsed Node
new_equal_node fs =
    if size fs == 2
    then elim (get_field (codes "field") fs) [
      | none ↦ refused targeting_node
      | some key ↦
          equal_on key (accepted (get_field (codes "value") fs) (get_field (codes "values") fs))
    ]
    else refused targeting_node

abbrev pub comparison_on : Value → Value → Comparer → Parsed Node
comparison_on (text name) value c = parsed (comparison_node name value c)
comparison_on _ value c = panic

unfoldable pub new_comparison_node : Comparer → Fields → Parsed Node
new_comparison_node c fs =
    if size fs == 2
    then elim (get_field (codes "field") fs) [
      | none ↦ refused targeting_node
      | some name ↦ elim (get_field (codes "value") fs) [
        | none ↦ refused targeting_node
        | some value ↦ comparison_on name value c
      ]
    ]
    else refused targeting_node

abbrev pub new_override_node : Value → Node
new_override_node (bool b) = override_node b
new_override_node _ = override_node false

-- value.(map[string]interface{})
abbrev pub as_fields : Value → (Fields → Parsed Node) → Parsed Node
as_fields (object fs) f = f fs
as_fields _ f = panic

-- The switch of mapOperatorNode. The children, and the child of a `not`, are read already.
unfoldable pub map_operator_node : Text → Value → Parsed Nodes → Parsed Node → Parsed Node
unfolding new_equal_node new_comparison_node
map_operator_node operator value children child =
    let op = to_lower operator in
    if bytes_eq op (codes "any")
    then map_parsed any_node children
    else if bytes_eq op (codes "all")
    then map_parsed all_node children
    else if bytes_eq op (codes "eq")
    then as_fields value new_equal_node
    else if bytes_eq op (codes "not")
    then map_parsed not_node child
    else if bytes_eq op (codes "override")
    then parsed (new_override_node value)
    else if bytes_eq op (codes "gt")
    then as_fields value (new_comparison_node greater_than)
    else if bytes_eq op (codes "ge")
    then as_fields value (new_comparison_node greater_equals)
    else if bytes_eq op (codes "lt")
    then as_fields value (new_comparison_node less_than)
    else if bytes_eq op (codes "le")
    then as_fields value (new_comparison_node less_equals)
    else if bytes_eq op (codes "ne")
    then as_fields value (new_comparison_node not_equal)
    else refused (unknown_operator op)

-- The loops of NewAnyNode and NewAllNode: the first error ends them.
abbrev pub cons_parsed : Parsed Node → Parsed Nodes → Parsed Nodes
cons_parsed (parsed n) (parsed ns) = parsed (node n ns)
cons_parsed (parsed n) (refused e) = refused e
cons_parsed (parsed n) panic = panic
cons_parsed (refused e) ns = refused e
cons_parsed panic ns = panic

unfoldable mutual
  unfolding map_operator_node

  pub parse_node : Value → Parsed Node
  parse_node (object fs) = parse_fields fs
  parse_node _ = refused targeting_node

  -- firstKey and mapOperatorNode.
  pub parse_fields : Fields → Parsed Node
  parse_fields no_fields = refused targeting_node
  parse_fields (field key value fs) =
      map_operator_node key value (parse_children value) (parse_child value)

  -- The children that NewAnyNode and NewAllNode read.
  pub parse_children : Value → Parsed Nodes
  parse_children (array vs) = parse_items vs
  parse_children _ = refused targeting_node

  -- The child that NewNotNode reads, after the assertion that it is an object.
  pub parse_child : Value → Parsed Node
  parse_child (object fs) =
      let child = parse_fields fs in if size fs == 1 then child else refused targeting_node
  parse_child _ = panic

  pub parse_items : Items → Parsed Nodes
  parse_items no_items = parsed no_nodes
  parse_items (item v vs) = cons_parsed (parse_node v) (parse_items vs)

-- NewTargeting, on the decoded text; `none` is a text that is no JSON. Only an object, or null, decodes
-- into a map.
unfoldable pub new_targeting : Option Value → Parsed Node
unfolding parse_fields
new_targeting none = refused not_json
new_targeting (some (object fs)) = if size fs == 1 then parse_fields fs else refused targeting_node
new_targeting (some null) = refused targeting_node
new_targeting (some _) = refused not_json

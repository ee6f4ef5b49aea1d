-- ===== src/Graph/Topology.antt =====
-- src/call-executor.ts: `collectReferences`, `resolveReferences` and `topologicalOrder`. The visits
-- go down on fuel; `none` stands for a visit that ends in an exception: of a dependency without a
-- node, or where the fuel runs out, which for the code is a stack that overflows.
use superset_agent_orchestra.Base.{
  ℕ, zero, suc, String, Option, none, some, List, [], ◌∷◌, ◌++◌, length, ◌==◌, if◌then◌else◌,
  string_eq,
}
use superset_agent_orchestra.Graph.Json.{
  Value, null, boolean, number, string, array, object, Items, nil, item, Fields, end, field,
  reference_of,
}
use superset_agent_orchestra.Graph.Schema.{CallNode}
use superset_agent_orchestra.Graph.Validate.{add}
use superset_agent_orchestra.Graph.Checker.{has_node}

abbrev or_reference : Value → List String → List String → List String
or_reference v references inside = elim (reference_of v) [
  | some id ↦ add id references
  | none ↦ inside
]

unfoldable mutual
  pub collect_references : Value → List String → List String
  collect_references (array xs) references = collect_items xs references
  collect_references (object fs) references =
      or_reference (object fs) references (collect_fields fs references)
  collect_references null references = references
  collect_references (boolean b) references = references
  collect_references (number n) references = references
  collect_references (string t) references = references

  pub collect_items : Items → List String → List String
  collect_items nil references = references
  collect_items (item v rest) references = collect_items rest (collect_references v references)

  pub collect_fields : Fields → List String → List String
  collect_fields end references = references
  collect_fields (field k v rest) references = collect_fields rest (collect_references v references)

-- `outputs.get`
unfoldable pub output_of : String → List (String × Value) → Option Value
output_of id [] = none
output_of id ((k, v) ∷ rest) = if k == id then some v else output_of id rest

abbrev with_item : Option Value → Option Items → Option Items
with_item (some v) (some xs) = some (item v xs)
with_item _ _ = none

abbrev with_field : String → Option Value → Option Fields → Option Fields
with_field k (some v) (some fs) = some (field k v fs)
with_field k _ _ = none

abbrev some_array : Option Items → Option Value
some_array none = none
some_array (some xs) = some (array xs)

abbrev some_object : Option Fields → Option Value
some_object none = none
some_object (some fs) = some (object fs)

abbrev or_output : Value → (Value → Value) → List (String × Value) → Option Value → Option Value
or_output v clone outputs inside = elim (reference_of v) [
  | some id ↦ elim (output_of id outputs) [ none ↦ none | some o ↦ some (clone o) ]
  | none ↦ inside
]

-- `none`: the output of a reference is missing, which `cloneJson` does not take.
unfoldable mutual
  pub resolve_references : (Value → Value) → Value → List (String × Value) → Option Value
  resolve_references clone (array xs) outputs = some_array (resolve_items clone xs outputs)
  resolve_references clone (object fs) outputs =
      or_output (object fs) clone outputs (some_object (resolve_fields clone fs outputs))
  resolve_references clone null outputs = some null
  resolve_references clone (boolean b) outputs = some (boolean b)
  resolve_references clone (number n) outputs = some (number n)
  resolve_references clone (string t) outputs = some (string t)

  pub resolve_items : (Value → Value) → Items → List (String × Value) → Option Items
  resolve_items clone nil outputs = some nil
  resolve_items clone (item v rest) outputs =
      with_item (resolve_references clone v outputs) (resolve_items clone rest outputs)

  pub resolve_fields : (Value → Value) → Fields → List (String × Value) → Option Fields
  resolve_fields clone end outputs = some end
  resolve_fields clone (field k v rest) outputs =
      with_field k (resolve_references clone v outputs) (resolve_fields clone rest outputs)

unfoldable pub add_all : List String → List String → List String
add_all [] ids = ids
add_all (d ∷ ds) ids = add_all ds (add d ids)

-- Declared dependencies first, then the references of the arguments.
unfoldable pub dependencies : CallNode → List String
dependencies n = collect_references n.arguments (add_all n.depends_on [])

-- `new Map(nodes.map((node) => [node.id, node]))`: the last node of an id counts.
unfoldable pub last_by_id : String → List CallNode → Option CallNode
last_by_id id [] = none
last_by_id id (n ∷ ns) = elim (last_by_id id ns) [
  | some m ↦ some m
  | none ↦ if n.id == id then some n else none
]

unfoldable pub visit_all :
    (CallNode → List CallNode → Option (List CallNode))
    → List CallNode
    → List String
    → List CallNode
    → Option (List CallNode)
visit_all visit nodes [] ordered = some ordered
visit_all visit nodes (d ∷ ds) ordered = elim (last_by_id d nodes) [
  | none ↦ none
  | some m ↦ elim (visit m ordered) [ none ↦ none | some more ↦ visit_all visit nodes ds more ]
]

-- A node is marked as visited when it is put in order.
unfoldable pub visit : ℕ → List CallNode → CallNode → List CallNode → Option (List CallNode)
visit zero nodes n ordered = none
visit (suc fuel) nodes n ordered =
    let down = visit_all (visit fuel nodes) nodes (dependencies n) ordered in
    if has_node ordered n.id
    then some ordered
    else elim down [ none ↦ none | some before ↦ some (before ++ n ∷ []) ]

unfoldable pub visit_each :
    ℕ → List CallNode → List CallNode → List CallNode → Option (List CallNode)
visit_each fuel nodes [] ordered = some ordered
visit_each fuel nodes (n ∷ ns) ordered = elim (visit fuel nodes n ordered) [
  | none ↦ none
  | some more ↦ visit_each fuel nodes ns more
]

unfoldable pub topological_order : List CallNode → Option (List CallNode)
topological_order nodes = visit_each (suc (length nodes)) nodes nodes []

-- ===== src/Graph/Snapshot.antt =====
-- src/call-executor.ts: `toolSnapshot`, the clone of the tools that `executeCallGraph` takes. The enum
-- values of the schemas are cloned, and the properties and the tools stand in the order of a clone.
use superset_agent_orchestra.Base.{
  String, Option, none, some, List, [], ◌∷◌, ◌≡◌, inl, inr, Bool-cases, ◌==◌, All, if◌then◌else◌,
  string_eq, subst,
}
use superset_agent_orchestra.Graph.Json.{Value}
use superset_agent_orchestra.Graph.Schema.{
  Schema, schema, Properties, property, Element, unchecked, each,
}
use superset_agent_orchestra.Graph.Canonical.{Before, IsAsymmetric, clone_json, clone_json-twice}
use superset_agent_orchestra.Graph.Policy.{
  ExecutableTool, ExecutableTools, executable_named, Runtime,
}
use superset_agent_orchestra.Graph.Cloned.{AreCloned, IsSnapshot, AreSnapshots, IsSnapshotOf}

unfoldable clone_values : Before → List Value → List Value
clone_values before [] = []
clone_values before (v ∷ vs) = clone_json before v ∷ clone_values before vs

unfoldable clone_options : Before → Option (List Value) → Option (List Value)
clone_options before none = none
clone_options before (some vs) = some (clone_values before vs)

unfoldable insert_property : Before → String → Schema → Properties → Properties
insert_property before k s Properties.end = property k s Properties.end
insert_property before k s (property j t rest) =
    let later = insert_property before k s rest in
    if before j k then property j t later else property k s (property j t rest)

unfoldable mutual
  unfolding clone_options insert_property

  clone_schema : Before → Schema → Schema
  clone_schema before (schema r ps e) =
      schema (record r { options = clone_options before r.options }) (clone_properties before ps)
        (clone_element before e)

  clone_properties : Before → Properties → Properties
  clone_properties before Properties.end = Properties.end
  clone_properties before (property k s rest) =
      insert_property before k (clone_schema before s) (clone_properties before rest)

  clone_element : Before → Element → Element
  clone_element before unchecked = unchecked
  clone_element before (each s) = each (clone_schema before s)

abbrev clone_tool : Before → ExecutableTool → ExecutableTool
clone_tool before t = record t {
  input = clone_schema before t.input;
  output = clone_schema before t.output;
}

unfoldable insert_tool : Before → String → ExecutableTool → ExecutableTools → ExecutableTools
insert_tool before n t [] = (n, t) ∷ []
insert_tool before n t ((m, u) ∷ rest) =
    let later = insert_tool before n t rest in
    if before m n then (m, u) ∷ later else (n, t) ∷ (m, u) ∷ rest

-- `toolSnapshot`
unfoldable pub tool_snapshot : Before → ExecutableTools → ExecutableTools
unfolding insert_tool clone_schema insert_property clone_options clone_values
tool_snapshot before [] = []
tool_snapshot before ((n, t) ∷ rest) =
    insert_tool before n (clone_tool before t) (tool_snapshot before rest)

-- The output schemas of the tools are as `cloneJson` leaves them.
abbrev pub AreSnapshotTools : Runtime → ExecutableTools → Type 0
AreSnapshotTools rt tools =
    (name : String) (tool : ExecutableTool)
    → executable_named name tools ≡ some tool
    → IsSnapshot rt.before tool.output

module _ (before : Before) (asymmetric : IsAsymmetric before) where
  values-AreCloned : (vs : List Value) → All (λ v. clone_json before v ≡ v) (clone_values before vs)
  unfolding clone_values
  values-AreCloned [] = tt
  values-AreCloned (v ∷ vs) = (clone_json-twice before asymmetric v, values-AreCloned vs)

  options-AreCloned : (o : Option (List Value)) → AreCloned before (clone_options before o)
  unfolding clone_options
  options-AreCloned none = tt
  options-AreCloned (some vs) = values-AreCloned vs

  insert-AreSnapshots :
      (k : String) (s : Schema) (ps : Properties)
      → IsSnapshot before s
      → AreSnapshots before ps
      → AreSnapshots before (insert_property before k s ps)
  unfolding insert_property IsSnapshot
  insert-AreSnapshots k s Properties.end c d = (c, tt)
  insert-AreSnapshots k s (property j t rest) c d = elim (Bool-cases (before j k)) [
    | inl y ↦ rw y (d.0, insert-AreSnapshots k s rest c d.1)
    | inr n ↦ rw n (c, d)
  ]

  mutual
    unfolding clone_schema IsSnapshot

    schema-IsSnapshot : (s : Schema) → IsSnapshot before (clone_schema before s)
    schema-IsSnapshot (schema r ps e) =
        (options-AreCloned r.options, properties-AreSnapshots ps, element-IsSnapshotOf e)

    properties-AreSnapshots : (ps : Properties) → AreSnapshots before (clone_properties before ps)
    properties-AreSnapshots Properties.end = tt
    properties-AreSnapshots (property k s rest) =
        insert-AreSnapshots k (clone_schema before s) (clone_properties before rest)
          (schema-IsSnapshot s) (properties-AreSnapshots rest)

    element-IsSnapshotOf : (e : Element) → IsSnapshotOf before (clone_element before e)
    element-IsSnapshotOf unchecked = tt
    element-IsSnapshotOf (each s) = schema-IsSnapshot s

  abbrev Outputs : ExecutableTools → Type 0
  Outputs = All (λ (e : String × ExecutableTool). IsSnapshot before e.1.output)

  insert-Outputs :
      (n : String) (t : ExecutableTool) (tools : ExecutableTools)
      → IsSnapshot before t.output
      → Outputs tools
      → Outputs (insert_tool before n t tools)
  unfolding insert_tool
  insert-Outputs n t [] c d = (c, tt)
  insert-Outputs n t ((m, u) ∷ rest) c d = elim (Bool-cases (before m n)) [
    | inl y ↦ rw y (d.0, insert-Outputs n t rest c d.1)
    | inr x ↦ rw x (c, d)
  ]

  snapshot-Outputs : (tools : ExecutableTools) → Outputs (tool_snapshot before tools)
  unfolding tool_snapshot
  snapshot-Outputs [] = tt
  snapshot-Outputs ((n, t) ∷ rest) =
      insert-Outputs n (clone_tool before t) (tool_snapshot before rest)
        (schema-IsSnapshot t.output) (snapshot-Outputs rest)

  found-IsSnapshot :
      (tools : ExecutableTools)
      → Outputs tools
      → (name : String) (tool : ExecutableTool) → executable_named name tools ≡ some tool
      → IsSnapshot before tool.output
  unfolding executable_named
  found-IsSnapshot [] c name tool e = let no : none ≡ some tool = e in absurd (cc)
  found-IsSnapshot ((n, t) ∷ rest) c name tool e = elim (Bool-cases (n == name)) [
    | inl y ↦
        let same : some t ≡ some tool = rw y at e in
        subst (λ x. IsSnapshot before x.output) (let u : t ≡ tool = cc in u) c.0
    | inr x ↦ found-IsSnapshot rest c.1 name tool (rw x at e)
  ]

pub snapshot-AreSnapshotTools :
    (rt : Runtime)
    → IsAsymmetric rt.before
    → (tools : ExecutableTools) → AreSnapshotTools rt (tool_snapshot rt.before tools)
snapshot-AreSnapshotTools rt asymmetric tools =
    found-IsSnapshot rt.before asymmetric (tool_snapshot rt.before tools)
      (snapshot-Outputs rt.before asymmetric tools)

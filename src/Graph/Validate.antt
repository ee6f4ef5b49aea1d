-- ===== src/Graph/Validate.antt =====
-- src/call-validator.ts: `validateValue`. A report is the set of dependencies that the node has so
-- far, in the order of insertion, and the diagnostics. `new URL` is a parameter of the scope.
use superset_agent_orchestra.Base.{
  ℕ, ◌+◌, String, ◌<>◌, show, Bool, true, false, Option, none, some, List, [], ◌∷◌, ◌++◌,
  if◌then◌else◌,
}
use superset_agent_orchestra.Graph.Json.{
  Value, null, boolean, number, string, array, object, Items, nil, item, Fields, end, field,
  contains, has_property, reference_of,
}
use superset_agent_orchestra.Graph.Schema.{
  Kind, Format, Schema, Element, unchecked, each, rules, properties, element, property_schema,
  Tools, ToolSchema, tool_named, CallNode, node_by_id, DiagnosticId, type_mismatch, required_field,
  enum_constraint, format_constraint, unknown_field, edge_type_mismatch, implicit_dependency,
  missing_dependency, Diagnostic, kind_name, format_name,
}
use superset_agent_orchestra.Graph.Formats.{matches_format}
use superset_agent_orchestra.Graph.Compatible.{matches_type, is_option, is_kind, compatible}

-- `byId`, `tools` and the node that is being checked.
pub record Scope : Type 0 where
  pub parses_url : String → Bool
  pub nodes : List CallNode
  pub tools : Tools
  pub node_id : String

pub record Report : Type 0 where
  pub dependencies : List String
  pub diagnostics : List Diagnostic

unfoldable pub note :
    Option String → DiagnosticId → String → String → List Diagnostic → List Diagnostic
note node_id id path message ds =
    ds ++ record { id = id; node_id = node_id; path = path; message = message } ∷ []

abbrev pub report : Option String → DiagnosticId → String → String → Report → Report
report node_id id path message st = record st {
  diagnostics = note node_id id path message st.diagnostics;
}

unfoldable pub add : String → List String → List String
add id ids = if contains ids id then ids else ids ++ id ∷ []

unfoldable pub depend_on : Scope → String → String → Report → Report
depend_on sc id path st =
    if contains st.dependencies id
    then st
    else let told =
        report (some sc.node_id) implicit_dependency path
          ("reference " <> id <> " should be declared in dependsOn") st in
      record told { dependencies = add id st.dependencies }

-- The output of the tool has a schema, and it fits.
abbrev pub output_fits : Option ToolSchema → Schema → Bool
output_fits none s = false
output_fits (some t) s = elim t.output [ none ↦ false | some o ↦ compatible o s ]

unfoldable pub validate_reference : Scope → String → Schema → String → Report → Report
validate_reference sc id s path st = elim (node_by_id id sc.nodes) [
  | none ↦
      report (some sc.node_id) missing_dependency path ("reference " <> id <> " does not exist") st
  | some source ↦
      let known = depend_on sc id path st in
      if output_fits (tool_named source.tool sc.tools) s
      then known
      else report (some sc.node_id) edge_type_mismatch path
          ("output of " <> id <> " is incompatible") known
]

abbrev pub in_options : Option (List Value) → Value → Bool
in_options none v = true
in_options (some candidates) v = is_option candidates v

abbrev pub has_format : (String → Bool) → Option Format → Value → Bool
has_format parses_url (some format) (string text) = matches_format parses_url text format
has_format parses_url _ _ = true

abbrev format_text : Option Format → String
format_text none = ""
format_text (some format) = format_name format

unfoldable pub validate_plain : Scope → Value → Schema → String → Report → Report
validate_plain sc v s path st =
    let listed =
      if in_options (rules s).options v
      then st
      else report (some sc.node_id) enum_constraint path "value is not in enum" st in
    if has_format sc.parses_url (rules s).format v
    then listed
    else report (some sc.node_id) format_constraint path
        ("value is not a valid " <> format_text (rules s).format) listed

-- A reference is checked as one. Any other value must have the type, and then `inside` goes on.
unfoldable pub enter : Scope → Value → Schema → String → (Report → Report) → Report → Report
enter sc v s path inside st = elim (reference_of v) [
  | some id ↦ validate_reference sc id s path st
  | none ↦
      if matches_type v (rules s).kind
      then inside (validate_plain sc v s path st)
      else report (some sc.node_id) type_mismatch path ("expected " <> kind_name (rules s).kind) st
]

unfoldable pub validate_required : Scope → List String → Fields → String → Report → Report
validate_required sc [] fields path st = st
validate_required sc (key ∷ keys) fields path st = validate_required sc keys fields path (
    if has_property key fields
    then st
    else report (some sc.node_id) required_field (path <> "." <> key) "required field is missing"
        st)

abbrev pub for_element : (Schema → Report → Report) → Element → Report → Report
for_element check unchecked st = st
for_element check (each s) st = check s st

abbrev pub for_property :
    (Schema → Report → Report) → (Report → Report) → Option Schema → Report → Report
for_property check unknown none st = unknown st
for_property check unknown (some s) st = check s st

-- A field without a schema.
unfoldable pub validate_unknown : Scope → Schema → String → Report → Report
validate_unknown sc s path st =
    if (rules s).closed
    then report (some sc.node_id) unknown_field path "field is not allowed" st
    else st

unfoldable mutual
  pub validate_value : Scope → Value → Schema → String → Report → Report
  validate_value sc (array xs) s path st =
      enter sc (array xs) s path
        (λ checked.
          let inside = validate_items sc xs (element s) path 0 checked in
          if is_kind Kind.array (rules s).kind then inside else checked)
        st
  validate_value sc (object fs) s path st =
      enter sc (object fs) s path
        (λ checked.
          let inside =
            validate_fields sc fs s path
              (validate_required sc (rules s).required fs path checked) in
          if is_kind Kind.object (rules s).kind then inside else checked)
        st
  validate_value sc null s path st = enter sc null s path (λ checked. checked) st
  validate_value sc (boolean b) s path st = enter sc (boolean b) s path (λ checked. checked) st
  validate_value sc (number n) s path st = enter sc (number n) s path (λ checked. checked) st
  validate_value sc (string t) s path st = enter sc (string t) s path (λ checked. checked) st

  pub validate_items : Scope → Items → Element → String → ℕ → Report → Report
  validate_items sc nil e path i st = st
  validate_items sc (item v rest) e path i st =
      validate_items sc rest e path (i + 1) (
        for_element (λ s checked. validate_value sc v s (path <> "[" <> show i <> "]") checked) e
          st)

  pub validate_fields : Scope → Fields → Schema → String → Report → Report
  validate_fields sc end s path st = st
  validate_fields sc (field k v rest) s path st = validate_fields sc rest s path (
      for_property (λ child checked. validate_value sc v child (path <> "." <> k) checked)
        (validate_unknown sc s (path <> "." <> k)) (property_schema k (properties s)) st)

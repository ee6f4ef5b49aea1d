-- ===== src/Graph/Checker.antt =====
-- src/call-validator.ts: `validateCallGraph`. How `localeCompare` orders two diagnostics, by the
-- texts of their node, path, id and message, is a parameter, as is `new URL`.
use superset_agent_orchestra.Base.{
  sort, ℕ, ◌+◌, String, ◌<>◌, show, Bool, not, Option, none, some, List, [], ◌∷◌, ◌++◌, any, ◌==◌,
  if◌then◌else◌, string_eq,
}
use superset_agent_orchestra.Graph.Json.{Value, string, array, object, Items, nil, item, get}
use superset_agent_orchestra.Graph.Schema.{
  Tools, tool_named, CallNode, graph_shape, duplicate_node, unknown_tool, missing_dependency, cycle,
  Diagnostic, has_error,
}
use superset_agent_orchestra.Graph.Validate.{Scope, Report, note, report, add, validate_value}
use superset_agent_orchestra.Graph.Cycles.{Adjacency, edges, detect_cycles}

pub record Platform : Type 0 where
  pub parses_url : String → Bool
  pub sorts_before : Diagnostic → Diagnostic → Bool

pub record ValidationResult : Type 0 where
  pub valid : Bool
  pub diagnostics : List Diagnostic

-- The array `graph.nodes`.
unfoldable pub node_items : Value → Option Items
unfolding get
node_items (object fs) = elim (get "nodes" fs) [ some (array xs) ↦ some xs | _ ↦ none ]
node_items _ = none

unfoldable pub texts : Items → Option (List String)
texts nil = some []
texts (item (string t) rest) = elim (texts rest) [ none ↦ none | some ts ↦ some (t ∷ ts) ]
texts (item _ rest) = none

abbrev text_of : Option Value → Option String
text_of (some (string t)) = some t
text_of _ = none

-- `dependsOn` may be missing; else it is an array of texts.
abbrev depends_of : Option Value → Option (List String)
unfolding texts
depends_of none = some []
depends_of (some (array xs)) = texts xs
depends_of (some _) = none

abbrev make_node :
    Option String → Option String → Option Value → Option (List String) → Option CallNode
make_node (some id) (some tool) (some arguments) (some depends_on) =
    if id == ""
    then none
    else some (record { id = id; tool = tool; arguments = arguments; depends_on = depends_on })
make_node _ _ _ _ = none

-- An entry of the array, if its shape is that of a node.
unfoldable pub parse_node : Value → Option CallNode
unfolding get texts
parse_node (object fs) =
    make_node (text_of (get "id" fs)) (text_of (get "tool" fs)) (get "arguments" fs)
      (depends_of (get "dependsOn" fs))
parse_node _ = none

pub record Intake : Type 0 where
  pub nodes : List CallNode
  pub found : List Diagnostic

-- `byId.has`
unfoldable pub has_node : List CallNode → String → Bool
unfolding any
has_node nodes id = any (λ (n : CallNode). n.id == id) nodes

unfoldable pub take_in : ℕ → Option CallNode → Intake → Intake
take_in index none st = record st {
  found = note none graph_shape ("$.nodes[" <> show index <> "]") "node shape is invalid" st.found;
}
take_in index (some n) st = record {
  nodes = st.nodes ++ n ∷ [];
  found =
      if has_node st.nodes n.id
      then note (some n.id) duplicate_node ("$.nodes[" <> show index <> "].id")
          "node id is duplicated" st.found
      else st.found;
}

unfoldable pub collect : ℕ → Items → Intake → Intake
collect index nil st = st
collect index (item v rest) st = collect (index + 1) rest (take_in index (parse_node v) st)

-- `adjacency.set`
unfoldable pub set_edges : String → List String → Adjacency → Adjacency
set_edges id ids [] = (id, ids) ∷ []
set_edges id ids ((k, old) ∷ rest) =
    if k == id then (id, ids) ∷ rest else (k, old) ∷ set_edges id ids rest

unfoldable pub no_edges : List CallNode → Adjacency → Adjacency
no_edges [] adj = adj
no_edges (n ∷ ns) adj = no_edges ns (set_edges n.id [] adj)

unfoldable pub declare_dependencies : List CallNode → CallNode → List String → Report → Report
declare_dependencies nodes n [] st = st
declare_dependencies nodes n (d ∷ ds) st = declare_dependencies nodes n ds (
    if has_node nodes d
    then record st { dependencies = add d st.dependencies }
    else report (some n.id) missing_dependency ("$.nodes." <> n.id <> ".dependsOn")
        ("dependency " <> d <> " does not exist") st)

abbrev pub scope_of : Platform → Tools → List CallNode → CallNode → Scope
scope_of platform tools nodes n = record {
  parses_url = platform.parses_url;
  nodes = nodes;
  tools = tools;
  node_id = n.id;
}

-- The body of the loop over the nodes, from the dependencies of the node so far.
unfoldable pub check_node : Platform → Tools → List CallNode → CallNode → Report → Report
check_node platform tools nodes n st =
    let declared = declare_dependencies nodes n n.depends_on st in
    elim (tool_named n.tool tools) [
      | none ↦
          report (some n.id) unknown_tool ("$.nodes." <> n.id <> ".tool")
            ("unknown tool " <> n.tool) declared
      | some tool ↦
          validate_value (scope_of platform tools nodes n) n.arguments tool.input
            ("$.nodes." <> n.id <> ".arguments") declared
    ]

pub record Checking : Type 0 where
  pub adjacency : Adjacency
  pub found : List Diagnostic

unfoldable pub check_next : Platform → Tools → List CallNode → CallNode → Checking → Checking
check_next platform tools nodes n st =
    let r =
      check_node platform tools nodes n
        (record { dependencies = edges st.adjacency n.id; diagnostics = st.found }) in
    record { adjacency = set_edges n.id r.dependencies st.adjacency; found = r.diagnostics }

unfoldable pub check_nodes : Platform → Tools → List CallNode → List CallNode → Checking → Checking
check_nodes platform tools nodes [] st = st
check_nodes platform tools nodes (n ∷ ns) st =
    check_nodes platform tools nodes ns (check_next platform tools nodes n st)

unfoldable pub report_cycles : List String → List Diagnostic → List Diagnostic
report_cycles [] ds = ds
report_cycles (id ∷ ids) ds =
    report_cycles ids
      (note (some id) cycle ("$.nodes." <> id) "dependency graph contains a cycle" ds)

unfoldable pub finish : List Diagnostic → ValidationResult
finish ds = record { valid = not (has_error ds); diagnostics = ds }

unfoldable pub check_graph : Platform → Tools → Items → Option ValidationResult
check_graph platform tools items =
    let intake = collect 0 items (record { nodes = []; found = [] }) in
    let checked =
      check_nodes platform tools intake.nodes intake.nodes
        (record { adjacency = no_edges intake.nodes []; found = intake.found }) in
    elim (detect_cycles checked.adjacency) [
      | none ↦ none
      | some ids ↦ some (finish (sort platform.sorts_before (report_cycles ids checked.found)))
    ]

-- `none` would mean that the fuel of the cycle detection ran out.
unfoldable pub validate_call_graph : Platform → Value → Tools → Option ValidationResult
validate_call_graph platform graph tools = elim (node_items graph) [
  | none ↦ some (finish (note none graph_shape "$" "graph must contain a nodes array" []))
  | some items ↦ check_graph platform tools items
]

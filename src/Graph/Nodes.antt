-- ===== src/Graph/Nodes.antt =====
-- src/call-validator.ts: what the validation asks of the nodes, apart from its loops.
use superset_agent_orchestra.Base.{
  String, Bool, true, false, ◌&&◌, ◌||◌, not, Option, none, some, List, [], ◌∷◌, ◌++◌, all,
  string_eq,
}
use superset_agent_orchestra.Graph.Json.{Items, nil, item, contains}
use superset_agent_orchestra.Graph.Schema.{Tools, tool_named, CallNode}
use superset_agent_orchestra.Graph.Conformance.{conforms}
use superset_agent_orchestra.Graph.References.{refers}
use superset_agent_orchestra.Graph.Checker.{Platform, parse_node, has_node, scope_of}

abbrev cons_node : Option CallNode → Option (List CallNode) → Option (List CallNode)
cons_node (some n) (some ns) = some (n ∷ ns)
cons_node _ _ = none

-- All entries, if each has the shape of a node.
unfoldable pub parse_all : Items → Option (List CallNode)
parse_all nil = some []
parse_all (item v rest) = cons_node (parse_node v) (parse_all rest)

-- No id stands twice among the nodes, nor among those before.
unfoldable pub distinct_after : List CallNode → List CallNode → Bool
distinct_after seen [] = true
distinct_after seen (n ∷ ns) = not (has_node seen n.id) && distinct_after (seen ++ n ∷ []) ns

-- The declared dependencies exist, the tool exists, and the arguments conform to its schema.
unfoldable pub node_fits : Platform → Tools → List CallNode → CallNode → Bool
node_fits platform tools nodes n =
    all (has_node nodes) n.depends_on && elim (tool_named n.tool tools) [
      | none ↦ false
      | some tool ↦ conforms (scope_of platform tools nodes n) n.arguments tool.input
    ]

-- The node declares the dependency, or its arguments refer to it.
unfoldable pub needs : Platform → Tools → List CallNode → CallNode → String → Bool
needs platform tools nodes n id =
    (has_node nodes id && contains n.depends_on id) || elim (tool_named n.tool tools) [
      | none ↦ false
      | some tool ↦ refers (scope_of platform tools nodes n) n.arguments tool.input id
    ]

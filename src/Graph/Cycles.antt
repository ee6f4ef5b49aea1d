-- ===== src/Graph/Cycles.antt =====
-- src/call-validator.ts: `detectCycles`. The walk goes down on fuel, `none` where it runs out, and
-- the fuel that `detect_cycles` gives is enough. The set of active nodes is the path of the walk:
-- a node is taken off it when its walk returns.
use superset_agent_orchestra.Base.{
  ℕ, zero, suc, String, Bool, true, false, Option, none, some, List, [], ◌∷◌, length, ◌==◌,
  if◌then◌else◌, string_eq,
}
use superset_agent_orchestra.Graph.Json.{contains}

abbrev pub Adjacency : Type 0
Adjacency = List (String × List String)

unfoldable pub edges : Adjacency → String → List String
edges [] id = []
edges ((k, ids) ∷ rest) id = if k == id then ids else edges rest id

abbrev pub keys : Adjacency → List String
keys [] = []
keys ((k, _) ∷ rest) = k ∷ keys rest

-- The next walk is taken unless this one met a cycle.
abbrev pub proceed :
    Option (Bool × List String)
    → (List String → Option (Bool × List String))
    → Option (Bool × List String)
proceed none next = none
proceed (some (true, seen)) next = some (true, seen)
proceed (some (false, seen)) next = next seen

-- `some`: the walks stop at the first one that meets a cycle.
unfoldable pub walk_any :
    (String → List String → Option (Bool × List String))
    → List String
    → List String
    → Option (Bool × List String)
walk_any walk [] visited = some (false, visited)
walk_any walk (d ∷ ds) visited = proceed (walk d visited) (λ seen. walk_any walk ds seen)

-- Whether a cycle is met, and the visited nodes.
unfoldable pub walk :
    ℕ → Adjacency → List String → String → List String → Option (Bool × List String)
walk zero adj active node visited = none
walk (suc fuel) adj active node visited =
    let down = walk_any (walk fuel adj (node ∷ active)) (edges adj node) (node ∷ visited) in
    if contains active node
    then some (true, visited)
    else if contains visited node
    then some (false, visited)
    else down

unfoldable pub walk_all : ℕ → Adjacency → List String → List String → Option (List String)
walk_all fuel adj [] visited = some []
walk_all fuel adj (k ∷ ks) visited = elim (walk fuel adj [] k visited) [
  | none ↦ none
  | some (cyclic, seen) ↦ elim (walk_all fuel adj ks seen) [
    | none ↦ none
    | some reported ↦ some (if cyclic then k ∷ reported else reported)
  ]
]

-- The nodes that are reported.
unfoldable pub detect_cycles : Adjacency → Option (List String)
detect_cycles adj = walk_all (suc (length (keys adj))) adj (keys adj) []

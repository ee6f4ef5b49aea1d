-- ===== src/Graph/Walks.antt =====
-- src/call-validator.ts: walks of a graph of dependencies, and the nodes that none leaves for ever.
use superset_agent_orchestra.Base.{String, Bool, true, ◌≡◌, string_eq}
use superset_agent_orchestra.Graph.Json.{contains}
use superset_agent_orchestra.Graph.Cycles.{Adjacency, edges}

-- A walk of one edge or more.
pub data Leads (linked : String → String → Bool) (u : String) : String → Type 0 where
  edge : {v : String} → linked u v ≡ true → Leads linked u v
  further : {v w : String} → Leads linked u v → linked v w ≡ true → Leads linked u w

pub Leads-prepend :
    {linked : String → String → Bool} {u v w : String}
    → linked u v ≡ true
    → Leads linked v w
    → Leads linked u w
Leads-prepend e (edge f) = further (edge e) f
Leads-prepend e (further l f) = further (Leads-prepend e l) f

abbrev pub links : Adjacency → String → String → Bool
links adj u v = contains (edges adj u) v

abbrev pub HasCycle : Adjacency → Type 0
HasCycle adj = (u : String) × Leads (links adj) u u

-- No walk goes on for ever from here.
pub data Grounded (adj : Adjacency) : String → Type 0 where
  grounded :
      {u : String}
      → ((v : String) → contains (edges adj u) v ≡ true → Grounded adj v)
      → Grounded adj u

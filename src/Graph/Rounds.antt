-- ===== src/Graph/Rounds.antt =====
-- src/call-validator.ts: what the two loops of `validateCallGraph` over the nodes report, and the
-- dependencies that they find.
use superset_agent_orchestra.Base.{
  insert, sort, String, Bool, true, false, ◌&&◌, ◌||◌, not, List, [], ◌∷◌, ◌≡◌, refl, subst, ap,
  ◌∙◌, inl, inr, any, all, arith, eq_iff, Bool-cases, Option-cases, ◌==◌, if◌then◌else◌, string_eq,
}
use superset_agent_orchestra.Graph.Json.{contains}
use superset_agent_orchestra.Graph.Schema.{
  Tools, tool_named, CallNode, Diagnostic, has_error, is_error,
}
use superset_agent_orchestra.Graph.Validate.{Report}
use superset_agent_orchestra.Graph.Sets.{contains-add}
use superset_agent_orchestra.Graph.Conformance.{failed, failed-value, has_error-note}
use superset_agent_orchestra.Graph.References.{has, has-value}
use superset_agent_orchestra.Graph.Cycles.{Adjacency, edges}
use superset_agent_orchestra.Graph.Walks.{links}
use superset_agent_orchestra.Graph.Checker.{
  Platform, has_node, set_edges, no_edges, declare_dependencies, check_node, Checking, check_next,
  check_nodes, report_cycles,
}
use superset_agent_orchestra.Graph.Nodes.{needs, node_fits}

declare-failed :
    (nodes : List CallNode) (n : CallNode) (ds : List String) (st : Report)
    → failed (declare_dependencies nodes n ds st) ≡ failed st || not (all (has_node nodes) ds)
unfolding declare_dependencies all
declare-failed nodes n [] st = ground arith
declare-failed nodes n (d ∷ ds) st =
    declare-failed nodes n ds _ ∙ elim (Bool-cases (has_node nodes d)) [
      | inl y ↦ rw y refl
      | inr y ↦ rw (y, has_error-note) (ground arith)
    ]

same_text : {a b : String} (P : String → Bool) {c : Bool} → P a ≡ c → (a == b) ≡ true → P b ≡ c
same_text {a} {b} P {c} h e = subst (λ x. P x ≡ c) ((eq_iff a b).0 e) h

declared-bool :
    (a e h c : Bool) → (e ≡ true → h ≡ true) → (a || e) || (h && c) ≡ a || (h && (e || c))
declared-bool a e h c k = ground arith

missing-bool : (a e h c : Bool) → (e ≡ true → h ≡ false) → a || (h && c) ≡ a || (h && (e || c))
missing-bool a e h c k = ground arith

declare-has :
    (nodes : List CallNode) (n : CallNode) (ds : List String) (st : Report) (id : String)
    → has (declare_dependencies nodes n ds st) id
      ≡ has st id || (has_node nodes id && contains ds id)
unfolding declare_dependencies any
declare-has nodes n [] st id = ground arith
declare-has nodes n (d ∷ ds) st id =
    declare-has nodes n ds _ id ∙ elim (Bool-cases (has_node nodes d)) [
      | inl y ↦ rw y (
          ap (λ b. b || (has_node nodes id && contains ds id)) (contains-add d st.dependencies id)
          ∙ declared-bool (has st id) (d == id) (has_node nodes id) (contains ds id)
              (same_text (has_node nodes) y))
      | inr y ↦ rw y (
          missing-bool (has st id) (d == id) (has_node nodes id) (contains ds id)
            (same_text (has_node nodes) y))
    ]

-- One node: the errors that its round adds, and its dependencies after it.
check_node-failed :
    (platform : Platform) (tools : Tools) (nodes : List CallNode) (n : CallNode) (st : Report)
    → failed (check_node platform tools nodes n st)
      ≡ failed st || not (node_fits platform tools nodes n)
unfolding check_node node_fits
check_node-failed platform tools nodes n st =
    let declared = declare-failed nodes n n.depends_on st in
    elim (Option-cases (tool_named n.tool tools)) [
      | inl e ↦ rw (e, check_node, node_fits, has_error-note, declared) (ground arith)
      | inr (tool, e) ↦ rw (e, check_node, node_fits, failed-value, declared) (ground arith)
    ]

check_node-has :
    (platform : Platform) (tools : Tools) (nodes : List CallNode) (n : CallNode) (st : Report)
    (id : String)
    → has (check_node platform tools nodes n st) id ≡ has st id || needs platform tools nodes n id
unfolding check_node needs
check_node-has platform tools nodes n st id =
    let declared = declare-has nodes n n.depends_on st id in
    elim (Option-cases (tool_named n.tool tools)) [
      | inl e ↦ rw (e, check_node, needs, declared) (ground arith)
      | inr (tool, e) ↦
          rw (e, check_node, needs)
            (has-value _ n.arguments tool.input _ _ id ∙ rw declared (ground arith))
    ]

edges-set_edges :
    (id : String) (ids : List String) (adj : Adjacency) (u : String)
    → edges (set_edges id ids adj) u ≡ (if id == u then ids else edges adj u)
unfolding edges set_edges
edges-set_edges id ids [] u = refl
edges-set_edges id ids ((k, old) ∷ rest) u =
    ground (arith, eq_iff k id, eq_iff id u, eq_iff k u, edges-set_edges id ids rest u)

-- All rounds together.
pub check_nodes-failed :
    (platform : Platform) (tools : Tools) (nodes ns : List CallNode) (st : Checking)
    → has_error (check_nodes platform tools nodes ns st).found
      ≡ has_error st.found || not (all (node_fits platform tools nodes) ns)
unfolding check_nodes check_next all
check_nodes-failed platform tools nodes [] st = ground arith
check_nodes-failed platform tools nodes (n ∷ ns) st =
    check_nodes-failed platform tools nodes ns (check_next platform tools nodes n st)
    ∙ ap (λ b. b || not (all (node_fits platform tools nodes) ns))
        (check_node-failed platform tools nodes n _)
    ∙ or-or-not' (has_error st.found) (node_fits platform tools nodes n) _
  where
    or-or-not' : (a b c : Bool) → (a || not b) || not c ≡ a || not (b && c)
    or-or-not' a b c = ground arith

links-check_next :
    (platform : Platform) (tools : Tools) (nodes : List CallNode) (n : CallNode) (st : Checking)
    (u v : String)
    → links (check_next platform tools nodes n st).adjacency u v
      ≡ links st.adjacency u v || (n.id == u && needs platform tools nodes n v)
unfolding check_next
links-check_next platform tools nodes n st u v = elim (Bool-cases (n.id == u)) [
  | inl y ↦
      let same : n.id ≡ u = (eq_iff n.id u).0 y in
      rw (edges-set_edges, y)
        (check_node-has platform tools nodes n _ v
          ∙ ap (λ x. contains (edges st.adjacency x) v || needs platform tools nodes n v) same)
  | inr y ↦ rw (edges-set_edges, y) (ground arith)
]

pub links-check_nodes :
    (platform : Platform) (tools : Tools) (nodes ns : List CallNode) (st : Checking) (u v : String)
    → links (check_nodes platform tools nodes ns st).adjacency u v
      ≡ links st.adjacency u v
        || any (λ (n : CallNode). n.id == u && needs platform tools nodes n v) ns
unfolding check_nodes any
links-check_nodes platform tools nodes [] st u v = ground arith
links-check_nodes platform tools nodes (n ∷ ns) st u v =
    links-check_nodes platform tools nodes ns (check_next platform tools nodes n st) u v
    ∙ ap (λ b. b || any (λ (n : CallNode). n.id == u && needs platform tools nodes n v) ns)
        (links-check_next platform tools nodes n st u v)
    ∙ or_assoc (links st.adjacency u v) _ _
  where
    or_assoc : (a b c : Bool) → (a || b) || c ≡ a || (b || c)
    or_assoc a b c = ground arith

links-no_edges :
    (ns : List CallNode) (adj : Adjacency) (u v : String)
    → links adj u v ≡ false
    → links (no_edges ns adj) u v ≡ false
unfolding no_edges any
links-no_edges [] adj u v h = h
links-no_edges (n ∷ ns) adj u v h =
    links-no_edges ns (set_edges n.id [] adj) u v (elim (Bool-cases (n.id == u)) [
      | inl y ↦ rw (edges-set_edges, y) refl
      | inr y ↦ rw (edges-set_edges, y) h
    ])

pub no_edges-empty : (ns : List CallNode) (u v : String) → links (no_edges ns []) u v ≡ false
unfolding edges any
no_edges-empty ns u v = links-no_edges ns [] u v refl

abbrev pub is_nil : List String → Bool
is_nil [] = true
is_nil (_ ∷ _) = false

pub report_cycles-error :
    (ids : List String) (ds : List Diagnostic)
    → has_error (report_cycles ids ds) ≡ has_error ds || not (is_nil ids)
unfolding report_cycles
report_cycles-error [] ds = ground arith
report_cycles-error (id ∷ ids) ds = report_cycles-error ids _ ∙ rw has_error-note (ground arith)

or_swap : (a b c : Bool) → a || (b || c) ≡ b || (a || c)
or_swap a b c = ground arith

insert-error :
    (before : Diagnostic → Diagnostic → Bool) (d : Diagnostic) (ds : List Diagnostic)
    → has_error (insert before d ds) ≡ has_error (d ∷ ds)
unfolding insert has_error any
insert-error before d [] = refl
insert-error before d (e ∷ ds) = elim (Bool-cases (before e d)) [
  | inl y ↦ rw y (
      ap (λ b. is_error e.id || b) (insert-error before d ds)
      ∙ or_swap (is_error e.id) (is_error d.id) (has_error ds))
  | inr y ↦ rw y refl
]

pub sort-error :
    (before : Diagnostic → Diagnostic → Bool) (ds : List Diagnostic)
    → has_error (sort before ds) ≡ has_error ds
unfolding sort has_error any
sort-error before [] = refl
sort-error before (d ∷ ds) =
    insert-error before d (sort before ds) ∙ ap (λ b. is_error d.id || b) (sort-error before ds)

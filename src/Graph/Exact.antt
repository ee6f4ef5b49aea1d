-- ===== src/Graph/Exact.antt =====
-- src/call-validator.ts: which graphs `validateCallGraph` accepts.
use superset_agent_orchestra.Base.{
  sort, String, Bool, true, false, ◌&&◌, ◌||◌, not, none, some, List, [], ◌∷◌, ◌≡◌, ◌↔◌, refl, sym,
  subst, ap, ◌∙◌, inl, inr, any, all, Option-cases, ◌==◌, string_eq,
}
use superset_agent_orchestra.Graph.Json.{Value, Items}
use superset_agent_orchestra.Graph.Schema.{Tools, CallNode, has_error, graph_shape}
use superset_agent_orchestra.Graph.Validate.{note}
use superset_agent_orchestra.Graph.Cycles.{detect_cycles}
use superset_agent_orchestra.Graph.Walks.{Leads, edge, further, links}
use superset_agent_orchestra.Graph.Terminates.{detect_cycles-exact}
use superset_agent_orchestra.Graph.Checker.{
  Platform, ValidationResult, node_items, Intake, collect, no_edges, Checking, check_nodes,
  report_cycles, finish, check_graph, validate_call_graph,
}
use superset_agent_orchestra.Graph.Rounds.{
  is_nil, check_nodes-failed, links-check_nodes, no_edges-empty, report_cycles-error, sort-error,
}
use superset_agent_orchestra.Graph.Intake.{collect-Parsed, collect-unparsed}
use superset_agent_orchestra.Graph.Nodes.{parse_all, distinct_after, node_fits, needs}

-- A node depends on another: it declares it, or refers to it in its arguments.
abbrev pub depends : Platform → Tools → List CallNode → String → String → Bool
depends platform tools nodes u v =
    any (λ (n : CallNode). n.id == u && needs platform tools nodes n v) nodes

-- Distinct nodes, each with known dependencies, a known tool and arguments that conform to its
-- schema, and no node that depends on itself, directly or through others.
pub record IsCallGraph (platform : Platform) (tools : Tools) (items : Items) : Type 0 where
  pub nodes : List CallNode
  pub shaped : parse_all items ≡ some nodes
  pub distinct : distinct_after [] nodes ≡ true
  pub fits : all (node_fits platform tools nodes) nodes ≡ true
  pub acyclic : (u : String) → ¬ Leads (depends platform tools nodes) u u

module _ (platform : Platform) (tools : Tools) where
  intake : Items → Intake
  intake items = collect 0 items (record { nodes = []; found = [] })

  checked : Intake → Checking
  checked i =
      check_nodes platform tools i.nodes i.nodes
        (record { adjacency = no_edges i.nodes []; found = i.found })

  -- What the result says, from the reports of the three phases.
  check_graph-valid :
      (items : Items)
      → (r : ValidationResult) × (ids : List String) × (check_graph platform tools items ≡ some r)
        × (detect_cycles (checked (intake items)).adjacency ≡ some ids)
        × (r.valid
            ≡ not (
                (has_error (intake items).found
                  || not (all (node_fits platform tools (intake items).nodes) (intake items).nodes))
                || not (is_nil ids)))
        × ((ids ≡ []) ↔ ((u : String) → ¬ Leads (links (checked (intake items)).adjacency) u u))
  unfolding check_graph intake checked finish
  check_graph-valid items =
      let (ids, e, exact) = detect_cycles-exact (checked (intake items)).adjacency in
      (
        finish (sort platform.sorts_before (report_cycles ids (checked (intake items)).found)),
        ids,
        rw (e, check_graph),
        e,
        ap not (
            sort-error platform.sorts_before _
            ∙ report_cycles-error ids _
            ∙ ap (λ b. b || not (is_nil ids))
                (check_nodes-failed platform tools (intake items).nodes (intake items).nodes _)),
        exact,
      )

pub Leads-map :
    (E F : String → String → Bool)
    → ((u v : String) → E u v ≡ F u v)
    → {u v : String} → Leads E u v
    → Leads F u v
Leads-map E F h (edge {v} e) = edge (sym (h _ v) ∙ e)
Leads-map E F h (further {v} {w} l e) = further (Leads-map E F h l) (sym (h v w) ∙ e)

all_hold :
    (a b c : Bool) → not ((not a || not b) || not c) ≡ true → (a ≡ true) × (b ≡ true) × (c ≡ true)
all_hold true true true h = (refl, refl, refl)
all_hold true true false h = absurd (cc h)
all_hold true false c h = absurd (cc h)
all_hold false b c h = absurd (cc h)

hold_all : (a b c : Bool) → a ≡ true → b ≡ true → c ≡ true → not ((not a || not b) || not c) ≡ true
hold_all a b c ha hb hc = rw (ha, hb, hc)

nil_of_is_nil : (ids : List String) → is_nil ids ≡ true → ids ≡ []
nil_of_is_nil [] h = refl
nil_of_is_nil (x ∷ xs) h = absurd (cc)

some_injective : {a b : List CallNode} → some a ≡ some b → a ≡ b
some_injective e = cc

module _ (platform : Platform) (tools : Tools) where
  intake-unparsed :
      (items : Items)
      → parse_all items ≡ none
      → has_error (intake platform tools items).found ≡ true
  unfolding intake
  intake-unparsed items h = collect-unparsed 0 items _ h

  links-depends :
      (i : Intake) (u v : String)
      → links (checked platform tools i).adjacency u v ≡ depends platform tools i.nodes u v
  unfolding checked any
  links-depends i u v =
      links-check_nodes platform tools i.nodes i.nodes _ u v ∙ rw no_edges-empty refl

  module _ (items : Items) (ns : List CallNode) (shaped : parse_all items ≡ some ns) where
    taken_in :
        ((intake platform tools items).nodes ≡ ns)
        × (has_error (intake platform tools items).found ≡ not (distinct_after [] ns))
    unfolding intake has_error
    taken_in = collect-Parsed 0 items (record { nodes = []; found = [] }) ns shaped

    -- The same walks in the graph of dependencies as the checks found it.
    same_walks :
        (u v : String)
        → links (checked platform tools (intake platform tools items)).adjacency u v
          ≡ depends platform tools ns u v
    same_walks u v =
        links-depends (intake platform tools items) u v
        ∙ ap (λ (m : List CallNode). depends platform tools m u v) taken_in.0

    valid-parsed :
        (r : ValidationResult) × (check_graph platform tools items ≡ some r)
        × ((r.valid ≡ true) ↔ IsCallGraph platform tools items)
    valid-parsed =
        let (r, ids, e, d, valid, exact) = check_graph-valid platform tools items in
        let fits = λ (m : List CallNode). all (node_fits platform tools m) m in
        let says : r.valid
            ≡ not ((not (distinct_after [] ns) || not (fits ns)) || not (is_nil ids)) =
          valid
          ∙ ap
              (λ b. not ((b || not (fits (intake platform tools items).nodes)) || not (is_nil ids)))
              taken_in.1
          ∙ ap (λ m. not ((not (distinct_after [] ns) || not (fits m)) || not (is_nil ids)))
              taken_in.0 in
        (
          r,
          e,
          (
            λ is_valid.
                let (a, b, c) = all_hold _ _ _ (sym says ∙ is_valid) in
                record {
                  nodes = ns;
                  shaped = shaped;
                  distinct = a;
                  fits = b;
                  acyclic = λ u l.
                      exact.0 (nil_of_is_nil ids c) u
                        (Leads-map _ _ (λ x y. sym (same_walks x y)) l);
                },
            λ w.
                let same : w.nodes ≡ ns = some_injective (sym w.shaped ∙ shaped) in
                let no_walk = λ (u : String) (l : Leads (links _) u u). w.acyclic u (
                  subst (λ m. Leads (depends platform tools m) u u) (sym same)
                    (Leads-map _ _ same_walks l)) in
                says
                ∙ hold_all _ _ _ (subst (λ m. distinct_after [] m ≡ true) same w.distinct)
                    (subst (λ m. fits m ≡ true) same w.fits) (rw (exact.1 no_walk) refl),
          ),
        )

  valid-unparsed :
      (items : Items)
      → parse_all items ≡ none
      → (r : ValidationResult) × (check_graph platform tools items ≡ some r)
        × ((r.valid ≡ true) ↔ IsCallGraph platform tools items)
  valid-unparsed items unshaped =
      let (r, ids, e, d, valid, exact) = check_graph-valid platform tools items in
      let bad : has_error (intake platform tools items).found ≡ true =
        intake-unparsed items unshaped in
      (
        r,
        e,
        (
          λ is_valid. let no : false ≡ true = sym (rw bad at valid) ∙ is_valid in absurd (cc),
          λ w. let no : none ≡ some w.nodes = sym unshaped ∙ w.shaped in absurd (cc),
        ),
      )

  check_graph-exact :
      (items : Items)
      → (r : ValidationResult) × (check_graph platform tools items ≡ some r)
        × ((r.valid ≡ true) ↔ IsCallGraph platform tools items)
  check_graph-exact items = elim (Option-cases (parse_all items)) [
    | inl unshaped ↦ valid-unparsed items unshaped
    | inr (ns, shaped) ↦ valid-parsed items ns shaped
  ]

same_items : {a b : Items} → some a ≡ some b → a ≡ b
same_items e = cc

-- The result of validate_call_graph is always there, and it says that the graph is valid exactly if
-- graph.nodes is an array of nodes with distinct ids, each with dependencies that exist, a tool
-- that exists and arguments that conform to its schema, and no node depends on itself, through the
-- declared dependencies and the references that its schemas describe.
pub validate_call_graph-exact :
    (platform : Platform) (graph : Value) (tools : Tools)
    → (r : ValidationResult) × (validate_call_graph platform graph tools ≡ some r)
      × ((r.valid ≡ true)
          ↔ ((items : Items) × (node_items graph ≡ some items) × IsCallGraph platform tools items))
unfolding validate_call_graph finish note has_error any
validate_call_graph-exact platform graph tools = elim (Option-cases (node_items graph)) [
  | inl e ↦ (
    finish (note none graph_shape "$" "graph must contain a nodes array" []),
    rw (e, validate_call_graph),
    (
      λ is_valid. let no : false ≡ true = is_valid in absurd (cc),
      λ (items, f, _). let no : none ≡ some items = sym e ∙ f in absurd (cc),
    ),
  )
  | inr (items, e) ↦
      let (r, f, exact) = check_graph-exact platform tools items in
      (
        r,
        rw (e, validate_call_graph) f,
        (
          λ is_valid. (items, e, exact.0 is_valid),
          λ (items', e', w).
              let same : items' ≡ items = same_items (sym e' ∙ e) in
              exact.1 (subst (IsCallGraph platform tools) same w),
        ),
      )
]

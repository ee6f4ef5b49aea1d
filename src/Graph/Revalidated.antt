-- ===== src/Graph/Revalidated.antt =====
-- src/call-executor.ts: an output that `validateOutput` accepts is accepted again after `cloneJson`.
use superset_agent_orchestra.Base.{
  String, true, false, ◌&&◌, ◌||◌, Option, none, some, List, [], ◌∷◌, ◌≡◌, refl, sym, subst, ap,
  ◌∙◌, inl, inr, any, all, find, arith, Bool-cases, ◌==◌, string_eq,
}
use superset_agent_orchestra.Graph.Json.{
  Value, object, string, Items, nil, item, end, field, get, contains,
}
use superset_agent_orchestra.Graph.Schema.{Schema, Tools, CallNode, tool_named, node_by_id}
use superset_agent_orchestra.Graph.Walks.{Leads}
use superset_agent_orchestra.Graph.Checker.{
  ValidationResult, node_items, texts, parse_node, has_node, scope_of,
}
use superset_agent_orchestra.Graph.Validate.{Scope}
use superset_agent_orchestra.Graph.Nodes.{needs, parse_all, distinct_after, node_fits}
use superset_agent_orchestra.Graph.Conformance.{conforms, reference_fits}
use superset_agent_orchestra.Graph.References.{refers, is_node}
use superset_agent_orchestra.Graph.Exact.{
  depends, validate_call_graph-exact, IsCallGraph, Leads-map,
}
use superset_agent_orchestra.Graph.Canonical.{IsAsymmetric, clone_json, insert_field}
use superset_agent_orchestra.Graph.Policy.{ExecutableTool, Runtime, clone}
use superset_agent_orchestra.Graph.Records.{validate_output, wrapper, output_graph, says_valid}
use superset_agent_orchestra.Graph.Cloned.{IsSnapshot, conforms-clone, refers-clone}

says_so : (o : Option ValidationResult) (r : ValidationResult) → o ≡ some r → says_valid o ≡ r.valid
says_so o r e = ap says_valid e

module _ (rt : Runtime) (asymmetric : IsAsymmetric rt.before) (n : CallNode) (tool : ExecutableTool)
    (snap : IsSnapshot rt.before tool.output) where
  abbrev wrapped : Tools
  wrapped = ("output", record { input = wrapper tool.output; output = none }) ∷ []

  abbrev arguments_of : Value → Value
  arguments_of v = object (field "value" v end)

  -- The one node of the graph that the output is checked in.
  abbrev node_of : Value → CallNode
  node_of v = record { id = n.id; tool = "output"; arguments = arguments_of v; depends_on = [] }

  abbrev items_of : Value → Items
  items_of v =
      item
        (object (
          field "id" (string n.id)
            (field "tool" (string "output") (field "arguments" (arguments_of v) end))))
        nil

  abbrev scope : Value → Scope
  scope v = scope_of rt.platform wrapped (node_of v ∷ []) (node_of v)

  items-found : (v : Value) → node_items (output_graph n.id v) ≡ some (items_of v)
  unfolding node_items get
  items-found v = refl

  nodes-parsed : (n.id == "") ≡ false → (v : Value) → parse_all (items_of v) ≡ some (node_of v ∷ [])
  unfolding parse_all parse_node get texts
  nodes-parsed named v = rw (parse_all, parse_node, named)

  nodes-unnamed : (n.id == "") ≡ true → (v : Value) → parse_all (items_of v) ≡ none
  unfolding parse_all parse_node get texts
  nodes-unnamed unnamed v = rw (parse_all, parse_node, unnamed)

  wrapper-IsSnapshot : IsSnapshot rt.before (wrapper tool.output)
  unfolding IsSnapshot
  wrapper-IsSnapshot = (tt, (snap, tt), tt)

  same_fit :
      (v w : Value) (id : String) (s : Schema)
      → reference_fits (scope v) id s ≡ reference_fits (scope w) id s
  unfolding reference_fits node_by_id find
  same_fit v w id s = elim (Bool-cases (n.id == id)) [
    | inl y ↦ rw (reference_fits, node_by_id, y)
    | inr d ↦ rw (reference_fits, node_by_id, d)
  ]

  same_node :
      (v w : Value) (id : String)
      → is_node (node_by_id id (scope v).nodes) ≡ is_node (node_by_id id (scope w).nodes)
  unfolding node_by_id find
  same_node v w id = elim (Bool-cases (n.id == id)) [ inl y ↦ rw y refl | inr d ↦ rw d refl ]

  arguments-clone : (v : Value) → clone_json rt.before (arguments_of v) ≡ arguments_of (clone rt v)
  unfolding clone_json insert_field
  arguments-clone v = refl

  fits-clone :
      (v : Value)
      → node_fits rt.platform wrapped (node_of v ∷ []) (node_of v) ≡ true
      → node_fits rt.platform wrapped (node_of (clone rt v) ∷ []) (node_of (clone rt v)) ≡ true
  unfolding node_fits tool_named all
  fits-clone v h =
      ap (λ a. conforms (scope (clone rt v)) a (wrapper tool.output)) (sym (arguments-clone v))
      ∙ conforms-clone rt.before asymmetric (scope v) (scope (clone rt v)) refl
          (same_fit v (clone rt v)) (arguments_of v) (wrapper tool.output) wrapper-IsSnapshot h

  depends-clone :
      (v : Value) (a b : String)
      → depends rt.platform wrapped (node_of (clone rt v) ∷ []) a b
        ≡ depends rt.platform wrapped (node_of v ∷ []) a b
  unfolding needs tool_named any has_node
  depends-clone v a b =
      let same =
        refers-clone rt.before asymmetric (scope v) (scope (clone rt v)) (same_node v (clone rt v))
          (arguments_of v) (wrapper tool.output) b
        ∙ ap (λ x. refers (scope (clone rt v)) x (wrapper tool.output) b) (arguments-clone v) in
      λ i. (n.id == a && ((has_node (node_of v ∷ []) b && contains [] b) || sym same i)) || false

  named_by : (v : Value) → IsCallGraph rt.platform wrapped (items_of v) → (n.id == "") ≡ false
  named_by v g = elim (Bool-cases (n.id == "")) [
    | inr named ↦ named
    | inl unnamed ↦
        let no : none ≡ some g.nodes = sym (nodes-unnamed unnamed v) ∙ g.shaped in absurd (cc)
  ]

  graph-clone :
      (v : Value)
      → IsCallGraph rt.platform wrapped (items_of v)
      → IsCallGraph rt.platform wrapped (items_of (clone rt v))
  unfolding distinct_after has_node any all
  graph-clone v g =
      let named = named_by v g in
      let nodes : g.nodes ≡ node_of v ∷ [] = same_nodes (sym g.shaped ∙ nodes-parsed named v) in
      let fit : all (node_fits rt.platform wrapped (node_of v ∷ [])) (node_of v ∷ []) ≡ true =
        subst (λ ns. all (node_fits rt.platform wrapped ns) ns ≡ true) nodes g.fits in
      record {
        nodes = node_of (clone rt v) ∷ [];
        shaped = nodes-parsed named (clone rt v);
        distinct = refl;
        fits = ground (arith, fits-clone v (ground (arith, fit)));
        acyclic = λ u l. g.acyclic u (
            subst (λ ns. Leads (depends rt.platform wrapped ns) u u) (sym nodes)
              (Leads-map _ _ (depends-clone v) l));
      }
    where
      same_nodes : {a b : List CallNode} → some a ≡ some b → a ≡ b
      same_nodes e = cc

  pub validate_output-clone :
      (v : Value)
      → validate_output rt n tool v ≡ true
      → validate_output rt n tool (clone rt v) ≡ true
  unfolding validate_output
  validate_output-clone v h =
      let (r, e, exact) = validate_call_graph-exact rt.platform (output_graph n.id v) wrapped in
      let (items, found, g) = exact.0 (sym (says_so _ r e) ∙ h) in
      let same : items ≡ items_of v = same_items (sym found ∙ items-found v) in
      let (q, f, exact') =
        validate_call_graph-exact rt.platform (output_graph n.id (clone rt v)) wrapped in
      says_so _ q f
      ∙ exact'.1 (
        items_of (clone rt v),
        items-found (clone rt v),
        graph-clone v (subst (IsCallGraph rt.platform wrapped) same g),
      )
    where
      same_items : {a b : Items} → some a ≡ some b → a ≡ b
      same_items e = cc

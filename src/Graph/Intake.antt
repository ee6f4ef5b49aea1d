-- ===== src/Graph/Intake.antt =====
-- src/call-validator.ts: what reading the nodes of a graph finds.
use superset_agent_orchestra.Base.{
  ℕ, ◌+◌, Bool, true, ◌&&◌, ◌||◌, not, Option, none, some, List, [], ◌∷◌, ◌++◌, ◌≡◌, refl, sym, ap,
  ◌∙◌, inl, inr, arith, Bool-cases, Option-cases, string_eq,
}
use mathlib.Core.List.{append-nil, append_assoc}
use superset_agent_orchestra.Graph.Json.{Value, Items, nil, item}
use superset_agent_orchestra.Graph.Schema.{CallNode, has_error}
use superset_agent_orchestra.Graph.Conformance.{has_error-note}
use superset_agent_orchestra.Graph.Checker.{parse_node, Intake, has_node, take_in, collect}
use superset_agent_orchestra.Graph.Nodes.{distinct_after, parse_all}

take_in-error :
    (i : ℕ) (o : Option CallNode) (st : Intake)
    → has_error st.found ≡ true
    → has_error (take_in i o st).found ≡ true
unfolding take_in
take_in-error i none st h = rw (has_error-note, h)
take_in-error i (some n) st h = elim (Bool-cases (has_node st.nodes n.id)) [
  | inl y ↦ rw (y, has_error-note, h)
  | inr y ↦ rw (y, h)
]

collect-error :
    (i : ℕ) (items : Items) (st : Intake)
    → has_error st.found ≡ true
    → has_error (collect i items st).found ≡ true
unfolding collect
collect-error i nil st h = h
collect-error i (item v rest) st h =
    collect-error (i + 1) rest (take_in i (parse_node v) st) (take_in-error i (parse_node v) st h)

pub collect-unparsed :
    (i : ℕ) (items : Items) (st : Intake)
    → parse_all items ≡ none
    → has_error (collect i items st).found ≡ true
unfolding collect parse_all take_in has_error
collect-unparsed i nil st h = absurd (ground arith)
collect-unparsed i (item v rest) st h = elim (Option-cases (parse_node v)) [
  | inl e ↦
      collect-error (i + 1) rest (take_in i (parse_node v) st)
        (rw (e, take_in, has_error-note) (ground arith))
  | inr (n, e) ↦ elim (Option-cases (parse_all rest)) [
    | inl f ↦ collect-unparsed (i + 1) rest (take_in i (parse_node v) st) f
    | inr (ns, f) ↦ let no : some (n ∷ ns) ≡ none = rw (e, f, parse_all) at h in absurd (cc)
  ]
]

abbrev Parsed : List CallNode → Intake → Intake → Type 0
Parsed ns st st' =
    (st'.nodes ≡ st.nodes ++ ns)
    × (has_error st'.found ≡ has_error st.found || not (distinct_after st.nodes ns))

parse_all-item :
    (v : Value) (rest : Items) (ns : List CallNode)
    → parse_all (item v rest) ≡ some ns
    → (n : CallNode) × (ms : List CallNode) × (parse_node v ≡ some n)
      × (parse_all rest ≡ some ms)
      × (ns ≡ n ∷ ms)
unfolding parse_all
parse_all-item v rest ns h = elim (Option-cases (parse_node v)) [
  | inl e ↦ let no : none ≡ some ns = rw (e, parse_all) at h in absurd (cc)
  | inr (n, e) ↦ elim (Option-cases (parse_all rest)) [
    | inl f ↦ let no : none ≡ some ns = rw (e, f, parse_all) at h in absurd (cc)
    | inr (ms, f) ↦
        let same : some (n ∷ ms) ≡ some ns = rw (e, f, parse_all) at h in (n, ms, e, f, cc)
  ]
]

take_in-node :
    (i : ℕ) (n : CallNode) (st : Intake)
    → has_error (take_in i (some n) st).found ≡ has_error st.found || has_node st.nodes n.id
unfolding take_in
take_in-node i n st = elim (Bool-cases (has_node st.nodes n.id)) [
  | inl y ↦ rw (y, has_error-note) refl
  | inr y ↦ rw y (ground arith)
]

pub or-or-not : (a b c : Bool) → (a || b) || not c ≡ a || not (not b && c)
or-or-not a b c = ground arith

pub collect-Parsed :
    (i : ℕ) (items : Items) (st : Intake) (ns : List CallNode)
    → parse_all items ≡ some ns
    → Parsed ns st (collect i items st)
unfolding collect parse_all distinct_after take_in
collect-Parsed i nil st ns h =
    let same : ns ≡ [] = ground arith in rw same (sym (append-nil st.nodes), ground arith)
collect-Parsed i (item v rest) st ns h =
    let (n, ms, e, f, same) = parse_all-item v rest ns h in
    let (nodes, found) = collect-Parsed (i + 1) rest (take_in i (some n) st) ms f in
    let fresh = distinct_after (st.nodes ++ n ∷ []) ms in
    let step : Parsed ns st (collect (i + 1) rest (take_in i (parse_node v) st)) =
      rw (e, same)
        (
          nodes ∙ append_assoc st.nodes (n ∷ []) ms,
          found
              ∙ ap (λ b. b || not fresh) (take_in-node i n st)
              ∙ or-or-not (has_error st.found) (has_node st.nodes n.id) fresh,
        ) in
    step

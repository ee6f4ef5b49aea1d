-- ===== src/Graph/Schedulable.antt =====
-- src/call-validator.ts and src/call-executor.ts together: a valid graph can be put in order, where
-- the schemas describe every place with a reference.
use superset_agent_orchestra.Base.{
  String, Bool, true, false, ◌&&◌, ◌||◌, not, Option, none, some, List, [], ◌∷◌, ◌++◌, ◌≡◌, refl,
  sym, ◌∙◌, subst, inl, inr, ◌⊎◌, any, find, All, All-map, arith, eq_iff, Bool-cases, Option-cases,
  ◌==◌, string_eq,
}
use superset_agent_orchestra.Graph.Json.{
  Value, null, boolean, number, string, array, object, Items, nil, item, Fields, end, field,
  contains, reference_of,
}
use superset_agent_orchestra.Graph.Schema.{
  Schema, Element, unchecked, each, rules, properties, element, property_schema, Tools, tool_named,
  CallNode, node_by_id,
}
use superset_agent_orchestra.Graph.Compatible.{matches_type}
use superset_agent_orchestra.Graph.Validate.{Scope}
use superset_agent_orchestra.Graph.References.{
  is_node, in_property, sees, refers, items_refer, fields_refer,
}
use superset_agent_orchestra.Graph.Walks.{Leads, edge, further}
use superset_agent_orchestra.Graph.Checker.{Platform, has_node, scope_of}
use superset_agent_orchestra.Graph.Nodes.{distinct_after, needs}
use superset_agent_orchestra.Graph.Exact.{depends, IsCallGraph}
use superset_agent_orchestra.Graph.Topology.{last_by_id, topological_order}
use superset_agent_orchestra.Graph.Schedule.{topological_order-schedules}
use superset_agent_orchestra.Graph.Ordering.{wants, in_order, IsIndexed, has_node-append}

and-split : (a b : Bool) → a && b ≡ true → (a ≡ true) × (b ≡ true)
and-split true true h = (refl, refl)
and-split true false h = absurd (cc)
and-split false b h = absurd (cc)

or-split : (a b : Bool) → a || b ≡ true → (a ≡ true) ⊎ (b ≡ true)
or-split true b h = inl refl
or-split false b h = inr h

is_node-has_node :
    (id : String) (nodes : List CallNode) → is_node (node_by_id id nodes) ≡ has_node nodes id
unfolding node_by_id has_node find any
is_node-has_node id [] = refl
is_node-has_node id (n ∷ ns) = ground (arith, is_node-has_node id ns)

module _ (sc : Scope) (id : String) where
  abbrev IsKnown : Bool → Type 0
  IsKnown b = b ≡ true → has_node sc.nodes id ≡ true

  sees-IsKnown :
      (v : Value) (s : Schema) (inside : Bool) → IsKnown inside → IsKnown (sees sc v s id inside)
  unfolding sees
  sees-IsKnown v s inside known h = elim (Option-cases (reference_of v)) [
    | inr (r, e) ↦
        let (a, b) = and-split (is_node (node_by_id r sc.nodes)) (r == id) (rw (e, sees) at h) in
        subst (λ x. has_node sc.nodes x ≡ true) ((eq_iff r id).0 b)
          (sym (is_node-has_node r sc.nodes) ∙ a)
    | inl e ↦ known (and-split (matches_type v (rules s).kind) inside (rw (e, sees) at h)).1
  ]

  or-IsKnown : (a b : Bool) → IsKnown a → IsKnown b → IsKnown (a || b)
  or-IsKnown a b ka kb h = elim (or-split a b h) [ inl x ↦ ka x | inr x ↦ kb x ]

  and-IsKnown : (a b : Bool) → IsKnown b → IsKnown (a && b)
  and-IsKnown a b kb h = kb (and-split a b h).1

  in_property-IsKnown :
      (test : Schema → Bool)
      → ((s : Schema) → IsKnown (test s))
      → (o : Option Schema) → IsKnown (in_property test o)
  in_property-IsKnown test k none h = absurd (cc)
  in_property-IsKnown test k (some s) h = k s h

  mutual
    unfolding refers

    refers-IsKnown : (v : Value) (s : Schema) → IsKnown (refers sc v s id)
    refers-IsKnown null s = sees-IsKnown null s false (λ h. absurd (cc))
    refers-IsKnown (boolean b) s = sees-IsKnown (boolean b) s false (λ h. absurd (cc))
    refers-IsKnown (number n) s = sees-IsKnown (number n) s false (λ h. absurd (cc))
    refers-IsKnown (string t) s = sees-IsKnown (string t) s false (λ h. absurd (cc))
    refers-IsKnown (array xs) s =
        sees-IsKnown (array xs) s _ (and-IsKnown _ _ (items-IsKnown xs (element s)))
    refers-IsKnown (object fs) s =
        sees-IsKnown (object fs) s _ (and-IsKnown _ _ (fields-IsKnown fs s))

    items-IsKnown : (xs : Items) (e : Element) → IsKnown (items_refer sc xs e id)
    items-IsKnown nil e = λ h. absurd (cc)
    items-IsKnown (item v rest) unchecked = items-IsKnown rest unchecked
    items-IsKnown (item v rest) (each s) =
        or-IsKnown _ _ (refers-IsKnown v s) (items-IsKnown rest (each s))

    fields-IsKnown : (fs : Fields) (s : Schema) → IsKnown (fields_refer sc fs s id)
    fields-IsKnown end s = λ h. absurd (cc)
    fields-IsKnown (field k v rest) s =
        or-IsKnown _ _
          (in_property-IsKnown (λ child. refers sc v child id) (λ child. refers-IsKnown v child)
            (property_schema k (properties s)))
          (fields-IsKnown rest s)

has_node-last :
    (id : String) (ns : List CallNode)
    → has_node ns id ≡ true
    → (m : CallNode) × (last_by_id id ns ≡ some m)
unfolding has_node last_by_id any
has_node-last id [] h = absurd (cc)
has_node-last id (n ∷ ns) h = elim (Option-cases (last_by_id id ns)) [
  | inr (m, e) ↦ (m, rw (e, last_by_id))
  | inl e ↦ elim (Bool-cases (n.id == id)) [
    | inl y ↦ (n, rw (e, last_by_id, y))
    | inr y ↦
        let (m, f) = has_node-last id ns (rw y at h) in
        let no : none ≡ some m = sym e ∙ f in absurd (cc)
  ]
]

last_by_id-none :
    (id : String) (ns : List CallNode) → has_node ns id ≡ false → last_by_id id ns ≡ none
unfolding has_node last_by_id any
last_by_id-none id [] h = refl
last_by_id-none id (n ∷ ns) h = elim (Bool-cases (n.id == id)) [
  | inl y ↦ let no : true ≡ false = rw y at h in absurd (cc)
  | inr y ↦ rw (last_by_id-none id ns (rw y at h), last_by_id, y)
]

or-true : (a b : Bool) → b ≡ true → a || b ≡ true
or-true a b h = ground arith

last_by_id-head :
    (n : CallNode) (ns : List CallNode) → last_by_id n.id ns ≡ none → IsIndexed (n ∷ ns) n
unfolding last_by_id
last_by_id-head n ns e =
    let same : (n.id == n.id) ≡ true = (eq_iff n.id n.id).1 refl in rw (e, last_by_id, same)

last_by_id-tail :
    (n : CallNode) (ns : List CallNode) (m : CallNode) → IsIndexed ns m → IsIndexed (n ∷ ns) m
unfolding last_by_id
last_by_id-tail n ns m e = rw (e, last_by_id)

-- An id from before is not there again.
distinct_after-fresh :
    (seen ns : List CallNode) (id : String)
    → distinct_after seen ns ≡ true
    → has_node seen id ≡ true
    → has_node ns id ≡ false
unfolding distinct_after has_node any
distinct_after-fresh seen [] id d h = refl
distinct_after-fresh seen (n ∷ ns) id d h =
    let (unseen, rest) =
      and-split (not (has_node seen n.id)) (distinct_after (seen ++ n ∷ []) ns) d in
    elim (Bool-cases (n.id == id)) [
      | inl y ↦
          let seen_n : has_node seen n.id ≡ true =
            subst (λ x. has_node seen x ≡ true) (sym ((eq_iff n.id id).0 y)) h in
          let no : false ≡ true = rw seen_n at unseen in absurd (cc)
      | inr y ↦
          rw y (
            distinct_after-fresh (seen ++ n ∷ []) ns id rest
              (has_node-append seen n id ∙ rw h refl))
    ]

distinct_after-IsIndexed :
    (seen ns : List CallNode) → distinct_after seen ns ≡ true → All (IsIndexed ns) ns
unfolding distinct_after
distinct_after-IsIndexed seen [] d = tt
distinct_after-IsIndexed seen (n ∷ ns) d =
    let (_, rest) = and-split _ _ d in
    let listed : has_node (seen ++ n ∷ []) n.id ≡ true =
      has_node-append seen n n.id ∙ or-true _ _ ((eq_iff n.id n.id).1 refl) in
    let alone = distinct_after-fresh (seen ++ n ∷ []) ns n.id rest listed in
    (
      last_by_id-head n ns (last_by_id-none n.id ns alone),
      All-map (IsIndexed ns) (IsIndexed (n ∷ ns)) (λ m h. last_by_id-tail n ns m h) ns
          (distinct_after-IsIndexed (seen ++ n ∷ []) ns rest),
    )

-- What a valid graph gives topological_order.
module _ (platform : Platform) (tools : Tools) (nodes : List CallNode) where
  needs-known :
      (n : CallNode) (v : String) → needs platform tools nodes n v ≡ true → has_node nodes v ≡ true
  unfolding needs
  needs-known n v h = elim (or-split _ _ h) [
    | inl a ↦ (and-split (has_node nodes v) (contains n.depends_on v) a).0
    | inr b ↦ elim (Option-cases (tool_named n.tool tools)) [
      | inl e ↦ let no : false ≡ true = rw e at b in absurd (cc)
      | inr (tool, e) ↦
          refers-IsKnown (scope_of platform tools nodes n) v n.arguments tool.input (rw e at b)
    ]
  ]

  depends-known :
      (ns : List CallNode) (u v : String)
      → any (λ (n : CallNode). n.id == u && needs platform tools nodes n v) ns ≡ true
      → has_node nodes v ≡ true
  unfolding any
  depends-known [] u v h = absurd (cc)
  depends-known (n ∷ ns) u v h = elim (or-split _ _ h) [
    | inl a ↦ needs-known n v (and-split (n.id == u) _ a).1
    | inr b ↦ depends-known ns u v b
  ]

Leads-sub :
    (E F : String → String → Bool)
    → ((u v : String) → E u v ≡ true → F u v ≡ true)
    → {u v : String} → Leads E u v
    → Leads F u v
Leads-sub E F h (edge {v} e) = edge (h _ v e)
Leads-sub E F h (further {v} {w} l e) = further (Leads-sub E F h l) (h v w e)

-- A valid graph whose references all stand where the schemas of the tools describe a value can be
-- executed in order: topological_order returns, with each node of the graph once and after all that
-- it depends on, declared or referred to.
pub IsCallGraph-ordered :
    (platform : Platform) (tools : Tools) (items : Items) (g : IsCallGraph platform tools items)
    → ((u v : String) → wants g.nodes u v ≡ true → depends platform tools g.nodes u v ≡ true)
    → (ordered : List CallNode) × (topological_order g.nodes ≡ some ordered)
      × (in_order [] ordered ≡ true)
      × All (IsIndexed g.nodes) ordered
      × All (λ n. has_node ordered n.id ≡ true) g.nodes
IsCallGraph-ordered platform tools items g described =
    topological_order-schedules g.nodes
      (λ u v w.
        has_node-last v g.nodes
          (depends-known platform tools g.nodes g.nodes u v (described u v w)))
      (λ u l. g.acyclic u (Leads-sub _ _ described l))
      (distinct_after-IsIndexed [] g.nodes g.distinct)

-- ===== src/Graph/Schedule.antt =====
-- src/call-executor.ts: `topologicalOrder` puts every node after its dependencies.
use superset_agent_orchestra.Base.{
  ℕ, zero, suc, ◌<◌, String, true, false, ◌||◌, Option, some, List, [], ◌∷◌, ◌++◌, ◌≡◌, ◌⊎◌, inl,
  inr, refl, sym, subst, ◌∙◌, length, all, All, All-append, arith, eq_iff, Bool-cases, ◌==◌,
  string_eq,
}
use superset_agent_orchestra.Graph.Json.{contains}
use superset_agent_orchestra.Graph.Schema.{CallNode}
use superset_agent_orchestra.Graph.Sets.{contains-cons, contains-head, contains-tail, contains-nil}
use superset_agent_orchestra.Graph.Walks.{Leads, edge, further, Leads-prepend}
use superset_agent_orchestra.Graph.Terminates.{unvisited, unvisited-cons, unvisited-le}
use superset_agent_orchestra.Graph.Checker.{has_node}
use superset_agent_orchestra.Graph.Topology.{
  dependencies, last_by_id, visit_all, visit, visit_each, topological_order,
}
use superset_agent_orchestra.Graph.Ordering.{
  IsIndexed, has_node-append, has_node-last, ids, in_order, in_order-append, is_ready,
  last_by_id-id, wants,
}

-- The node's dependencies stand before it, and no node of its id.
module _ (nodes : List CallNode)
    (known : (u v : String)
      → wants nodes u v ≡ true
      → (m : CallNode) × (last_by_id v nodes ≡ some m))
    (acyclic : (u : String) → ¬ Leads (wants nodes) u u) where
  -- What a visit keeps and adds. What is new can be reached by `New`.
  record Extends (New : String → Type 0) (ordered result : List CallNode) : Type 0 where
    sorted : in_order [] result ≡ true
    indexed : All (IsIndexed nodes) result
    kept : (x : String) → has_node ordered x ≡ true → has_node result x ≡ true
    fresh : (x : String) → has_node result x ≡ true → (has_node ordered x ≡ true) ⊎ New x

  record Sorted (ordered : List CallNode) : Type 0 where
    sorted : in_order [] ordered ≡ true
    indexed : All (IsIndexed nodes) ordered

  abbrev Below : CallNode → String → Type 0
  Below n x = (x ≡ n.id) ⊎ Leads (wants nodes) n.id x

  abbrev Visits : CallNode → List CallNode → Option (List CallNode) → Type 0
  Visits n ordered r =
      (result : List CallNode) × (r ≡ some result)
      × Extends (Below n) ordered result
      × (has_node result n.id ≡ true)

  -- The dependencies of a node, one after the other.
  visit_all-Extends :
      (n : CallNode) (step : CallNode → List CallNode → Option (List CallNode))
      → ((m : CallNode) (ordered : List CallNode)
          → IsIndexed nodes m
          → wants nodes n.id m.id ≡ true
          → Sorted ordered
          → Visits m ordered (step m ordered))
      → (ds : List String) (ordered : List CallNode)
      → ((d : String) → contains ds d ≡ true → wants nodes n.id d ≡ true)
      → Sorted ordered
      → (result : List CallNode) × (visit_all step nodes ds ordered ≡ some result)
        × Extends (Leads (wants nodes) n.id) ordered result
        × (all (has_node result) ds ≡ true)
  unfolding visit_all all
  visit_all-Extends n step visits [] ordered sub s = (
    ordered,
    refl,
    record { sorted = s.sorted; indexed = s.indexed; kept = λ x h. h; fresh = λ x h. inl h },
    refl,
  )
  visit_all-Extends n step visits (d ∷ ds) ordered sub s =
      let want = sub d (contains-head d ds) in
      let (m, e) = known n.id d want in
      let (same, _) = last_by_id-id d nodes m e in
      let want' = subst (λ x. wants nodes n.id x ≡ true) (sym same) want in
      let (mid, e', ext, here) =
        visits m ordered (subst (λ x. last_by_id x nodes ≡ some m) (sym same) e) want' s in
      let (result, e'', ext', there) =
        visit_all-Extends n step visits ds mid (λ x h. sub x (contains-tail d ds x h))
          (record { sorted = ext.sorted; indexed = ext.indexed }) in
      (
        result,
        rw (e, visit_all, e') e'',
        record {
          sorted = ext'.sorted;
          indexed = ext'.indexed;
          kept = λ x h. ext'.kept x (ext.kept x h);
          fresh = λ x h. elim (ext'.fresh x h) [
            | inr far ↦ inr far
            | inl old ↦ elim (ext.fresh x old) [
              | inl older ↦ inl older
              | inr (inl at) ↦ inr (edge (subst (λ y. wants nodes n.id y ≡ true) (sym at) want'))
              | inr (inr far) ↦ inr (Leads-prepend want' far)
            ]
          ];
        },
        rw there (rw (ext'.kept d (subst (λ y. has_node mid y ≡ true) same here)) refl),
      )

  wants-indexed :
      (n : CallNode) (d : String)
      → IsIndexed nodes n
      → contains (dependencies n) d ≡ true
      → wants nodes n.id d ≡ true
  unfolding wants
  wants-indexed n d idx h = rw (idx, wants) h

  -- A node on the path of the visits would be on a cycle.
  off :
      (active : List String) (id : String)
      → ((x : String) → contains active x ≡ true → Leads (wants nodes) x id)
      → contains active id ≡ false
  off active id up = elim (Bool-cases (contains active id)) [
    | inl on ↦ absurd (acyclic id (up id on))
    | inr out ↦ out
  ]

  not_below :
      (n : CallNode) (ordered before : List CallNode)
      → has_node ordered n.id ≡ false
      → Extends (Leads (wants nodes) n.id) ordered before
      → has_node before n.id ≡ false
  not_below n ordered before new ext = elim (Bool-cases (has_node before n.id)) [
    | inr out ↦ out
    | inl here ↦ elim (ext.fresh n.id here) [
      | inl old ↦ absurd (cc)
      | inr l ↦ absurd (acyclic n.id l)
    ]
  ]

  push :
      (n : CallNode) (ordered before : List CallNode)
      → IsIndexed nodes n
      → Extends (Leads (wants nodes) n.id) ordered before
      → all (has_node before) (dependencies n) ≡ true
      → has_node before n.id ≡ false
      → Extends (Below n) ordered (before ++ n ∷ [])
  unfolding is_ready
  push n ordered before idx ext deps unseen = record {
    sorted = rw in_order-append (rw (ext.sorted, deps, unseen) refl);
    indexed = All-append (IsIndexed nodes) before (n ∷ []) ext.indexed (idx, tt);
    kept = λ x h. rw has_node-append (rw (ext.kept x h) refl);
    fresh = λ x h.
        let h' : has_node before x || n.id == x ≡ true = sym (has_node-append before n x) ∙ h in
        elim (Bool-cases (has_node before x)) [
          | inl old ↦ elim (ext.fresh x old) [ inl older ↦ inl older | inr l ↦ inr (inr l) ]
          | inr out ↦
              let at : (n.id == x) ≡ true = rw out at h' in inr (inl (sym ((eq_iff n.id x).0 at)))
        ];
  }

  visit-Visits :
      (fuel : ℕ) (active : List String) (n : CallNode) (ordered : List CallNode)
      → IsIndexed nodes n
      → unvisited (ids nodes) active < fuel
      → ((x : String) → contains active x ≡ true → Leads (wants nodes) x n.id)
      → Sorted ordered
      → Visits n ordered (visit fuel nodes n ordered)
  unfolding visit
  visit-Visits zero active n ordered idx less up s = absurd (omega arith)
  visit-Visits (suc fuel) active n ordered idx less up s =
      elim (Bool-cases (has_node ordered n.id)) [
        | inl old ↦ (
          ordered,
          rw (old, visit),
          record { sorted = s.sorted; indexed = s.indexed; kept = λ x h. h; fresh = λ x h. inl h },
          old,
        )
        | inr new ↦
            let off_path : contains active n.id ≡ false = off active n.id up in
            let listed = (last_by_id-id n.id nodes n idx).1 in
            let (before, e, ext, deps) =
              visit_all-Extends n (visit fuel nodes)
                (λ m ord idx' want s'.
                  visit-Visits fuel (n.id ∷ active) m ord idx'
                    (omega (arith, unvisited-cons (ids nodes) active n.id off_path listed))
                    (λ x h. elim (contains-cons n.id active x h) [
                      | inl same ↦ edge (subst (λ y. wants nodes y m.id ≡ true) same want)
                      | inr h' ↦ further (up x h') want
                    ])
                    s')
                (dependencies n) ordered (λ d h. wants-indexed n d idx h) s in
            let unseen : has_node before n.id ≡ false = not_below n ordered before new ext in
            (
              before ++ n ∷ [],
              rw (new, visit, e),
              push n ordered before idx ext deps unseen,
              has_node-last before n,
            )
      ]

  visit_each-Extends :
      (fuel : ℕ) (ns ordered : List CallNode)
      → unvisited (ids nodes) [] < fuel
      → All (IsIndexed nodes) ns
      → Sorted ordered
      → (result : List CallNode) × (visit_each fuel nodes ns ordered ≡ some result)
        × Sorted result
        × ((x : String) → has_node ordered x ≡ true → has_node result x ≡ true)
        × All (λ n. has_node result n.id ≡ true) ns
  unfolding visit_each
  visit_each-Extends fuel [] ordered less idx s = (ordered, refl, s, λ x h. h, tt)
  visit_each-Extends fuel (n ∷ ns) ordered less idx s =
      let (mid, e, ext, here) =
        visit-Visits fuel [] n ordered idx.0 less (λ x h. absurd (contains-nil x h)) s in
      let (result, e', s', kept, all_there) =
        visit_each-Extends fuel ns mid less idx.1
          (record { sorted = ext.sorted; indexed = ext.indexed }) in
      (result, rw (e, visit_each) e', s', λ x h. kept x (ext.kept x h), (kept n.id here, all_there))

length-ids : (ns : List CallNode) → length (ids ns) ≡ length ns
length-ids [] = omega arith
length-ids (n ∷ ns) = omega (arith, length-ids ns)

-- If every dependency of a node, declared or referred to, is the id of a node, no node depends on
-- itself through others, and ids are distinct, then topological_order returns: its nodes are nodes
-- of the graph, each stands after all its dependencies and none twice, and every node is there.
pub topological_order-schedules :
    (nodes : List CallNode)
    → ((u v : String) → wants nodes u v ≡ true → (m : CallNode) × (last_by_id v nodes ≡ some m))
    → ((u : String) → ¬ Leads (wants nodes) u u)
    → All (IsIndexed nodes) nodes
    → (ordered : List CallNode) × (topological_order nodes ≡ some ordered)
      × (in_order [] ordered ≡ true)
      × All (IsIndexed nodes) ordered
      × All (λ n. has_node ordered n.id ≡ true) nodes
unfolding topological_order in_order
topological_order-schedules nodes known acyclic distinct =
    let (ordered, e, s, kept, there) =
      visit_each-Extends nodes known acyclic (suc (length nodes)) nodes []
        (omega (arith, unvisited-le (ids nodes) [], length-ids nodes)) distinct
        (record { sorted = refl; indexed = tt }) in
    (ordered, e, s.sorted, s.indexed, there)

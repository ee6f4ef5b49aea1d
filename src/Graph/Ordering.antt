-- ===== src/Graph/Ordering.antt =====
-- src/call-executor.ts: lists of nodes in which every node follows its dependencies.
use superset_agent_orchestra.Base.{
  String, Bool, true, false, ◌&&◌, ◌||◌, not, none, some, List, [], ◌∷◌, ◌++◌, ◌≡◌, inl, inr, refl,
  sym, ap, ◌∙◌, any, all, arith, eq_iff, Bool-cases, Option-cases, ◌==◌, string_eq,
}
use mathlib.Core.List.{append-nil, append_assoc}
use superset_agent_orchestra.Graph.Json.{contains}
use superset_agent_orchestra.Graph.Schema.{CallNode}
use superset_agent_orchestra.Graph.Sets.{contains-tail}
use superset_agent_orchestra.Graph.Checker.{has_node}
use superset_agent_orchestra.Graph.Topology.{dependencies, last_by_id}

unfoldable pub is_ready : List CallNode → CallNode → Bool
is_ready seen n = all (has_node seen) (dependencies n) && not (has_node seen n.id)

unfoldable pub in_order : List CallNode → List CallNode → Bool
in_order seen [] = true
in_order seen (n ∷ ns) = is_ready seen n && in_order (seen ++ n ∷ []) ns

-- The node of the first id depends on the second.
unfoldable pub wants : List CallNode → String → String → Bool
wants nodes u v = elim (last_by_id u nodes) [ none ↦ false | some n ↦ contains (dependencies n) v ]

abbrev pub ids : List CallNode → List String
ids [] = []
ids (n ∷ ns) = n.id ∷ ids ns

-- It is the node that `byId` has for its id.
abbrev pub IsIndexed : List CallNode → CallNode → Type 0
IsIndexed nodes n = last_by_id n.id nodes ≡ some n

some_node : {a b : CallNode} → some a ≡ some b → a ≡ b
some_node e = cc

pub last_by_id-id :
    (id : String) (ns : List CallNode) (n : CallNode)
    → last_by_id id ns ≡ some n
    → (n.id ≡ id) × (contains (ids ns) id ≡ true)
unfolding last_by_id any
last_by_id-id id [] n e = absurd (ground arith)
last_by_id-id id (m ∷ ns) n e = elim (Option-cases (last_by_id id ns)) [
  | inr (m', f) ↦
      let same : some m' ≡ some n = rw (f, last_by_id) at e in
      let (here, listed) = last_by_id-id id ns n (f ∙ same) in
      (here, contains-tail m.id (ids ns) id listed)
  | inl f ↦ elim (Bool-cases (m.id == id)) [
    | inl y ↦
        let same : some m ≡ some n = rw (f, y, last_by_id) at e in
        let named : m.id ≡ id = (eq_iff m.id id).0 y in
        (ap (λ (c : CallNode). c.id) (some_node (sym same)) ∙ named, rw y refl)
    | inr y ↦ let no : none ≡ some n = rw (f, y, last_by_id) at e in absurd (cc)
  ]
]

and_assoc : (a b c : Bool) → a && (b && c) ≡ (a && b) && c
and_assoc a b c = ground arith

pub in_order-append :
    (seen xs : List CallNode) (n : CallNode)
    → in_order seen (xs ++ n ∷ []) ≡ in_order seen xs && is_ready (seen ++ xs) n
unfolding in_order
in_order-append seen [] n = rw append-nil (ground arith)
in_order-append seen (x ∷ xs) n =
    ap (λ b. is_ready seen x && b)
      (in_order-append (seen ++ x ∷ []) xs n
        ∙ ap (λ l. in_order (seen ++ x ∷ []) xs && is_ready l n) (append_assoc seen (x ∷ []) xs))
    ∙ and_assoc (is_ready seen x) (in_order (seen ++ x ∷ []) xs) (is_ready (seen ++ x ∷ xs) n)

pub has_node-append :
    (xs : List CallNode) (n : CallNode) (id : String)
    → has_node (xs ++ n ∷ []) id ≡ has_node xs id || n.id == id
unfolding has_node any
has_node-append [] n id = ground arith
has_node-append (x ∷ xs) n id = ground (arith, has_node-append xs n id)

pub has_node-last : (xs : List CallNode) (n : CallNode) → has_node (xs ++ n ∷ []) n.id ≡ true
has_node-last xs n = has_node-append xs n n.id ∙ ground (arith, eq_iff n.id n.id)

-- ===== src/Graph/Acyclic.antt =====
-- src/call-validator.ts: `detectCycles` reports a node exactly if the graph has a cycle.
use superset_agent_orchestra.Base.{
  ℕ, zero, suc, String, Bool, true, false, Option, none, some, List, [], ◌∷◌, ◌≡◌, ◌≢◌, ◌⊎◌, inl,
  inr, refl, ◌∙◌, any, arith, Bool-cases, Option-cases, ◌==◌, if◌then◌else◌, string_eq,
}
use superset_agent_orchestra.Graph.Json.{contains}
use superset_agent_orchestra.Graph.Sets.{contains-cons, contains-head, contains-tail, contains-nil}
use superset_agent_orchestra.Graph.Cycles.{
  Adjacency, edges, keys, proceed, walk_any, walk, walk_all,
}
use superset_agent_orchestra.Graph.Walks.{Grounded, HasCycle, Leads, edge, further, grounded, links}

module _ (adj : Adjacency) where
  -- A walk begins with an edge, to its end or to a node with a walk there.
  first_edge :
      {u w : String}
      → Leads (links adj) u w
      → (v : String) × (contains (edges adj u) v ≡ true) × ((v ≡ w) ⊎ Leads (links adj) v w)
  first_edge (edge {v} e) = (v, e, inl refl)
  first_edge (further {w} l e) =
      let (x, f, rest) = first_edge l in
      (x, f, elim rest [ inl same ↦ inr (edge (rw same e)) | inr m ↦ inr (further m e) ])

  pub Grounded-no_cycle : {u : String} → Grounded adj u → ¬ Leads (links adj) u u
  Grounded-no_cycle (grounded {u} g) l =
      let (v, e, rest) = first_edge l in
      Grounded-no_cycle (g v e) (elim rest [ inl same ↦ rw same l | inr m ↦ further m e ])

  proceed-clear :
      (r : Option (Bool × List String)) (next : List String → Option (Bool × List String))
      (seen : List String)
      → proceed r next ≡ some (false, seen)
      → (mid : List String) × (r ≡ some (false, mid)) × (next mid ≡ some (false, seen))
  proceed-clear none next seen e = absurd (ground arith)
  proceed-clear (some (true, mid)) next seen e = absurd (ground arith)
  proceed-clear (some (false, mid)) next seen e = (mid, refl, e)

  -- What holds of the visited nodes while the walk is at the end of the path `active`.
  abbrev Explored : List String → List String → Type 0
  Explored active visited =
      (x : String) → contains visited x ≡ true → (contains active x ≡ true) ⊎ Grounded adj x

  -- A walk that meets no cycle has gone through all that is below its nodes.
  abbrev Clears : List String → String → Option (Bool × List String) → Type 0
  Clears active node r =
      (seen : List String) → r ≡ some (false, seen) → Grounded adj node × Explored active seen

  abbrev ClearsAll : List String → List String → Option (Bool × List String) → Type 0
  ClearsAll active nodes r =
      (seen : List String)
      → r ≡ some (false, seen)
      → ((v : String) → contains nodes v ≡ true → Grounded adj v) × Explored active seen

  module _ (active : List String) (down : String → List String → Option (Bool × List String))
      (clears : (d : String) (visited : List String)
        → Explored active visited
        → Clears active d (down d visited)) where
    walk_any-Clears :
        (ds visited : List String)
        → Explored active visited
        → ClearsAll active ds (walk_any down ds visited)
    unfolding walk_any
    walk_any-Clears [] visited h seen e =
        let same : visited ≡ seen = ground arith in
        (λ v m. absurd (contains-nil v m), rw (← same) h)
    walk_any-Clears (d ∷ ds) visited h seen e =
        let (mid, f, g) = proceed-clear (down d visited) (λ v. walk_any down ds v) seen e in
        let (here, h') = clears d visited h mid f in
        let (rest, h'') = walk_any-Clears ds mid h' seen g in
        (
          λ v m. elim (contains-cons d ds v m) [ inl same ↦ rw (← same) here | inr n ↦ rest v n ],
          h'',
        )

  walk-clear :
      (fuel : ℕ) (active : List String) (node : String) (visited seen : List String)
      → walk (suc fuel) adj active node visited ≡ some (false, seen)
      → (contains active node ≡ false)
        × (((contains visited node ≡ true) × (visited ≡ seen))
            ⊎ (walk_any (walk fuel adj (node ∷ active)) (edges adj node) (node ∷ visited)
                ≡ some (false, seen)))
  unfolding walk
  walk-clear fuel active node visited seen e = elim (Bool-cases (contains active node)) [
    | inl y ↦ absurd (ground arith)
    | inr n ↦ (
      n,
      elim (Bool-cases (contains visited node)) [
        | inl old ↦ inl (old, ground arith)
        | inr new ↦ inr (rw (n, new, walk) at e)
      ],
    )
  ]

  walk-Clears :
      (fuel : ℕ) (active : List String) (node : String) (visited : List String)
      → Explored active visited
      → Clears active node (walk fuel adj active node visited)
  unfolding walk
  walk-Clears zero active node visited h seen e = absurd (ground arith)
  walk-Clears (suc fuel) active node visited h seen e =
      let (off_path, way) = walk-clear fuel active node visited seen e in
      elim way [
        | inl (old, same) ↦ (elim (h node old) [ inl m ↦ absurd (cc) | inr g ↦ g ], rw (← same) h)
        | inr down ↦
            let start : Explored (node ∷ active) (node ∷ visited) = λ x m.
              elim (contains-cons node visited x m) [
                | inl same ↦ inl (rw (← same) (contains-head node active))
                | inr m' ↦ elim (h x m') [
                  | inl a ↦ inl (contains-tail node active x a)
                  | inr g ↦ inr g
                ]
              ] in
            let (below, h') =
              walk_any-Clears (node ∷ active) (walk fuel adj (node ∷ active))
                (walk-Clears fuel (node ∷ active)) (edges adj node) (node ∷ visited) start seen
                down in
            let here : Grounded adj node = grounded below in
            (
              here,
              λ x m. elim (h' x m) [
                | inr g ↦ inr g
                | inl a ↦ elim (contains-cons node active x a) [
                  | inl same ↦ inr (rw (← same) here)
                  | inr a' ↦ inl a'
                ]
              ],
            )
      ]

  proceed-cycle :
      (r : Option (Bool × List String)) (next : List String → Option (Bool × List String))
      (seen : List String)
      → proceed r next ≡ some (true, seen)
      → (r ≡ some (true, seen))
        ⊎ ((mid : List String) × (r ≡ some (false, mid)) × (next mid ≡ some (true, seen)))
  proceed-cycle none next seen e = absurd (ground arith)
  proceed-cycle (some (true, mid)) next seen e = inl e
  proceed-cycle (some (false, mid)) next seen e = inr (mid, refl, e)

  -- Every node of the path has a walk to the node where the walk is.
  abbrev LeadTo : List String → String → Type 0
  LeadTo active node = (x : String) → contains active x ≡ true → Leads (links adj) x node

  walk_any-cycle :
      (down : String → List String → Option (Bool × List String)) (from : String)
      → ((d : String) (visited seen : List String)
          → contains (edges adj from) d ≡ true
          → down d visited ≡ some (true, seen)
          → HasCycle adj)
      → (ds visited seen : List String)
      → ((d : String) → contains ds d ≡ true → contains (edges adj from) d ≡ true)
      → walk_any down ds visited ≡ some (true, seen)
      → HasCycle adj
  unfolding walk_any
  walk_any-cycle down from found [] visited seen sub e = absurd (ground arith)
  walk_any-cycle down from found (d ∷ ds) visited seen sub e =
      elim (proceed-cycle (down d visited) (λ v. walk_any down ds v) seen e) [
        | inl f ↦ found d visited seen (sub d (contains-head d ds)) f
        | inr (mid, f, g) ↦
            walk_any-cycle down from found ds mid seen (λ x m. sub x (contains-tail d ds x m)) g
      ]

  walk-cycle :
      (fuel : ℕ) (active : List String) (node : String) (visited seen : List String)
      → LeadTo active node
      → walk fuel adj active node visited ≡ some (true, seen)
      → HasCycle adj
  unfolding walk
  walk-cycle zero active node visited seen h e = absurd (ground arith)
  walk-cycle (suc fuel) active node visited seen h e = elim (Bool-cases (contains active node)) [
    | inl y ↦ (node, h node y)
    | inr n ↦ elim (Bool-cases (contains visited node)) [
      | inl old ↦ absurd (ground arith)
      | inr new ↦
          walk_any-cycle (walk fuel adj (node ∷ active)) node
            (λ d v s f g.
              walk-cycle fuel (node ∷ active) d v s
                (λ x m. elim (contains-cons node active x m) [
                  | inl same ↦ rw (← same) (edge f)
                  | inr a ↦ further (h x a) f
                ])
                g)
            (edges adj node) (node ∷ visited) seen (λ d m. m) (rw (n, new, walk) at e)
    ]
  ]

  walk_all-cons :
      (fuel : ℕ) (k : String) (ks visited found : List String)
      → walk_all fuel adj (k ∷ ks) visited ≡ some found
      → (cyclic : Bool) × (seen reported : List String) × (walk fuel adj [] k visited
          ≡ some (cyclic, seen))
        × (walk_all fuel adj ks seen ≡ some reported)
        × (found ≡ (if cyclic then k ∷ reported else reported))
  unfolding walk_all
  walk_all-cons fuel k ks visited found e = elim (Option-cases (walk fuel adj [] k visited)) [
    | inl f ↦ let no : none ≡ some found = rw (f, walk_all) at e in absurd (cc)
    | inr ((cyclic, seen), f) ↦ elim (Option-cases (walk_all fuel adj ks seen)) [
      | inl g ↦ let no : none ≡ some found = rw (f, walk_all, g) at e in absurd (cc)
      | inr (reported, g) ↦
          let eq : some (if cyclic then k ∷ reported else reported) ≡ some found =
            rw (f, walk_all, g) at e in
          (cyclic, seen, reported, f, g, cc)
    ]
  ]

  -- What is reported is on a cycle's way.
  pub walk_all-cycle :
      (fuel : ℕ) (ks visited found : List String)
      → walk_all fuel adj ks visited ≡ some found
      → found ≢ []
      → HasCycle adj
  unfolding walk_all
  walk_all-cycle fuel [] visited found e ne = absurd (ne (ground arith))
  walk_all-cycle fuel (k ∷ ks) visited found e ne =
      go (walk_all-cons fuel k ks visited found e)
        (λ seen reported g ne'. walk_all-cycle fuel ks seen reported g ne')
    where
      go :
          ((cyclic : Bool) × (seen reported : List String) × (walk fuel adj [] k visited
              ≡ some (cyclic, seen))
            × (walk_all fuel adj ks seen ≡ some reported)
            × (found ≡ (if cyclic then k ∷ reported else reported)))
          → ((seen reported : List String)
              → walk_all fuel adj ks seen ≡ some reported
              → reported ≢ []
              → HasCycle adj)
          → HasCycle adj
      go (true, seen, reported, f, g, same) ih =
          walk-cycle fuel [] k visited seen (λ x m. absurd (contains-nil x m)) f
      go (false, seen, reported, f, g, same) ih = ih seen reported g (λ n. ne (same ∙ n))

  walk_all-Grounded :
      (fuel : ℕ) (ks visited : List String)
      → Explored [] visited
      → walk_all fuel adj ks visited ≡ some []
      → (k : String) → contains ks k ≡ true
      → Grounded adj k
  walk_all-Grounded fuel [] visited h e k m = absurd (contains-nil k m)
  walk_all-Grounded fuel (x ∷ ks) visited h e k m =
      go (walk_all-cons fuel x ks visited [] e)
        (λ seen h' g m'. walk_all-Grounded fuel ks seen h' g k m')
    where
      go :
          ((cyclic : Bool) × (seen reported : List String) × (walk fuel adj [] x visited
              ≡ some (cyclic, seen))
            × (walk_all fuel adj ks seen ≡ some reported)
            × ([] ≡ (if cyclic then x ∷ reported else reported)))
          → ((seen : List String)
              → Explored [] seen
              → walk_all fuel adj ks seen ≡ some []
              → contains ks k ≡ true
              → Grounded adj k)
          → Grounded adj k
      go (true, seen, reported, f, g, same) ih = absurd (cc)
      go (false, seen, reported, f, g, same) ih =
          let (here, h') = walk-Clears fuel [] x visited h seen f in
          elim (contains-cons x ks k m) [
            | inl same' ↦ rw (← same') here
            | inr m' ↦ ih seen h' (rw same g) m'
          ]

pub edges-key :
    (adj : Adjacency) (u v : String)
    → contains (edges adj u) v ≡ true
    → contains (keys adj) u ≡ true
unfolding edges any
edges-key [] u v m = absurd (contains-nil v m)
edges-key ((k, ids) ∷ rest) u v m = elim (Bool-cases (k == u)) [
  | inl y ↦ rw y refl
  | inr n ↦ rw n (edges-key rest u v (rw (n, edges) at m))
]

-- No report, no cycle.
pub all-Grounded :
    (adj : Adjacency) (fuel : ℕ)
    → walk_all fuel adj (keys adj) [] ≡ some []
    → (u : String) → Grounded adj u
all-Grounded adj fuel e u = grounded λ v m.
    below adj
      (walk_all-Grounded adj fuel (keys adj) [] (λ x n. absurd (contains-nil x n)) e u
        (edges-key adj u v m))
      v m
  where
    below :
        (adj : Adjacency) {u : String}
        → Grounded adj u
        → (v : String) → contains (edges adj u) v ≡ true
        → Grounded adj v
    below adj (grounded g) v m = g v m

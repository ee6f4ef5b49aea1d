-- ===== src/Graph/Terminates.antt =====
-- src/call-validator.ts: every walk of `detectCycles` ends, and what it reports is exact.
use superset_agent_orchestra.Base.{
  ℕ, zero, suc, ◌<◌, ◌≤◌, String, Bool, true, false, not, Option, some, List, [], ◌∷◌, ◌≡◌, ◌≢◌,
  ◌↔◌, inl, inr, refl, length, count, arith, Bool-cases, if◌then◌else◌, string_eq,
}
use superset_agent_orchestra.Graph.Json.{contains}
use superset_agent_orchestra.Graph.Sets.{contains-cons, contains-head, contains-tail, contains-nil}
use superset_agent_orchestra.Graph.Cycles.{
  Adjacency, edges, keys, proceed, walk_any, walk, walk_all, detect_cycles,
}
use superset_agent_orchestra.Graph.Acyclic.{
  edges-key, all-Grounded, Grounded-no_cycle, walk_all-cycle,
}
use superset_agent_orchestra.Graph.Walks.{Leads, links}

abbrev Grows : List String → List String → Type 0
Grows visited seen = (x : String) → contains visited x ≡ true → contains seen x ≡ true

pub unvisited : List String → List String → ℕ
unvisited ks visited = count (λ k. not (contains visited k)) ks

unvisited-Grows :
    (ks visited seen : List String) → Grows visited seen → unvisited ks seen ≤ unvisited ks visited
unfolding unvisited count
unvisited-Grows [] visited seen h = omega arith
unvisited-Grows (k ∷ ks) visited seen h = ground (arith, h k, unvisited-Grows ks visited seen h)

pub unvisited-cons :
    (ks visited : List String) (node : String)
    → contains visited node ≡ false
    → contains ks node ≡ true
    → unvisited ks (node ∷ visited) < unvisited ks visited
unfolding unvisited count
unvisited-cons [] visited node new m = absurd (contains-nil node m)
unvisited-cons (k ∷ ks) visited node new m =
    let rest =
      unvisited-Grows ks visited (node ∷ visited) (λ x n. contains-tail node visited x n) in
    elim (contains-cons k ks node m) [
      | inl same ↦ rw (same, new, contains-head node visited) (omega (arith, rest))
      | inr m' ↦
          let less = unvisited-cons ks visited node new m' in
          let here = contains-tail node visited k in ground (arith, here)
    ]

pub unvisited-le : (ks visited : List String) → unvisited ks visited ≤ length ks
unfolding unvisited count
unvisited-le [] visited = omega arith
unvisited-le (k ∷ ks) visited = ground (arith, unvisited-le ks visited)

-- The walk ends, and forgets no visited node.
abbrev Ends : List String → Option (Bool × List String) → Type 0
Ends visited r =
    (cyclic : Bool) × (seen : List String) × (r ≡ some (cyclic, seen)) × Grows visited seen

module _ (adj : Adjacency) where
  walk_any-Ends :
      (fuel : ℕ) (down : String → List String → Option (Bool × List String))
      → ((d : String) (visited : List String)
          → unvisited (keys adj) visited < fuel
          → Ends visited (down d visited))
      → (ds visited : List String)
      → ((d : String) → contains ds d ≡ true → unvisited (keys adj) visited < fuel)
      → Ends visited (walk_any down ds visited)
  unfolding walk_any
  walk_any-Ends fuel down ends [] visited h = (false, visited, refl, λ x m. m)
  walk_any-Ends fuel down ends (d ∷ ds) visited h =
      go (ends d visited (h d (contains-head d ds))) (λ seen g.
        walk_any-Ends fuel down ends ds seen (λ x m.
          let less = h x (contains-tail d ds x m) in
          omega (arith, unvisited-Grows (keys adj) visited seen g)))
    where
      go :
          Ends visited (down d visited)
          → ((seen : List String) → Grows visited seen → Ends seen (walk_any down ds seen))
          → Ends visited (proceed (down d visited) (λ seen. walk_any down ds seen))
      go (true, seen, e, g) rest = (true, seen, rw e, g)
      go (false, seen, e, g) rest =
          let (cyclic, seen', e', g') = rest seen g in (cyclic, seen', rw e e', λ x m. g' x (g x m))

  walk-Ends :
      (fuel : ℕ) (active : List String) (node : String) (visited : List String)
      → unvisited (keys adj) visited < fuel
      → Ends visited (walk fuel adj active node visited)
  unfolding walk
  walk-Ends zero active node visited h = absurd (omega arith)
  walk-Ends (suc fuel) active node visited h = elim (Bool-cases (contains active node)) [
    | inl y ↦ rw (y, walk) (true, visited, refl, λ x m. m)
    | inr n ↦ elim (Bool-cases (contains visited node)) [
      | inl old ↦ rw (n, old, walk) (false, visited, refl, λ x m. m)
      | inr new ↦
          let (cyclic, seen, e, g) =
            walk_any-Ends fuel (walk fuel adj (node ∷ active)) (walk-Ends fuel (node ∷ active))
              (edges adj node) (node ∷ visited)
              (λ d m.
                omega
                  (arith, unvisited-cons (keys adj) visited node new (edges-key adj node d m))) in
          rw (n, new, walk) (cyclic, seen, e, λ x m. g x (contains-tail node visited x m))
    ]
  ]

  walk_all-ends :
      (fuel : ℕ) (ks visited : List String)
      → unvisited (keys adj) visited < fuel
      → (found : List String) × (walk_all fuel adj ks visited ≡ some found)
  unfolding walk_all
  walk_all-ends fuel [] visited h = ([], refl)
  walk_all-ends fuel (k ∷ ks) visited h =
      let (cyclic, seen, e, g) = walk-Ends fuel [] k visited h in
      let (reported, e') =
        walk_all-ends fuel ks seen (omega (arith, unvisited-Grows (keys adj) visited seen g)) in
      ((if cyclic then k ∷ reported else reported), rw (e, walk_all, e'))

empty_unless : (found : List String) → ¬ (found ≢ []) → found ≡ []
empty_unless [] h = refl
empty_unless (x ∷ xs) h = absurd (h (λ e. cc))

-- detect_cycles comes to an end on every graph of dependencies, and it reports no node exactly if
-- no node of the graph leads back to itself.
pub detect_cycles-exact :
    (adj : Adjacency)
    → (found : List String) × (detect_cycles adj ≡ some found)
      × ((found ≡ []) ↔ ((u : String) → ¬ Leads (links adj) u u))
unfolding detect_cycles
detect_cycles-exact adj =
    let fuel = suc (length (keys adj)) in
    let (found, e) =
      walk_all-ends adj fuel (keys adj) [] (omega (arith, unvisited-le (keys adj) [])) in
    (
      found,
      e,
      (
        λ none_found u. Grounded-no_cycle adj (all-Grounded adj fuel (rw (none_found) at e) u),
        λ no_cycle. empty_unless found λ some_found.
            let (u, l) = walk_all-cycle adj fuel (keys adj) [] found e some_found in no_cycle u l,
      ),
    )

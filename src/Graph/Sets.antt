-- ===== src/Graph/Sets.antt =====
-- A set of texts as a list: membership of `contains`.
use superset_agent_orchestra.Base.{
  String, true, List, [], ◌∷◌, ◌++◌, ◌||◌, ◌≡◌, ◌⊎◌, inl, inr, any, refl, ap, subst, ◌∙◌,
  Bool-cases, arith, eq_iff, ◌==◌, string_eq,
}
use superset_agent_orchestra.Graph.Json.{contains}
use superset_agent_orchestra.Graph.Validate.{add}

pub contains-cons :
    (y : String) (xs : List String) (x : String)
    → contains (y ∷ xs) x ≡ true
    → (y ≡ x) ⊎ (contains xs x ≡ true)
unfolding any
contains-cons y xs x h = ground (arith, eq_iff y x)

pub contains-head : (x : String) (xs : List String) → contains (x ∷ xs) x ≡ true
unfolding any
contains-head x xs = ground (arith, eq_iff x x)

pub contains-tail :
    (y : String) (xs : List String) (x : String) → contains xs x ≡ true → contains (y ∷ xs) x ≡ true
unfolding any
contains-tail y xs x h = ground arith

pub contains-nil : (x : String) → ¬ (contains [] x ≡ true)
unfolding any
contains-nil x h = cc

pub contains-append :
    (xs ys : List String) (x : String) → contains (xs ++ ys) x ≡ contains xs x || contains ys x
unfolding any
contains-append [] ys x = refl
contains-append (y ∷ xs) ys x = ground (arith, contains-append xs ys x)

-- To add a member that is there changes nothing.
pub contains-known :
    (y : String) (xs : List String) (x : String)
    → contains xs y ≡ true
    → contains xs x ≡ contains xs x || y == x
contains-known y xs x old = elim (Bool-cases (y == x)) [
  | inl same ↦
      let old' : contains xs x ≡ true =
        subst (λ z. contains xs z ≡ true) ((eq_iff y x).0 same) old in
      rw old' refl
  | inr n ↦ rw n (ground arith)
]

contains-single : (y x : String) → contains (y ∷ []) x ≡ (y == x)
unfolding any
contains-single y x = ground arith

pub contains-add :
    (y : String) (xs : List String) (x : String) → contains (add y xs) x ≡ contains xs x || y == x
unfolding add
contains-add y xs x = elim (Bool-cases (contains xs y)) [
  | inl old ↦ rw old (contains-known y xs x old)
  | inr new ↦
      rw new (contains-append xs (y ∷ []) x ∙ ap (λ b. contains xs x || b) (contains-single y x))
]

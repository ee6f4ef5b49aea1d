-- ===== src/Base/Sorting.antt =====
-- `xs.sort`, with a test that says which of two rows goes first: the sort of JavaScript keeps the
-- order of the rows of which neither does.
use Prim.Native.Nat.{ℕ, zero, suc, min}
use mathlib.Core.Path.{◌≡◌, refl, ap}
use mathlib.Core.Logic.{inl, inr}
use mathlib.Core.Bool.{Bool, true, false}
use mathlib.Core.List.{List, [], ◌∷◌, ◌++◌, Perm}
use mathlib.Core.List.Perm
use native.Mathlib.Omega.{arith}
use superset_agent_orchestra.Base.Tests.{if◌then◌else◌, Bool-cases}
use superset_agent_orchestra.Base.Lists.{length, take, drop, select, count, All, Pairs, All-map}

module _ {ℓ} {A : Type ℓ} where
  unfoldable pub insert : (A → A → Bool) → A → List A → List A
  insert before x [] = x ∷ []
  insert before x (y ∷ ys) =
      let rest = insert before x ys in if before y x then y ∷ rest else x ∷ y ∷ ys

  unfoldable pub sort : (A → A → Bool) → List A → List A
  sort before [] = []
  sort before (x ∷ xs) = insert before x (sort before xs)

  insert-Perm : (before : A → A → Bool) (x : A) (ys : List A) → Perm (insert before x ys) (x ∷ ys)
  unfolding insert
  insert-Perm before x [] = Perm.refl (x ∷ [])
  insert-Perm before x (y ∷ ys) = elim (Bool-cases (before y x)) [
    | inl e ↦ rw e (Perm.trans (Perm.cons y (insert-Perm before x ys)) (Perm.swap x y ys))
    | inr e ↦ rw e (Perm.refl (x ∷ y ∷ ys))
  ]

  -- Sorting keeps every row, as often as it is there.
  pub sort-Perm : (before : A → A → Bool) (xs : List A) → Perm (sort before xs) xs
  unfolding sort
  sort-Perm before [] = Perm.refl []
  sort-Perm before (x ∷ xs) =
      Perm.trans (insert-Perm before x (sort before xs)) (Perm.cons x (sort-Perm before xs))

  pub take-drop : (n : ℕ) (xs : List A) → take n xs ++ drop n xs ≡ xs
  take-drop zero xs = refl
  take-drop (suc n) [] = refl
  take-drop (suc n) (x ∷ xs) = ap (λ r. x ∷ r) (take-drop n xs)

  pub length-take : (n : ℕ) (xs : List A) → length (take n xs) ≡ min n (length xs)
  length-take zero xs = omega arith
  length-take (suc n) [] = omega arith
  length-take (suc n) (x ∷ xs) = omega (arith, length-take n xs)

  pub length-select : (p : A → Bool) (xs : List A) → length (select p xs) ≡ count p xs
  unfolding select count
  length-select p [] = refl
  length-select p (x ∷ xs) = elim (Bool-cases (p x)) [
    | inl e ↦ rw e (omega (arith, length-select p xs))
    | inr e ↦ rw e (omega (arith, length-select p xs))
  ]

  insert-length :
      (before : A → A → Bool) (x : A) (ys : List A) → length (insert before x ys) ≡ suc (length ys)
  unfolding insert
  insert-length before x [] = refl
  insert-length before x (y ∷ ys) = elim (Bool-cases (before y x)) [
    | inl e ↦ rw e (ap suc (insert-length before x ys))
    | inr e ↦ rw e refl
  ]

  pub length-sort : (before : A → A → Bool) (xs : List A) → length (sort before xs) ≡ length xs
  unfolding sort
  length-sort before [] = refl
  length-sort before (x ∷ xs) =
      omega (arith, insert-length before x (sort before xs), length-sort before xs)

-- An order that the test decides: sorted rows follow it.
module _ {ℓ κ} {A : Type ℓ} (R : A → A → Type κ) (before : A → A → Bool)
    (then_R : (x y : A) → before x y ≡ true → R x y)
    (else_R : (x y : A) → before x y ≡ false → R y x)
    (compose : (x y z : A) → R x y → R y z → R x z) where
  insert-All : (a x : A) (ys : List A) → R a x → All (R a) ys → All (R a) (insert before x ys)
  unfolding insert
  insert-All a x [] r h = (r, h)
  insert-All a x (y ∷ ys) r h = elim (Bool-cases (before y x)) [
    | inl e ↦ rw e (h.0, insert-All a x ys r h.1)
    | inr e ↦ rw e (r, h)
  ]

  insert-Pairs : (x : A) (ys : List A) → Pairs R ys → Pairs R (insert before x ys)
  unfolding insert
  insert-Pairs x [] h = (tt, h)
  insert-Pairs x (y ∷ ys) h = elim (Bool-cases (before y x)) [
    | inl e ↦ rw e (insert-All y x ys (then_R y x e) h.0, insert-Pairs x ys h.1)
    | inr e ↦
        let r = else_R y x e in rw e ((r, All-map (R y) (R x) (λ z s. compose x y z r s) ys h.0), h)
  ]

  pub sort-Pairs : (xs : List A) → Pairs R (sort before xs)
  unfolding sort
  sort-Pairs [] = tt
  sort-Pairs (x ∷ xs) = insert-Pairs x (sort before xs) (sort-Pairs xs)

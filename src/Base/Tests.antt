-- ===== src/Base/Tests.antt =====
-- Boolean tests, the class of types that the code compares with `===`, and case lemmas.
use Prim.Native.Nat.{ℕ, compare, Ordering}
use Prim.Native.String.{String}
use mathlib.Core.Path.{◌≡◌, refl}
use mathlib.Core.Logic.{◌⊎◌, inl, inr, ◌↔◌}
use mathlib.Core.Bool.{Bool, true, false}
use mathlib.Core.Option.{Option, none, some}
use native.Mathlib.Omega.{arith}
use text.Mathlib.Text.{◌==◌ as str_eq}
use text.Mathlib.TextEquality.{eq_iff}

abbrev pub ltb : ℕ → ℕ → Bool
ltb a b = elim (compare a b) [ Ordering.lt ↦ true | _ ↦ false ]

abbrev pub leb : ℕ → ℕ → Bool
leb a b = elim (compare a b) [ Ordering.gt ↦ false | _ ↦ true ]

abbrev nat_beq : ℕ → ℕ → Bool
nat_beq a b = elim (compare a b) [ Ordering.eq ↦ true | _ ↦ false ]

pub nat_beq_iff : (a b : ℕ) → (nat_beq a b ≡ true) ↔ (a ≡ b)
nat_beq_iff a b = ground arith

infix 50 ◌==◌
infix 1 if◌then◌else◌
abbrev pub if◌then◌else◌ {ℓ} : {A : Type ℓ} → Bool → A → A → A
if true then x else y = x
if false then x else y = y

-- The types whose values the code compares with `===`; the test decides equality.
pub record Comparable {ℓ} (X : Type ℓ) : Type ℓ where
  pub equals : X → X → Bool
  pub equals_iff : (x y : X) → (equals x y ≡ true) ↔ (x ≡ y)

instance abbrev pub string_eq : Comparable String
string_eq = record { equals_iff = eq_iff; equals = str_eq }

abbrev option_beq : Option String → Option String → Bool
option_beq none none = true
option_beq (some a) (some b) = str_eq a b
option_beq _ _ = false

pub option_beq_iff : (a b : Option String) → (option_beq a b ≡ true) ↔ (a ≡ b)
option_beq_iff none none = ground arith
option_beq_iff none (some b) = ground arith
option_beq_iff (some a) none = ground arith
option_beq_iff (some a) (some b) = ground (arith, eq_iff a b)

instance abbrev pub option_string_eq : Comparable (Option String)
option_string_eq = record { equals = option_beq; equals_iff = option_beq_iff }

abbrev option_nat_beq : Option ℕ → Option ℕ → Bool
option_nat_beq none none = true
option_nat_beq (some a) (some b) = nat_beq a b
option_nat_beq _ _ = false

pub option_nat_beq_iff : (a b : Option ℕ) → (option_nat_beq a b ≡ true) ↔ (a ≡ b)
option_nat_beq_iff none none = ground arith
option_nat_beq_iff none (some b) = ground arith
option_nat_beq_iff (some a) none = ground arith
option_nat_beq_iff (some a) (some b) = ground arith

instance abbrev pub option_nat_eq : Comparable (Option ℕ)
option_nat_eq = record { equals = option_nat_beq; equals_iff = option_nat_beq_iff }

instance abbrev pub nat_eq : Comparable ℕ
nat_eq = record { equals_iff = nat_beq_iff; equals = nat_beq }

abbrev pub ◌==◌ {ℓ} : {X : Type ℓ} ⦃c : Comparable X⦄ → X → X → Bool
◌==◌ ⦃c⦄ x y = c.equals x y

-- To split on a computed value and keep the equation.
pub Bool-cases : (b : Bool) → (b ≡ true) ⊎ (b ≡ false)
Bool-cases true = inl refl
Bool-cases false = inr refl

pub Option-cases {ℓ} : {A : Type ℓ} (o : Option A) → (o ≡ none) ⊎ ((a : A) × (o ≡ some a))
Option-cases none = inl refl
Option-cases (some a) = inr (a, refl)

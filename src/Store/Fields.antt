-- ===== src/Store/Fields.antt =====
-- src/store.ts: the canonical array of an audit event tells every event from every other.
use superset_agent_orchestra.Base.{
  String, ◌≡◌, ◌≢◌, refl, ap, Bool, true, false, ◌&&◌, Option, none, some, List, [], ◌∷◌, ◌==◌,
  nat_eq, string_eq, arith, eq_iff,
}
use superset_agent_orchestra.Store.Audit.{
  AuditDecision, allowed, denied, failed, AuditBody, Field, text, number, instant, null, field?,
  decision_text, canonical,
}

field_eq : Field → Field → Bool
field_eq (text s) (text t) = s == t
field_eq (number m) (number n) = m == n
field_eq (instant m) (instant n) = m == n
field_eq null null = true
field_eq _ _ = false

-- Two different lists of fields with one digest.
pub record Collision (digest : List Field → String) : Type 0 where
  pub left : List Field
  pub right : List Field
  pub differ : left ≢ right
  pub same : digest left ≡ digest right

pub fields_eq : List Field → List Field → Bool
unfolding field_eq
fields_eq [] [] = true
fields_eq (x ∷ xs) (y ∷ ys) = field_eq x y && fields_eq xs ys
fields_eq _ _ = false

pub fields_eq_refl : (xs : List Field) → fields_eq xs xs ≡ true
unfolding fields_eq field_eq
fields_eq_refl [] = refl
fields_eq_refl (text s ∷ xs) = ground (arith, fields_eq_refl xs, eq_iff s s)
fields_eq_refl (number n ∷ xs) = ground (arith, fields_eq_refl xs)
fields_eq_refl (instant n ∷ xs) = ground (arith, fields_eq_refl xs)
fields_eq_refl (null ∷ xs) = ground (arith, fields_eq_refl xs)

field_eq_sound : (x y : Field) → field_eq x y ≡ true → x ≡ y
unfolding field_eq
field_eq_sound (text s) (text t) e = ap text ((eq_iff s t).0 e)
field_eq_sound (number m) (number n) e = ap number (ground (arith, e))
field_eq_sound (instant m) (instant n) e = ap instant (ground (arith, e))
field_eq_sound null null e = refl
field_eq_sound (text s) (number n) e = absurd (ground (arith, e))
field_eq_sound (text s) (instant n) e = absurd (ground (arith, e))
field_eq_sound (text s) null e = absurd (ground (arith, e))
field_eq_sound (number m) (text t) e = absurd (ground (arith, e))
field_eq_sound (number m) (instant n) e = absurd (ground (arith, e))
field_eq_sound (number m) null e = absurd (ground (arith, e))
field_eq_sound (instant m) (text t) e = absurd (ground (arith, e))
field_eq_sound (instant m) (number n) e = absurd (ground (arith, e))
field_eq_sound (instant m) null e = absurd (ground (arith, e))
field_eq_sound null (text t) e = absurd (ground (arith, e))
field_eq_sound null (number n) e = absurd (ground (arith, e))
field_eq_sound null (instant n) e = absurd (ground (arith, e))

pub fields_eq_sound : (xs ys : List Field) → fields_eq xs ys ≡ true → xs ≡ ys
unfolding fields_eq
fields_eq_sound [] [] e = refl
fields_eq_sound [] (y ∷ ys) e = absurd (ground (arith, e))
fields_eq_sound (x ∷ xs) [] e = absurd (ground (arith, e))
fields_eq_sound (x ∷ xs) (y ∷ ys) e =
    let p : x ≡ y = field_eq_sound x y (ground (arith, e)) in
    let q : xs ≡ ys = fields_eq_sound xs ys (ground (arith, e)) in cc

option_injective : (a b : Option String) → field? a ≡ field? b → a ≡ b
option_injective none none e = refl
option_injective none (some b) e = absurd (ground (arith, e))
option_injective (some a) none e = absurd (ground (arith, e))
option_injective (some a) (some b) e = ground (arith, e)

decision_injective : (a b : AuditDecision) → text (decision_text a) ≡ text (decision_text b) → a ≡ b
decision_injective allowed allowed e = refl
decision_injective allowed denied e = absurd (ground (arith, e, eq_iff "allowed" "denied"))
decision_injective allowed failed e = absurd (ground (arith, e, eq_iff "allowed" "failed"))
decision_injective denied allowed e = absurd (ground (arith, e, eq_iff "denied" "allowed"))
decision_injective denied denied e = refl
decision_injective denied failed e = absurd (ground (arith, e, eq_iff "denied" "failed"))
decision_injective failed allowed e = absurd (ground (arith, e, eq_iff "failed" "allowed"))
decision_injective failed denied e = absurd (ground (arith, e, eq_iff "failed" "denied"))
decision_injective failed failed e = refl

-- The canonical array determines the event: nothing that is audited is left out of the hash.
pub canonical_injective : (a b : AuditBody) → canonical a ≡ canonical b → a ≡ b
unfolding canonical
canonical_injective a b e = ground (
  arith,
  e,
  option_injective a.workspace_id b.workspace_id,
  option_injective a.project_id b.project_id,
  option_injective a.assignment_id b.assignment_id,
  decision_injective a.decision b.decision,
)

-- ===== src/Graph/Conformance.antt =====
-- src/call-validator.ts: what an argument must be for `validateValue` to report no error.
use superset_agent_orchestra.Base.{
  ℕ, ◌+◌, String, ◌<>◌, Bool, true, false, ◌&&◌, ◌||◌, not, Option, none, some, List, [], ◌∷◌, ◌++◌,
  ◌≡◌, refl, ◌∙◌, inl, inr, any, all, arith, Bool-cases, Option-cases,
}
use superset_agent_orchestra.Graph.Json.{
  Value, null, boolean, number, string, array, object, Items, nil, item, Fields, end, field,
  has_property, reference_of,
}
use superset_agent_orchestra.Graph.Schema.{
  Kind, Schema, Element, unchecked, each, rules, properties, element, property_schema, tool_named,
  node_by_id, DiagnosticId, is_error, Diagnostic, has_error,
}
use superset_agent_orchestra.Graph.Compatible.{matches_type, is_kind}
use superset_agent_orchestra.Graph.Validate
use superset_agent_orchestra.Graph.Validate.{
  Scope, Report, note, report, depend_on, output_fits, validate_reference, in_options, has_format,
  validate_plain, enter, validate_required, validate_unknown, validate_value, validate_items,
  validate_fields,
}

-- A reference names a node whose tool has an output that fits.
unfoldable pub reference_fits : Scope → String → Schema → Bool
reference_fits sc id s = elim (node_by_id id sc.nodes) [
  | none ↦ false
  | some source ↦ output_fits (tool_named source.tool sc.tools) s
]

-- A reference fits; any other value has the type, the options and the format, and is right inside.
unfoldable pub admits : Scope → Value → Schema → Bool → Bool
admits sc v s inside = elim (reference_of v) [
  | some id ↦ reference_fits sc id s
  | none ↦
      matches_type v (rules s).kind
      && in_options (rules s).options v
      && has_format sc.parses_url (rules s).format v
      && inside
]

abbrev pub for_element : (Schema → Bool) → Element → Bool
for_element test unchecked = true
for_element test (each s) = test s

abbrev pub for_property : (Schema → Bool) → Bool → Option Schema → Bool
for_property test unknown none = unknown
for_property test unknown (some s) = test s

-- The value conforms to the schema: no diagnostic, order or dependency is in sight.
unfoldable mutual
  pub conforms : Scope → Value → Schema → Bool
  conforms sc (array xs) s = admits sc (array xs) s (
      let inside = items_conform sc xs (element s) in
      not (is_kind Kind.array (rules s).kind) || inside)
  conforms sc (object fs) s = admits sc (object fs) s (
      let inside = fields_conform sc fs s in
      not (is_kind Kind.object (rules s).kind)
      || (all (λ key. has_property key fs) (rules s).required && inside))
  conforms sc null s = admits sc null s true
  conforms sc (boolean b) s = admits sc (boolean b) s true
  conforms sc (number n) s = admits sc (number n) s true
  conforms sc (string t) s = admits sc (string t) s true

  pub items_conform : Scope → Items → Element → Bool
  items_conform sc nil e = true
  items_conform sc (item v rest) e = for_element (conforms sc v) e && items_conform sc rest e

  pub fields_conform : Scope → Fields → Schema → Bool
  fields_conform sc end s = true
  fields_conform sc (field k v rest) s =
      for_property (conforms sc v) (not (rules s).closed) (property_schema k (properties s))
      && fields_conform sc rest s

abbrev pub failed : Report → Bool
failed st = has_error st.diagnostics

pub has_error-append :
    (xs ys : List Diagnostic) → has_error (xs ++ ys) ≡ has_error xs || has_error ys
unfolding has_error any
has_error-append [] ys = refl
has_error-append (x ∷ xs) ys = ground (arith, has_error-append xs ys)

has_error-single : (d : Diagnostic) → has_error (d ∷ []) ≡ is_error d.id
unfolding has_error any
has_error-single d = ground arith

pub has_error-note :
    (n : Option String) (id : DiagnosticId) (p m : String) (ds : List Diagnostic)
    → has_error (note n id p m ds) ≡ has_error ds || is_error id
unfolding note
has_error-note n id p m ds =
    let d : Diagnostic = record { id = id; node_id = n; path = p; message = m } in
    rw (has_error-append ds (d ∷ []), has_error-single d)

failed-report :
    (n : Option String) (id : DiagnosticId) (p m : String) (st : Report)
    → failed (report n id p m st) ≡ failed st || is_error id
failed-report n id p m st = has_error-note n id p m st.diagnostics

failed-depend_on :
    (sc : Scope) (id path : String) (st : Report) → failed (depend_on sc id path st) ≡ failed st
unfolding depend_on
failed-depend_on sc id path st = ground (
  arith,
  failed-report (some sc.node_id) DiagnosticId.implicit_dependency path
      ("reference " <> id <> " should be declared in dependsOn") st,
)

failed-validate_reference :
    (sc : Scope) (id : String) (s : Schema) (path : String) (st : Report)
    → failed (validate_reference sc id s path st) ≡ failed st || not (reference_fits sc id s)
unfolding validate_reference has_error reference_fits
failed-validate_reference sc id s path st = elim (Option-cases (node_by_id id sc.nodes)) [
  | inl e ↦ rw (e, validate_reference, reference_fits) (failed-report _ _ _ _ st)
  | inr (source, e) ↦
      rw (e, validate_reference, reference_fits)
        (elim (Bool-cases (output_fits (tool_named source.tool sc.tools) s)) [
          | inl y ↦ rw (y, failed-depend_on) (ground arith)
          | inr n ↦ rw (n, has_error-note, failed-depend_on) (ground arith)
        ])
]

failed-validate_plain :
    (sc : Scope) (v : Value) (s : Schema) (path : String) (st : Report)
    → failed (validate_plain sc v s path st)
      ≡ failed st
        || not (in_options (rules s).options v && has_format sc.parses_url (rules s).format v)
unfolding validate_plain
failed-validate_plain sc v s path st = elim (Bool-cases (in_options (rules s).options v)) [
  | inl y ↦ elim (Bool-cases (has_format sc.parses_url (rules s).format v)) [
    | inl y' ↦ rw (y, y') (ground arith)
    | inr n' ↦ rw (y, n', has_error-note) (ground arith)
  ]
  | inr n ↦ elim (Bool-cases (has_format sc.parses_url (rules s).format v)) [
    | inl y' ↦ rw (n, y', has_error-note) (ground arith)
    | inr n' ↦ rw (n, n', has_error-note) (ground arith)
  ]
]

module _ (sc : Scope) (path : String) where
  failed-enter :
      (v : Value) (s : Schema) (inside : Report → Report) (b : Bool) (st : Report)
      → ((st : Report) → failed (inside st) ≡ failed st || not b)
      → failed (enter sc v s path inside st) ≡ failed st || not (admits sc v s b)
  unfolding enter has_error admits
  failed-enter v s inside b st h = elim (Option-cases (reference_of v)) [
    | inr (id, e) ↦ rw (e, enter, admits) (failed-validate_reference sc id s path st)
    | inl e ↦
        rw (e, enter, admits)
          (elim (Bool-cases (matches_type v (rules s).kind)) [
            | inl y ↦
                rw (y, h (validate_plain sc v s path st), failed-validate_plain) (ground arith)
            | inr n ↦ rw (n, has_error-note) (ground arith)
          ])
  ]

  failed-validate_required :
      (keys : List String) (fs : Fields) (st : Report)
      → failed (validate_required sc keys fs path st)
        ≡ failed st || not (all (λ key. has_property key fs) keys)
  unfolding validate_required all
  failed-validate_required [] fs st = ground arith
  failed-validate_required (k ∷ ks) fs st =
      failed-validate_required ks fs _ ∙ elim (Bool-cases (has_property k fs)) [
        | inl y ↦ rw y refl
        | inr n ↦ rw (n, has_error-note) (ground arith)
      ]

failed-validate_unknown :
    (sc : Scope) (s : Schema) (path : String) (st : Report)
    → failed (validate_unknown sc s path st) ≡ failed st || not (not (rules s).closed)
unfolding validate_unknown
failed-validate_unknown sc s path st = elim (Bool-cases (rules s).closed) [
  | inl y ↦ rw (y, has_error-note) (ground arith)
  | inr n ↦ rw n (ground arith)
]

-- Two checks one after the other.
failed-both : (a b c p q : Bool) → a ≡ b || not q → b ≡ c || not p → a ≡ c || not (p && q)
failed-both a b c p q h k = ground arith

failed-for_property :
    (check : Schema → Report → Report) (unknown : Report → Report) (test : Schema → Bool) (b : Bool)
    → ((s : Schema) (st : Report) → failed (check s st) ≡ failed st || not (test s))
    → ((st : Report) → failed (unknown st) ≡ failed st || not b)
    → (o : Option Schema) (st : Report)
    → failed (Validate.for_property check unknown o st) ≡ failed st || not (for_property test b o)
failed-for_property check unknown test b known none_known none st = none_known st
failed-for_property check unknown test b known none_known (some s) st = known s st

-- The diagnostics hold an error after the check exactly if they did before, or the value does not
-- conform.
mutual
  unfolding validate_value conforms

  pub failed-value :
      (sc : Scope) (v : Value) (s : Schema) (path : String) (st : Report)
      → failed (validate_value sc v s path st) ≡ failed st || not (conforms sc v s)
  failed-value sc null s path st =
      failed-enter sc path null s (λ checked. checked) true st (λ checked. ground arith)
  failed-value sc (boolean b) s path st =
      failed-enter sc path (boolean b) s (λ checked. checked) true st (λ checked. ground arith)
  failed-value sc (number n) s path st =
      failed-enter sc path (number n) s (λ checked. checked) true st (λ checked. ground arith)
  failed-value sc (string t) s path st =
      failed-enter sc path (string t) s (λ checked. checked) true st (λ checked. ground arith)
  failed-value sc (array xs) s path st = failed-enter sc path (array xs) s _ _ st λ checked.
      let inside = failed-items sc xs (element s) path 0 checked in
      elim (Bool-cases (is_kind Kind.array (rules s).kind)) [
        | inl y ↦ rw y inside
        | inr n ↦ rw n (ground arith)
      ]
  failed-value sc (object fs) s path st = failed-enter sc path (object fs) s _ _ st λ checked.
      let wanted = failed-validate_required sc path (rules s).required fs checked in
      let inside =
        failed-fields sc fs s path (validate_required sc (rules s).required fs path checked) in
      elim (Bool-cases (is_kind Kind.object (rules s).kind)) [
        | inl y ↦ rw y (failed-both _ _ _ _ _ inside wanted)
        | inr n ↦ rw n (ground arith)
      ]

  failed-items :
      (sc : Scope) (xs : Items) (e : Element) (path : String) (i : ℕ) (st : Report)
      → failed (validate_items sc xs e path i st) ≡ failed st || not (items_conform sc xs e)
  failed-items sc nil e path i st = ground arith
  failed-items sc (item v rest) unchecked path i st = failed-items sc rest unchecked path (i + 1) st
  failed-items sc (item v rest) (each s) path i st =
      failed-both _ _ _ _ _ (failed-items sc rest (each s) path (i + 1) _)
        (failed-value sc v s _ st)

  failed-fields :
      (sc : Scope) (fs : Fields) (s : Schema) (path : String) (st : Report)
      → failed (validate_fields sc fs s path st) ≡ failed st || not (fields_conform sc fs s)
  failed-fields sc end s path st = ground arith
  failed-fields sc (field k v rest) s path st =
      failed-both _ _ _ _ _ (failed-fields sc rest s path _) (
        failed-for_property _ _ (conforms sc v) (not (rules s).closed)
          (λ child checked. failed-value sc v child (path <> "." <> k) checked)
          (failed-validate_unknown sc s (path <> "." <> k)) (property_schema k (properties s)) st)

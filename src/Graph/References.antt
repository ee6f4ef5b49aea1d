-- ===== src/Graph/References.antt =====
-- src/call-validator.ts: the dependencies that `validateValue` adds for the references in a value.
-- It looks only where the schema describes the value: a reference inside a field that the schema
-- does not name, or in a value without a type, is not seen.
use superset_agent_orchestra.Base.{
  ℕ, ◌+◌, String, ◌<>◌, Bool, true, false, ◌&&◌, ◌||◌, Option, none, some, List, [], ◌∷◌, ◌≡◌, refl,
  ap, ◌∙◌, inl, inr, arith, Bool-cases, Option-cases, ◌==◌, string_eq,
}
use superset_agent_orchestra.Graph.Json.{
  Value, null, boolean, number, string, array, object, Items, nil, item, Fields, end, field,
  contains, reference_of, has_property,
}
use superset_agent_orchestra.Graph.Schema.{
  Kind, Schema, Element, unchecked, each, rules, properties, element, property_schema, tool_named,
  CallNode, node_by_id,
}
use superset_agent_orchestra.Graph.Sets.{contains-known, contains-add}
use superset_agent_orchestra.Graph.Compatible.{matches_type, is_kind}
use superset_agent_orchestra.Graph.Validate
use superset_agent_orchestra.Graph.Validate.{
  Scope, Report, report, add, depend_on, output_fits, validate_reference, in_options, has_format,
  validate_plain, enter, validate_required, validate_unknown, validate_value, validate_items,
  validate_fields,
}

abbrev pub is_node : Option CallNode → Bool
is_node none = false
is_node (some _) = true

-- A reference to a node counts, and what is inside a value of the right type.
unfoldable pub sees : Scope → Value → Schema → String → Bool → Bool
sees sc v s id inside = elim (reference_of v) [
  | some r ↦ is_node (node_by_id r sc.nodes) && r == id
  | none ↦ matches_type v (rules s).kind && inside
]

abbrev pub in_element : (Schema → Bool) → Element → Bool
in_element test unchecked = false
in_element test (each s) = test s

abbrev pub in_property : (Schema → Bool) → Option Schema → Bool
in_property test none = false
in_property test (some s) = test s

-- The value refers to the node at a place that the schema describes.
unfoldable mutual
  pub refers : Scope → Value → Schema → String → Bool
  refers sc (array xs) s id =
      sees sc (array xs) s id (
        let inside = items_refer sc xs (element s) id in
        is_kind Kind.array (rules s).kind && inside)
  refers sc (object fs) s id =
      sees sc (object fs) s id
        (let inside = fields_refer sc fs s id in is_kind Kind.object (rules s).kind && inside)
  refers sc null s id = sees sc null s id false
  refers sc (boolean b) s id = sees sc (boolean b) s id false
  refers sc (number n) s id = sees sc (number n) s id false
  refers sc (string t) s id = sees sc (string t) s id false

  pub items_refer : Scope → Items → Element → String → Bool
  items_refer sc nil e id = false
  items_refer sc (item v rest) e id =
      in_element (λ s. refers sc v s id) e || items_refer sc rest e id

  pub fields_refer : Scope → Fields → Schema → String → Bool
  fields_refer sc end s id = false
  fields_refer sc (field k v rest) s id =
      in_property (λ child. refers sc v child id) (property_schema k (properties s))
      || fields_refer sc rest s id

abbrev pub has : Report → String → Bool
has st id = contains st.dependencies id

has-depend_on :
    (sc : Scope) (r path : String) (st : Report) (id : String)
    → has (depend_on sc r path st) id ≡ has st id || r == id
unfolding depend_on
has-depend_on sc r path st id = elim (Bool-cases (contains st.dependencies r)) [
  | inl old ↦ rw old (contains-known r st.dependencies id old)
  | inr new ↦ rw new (contains-add r st.dependencies id)
]

has-validate_reference :
    (sc : Scope) (r : String) (s : Schema) (path : String) (st : Report) (id : String)
    → has (validate_reference sc r s path st) id
      ≡ has st id || (is_node (node_by_id r sc.nodes) && r == id)
unfolding validate_reference
has-validate_reference sc r s path st id = elim (Option-cases (node_by_id r sc.nodes)) [
  | inl e ↦ rw (e, validate_reference) (ground arith)
  | inr (source, e) ↦
      rw (e, validate_reference)
        (elim (Bool-cases (output_fits (tool_named source.tool sc.tools) s)) [
          | inl y ↦ rw y (has-depend_on sc r path st id)
          | inr n ↦ rw n (has-depend_on sc r path st id)
        ])
]

has-validate_plain :
    (sc : Scope) (v : Value) (s : Schema) (path : String) (st : Report) (id : String)
    → has (validate_plain sc v s path st) id ≡ has st id
unfolding validate_plain
has-validate_plain sc v s path st id = ground arith

has-validate_required :
    (sc : Scope) (path : String) (keys : List String) (fs : Fields) (st : Report) (id : String)
    → has (validate_required sc keys fs path st) id ≡ has st id
unfolding validate_required
has-validate_required sc path [] fs st id = refl
has-validate_required sc path (k ∷ ks) fs st id =
    has-validate_required sc path ks fs _ id
    ∙ elim (Bool-cases (has_property k fs)) [ inl y ↦ rw y | inr n ↦ rw n ]

has-validate_unknown :
    (sc : Scope) (s : Schema) (path : String) (st : Report) (id : String)
    → has (validate_unknown sc s path st) id ≡ has st id
unfolding validate_unknown
has-validate_unknown sc s path st id = elim (Bool-cases (rules s).closed) [
  | inl y ↦ rw y
  | inr n ↦ rw n
]

has-enter :
    (sc : Scope) (path : String) (v : Value) (s : Schema) (inside : Report → Report) (b : Bool)
    (st : Report) (id : String)
    → ((st : Report) → has (inside st) id ≡ has st id || b)
    → has (enter sc v s path inside st) id ≡ has st id || sees sc v s id b
unfolding enter sees
has-enter sc path v s inside b st id h = elim (Option-cases (reference_of v)) [
  | inr (r, e) ↦ rw (e, enter, sees) (has-validate_reference sc r s path st id)
  | inl e ↦
      rw (e, enter, sees)
        (elim (Bool-cases (matches_type v (rules s).kind)) [
          | inl y ↦ rw (y, h (validate_plain sc v s path st), has-validate_plain)
          | inr n ↦ rw n (ground arith)
        ])
]

has-both : (a b c p q : Bool) → a ≡ b || q → b ≡ c || p → a ≡ c || (p || q)
has-both a b c p q h k = ground arith

has-for_property :
    (check : Schema → Report → Report) (unknown : Report → Report) (test : Schema → Bool)
    (id : String)
    → ((s : Schema) (st : Report) → has (check s st) id ≡ has st id || test s)
    → ((st : Report) → has (unknown st) id ≡ has st id)
    → (o : Option Schema) (st : Report)
    → has (Validate.for_property check unknown o st) id ≡ has st id || in_property test o
has-for_property check unknown test id known none_known none st = none_known st ∙ ground arith
has-for_property check unknown test id known none_known (some s) st = known s st

-- After the check the node depends on what it did before, and on what the value refers to.
mutual
  unfolding validate_value refers

  pub has-value :
      (sc : Scope) (v : Value) (s : Schema) (path : String) (st : Report) (id : String)
      → has (validate_value sc v s path st) id ≡ has st id || refers sc v s id
  has-value sc null s path st id =
      has-enter sc path null s (λ checked. checked) false st id (λ checked. ground arith)
  has-value sc (boolean b) s path st id =
      has-enter sc path (boolean b) s (λ checked. checked) false st id (λ checked. ground arith)
  has-value sc (number n) s path st id =
      has-enter sc path (number n) s (λ checked. checked) false st id (λ checked. ground arith)
  has-value sc (string t) s path st id =
      has-enter sc path (string t) s (λ checked. checked) false st id (λ checked. ground arith)
  has-value sc (array xs) s path st id = has-enter sc path (array xs) s _ _ st id λ checked.
      let inside = has-items sc xs (element s) path 0 checked id in
      elim (Bool-cases (is_kind Kind.array (rules s).kind)) [
        | inl y ↦ rw y inside
        | inr n ↦ rw n (ground arith)
      ]
  has-value sc (object fs) s path st id = has-enter sc path (object fs) s _ _ st id λ checked.
      let wanted = has-validate_required sc path (rules s).required fs checked id in
      let inside =
        has-fields sc fs s path (validate_required sc (rules s).required fs path checked) id in
      elim (Bool-cases (is_kind Kind.object (rules s).kind)) [
        | inl y ↦ rw y (inside ∙ ap (λ b. b || fields_refer sc fs s id) wanted)
        | inr n ↦ rw n (ground arith)
      ]

  has-items :
      (sc : Scope) (xs : Items) (e : Element) (path : String) (i : ℕ) (st : Report) (id : String)
      → has (validate_items sc xs e path i st) id ≡ has st id || items_refer sc xs e id
  has-items sc nil e path i st id = ground arith
  has-items sc (item v rest) unchecked path i st id = has-items sc rest unchecked path (i + 1) st id
  has-items sc (item v rest) (each s) path i st id =
      has-both _ _ _ _ _ (has-items sc rest (each s) path (i + 1) _ id) (has-value sc v s _ st id)

  has-fields :
      (sc : Scope) (fs : Fields) (s : Schema) (path : String) (st : Report) (id : String)
      → has (validate_fields sc fs s path st) id ≡ has st id || fields_refer sc fs s id
  has-fields sc end s path st id = ground arith
  has-fields sc (field k v rest) s path st id =
      has-both _ _ _ _ _ (has-fields sc rest s path _ id) (
        has-for_property _ _ (λ child. refers sc v child id) id
          (λ child checked. has-value sc v child (path <> "." <> k) checked id)
          (λ checked. has-validate_unknown sc s (path <> "." <> k) checked id)
          (property_schema k (properties s)) st)

-- ===== src/Graph/Cloned.antt =====
-- src/call-validator.ts: a value that conforms to a schema still does after `cloneJson`, and refers to
-- the same nodes.
use superset_agent_orchestra.Base.{
  ◌==◌, string_eq, String, Bool, true, false, ◌&&◌, ◌||◌, not, Option, none, some, List, [], ◌∷◌,
  ◌≡◌, refl, sym, ap, ◌∙◌, inl, inr, any, all, arith, Bool-cases, Option-cases, All,
}
use superset_agent_orchestra.Graph.Json.{
  Value, null, boolean, number, string, array, object, Items, nil, item, Fields, end, field,
  has_property, reference_of, deep_equal,
}
use superset_agent_orchestra.Graph.Schema.{
  Kind, Format, Schema, schema, Properties, property, Element, unchecked, each, rules, properties,
  element, property_schema, node_by_id,
}
use superset_agent_orchestra.Graph.Canonical.{
  Before, IsAsymmetric, insert_field, clone_json, clone_items, clone_fields,
}
use superset_agent_orchestra.Graph.Compatible.{matches_type, is_option, is_kind}
use superset_agent_orchestra.Graph.Validate.{Scope, in_options, has_format}
use superset_agent_orchestra.Graph.Conformance.{
  reference_fits, admits, for_property, conforms, items_conform, fields_conform,
}
use superset_agent_orchestra.Graph.References.{
  is_node, sees, in_property, refers, items_refer, fields_refer,
}
use superset_agent_orchestra.Graph.Clones.{has_property-clone, reference_of-clone, deep_equal-clone}

-- A schema as `cloneJson` leaves it: the values of its enums are their own clones.
abbrev pub AreCloned : Before → Option (List Value) → Type 0
AreCloned before none = Unit
AreCloned before (some vs) = All (λ v. clone_json before v ≡ v) vs

unfoldable mutual
  pub IsSnapshot : Before → Schema → Type 0
  IsSnapshot before (schema r ps e) =
      AreCloned before r.options × AreSnapshots before ps × IsSnapshotOf before e

  pub AreSnapshots : Before → Properties → Type 0
  AreSnapshots before Properties.end = Unit
  AreSnapshots before (property k s rest) = IsSnapshot before s × AreSnapshots before rest

  pub IsSnapshotOf : Before → Element → Type 0
  IsSnapshotOf before unchecked = Unit
  IsSnapshotOf before (each s) = IsSnapshot before s

module _ (before : Before) (asymmetric : IsAsymmetric before) where
  abbrev clone : Value → Value
  clone v = clone_json before v

  rules_of : (s : Schema) → IsSnapshot before s → AreCloned before (rules s).options
  unfolding IsSnapshot
  rules_of (schema r ps e) c = c.0

  element_of : (s : Schema) → IsSnapshot before s → IsSnapshotOf before (element s)
  unfolding IsSnapshot
  element_of (schema r ps e) c = c.2

  properties_of : (s : Schema) → IsSnapshot before s → AreSnapshots before (properties s)
  unfolding IsSnapshot
  properties_of (schema r ps e) c = c.1

  abbrev IsSnapshotIfAny : Option Schema → Type 0
  IsSnapshotIfAny none = Unit
  IsSnapshotIfAny (some s) = IsSnapshot before s

  property_of :
      (key : String) (ps : Properties)
      → AreSnapshots before ps
      → IsSnapshotIfAny (property_schema key ps)
  unfolding IsSnapshot property_schema
  property_of key Properties.end c = tt
  property_of key (property k s rest) c = elim (Bool-cases (k == key)) [
    | inl y ↦ rw y (c.0)
    | inr n ↦ rw n (property_of key rest c.1)
  ]

  is_option-clone :
      (ws : List Value) (v : Value)
      → All (λ w. clone w ≡ w) ws
      → is_option ws v ≡ true
      → is_option ws (clone v) ≡ true
  unfolding any
  is_option-clone [] v c h = h
  is_option-clone (w ∷ ws) v c h = elim (Bool-cases (deep_equal w v)) [
    | inl y ↦
        let here : deep_equal w (clone v) ≡ true =
          ap (λ x. deep_equal x (clone v)) (sym c.0) ∙ deep_equal-clone before asymmetric w v y in
        ground (arith, here)
    | inr n ↦ ground (arith, is_option-clone ws v c.1 (ground (arith, h, n)))
  ]

  options-clone :
      (o : Option (List Value)) (v : Value)
      → AreCloned before o
      → in_options o v ≡ true
      → in_options o (clone v) ≡ true
  options-clone none v c h = refl
  options-clone (some vs) v c h = is_option-clone vs v c h

  type-clone : (v : Value) (k : Option Kind) → matches_type (clone v) k ≡ matches_type v k
  unfolding clone_json matches_type
  type-clone v none = refl
  type-clone null (some k) = refl
  type-clone (boolean b) (some k) = refl
  type-clone (string b) (some k) = refl
  type-clone (number b) (some Kind.object) = refl
  type-clone (number b) (some Kind.array) = refl
  type-clone (number b) (some Kind.string) = refl
  type-clone (number b) (some Kind.number) = refl
  type-clone (number b) (some Kind.integer) = ground arith
  type-clone (number b) (some Kind.boolean) = refl
  type-clone (number b) (some Kind.null) = refl
  type-clone (array xs) (some Kind.object) = refl
  type-clone (array xs) (some Kind.array) = refl
  type-clone (array xs) (some Kind.string) = refl
  type-clone (array xs) (some Kind.number) = refl
  type-clone (array xs) (some Kind.integer) = refl
  type-clone (array xs) (some Kind.boolean) = refl
  type-clone (array xs) (some Kind.null) = refl
  type-clone (object xs) (some Kind.object) = refl
  type-clone (object xs) (some Kind.array) = refl
  type-clone (object xs) (some Kind.string) = refl
  type-clone (object xs) (some Kind.number) = refl
  type-clone (object xs) (some Kind.integer) = refl
  type-clone (object xs) (some Kind.boolean) = refl
  type-clone (object xs) (some Kind.null) = refl

  format_same :
      (p : String → Bool) (o : Option Format) (v : Value)
      → has_format p o v ≡ has_format p o (clone v)
  unfolding clone_json
  format_same p none v = refl
  format_same p (some f) null = refl
  format_same p (some f) (boolean b) = refl
  format_same p (some f) (number n) = refl
  format_same p (some f) (string t) = refl
  format_same p (some f) (array xs) = refl
  format_same p (some f) (object fs) = refl

  each_of : (s : Schema) → IsSnapshotOf before (each s) → IsSnapshot before s
  unfolding IsSnapshot
  each_of s c = c

  -- Two scopes in which the same references fit.
  module _ (sc sd : Scope) (urls : sc.parses_url ≡ sd.parses_url)
      (fit : (id : String) (s : Schema) → reference_fits sc id s ≡ reference_fits sd id s) where
    format-clone :
        (v : Value) (s : Schema)
        → has_format sc.parses_url (rules s).format v
          ≡ has_format sd.parses_url (rules s).format (clone v)
    format-clone v s =
        format_same sc.parses_url (rules s).format v
        ∙ ap (λ p. has_format p (rules s).format (clone v)) urls

    admits-clone :
        (v : Value) (s : Schema) (b c : Bool)
        → IsSnapshot before s
        → (b ≡ true → c ≡ true)
        → admits sc v s b ≡ true
        → admits sd (clone v) s c ≡ true
    unfolding admits
    admits-clone v s b c snap inside h = elim (Option-cases (reference_of v)) [
      | inr (id, e) ↦
          rw (admits, reference_of-clone before asymmetric v, e)
            (sym (fit id s) ∙ (rw (admits, e) at h))
      | inl e ↦
          let h' = rw (admits, e) at h in
          rw (admits, reference_of-clone before asymmetric v, e)
            (ground (
              arith,
              h',
              type-clone v (rules s).kind,
              options-clone (rules s).options v (rules_of s snap),
              format-clone v s,
              inside,
            ))
    ]

    fields_conform-insert :
        (k : String) (v : Value) (fs : Fields) (s : Schema)
        → fields_conform sd (insert_field before k v fs) s
          ≡ for_property (conforms sd v) (not (rules s).closed) (property_schema k (properties s))
            && fields_conform sd fs s
    unfolding insert_field conforms
    fields_conform-insert k v end s = refl
    fields_conform-insert k v (field j w rest) s = elim (Bool-cases (before j k)) [
      | inl y ↦ rw (y, fields_conform, fields_conform-insert k v rest s) (ground arith)
      | inr n ↦ rw n refl
    ]

    required-clone :
        (keys : List String) (fs : Fields)
        → all (λ key. has_property key fs) keys ≡ true
        → all (λ key. has_property key (clone_fields before fs)) keys ≡ true
    unfolding all
    required-clone [] fs h = refl
    required-clone (k ∷ ks) fs h =
        ground (arith, h, has_property-clone before asymmetric k fs, required-clone ks fs)

    for_property-clone :
        (v : Value) (o : Option Schema) (b : Bool)
        → IsSnapshotIfAny o
        → ((s : Schema)
            → IsSnapshot before s
            → conforms sc v s ≡ true
            → conforms sd (clone v) s ≡ true)
        → for_property (conforms sc v) b o ≡ true
        → for_property (conforms sd (clone v)) b o ≡ true
    for_property-clone v none b c ih h = h
    for_property-clone v (some s) b c ih h = ih s c h

    mutual
      unfolding conforms clone_json

      pub conforms-clone :
          (v : Value) (s : Schema)
          → IsSnapshot before s
          → conforms sc v s ≡ true
          → conforms sd (clone v) s ≡ true
      conforms-clone null s c h = admits-clone null s true true c (λ e. e) h
      conforms-clone (boolean b) s c h = admits-clone (boolean b) s true true c (λ e. e) h
      conforms-clone (number n) s c h = admits-clone (number n) s true true c (λ e. e) h
      conforms-clone (string t) s c h = admits-clone (string t) s true true c (λ e. e) h
      conforms-clone (array xs) s c h =
          admits-clone (array xs) s _ _ c
            (λ e. ground (arith, e, items_conform-clone xs (element s) (element_of s c))) h
      conforms-clone (object fs) s c h =
          admits-clone (object fs) s _ _ c
            (λ e.
              ground (arith, e, required-clone (rules s).required fs, fields_conform-clone fs s c))
            h

      items_conform-clone :
          (xs : Items) (e : Element)
          → IsSnapshotOf before e
          → items_conform sc xs e ≡ true
          → items_conform sd (clone_items before xs) e ≡ true
      items_conform-clone nil e c h = refl
      items_conform-clone (item v rest) unchecked c h = items_conform-clone rest unchecked c h
      items_conform-clone (item v rest) (each s) c h = ground (
        arith,
        conforms-clone v s (each_of s c) (ground (arith, h)),
        items_conform-clone rest (each s) c (ground (arith, h)),
      )

      fields_conform-clone :
          (fs : Fields) (s : Schema)
          → IsSnapshot before s
          → fields_conform sc fs s ≡ true
          → fields_conform sd (clone_fields before fs) s ≡ true
      fields_conform-clone end s c h = refl
      fields_conform-clone (field k v rest) s c h =
          rw (fields_conform-insert k (clone v) (clone_fields before rest) s) (
            ground (
              arith,
              for_property-clone v (property_schema k (properties s)) (not (rules s).closed)
                  (property_of k (properties s) (properties_of s c))
                  (λ t d g. conforms-clone v t d g) (ground (arith, h)),
              fields_conform-clone rest s c (ground (arith, h)),
            ))

  -- Two scopes with the same nodes, as far as references go.
  module _ (sc sd : Scope)
      (nodes : (id : String)
        → is_node (node_by_id id sc.nodes) ≡ is_node (node_by_id id sd.nodes)) where
    sees-clone :
        (v : Value) (s : Schema) (id : String) (b c : Bool)
        → b ≡ c
        → sees sc v s id b ≡ sees sd (clone v) s id c
    unfolding sees
    sees-clone v s id b c same = elim (Option-cases (reference_of v)) [
      | inr (r, e) ↦ rw (sees, reference_of-clone before asymmetric v, e, nodes r) refl
      | inl e ↦
          rw (sees, reference_of-clone before asymmetric v, e, type-clone v (rules s).kind, same)
            refl
    ]

    fields_refer-insert :
        (k : String) (v : Value) (fs : Fields) (s : Schema) (id : String)
        → fields_refer sd (insert_field before k v fs) s id
          ≡ in_property (λ child. refers sd v child id) (property_schema k (properties s))
            || fields_refer sd fs s id
    unfolding insert_field refers
    fields_refer-insert k v end s id = refl
    fields_refer-insert k v (field j w rest) s id = elim (Bool-cases (before j k)) [
      | inl y ↦ rw (y, fields_refer, fields_refer-insert k v rest s id) (ground arith)
      | inr n ↦ rw n refl
    ]

    in_property-clone :
        (v : Value) (o : Option Schema) (id : String)
        → ((s : Schema) → refers sc v s id ≡ refers sd (clone v) s id)
        → in_property (λ child. refers sc v child id) o
          ≡ in_property (λ child. refers sd (clone v) child id) o
    in_property-clone v none id ih = refl
    in_property-clone v (some s) id ih = ih s

    mutual
      unfolding refers clone_json

      pub refers-clone :
          (v : Value) (s : Schema) (id : String) → refers sc v s id ≡ refers sd (clone v) s id
      refers-clone null s id = sees-clone null s id false false refl
      refers-clone (boolean b) s id = sees-clone (boolean b) s id false false refl
      refers-clone (number n) s id = sees-clone (number n) s id false false refl
      refers-clone (string t) s id = sees-clone (string t) s id false false refl
      refers-clone (array xs) s id =
          sees-clone (array xs) s id _ _
            (ap (λ b. is_kind Kind.array (rules s).kind && b) (items_refer-clone xs (element s) id))
      refers-clone (object fs) s id =
          sees-clone (object fs) s id _ _
            (ap (λ b. is_kind Kind.object (rules s).kind && b) (fields_refer-clone fs s id))

      items_refer-clone :
          (xs : Items) (e : Element) (id : String)
          → items_refer sc xs e id ≡ items_refer sd (clone_items before xs) e id
      items_refer-clone nil e id = refl
      items_refer-clone (item v rest) unchecked id = items_refer-clone rest unchecked id
      items_refer-clone (item v rest) (each s) id =
          λ i. refers-clone v s id i || items_refer-clone rest (each s) id i

      fields_refer-clone :
          (fs : Fields) (s : Schema) (id : String)
          → fields_refer sc fs s id ≡ fields_refer sd (clone_fields before fs) s id
      fields_refer-clone end s id = refl
      fields_refer-clone (field k v rest) s id =
          (λ i.
            in_property-clone v (property_schema k (properties s)) id (λ t. refers-clone v t id) i
            || fields_refer-clone rest s id i)
          ∙ sym (fields_refer-insert k (clone v) (clone_fields before rest) s id)

-- ===== src/Graph/Clones.antt =====
-- src/call-executor.ts, src/call-validator.ts: what the tests of a value say of its clone.
use superset_agent_orchestra.Base.{
  suc, String, true, false, ◌&&◌, Option, none, some, ◌≡◌, refl, sym, ap, ◌∙◌, inl, inr, arith,
  Bool-cases, Option-cases, ◌==◌, string_eq, nat_eq, eq_iff,
}
use superset_agent_orchestra.Graph.Json.{
  Number, Value, null, boolean, number, string, array, object, Items, nil, item, Fields, end, field,
  get, has_property, holds_of, size_fields, deep_equal, deep_equal_items, deep_equal_fields,
  reference_of,
}
use superset_agent_orchestra.Graph.Canonical.{
  Before, IsAsymmetric, insert_field, clone_json, clone_items, clone_fields,
}

module _ (before : Before) (asymmetric : IsAsymmetric before) where
  irreflexive : (k : String) → before k k ≡ false
  irreflexive k = elim (Bool-cases (before k k)) [ inr n ↦ n | inl y ↦ asymmetric k k y ]

  get-insert :
      (key k : String) (v : Value) (fs : Fields)
      → get key (insert_field before k v fs) ≡ get key (field k v fs)
  unfolding insert_field get
  get-insert key k v end = refl
  get-insert key k v (field j w rest) = elim (Bool-cases (before j k)) [
    | inr n ↦ rw n refl
    | inl y ↦ elim (Bool-cases (j == k)) [
      | inl same ↦
          let e : j ≡ k = (eq_iff j k).0 same in
          let no : before k k ≡ true = rw e at y in absurd (ground (arith, no, irreflexive k))
      | inr differs ↦
          rw (y, get)
            (elim (Bool-cases (k == key)) [
              | inl a ↦
                  let e : k ≡ key = (eq_iff k key).0 a in
                  let b : (j == key) ≡ false = rw e at differs in
                  rw (a, b) (get-insert key k v rest ∙ rw (get, a))
              | inr a ↦ elim (Bool-cases (j == key)) [
                | inl b ↦ rw (a, b)
                | inr b ↦ rw (a, b) (get-insert key k v rest ∙ rw (get, a))
              ]
            ])
    ]
  ]

  size-insert :
      (k : String) (v : Value) (fs : Fields)
      → size_fields (insert_field before k v fs) ≡ suc (size_fields fs)
  unfolding insert_field size_fields
  size-insert k v end = refl
  size-insert k v (field j w rest) = elim (Bool-cases (before j k)) [
    | inl y ↦ rw y (ap suc (size-insert k v rest))
    | inr n ↦ rw n refl
  ]

  pub size-clone : (fs : Fields) → size_fields (clone_fields before fs) ≡ size_fields fs
  unfolding clone_json size_fields
  size-clone end = refl
  size-clone (field k v rest) = size-insert k _ _ ∙ ap suc (size-clone rest)

  abbrev clone_found : Option Value → Option Value
  clone_found none = none
  clone_found (some v) = some (clone_json before v)

  pub get-clone :
      (key : String) (fs : Fields) → get key (clone_fields before fs) ≡ clone_found (get key fs)
  unfolding clone_json get
  get-clone key end = refl
  get-clone key (field k v rest) =
      get-insert key k _ _
      ∙ elim (Bool-cases (k == key)) [ inl y ↦ rw y refl | inr n ↦ rw n (get-clone key rest) ]

  pub has_property-clone :
      (key : String) (fs : Fields) → has_property key (clone_fields before fs) ≡ has_property key fs
  unfolding has_property
  has_property-clone key fs =
      rw (get-clone key fs)
        (elim (Option-cases (get key fs)) [ inl e ↦ rw e refl | inr (v, e) ↦ rw e refl ])

  -- An object of more fields than one is no reference.
  many : (fs : Fields) → (size_fields fs == 1) ≡ false → reference_of (object fs) ≡ none
  unfolding size_fields reference_of
  many end h = refl
  many (field k v end) h = absurd (cc)
  many (field k null (field j w rest)) h = refl
  many (field k (boolean b) (field j w rest)) h = refl
  many (field k (number b) (field j w rest)) h = refl
  many (field k (string b) (field j w rest)) h = refl
  many (field k (array b) (field j w rest)) h = refl
  many (field k (object b) (field j w rest)) h = refl

  pub reference_of-clone : (v : Value) → reference_of (clone_json before v) ≡ reference_of v
  unfolding reference_of clone_json insert_field size_fields
  reference_of-clone null = refl
  reference_of-clone (boolean b) = refl
  reference_of-clone (number n) = refl
  reference_of-clone (string s) = refl
  reference_of-clone (array xs) = refl
  reference_of-clone (object end) = refl
  reference_of-clone (object (field k null end)) = refl
  reference_of-clone (object (field k (boolean b) end)) = refl
  reference_of-clone (object (field k (number b) end)) = refl
  reference_of-clone (object (field k (string b) end)) = refl
  reference_of-clone (object (field k (array b) end)) = refl
  reference_of-clone (object (field k (object b) end)) = refl
  reference_of-clone (object (field k v (field j w rest))) =
      let fs = field k v (field j w rest) in
      let n : (size_fields (clone_fields before fs) == 1) ≡ false = ground (arith, size-clone fs) in
      many (clone_fields before fs) n ∙ sym (many fs (ground arith))

  same_number-clone :
      (a b : Number)
      → deep_equal (number a) (number b) ≡ true
      → deep_equal (clone_json before (number a)) (clone_json before (number b)) ≡ true
  unfolding deep_equal clone_json
  same_number-clone a b h = ground (arith, h)

  fields-insert :
      (k : String) (v : Value) (xs ys : Fields)
      → deep_equal_fields (insert_field before k v xs) ys
        ≡ holds_of (deep_equal v) (get k ys) && deep_equal_fields xs ys
  unfolding insert_field deep_equal
  fields-insert k v end ys = refl
  fields-insert k v (field j w rest) ys = elim (Bool-cases (before j k)) [
    | inl y ↦ rw (y, deep_equal_fields, fields-insert k v rest ys) (ground arith)
    | inr n ↦ rw n refl
  ]

  mutual
    unfolding deep_equal clone_json

    -- Values that are the same have clones that are the same.
    pub deep_equal-clone :
        (v w : Value)
        → deep_equal v w ≡ true
        → deep_equal (clone_json before v) (clone_json before w) ≡ true
    deep_equal-clone null null h = refl
    deep_equal-clone (boolean a) (boolean b) h = h
    deep_equal-clone (number a) (number b) h = same_number-clone a b h
    deep_equal-clone (string a) (string b) h = h
    deep_equal-clone (array xs) (array ys) h = items-clone xs ys h
    deep_equal-clone (object xs) (object ys) h =
        let inside = fields-clone xs ys (ground (arith, h)) in
        ground (arith, h, size-clone xs, size-clone ys, inside)
    deep_equal-clone _ _ h = absurd (cc)

    items-clone :
        (xs ys : Items)
        → deep_equal_items xs ys ≡ true
        → deep_equal_items (clone_items before xs) (clone_items before ys) ≡ true
    items-clone nil nil h = refl
    items-clone (item v xs) (item w ys) h =
        ground
          (arith, deep_equal-clone v w (ground (arith, h)), items-clone xs ys (ground (arith, h)))
    items-clone _ _ h = absurd (cc)

    fields-clone :
        (xs ys : Fields)
        → deep_equal_fields xs ys ≡ true
        → deep_equal_fields (clone_fields before xs) (clone_fields before ys) ≡ true
    fields-clone end ys h = refl
    fields-clone (field k v xs) ys h =
        let rest = fields-clone xs ys (ground (arith, h)) in
        elim (Option-cases (get k ys)) [
          | inl e ↦ absurd (ground (arith, h, e))
          | inr (w, e) ↦
              let here = deep_equal-clone v w (ground (arith, h, e)) in
              rw
                (
                  fields-insert k (clone_json before v) (clone_fields before xs)
                      (clone_fields before ys),
                  get-clone k ys,
                  e,
                )
                (ground (arith, here, rest))
        ]

-- ===== src/Graph/Canonical.antt =====
-- src/call-executor.ts: `cloneJson`, which is JSON.parse of `canonicalJson`: the keys of each object
-- are sorted, and -0 becomes 0. The order in which JavaScript then lists the keys of an object is a
-- parameter, of which only asymmetry is used.
use superset_agent_orchestra.Base.{
  String, Bool, true, false, not, ◌≡◌, refl, ap, inl, inr, arith, Bool-cases, ◌==◌, if◌then◌else◌,
  nat_eq,
}
use superset_agent_orchestra.Graph.Json.{
  Number, Value, null, boolean, number, string, array, object, Items, nil, item, Fields, end, field,
}

abbrev pub Before : Type 0
Before = String → String → Bool

abbrev pub IsAsymmetric : Before → Type 0
IsAsymmetric before = (a b : String) → before a b ≡ true → before b a ≡ false

abbrev clone_number : Number → Number
clone_number n = if n.significand == 0 then record n { negative = false } else n

unfoldable pub insert_field : Before → String → Value → Fields → Fields
insert_field before k v end = field k v end
insert_field before k v (field j w rest) =
    let later = insert_field before k v rest in
    if before j k then field j w later else field k v (field j w rest)

unfoldable mutual
  pub clone_json : Before → Value → Value
  clone_json before null = null
  clone_json before (boolean b) = boolean b
  clone_json before (number n) = number (clone_number n)
  clone_json before (string s) = string s
  clone_json before (array xs) = array (clone_items before xs)
  clone_json before (object fs) = object (clone_fields before fs)

  pub clone_items : Before → Items → Items
  clone_items before nil = nil
  clone_items before (item v rest) = item (clone_json before v) (clone_items before rest)

  pub clone_fields : Before → Fields → Fields
  clone_fields before end = end
  clone_fields before (field k v rest) =
      insert_field before k (clone_json before v) (clone_fields before rest)

-- Values that are clones already, under keys of which none has to stand before the one ahead of it.
abbrev leads_rightly : Before → String → Fields → Bool
leads_rightly before k end = true
leads_rightly before k (field j _ _) = not (before j k)

abbrev IsFixed : Before → Fields → Type 0
IsFixed before end = Unit
IsFixed before (field k v rest) =
    (clone_json before v ≡ v) × (leads_rightly before k rest ≡ true) × IsFixed before rest

clone_number-twice : (n : Number) → clone_number (clone_number n) ≡ clone_number n
clone_number-twice n = ground arith

module _ (before : Before) (asymmetric : IsAsymmetric before) where
  insert_field-leads :
      (h k : String) (v : Value) (fs : Fields)
      → before k h ≡ false
      → leads_rightly before h fs ≡ true
      → leads_rightly before h (insert_field before k v fs) ≡ true
  unfolding insert_field
  insert_field-leads h k v end e r = rw e
  insert_field-leads h k v (field j w rest) e r = elim (Bool-cases (before j k)) [
    | inl y ↦ rw y r
    | inr n ↦ rw (n, e)
  ]

  insert_field-IsFixed :
      (k : String) (v : Value) (fs : Fields)
      → clone_json before v ≡ v
      → IsFixed before fs
      → IsFixed before (insert_field before k v fs)
  unfolding insert_field
  insert_field-IsFixed k v end c h = (c, refl, tt)
  insert_field-IsFixed k v (field j w rest) c (cw, l, h) = elim (Bool-cases (before j k)) [
    | inl y ↦
        rw y (
          cw,
          insert_field-leads j k v rest (asymmetric j k y) l,
          insert_field-IsFixed k v rest c h,
        )
    | inr n ↦ rw n (c, rw n refl, (cw, l, h))
  ]

  insert_field-first :
      (k : String) (v : Value) (fs : Fields)
      → leads_rightly before k fs ≡ true
      → insert_field before k v fs ≡ field k v fs
  unfolding insert_field
  insert_field-first k v end l = refl
  insert_field-first k v (field j w fs) l = elim (Bool-cases (before j k)) [
    | inl y ↦ let no : false ≡ true = rw y at l in absurd (cc)
    | inr n ↦ rw n
  ]

  clone_fields-fixed : (fs : Fields) → IsFixed before fs → clone_fields before fs ≡ fs
  unfolding clone_json
  clone_fields-fixed end h = refl
  clone_fields-fixed (field k v rest) (c, l, h) =
      rw (clone_fields-fixed rest h, c) (insert_field-first k v rest l)

  mutual
    unfolding clone_json

    -- A clone is its own clone.
    pub clone_json-twice :
        (v : Value) → clone_json before (clone_json before v) ≡ clone_json before v
    clone_json-twice null = refl
    clone_json-twice (boolean b) = refl
    clone_json-twice (number n) = ap number (clone_number-twice n)
    clone_json-twice (string s) = refl
    clone_json-twice (array xs) = ap array (clone_items-twice xs)
    clone_json-twice (object fs) =
        ap object (clone_fields-fixed (clone_fields before fs) (clone_fields-IsFixed fs))

    clone_items-twice :
        (xs : Items) → clone_items before (clone_items before xs) ≡ clone_items before xs
    clone_items-twice nil = refl
    clone_items-twice (item v rest) = λ i. item (clone_json-twice v i) (clone_items-twice rest i)

    clone_fields-IsFixed : (fs : Fields) → IsFixed before (clone_fields before fs)
    clone_fields-IsFixed end = tt
    clone_fields-IsFixed (field k v rest) =
        insert_field-IsFixed k (clone_json before v) (clone_fields before rest) (clone_json-twice v)
          (clone_fields-IsFixed rest)

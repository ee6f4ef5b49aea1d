-- ===== src/Graph/Json.antt =====
-- src/call-validator.ts, src/call-executor.ts: the values that JSON.parse gives. A number is
-- ±significand / 2^halvings in lowest terms, so two numbers are the same for Object.is exactly if
-- their parts are. The fields of an object stand in the order of Object.entries, under distinct keys.
use superset_agent_orchestra.Base.{
  ℕ, suc, String, Bool, true, false, ◌&&◌, ◌||◌, not, Option, none, some, List, [], ◌∷◌, any, ◌==◌,
  if◌then◌else◌, string_eq, nat_eq,
}

pub record Number : Type 0 where
  pub negative : Bool
  pub significand : ℕ
  pub halvings : ℕ

mutual
  pub data Value : Type 0 where
    null : Value
    boolean : Bool → Value
    number : Number → Value
    string : String → Value
    array : Items → Value
    object : Fields → Value

  pub data Items : Type 0 where
    nil : Items
    item : Value → Items → Items

  pub data Fields : Type 0 where
    end : Fields
    field : String → Value → Fields → Fields

abbrev pub contains : List String → String → Bool
contains xs x = any (λ y. y == x) xs

abbrev same_bool : Bool → Bool → Bool
same_bool true b = b
same_bool false b = not b

abbrev pub same_number : Number → Number → Bool
same_number a b =
    same_bool a.negative b.negative && a.significand == b.significand && a.halvings == b.halvings

-- `Number.isInteger`
abbrev pub is_integer : Number → Bool
is_integer n = n.halvings == 0

unfoldable pub get : String → Fields → Option Value
get key end = none
get key (field k v rest) = if k == key then some v else get key rest

-- The field is there and passes the test.
abbrev pub holds_of : (Value → Bool) → Option Value → Bool
holds_of test none = false
holds_of test (some v) = test v

abbrev pub is_present : Option Value → Bool
is_present none = false
is_present (some _) = true

-- The names that every object inherits from Object.prototype, which the operator `in` sees.
abbrev prototype_names : List String
prototype_names =
    "constructor" ∷ "hasOwnProperty" ∷ "isPrototypeOf" ∷ "propertyIsEnumerable" ∷ "toLocaleString"
    ∷ "toString" ∷ "valueOf" ∷ "__defineGetter__" ∷ "__defineSetter__" ∷ "__lookupGetter__"
    ∷ "__lookupSetter__" ∷ "__proto__" ∷ []

-- `key in value`
unfoldable pub has_property : String → Fields → Bool
unfolding get any
has_property key fields = is_present (get key fields) || contains prototype_names key

unfoldable pub size_items : Items → ℕ
size_items nil = 0
size_items (item v rest) = suc (size_items rest)

unfoldable pub size_fields : Fields → ℕ
size_fields end = 0
size_fields (field k v rest) = suc (size_fields rest)

-- `deepEqual`. Sorted lists of distinct keys are the same exactly if they are as long and the one
-- has every key of the other.
unfoldable mutual
  pub deep_equal : Value → Value → Bool
  deep_equal null null = true
  deep_equal (boolean a) (boolean b) = same_bool a b
  deep_equal (number a) (number b) = same_number a b
  deep_equal (string a) (string b) = a == b
  deep_equal (array xs) (array ys) = deep_equal_items xs ys
  deep_equal (object xs) (object ys) = size_fields xs == size_fields ys && deep_equal_fields xs ys
  deep_equal _ _ = false

  pub deep_equal_items : Items → Items → Bool
  deep_equal_items nil nil = true
  deep_equal_items (item v xs) (item w ys) = deep_equal v w && deep_equal_items xs ys
  deep_equal_items _ _ = false

  pub deep_equal_fields : Fields → Fields → Bool
  deep_equal_fields end ys = true
  deep_equal_fields (field k v xs) ys =
      holds_of (deep_equal v) (get k ys) && deep_equal_fields xs ys

-- `isReference`: an object whose only field is a text `$ref`.
unfoldable pub reference_of : Value → Option String
reference_of (object (field k (string id) end)) = if k == "$ref" then some id else none
reference_of _ = none

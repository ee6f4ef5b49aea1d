-- ===== src/Graph/Compatible.antt =====
-- src/call-validator.ts: the tests of a value and of a schema against a schema.
use superset_agent_orchestra.Base.{
  String, Bool, true, false, ◌&&◌, ◌||◌, not, Option, none, some, List, any, all, string_eq,
}
use superset_agent_orchestra.Graph.Json.{
  Value, null, boolean, number, string, array, object, contains, is_integer, deep_equal,
}
use superset_agent_orchestra.Graph.Schema.{
  Kind, Format, Rules, Schema, schema, Properties, property, Element, unchecked, each, rules,
  properties, element, property_schema,
}

abbrev pub same_kind : Kind → Kind → Bool
same_kind Kind.object Kind.object = true
same_kind Kind.array Kind.array = true
same_kind Kind.string Kind.string = true
same_kind Kind.number Kind.number = true
same_kind Kind.integer Kind.integer = true
same_kind Kind.boolean Kind.boolean = true
same_kind Kind.null Kind.null = true
same_kind _ _ = false

abbrev pub same_format : Option Format → Format → Bool
same_format (some Format.date_time) Format.date_time = true
same_format (some Format.email) Format.email = true
same_format (some Format.uri) Format.uri = true
same_format (some Format.uuid) Format.uuid = true
same_format _ _ = false

abbrev pub has_type : Value → Kind → Bool
has_type null Kind.null = true
has_type (array _) Kind.array = true
has_type (object _) Kind.object = true
has_type (number n) Kind.integer = is_integer n
has_type (number _) Kind.number = true
has_type (string _) Kind.string = true
has_type (boolean _) Kind.boolean = true
has_type _ _ = false

-- `matchesType`
unfoldable pub matches_type : Value → Option Kind → Bool
matches_type v none = true
matches_type v (some kind) = has_type v kind

abbrev pub is_option : List Value → Value → Bool
unfolding any
is_option candidates v = any (λ c. deep_equal c v) candidates

-- Every value of the source's `enum` is one of the target's.
abbrev options_fit : Option (List Value) → Option (List Value) → Bool
unfolding any all
options_fit source none = true
options_fit none (some wanted) = false
options_fit (some given) (some wanted) = all (is_option wanted) given

abbrev format_fits : Option Format → Option Format → Bool
format_fits source none = true
format_fits source (some wanted) = same_format source wanted

abbrev pub has_schema : String → Properties → Bool
unfolding property_schema
has_schema key ps = elim (property_schema key ps) [ none ↦ false | some _ ↦ true ]

abbrev pub holds_schema : (Schema → Bool) → Option Schema → Bool
holds_schema test none = false
holds_schema test (some s) = test s

abbrev holds_element : (Schema → Bool) → Element → Bool
holds_element test unchecked = false
holds_element test (each s) = test s

-- A closed target needs a closed source that has no property of its own.
unfoldable pub known_properties : Properties → Properties → Bool
unfolding property_schema
known_properties Properties.end target = true
known_properties (property k _ rest) target = has_schema k target && known_properties rest target

abbrev pub is_kind : Kind → Option Kind → Bool
is_kind kind none = false
is_kind kind (some k) = same_kind k kind

abbrev kinds_fit : Option Kind → Option Kind → Bool
kinds_fit (some source) (some target) = same_kind source target
kinds_fit _ _ = false

abbrev widens : Option Kind → Option Kind → Bool
widens source target = is_kind Kind.integer source && is_kind Kind.number target

abbrev is_open : Option Kind → Bool
is_open none = true
is_open (some _) = false

abbrev required_fit : Rules → Properties → Rules → Properties → Bool
unfolding all any property_schema
required_fit sr sp tr tp =
    all (λ r. contains sr.required r && has_schema r sp && has_schema r tp) tr.required

abbrev closed_fits : Rules → Properties → Rules → Properties → Bool
unfolding known_properties
closed_fits sr sp tr tp = not tr.closed || (sr.closed && known_properties sp tp)

-- The tests of `compatible` that do not look into schemas inside.
unfoldable pub rules_fit : Rules → Properties → Rules → Properties → Bool
unfolding any all property_schema known_properties
rules_fit sr sp tr tp =
    kinds_fit sr.kind tr.kind
    && options_fit sr.options tr.options
    && format_fits sr.format tr.format
    && (not (is_kind Kind.object tr.kind) || (required_fit sr sp tr tp && closed_fits sr sp tr tp))

-- `compatible`
unfoldable mutual
  unfolding any property_schema

  pub compatible : Schema → Schema → Bool
  compatible source (schema tr tp te) =
      let sr = rules source in
      let items = items_fit source te in
      let fields = fields_fit (properties source) tr.required tp in
      is_open sr.kind
      || is_open tr.kind
      || widens sr.kind tr.kind
      || (rules_fit sr (properties source) tr tp
          && (not (is_kind Kind.array tr.kind) || items)
          && (not (is_kind Kind.object tr.kind) || fields))

  pub items_fit : Schema → Element → Bool
  items_fit source unchecked = true
  items_fit source (each target) = holds_element (λ s. compatible s target) (element source)

  pub fields_fit : Properties → List String → Properties → Bool
  fields_fit source required Properties.end = true
  fields_fit source required (property k target rest) =
      (not (contains required k)
        || holds_schema (λ s. compatible s target) (property_schema k source))
      && fields_fit source required rest

-- ===== src/Graph/Schema.antt =====
-- src/call-validator.ts: the schemas of tools, the nodes of a graph and the diagnostics. A member of
-- a schema that is missing and one that is empty are the same to the code for `properties` and
-- `required`; `enum` keeps the difference.
use superset_agent_orchestra.Base.{
  String, Bool, true, false, Option, none, some, List, [], ◌∷◌, any, find, ◌==◌, if◌then◌else◌,
  string_eq,
}
use superset_agent_orchestra.Graph.Json.{Value}

pub data Kind : Type 0 where
  object array string number integer boolean null : Kind

pub data Format : Type 0 where
  date_time email uri uuid : Format

-- `closed`: `additionalProperties` is false.
pub record Rules : Type 0 where
  pub kind : Option Kind
  pub required : List String
  pub closed : Bool
  pub options : Option (List Value)
  pub format : Option Format

mutual
  pub data Schema : Type 0 where
    schema : Rules → Properties → Element → Schema

  pub data Properties : Type 0 where
    end : Properties
    property : String → Schema → Properties → Properties

  pub data Element : Type 0 where
    unchecked : Element
    each : Schema → Element

abbrev pub rules : Schema → Rules
rules (schema r _ _) = r

abbrev pub properties : Schema → Properties
properties (schema _ p _) = p

abbrev pub element : Schema → Element
element (schema _ _ e) = e

unfoldable pub property_schema : String → Properties → Option Schema
property_schema key Properties.end = none
property_schema key (property k s rest) = if k == key then some s else property_schema key rest

pub record ToolSchema : Type 0 where
  pub input : Schema
  pub output : Option Schema

abbrev pub Tools : Type 0
Tools = List (String × ToolSchema)

unfoldable pub tool_named : String → Tools → Option ToolSchema
tool_named name [] = none
tool_named name ((n, t) ∷ rest) = if n == name then some t else tool_named name rest

pub record CallNode : Type 0 where
  pub id : String
  pub tool : String
  pub arguments : Value
  pub depends_on : List String

-- `byId`: the first node of an id counts.
unfoldable pub node_by_id : String → List CallNode → Option CallNode
unfolding find
node_by_id id nodes = find (λ (n : CallNode). n.id == id) nodes

pub data DiagnosticId : Type 0 where
  graph_shape duplicate_node unknown_tool missing_dependency cycle type_mismatch required_field
        enum_constraint format_constraint unknown_field edge_type_mismatch implicit_dependency :
      DiagnosticId

-- The severity that each kind of diagnostic is reported with.
abbrev pub is_error : DiagnosticId → Bool
is_error implicit_dependency = false
is_error _ = true

pub record Diagnostic : Type 0 where
  pub id : DiagnosticId
  pub node_id : Option String
  pub path : String
  pub message : String

unfoldable pub has_error : List Diagnostic → Bool
unfolding any
has_error ds = any (λ (d : Diagnostic). is_error d.id) ds

abbrev pub kind_name : Option Kind → String
kind_name none = "any"
kind_name (some Kind.object) = "object"
kind_name (some Kind.array) = "array"
kind_name (some Kind.string) = "string"
kind_name (some Kind.number) = "number"
kind_name (some Kind.integer) = "integer"
kind_name (some Kind.boolean) = "boolean"
kind_name (some Kind.null) = "null"

abbrev pub format_name : Format → String
format_name date_time = "date-time"
format_name email = "email"
format_name uri = "uri"
format_name uuid = "uuid"

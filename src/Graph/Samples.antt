-- ===== src/Graph/Samples.antt =====
-- A graph of two calls, with tools and a runtime to validate and execute it in.
use superset_agent_orchestra.Base.{ℕ, String, true, false, none, some, [], ◌∷◌, string_eq}
use superset_agent_orchestra.Graph.Json.{
  Number, Value, number, string, array, object, Items, nil, item, end, field,
}
use superset_agent_orchestra.Graph.Schema.{Kind, Schema, schema, Properties, property, unchecked}
use superset_agent_orchestra.Graph.Checker.{Platform}
use superset_agent_orchestra.Graph.Policy.{
  ExecutableTools, disabled, ExecutionPolicy, Runtime, printed,
}

abbrev pub platform : Platform
platform = record { parses_url = λ _. true; sorts_before = λ _ _. false }

abbrev pub typed : Kind → Schema
typed kind =
    schema
      (record { kind = some kind; required = []; closed = false; options = none; format = none })
      Properties.end unchecked

abbrev point : Schema
point =
    schema
      (record {
        kind = some Kind.object;
        required = "x" ∷ [];
        closed = true;
        options = none;
        format = none;
      })
      (property "x" (typed Kind.number) Properties.end) unchecked

abbrev pub tools : ExecutableTools
tools =
    (
      "one",
      record {
        input = typed Kind.object;
        output = typed Kind.integer;
        capability = "read";
        source = "() => 1";
      },
    )
    ∷ (
      "inc",
      record {
        input = point;
        output = typed Kind.number;
        capability = "write";
        source = "({x}) => x + 1";
      },
    )
    ∷ []

abbrev pub whole : ℕ → Value
whole n = number (record { negative = false; significand = n; halvings = 0 })

abbrev pub reference : String → Value
reference id = object (field "$ref" (string id) end)

abbrev pub call : String → String → Value → Items → Value
call id tool arguments depends_on = object (
    field "id" (string id) (
      field "tool" (string tool)
        (field "arguments" arguments (field "dependsOn" (array depends_on) end))))

-- The second call stands first, and takes the result of the other.
abbrev pub calls : Items
calls =
    item (call "b" "inc" (object (field "x" (reference "a") end)) (item (string "a") nil))
      (item (call "a" "one" (object end) nil) nil)

abbrev pub graph : Value
graph = object (field "nodes" (array calls) end)

-- A call that refers to itself where the schema of its tool describes nothing.
abbrev pub hidden : Items
hidden = item (call "a" "one" (object (field "extra" (reference "a") end)) nil) nil

abbrev pub hidden_graph : Value
hidden_graph = object (field "nodes" (array hidden) end)

abbrev pub limit : ℕ → Number
limit n = record { negative = false; significand = n; halvings = 0 }

abbrev pub policy : ExecutionPolicy
policy = record {
  allowed_capabilities = "read" ∷ "write" ∷ [];
  timeout_ms = limit 1000;
  max_input_bytes = none;
  max_output_bytes = limit 4096;
  max_memory_mb = none;
  max_nodes = none;
  replay_mode = disabled;
  replay_key = some "0123456789abcdef0123456789abcdef";
}

-- Every tool prints 2, and the digests are constants.
abbrev pub runtime : Runtime
runtime = record {
  platform = platform;
  before = λ _ _. false;
  digest = λ _. "d1";
  tool_digest = λ t. t.source;
  hmac = λ key _. "aa";
  byte_length = λ _. 1;
  is_darwin = true;
  spawn = λ _ _ _. printed (whole 2);
}

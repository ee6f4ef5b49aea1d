-- ===== src/Graph/Records.antt =====
-- src/call-executor.ts: what an execution keeps, the run of a tool, and the records of replay.
use Prim.Native.String.{len}
use superset_agent_orchestra.Base.{
  ℕ, ◌*◌, String, ◌<>◌, show, Bool, true, false, ◌&&◌, not, Option, none, some, List, [], ◌∷◌, ◌++◌,
  length, leb, ltb, ◌==◌, if◌then◌else◌, string_eq, nat_eq,
}
use superset_agent_orchestra.Graph.Json.{
  Value, null, boolean, string, array, object, nil, item, end, field,
}
use superset_agent_orchestra.Graph.Schema.{
  Kind, Schema, schema, Properties, property, unchecked, CallNode,
}
use superset_agent_orchestra.Graph.Checker.{ValidationResult, validate_call_graph}
use superset_agent_orchestra.Graph.Policy.{
  ExecutableTool, ReplayMode, recording, ExecutionPolicy, AuditDecision, Failure, AuditEntry,
  ReplayCore, ReplayRecord, Spawned, printed, crashed, Runtime, clone, hash_json, authenticate,
  authenticated, input_limit, output_limit, key_of,
}

pub record Progress : Type 0 where
  pub audit : List AuditEntry
  pub outputs : List (String × Value)
  pub generated : List ReplayRecord

pub data Execution : Type 0 where
  completed : Progress → Execution
  refused : Failure → List AuditEntry → Execution

-- `appendAudit`
unfoldable pub append_audit :
    Runtime
    → Option (CallNode × ExecutableTool)
    → AuditDecision
    → Value
    → Value
    → Option Failure
    → List AuditEntry
    → List AuditEntry
append_audit rt about decision input output error audit =
    audit
    ++ record {
      sequence = length audit;
      node_id = elim about [ none ↦ none | some (n, t) ↦ some n.id ];
      tool = elim about [ none ↦ none | some (n, t) ↦ some n.tool ];
      capability = elim about [ none ↦ none | some (n, t) ↦ some t.capability ];
      decision = decision;
      input = clone rt input;
      output = clone rt output;
      error = error;
    }
      ∷ []

-- What one call gives: an output, or an error with the output that was seen.
pub data Attempt : Type 0 where
  produced : Value → Attempt
  failed_with : Failure → Value → Attempt

abbrev pub attempt_of : Spawned → Attempt
attempt_of (printed v) = produced v
attempt_of (crashed why) = failed_with (Failure.process_failed why) null

unfoldable pub run_sandboxed : Runtime → ExecutionPolicy → ℕ → ExecutableTool → Value → Attempt
run_sandboxed rt p sequence tool input =
    if not rt.is_darwin
    then failed_with Failure.unsupported_platform null
    else if ltb (64 * 1024) (len tool.source)
    then failed_with Failure.source_too_long null
    else if ltb (input_limit p) (rt.byte_length (clone rt input))
    then failed_with Failure.input_too_long null
    else attempt_of (rt.spawn sequence tool (clone rt input))

abbrev pub wrapper : Schema → Schema
wrapper output =
    schema
      (record {
        kind = some Kind.object;
        required = "value" ∷ [];
        closed = true;
        options = none;
        format = none;
      })
      (property "value" output Properties.end) unchecked

abbrev pub output_graph : String → Value → Value
output_graph id output = object (
    field "nodes"
      (array (
        item
          (object (
            field "id" (string id) (
              field "tool" (string "output")
                (field "arguments" (object (field "value" output end)) end))))
          nil))
      end)

abbrev pub says_valid : Option ValidationResult → Bool
says_valid none = false
says_valid (some r) = r.valid

-- `validateOutput`: a graph of one node whose arguments hold the output.
unfoldable pub validate_output : Runtime → CallNode → ExecutableTool → Value → Bool
validate_output rt n tool output = says_valid (
    validate_call_graph rt.platform (output_graph n.id output)
      (("output", record { input = wrapper tool.output; output = none }) ∷ []))

-- `validateOutput` and `assertOutputSize`
unfoldable pub check_output :
    Runtime → ExecutionPolicy → CallNode → ExecutableTool → Value → Attempt
check_output rt p n tool output =
    if not (validate_output rt n tool output)
    then failed_with Failure.invalid_output output
    else if ltb (output_limit p) (rt.byte_length (clone rt output))
    then failed_with Failure.output_too_long output
    else produced output

abbrev pub then_check : (Value → Attempt) → Attempt → Attempt
then_check check (produced v) = check v
then_check check (failed_with why seen) = failed_with why seen

-- `makeReplay`
unfoldable pub make_replay :
    Runtime → ExecutionPolicy → ℕ → CallNode → ExecutableTool → Value → Value → ReplayRecord
make_replay rt p sequence n tool input output =
    let core : ReplayCore = record {
      sequence = sequence;
      node_id = n.id;
      tool = n.tool;
      input_hash = hash_json rt input;
      output = clone rt output;
      tool_hash = rt.tool_digest tool;
    } in
    record { core = core; record_hash = authenticate rt (key_of p) core }

-- `verifyReplay`
unfoldable pub verify_replay :
    Runtime → ExecutionPolicy → ReplayRecord → ℕ → CallNode → ExecutableTool → Value → Attempt
verify_replay rt p r sequence n tool input =
    if authenticated rt r.core r.record_hash (key_of p)
      && r.core.sequence == sequence
      && r.core.node_id == n.id
      && r.core.tool == n.tool
      && r.core.input_hash == hash_json rt input
      && r.core.tool_hash == rt.tool_digest tool
    then produced (clone rt r.core.output)
    else failed_with Failure.replay_mismatch null

-- `boundedAuditValue`
unfoldable pub bounded_audit_value : Runtime → ExecutionPolicy → Value → Value
bounded_audit_value rt p v =
    if leb (rt.byte_length (clone rt v)) (output_limit p)
    then clone rt v
    else object (
        field "truncated" (boolean true)
          (field "reason" (string ("output exceeds " <> show (output_limit p) <> " bytes")) end))

-- `outputs.set`
unfoldable pub set_output : String → Value → List (String × Value) → List (String × Value)
set_output id v [] = (id, v) ∷ []
set_output id v ((k, w) ∷ rest) = if k == id then (k, v) ∷ rest else (k, w) ∷ set_output id v rest

abbrev pub is_recording : ReplayMode → Bool
is_recording recording = true
is_recording _ = false

abbrev pub is_replay : ReplayMode → Bool
is_replay ReplayMode.replay = true
is_replay _ = false

-- ===== src/Graph/Execute.antt =====
-- src/call-executor.ts: `executeCallGraph`. An outcome is what the promise settles with, and the audit
-- as it stands then; the audit sink of the caller is taken to succeed.
use superset_agent_orchestra.Base.{
  ℕ, suc, Bool, false, ◌&&◌, not, Option, none, some, List, [], ◌∷◌, ◌++◌, length, ltb, ◌==◌,
  if◌then◌else◌, string_eq, nat_eq,
}
use superset_agent_orchestra.Graph.Json.{
  Value, null, number, array, object, Items, end, field, contains, size_items,
}
use superset_agent_orchestra.Graph.Schema.{CallNode}
use superset_agent_orchestra.Graph.Checker.{collect, validate_call_graph}
use superset_agent_orchestra.Graph.Canonical.{clone_items}
use superset_agent_orchestra.Graph.Topology.{resolve_references, topological_order}
use superset_agent_orchestra.Graph.Policy.{
  ExecutableTool, ExecutableTools, executable_named, schemas, ExecutionPolicy, AuditDecision,
  Failure, AuditEntry, ReplayRecord, Runtime, clone, assert_policy, node_limit,
}
use superset_agent_orchestra.Graph.Records.{
  Attempt, Execution, Progress, append_audit, bounded_audit_value, check_output, completed,
  failed_with, is_recording, is_replay, make_replay, produced, refused, run_sandboxed, says_valid,
  set_output, then_check, verify_replay,
}

-- The output of the node: run, or read from its record.
unfoldable pub live_output :
    Runtime → ExecutionPolicy → ℕ → CallNode → ExecutableTool → Value → Attempt
live_output rt p sequence n tool input =
    then_check (check_output rt p n tool) (run_sandboxed rt p sequence tool input)

unfoldable pub replayed_output :
    Runtime → ExecutionPolicy → ReplayRecord → ℕ → CallNode → ExecutableTool → Value → Attempt
replayed_output rt p r sequence n tool input =
    then_check (check_output rt p n tool) (verify_replay rt p r sequence n tool input)

-- The catch of the loop: the failure is logged and ends the execution.
unfoldable pub fail_node :
    Runtime
    → ExecutionPolicy
    → CallNode
    → ExecutableTool
    → Value
    → Failure
    → Value
    → List AuditEntry
    → Execution
fail_node rt p n tool input why seen audit = refused why (
    append_audit rt (some (n, tool)) AuditDecision.failed input (bounded_audit_value rt p seen)
      (some why) audit)

-- A run of a tool. What the record keeps is the clone of the output's clone.
unfoldable pub finish_live :
    Runtime → ExecutionPolicy → ℕ → CallNode → ExecutableTool → Value → Value → Progress → Progress
finish_live rt p sequence n tool input output st =
    let safe = clone rt (clone rt output) in
    record {
      audit =
          append_audit rt (some (n, tool)) AuditDecision.executed input (clone rt output) none
            st.audit;
      outputs = set_output n.id safe st.outputs;
      generated =
          if is_recording p.replay_mode
          then st.generated ++ make_replay rt p sequence n tool input safe ∷ []
          else st.generated;
    }

unfoldable pub finish_replay :
    Runtime → CallNode → ExecutableTool → Value → Value → Progress → Progress
finish_replay rt n tool input output st = record st {
  audit = append_audit rt (some (n, tool)) AuditDecision.replayed input output none st.audit;
  outputs = set_output n.id (clone rt output) st.outputs;
}

-- The try and the catch of a round.
abbrev pub settle :
    (Failure → Value → List AuditEntry → Execution)
    → List AuditEntry
    → (Value → Execution)
    → Attempt
    → Execution
settle fail audit next (produced output) = next output
settle fail audit next (failed_with why seen) = fail why seen audit

-- One round of the loop over the ordered nodes, with the rest of the loop as what comes next.
unfoldable pub execute_live :
    Runtime
    → ExecutionPolicy
    → ℕ
    → CallNode
    → ExecutableTool
    → Value
    → Progress
    → (Progress → Execution)
    → Execution
execute_live rt p sequence n tool input st next =
    let tried = record st {
      audit = append_audit rt (some (n, tool)) AuditDecision.attempted input null none st.audit;
    } in
    settle (fail_node rt p n tool input) tried.audit
      (λ output. next (finish_live rt p sequence n tool input output tried))
      (live_output rt p sequence n tool input)

unfoldable pub execute_replay :
    Runtime
    → ExecutionPolicy
    → ReplayRecord
    → ℕ
    → CallNode
    → ExecutableTool
    → Value
    → Progress
    → (Progress → Execution)
    → Execution
execute_replay rt p r sequence n tool input st next =
    settle (fail_node rt p n tool input) st.audit
      (λ output. next (finish_replay rt n tool input output st))
      (replayed_output rt p r sequence n tool input)

unfoldable pub run_live :
    Runtime → ExecutionPolicy → ExecutableTools → List CallNode → ℕ → Progress → Execution
run_live rt p tools [] sequence st = completed st
run_live rt p tools (n ∷ ns) sequence st = elim (executable_named n.tool tools) [
  | none ↦ refused Failure.invalid_graph st.audit
  | some tool ↦ elim (resolve_references (clone rt) n.arguments st.outputs) [
    | none ↦ refused Failure.missing_output st.audit
    | some arguments ↦
        execute_live rt p sequence n tool (clone rt arguments) st
          (λ st'. run_live rt p tools ns (suc sequence) st')
  ]
]

unfoldable pub run_replay :
    Runtime
    → ExecutionPolicy
    → ExecutableTools
    → List CallNode
    → List ReplayRecord
    → ℕ
    → Progress
    → Execution
run_replay rt p tools [] rs sequence st = completed st
run_replay rt p tools (n ∷ ns) [] sequence st = refused Failure.replay_count st.audit
run_replay rt p tools (n ∷ ns) (r ∷ rs) sequence st = elim (executable_named n.tool tools) [
  | none ↦ refused Failure.invalid_graph st.audit
  | some tool ↦ elim (resolve_references (clone rt) n.arguments st.outputs) [
    | none ↦ refused Failure.missing_output st.audit
    | some arguments ↦
        execute_replay rt p r sequence n tool (clone rt arguments) st
          (λ st'. run_replay rt p tools ns rs (suc sequence) st')
  ]
]

-- A valid graph has a tool for each node. The first node whose tool has a capability that the policy does not allow, with its tool.
unfoldable pub forbidden :
    ExecutionPolicy → ExecutableTools → List CallNode → Option (CallNode × ExecutableTool)
forbidden p tools [] = none
forbidden p tools (n ∷ ns) =
    let rest = forbidden p tools ns in
    elim (executable_named n.tool tools) [
      | none ↦ rest
      | some tool ↦ if contains p.allowed_capabilities tool.capability then rest else some (n, tool)
    ]

unfoldable pub clone_record : Runtime → ReplayRecord → ReplayRecord
clone_record rt r = record r { core = record (r.core) { output = clone rt r.core.output } }

unfoldable pub clone_records : Runtime → List ReplayRecord → List ReplayRecord
clone_records rt [] = []
clone_records rt (r ∷ rs) = clone_record rt r ∷ clone_records rt rs

abbrev pub nothing_yet : Progress
nothing_yet = record { audit = []; outputs = []; generated = [] }

-- The loop, in the mode of the policy.
unfoldable pub run_nodes :
    Runtime → ExecutionPolicy → ExecutableTools → List CallNode → List ReplayRecord → Execution
run_nodes rt p tools ordered rs =
    if is_replay p.replay_mode
    then run_replay rt p tools ordered rs 0 nothing_yet
    else run_live rt p tools ordered 0 nothing_yet

unfoldable pub authorize_and_run :
    Runtime → ExecutionPolicy → ExecutableTools → List CallNode → List ReplayRecord → Execution
authorize_and_run rt p tools ordered rs = elim (forbidden p tools ordered) [
  | some (n, tool) ↦ refused (Failure.denied tool.capability) (
      append_audit rt (some (n, tool)) AuditDecision.capability_denied n.arguments null
        (some (Failure.denied tool.capability)) [])
  | none ↦ run_nodes rt p tools ordered rs
]

abbrev same_count : List ReplayRecord → List CallNode → Bool
same_count rs ns = length rs == length ns

-- What follows a valid graph.
unfoldable pub schedule_and_run :
    Runtime → ExecutionPolicy → ExecutableTools → List CallNode → List ReplayRecord → Execution
schedule_and_run rt p tools nodes rs =
    if not (is_replay p.replay_mode) && not (length rs == 0)
    then refused Failure.unexpected_replay []
    else elim (topological_order nodes) [
      | none ↦ refused Failure.no_order []
      | some ordered ↦
          if is_replay p.replay_mode && not (same_count rs ordered)
          then refused Failure.replay_count []
          else authorize_and_run rt p tools ordered rs
    ]

abbrev pub graph_of : Items → Value
graph_of items = object (field "nodes" (array items) end)

abbrev pub nodes_of : Items → List CallNode
nodes_of items = (collect 0 items (record { nodes = []; found = [] })).nodes

abbrev whole : ℕ → Value
whole n = number (record { negative = false; significand = n; halvings = 0 })

abbrev counts : Items → ExecutionPolicy → Value
counts items p =
    object
      (field "nodeCount" (whole (size_items items)) (field "maxNodes" (whole (node_limit p)) end))

abbrev pub clone_array : Runtime → Items → Items
clone_array rt items = clone_items rt.before items

-- The graph is the array of its nodes; the tools are the snapshot that Graph.Snapshot takes of them.
unfoldable pub execute_call_graph :
    Runtime → ExecutionPolicy → ExecutableTools → Items → List ReplayRecord → Execution
execute_call_graph rt p tools items rs =
    let snapshot = clone_array rt items in
    if not (assert_policy p)
    then refused Failure.bad_policy []
    else if ltb (node_limit p) (size_items items)
    then refused Failure.too_many_nodes (
        append_audit rt none AuditDecision.validation_denied (counts items p) null
          (some Failure.too_many_nodes) [])
    else if says_valid (validate_call_graph rt.platform (graph_of snapshot) (schemas tools))
    then schedule_and_run rt p tools (nodes_of snapshot) (clone_records rt rs)
    else refused Failure.invalid_graph (
        append_audit rt none AuditDecision.validation_denied (graph_of snapshot) null
          (some Failure.invalid_graph) [])

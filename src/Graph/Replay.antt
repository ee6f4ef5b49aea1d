-- ===== src/Graph/Replay.antt =====
-- src/call-executor.ts: what was recorded can be replayed.
use superset_agent_orchestra.Base.{
  ℕ, suc, true, false, not, none, some, List, [], ◌∷◌, ◌++◌, ◌≡◌, refl, sym, ap, ◌∙◌, inl, inr,
  nat_beq_iff, Bool-cases, Option-cases, length, ltb, ◌==◌, string_eq, nat_eq,
}
use Prim.Native.String.{len}
use mathlib.Core.List.{append-nil, append_assoc}
use superset_agent_orchestra.Graph.Json.{Value, null, Items, contains, size_items}
use superset_agent_orchestra.Graph.Schema.{CallNode}
use superset_agent_orchestra.Graph.Checker.{validate_call_graph}
use superset_agent_orchestra.Graph.Canonical.{IsAsymmetric}
use superset_agent_orchestra.Graph.Topology.{resolve_references, topological_order}
use superset_agent_orchestra.Graph.Policy.{
  ExecutableTool, ExecutableTools, executable_named, schemas, ExecutionPolicy, Failure,
  AuditDecision, ReplayRecord, Runtime, clone, assert_policy, node_limit,
}
use superset_agent_orchestra.Graph.Execute.{
  fail_node, live_output, replayed_output, finish_live, finish_replay, execute_live, execute_replay,
  run_live, run_replay, forbidden, clone_record, clone_records, graph_of, clone_array, nodes_of,
  nothing_yet, run_nodes, authorize_and_run, schedule_and_run, execute_call_graph,
}
use superset_agent_orchestra.Graph.Records.{
  append_audit, bounded_audit_value, Progress, completed, refused, Attempt, produced, failed_with,
  make_replay, set_output, says_valid,
}
use superset_agent_orchestra.Graph.Snapshot.{
  AreSnapshotTools, tool_snapshot, snapshot-AreSnapshotTools,
}
use superset_agent_orchestra.Graph.Recording.{
  to_record, to_replay, completed_injective, held, not-false, passed,
}
use superset_agent_orchestra.Graph.Reproduced.{live_output-produced, replayed_output-make}

module _ (rt : Runtime) (asymmetric : IsAsymmetric rt.before) (p : ExecutionPolicy) where
  run_replay-round :
      (tools : ExecutableTools) (n : CallNode) (ns : List CallNode) (rec : ReplayRecord)
      (rs : List ReplayRecord) (sequence : ℕ) (st : Progress) (tool : ExecutableTool)
      (arguments output : Value)
      → executable_named n.tool tools ≡ some tool
      → resolve_references (clone rt) n.arguments st.outputs ≡ some arguments
      → replayed_output rt (to_replay p) rec sequence n tool (clone rt arguments) ≡ produced output
      → run_replay rt (to_replay p) tools (n ∷ ns) (rec ∷ rs) sequence st
        ≡ run_replay rt
            (to_replay p)
            tools
            ns
            rs
            (suc sequence)
            (finish_replay rt n tool (clone rt arguments) output st)
  unfolding run_replay execute_replay
  run_replay-round tools n ns rec rs sequence st tool arguments output f g h =
      rw (f, run_replay, g, h, execute_replay)

  -- What the recording of the rest of the nodes says of its replay.
  abbrev Replays : ExecutableTools → List CallNode → ℕ → Progress → Progress → Type 0
  Replays tools ns sequence st r =
      (rs : List ReplayRecord) × (r.generated ≡ st.generated ++ rs)
      × (length rs ≡ length ns)
      × ((st' : Progress)
          → st'.outputs ≡ st.outputs
          → (r' : Progress) × (run_replay rt (to_replay p) tools ns (clone_records rt rs) sequence
                st'
              ≡ completed r')
            × (r'.outputs ≡ r.outputs))

  -- The state after a run of the node, where it was attempted in the audit.
  abbrev after : CallNode → ExecutableTool → Value → Value → ℕ → Progress → Progress
  after n tool input output sequence st =
      finish_live rt (to_record p) sequence n tool input output (record st {
        audit = append_audit rt (some (n, tool)) AuditDecision.attempted input null none st.audit;
      })

  abbrev Rounds : ExecutableTools → CallNode → List CallNode → ℕ → Progress → Progress → Type 0
  Rounds tools n ns sequence st r =
      (tool : ExecutableTool) × (arguments output : Value) × (executable_named n.tool tools
        ≡ some tool)
      × (resolve_references (clone rt) n.arguments st.outputs ≡ some arguments)
      × (live_output rt (to_record p) sequence n tool (clone rt arguments) ≡ produced output)
      × (run_live rt (to_record p) tools ns (suc sequence)
            (after n tool (clone rt arguments) output sequence st)
          ≡ completed r)

  run_live-Rounds :
      (tools : ExecutableTools) (n : CallNode) (ns : List CallNode) (sequence : ℕ) (st r : Progress)
      → run_live rt (to_record p) tools (n ∷ ns) sequence st ≡ completed r
      → Rounds tools n ns sequence st r
  unfolding run_live execute_live fail_node
  run_live-Rounds tools n ns sequence st r e = elim (Option-cases (executable_named n.tool tools)) [
    | inl f ↦
        let no : refused Failure.invalid_graph st.audit ≡ completed r = rw (f, run_live) at e in
        absurd (cc)
    | inr (tool, f) ↦ elim (Option-cases (resolve_references (clone rt) n.arguments st.outputs)) [
      | inl g ↦
          let no : refused Failure.missing_output st.audit ≡ completed r =
            rw (f, g, run_live) at e in
          absurd (cc)
      | inr (arguments, g) ↦
          go tool arguments f g (live_output rt (to_record p) sequence n tool (clone rt arguments))
            refl (rw (f, g, run_live) at e)
    ]
  ]
    where
      go :
          (tool : ExecutableTool) (arguments : Value)
          → executable_named n.tool tools ≡ some tool
          → resolve_references (clone rt) n.arguments st.outputs ≡ some arguments
          → (a : Attempt) → live_output rt (to_record p) sequence n tool (clone rt arguments) ≡ a
          → execute_live rt
              (to_record p)
              sequence
              n
              tool
              (clone rt arguments)
              st
              (λ st'. run_live rt (to_record p) tools ns (suc sequence) st')
            ≡ completed r
          → Rounds tools n ns sequence st r
      go tool arguments f g (produced output) h e' =
          (tool, arguments, output, f, g, h, rw (h, execute_live) at e')
      go tool arguments f g (failed_with why seen) h e' =
          let no : refused why (
                append_audit rt (some (n, tool)) AuditDecision.failed (clone rt arguments)
                  (bounded_audit_value rt (to_record p) seen) (some why)
                  (append_audit rt (some (n, tool)) AuditDecision.attempted (clone rt arguments)
                    null none st.audit))
              ≡ completed r =
            rw (h, execute_live) at e' in
          absurd (cc)

  run_live-Replays :
      (tools : ExecutableTools) (snap : AreSnapshotTools rt tools) (ns : List CallNode)
      (sequence : ℕ) (st r : Progress)
      → run_live rt (to_record p) tools ns sequence st ≡ completed r
      → Replays tools ns sequence st r
  unfolding run_live run_replay clone_records finish_live finish_replay
  run_live-Replays tools snap [] sequence st r e =
      let same : st ≡ r = completed_injective e in
      (
        [],
        ap (λ (x : Progress). x.generated) (sym same) ∙ sym (append-nil st.generated),
        refl,
        λ st' h. (st', refl, h ∙ ap (λ (x : Progress). x.outputs) same),
      )
  run_live-Replays tools snap (n ∷ ns) sequence st r e =
      let (tool, arguments, output, f, g, h, rest) = run_live-Rounds tools n ns sequence st r e in
      let input = clone rt arguments in
      let (rs, gen, len, replays) =
        run_live-Replays tools snap ns (suc sequence) (after n tool input output sequence st) r
          rest in
      let checks =
        live_output-produced rt asymmetric p sequence n tool input output (snap n.tool tool f) h in
      let made = make_replay rt (to_record p) sequence n tool input (clone rt (clone rt output)) in
      (
        made ∷ rs,
        gen ∙ append_assoc st.generated (made ∷ []) rs,
        ap suc len,
        λ st' same.
            let (r', e', o) =
              replays (finish_replay rt n tool input (clone rt output) st')
                (λ i. set_output n.id (clone rt (clone rt output)) (same i)) in
            (
              r',
              run_replay-round tools n ns (clone_record rt made) (clone_records rt rs) sequence st'
                    tool arguments (clone rt output) f
                    (ap (resolve_references (clone rt) n.arguments) same ∙ g)
                    (replayed_output-make rt asymmetric p sequence n tool input output checks)
                  ∙ e',
              o,
            ),
      )

  forbidden-mode :
      (tools : ExecutableTools) (ns : List CallNode)
      → forbidden (to_replay p) tools ns ≡ forbidden (to_record p) tools ns
  unfolding forbidden
  forbidden-mode tools [] = refl
  forbidden-mode tools (n ∷ ns) =
      let rest = forbidden-mode tools ns in
      elim (Option-cases (executable_named n.tool tools)) [
        | inl f ↦ rw (f, forbidden) rest
        | inr (tool, f) ↦ elim (Bool-cases (contains p.allowed_capabilities tool.capability)) [
          | inl y ↦ rw (f, forbidden, y) rest
          | inr y ↦ rw (f, forbidden, y)
        ]
      ]

  assert_policy-mode : assert_policy (to_record p) ≡ true → assert_policy (to_replay p) ≡ true
  unfolding assert_policy
  assert_policy-mode h = h

  length-clone_records : (rs : List ReplayRecord) → length (clone_records rt rs) ≡ length rs
  unfolding clone_records
  length-clone_records [] = refl
  length-clone_records (r ∷ rs) = ap suc (length-clone_records rs)

  schedule_and_run-completed :
      (tools : ExecutableTools) (nodes : List CallNode) (r : Progress)
      → schedule_and_run rt (to_record p) tools nodes [] ≡ completed r
      → (ordered : List CallNode) × (topological_order nodes ≡ some ordered)
        × (forbidden (to_record p) tools ordered ≡ none)
        × (run_live rt (to_record p) tools ordered 0 nothing_yet ≡ completed r)
  unfolding schedule_and_run authorize_and_run run_nodes
  schedule_and_run-completed tools nodes r e = elim (Option-cases (topological_order nodes)) [
    | inl f ↦
        let no : refused Failure.no_order [] ≡ completed r = rw (f, schedule_and_run) at e in
        absurd (cc)
    | inr (ordered, f) ↦ elim (Option-cases (forbidden (to_record p) tools ordered)) [
      | inl g ↦ (ordered, f, g, rw (f, schedule_and_run, g, authorize_and_run) at e)
      | inr ((n, tool), g) ↦
          let no : refused (Failure.denied tool.capability) (
                append_audit rt (some (n, tool)) AuditDecision.capability_denied n.arguments null
                  (some (Failure.denied tool.capability)) [])
              ≡ completed r =
            rw (f, schedule_and_run, g, authorize_and_run) at e in
          absurd (cc)
    ]
  ]

  schedule_and_run-replay :
      (tools : ExecutableTools) (nodes ordered : List CallNode) (rs : List ReplayRecord)
      → topological_order nodes ≡ some ordered
      → forbidden (to_record p) tools ordered ≡ none
      → length rs ≡ length ordered
      → schedule_and_run rt (to_replay p) tools nodes (clone_records rt rs)
        ≡ run_replay rt (to_replay p) tools ordered (clone_records rt rs) 0 nothing_yet
  unfolding schedule_and_run authorize_and_run run_nodes
  schedule_and_run-replay tools nodes ordered rs f g len =
      let count : (length (clone_records rt rs) == length ordered) ≡ true =
        (nat_beq_iff _ _).1 (length-clone_records rs ∙ len) in
      rw (f, schedule_and_run, count, forbidden-mode tools ordered ∙ g, authorize_and_run)

-- A graph that is executed at all: the policy, the size and the validation let it through.
abbrev IsAdmitted : Runtime → ExecutionPolicy → ExecutableTools → Items → Type 0
IsAdmitted rt p tools items =
    (assert_policy p ≡ true)
    × (ltb (node_limit p) (size_items items) ≡ false)
    × (says_valid
          (validate_call_graph rt.platform (graph_of (clone_array rt items)) (schemas tools))
        ≡ true)

completed-IsAdmitted :
    (rt : Runtime) (p : ExecutionPolicy) (tools : ExecutableTools) (items : Items)
    (rs : List ReplayRecord) (r : Progress)
    → execute_call_graph rt p tools items rs ≡ completed r
    → IsAdmitted rt p tools items
      × (schedule_and_run rt p tools (nodes_of (clone_array rt items)) (clone_records rt rs)
          ≡ completed r)
unfolding execute_call_graph
completed-IsAdmitted rt p tools items rs r e =
    let (a, e') = passed (not (assert_policy p)) Failure.bad_policy [] _ e in
    let (b, e'') = passed (ltb (node_limit p) (size_items items)) Failure.too_many_nodes _ _ e' in
    let (c, e3) =
      held
        (says_valid
          (validate_call_graph rt.platform (graph_of (clone_array rt items)) (schemas tools)))
        Failure.invalid_graph _ _ e'' in
    ((not-false _ a, b, c), e3)

IsAdmitted-runs :
    (rt : Runtime) (p : ExecutionPolicy) (tools : ExecutableTools) (items : Items)
    (rs : List ReplayRecord)
    → IsAdmitted rt p tools items
    → execute_call_graph rt p tools items rs
      ≡ schedule_and_run rt p tools (nodes_of (clone_array rt items)) (clone_records rt rs)
unfolding execute_call_graph
IsAdmitted-runs rt p tools items rs (a, b, c) = rw (a, execute_call_graph, b, c)

snapshot-replay :
    (rt : Runtime) (p : ExecutionPolicy) (tools : ExecutableTools) (items : Items) (r : Progress)
    → IsAsymmetric rt.before
    → AreSnapshotTools rt tools
    → execute_call_graph rt (to_record p) tools items [] ≡ completed r
    → (r' : Progress) × (execute_call_graph rt (to_replay p) tools items r.generated ≡ completed r')
      × (r'.outputs ≡ r.outputs)
unfolding execute_call_graph clone_records
snapshot-replay rt p tools items r asymmetric snap e =
    let (admitted, e') = completed-IsAdmitted rt (to_record p) tools items [] r e in
    let nodes = nodes_of (clone_array rt items) in
    let (ordered, f, g, ran) = schedule_and_run-completed rt asymmetric p tools nodes r e' in
    let (rs, gen, len, replays) =
      run_live-Replays rt asymmetric p tools snap ordered 0 nothing_yet r ran in
    let (r', e'', same) = replays nothing_yet refl in
    (
      r',
      IsAdmitted-runs rt (to_replay p) tools items r.generated
            (assert_policy-mode rt asymmetric p admitted.0, admitted.1, admitted.2)
          ∙ ap (λ l. schedule_and_run rt (to_replay p) tools nodes (clone_records rt l)) gen
          ∙ schedule_and_run-replay rt asymmetric p tools nodes ordered rs f g len
          ∙ e'',
      same,
    )

-- A recorded execution can be replayed: if the execution of a graph in record mode completes, then
-- the replay of its records, under the same policy, graph and tools, completes with the same
-- outputs, whatever the tools print and however often they change their answer. Both executions are
-- given the clone of the tools that executeCallGraph takes before it reads them. Of the order in
-- which JavaScript lists keys, asymmetry is used.
pub execute_call_graph-replay :
    (rt : Runtime) (p : ExecutionPolicy) (tools : ExecutableTools) (items : Items) (r : Progress)
    → IsAsymmetric rt.before
    → execute_call_graph rt (to_record p) (tool_snapshot rt.before tools) items [] ≡ completed r
    → (r' : Progress) × (execute_call_graph rt
          (to_replay p)
          (tool_snapshot rt.before tools)
          items
          r.generated
        ≡ completed r')
      × (r'.outputs ≡ r.outputs)
execute_call_graph-replay rt p tools items r asymmetric =
    snapshot-replay rt p (tool_snapshot rt.before tools) items r asymmetric
      (snapshot-AreSnapshotTools rt asymmetric tools)

-- ===== src/Graph/Audited.antt =====
-- src/call-executor.ts: what the audit of an execution says of the capabilities that it used.
use superset_agent_orchestra.Base.{
  ℕ, suc, ◌+◌, String, Bool, true, false, ◌&&◌, not, Option, none, some, List, [], ◌∷◌, ◌++◌, ◌≡◌,
  ◌≢◌, refl, inl, inr, arith, Bool-cases, Option-cases, All, All-append, all, length, ltb, ◌==◌,
  if◌then◌else◌, nat_eq,
}
use superset_agent_orchestra.Graph.Json.{Value, null, Items, contains, size_items}
use superset_agent_orchestra.Graph.Schema.{CallNode}
use superset_agent_orchestra.Graph.Checker.{validate_call_graph}
use superset_agent_orchestra.Graph.Topology.{resolve_references, topological_order}
use superset_agent_orchestra.Graph.Policy.{
  ExecutableTool, ExecutableTools, executable_named, schemas, ExecutionPolicy, AuditDecision,
  validation_denied, capability_denied, attempted, executed, failed, replayed, Failure, AuditEntry,
  ReplayRecord, Runtime, clone, assert_policy, node_limit,
}
use superset_agent_orchestra.Graph.Execute.{
  settle, fail_node, live_output, replayed_output, finish_live, finish_replay, execute_live,
  execute_replay, run_live, run_replay, forbidden, clone_records, graph_of, clone_array, nodes_of,
  nothing_yet, run_nodes, authorize_and_run, schedule_and_run, execute_call_graph,
}
use superset_agent_orchestra.Graph.Records.{
  append_audit, is_replay, bounded_audit_value, Progress, Execution, completed, refused, Attempt,
  produced, failed_with, says_valid,
}

-- The decisions of a node whose tool was run or replayed.
abbrev pub is_run : AuditDecision → Bool
is_run validation_denied = false
is_run capability_denied = false
is_run _ = true

-- An entry for a run names a capability that the policy allows.
abbrev pub IsAllowed : ExecutionPolicy → AuditEntry → Type 0
IsAllowed p e =
    is_run e.decision ≡ true
    → (c : String) × (e.capability ≡ some c) × (contains p.allowed_capabilities c ≡ true)

-- The entries are numbered one after the other.
unfoldable pub is_numbered : ℕ → List AuditEntry → Bool
is_numbered i [] = true
is_numbered i (e ∷ es) = e.sequence == i && is_numbered (suc i) es

pub record IsLog (p : ExecutionPolicy) (audit : List AuditEntry) : Type 0 where
  pub allowed : All (IsAllowed p) audit
  pub numbered : is_numbered 0 audit ≡ true

abbrev pub audit_of : Execution → List AuditEntry
audit_of (completed st) = st.audit
audit_of (refused why audit) = audit

-- No entry is for a run.
unfoldable pub runs_nothing : List AuditEntry → Bool
runs_nothing audit = all (λ (e : AuditEntry). not (is_run e.decision)) audit

-- What holds of the audits of both branches.
of_branches {ℓ} :
    (P : List AuditEntry → Type ℓ) (b : Bool) (x y : Execution)
    → P (audit_of x)
    → P (audit_of y)
    → P (audit_of (if b then x else y))
of_branches P true x y h k = h
of_branches P false x y h k = k

is_numbered-append :
    (i : ℕ) (es : List AuditEntry) (e : AuditEntry)
    → is_numbered i es ≡ true
    → e.sequence ≡ i + length es
    → is_numbered i (es ++ e ∷ []) ≡ true
unfolding is_numbered
is_numbered-append i [] e h s = ground arith
is_numbered-append i (x ∷ es) e h s = ground (arith, is_numbered-append (suc i) es e)

module _ (rt : Runtime) (p : ExecutionPolicy) where
  append_audit-IsLog :
      (n : CallNode) (tool : ExecutableTool) (decision : AuditDecision) (input output : Value)
      (error : Option Failure) (audit : List AuditEntry)
      → contains p.allowed_capabilities tool.capability ≡ true
      → IsLog p audit
      → IsLog p (append_audit rt (some (n, tool)) decision input output error audit)
  unfolding append_audit
  append_audit-IsLog n tool decision input output error audit ok log = record {
    allowed = All-append (IsAllowed p) audit _ log.allowed ((λ _. (tool.capability, refl, ok)), tt);
    numbered = is_numbered-append 0 audit _ log.numbered (omega arith);
  }

  -- Of the nodes that nothing forbids, the first has a tool that is allowed.
  forbidden-none :
      (tools : ExecutableTools) (n : CallNode) (ns : List CallNode) (tool : ExecutableTool)
      → forbidden p tools (n ∷ ns) ≡ none
      → executable_named n.tool tools ≡ some tool
      → (contains p.allowed_capabilities tool.capability ≡ true) × (forbidden p tools ns ≡ none)
  unfolding forbidden
  forbidden-none tools n ns tool e f =
      elim (Bool-cases (contains p.allowed_capabilities tool.capability)) [
        | inl y ↦ (y, rw (f, forbidden, y) at e)
        | inr y ↦
            let found : CallNode × ExecutableTool = (n, tool) in
            let no : some found ≡ none = rw (f, forbidden, y) at e in absurd (cc)
      ]

  module _ (n : CallNode) (tool : ExecutableTool) (input : Value) (sequence : ℕ)
      (ok : contains p.allowed_capabilities tool.capability ≡ true) where
    settle-IsLog :
        (audit : List AuditEntry) (next : Value → Execution) (a : Attempt)
        → IsLog p audit
        → ((output : Value) → IsLog p (audit_of (next output)))
        → IsLog p (audit_of (settle (fail_node rt p n tool input) audit next a))
    unfolding fail_node
    settle-IsLog audit next (produced output) log keep = keep output
    settle-IsLog audit next (failed_with why seen) log keep =
        append_audit-IsLog n tool failed input (bounded_audit_value rt p seen) (some why) audit ok
          log

    execute_live-IsLog :
        (st : Progress) (next : Progress → Execution)
        → IsLog p st.audit
        → ((st' : Progress) → IsLog p st'.audit → IsLog p (audit_of (next st')))
        → IsLog p (audit_of (execute_live rt p sequence n tool input st next))
    unfolding execute_live finish_live
    execute_live-IsLog st next log keep =
        let tried = append_audit-IsLog n tool attempted input null none st.audit ok log in
        settle-IsLog _ _ (live_output rt p sequence n tool input) tried (λ output.
          keep _ (append_audit-IsLog n tool executed input (clone rt output) none _ ok tried))

    execute_replay-IsLog :
        (r : ReplayRecord) (st : Progress) (next : Progress → Execution)
        → IsLog p st.audit
        → ((st' : Progress) → IsLog p st'.audit → IsLog p (audit_of (next st')))
        → IsLog p (audit_of (execute_replay rt p r sequence n tool input st next))
    unfolding execute_replay finish_replay
    execute_replay-IsLog r st next log keep =
        settle-IsLog _ _ (replayed_output rt p r sequence n tool input) log
          (λ output. keep _ (append_audit-IsLog n tool replayed input output none _ ok log))

  run_live-IsLog :
      (tools : ExecutableTools) (ns : List CallNode) (sequence : ℕ) (st : Progress)
      → forbidden p tools ns ≡ none
      → IsLog p st.audit
      → IsLog p (audit_of (run_live rt p tools ns sequence st))
  unfolding run_live
  run_live-IsLog tools [] sequence st free log = log
  run_live-IsLog tools (n ∷ ns) sequence st free log =
      elim (Option-cases (executable_named n.tool tools)) [
        | inl f ↦ rw (f, run_live) log
        | inr (tool, f) ↦
            elim (Option-cases (resolve_references (clone rt) n.arguments st.outputs)) [
              | inl g ↦ rw (f, run_live, g) log
              | inr (arguments, g) ↦
                  let (ok, rest) = forbidden-none tools n ns tool free f in
                  rw (f, run_live, g)
                    (execute_live-IsLog n tool (clone rt arguments) sequence ok st _ log
                      (λ st' log'. run_live-IsLog tools ns (suc sequence) st' rest log'))
            ]
      ]

  run_replay-IsLog :
      (tools : ExecutableTools) (ns : List CallNode) (rs : List ReplayRecord) (sequence : ℕ)
      (st : Progress)
      → forbidden p tools ns ≡ none
      → IsLog p st.audit
      → IsLog p (audit_of (run_replay rt p tools ns rs sequence st))
  unfolding run_replay
  run_replay-IsLog tools [] rs sequence st free log = log
  run_replay-IsLog tools (n ∷ ns) [] sequence st free log = log
  run_replay-IsLog tools (n ∷ ns) (r ∷ rs) sequence st free log =
      elim (Option-cases (executable_named n.tool tools)) [
        | inl f ↦ rw (f, run_replay) log
        | inr (tool, f) ↦
            elim (Option-cases (resolve_references (clone rt) n.arguments st.outputs)) [
              | inl g ↦ rw (f, run_replay, g) log
              | inr (arguments, g) ↦
                  let (ok, rest) = forbidden-none tools n ns tool free f in
                  rw (f, run_replay, g)
                    (execute_replay-IsLog n tool (clone rt arguments) sequence ok r st _ log
                      (λ st' log'. run_replay-IsLog tools ns rs (suc sequence) st' rest log'))
            ]
      ]

  nothing-IsLog : IsLog p []
  unfolding is_numbered
  nothing-IsLog = record { allowed = tt; numbered = refl }

  -- An entry that is for no run.
  denied-IsLog :
      (about : Option (CallNode × ExecutableTool)) (decision : AuditDecision) (input output : Value)
      (error : Option Failure)
      → is_run decision ≡ false
      → IsLog p (append_audit rt about decision input output error [])
  unfolding append_audit is_numbered
  denied-IsLog about decision input output error denied = record {
    allowed = (λ run. absurd (cc), tt);
    numbered = refl;
  }

  authorize-IsLog :
      (tools : ExecutableTools) (ordered : List CallNode) (rs : List ReplayRecord)
      → IsLog p (audit_of (authorize_and_run rt p tools ordered rs))
  unfolding authorize_and_run run_nodes
  authorize-IsLog tools ordered rs = elim (Option-cases (forbidden p tools ordered)) [
    | inr ((n, tool), f) ↦ rw (f, authorize_and_run) (denied-IsLog _ capability_denied _ _ _ refl)
    | inl f ↦
        rw (f, authorize_and_run)
          (elim (Bool-cases (is_replay p.replay_mode)) [
            | inl y ↦ rw y (run_replay-IsLog tools ordered rs 0 nothing_yet f nothing-IsLog)
            | inr y ↦ rw y (run_live-IsLog tools ordered 0 nothing_yet f nothing-IsLog)
          ])
  ]

  schedule-IsLog :
      (tools : ExecutableTools) (nodes : List CallNode) (rs : List ReplayRecord)
      → IsLog p (audit_of (schedule_and_run rt p tools nodes rs))
  unfolding schedule_and_run
  schedule-IsLog tools nodes rs =
      of_branches (IsLog p) (not (is_replay p.replay_mode) && not (length rs == 0)) _ _
        nothing-IsLog
        (elim (Option-cases (topological_order nodes)) [
          | inl f ↦ rw (f, schedule_and_run) nothing-IsLog
          | inr (ordered, f) ↦
              rw (f, schedule_and_run)
                (of_branches (IsLog p)
                  (is_replay p.replay_mode && not (length rs == length ordered)) _ _ nothing-IsLog
                  (authorize-IsLog tools ordered rs))
        ])

  -- Where a node is forbidden, nothing is run.
  schedule-forbidden :
      (tools : ExecutableTools) (nodes ordered : List CallNode) (rs : List ReplayRecord)
      → topological_order nodes ≡ some ordered
      → forbidden p tools ordered ≢ none
      → runs_nothing (audit_of (schedule_and_run rt p tools nodes rs)) ≡ true
  unfolding schedule_and_run authorize_and_run append_audit all runs_nothing
  schedule-forbidden tools nodes ordered rs f ne =
      of_branches (λ audit. runs_nothing audit ≡ true)
        (not (is_replay p.replay_mode) && not (length rs == 0)) _ _ refl
        (rw (f, schedule_and_run)
          (of_branches (λ audit. runs_nothing audit ≡ true)
            (is_replay p.replay_mode && not (length rs == length ordered)) _ _ refl
            (elim (Option-cases (forbidden p tools ordered)) [
              | inl g ↦ absurd (ne g)
              | inr ((n, tool), g) ↦ rw (g, authorize_and_run) refl
            ])))

-- Whatever becomes of an execution, its audit entries are numbered in order, and each entry of a
-- tool that was attempted, executed, replayed or failed names a capability that the policy allows.
-- If any scheduled node needs a capability that is not allowed, no tool is run or replayed at all.
pub execute_call_graph-authorized :
    (rt : Runtime) (p : ExecutionPolicy) (tools : ExecutableTools) (items : Items)
    (rs : List ReplayRecord)
    → IsLog p (audit_of (execute_call_graph rt p tools items rs))
      × ((ordered : List CallNode)
          → topological_order (nodes_of (clone_array rt items)) ≡ some ordered
          → forbidden p tools ordered ≢ none
          → runs_nothing (audit_of (execute_call_graph rt p tools items rs)) ≡ true)
unfolding execute_call_graph append_audit all runs_nothing
execute_call_graph-authorized rt p tools items rs =
    let valid =
      says_valid
        (validate_call_graph rt.platform (graph_of (clone_array rt items)) (schemas tools)) in
    let nodes = nodes_of (clone_array rt items) in
    (
      of_branches (IsLog p) (not (assert_policy p)) _ _ (nothing-IsLog rt p) (
          of_branches (IsLog p) (ltb (node_limit p) (size_items items)) _ _
            (denied-IsLog rt p none validation_denied _ _ _ refl)
            (of_branches (IsLog p) valid _ _ (schedule-IsLog rt p tools nodes (clone_records rt rs))
              (denied-IsLog rt p none validation_denied _ _ _ refl))),
      λ ordered f ne.
          of_branches (λ audit. runs_nothing audit ≡ true) (not (assert_policy p)) _ _ refl
            (of_branches (λ audit. runs_nothing audit ≡ true)
              (ltb (node_limit p) (size_items items)) _ _ refl
              (of_branches (λ audit. runs_nothing audit ≡ true) valid _ _
                (schedule-forbidden rt p tools nodes ordered (clone_records rt rs) f ne) refl)),
    )

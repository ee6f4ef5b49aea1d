-- ===== src/Graph/Tests.antt =====
-- Runs of the model of the call validator and executor, and the theorems at concrete inputs.
use superset_agent_orchestra.Base.{
  insert, sort, String, true, false, none, some, List, [], ◌∷◌, ◌≡◌, ◌≢◌, ◌↔◌, refl, sym, ◌∙◌,
  arith, any, all, find, All, eq_iff, string_eq, ◌==◌, ◌&&◌, subst,
}
use superset_agent_orchestra.Graph.Json.{
  get, reference_of, has_property, nil, item, size_items, Items, object, field, end,
}
use superset_agent_orchestra.Graph.Schema.{
  property_schema, tool_named, node_by_id, has_error, CallNode, Kind,
}
use superset_agent_orchestra.Graph.Compatible.{matches_type, compatible, rules_fit}
use superset_agent_orchestra.Graph.Validate.{
  note, add, depend_on, validate_reference, validate_plain, enter, validate_required,
  validate_unknown, validate_value,
}
use superset_agent_orchestra.Graph.Cycles.{
  Adjacency, edges, walk_any, walk, walk_all, detect_cycles,
}
use superset_agent_orchestra.Graph.Walks.{Leads, edge, further, links}
use superset_agent_orchestra.Graph.Terminates.{detect_cycles-exact}
use superset_agent_orchestra.Graph.Checker.{
  ValidationResult, node_items, texts, parse_node, has_node, take_in, collect, set_edges, no_edges,
  declare_dependencies, check_node, check_next, check_nodes, report_cycles, finish, check_graph,
  validate_call_graph,
}
use superset_agent_orchestra.Graph.Nodes.{needs, parse_all, distinct_after, node_fits}
use superset_agent_orchestra.Graph.Conformance.{conforms, admits, reference_fits}
use superset_agent_orchestra.Graph.References.{refers, sees}
use superset_agent_orchestra.Graph.Exact.{depends, validate_call_graph-exact, IsCallGraph}
use superset_agent_orchestra.Graph.Canonical.{clone_json, insert_field, IsAsymmetric}
use superset_agent_orchestra.Graph.Topology.{
  add_all, collect_references, output_of, resolve_references, dependencies, last_by_id, visit_all,
  visit, visit_each, topological_order,
}
use superset_agent_orchestra.Graph.Ordering.{in_order, wants, IsIndexed}
use superset_agent_orchestra.Graph.Policy.{
  printed, ExecutionPolicy, executable_named, schemas, hash_json, authenticate, hex_bytes,
  same_bytes, authenticated, assert_policy, ExecutableTools, Runtime,
}
use superset_agent_orchestra.Graph.Execute.{
  live_output, replayed_output, fail_node, finish_live, finish_replay, execute_live, execute_replay,
  run_live, run_replay, forbidden, clone_record, clone_records, run_nodes, authorize_and_run,
  schedule_and_run, execute_call_graph, nodes_of, clone_array,
}
use superset_agent_orchestra.Graph.Records.{
  append_audit, run_sandboxed, validate_output, check_output, make_replay, verify_replay,
  bounded_audit_value, set_output, Progress, Execution, completed, refused,
}
use superset_agent_orchestra.Graph.Replay.{execute_call_graph-replay}
use superset_agent_orchestra.Graph.Snapshot.{tool_snapshot}
use superset_agent_orchestra.Graph.Recording.{to_record, to_replay}
use superset_agent_orchestra.Graph.Audited.{
  IsLog, audit_of, runs_nothing, execute_call_graph-authorized,
}
use superset_agent_orchestra.Graph.Schedulable.{IsCallGraph-ordered}
use superset_agent_orchestra.Graph.Samples.{
  reference, whole, platform, tools, calls, graph, hidden, hidden_graph, policy, runtime, typed,
  call,
}

-- The samples are valid, also the one that refers to itself out of sight.
sample_is_valid :
    (r : ValidationResult) × (validate_call_graph platform graph (schemas tools) ≡ some r)
    × (r.valid ≡ true)
unfolding validate_call_graph check_graph node_items collect take_in parse_node texts get has_node
    check_nodes check_next check_node declare_dependencies no_edges set_edges edges add schemas
    tool_named validate_value enter reference_of matches_type validate_required has_property
    property_schema validate_reference validate_plain depend_on node_by_id compatible rules_fit
    detect_cycles walk_all walk walk_any report_cycles sort insert finish has_error any all find
    note validate_unknown
sample_is_valid = (finish [], refl, refl)

progress : Execution → Progress
progress (completed st) = st
progress (refused why audit) = record { audit = audit; outputs = []; generated = [] }

-- A tool that prints {"b": 0, "a": 2} when it is run first and {"b": 1, "a": 2} when it is run again,
-- with the keys out of order.
abbrev restless_tools : ExecutableTools
restless_tools =
    (
      "one",
      record {
        input = typed Kind.object;
        output = typed Kind.object;
        capability = "read";
        source = "() => ({b: n++, a: 2})";
      },
    )
    ∷ []

abbrev restless : Runtime
restless = record runtime {
  before = λ k j. j == "b" && k == "a";
  spawn = λ n _ _. printed (object (field "b" (whole n) (field "a" (whole 2) end)));
}

abbrev twice : Items
twice = item (call "a" "one" (object end) nil) (item (call "b" "one" (object end) nil) nil)

before-IsAsymmetric : IsAsymmetric restless.before
before-IsAsymmetric k j h =
    let last : j ≡ "b" = (eq_iff _ _).0 (ground (arith, h)) in
    subst (λ x. (k == "b" && x == "a") ≡ false) (sym last) (ground arith)

recorded : Progress
unfolding progress
recorded = progress (
    execute_call_graph restless (to_record policy) (tool_snapshot restless.before restless_tools)
      twice [])

recorded_runs :
    execute_call_graph restless
      (to_record policy)
      (tool_snapshot restless.before restless_tools)
      twice
      []
    ≡ completed recorded
unfolding recorded progress validate_call_graph check_graph node_items collect take_in parse_node
    texts get has_node check_nodes check_next check_node declare_dependencies no_edges set_edges
    edges add schemas tool_named validate_value enter reference_of matches_type validate_required
    has_property property_schema validate_reference validate_plain depend_on node_by_id compatible
    rules_fit detect_cycles walk_all walk walk_any report_cycles sort insert finish has_error any
    all find note validate_unknown execute_call_graph assert_policy clone_json size_items
    schedule_and_run topological_order visit_each visit visit_all last_by_id dependencies add_all
    collect_references authorize_and_run forbidden executable_named run_nodes run_live run_replay
    execute_live execute_replay resolve_references output_of live_output replayed_output
    run_sandboxed check_output validate_output finish_live finish_replay append_audit set_output
    make_replay verify_replay hash_json authenticate authenticated hex_bytes same_bytes clone_record
    clone_records fail_node bounded_audit_value insert_field tool_snapshot
recorded_runs = refl

execute_call_graph-replay_example :
    (r' : Progress) × (execute_call_graph restless
        (to_replay policy)
        (tool_snapshot restless.before restless_tools)
        twice
        recorded.generated
      ≡ completed r')
    × (r'.outputs ≡ recorded.outputs)
execute_call_graph-replay_example =
    execute_call_graph-replay restless policy restless_tools twice recorded before-IsAsymmetric
      recorded_runs

-- With one capability less, the first call is allowed, the second is not, and none is run.
abbrev narrow : ExecutionPolicy
narrow = record policy { allowed_capabilities = "read" ∷ [] }

execute_call_graph-authorized_example :
    IsLog narrow (audit_of (execute_call_graph runtime narrow tools calls []))
    × ((ordered : List CallNode)
        → topological_order (nodes_of (clone_array runtime calls)) ≡ some ordered
        → forbidden narrow tools ordered ≢ none
        → runs_nothing (audit_of (execute_call_graph runtime narrow tools calls [])) ≡ true)
execute_call_graph-authorized_example = execute_call_graph-authorized runtime narrow tools calls []

validate_call_graph-exact_example :
    (r : ValidationResult) × (validate_call_graph platform graph (schemas tools) ≡ some r)
    × ((r.valid ≡ true) ↔ (
        (items : Items) × (node_items graph ≡ some items)
        × IsCallGraph platform (schemas tools) items))
validate_call_graph-exact_example = validate_call_graph-exact platform graph (schemas tools)

-- a → b → c → b
abbrev looped : Adjacency
looped = ("a", "b" ∷ []) ∷ ("b", "c" ∷ []) ∷ ("c", "b" ∷ []) ∷ []

-- The walk from the first node meets the cycle, and those from the others stop at visited nodes.
looped_found : detect_cycles looped ≡ some ("a" ∷ [])
unfolding detect_cycles walk_all walk walk_any edges any
looped_found = refl

detect_cycles-exact_example :
    (found : List String) × (detect_cycles looped ≡ some found)
    × ((found ≡ []) ↔ ((u : String) → ¬ Leads (links looped) u u))
detect_cycles-exact_example = detect_cycles-exact looped

-- The hidden self-reference passes the validator, and no order of the nodes is found.
hidden_passes :
    (validate_call_graph platform hidden_graph (schemas tools) ≡ some (finish []))
    × (topological_order (nodes_of hidden) ≡ none)
unfolding validate_call_graph check_graph node_items collect take_in parse_node texts get has_node
    check_nodes check_next check_node declare_dependencies no_edges set_edges edges add schemas
    tool_named validate_value enter reference_of matches_type validate_required has_property
    property_schema validate_reference validate_plain depend_on node_by_id compatible rules_fit
    detect_cycles walk_all walk walk_any report_cycles sort insert finish has_error any all find
    note validate_unknown execute_call_graph assert_policy clone_json size_items schedule_and_run
    topological_order visit_each visit visit_all last_by_id dependencies add_all collect_references
    authorize_and_run forbidden executable_named run_nodes run_live run_replay execute_live
    execute_replay resolve_references output_of live_output replayed_output run_sandboxed
    check_output validate_output finish_live finish_replay append_audit set_output make_replay
    verify_replay hash_json authenticate authenticated hex_bytes same_bytes clone_record
    clone_records fail_node bounded_audit_value insert_field
hidden_passes = (refl, refl)

first_call : CallNode
first_call = record {
  id = "b";
  tool = "inc";
  arguments = object (field "x" (reference "a") end);
  depends_on = "a" ∷ [];
}

second_call : CallNode
second_call = record { id = "a"; tool = "one"; arguments = object end; depends_on = [] }

only_edge :
    (u v : String)
    → depends platform (schemas tools) (first_call ∷ second_call ∷ []) u v ≡ true
    → (u ≡ "b") × (v ≡ "a")
unfolding first_call second_call needs refers sees validate_call_graph check_graph node_items
    collect take_in parse_node texts get has_node check_nodes check_next check_node
    declare_dependencies no_edges set_edges edges add schemas tool_named validate_value enter
    reference_of matches_type validate_required has_property property_schema validate_reference
    validate_plain depend_on node_by_id compatible rules_fit detect_cycles walk_all walk walk_any
    report_cycles sort insert finish has_error any all find note validate_unknown execute_call_graph
    assert_policy clone_json size_items schedule_and_run topological_order visit_each visit
    visit_all last_by_id dependencies add_all collect_references authorize_and_run forbidden
    executable_named run_nodes run_live run_replay execute_live execute_replay resolve_references
    output_of live_output replayed_output run_sandboxed check_output validate_output finish_live
    finish_replay append_audit set_output make_replay verify_replay hash_json authenticate
    authenticated hex_bytes same_bytes clone_record clone_records fail_node bounded_audit_value
    insert_field
only_edge u v h = ground (arith, eq_iff "b" u, eq_iff "a" u, eq_iff "a" v)

b_ne_a : ¬ (◌≡◌ {A = String} "b" "a")
b_ne_a e = let no : false ≡ true = (eq_iff "b" "a").1 e in cc no

walk_ends :
    {u v : String}
    → Leads (depends platform (schemas tools) (first_call ∷ second_call ∷ [])) u v
    → (u ≡ "b") × (v ≡ "a")
walk_ends (edge {v} e) = only_edge _ v e
walk_ends (further {v} {w} l e) = ((walk_ends l).0, (only_edge v w e).1)

sample_call_graph : IsCallGraph platform (schemas tools) calls
unfolding first_call second_call parse_all distinct_after node_fits conforms admits reference_fits
    validate_call_graph check_graph node_items collect take_in parse_node texts get has_node
    check_nodes check_next check_node declare_dependencies no_edges set_edges edges add schemas
    tool_named validate_value enter reference_of matches_type validate_required has_property
    property_schema validate_reference validate_plain depend_on node_by_id compatible rules_fit
    detect_cycles walk_all walk walk_any report_cycles sort insert finish has_error any all find
    note validate_unknown execute_call_graph assert_policy clone_json size_items schedule_and_run
    topological_order visit_each visit visit_all last_by_id dependencies add_all collect_references
    authorize_and_run forbidden executable_named run_nodes run_live run_replay execute_live
    execute_replay resolve_references output_of live_output replayed_output run_sandboxed
    check_output validate_output finish_live finish_replay append_audit set_output make_replay
    verify_replay hash_json authenticate authenticated hex_bytes same_bytes clone_record
    clone_records fail_node bounded_audit_value insert_field
sample_call_graph = record {
  nodes = first_call ∷ second_call ∷ [];
  shaped = refl;
  distinct = refl;
  fits = refl;
  acyclic = λ u l. let (b, a) = walk_ends l in b_ne_a (sym b ∙ a);
}

only_want :
    (u v : String) → wants (first_call ∷ second_call ∷ []) u v ≡ true → (u ≡ "b") × (v ≡ "a")
unfolding first_call second_call wants validate_call_graph check_graph node_items collect take_in
    parse_node texts get has_node check_nodes check_next check_node declare_dependencies no_edges
    set_edges edges add schemas tool_named validate_value enter reference_of matches_type
    validate_required has_property property_schema validate_reference validate_plain depend_on
    node_by_id compatible rules_fit detect_cycles walk_all walk walk_any report_cycles sort insert
    finish has_error any all find note validate_unknown execute_call_graph assert_policy clone_json
    size_items schedule_and_run topological_order visit_each visit visit_all last_by_id dependencies
    add_all collect_references authorize_and_run forbidden executable_named run_nodes run_live
    run_replay execute_live execute_replay resolve_references output_of live_output replayed_output
    run_sandboxed check_output validate_output finish_live finish_replay append_audit set_output
    make_replay verify_replay hash_json authenticate authenticated hex_bytes same_bytes clone_record
    clone_records fail_node bounded_audit_value insert_field
only_want u v h = ground (arith, eq_iff "b" u, eq_iff "a" u, eq_iff "a" v)

described :
    (u v : String)
    → wants (first_call ∷ second_call ∷ []) u v ≡ true
    → depends platform (schemas tools) (first_call ∷ second_call ∷ []) u v ≡ true
unfolding first_call second_call needs refers sees wants validate_call_graph check_graph node_items
    collect take_in parse_node texts get has_node check_nodes check_next check_node
    declare_dependencies no_edges set_edges edges add schemas tool_named validate_value enter
    reference_of matches_type validate_required has_property property_schema validate_reference
    validate_plain depend_on node_by_id compatible rules_fit detect_cycles walk_all walk walk_any
    report_cycles sort insert finish has_error any all find note validate_unknown execute_call_graph
    assert_policy clone_json size_items schedule_and_run topological_order visit_each visit
    visit_all last_by_id dependencies add_all collect_references authorize_and_run forbidden
    executable_named run_nodes run_live run_replay execute_live execute_replay resolve_references
    output_of live_output replayed_output run_sandboxed check_output validate_output finish_live
    finish_replay append_audit set_output make_replay verify_replay hash_json authenticate
    authenticated hex_bytes same_bytes clone_record clone_records fail_node bounded_audit_value
    insert_field
described u v h = let (b, a) = only_want u v h in rw (b, a) refl

IsCallGraph-ordered_example :
    (ordered : List CallNode) × (topological_order sample_call_graph.nodes ≡ some ordered)
    × (in_order [] ordered ≡ true)
    × All (IsIndexed sample_call_graph.nodes) ordered
    × All (λ n. has_node ordered n.id ≡ true) sample_call_graph.nodes
unfolding sample_call_graph
IsCallGraph-ordered_example =
    IsCallGraph-ordered platform (schemas tools) calls sample_call_graph described

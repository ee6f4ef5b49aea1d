-- ===== src/Store/Dispatch.antt =====
-- src/store.ts: recordLaunchEvent, by which an assignment is launched or fails. `redact` is
-- RedactionPolicy.text, and `failure` the JSON text of the result of a launch that failed, by its
-- redacted error. `audited` says whether the security audit event that comes with the call, if one
-- does, was appended. The event is well formed.
use superset_agent_orchestra.Base.{
  ℕ, String, Bool, true, false, ◌&&◌, ◌||◌, not, Option, none, some, List, [], ◌∷◌, ◌++◌, any, find,
  update, ltb, ◌==◌, if◌then◌else◌, nat_eq, string_eq, option_string_eq,
}
use superset_agent_orchestra.Store.State.{
  WorkerStatus, Worker, AssignmentStatus, Assignment, is_terminal, is_some, get_or, valid_worker,
}
use superset_agent_orchestra.Store.Audit.{map?, present?}
use superset_agent_orchestra.Store.Launch.{or_keep}
use superset_agent_orchestra.Store.Calls.{worker_by_id, replace_worker}
use superset_agent_orchestra.Store.Results.{assignment_by_id}

pub data LaunchAuditType : Type 0 where
  launch_accepted launch_reserved execution_started launch_failed : LaunchAuditType

pub record LaunchAuditEvent : Type 0 where
  pub id : String
  pub assignment_id : String
  pub kind : LaunchAuditType
  pub occurred_at : ℕ
  pub run_id : Option String
  pub error : Option String
  pub error_code : Option String

-- The status that a call asks for.
pub data Target : Type 0 where
  launching launched failed : Target

-- `captured` holds the ids of the assignments that have a captured result.
pub record Dispatches : Type 0 where
  pub assignments : List Assignment
  pub workers : List Worker
  pub events : List LaunchAuditEvent
  pub captured : List String

pub data DispatchError : Type 0 where
  unknown_assignment wrong_assignment wrong_type conflict missing_worker bound_elsewhere rejected :
      DispatchError

pub data DispatchReply : Type 0 where
  recorded : Assignment → Bool → DispatchReply
  refused : DispatchError → DispatchReply

abbrev pub status_of_target : Target → AssignmentStatus
status_of_target launching = AssignmentStatus.launching
status_of_target launched = AssignmentStatus.launched
status_of_target failed = AssignmentStatus.failed

abbrev pub kind_code : LaunchAuditType → ℕ
kind_code launch_accepted = 0
kind_code launch_reserved = 1
kind_code execution_started = 2
kind_code launch_failed = 3

abbrev pub expected_code : Target → ℕ
expected_code launching = 1
expected_code launched = 2
expected_code failed = 3

abbrev pub is_launching : Target → Bool
is_launching launching = true
is_launching _ = false

abbrev pub fails : Target → Bool
fails failed = true
fails _ = false

unfoldable pub may_follow : AssignmentStatus → Target → Bool
may_follow AssignmentStatus.accepted launching = true
may_follow AssignmentStatus.accepted failed = true
may_follow AssignmentStatus.launching launched = true
may_follow AssignmentStatus.launching failed = true
may_follow _ _ = false

abbrev pub ended : Option Worker → Bool
ended none = false
ended (some w) = is_terminal w.status

unfoldable pub event_by_id : String → List LaunchAuditEvent → Option LaunchAuditEvent
event_by_id id es = find (λ (e : LaunchAuditEvent). e.id == id) es

abbrev same_instant : LaunchAuditEvent → LaunchAuditEvent → Bool
same_instant d e = d.occurred_at == e.occurred_at && kind_code d.kind == kind_code e.kind

-- An event with the same id agrees, if there is one.
abbrev pub agrees_with : Option LaunchAuditEvent → LaunchAuditEvent → Bool
agrees_with none e = true
agrees_with (some d) e =
    d.assignment_id == e.assignment_id
    && (same_instant d e
        && (d.run_id == e.run_id && (d.error == e.error && d.error_code == e.error_code)))

unfoldable pub replace_assignment : Assignment → List Assignment → List Assignment
replace_assignment a assignments = update (λ (b : Assignment). b.id == a.id) (λ _. a) assignments

abbrev starts : LaunchAuditEvent → Bool
starts e = kind_code e.kind == 2

-- What the schema of the state asks of the event that is added, with the assignment as changed.
unfoldable pub event_fits : LaunchAuditEvent → Assignment → Bool
event_fits e a =
    e.assignment_id == a.id
    && (present? e.error
        && (present? a.error && (not (starts e) || (is_some e.run_id && e.run_id == a.run_id))))

-- The event refers to an assignment, its id is new, and a captured result needs a launched one.
unfoldable pub withdrawal_fits : LaunchAuditEvent → Assignment → Dispatches → Bool
unfolding event_by_id assignment_by_id
withdrawal_fits e a st =
    is_some (assignment_by_id e.assignment_id st.assignments)
    && (not (is_some (event_by_id e.id st.events))
        && not (any (λ (id : String). id == a.id) st.captured))

unfoldable pub bind_run : Option String → Worker → Worker
bind_run none w = w
bind_run (some run_id) w =
    if is_terminal w.status
    then record w {
      run_id = some run_id;
      lifecycle_reconcile_pending = true;
      provider_stop_pending = true;
    }
    else record w { run_id = some run_id }

abbrev settled_failure : (String → String) → (String → String) → LaunchAuditEvent → Worker → Worker
settled_failure redact failure e w = if is_terminal w.status then w else record w {
  status = WorkerStatus.failed;
  completed_at = some e.occurred_at;
  stop_reason = some "launch_error";
  result = some (failure (redact (get_or e.error "Provider launch failed")));
}

unfoldable pub fail_worker :
    (String → String) → (String → String) → LaunchAuditEvent → Worker → Worker
fail_worker redact failure e w =
    let settled = settled_failure redact failure e w in
    record settled {
      pre_cancel_status = none;
      cancel_requested_at = none;
      cancellation_delivery_pending = false;
      cancellation_delivery_claimed = false;
      lifecycle_reconcile_pending = false;
      provider_stop_pending = false;
      provider_stop_claimed = false;
    }

unfoldable pub launched_worker :
    (String → String) → (String → String) → Target → LaunchAuditEvent → Worker → Worker
unfolding bind_run fail_worker
launched_worker redact failure target e w =
    let bound = bind_run e.run_id w in
    if fails target then fail_worker redact failure e bound else bound

unfoldable pub launched_assignment :
    (String → String) → Target → LaunchAuditEvent → Assignment → Assignment
launched_assignment redact target e a = record a {
  status = status_of_target target;
  updated_at = if ltb e.occurred_at a.updated_at then a.updated_at else e.occurred_at;
  run_id = or_keep e.run_id a.run_id;
  error = or_keep (map? redact e.error) a.error;
  error_code = or_keep e.error_code a.error_code;
}

abbrev pub push_new :
    Option LaunchAuditEvent → LaunchAuditEvent → List LaunchAuditEvent → List LaunchAuditEvent
push_new none e es = es ++ e ∷ []
push_new (some d) e es = es

abbrev pub elsewhere : Option String → Option String → Bool
elsewhere run_id bound = is_some run_id && (is_some bound && not (bound == run_id))

-- The launch was canceled before the provider was asked: whatever its status, the assignment fails.
unfoldable pub withdraw_launch :
    Bool → LaunchAuditEvent → Assignment → Dispatches → DispatchReply × Dispatches
unfolding withdrawal_fits replace_assignment
withdraw_launch audited e a st =
    let message = some "Launch was canceled before provider dispatch" in
    let changed : Assignment = record a {
      status = AssignmentStatus.failed;
      updated_at = e.occurred_at;
      error = message;
    } in
    let event : LaunchAuditEvent = record e { kind = launch_failed; error = message } in
    if audited && withdrawal_fits e a st
    then (
      recorded changed false,
      record st {
        assignments = replace_assignment changed st.assignments;
        events = st.events ++ event ∷ [];
      },
    )
    else (refused rejected, st)

-- The state is persisted where its schema accepts it.
unfoldable pub commit : Bool → Assignment → Dispatches → Dispatches → DispatchReply × Dispatches
commit accepted changed after st =
    if accepted then (recorded changed true, after) else (refused rejected, st)

-- The transition itself.
unfoldable pub apply_launch :
    (String → String)
    → (String → String)
    → Bool
    → Target
    → LaunchAuditEvent
    → Assignment
    → Dispatches
    → DispatchReply × Dispatches
unfolding commit launched_assignment launched_worker event_by_id event_fits replace_assignment
    worker_by_id replace_worker
apply_launch redact failure audited target e a st =
    let changed = launched_assignment redact target e a in
    let event : LaunchAuditEvent = record e { error = map? redact e.error } in
    let touched = is_some e.run_id || fails target in
    let after : Dispatches = record st {
      assignments = replace_assignment changed st.assignments;
      events = push_new (event_by_id e.id st.events) event st.events;
    } in
    elim (worker_by_id a.session_id st.workers) [
      | none ↦
          if touched
          then (refused missing_worker, st)
          else commit (audited && event_fits event changed) changed after st
      | some w ↦
          let new = launched_worker redact failure target e w in
          if elsewhere e.run_id w.run_id
          then (refused bound_elsewhere, st)
          else commit (audited && (event_fits event changed && valid_worker new)) changed
              (record after { workers = replace_worker new st.workers }) st
    ]

unfoldable pub record_for :
    (String → String)
    → (String → String)
    → Bool
    → Target
    → LaunchAuditEvent
    → Assignment
    → Dispatches
    → DispatchReply × Dispatches
unfolding withdraw_launch apply_launch may_follow event_by_id worker_by_id
record_for redact failure audited target e a st =
    if is_launching target && ended (worker_by_id a.session_id st.workers)
    then withdraw_launch audited e a st
    else if not (e.assignment_id == a.id)
    then (refused wrong_assignment, st)
    else if not (kind_code e.kind == expected_code target)
    then (refused wrong_type, st)
    else if not (agrees_with (event_by_id e.id st.events) e)
    then (refused conflict, st)
    else if not (may_follow a.status target)
    then (recorded a false, st)
    else apply_launch redact failure audited target e a st

-- `recordLaunchEvent`
unfoldable pub record_launch_event :
    (String → String)
    → (String → String)
    → Bool
    → String
    → Target
    → LaunchAuditEvent
    → Dispatches
    → DispatchReply × Dispatches
unfolding record_for assignment_by_id
record_launch_event redact failure audited id target e st =
    elim (assignment_by_id id st.assignments) [
      | none ↦ (refused unknown_assignment, st)
      | some a ↦ record_for redact failure audited target e a st
    ]

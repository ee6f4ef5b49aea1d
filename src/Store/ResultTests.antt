-- ===== src/Store/ResultTests.antt =====
-- src/store.ts: captured results on a small ledger.
use superset_agent_orchestra.Base.{
  true, true, String, ◌≡◌, refl, false, none, some, List, [], ◌∷◌, find, any, Pairs,
}
use superset_agent_orchestra.Store.State.{
  WorkerStatus, Worker, Assignment, AssignmentStatus, State, err, invalid_state, allows,
  stop_reasons, is_terminal,
}
use superset_agent_orchestra.Store.Calls.{Call, call, worker_by_id}
use superset_agent_orchestra.Store.Dispatch.{
  LaunchAuditEvent, execution_started, Target, Dispatches, record_launch_event,
}
use superset_agent_orchestra.Store.Dispatched.{Kept, is_settled, record-Kept, record-settled}
use superset_agent_orchestra.Store.Refusals.{record_result-refused}
use superset_agent_orchestra.Store.Results.{
  captured, CapturedResult, CapturedResult, Ledger, ClaimStatus, assignment_by_id,
}
use superset_agent_orchestra.Store.Authority.{
  Apart, capture_all, capture_all-Apart, capture_all-terminal,
}

abbrev result : String → String → String → CapturedResult
result delivery attempt session = record {
  delivery_id = delivery;
  delivery_fingerprint = delivery;
  assignment_id = "a1";
  batch_id = "b1";
  session_id = session;
  workspace_id = some "w";
  workspace_path = "/w";
  attempt_id = attempt;
  attempt = 1;
  run_id = "r1";
  attribution = record { agent = "codex"; task = "fix" };
  status = ClaimStatus.succeeded;
  payload = "done";
  captured_at = 30;
}

abbrev worker : Worker
worker = record {
  id = "s1";
  batch_id = "b1";
  session_id = "s1";
  pid = none;
  process_started_at = none;
  status = WorkerStatus.canceled;
  attribution = record { agent = "codex"; task = "fix" };
  started_at = 1;
  completed_at = some 20;
  result = none;
  position = none;
  run_id = some "r1";
  stop_reason = some "user_requested";
  stop_detail = none;
  cancel_requested_at = some 10;
  pre_cancel_status = none;
  deadline_at = none;
  lifecycle_reconcile_pending = false;
  cancellation_delivery_pending = false;
  cancellation_delivery_claimed = false;
  cancellation_delivered = false;
  provider_stop_pending = false;
  provider_stop_claimed = false;
  provider_stop_unsupported = false;
  late_observations = [];
}

abbrev assignment : Assignment
assignment = record {
  id = "a1";
  idempotency_key = "k1";
  request_fingerprint = "f";
  batch_id = "b1";
  session_id = "s1";
  status = AssignmentStatus.launched;
  attribution = record { agent = "codex"; task = "fix" };
  prompt = "fix it";
  workspace_id = some "w";
  workspace_path = "/w";
  attempt_id = some "t1";
  attempt = some 1;
  accepted_at = 1;
  updated_at = 2;
  run_id = some "r1";
  error = none;
  error_code = none;
}

abbrev first : CapturedResult
first = result "d1" "t1" "s1"

abbrev ledger : Ledger
ledger = record { assignments = assignment ∷ []; workers = worker ∷ []; results = [] }

abbrev captured_ledger : Ledger
captured_ledger = record ledger { results = first ∷ [] }

abbrev later : List CapturedResult
later = result "d2" "t1" "s1" ∷ result "d1" "t1" "s1" ∷ []

abbrev as_json : CapturedResult → String
as_json r = r.payload

capture_all-Apart_example : Pairs Apart (capture_all as_json (first ∷ later) ledger).results
capture_all-Apart_example = capture_all-Apart as_json (first ∷ later) ledger tt

capture_all-terminal_example :
    worker_by_id "s1" (capture_all as_json (first ∷ later) ledger).workers ≡ some worker
capture_all-terminal_example =
    capture_all-terminal as_json (first ∷ later) ledger "s1" worker
      (unfold worker_by_id find in refl) (unfold is_terminal in refl)

abbrev canceling : Worker
canceling = record worker { status = WorkerStatus.canceling; completed_at = none }

abbrev state : State
state = record {
  sessions = [];
  batches = [];
  workers = canceling ∷ [];
  diagnostics = [];
  assignments = assignment ∷ [];
  reconciled_at = none;
}

record_result-refused_example :
    call "s1" (Call.result WorkerStatus.succeeded "done" 30) state ≡ (err invalid_state, state)
record_result-refused_example =
    record_result-refused "s1" "done" "user_requested" WorkerStatus.succeeded 30 canceling state
      (unfold worker_by_id find in refl) refl refl (unfold allows stop_reasons any in refl) refl

abbrev event : LaunchAuditEvent
event = record {
  id = "e1";
  assignment_id = "a1";
  kind = execution_started;
  occurred_at = 9;
  run_id = some "r1";
  error = none;
  error_code = none;
}

abbrev dispatches : Dispatches
dispatches = record {
  assignments = record assignment { status = AssignmentStatus.launching; run_id = none } ∷ [];
  workers = worker ∷ [];
  events = [];
  captured = [];
}

abbrev dispatched : Dispatches
dispatched = record dispatches { assignments = assignment ∷ [] }

record-Kept_example :
    (v : Worker) × (worker_by_id "s1"
        (record_launch_event (λ s. s) (λ s. s) true "a1" Target.launched event dispatches).1.workers
      ≡ some v)
    × Kept worker v
record-Kept_example =
    record-Kept (λ s. s) (λ s. s) true event dispatches "s1" worker
      (unfold worker_by_id find in refl) (unfold is_terminal in refl) "a1" Target.launched

record-settled_example :
    (record_launch_event (λ s. s) (λ s. s) true "a1" Target.failed event dispatched).1 ≡ dispatched
record-settled_example =
    record-settled (λ s. s) (λ s. s) true "a1" event dispatched Target.failed assignment
      (unfold assignment_by_id find in refl) (unfold is_settled in refl) refl

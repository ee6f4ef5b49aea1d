-- ===== src/Store/Results.antt =====
-- src/store.ts: assignments and their captured results. captureResult checks the form of its input
-- before anything else and changes nothing where it is malformed: here an input is well formed.
use superset_agent_orchestra.Base.{
  ℕ, String, Bool, true, false, ◌&&◌, ◌||◌, not, Option, none, some, List, [], ◌∷◌, ◌++◌, find,
  ◌==◌, if◌then◌else◌, nat_eq, string_eq, option_string_eq, option_nat_eq,
}
use superset_agent_orchestra.Store.State.{
  WorkerStatus, Worker, Attribution, AssignmentStatus, Assignment, is_terminal, is_some,
  valid_worker,
}
use superset_agent_orchestra.Store.Calls.{worker_by_id, replace_worker}

pub data ClaimStatus : Type 0 where
  succeeded failed cancelled stopped_without_result malformed : ClaimStatus

-- A captured result; `payload` is its claim as JSON.
pub record CapturedResult : Type 0 where
  pub delivery_id : String
  pub delivery_fingerprint : String
  pub assignment_id : String
  pub batch_id : String
  pub session_id : String
  pub workspace_id : Option String
  pub workspace_path : String
  pub attempt_id : String
  pub attempt : ℕ
  pub run_id : String
  pub attribution : Attribution
  pub status : ClaimStatus
  pub payload : String
  pub captured_at : ℕ

-- The parts of the durable state that the operations on assignments read or write.
pub record Ledger : Type 0 where
  pub assignments : List Assignment
  pub workers : List Worker
  pub results : List CapturedResult

pub data CaptureError : Type 0 where
  unknown_assignment legacy mismatch not_launched delivery_conflict attempt_conflict missing_worker
        rejected :
      CaptureError

pub data CaptureReply : Type 0 where
  captured : CapturedResult → Bool → CaptureReply
  failed : CaptureError → CaptureReply

unfoldable pub assignment_by_id : String → List Assignment → Option Assignment
assignment_by_id id assignments = find (λ (a : Assignment). a.id == id) assignments

-- The identities of a result are those of its assignment.
unfoldable pub same_identity : Assignment → CapturedResult → Bool
same_identity a r =
    a.batch_id == r.batch_id
    && (a.session_id == r.session_id
        && (a.workspace_id == r.workspace_id
            && (a.workspace_path == r.workspace_path
                && (a.attempt_id == some r.attempt_id
                    && (a.attempt == some r.attempt
                        && (a.run_id == some r.run_id
                            && (a.attribution.agent == r.attribution.agent
                                && a.attribution.task == r.attribution.task)))))))

abbrev pub is_launched : AssignmentStatus → Bool
is_launched AssignmentStatus.launched = true
is_launched _ = false

unfoldable pub worker_status_of : ClaimStatus → WorkerStatus
worker_status_of ClaimStatus.succeeded = WorkerStatus.succeeded
worker_status_of ClaimStatus.cancelled = WorkerStatus.canceled
worker_status_of _ = WorkerStatus.failed

unfoldable pub stop_reason_of : ClaimStatus → String
stop_reason_of ClaimStatus.succeeded = "succeeded"
stop_reason_of ClaimStatus.cancelled = "user_requested"
stop_reason_of ClaimStatus.malformed = "artifact_error"
stop_reason_of _ = "execution_error"

-- What a result does to its worker; `as_json` is the result as JSON.
unfoldable pub settle_by_result : (CapturedResult → String) → CapturedResult → Worker → Worker
unfolding worker_status_of stop_reason_of
settle_by_result as_json r w = if is_terminal w.status then w else record w {
  status = worker_status_of r.status;
  result = some (as_json r);
  completed_at = some r.captured_at;
  stop_reason = some (stop_reason_of r.status);
  pre_cancel_status = none;
  lifecycle_reconcile_pending = false;
  cancellation_delivery_pending = false;
}

unfoldable pub result_by_delivery : String → List CapturedResult → Option CapturedResult
result_by_delivery id rs = find (λ (r : CapturedResult). r.delivery_id == id) rs

unfoldable pub result_by_attempt : String → List CapturedResult → Option CapturedResult
result_by_attempt id rs = find (λ (r : CapturedResult). r.attempt_id == id) rs

-- The result is new: it is kept, and its worker settles.
unfoldable pub store_result :
    (CapturedResult → String) → CapturedResult → Ledger → CaptureReply × Ledger
unfolding settle_by_result worker_by_id replace_worker
store_result as_json r st = elim (worker_by_id r.session_id st.workers) [
  | none ↦ (failed missing_worker, st)
  | some w ↦
      let w' = settle_by_result as_json r w in
      if valid_worker w'
      then (
        captured r false,
        record st { results = st.results ++ r ∷ []; workers = replace_worker w' st.workers },
      )
      else (failed rejected, st)
]

-- The same delivery, or the same attempt, was captured before.
unfoldable pub repeat_result :
    CaptureError → CapturedResult → CapturedResult → Ledger → CaptureReply × Ledger
repeat_result conflict old r st =
    if old.delivery_fingerprint == r.delivery_fingerprint
    then (captured old true, st)
    else (failed conflict, st)

unfoldable pub admit_result :
    (CapturedResult → String) → CapturedResult → Ledger → CaptureReply × Ledger
unfolding store_result repeat_result result_by_delivery result_by_attempt
admit_result as_json r st = elim (result_by_delivery r.delivery_id st.results) [
  | some old ↦ repeat_result delivery_conflict old r st
  | none ↦ elim (result_by_attempt r.attempt_id st.results) [
    | some old ↦ repeat_result attempt_conflict old r st
    | none ↦ store_result as_json r st
  ]
]

-- `captureResult`
unfoldable pub capture_result :
    (CapturedResult → String) → CapturedResult → Ledger → CaptureReply × Ledger
unfolding admit_result assignment_by_id same_identity
capture_result as_json r st = elim (assignment_by_id r.assignment_id st.assignments) [
  | none ↦ (failed unknown_assignment, st)
  | some a ↦
      if not (is_some a.workspace_id) || (not (is_some a.attempt_id) || not (is_some a.attempt))
      then (failed legacy, st)
      else if not (same_identity a r)
      then (failed mismatch, st)
      else if not (is_launched a.status)
      then (failed not_launched, st)
      else admit_result as_json r st
]

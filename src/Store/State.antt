-- ===== src/Store/State.antt =====
-- src/store.ts: the durable state and what the schema demands of a worker. An instant is its number
-- of milliseconds. An optional flag that is absent or false is `false`. A JSON value is its text as
-- JSON.stringify gives it, which is how the code compares results.
use superset_agent_orchestra.Base.{
  ℕ, String, Bool, true, false, ◌&&◌, ◌||◌, not, Option, none, some, List, [], ◌∷◌, any, ltb, ◌==◌,
  nat_eq, string_eq,
}

pub data WorkerStatus : Type 0 where
  requested running canceling succeeded failed canceled unknown_outcome : WorkerStatus

pub record Attribution : Type 0 where
  pub agent : String
  pub task : String

pub record LateObservation : Type 0 where
  pub observed_at : ℕ
  pub status : WorkerStatus
  pub retained_result : Bool

pub record Worker : Type 0 where
  pub id : String
  pub batch_id : String
  pub session_id : String
  pub pid : Option ℕ
  pub process_started_at : Option String
  pub status : WorkerStatus
  pub attribution : Attribution
  pub started_at : ℕ
  pub completed_at : Option ℕ
  pub result : Option String
  pub position : Option ℕ
  pub run_id : Option String
  pub stop_reason : Option String
  pub stop_detail : Option String
  pub cancel_requested_at : Option ℕ
  pub pre_cancel_status : Option WorkerStatus
  pub deadline_at : Option ℕ
  pub lifecycle_reconcile_pending : Bool
  pub cancellation_delivery_pending : Bool
  pub cancellation_delivery_claimed : Bool
  pub cancellation_delivered : Bool
  pub provider_stop_pending : Bool
  pub provider_stop_claimed : Bool
  pub provider_stop_unsupported : Bool
  pub late_observations : List LateObservation

pub data AssignmentStatus : Type 0 where
  accepted launching launched failed : AssignmentStatus

pub record Assignment : Type 0 where
  pub id : String
  pub idempotency_key : String
  pub request_fingerprint : String
  pub batch_id : String
  pub session_id : String
  pub status : AssignmentStatus
  pub attribution : Attribution
  pub prompt : String
  pub workspace_id : Option String
  pub workspace_path : String
  pub attempt_id : Option String
  pub attempt : Option ℕ
  pub accepted_at : ℕ
  pub updated_at : ℕ
  pub run_id : Option String
  pub error : Option String
  pub error_code : Option String

pub data DiagnosticKind : Type 0 where
  orphan unknown_outcome missing_result : DiagnosticKind

pub record Diagnostic : Type 0 where
  pub kind : DiagnosticKind
  pub worker_id : String
  pub message : String
  pub detected_at : ℕ

pub record Session : Type 0 where
  pub id : String
  pub client_id : String
  pub created_at : ℕ
  pub last_seen_at : ℕ

pub record Batch : Type 0 where
  pub id : String
  pub name : String
  pub session_id : String
  pub created_at : ℕ
  pub updated_at : ℕ
  pub idempotency_key : Option String
  pub client_id : Option String
  pub request_fingerprint : Option String

-- The parts of `DurableState` that the operations on workers read or write.
pub record State : Type 0 where
  pub sessions : List Session
  pub batches : List Batch
  pub workers : List Worker
  pub diagnostics : List Diagnostic
  pub assignments : List Assignment
  pub reconciled_at : Option ℕ

-- `BatchQueryError`s by their code, a state that the schema rejects, and the plain `Error`s.
pub data Error : Type 0 where
  duplicate_ids invalid_cursor invalid_request idempotency_conflict not_found : Error
  invalid_state refused : Error

pub data Result {ℓ} (A : Type ℓ) : Type ℓ where
  ok : A → Result A
  err : Error → Result A

infixl 5 ◌>>=◌
-- A thrown error ends the method.
abbrev pub ◌>>=◌ {ℓ ℓ'} : {X : Type ℓ} {Y : Type ℓ'} → Result X → (X → Result Y) → Result Y
err thrown >>= next = err thrown
ok value >>= next = next value

unfoldable pub is_terminal : WorkerStatus → Bool
is_terminal WorkerStatus.succeeded = true
is_terminal WorkerStatus.failed = true
is_terminal WorkerStatus.canceled = true
is_terminal _ = false

abbrev pub is_canceling : WorkerStatus → Bool
is_canceling WorkerStatus.canceling = true
is_canceling _ = false

abbrev pub is_running : WorkerStatus → Bool
is_running WorkerStatus.running = true
is_running _ = false

abbrev pub is_requested : WorkerStatus → Bool
is_requested WorkerStatus.requested = true
is_requested _ = false

abbrev pub is_unknown : WorkerStatus → Bool
is_unknown WorkerStatus.unknown_outcome = true
is_unknown _ = false

abbrev pub is_failed : WorkerStatus → Bool
is_failed WorkerStatus.failed = true
is_failed _ = false

abbrev pub is_succeeded : WorkerStatus → Bool
is_succeeded WorkerStatus.succeeded = true
is_succeeded _ = false

abbrev pub is_some {ℓ} : {A : Type ℓ} → Option A → Bool
is_some none = false
is_some (some a) = true

abbrev pub get_or {ℓ} : {A : Type ℓ} → Option A → A → A
get_or none d = d
get_or (some a) d = a

-- STOP_REASONS_BY_STATUS; a status that is not in the table allows any reason.
unfoldable pub stop_reasons : WorkerStatus → Option (List String)
stop_reasons WorkerStatus.succeeded = some ("succeeded" ∷ "succeeded_before_cancellation" ∷ [])
stop_reasons WorkerStatus.failed = some (
    "invalid_request" ∷ "policy_denied" ∷ "dependency_unavailable" ∷ "launch_error"
    ∷ "launch_timeout" ∷ "execution_error" ∷ "worker_crash" ∷ "resource_exhausted"
    ∷ "deadline_exceeded" ∷ "artifact_error" ∷ [])
stop_reasons WorkerStatus.canceled =
    some ("user_requested" ∷ "orchestrator_shutdown" ∷ "superseded" ∷ "policy_revoked" ∷ [])
stop_reasons _ = none

abbrev member : String → Option (List String) → Bool
member r none = true
member r (some rs) = any (λ s. s == r) rs

unfoldable pub allows : WorkerStatus → Option String → Bool
unfolding stop_reasons
allows status none = true
allows status (some r) = member r (stop_reasons status)

abbrev non_empty : String → Bool
non_empty s = not (s == "")

abbrev non_empty? : Option String → Bool
non_empty? none = true
non_empty? (some s) = non_empty s

abbrev positive? : Option ℕ → Bool
positive? none = true
positive? (some n) = ltb 0 n

-- `workerSchema`.
unfoldable pub valid_worker : Worker → Bool
valid_worker w =
    non_empty w.id
    && (non_empty w.batch_id
        && (non_empty w.session_id
            && (positive? w.pid
                && (non_empty? w.process_started_at
                    && (non_empty w.attribution.agent
                        && (non_empty w.attribution.task
                            && (non_empty? w.run_id
                                && (non_empty? w.stop_reason
                                    && (non_empty? w.stop_detail
                                        && ((not (is_running w.status)
                                              || (is_some w.pid && is_some w.process_started_at))
                                            && allows w.status w.stop_reason))))))))))

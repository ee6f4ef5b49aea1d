-- ===== src/Store/Outcomes.antt =====
-- src/store.ts: how a worker settles: terminal outcomes, provider observations, deadlines.
use superset_agent_orchestra.Base.{
  ℕ, ◌-◌, String, Bool, true, false, ◌&&◌, ◌||◌, not, Option, none, some, [], ◌∷◌, ◌++◌, length,
  drop, ltb, leb, ◌==◌, if◌then◌else◌, nat_eq, string_eq, option_string_eq,
}
use superset_agent_orchestra.Store.State.{
  WorkerStatus, LateObservation, Worker, Result, ok, err, refused, is_terminal, is_canceling,
  is_unknown, is_failed, is_succeeded, is_some, get_or, allows,
}
use superset_agent_orchestra.Store.Workers.{or_else}

abbrev pub max_late_observations : ℕ
max_late_observations = 32

-- The newest observations are kept.
unfoldable pub append_late_observation : LateObservation → Worker → Worker
append_late_observation o w =
    let observations = w.late_observations ++ o ∷ [] in
    record w {
      late_observations =
          if ltb max_late_observations (length observations)
          then drop (length observations - max_late_observations) observations
          else observations;
    }

-- `validateStopReason`; true where it does not throw.
unfoldable pub valid_stop_reason : WorkerStatus → Option String → Bool
unfolding allows
valid_stop_reason status reason = is_unknown status || allows status reason

-- The reason that an outcome is recorded with: the one given, or the one that the status implies.
unfoldable pub settled_reason : WorkerStatus → Bool → Option String → Option String → Option String
settled_reason status canceling given current = or_else given (elim status [
  | WorkerStatus.succeeded ↦
      some (if canceling then "succeeded_before_cancellation" else "succeeded")
  | WorkerStatus.canceled ↦ some (get_or current "user_requested")
  | WorkerStatus.failed ↦ some "execution_error"
  | _ ↦ none
])

-- The callback of `recordWorkerTerminal`.
unfoldable pub record_terminal : WorkerStatus → Option String → Option String → ℕ → Worker → Worker
unfolding append_late_observation settled_reason
record_terminal status result stop_reason at w =
    if is_terminal w.status
    then (let retained = is_some result && not (is_some w.result) in
        append_late_observation
          (record { observed_at = at; status = status; retained_result = retained })
          (record w {
            result = if retained then result else w.result;
            lifecycle_reconcile_pending = false;
          }))
    else record w {
      status = status;
      completed_at = some at;
      lifecycle_reconcile_pending = false;
      cancellation_delivery_pending = false;
      cancellation_delivery_claimed = false;
      result = or_else result w.result;
      pre_cancel_status = none;
      stop_reason = settled_reason status (is_canceling w.status) stop_reason w.stop_reason;
    }

unfoldable pub settle_late : WorkerStatus → Option String → ℕ → Bool → Worker → Worker
unfolding append_late_observation
settle_late status result at keep_pending w =
    let was_pending = w.lifecycle_reconcile_pending in
    let retained = is_some result && not (is_some w.result) in
    let changed = is_some result && not (w.result == result) in
    let stored = record w {
      result = if retained || (is_some result && was_pending) then result else w.result;
    } in
    let observed =
      if retained || (changed || not keep_pending)
      then append_late_observation
          (record { observed_at = at; status = status; retained_result = retained }) stored
      else stored in
    record observed {
      lifecycle_reconcile_pending = keep_pending && was_pending;
      cancellation_delivery_pending = false;
      cancellation_delivery_claimed = false;
    }

-- The callback of `settleWorkerCancellation`; the flag says that this call settled the worker.
unfoldable pub settle_cancellation :
    WorkerStatus → Option String → Option String → ℕ → Bool → Worker → Worker × Bool
unfolding settle_late settled_reason
settle_cancellation status result stop_reason at keep_pending w =
    if is_terminal w.status
    then (settle_late status result at keep_pending w, false)
    else if not (is_canceling w.status)
    then (w, false)
    else (
      record w {
        status = status;
        completed_at = some at;
        lifecycle_reconcile_pending = keep_pending;
        cancellation_delivery_pending = false;
        cancellation_delivery_claimed = false;
        result = or_else result w.result;
        pre_cancel_status = none;
        stop_reason = settled_reason status true stop_reason w.stop_reason;
      },
      true,
    )

abbrev pub is_due : Option ℕ → ℕ → Bool
is_due none at = false
is_due (some deadline) at = leb deadline at

-- The callback of `expireWorker`; the flag says that this call expired the worker.
unfoldable pub expire : Option ℕ → ℕ → Bool → Worker → Worker × Bool
expire deadline at launching w =
    let deadline_at = or_else deadline w.deadline_at in
    if is_terminal w.status || not (is_due deadline_at at)
    then (record w { deadline_at = deadline_at }, false)
    else (let executing = is_some w.run_id || launching in
        let undelivered = not w.cancellation_delivery_claimed && not w.cancellation_delivered in
        (
          record w {
            deadline_at = deadline_at;
            status = WorkerStatus.failed;
            stop_reason = some "deadline_exceeded";
            completed_at = some at;
            lifecycle_reconcile_pending = executing || w.lifecycle_reconcile_pending;
            provider_stop_pending = (executing && undelivered) || w.provider_stop_pending;
            cancellation_delivery_pending = false;
            pre_cancel_status = none;
          },
          true,
        ))

abbrev same_status : WorkerStatus → WorkerStatus → Bool
same_status WorkerStatus.succeeded s = is_succeeded s
same_status WorkerStatus.failed s = is_failed s
same_status _ s = false

-- `recordWorkerResult`, whose status is `succeeded` or `failed`.
unfoldable pub record_result : WorkerStatus → String → ℕ → Worker → Result Worker
record_result status result completed_at w =
    if is_terminal w.status
    then (if not (same_status status w.status) || not (w.result == some result)
        then err refused
        else ok w)
    else ok (record w { status = status; result = some result; completed_at = some completed_at })

-- `overdueWorkers` keeps the workers that pass this test.
unfoldable pub is_overdue : ℕ → Worker → Bool
is_overdue now w = is_due w.deadline_at now && not (is_terminal w.status)

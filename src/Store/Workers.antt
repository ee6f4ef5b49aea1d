-- ===== src/Store/Workers.antt =====
-- src/store.ts: what each lifecycle operation does to one worker. An operation returns the changed
-- worker, and what else the method reports; `launching` says whether the worker's assignment is
-- being launched.
use superset_agent_orchestra.Base.{
  ℕ, String, Bool, true, false, ◌&&◌, ◌||◌, not, Option, none, some, ◌==◌, if◌then◌else◌, nat_eq,
  string_eq, option_string_eq,
}
use superset_agent_orchestra.Store.State.{
  WorkerStatus, Worker, Result, ok, err, invalid_request, is_terminal, is_canceling, is_running,
  is_requested, is_unknown, is_failed, is_some, get_or,
}

-- `bindWorkerRun`; the execution is a process id and its start token.
unfoldable pub bind_worker_run : String → Option (ℕ × String) → Worker → Result Worker
bind_worker_run run_id execution w =
    if is_terminal w.status
    then err invalid_request
    else if is_some w.run_id && not (w.run_id == some run_id)
    then err invalid_request
    else elim execution [
      | none ↦ ok (record w { run_id = some run_id })
      | some (pid, started) ↦
          if is_requested w.status || is_running w.status
          then ok (record w {
            run_id = some run_id;
            status = WorkerStatus.running;
            pid = some pid;
            process_started_at = some started;
          })
          else ok (record w { run_id = some run_id })
    ]

unfoldable pub set_worker_deadline : ℕ → Worker → Result Worker
set_worker_deadline deadline w =
    if is_terminal w.status
    then err invalid_request
    else ok (record w { deadline_at = some deadline })

abbrev pub or_else {ℓ} : {A : Type ℓ} → Option A → Option A → Option A
or_else none b = b
or_else (some a) b = some a

-- What a call of `requestWorkerCancellation` did.
pub record Intent : Type 0 where
  pub claimed : Bool
  pub local : Bool

unfoldable pub request_cancellation : String → Option String → ℕ → Bool → Worker → Worker × Intent
request_cancellation reason detail at launching w =
    if is_terminal w.status || is_canceling w.status
    then (w, record { claimed = false; local = false })
    else if not (is_some w.run_id) && not launching
    then (
      record w {
        status = WorkerStatus.canceled;
        completed_at = some at;
        stop_reason = some reason;
        stop_detail = or_else detail w.stop_detail;
      },
      record { claimed = true; local = true },
    )
    else (
      record w {
        pre_cancel_status = some w.status;
        status = WorkerStatus.canceling;
        cancellation_delivery_pending = true;
        cancel_requested_at = some at;
        stop_reason = some reason;
        stop_detail = or_else detail w.stop_detail;
      },
      record { claimed = true; local = false },
    )

unfoldable pub claim_cancellation_delivery : Worker → Worker × Bool
claim_cancellation_delivery w =
    if not w.cancellation_delivery_pending || w.cancellation_delivery_claimed then (w, false) else (
      record w { cancellation_delivery_pending = false; cancellation_delivery_claimed = true },
      true,
    )

-- An execution that was expired by its deadline.
unfoldable pub is_expired : Worker → Bool
is_expired w = is_failed w.status && w.stop_reason == some "deadline_exceeded"

unfoldable pub release_cancellation_delivery : Worker → Worker
release_cancellation_delivery w =
    if is_canceling w.status
    then record w { cancellation_delivery_claimed = false; cancellation_delivery_pending = true }
    else if is_expired w && is_some w.run_id
    then record w { cancellation_delivery_claimed = false; provider_stop_pending = true }
    else record w { cancellation_delivery_claimed = false }

unfoldable pub mark_cancellation_delivered : Worker → Worker
mark_cancellation_delivered w = record w {
  cancellation_delivery_pending = false;
  cancellation_delivery_claimed = false;
  cancellation_delivered = true;
  provider_stop_pending = false;
  provider_stop_claimed = false;
}

unfoldable pub mark_provider_stop_delivered : Worker → Worker
mark_provider_stop_delivered w = record w {
  provider_stop_pending = false;
  provider_stop_claimed = false;
  provider_stop_unsupported = false;
}

unfoldable pub mark_provider_stop_unsupported : Worker → Worker
mark_provider_stop_unsupported w = record w {
  provider_stop_pending = false;
  provider_stop_claimed = false;
  provider_stop_unsupported = true;
}

unfoldable pub handle_unsupported_cancellation : Worker → Worker
handle_unsupported_cancellation w =
    if is_expired w
    then record w {
      cancellation_delivery_pending = false;
      cancellation_delivery_claimed = false;
      provider_stop_pending = false;
      provider_stop_claimed = false;
      provider_stop_unsupported = true;
    }
    else if is_canceling w.status
    then record w {
      cancellation_delivery_pending = false;
      cancellation_delivery_claimed = false;
      status = get_or w.pre_cancel_status WorkerStatus.requested;
      pre_cancel_status = none;
      cancel_requested_at = none;
      stop_reason = none;
      stop_detail = none;
    }
    else record w { cancellation_delivery_pending = false; cancellation_delivery_claimed = false }

unfoldable pub claim_provider_stop : Worker → Worker × Bool
claim_provider_stop w =
    if not w.provider_stop_pending || w.provider_stop_claimed
    then (w, false)
    else (record w { provider_stop_pending = false; provider_stop_claimed = true }, true)

unfoldable pub release_provider_stop : Worker → Worker
release_provider_stop w =
    if is_some w.run_id
    then record w { provider_stop_claimed = false; provider_stop_pending = true }
    else record w { provider_stop_claimed = false }

-- The first half of the loop body of `recoverLifecycleDeliveryClaims`.
unfoldable pub recover_cancellation_claim : Worker → Worker
recover_cancellation_claim w =
    if not w.cancellation_delivery_claimed
    then w
    else let status = if is_unknown w.status then WorkerStatus.canceling else w.status in
      if is_some w.run_id && not (is_terminal status)
      then record w {
        cancellation_delivery_claimed = false;
        status = status;
        cancellation_delivery_pending = true;
      }
      else if is_some w.run_id && is_expired w
      then record w { cancellation_delivery_claimed = false; provider_stop_pending = true }
      else record w { cancellation_delivery_claimed = false; status = status }

unfoldable pub recover_stop_claim : Worker → Worker
unfolding release_provider_stop
recover_stop_claim w = if w.provider_stop_claimed then release_provider_stop w else w

unfoldable pub recover_claims : Worker → Worker
unfolding recover_cancellation_claim recover_stop_claim
recover_claims w = recover_stop_claim (recover_cancellation_claim w)

unfoldable pub clear_cancellation : Worker → Worker
clear_cancellation w =
    if is_canceling w.status
    then record w {
      status = get_or w.pre_cancel_status WorkerStatus.requested;
      pre_cancel_status = none;
      cancel_requested_at = none;
      cancellation_delivery_pending = false;
      cancellation_delivery_claimed = false;
      cancellation_delivered = false;
      stop_reason = none;
      stop_detail = none;
    }
    else w

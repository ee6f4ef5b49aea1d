-- ===== src/Store/Changes.antt =====
-- src/store.ts: no lifecycle method changes the outcome of a worker that has ended.
use superset_agent_orchestra.Base.{
  ℕ, String, ◌≡◌, Bool, true, Option, nat_eq, string_eq, option_string_eq, arith,
}
use superset_agent_orchestra.Store.State.{WorkerStatus, Worker, ok, is_terminal}
use superset_agent_orchestra.Store.Workers.{
  Intent, bind_worker_run, set_worker_deadline, request_cancellation, claim_cancellation_delivery,
  release_cancellation_delivery, mark_cancellation_delivered, mark_provider_stop_delivered,
  mark_provider_stop_unsupported, handle_unsupported_cancellation, claim_provider_stop,
  release_provider_stop, clear_cancellation,
}
use superset_agent_orchestra.Store.Outcomes.{
  record_terminal, settle_late, settle_cancellation, expire, record_result,
}
use superset_agent_orchestra.Store.Calls.{
  Call, bind_run, set_deadline, request_cancel, claim_delivery, release_delivery, mark_delivered,
  mark_stop_delivered, mark_stop_unsupported, handle_unsupported, claim_stop, release_stop,
  clear_cancel, terminal, settle, expires, result, change_of,
}

-- The outcome of a terminal worker: what later evidence must not change.
pub record SameOutcome (w v : Worker) : Type 0 where
  pub id : v.id ≡ w.id
  pub status : v.status ≡ w.status
  pub stop_reason : v.stop_reason ≡ w.stop_reason
  pub completed_at : v.completed_at ≡ w.completed_at
  pub run_id : v.run_id ≡ w.run_id

-- The id stays, and the outcome if there is one.
pub record Keeps (w v : Worker) : Type 0 where
  pub id : v.id ≡ w.id
  pub outcome : is_terminal w.status ≡ true → SameOutcome w v

settle_late-SameOutcome :
    (status : WorkerStatus) (res : Option String) (at : ℕ) (k : Bool) (w : Worker)
    → SameOutcome w (settle_late status res at k w)
unfolding settle_late
settle_late-SameOutcome status res at k w = ground arith

pub change-Keeps :
    (c : Call) (l : Bool) (w v : Worker) (i : Intent) → change_of c l w ≡ ok (v, i) → Keeps w v
unfolding change_of
change-Keeps (bind_run r e) l w v i h = unfold bind_worker_run in ground arith
change-Keeps (set_deadline d) l w v i h = unfold set_worker_deadline in ground arith
change-Keeps (request_cancel r d at) l w v i h = unfold request_cancellation in ground arith
change-Keeps claim_delivery l w v i h = unfold claim_cancellation_delivery in ground arith
change-Keeps release_delivery l w v i h = unfold release_cancellation_delivery in ground arith
change-Keeps mark_delivered l w v i h = unfold mark_cancellation_delivered in ground arith
change-Keeps mark_stop_delivered l w v i h = unfold mark_provider_stop_delivered in ground arith
change-Keeps mark_stop_unsupported l w v i h = unfold mark_provider_stop_unsupported in ground arith
change-Keeps handle_unsupported l w v i h =
    unfold handle_unsupported_cancellation is_terminal in ground arith
change-Keeps claim_stop l w v i h = unfold claim_provider_stop in ground arith
change-Keeps release_stop l w v i h = unfold release_provider_stop in ground arith
change-Keeps clear_cancel l w v i h = unfold clear_cancellation is_terminal in ground arith
change-Keeps (terminal s r p at) l w v i h = unfold record_terminal in ground arith
change-Keeps (settle s r p at k) l w v i h =
    unfold settle_cancellation in ground (arith, settle_late-SameOutcome s r at k w)
change-Keeps (expires d at) l w v i h = unfold expire in ground arith
change-Keeps (result s r at) l w v i h = unfold record_result in ground arith

-- ===== src/Store/Tests.antt =====
-- src/store.ts: the lifecycle theorems at concrete workers.
use superset_agent_orchestra.Base.{
  ℕ, ◌≤◌, ◌++◌, count, select, sort, insert, min, length, Pairs, Perm, all, any, ◌≡◌, refl, true,
  false, none, some, List, [], ◌∷◌, find, arith, ◌↔◌,
}
use superset_agent_orchestra.Store.State.{
  is_some, allows, ok, valid_worker, WorkerStatus, Worker, State, is_terminal, is_canceling,
}
use superset_agent_orchestra.Store.Workers.{claim_cancellation_delivery, or_else}
use superset_agent_orchestra.Store.Outcomes.{is_overdue, expire, settle_cancellation}
use superset_agent_orchestra.Store.Overdue.{
  overdue_workers, workers_pending_lifecycle_reconciliation, Earlier, overdue_workers-exact,
}
use superset_agent_orchestra.Store.Calls.{
  reconcile, reconcile_workers, reconcile_worker, reconcile_status, diagnose, claim_delivery,
  mark_delivered, request_cancel, terminal, expires, worker_by_id,
}
use superset_agent_orchestra.Store.Terminal.{Step, on, recovers, reconciles, run, run-SameOutcome}
use superset_agent_orchestra.Store.Changes.{SameOutcome}
use superset_agent_orchestra.Store.Cancellation.{
  Happening, calls, restarts, happen, reopens, apply_all, claim_delivery-once, expire-exact,
  settle-once, Bounded, apply_all-Bounded,
}

-- A running worker, bound to a run.
abbrev runner : Worker
runner = record {
  id = "s1";
  batch_id = "b1";
  session_id = "s1";
  pid = some 42;
  process_started_at = some "t0";
  status = WorkerStatus.running;
  attribution = record { agent = "codex"; task = "fix" };
  started_at = 1;
  completed_at = none;
  result = none;
  position = some 0;
  run_id = some "r1";
  stop_reason = none;
  stop_detail = none;
  cancel_requested_at = none;
  pre_cancel_status = none;
  deadline_at = some 50;
  lifecycle_reconcile_pending = false;
  cancellation_delivery_pending = false;
  cancellation_delivery_claimed = false;
  cancellation_delivered = false;
  provider_stop_pending = false;
  provider_stop_claimed = false;
  provider_stop_unsupported = false;
  late_observations = [];
}

abbrev finished : Worker
finished = record runner {
  status = WorkerStatus.succeeded;
  completed_at = some 9;
  stop_reason = some "succeeded";
}

abbrev canceling_worker : Worker
canceling_worker = record runner {
  status = WorkerStatus.canceling;
  pre_cancel_status = some WorkerStatus.running;
  cancel_requested_at = some 5;
  cancellation_delivery_pending = true;
  stop_reason = some "superseded";
}

abbrev ledger : State
ledger = record {
  sessions = [];
  batches = [];
  workers = finished ∷ [];
  diagnostics = [];
  assignments = [];
  reconciled_at = none;
}

abbrev script : List Step
script =
    on "s1" (request_cancel "user_requested" none 20)
    ∷ on "s1" (terminal WorkerStatus.failed (some "{}") none 21)
    ∷ on "s1" (expires none 60)
    ∷ recovers
    ∷ reconciles (λ _ _. false) 70
    ∷ []

run-SameOutcome_example :
    (v : Worker) × (worker_by_id "s1" (run ledger script).workers ≡ some v) × SameOutcome finished v
unfolding worker_by_id find is_terminal
run-SameOutcome_example = run-SameOutcome ledger script "s1" finished refl refl

abbrev happenings : List Happening
happenings = calls claim_delivery false ∷ restarts ∷ calls mark_delivered false ∷ []

claim_delivery-once_example :
    let claimed = (claim_cancellation_delivery canceling_worker).0 in
    ((claim_cancellation_delivery (happen happenings claimed)).1 ≡ true
      → any reopens happenings ≡ true)
    × (is_some canceling_worker.run_id ≡ true
        → is_terminal canceling_worker.status ≡ false
        → (claim_cancellation_delivery (happen (restarts ∷ []) claimed)).1 ≡ true)
unfolding claim_cancellation_delivery
claim_delivery-once_example = claim_delivery-once canceling_worker happenings refl

-- A deadline that is exactly now has come.
expires_at_its_deadline : (expire none 50 false runner).1 ≡ true
unfolding expire is_terminal
expires_at_its_deadline = refl

expire-exact_example :
    let (v, claimed) = expire none 50 false runner in
    ((claimed ≡ true) ↔ (
      (is_terminal runner.status ≡ false)
      × ((due : ℕ) × (or_else none runner.deadline_at ≡ some due) × (due ≤ 50))))
    × (claimed ≡ true
        → (v.status ≡ WorkerStatus.failed)
          × (v.stop_reason ≡ some "deadline_exceeded")
          × (v.completed_at ≡ some 50))
    × ((expire none 50 false runner).1 ≡ is_overdue 50 runner)
    × (is_overdue 50 v ≡ false)
    × ((expire none 50 false v).1 ≡ false)
expire-exact_example = expire-exact none 50 false runner

settle-once_example :
    let (v, claimed) =
      settle_cancellation WorkerStatus.canceled none none 8 false canceling_worker in
    ((claimed ≡ true) ↔ (is_canceling canceling_worker.status ≡ true))
    × (claimed ≡ true → v.status ≡ WorkerStatus.canceled)
    × ((settle_cancellation WorkerStatus.failed none none 9 false v).1 ≡ false)
settle-once_example =
    settle-once WorkerStatus.canceled WorkerStatus.failed none none none none 8 9 false false
      canceling_worker refl

apply_all-Bounded_example :
    Bounded (apply_all ((terminal WorkerStatus.failed none none 30, false) ∷ []) finished)
apply_all-Bounded_example =
    apply_all-Bounded ((terminal WorkerStatus.failed none none 30, false) ∷ []) finished
      (omega arith)

-- A worker whose deadline comes before that of the other, and one that has ended.
abbrev team : List Worker
team = runner ∷ record runner { id = "s2"; deadline_at = some 40 } ∷ finished ∷ []

earliest_first :
    overdue_workers 60 team ≡ record runner { id = "s2"; deadline_at = some 40 } ∷ runner ∷ []
unfolding overdue_workers select sort insert is_overdue is_terminal
earliest_first = refl

-- A worker that was running when its deadline came waits for its outcome.
waits :
    workers_pending_lifecycle_reconciliation ((expire none 60 false runner).0 ∷ finished ∷ [])
    ≡ (expire none 60 false runner).0 ∷ []
unfolding workers_pending_lifecycle_reconciliation select expire is_terminal
waits = refl

overdue_workers-exact_example :
    (left : List Worker) × Perm (overdue_workers 60 team ++ left) (select (is_overdue 60) team)
    × Pairs Earlier (overdue_workers 60 team ++ left)
    × (length (overdue_workers 60 team) ≡ min 250 (count (is_overdue 60) team))
overdue_workers-exact_example = overdue_workers-exact 60 team

-- A lost worker has an unknown outcome, and refers to a session that is not there.
recovers_lost :
    (reconcile (λ _ _. false) 70 (record ledger { workers = runner ∷ [] })).0
    ≡ ok (record {
      sessions_recovered = 0;
      batches_recovered = 0;
      workers_recovered = 1;
      running_workers = 0;
      diagnostics_added = 2;
      reconciled_at = 70;
    })
unfolding reconcile reconcile_workers reconcile_worker reconcile_status diagnose valid_worker all
    any count allows
recovers_lost = refl

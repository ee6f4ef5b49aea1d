-- ===== src/Store/Calls.antt =====
-- src/store.ts: the lifecycle methods of `DurableStore` on the whole state. A method loads the state,
-- changes it and persists it; what the schema rejects is never written, so the state stays as it was.
use superset_agent_orchestra.Base.{
  length, count, ◌-◌, ℕ, String, Bool, true, false, ◌&&◌, ◌||◌, not, Option, none, some, List, [],
  ◌∷◌, ◌++◌, map, any, all, find, update, ◌==◌, if◌then◌else◌, nat_eq, string_eq,
}
use superset_agent_orchestra.Store.State.{
  WorkerStatus, Worker, AssignmentStatus, Assignment, DiagnosticKind, Diagnostic, Session, Batch,
  State, Error, Result, ok, err, ◌>>=◌, not_found, invalid_request, invalid_state, refused,
  is_canceling, is_running, is_failed, is_succeeded, is_some, valid_worker, allows,
}
use superset_agent_orchestra.Store.Workers.{
  Intent, bind_worker_run, set_worker_deadline, request_cancellation, claim_cancellation_delivery,
  release_cancellation_delivery, mark_cancellation_delivered, mark_provider_stop_delivered,
  mark_provider_stop_unsupported, handle_unsupported_cancellation, claim_provider_stop,
  release_provider_stop, recover_claims, clear_cancellation,
}
use superset_agent_orchestra.Store.Outcomes.{
  valid_stop_reason, record_terminal, settle_cancellation, expire, record_result,
}

-- `workersById.get(id)`
unfoldable pub worker_by_id : String → List Worker → Option Worker
worker_by_id id ws = find (λ (w : Worker). w.id == id) ws

-- The stored object is the one that the callback changes.
unfoldable pub replace_worker : Worker → List Worker → List Worker
replace_worker w ws = update (λ (v : Worker). v.id == w.id) (λ _. w) ws

-- `updateWorker`: the callback may throw, and persisting fails where the schema rejects the worker.
unfoldable pub update_worker {ℓ} :
    {A : Type ℓ}
    → Error
    → String
    → (Worker → Result (Worker × A))
    → State
    → Result (Worker × A) × State
unfolding worker_by_id replace_worker
update_worker missing id change st = elim (worker_by_id id st.workers) [
  | none ↦ (err missing, st)
  | some w ↦ elim (change w) [
    | err e ↦ (err e, st)
    | ok (w', a) ↦
        if valid_worker w'
        then (ok (w', a), record st { workers = replace_worker w' st.workers })
        else (err invalid_state, st)
  ]
]

abbrev is_launching : AssignmentStatus → Bool
is_launching AssignmentStatus.launching = true
is_launching _ = false

abbrev status_is_launching : Option Assignment → Bool
status_is_launching none = false
status_is_launching (some a) = is_launching a.status

-- `assignments.find(({ sessionId }) => sessionId === candidate.id)?.status === "launching"`
unfoldable pub being_launched : State → String → Bool
being_launched st id =
    status_is_launching (find (λ (a : Assignment). a.session_id == id) st.assignments)

-- The calls on one worker that the class offers, with their arguments.
pub data Call : Type 0 where
  bind_run : String → Option (ℕ × String) → Call
  set_deadline : ℕ → Call
  request_cancel : String → Option String → ℕ → Call
  claim_delivery release_delivery mark_delivered mark_stop_delivered mark_stop_unsupported : Call
  handle_unsupported claim_stop release_stop clear_cancel : Call
  terminal : WorkerStatus → Option String → Option String → ℕ → Call
  settle : WorkerStatus → Option String → Option String → ℕ → Bool → Call
  expires : Option ℕ → ℕ → Call
  result : WorkerStatus → String → ℕ → Call

-- The checks of the arguments, before the state is read.
unfoldable pub accepts : Call → Bool
accepts (request_cancel reason detail at) = allows WorkerStatus.canceled (some reason)
accepts (terminal status res reason at) = valid_stop_reason status reason
accepts (settle status res reason at keep_pending) = valid_stop_reason status reason
accepts _ = true

abbrev pub report : Bool → Intent
report claimed = record { claimed = claimed; local = false }

abbrev reported : Worker × Bool → Worker × Intent
reported (w, claimed) = (w, report claimed)

abbrev pub silent : Worker → Worker × Intent
silent w = (w, report false)

-- What the callback of a call does to the worker, and the claim that the method reports; a method
-- that reports none has a false claim here.
unfoldable pub change_of : Call → Bool → Worker → Result (Worker × Intent)
change_of (bind_run run_id execution) l w =
    bind_worker_run run_id execution w >>= λ v. ok (silent v)
change_of (set_deadline d) l w = set_worker_deadline d w >>= λ v. ok (silent v)
change_of (request_cancel reason detail at) l w = ok (request_cancellation reason detail at l w)
change_of claim_delivery l w = ok (reported (claim_cancellation_delivery w))
change_of release_delivery l w = ok (silent (release_cancellation_delivery w))
change_of mark_delivered l w = ok (silent (mark_cancellation_delivered w))
change_of mark_stop_delivered l w = ok (silent (mark_provider_stop_delivered w))
change_of mark_stop_unsupported l w = ok (silent (mark_provider_stop_unsupported w))
change_of handle_unsupported l w = ok (silent (handle_unsupported_cancellation w))
change_of claim_stop l w = ok (reported (claim_provider_stop w))
change_of release_stop l w = ok (silent (release_provider_stop w))
change_of clear_cancel l w = ok (silent (clear_cancellation w))
change_of (terminal status res reason at) l w = ok (silent (record_terminal status res reason at w))
change_of (settle status res reason at keep_pending) l w =
    ok (reported (settle_cancellation status res reason at keep_pending w))
change_of (expires deadline at) l w = ok (reported (expire deadline at l w))
change_of (result status res at) l w = record_result status res at w >>= λ v. ok (silent v)

-- `recordWorkerResult` throws a plain error at an unknown worker, the others a `not_found`.
abbrev pub unknown_error : Call → Error
unknown_error (result status res at) = refused
unknown_error _ = not_found

unfoldable pub call : String → Call → State → Result (Worker × Intent) × State
unfolding being_launched
call id c st =
    if accepts c
    then update_worker (unknown_error c) id (change_of c (being_launched st id)) st
    else (err invalid_request, st)

-- `recoverLifecycleDeliveryClaims`; without a claim nothing is written, and then nothing differs.
unfoldable pub recover_lifecycle_delivery_claims : State → Result (Unit {0}) × State
recover_lifecycle_delivery_claims st =
    let changed =
      any (λ (w : Worker). w.cancellation_delivery_claimed || w.provider_stop_claimed) st.workers in
    let workers = map recover_claims st.workers in
    if not changed
    then (ok tt, st)
    else if all valid_worker workers
    then (ok tt, record st { workers = workers })
    else (err invalid_state, st)

abbrev orphan_message : String
orphan_message = "Worker references a missing or inconsistent durable session or batch"

abbrev absent_message : String
absent_message = "Worker process was absent during startup reconciliation"

abbrev canceling_message : String
canceling_message =
    "Canceling worker process was absent; exact provider reconciliation remains pending"

abbrev missing_message : String
missing_message = "Terminal worker has no persisted result"

abbrev same_kind : DiagnosticKind → DiagnosticKind → Bool
same_kind DiagnosticKind.orphan DiagnosticKind.orphan = true
same_kind DiagnosticKind.unknown_outcome DiagnosticKind.unknown_outcome = true
same_kind DiagnosticKind.missing_result DiagnosticKind.missing_result = true
same_kind _ _ = false

-- `diagnose`, inside `reconcile`: a diagnostic id, of a kind and a worker, is recorded once.
unfoldable pub diagnose : DiagnosticKind → String → String → ℕ → List Diagnostic → List Diagnostic
diagnose kind worker_id message at ds =
    if any (λ (d : Diagnostic). same_kind d.kind kind && d.worker_id == worker_id) ds
    then ds
    else ds
      ++ record { kind = kind; worker_id = worker_id; message = message; detected_at = at } ∷ []

abbrev alive? : (ℕ → Option String → Bool) → Worker → Option ℕ → Bool
alive? is_process_alive w none = false
alive? is_process_alive w (some pid) = is_process_alive pid w.process_started_at

-- The code counts the diagnostics that it adds; nothing removes one meanwhile.
pub record ReconciliationSummary : Type 0 where
  pub sessions_recovered : ℕ
  pub batches_recovered : ℕ
  pub workers_recovered : ℕ
  pub running_workers : ℕ
  pub diagnostics_added : ℕ
  pub reconciled_at : ℕ

module _ (is_process_alive : ℕ → Option String → Bool) (now : ℕ) where
  unfoldable pub reconcile_status : Worker → Worker
  reconcile_status w =
      if is_running w.status && not (alive? is_process_alive w w.pid)
      then record w { status = WorkerStatus.unknown_outcome; completed_at = some now }
      else w

  -- One round of the loop of `reconcile`: the worker, and the diagnostics.
  unfoldable pub reconcile_worker :
      List Session → List Batch → Worker → List Diagnostic → Worker × List Diagnostic
  unfolding reconcile_status
  reconcile_worker sessions batches w ds =
      let known =
        any (λ (s : Session). s.id == w.session_id) sessions
        && any (λ (b : Batch). b.id == w.batch_id) batches in
      let ds1 = if known then ds else diagnose DiagnosticKind.orphan w.id orphan_message now ds in
      let lost = is_running w.status && not (alive? is_process_alive w w.pid) in
      let w' = reconcile_status w in
      let ds2 =
        if lost then diagnose DiagnosticKind.unknown_outcome w.id absent_message now ds1 else ds1 in
      let gone =
        is_canceling w'.status
        && (is_some w'.pid
            && (not w'.cancellation_delivery_pending && not (alive? is_process_alive w' w'.pid))) in
      let ds3 =
        if gone
        then diagnose DiagnosticKind.unknown_outcome w.id canceling_message now ds2
        else ds2 in
      let unsaved = (is_succeeded w'.status || is_failed w'.status) && not (is_some w'.result) in
      let ds4 =
        if unsaved
        then diagnose DiagnosticKind.missing_result w.id missing_message now ds3
        else ds3 in
      (w', ds4)

  unfoldable pub reconcile_workers :
      List Session → List Batch → List Worker → List Diagnostic → List Worker × List Diagnostic
  reconcile_workers sessions batches [] ds = ([], ds)
  reconcile_workers sessions batches (w ∷ ws) ds =
      let (w', ds') = reconcile_worker sessions batches w ds in
      let (ws', ds'') = reconcile_workers sessions batches ws ds' in (w' ∷ ws', ds'')

  unfoldable pub reconcile : State → Result ReconciliationSummary × State
  unfolding reconcile_workers
  reconcile st =
      let (workers, diagnostics) =
        reconcile_workers st.sessions st.batches st.workers st.diagnostics in
      if all valid_worker workers
      then (
        ok (record {
          sessions_recovered = length st.sessions;
          batches_recovered = length st.batches;
          workers_recovered = length workers;
          running_workers = count (λ (w : Worker). is_running w.status) workers;
          diagnostics_added = length diagnostics - length st.diagnostics;
          reconciled_at = now;
        }),
        record st { workers = workers; diagnostics = diagnostics; reconciled_at = some now },
      )
      else (err invalid_state, st)

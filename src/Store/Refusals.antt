-- ===== src/Store/Refusals.antt =====
-- src/store.ts: a result that recordWorkerResult cannot record.
use superset_agent_orchestra.Base.{
  ℕ, String, ◌≡◌, refl, true, false, ◌||◌, some, inl, inr, any, ◌==◌, string_eq, option_string_eq,
  arith, eq_iff, Bool-cases,
}
use superset_agent_orchestra.Store.State.{
  WorkerStatus, Worker, State, err, invalid_state, is_terminal, is_canceling, is_succeeded,
  is_failed, allows, valid_worker,
}
use superset_agent_orchestra.Store.Outcomes.{record_result}
use superset_agent_orchestra.Store.Calls.{
  worker_by_id, result, call, update_worker, change_of, accepts,
}

-- What holds of the four reasons of a cancellation holds of each.
each_reason :
    (r : String) (s : WorkerStatus)
    → allows WorkerStatus.canceled (some r) ≡ true
    → allows s (some "user_requested") ≡ false
    → allows s (some "orchestrator_shutdown") ≡ false
    → allows s (some "superseded") ≡ false
    → allows s (some "policy_revoked") ≡ false
    → allows s (some r) ≡ false
each_reason r s h a b c d = elim (Bool-cases ("user_requested" == r)) [
  | inl e ↦ rw (← (eq_iff "user_requested" r).0 e) a
  | inr u ↦ elim (Bool-cases ("orchestrator_shutdown" == r)) [
    | inl e ↦ rw (← (eq_iff "orchestrator_shutdown" r).0 e) b
    | inr v ↦ elim (Bool-cases ("superseded" == r)) [
      | inl e ↦ rw (← (eq_iff "superseded" r).0 e) c
      | inr w ↦
          let p : ("policy_revoked" == r) ≡ true =
            unfold allows any in ground (arith, h, u, v, w) in
          rw (← (eq_iff "policy_revoked" r).0 p) d
    ]
  ]
]

-- No reason of a cancellation is one of a success or a failure.
cancellation_reason :
    (r : String) (s : WorkerStatus)
    → allows WorkerStatus.canceled (some r) ≡ true
    → (is_succeeded s || is_failed s) ≡ true
    → allows s (some r) ≡ false
unfolding allows any
cancellation_reason r WorkerStatus.succeeded h e =
    each_reason r WorkerStatus.succeeded h refl refl refl refl
cancellation_reason r WorkerStatus.failed h e =
    each_reason r WorkerStatus.failed h refl refl refl refl
cancellation_reason r WorkerStatus.requested h e = absurd (ground (arith, e))
cancellation_reason r WorkerStatus.running h e = absurd (ground (arith, e))
cancellation_reason r WorkerStatus.canceling h e = absurd (ground (arith, e))
cancellation_reason r WorkerStatus.canceled h e = absurd (ground (arith, e))
cancellation_reason r WorkerStatus.unknown_outcome h e = absurd (ground (arith, e))

invalid_after :
    (w : Worker) (s : WorkerStatus) (json r : String) (at : ℕ)
    → w.stop_reason ≡ some r
    → allows s (some r) ≡ false
    → valid_worker (record w { status = s; result = some json; completed_at = some at }) ≡ false
unfolding valid_worker
invalid_after w s json r at p n = ground (arith, p, n)

-- The result of a worker whose cancellation was requested, with a reason of a cancellation, cannot be
-- recorded by record_result: the stop reason stays, the schema refuses it for a success or a
-- failure, and the call fails and changes nothing.
pub record_result-refused :
    (id json r : String) (s : WorkerStatus) (at : ℕ) (w : Worker) (st : State)
    → worker_by_id id st.workers ≡ some w
    → is_canceling w.status ≡ true
    → w.stop_reason ≡ some r
    → allows WorkerStatus.canceled (some r) ≡ true
    → (is_succeeded s || is_failed s) ≡ true
    → call id (result s json at) st ≡ (err invalid_state, st)
unfolding call accepts change_of record_result is_terminal update_worker
record_result-refused id json r s at w st f c p h e =
    let t : is_terminal w.status ≡ false = ground (arith, c) in
    let v = invalid_after w s json r at p (cancellation_reason r s h e) in
    rw (f, update_worker) (rw (t, record_result) (rw (v) refl))

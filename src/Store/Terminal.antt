-- ===== src/Store/Terminal.antt =====
-- src/store.ts: the first terminal outcome wins.
use superset_agent_orchestra.Base.{
  ℕ, String, ◌≡◌, refl, ap, subst, ◌∙◌, Bool, true, ◌||◌, Option, some, List, [], ◌∷◌, map, inl,
  inr, any, all, ◌==◌, if◌then◌else◌, nat_eq, string_eq, option_string_eq, arith, eq_iff,
  Bool-cases, Option-cases,
}
use superset_agent_orchestra.Store.State.{
  Worker, State, Error, Result, ok, err, is_terminal, invalid_state, valid_worker,
}
use superset_agent_orchestra.Store.Workers.{Intent, release_provider_stop, recover_claims}
use superset_agent_orchestra.Store.Calls.{
  Call, change_of, call, accepts, update_worker, worker_by_id, replace_worker, unknown_error,
  being_launched, recover_lifecycle_delivery_claims, reconcile_status, reconcile_workers, reconcile,
}
use superset_agent_orchestra.Store.Lookup.{
  by_id-id, by_id-replace_ne, by_id-replace_self, by_id-map, map-reconcile,
}
use superset_agent_orchestra.Store.Changes.{Keeps, SameOutcome, change-Keeps}

-- What a caller may do to the ledger's workers, in any order and with any arguments.
pub data Step : Type 0 where
  on : String → Call → Step
  recovers : Step
  reconciles : (ℕ → Option String → Bool) → ℕ → Step

unfoldable pub step : State → Step → State
step st (on id c) = (call id c st).1
step st recovers = (recover_lifecycle_delivery_claims st).1
step st (reconciles alive now) = (reconcile alive now st).1

unfoldable pub run : State → List Step → State
run st [] = st
run st (s ∷ ss) = run (step st s) ss

SameOutcome-refl : (w : Worker) → SameOutcome w w
SameOutcome-refl w = record {
  id = refl;
  status = refl;
  stop_reason = refl;
  completed_at = refl;
  run_id = refl;
}

SameOutcome-trans : (u v w : Worker) → SameOutcome u v → SameOutcome v w → SameOutcome u w
SameOutcome-trans u v w p q = record {
  id = q.id ∙ p.id;
  status = q.status ∙ p.status;
  stop_reason = q.stop_reason ∙ p.stop_reason;
  completed_at = q.completed_at ∙ p.completed_at;
  run_id = q.run_id ∙ p.run_id;
}

recover-Keeps : (w : Worker) → Keeps w (recover_claims w)
unfolding recover_claims release_provider_stop is_terminal
recover-Keeps w = ground arith

reconcile-Keeps :
    (alive : ℕ → Option String → Bool) (now : ℕ) (w : Worker)
    → Keeps w (reconcile_status alive now w)
unfolding reconcile_status is_terminal
reconcile-Keeps alive now w = ground arith

-- The worker that an id stands for, before and after.
abbrev pub Outcome : String → State → Worker → Type 0
Outcome id st w = (v : Worker) × (worker_by_id id st.workers ≡ some v) × SameOutcome w v

map-Outcome :
    (f : Worker → Worker)
    → ((w : Worker) → Keeps w (f w))
    → (id : String) (st after : State) (w : Worker) → after.workers ≡ map f st.workers
    → worker_by_id id st.workers ≡ some w
    → is_terminal w.status ≡ true
    → Outcome id after w
map-Outcome f keeps id st after w e h t =
    (f w, rw e (by_id-map f (λ v. (keeps v).id) id st.workers w h), (keeps w).outcome t)

update-Outcome :
    (e : Error) (j id : String) (change : Worker → Result (Worker × Intent))
    → ((x v : Worker) (i : Intent) → change x ≡ ok (v, i) → Keeps x v)
    → (st : State) (w : Worker) → worker_by_id id st.workers ≡ some w
    → is_terminal w.status ≡ true
    → Outcome id (update_worker e j change st).1 w
unfolding update_worker
update-Outcome e j id change keeps st w h t = elim (Option-cases (worker_by_id j st.workers)) [
  | inl f ↦ rw (f, update_worker) (w, h, SameOutcome-refl w)
  | inr (x, f) ↦ rw (f, update_worker) (changed x f (change x) refl)
]
  where
    written :
        (x v : Worker)
        → worker_by_id j st.workers ≡ some x
        → Keeps x v
        → Outcome id (record st { workers = replace_worker v st.workers }) w
    written x v f k =
        let xj : x.id ≡ j = by_id-id j st.workers x f in
        let vj : v.id ≡ j = k.id ∙ xj in
        elim (Bool-cases (v.id == id)) [
          | inl same ↦
              let vid : v.id ≡ id = (eq_iff v.id id).0 same in
              let xw : x ≡ w = ground (arith, f, h, vid, vj) in
              (
                v,
                rw (← vid) (by_id-replace_self v st.workers x (rw vj f)),
                subst (λ (z : Worker). SameOutcome z v) xw (k.outcome (rw xw t)),
              )
          | inr other ↦ (w, by_id-replace_ne id v st.workers other ∙ h, SameOutcome-refl w)
        ]

    changed :
        (x : Worker)
        → worker_by_id j st.workers ≡ some x
        → (r : Result (Worker × Intent)) → change x ≡ r
        → Outcome id
            (elim r as (λ _. Result (Worker × Intent) × State) [
              | err y ↦ (err y, st)
              | ok (v, a) ↦
                  if valid_worker v
                  then (ok (v, a), record st { workers = replace_worker v st.workers })
                  else (err invalid_state, st)
            ]).1
            w
    changed x f (err y) c = (w, h, SameOutcome-refl w)
    changed x f (ok (v, i)) c = elim (Bool-cases (valid_worker v)) [
      | inl good ↦ rw good (written x v f (keeps x v i c))
      | inr bad ↦ rw bad (w, h, SameOutcome-refl w)
    ]

module _ (st : State) (id : String) (w : Worker) (h : worker_by_id id st.workers ≡ some w)
    (t : is_terminal w.status ≡ true) where
  call-Outcome : (j : String) (c : Call) → Outcome id (call j c st).1 w
  unfolding call
  call-Outcome j c = elim (Bool-cases (accepts c)) [
    | inl a ↦
        rw (a, call)
          (update-Outcome (unknown_error c) j id (change_of c (being_launched st j))
            (change-Keeps c (being_launched st j)) st w h t)
    | inr a ↦ rw (a, call) (w, h, SameOutcome-refl w)
  ]

  recover-Outcome : Outcome id (recover_lifecycle_delivery_claims st).1 w
  unfolding recover_lifecycle_delivery_claims
  recover-Outcome =
      let changed =
        any (λ (x : Worker). x.cancellation_delivery_claimed || x.provider_stop_claimed)
          st.workers in
      elim (Bool-cases changed) [
        | inr c ↦ rw (c, recover_lifecycle_delivery_claims) (w, h, SameOutcome-refl w)
        | inl c ↦
            rw (c, recover_lifecycle_delivery_claims)
              (elim (Bool-cases (all valid_worker (map recover_claims st.workers))) [
                | inr v ↦ rw (v, recover_lifecycle_delivery_claims) (w, h, SameOutcome-refl w)
                | inl v ↦
                    rw (v, recover_lifecycle_delivery_claims)
                      (map-Outcome recover_claims recover-Keeps id st
                        (record st { workers = map recover_claims st.workers }) w refl h t)
              ])
      ]

  reconcile-Outcome :
      (alive : ℕ → Option String → Bool) (now : ℕ) → Outcome id (reconcile alive now st).1 w
  unfolding reconcile
  reconcile-Outcome alive now =
      let after = reconcile_workers alive now st.sessions st.batches st.workers st.diagnostics in
      elim (Bool-cases (all valid_worker after.0)) [
        | inr v ↦ rw (v, reconcile) (w, h, SameOutcome-refl w)
        | inl v ↦
            rw (v, reconcile)
              (map-Outcome (reconcile_status alive now) (reconcile-Keeps alive now) id st
                (record st { workers = after.0; diagnostics = after.1; reconciled_at = some now }) w
                (map-reconcile alive now st.sessions st.batches st.workers st.diagnostics) h t)
      ]

step-Outcome :
    (st : State) (s : Step) (id : String) (w : Worker)
    → worker_by_id id st.workers ≡ some w
    → is_terminal w.status ≡ true
    → Outcome id (step st s) w
unfolding step
step-Outcome st (on j c) id w h t = call-Outcome st id w h t j c
step-Outcome st recovers id w h t = recover-Outcome st id w h t
step-Outcome st (reconciles alive now) id w h t = reconcile-Outcome st id w h t alive now

-- A terminal worker stays: after any sequence of lifecycle calls, claim recoveries and startup
-- reconciliations, with any arguments, its id still names a worker, with the same status, stop
-- reason, completion instant and run.
pub run-SameOutcome :
    (st : State) (ss : List Step) (id : String) (w : Worker)
    → worker_by_id id st.workers ≡ some w
    → is_terminal w.status ≡ true
    → (v : Worker) × (worker_by_id id (run st ss).workers ≡ some v) × SameOutcome w v
unfolding run
run-SameOutcome st [] id w h t = (w, h, SameOutcome-refl w)
run-SameOutcome st (s ∷ ss) id w h t =
    let first = step-Outcome st s id w h t in
    let rest =
      run-SameOutcome (step st s) ss id first.0 first.1 (ap is_terminal first.2.status ∙ t) in
    (rest.0, rest.1, SameOutcome-trans w first.0 rest.0 first.2 rest.2)

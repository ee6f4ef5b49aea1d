-- ===== src/Store/Dispatched.antt =====
-- src/store.ts: what recordLaunchEvent may change, and what it may not.
use superset_agent_orchestra.Base.{
  String, ◌≡◌, refl, sym, ap, ◌∙◌, Bool, true, false, ◌&&◌, ◌||◌, some, inl, inr, ◌==◌, string_eq,
  nat_eq, arith, eq_iff, Bool-cases, Option-cases,
}
use superset_agent_orchestra.Store.State.{
  Worker, AssignmentStatus, Assignment, is_terminal, is_some, valid_worker,
}
use superset_agent_orchestra.Store.Calls.{worker_by_id, replace_worker}
use superset_agent_orchestra.Store.Lookup.{by_id-replace_self, by_id-replace_ne, by_id-id}
use superset_agent_orchestra.Store.Results.{assignment_by_id}
use superset_agent_orchestra.Store.Audit.{map?}
use superset_agent_orchestra.Store.Dispatch.{
  commit, replace_assignment, push_new, LaunchAuditEvent, Target, Dispatches, is_launching, fails,
  may_follow, ended, event_by_id, event_fits, withdrawal_fits, bind_run, fail_worker,
  launched_worker, withdraw_launch, apply_launch, record_for, record_launch_event, agrees_with,
  elsewhere, launched_assignment, kind_code, expected_code,
}

unfoldable pub is_settled : AssignmentStatus → Bool
is_settled AssignmentStatus.launched = true
is_settled AssignmentStatus.failed = true
is_settled _ = false

nothing_follows : (s : AssignmentStatus) (t : Target) → is_settled s ≡ true → may_follow s t ≡ false
unfolding is_settled may_follow
nothing_follows s t h = ground (arith, h)

module _ (redact failure : String → String) (audited : Bool) (id : String) (e : LaunchAuditEvent)
    (st : Dispatches) where
  -- An assignment that is launched or has failed is final: no event changes anything any more, except
  -- one that asks for its launch after its worker has ended.
  pub record-settled :
      (target : Target) (a : Assignment)
      → assignment_by_id id st.assignments ≡ some a
      → is_settled a.status ≡ true
      → (is_launching target && ended (worker_by_id a.session_id st.workers)) ≡ false
      → (record_launch_event redact failure audited id target e st).1 ≡ st
  unfolding record_launch_event record_for
  record-settled target a f s n =
      let m = nothing_follows a.status target s in
      rw (f, record_launch_event) (rw (n, record_for) (rw m (ground arith)))

-- What later evidence never changes of a worker that has ended.
pub record Kept (w v : Worker) : Type 0 where
  pub id : v.id ≡ w.id
  pub status : v.status ≡ w.status
  pub stop_reason : v.stop_reason ≡ w.stop_reason
  pub completed_at : v.completed_at ≡ w.completed_at
  pub result : v.result ≡ w.result

Kept-refl : (w : Worker) → Kept w w
Kept-refl w = record {
  id = refl;
  status = refl;
  stop_reason = refl;
  completed_at = refl;
  result = refl;
}

launched_worker-id :
    (redact failure : String → String) (target : Target) (e : LaunchAuditEvent) (w : Worker)
    → (launched_worker redact failure target e w).id ≡ w.id
unfolding launched_worker bind_run fail_worker
launched_worker-id redact failure target e w = ground arith

launched_worker-Kept :
    (redact failure : String → String) (target : Target) (e : LaunchAuditEvent) (w : Worker)
    → is_terminal w.status ≡ true
    → Kept w (launched_worker redact failure target e w)
unfolding launched_worker bind_run fail_worker
launched_worker-Kept redact failure target e w t = record {
  id = ground (arith, t);
  status = ground (arith, t);
  stop_reason = ground (arith, t);
  completed_at = ground (arith, t);
  result = ground (arith, t);
}

-- The worker that an id stands for keeps what `Kept` says.
abbrev Keeps : String → Worker → Dispatches → Type 0
Keeps id w st = (v : Worker) × (worker_by_id id st.workers ≡ some v) × Kept w v

module _ (redact failure : String → String) (audited : Bool) (e : LaunchAuditEvent)
    (st : Dispatches) (wid : String) (w : Worker) (f : worker_by_id wid st.workers ≡ some w)
    (t : is_terminal w.status ≡ true) where
  unchanged : Keeps wid w st
  unchanged = (w, f, Kept-refl w)

  replaced-Keeps :
      (target : Target) (x : Worker) (sid : String) (after : Dispatches)
      → worker_by_id sid st.workers ≡ some x
      → after.workers ≡ replace_worker (launched_worker redact failure target e x) st.workers
      → Keeps wid w after
  replaced-Keeps target x sid after n r =
      let new = launched_worker redact failure target e x in
      let i = launched_worker-id redact failure target e x in
      elim (Bool-cases (new.id == wid)) [
        | inr o ↦ (w, rw r (by_id-replace_ne wid new st.workers o ∙ f), Kept-refl w)
        | inl o ↦
            let q : new.id ≡ wid = (eq_iff new.id wid).0 o in
            let s : sid ≡ wid = sym (by_id-id sid st.workers x n) ∙ (sym i ∙ q) in
            let g : some x ≡ some w = sym n ∙ (ap (λ k. worker_by_id k st.workers) s ∙ f) in
            let same : x ≡ w = ground (arith, g) in
            let l : worker_by_id new.id st.workers ≡ some w = rw q f in
            (
              new,
              rw r (
                  ap (λ k. worker_by_id k (replace_worker new st.workers)) (sym q)
                  ∙ by_id-replace_self new st.workers w l),
              rw same (launched_worker-Kept redact failure target e w t),
            )
      ]

  commit-Keeps :
      (ok : Bool) (changed : Assignment) (after : Dispatches)
      → Keeps wid w after
      → Keeps wid w (commit ok changed after st).1
  unfolding commit
  commit-Keeps true changed after k = k
  commit-Keeps false changed after k = unchanged

  apply-Keeps :
      (target : Target) (a : Assignment)
      → Keeps wid w (apply_launch redact failure audited target e a st).1
  unfolding apply_launch
  apply-Keeps target a =
      let changed = launched_assignment redact target e a in
      let event : LaunchAuditEvent = record e { error = map? redact e.error } in
      let after : Dispatches = record st {
        assignments = replace_assignment changed st.assignments;
        events = push_new (event_by_id e.id st.events) event st.events;
      } in
      elim (Option-cases (worker_by_id a.session_id st.workers)) [
        | inl n ↦ elim (Bool-cases (is_some e.run_id || fails target)) [
          | inl o ↦ rw (n, o, apply_launch) unchanged
          | inr o ↦
              rw (n, o, apply_launch)
                (commit-Keeps (audited && event_fits event changed) changed after unchanged)
        ]
        | inr (x, n) ↦
            let new = launched_worker redact failure target e x in
            elim (Bool-cases (elsewhere e.run_id x.run_id)) [
              | inl o ↦ rw (n, o, apply_launch) unchanged
              | inr o ↦
                  rw (n, o, apply_launch)
                    (commit-Keeps (audited && (event_fits event changed && valid_worker new))
                      changed (record after { workers = replace_worker new st.workers })
                      (replaced-Keeps target x a.session_id
                        (record after { workers = replace_worker new st.workers }) n refl))
            ]
      ]

  withdraw-Keeps : (a : Assignment) → Keeps wid w (withdraw_launch audited e a st).1
  unfolding withdraw_launch
  withdraw-Keeps a = elim (Bool-cases (audited && withdrawal_fits e a st)) [
    | inl o ↦ rw (o, withdraw_launch) unchanged
    | inr o ↦ rw (o, withdraw_launch) unchanged
  ]

  record_for-Keeps :
      (target : Target) (a : Assignment)
      → Keeps wid w (record_for redact failure audited target e a st).1
  unfolding record_for
  record_for-Keeps target a =
      elim (Bool-cases (is_launching target && ended (worker_by_id a.session_id st.workers))) [
        | inl o ↦ rw (o, record_for) (withdraw-Keeps a)
        | inr o ↦ elim (Bool-cases (e.assignment_id == a.id)) [
          | inr i ↦ rw (o, i, record_for) unchanged
          | inl i ↦ elim (Bool-cases (kind_code e.kind == expected_code target)) [
            | inr k ↦ rw (o, i, k, record_for) unchanged
            | inl k ↦ elim (Bool-cases (agrees_with (event_by_id e.id st.events) e)) [
              | inr g ↦ rw (o, i, k, g, record_for) unchanged
              | inl g ↦ elim (Bool-cases (may_follow a.status target)) [
                | inr m ↦ rw (o, i, k, g, m, record_for) unchanged
                | inl m ↦ rw (o, i, k, g, m, record_for) (apply-Keeps target a)
              ]
            ]
          ]
        ]
      ]

  -- A worker that has ended keeps its status, its stop reason, its completion time and its result,
  -- whatever launch event is recorded.
  pub record-Kept :
      (id : String) (target : Target)
      → (v : Worker) × (worker_by_id wid
            (record_launch_event redact failure audited id target e st).1.workers
          ≡ some v)
        × Kept w v
  unfolding record_launch_event
  record-Kept id target = elim (Option-cases (assignment_by_id id st.assignments)) [
    | inl n ↦ rw (n, record_launch_event) unchanged
    | inr (a, n) ↦ rw (n, record_launch_event) (record_for-Keeps target a)
  ]

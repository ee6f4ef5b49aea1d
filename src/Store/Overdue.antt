-- ===== src/Store/Overdue.antt =====
-- src/store.ts: the workers that a sweep of the lifecycle asks for.
use superset_agent_orchestra.Base.{
  ℕ, ◌≤◌, min, Bool, ◌&&◌, ◌||◌, none, some, List, ◌++◌, ◌≡◌, sym, ap, ◌∙◌, subst, ltb, length,
  take, drop, select, count, sort, Pairs, Perm, sort-Perm, sort-Pairs, length-sort, take-drop,
  length-take, length-select, arith,
}
use superset_agent_orchestra.Store.State.{Worker, is_some}
use superset_agent_orchestra.Store.Outcomes.{is_overdue}

-- The deadline of a worker that has one.
abbrev pub deadline_of : Worker → ℕ
deadline_of w = elim w.deadline_at [ none ↦ 0 | some at ↦ at ]

abbrev pub deadline_before : Worker → Worker → Bool
deadline_before v w = ltb (deadline_of v) (deadline_of w)

abbrev pub max_overdue : ℕ
max_overdue = 250

unfoldable pub overdue_workers : ℕ → List Worker → List Worker
overdue_workers now ws = take max_overdue (sort deadline_before (select (is_overdue now) ws))

-- `workersPendingLifecycleReconciliation`
unfoldable pub workers_pending_lifecycle_reconciliation : List Worker → List Worker
workers_pending_lifecycle_reconciliation ws =
    select
      (λ (w : Worker).
        (w.lifecycle_reconcile_pending || w.provider_stop_pending) && is_some w.run_id)
      ws

abbrev pub Earlier : Worker → Worker → Type 0
Earlier v w = deadline_of v ≤ deadline_of w

by_deadline : (ws : List Worker) → Pairs Earlier (sort deadline_before ws)
by_deadline ws =
    sort-Pairs Earlier deadline_before (λ v w e. ground (arith, e)) (λ v w e. ground (arith, e))
      (λ u v w r s. omega (arith, r, s)) ws

-- The workers that a sweep gets, followed by those that it leaves for the next one, are all the
-- overdue workers, each once and in the order of their deadlines; a sweep gets all of them but if
-- there are more than 250, and then the 250 earliest.
pub overdue_workers-exact :
    (now : ℕ) (ws : List Worker)
    → (left : List Worker) × Perm (overdue_workers now ws ++ left) (select (is_overdue now) ws)
      × Pairs Earlier (overdue_workers now ws ++ left)
      × (length (overdue_workers now ws) ≡ min 250 (count (is_overdue now) ws))
unfolding overdue_workers
overdue_workers-exact now ws =
    let due = select (is_overdue now) ws in
    let sorted = sort deadline_before due in
    let whole = sym (take-drop max_overdue sorted) in
    (
      drop max_overdue sorted,
      subst (λ l. Perm l due) whole (sort-Perm deadline_before due),
      subst (Pairs Earlier) whole (by_deadline due),
      length-take max_overdue sorted
          ∙ ap (min max_overdue)
              (length-sort deadline_before due ∙ length-select (is_overdue now) ws),
    )

-- ===== src/Store/Lookup.antt =====
-- src/store.ts: what the worker of an id is, after the list of workers has changed.
use superset_agent_orchestra.Base.{
  ℕ, String, ◌≡◌, refl, ap, Bool, false, Option, some, List, [], ◌∷◌, map, inl, inr, find, update,
  ◌==◌, nat_eq, string_eq, option_string_eq, arith, eq_iff, Bool-cases,
}
use superset_agent_orchestra.Store.State.{Worker, Session, Batch, Diagnostic}
use superset_agent_orchestra.Store.Calls.{
  worker_by_id, replace_worker, reconcile_status, reconcile_worker, reconcile_workers,
}

pub by_id-replace_self :
    (u : Worker) (ws : List Worker) (w : Worker)
    → worker_by_id u.id ws ≡ some w
    → worker_by_id u.id (replace_worker u ws) ≡ some u
unfolding worker_by_id replace_worker find update
by_id-replace_self u [] w h = absurd (ground arith)
by_id-replace_self u (x ∷ ws) w h = elim (Bool-cases (x.id == u.id)) [
  | inl e ↦ ground (arith, e, eq_iff u.id u.id)
  | inr e ↦
      rw (e, replace_worker) (rw (e, worker_by_id) (by_id-replace_self u ws w (ground (arith, e))))
]

pub by_id-replace_ne :
    (id : String) (u : Worker) (ws : List Worker)
    → (u.id == id) ≡ false
    → worker_by_id id (replace_worker u ws) ≡ worker_by_id id ws
unfolding worker_by_id replace_worker find update
by_id-replace_ne id u [] n = refl
by_id-replace_ne id u (x ∷ ws) n =
    ground (arith, eq_iff x.id u.id, eq_iff x.id id, eq_iff u.id id, by_id-replace_ne id u ws n)

pub by_id-id :
    (id : String) (ws : List Worker) (w : Worker) → worker_by_id id ws ≡ some w → w.id ≡ id
unfolding worker_by_id find
by_id-id id [] w h = absurd (ground arith)
by_id-id id (x ∷ ws) w h = ground (arith, eq_iff x.id id, by_id-id id ws w)

pub by_id-map :
    (f : Worker → Worker)
    → ((w : Worker) → (f w).id ≡ w.id)
    → (id : String) (ws : List Worker) (w : Worker) → worker_by_id id ws ≡ some w
    → worker_by_id id (map f ws) ≡ some (f w)
unfolding worker_by_id find
by_id-map f same id [] w h = absurd (ground arith)
by_id-map f same id (x ∷ ws) w h = ground (arith, same x, by_id-map f same id ws w)

pub map-reconcile :
    (alive : ℕ → Option String → Bool) (now : ℕ) (ss : List Session) (bs : List Batch)
    (ws : List Worker) (ds : List Diagnostic)
    → (reconcile_workers alive now ss bs ws ds).0 ≡ map (reconcile_status alive now) ws
unfolding reconcile_workers reconcile_worker
map-reconcile alive now ss bs [] ds = refl
map-reconcile alive now ss bs (w ∷ ws) ds =
    ap (λ vs. reconcile_status alive now w ∷ vs)
      (map-reconcile alive now ss bs ws (reconcile_worker alive now ss bs w ds).1)

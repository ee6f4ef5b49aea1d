-- ===== src/Safety/Locks.antt =====
-- src/workspace-safety.ts: the operating-system locks that an instance holds.
use superset_agent_orchestra.Base.{
  ℕ, ◌≤◌, String, ◌≡◌, ◌∙◌, ltb, nat_eq, Bool, true, false, none, some, List, [], ◌∷◌, inl, inr,
  any, select, count, ◌==◌, string_eq, arith, eq_iff, Bool-cases, Option-cases,
}
use superset_agent_orchestra.Storage.Db.{Lease, WorkspaceLeaseStatus, Db, is_blocking}
use superset_agent_orchestra.Storage.Recovery.{highest_generation, status_of, blocking_writer_lease}
use superset_agent_orchestra.Safety.Tool.{World, lock_error, drop_lock, hold_lock}

-- How many locks of a workspace the instance holds.
unfoldable pub locks_of : String → List (String × String) → ℕ
locks_of workspace_id held = count (λ (h : String × String). h.1 == workspace_id) held

pub drop-locks :
    (id w : String) (held : List (String × String))
    → locks_of w (drop_lock id held) ≤ locks_of w held
unfolding locks_of drop_lock count select
drop-locks id w [] = ground arith
drop-locks id w (h ∷ hs) = ground (arith, drop-locks id w hs)

none_held :
    (w : String) (held : List (String × String))
    → any (λ (h : String × String). h.1 == w) held ≡ false
    → locks_of w held ≡ 0
unfolding locks_of count any
none_held w [] e = ground arith
none_held w (h ∷ hs) e = ground (arith, e, none_held w hs)

pub hold-locks :
    (world : World) (id w v : String) (held : List (String × String))
    → lock_error world w held ≡ none
    → locks_of v held ≤ 1
    → locks_of v (hold_lock id w held) ≤ 1
unfolding lock_error hold_lock locks_of count
hold-locks world id w v held e h =
    ground (arith, e, h, drop-locks id v held, none_held w held, eq_iff w v)

-- The lease that blocks a workspace is a lease of it.
highest-passes :
    (p : Lease → Bool) (ls : List Lease) (m : Lease) → highest_generation p ls ≡ some m → p m ≡ true
unfolding highest_generation
highest-passes p [] m e = absurd (ground (arith, e))
highest-passes p (l ∷ ls) m e = elim (Bool-cases (p l)) [
  | inr f ↦ highest-passes p ls m (ground (arith, e, f))
  | inl f ↦ elim (Option-cases (highest_generation p ls)) [
    | inl n ↦ let q : l ≡ m = ground (arith, e, f, n) in rw (← q) f
    | inr (k, n) ↦ elim (Bool-cases (ltb l.generation k.generation)) [
      | inl o ↦ let q : k ≡ m = ground (arith, e, f, n, o) in rw (← q) (highest-passes p ls k n)
      | inr o ↦ let q : l ≡ m = ground (arith, e, f, n, o) in rw (← q) f
    ]
  ]
]

pub blocking-workspace :
    (id : String) (db : Db) (lease : WorkspaceLeaseStatus)
    → blocking_writer_lease id db ≡ some lease
    → lease.workspace_id ≡ id
unfolding blocking_writer_lease status_of
blocking-workspace id db lease e =
    elim (Option-cases (highest_generation (is_blocking id) db.leases)) [
      | inl n ↦ absurd (ground (arith, e, n))
      | inr (l, n) ↦
          let b : is_blocking id l ≡ true = highest-passes (is_blocking id) db.leases l n in
          let same : lease.workspace_id ≡ l.workspace_id = ground (arith, e, n) in
          same ∙ (eq_iff l.workspace_id id).0 (unfold is_blocking in ground (arith, b))
    ]

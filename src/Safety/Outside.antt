-- ===== src/Safety/Outside.antt =====
-- src/workspace-safety.ts: what an instance can do that holds no lock and can get none.
use superset_agent_orchestra.Base.{
  ℕ, String, ◌≡◌, ◌∙◌, sym, subst, refl, true, not, ◌||◌, some, List, [], ◌∷◌, inl, inr, any, arith,
  Bool-cases, Option-cases, All, string_eq,
}
use superset_agent_orchestra.Storage.Db.{recovery_ambiguous, writer_busy, Db, is_quarantined, Error}
use superset_agent_orchestra.Storage.Leases.{record_policy_denial}
use superset_agent_orchestra.Storage.Recovery.{blocking_writer_lease, workspace_lease_by_id}
use superset_agent_orchestra.Safety.Tool.{
  World, Tool, is_busy, lock_error, holds, acquire_writer, heartbeat, bind_process, release_writer,
}
use superset_agent_orchestra.Safety.Recovery.{
  recover_workspace, repair_lease, repair_quarantine, close, Request, acquires, heartbeats, binds,
  releases, recovers, repairs, closes, perform,
}
use superset_agent_orchestra.Safety.Tenure.{perform_all}

-- Every workspace is locked by another process, or the lock files are not safe to use.
abbrev pub IsShut : World → Type 0
IsShut world =
    (workspace_id : String)
    → (not world.lock_file_private || world.locked_elsewhere workspace_id) ≡ true

-- The registry that others read is the same, and there is still no lock.
pub record Untouched (before after : Tool) : Type 0 where
  pub leases : after.db.leases ≡ before.db.leases
  pub fencing : after.db.fencing ≡ before.db.fencing
  pub locks : after.held_locks ≡ before.held_locks

same : {tool : Tool} → Untouched tool tool
same = record { leases = refl; fencing = refl; locks = refl }

no_lock :
    (world : World)
    → IsShut world
    → (workspace_id : String) → (e : Error) × (lock_error world workspace_id [] ≡ some e)
unfolding lock_error any
no_lock world shut workspace_id = elim (Bool-cases world.lock_file_private) [
  | inr n ↦ (recovery_ambiguous, rw (lock_error, n) refl)
  | inl y ↦
      let l : world.locked_elsewhere workspace_id ≡ true = ground (arith, y, shut workspace_id) in
      (writer_busy, rw (lock_error, y, l) refl)
]

module _ (digest : String → String) (host instance : String) (now : ℕ) (world : World)
    (shut : IsShut world) (db : Db) where
  abbrev outside : Tool
  outside = record { db = db; held_locks = [] }

  perform-Untouched :
      (c : Request) → Untouched outside (perform digest host instance now world c outside)
  unfolding perform acquire_writer heartbeat bind_process release_writer recover_workspace
      repair_quarantine repair_lease close holds any record_policy_denial
  perform-Untouched (acquires input fresh) =
      let (e, l) = no_lock world shut input.workspace_id in
      rw (perform, acquire_writer, l)
        (elim (Bool-cases (is_busy e)) [
          | inl b ↦ rw b (record { leases = refl; fencing = refl; locks = refl })
          | inr b ↦ rw b same
        ])
  perform-Untouched (heartbeats a ttl_ms) = same
  perform-Untouched (binds a pid) = same
  perform-Untouched (releases a) = same
  perform-Untouched (recovers id actor) = elim (Option-cases (blocking_writer_lease id db)) [
    | inl n ↦ rw (perform, recover_workspace, n) same
    | inr (lease, n) ↦ elim (Bool-cases (is_quarantined lease.state)) [
      | inl q ↦ rw (perform, recover_workspace, n, q) same
      | inr q ↦ let (e, l) = no_lock world shut id in rw (perform, recover_workspace, n, q, l) same
    ]
  ]
  perform-Untouched (repairs id actor) = elim (Option-cases (workspace_lease_by_id id db)) [
    | inl n ↦ rw (perform, repair_quarantine, n) same
    | inr (lease, n) ↦ elim (Bool-cases (is_quarantined lease.state)) [
      | inr q ↦ rw (perform, repair_quarantine, n, repair_lease, q) same
      | inl q ↦
          let (e, l) = no_lock world shut lease.workspace_id in
          rw (perform, repair_quarantine, n, repair_lease, q, l) same
    ]
  ]
  perform-Untouched closes = same

-- Without a lock nothing is decided: an instance that holds no lock, and to which every workspace is
-- locked by another process or whose lock files are not private, changes no lease and no generation
-- and gets no lock, whatever calls it performs and whatever authority they present.
pub perform_all-Untouched :
    (digest : String → String) (host instance : String) (cs : List (ℕ × World × Request))
    (tool : Tool)
    → tool.held_locks ≡ []
    → All (λ (c : ℕ × World × Request). IsShut c.1) cs
    → Untouched tool (perform_all digest host instance cs tool)
unfolding perform_all
perform_all-Untouched digest host instance [] tool h shut = same
perform_all-Untouched digest host instance ((now, world, c) ∷ cs) tool h shut =
    let once : Untouched tool (perform digest host instance now world c tool) =
      subst (λ t. Untouched t (perform digest host instance now world c t))
        (λ i. record { db = tool.db; held_locks = sym h i })
        (perform-Untouched digest host instance now world shut.0 tool.db c) in
    let rest =
      perform_all-Untouched digest host instance cs (perform digest host instance now world c tool)
        (once.locks ∙ h) shut.1 in
    record {
      leases = rest.leases ∙ once.leases;
      fencing = rest.fencing ∙ once.fencing;
      locks = rest.locks ∙ once.locks;
    }

-- ===== src/Safety/Recovery.antt =====
-- src/workspace-safety.ts: recovery and repair, which need evidence that the owner process is gone.
use superset_agent_orchestra.Base.{ℕ, String, true, not, none, some, List, [], if◌then◌else◌}
use superset_agent_orchestra.Storage.Db.{
  LeaseAuthority, WorkspaceLeaseStatus, Db, recovery_ambiguous, Result, ok, err, Milliseconds,
  is_quarantined,
}
use superset_agent_orchestra.Storage.Leases.{WriterRequest, Fresh}
use superset_agent_orchestra.Storage.Recovery.{
  Evidence, recover_expired_writer_lease, quarantine_writer_lease, repair_quarantined_writer_lease,
  workspace_lease_by_id, blocking_writer_lease,
}
use superset_agent_orchestra.Safety.Tool.{
  World, Tool, OwnerProcess, is_absent, is_alive, owner_process_state, lock_error, holds, drop_lock,
  hold_lock, ambiguous, finish, acquire_writer, heartbeat, bind_process, release_writer,
}

abbrev pub absence : String → Evidence
absence detail = record { owner_process_absent = true; detail = some detail }

abbrev pub quarantine_reason : OwnerProcess → String
quarantine_reason state =
    if is_alive state
    then "owner process is still alive"
    else "owner process identity is unverifiable"

-- The owner may be alive: its generation is quarantined, and the lock stays with it.
unfoldable pub preserve :
    WorkspaceLeaseStatus
    → Result (Unit {0}) × Db
    → List (String × String)
    → Result (Unit {0}) × Tool
unfolding hold_lock
preserve lease (ok u, db) held = (
  err recovery_ambiguous,
  record { db = db; held_locks = hold_lock lease.lease_id lease.workspace_id held },
)
preserve lease (err e, db) held = (err e, record { db = db; held_locks = held })

module _ (host_id : String) where
  -- With the lock taken: the generation is quarantined, and then the lock is kept, or retired.
  unfoldable pub recover_locked :
      WorkspaceLeaseStatus → String → ℕ → World → Tool → Result (Unit {0}) × Tool
  unfolding owner_process_state preserve
  recover_locked lease actor now world tool =
      let state = owner_process_state host_id world lease in
      if not (is_absent state)
      then preserve lease
          (quarantine_writer_lease lease (quarantine_reason state) actor now tool.db)
          tool.held_locks
      else finish
          (recover_expired_writer_lease lease
            (absence "owner pid and start token authoritatively absent while lock held") actor now
            tool.db)
          (λ _. tool.held_locks) tool.held_locks

  -- The changes of `recoverWorkspace`; where it succeeds it reports an inspection.
  unfoldable pub recover_workspace : String → String → ℕ → World → Tool → Result (Unit {0}) × Tool
  unfolding recover_locked lock_error holds
  recover_workspace workspace_id actor now world tool =
      elim (blocking_writer_lease workspace_id tool.db) [
        | none ↦ (ok tt, tool)
        | some lease ↦
            if is_quarantined lease.state
            then (err recovery_ambiguous, tool)
            else if holds lease.lease_id tool.held_locks
            then (ok tt, tool)
            else elim (lock_error world workspace_id tool.held_locks) [
              | some e ↦ (err (ambiguous e), tool)
              | none ↦ recover_locked lease actor now world tool
            ]
      ]

  -- With the lock at hand, be it held before or taken for the repair.
  unfoldable pub repair_locked :
      WorkspaceLeaseStatus → String → ℕ → World → Tool → Result (Unit {0}) × Tool
  unfolding owner_process_state drop_lock
  repair_locked lease actor now world tool =
      if not (is_absent (owner_process_state host_id world lease))
      then (err recovery_ambiguous, tool)
      else finish
          (repair_quarantined_writer_lease lease
            (absence "local host, pid, start token, and exclusive lock verified") actor now tool.db)
          (λ _. drop_lock lease.lease_id tool.held_locks) tool.held_locks

  unfoldable pub repair_lease :
      WorkspaceLeaseStatus → String → ℕ → World → Tool → Result (Unit {0}) × Tool
  unfolding repair_locked lock_error holds
  repair_lease lease actor now world tool =
      if not (is_quarantined lease.state)
      then (err recovery_ambiguous, tool)
      else if holds lease.lease_id tool.held_locks
      then repair_locked lease actor now world tool
      else elim (lock_error world lease.workspace_id tool.held_locks) [
        | some e ↦ (err (ambiguous e), tool)
        | none ↦ repair_locked lease actor now world tool
      ]

  -- `repairQuarantine`
  unfoldable pub repair_quarantine : String → String → ℕ → World → Tool → Result (Unit {0}) × Tool
  unfolding repair_lease
  repair_quarantine lease_id actor now world tool = elim (workspace_lease_by_id lease_id tool.db) [
    | none ↦ (err recovery_ambiguous, tool)
    | some lease ↦ repair_lease lease actor now world tool
  ]

unfoldable pub close : Tool → Tool
close tool = record tool { held_locks = [] }

-- The calls of the tool that change something, each with the world that it finds.
pub data Request : Type 0 where
  acquires : WriterRequest → Fresh → Request
  heartbeats : LeaseAuthority → Milliseconds → Request
  binds : LeaseAuthority → ℕ → Request
  releases : LeaseAuthority → Request
  recovers : String → String → Request
  repairs : String → String → Request
  closes : Request

unfoldable pub perform : (String → String) → String → String → ℕ → World → Request → Tool → Tool
perform digest host instance now world (acquires input fresh) tool =
    (acquire_writer digest host instance input fresh now world tool).1
perform digest host instance now world (heartbeats a ttl_ms) tool =
    (heartbeat digest host instance a ttl_ms now tool).1
perform digest host instance now world (binds a pid) tool =
    (bind_process digest host instance a pid now world tool).1
perform digest host instance now world (releases a) tool =
    (release_writer digest host instance a now world tool).1
perform digest host instance now world (recovers id actor) tool =
    (recover_workspace host id actor now world tool).1
perform digest host instance now world (repairs id actor) tool =
    (repair_quarantine host id actor now world tool).1
perform digest host instance now world closes tool = close tool

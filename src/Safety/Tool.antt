-- ===== src/Safety/Tool.antt =====
-- src/workspace-safety.ts: WorkspaceSafetyTool over the registry of src/storage.ts. A lock file of
-- another process, and the process table, are what a call finds in its `World`; the locks of this
-- instance are pairs of a lease id and the workspace that its lock file stands for. A lock file is
-- taken for the whole of a call, so another process changes nothing that the call has seen.
use superset_agent_orchestra.Base.{
  ℕ, String, Bool, true, false, ◌&&◌, ◌||◌, not, Option, none, some, List, [], ◌∷◌, any, select,
  ◌==◌, if◌then◌else◌, string_eq, option_string_eq,
}
use superset_agent_orchestra.Storage.Db.{
  LeaseAuthority, WorkspaceLeaseStatus, Db, Error, writer_busy, recovery_ambiguous, Result, ok, err,
  Milliseconds, get_or, text, last_allocated_generation,
}
use superset_agent_orchestra.Storage.Leases.{
  WriterRequest, Fresh, record_policy_denial, acquire_writer_lease, bind_writer_process,
  heartbeat_writer_lease, release_writer_lease,
}
use superset_agent_orchestra.Storage.Recovery.{workspace_lease_by_id, blocking_writer_lease}

pub record World : Type 0 where
  pub lock_file_private : Bool
  pub locked_elsewhere : String → Bool
  pub exists : ℕ → Bool
  pub start_token : ℕ → Option String

pub record Tool : Type 0 where
  pub db : Db
  pub held_locks : List (String × String)

pub data OwnerProcess : Type 0 where
  alive absent unverifiable no_owner : OwnerProcess

-- The parts of `WorkspaceSafetyReport` that are not its text.
pub record Report : Type 0 where
  pub admissible : Bool
  pub last_generation : ℕ
  pub lease : Option WorkspaceLeaseStatus
  pub owner_process : OwnerProcess
  pub lock_held_elsewhere : Bool

abbrev pub is_absent : OwnerProcess → Bool
is_absent OwnerProcess.absent = true
is_absent _ = false

abbrev pub is_alive : OwnerProcess → Bool
is_alive OwnerProcess.alive = true
is_alive _ = false

abbrev pub is_some {ℓ} : {A : Type ℓ} → Option A → Bool
is_some none = false
is_some (some a) = true

-- A process with the pid of the owner exists: it is the owner if its start token is the owner's.
abbrev compare_token : Option String → String → OwnerProcess
compare_token none owner = OwnerProcess.unverifiable
compare_token (some token) owner =
    if token == owner then OwnerProcess.alive else OwnerProcess.absent

abbrev process_state : World → Option ℕ → Option String → OwnerProcess
process_state world (some pid) (some token) =
    if not (world.exists pid)
    then OwnerProcess.absent
    else compare_token (world.start_token pid) token
process_state world _ _ = OwnerProcess.unverifiable

-- `ownerProcessState`
unfoldable pub owner_process_state : String → World → WorkspaceLeaseStatus → OwnerProcess
owner_process_state host_id world lease =
    if not (lease.owner_host == host_id)
    then OwnerProcess.unverifiable
    else process_state world lease.process_id lease.process_start_token

-- `lock`: why the exclusive lock of a workspace cannot be taken, if it cannot.
unfoldable pub lock_error : World → String → List (String × String) → Option Error
lock_error world workspace_id held =
    if not world.lock_file_private
    then some recovery_ambiguous
    else if world.locked_elsewhere workspace_id
        || any (λ (h : String × String). h.1 == workspace_id) held
    then some writer_busy
    else none

unfoldable pub holds : String → List (String × String) → Bool
holds lease_id held = any (λ (h : String × String). h.0 == lease_id) held

-- `dropLock`
unfoldable pub drop_lock : String → List (String × String) → List (String × String)
drop_lock lease_id held = select (λ (h : String × String). not (h.0 == lease_id)) held

-- `heldLocks.set`
unfoldable pub hold_lock : String → String → List (String × String) → List (String × String)
unfolding drop_lock
hold_lock lease_id workspace_id held = (lease_id, workspace_id) ∷ drop_lock lease_id held

abbrev pub is_busy : Error → Bool
is_busy writer_busy = true
is_busy _ = false

-- A busy lock makes the evidence of a recovery ambiguous.
abbrev pub ambiguous : Error → Error
ambiguous writer_busy = recovery_ambiguous
ambiguous e = e

unfoldable pub inspect : String → World → String → ℕ → Tool → Report
unfolding owner_process_state
inspect host_id world workspace_id now tool =
    let held =
      not world.lock_file_private
      || (world.locked_elsewhere workspace_id
          || any (λ (h : String × String). h.1 == workspace_id) tool.held_locks) in
    let last = last_allocated_generation workspace_id tool.db.fencing in
    elim (blocking_writer_lease workspace_id tool.db) [
      | none ↦ record {
        admissible = not held;
        last_generation = last;
        lease = none;
        owner_process = OwnerProcess.no_owner;
        lock_held_elsewhere = held;
      }
      | some lease ↦ record {
        admissible = false;
        last_generation = last;
        lease = some lease;
        owner_process = owner_process_state host_id world lease;
        lock_held_elsewhere = held;
      }
    ]

-- What a storage call leaves, where the lock is kept unless it is dropped.
abbrev pub finish {ℓ} :
    {A : Type ℓ}
    → Result A × Db
    → (A → List (String × String))
    → List (String × String)
    → Result A × Tool
finish (ok a, db) kept held = (ok a, record { db = db; held_locks = kept a })
finish (err e, db) kept held = (err e, record { db = db; held_locks = held })

-- The process that the caller's authority names, on the host that its row names; a row that is gone
-- leaves its host undefined.
unfoldable pub authority_process : String → LeaseAuthority → World → Db → OwnerProcess
unfolding owner_process_state
authority_process host_id a world db = elim (workspace_lease_by_id a.lease_id db) [
  | none ↦ OwnerProcess.unverifiable
  | some lease ↦
      owner_process_state host_id world
        (record lease { process_id = a.process_id; process_start_token = a.process_start_token })
]

-- The lease names this host and this instance, and no process yet.
abbrev pub on_host : String → String → WriterRequest → WriterRequest
on_host host_id server_instance_id input = record input {
  server_instance_id = some server_instance_id;
  owner_host = some host_id;
  process_id = none;
  process_start_token = none;
}

module _ (digest : String → String) (host_id server_instance_id : String) where
  -- `acquireWriter`
  unfoldable pub acquire_writer :
      WriterRequest → Fresh → ℕ → World → Tool → Result LeaseAuthority × Tool
  unfolding lock_error hold_lock
  acquire_writer input fresh now world tool =
      elim (lock_error world input.workspace_id tool.held_locks) [
        | some e ↦ (
          err e,
          if is_busy e
              then record tool {
                db =
                    record_policy_denial input.workspace_id "WORKSPACE_WRITER_BUSY"
                      (get_or input.owner_session_id input.owner_batch_id)
                      (("layer", text "os_lock") ∷ []) now tool.db;
              }
              else tool,
        )
        | none ↦
            finish
              (acquire_writer_lease digest (on_host host_id server_instance_id input) fresh now
                tool.db)
              (λ a. hold_lock a.lease_id input.workspace_id tool.held_locks) tool.held_locks
      ]

  unfoldable pub heartbeat : LeaseAuthority → Milliseconds → ℕ → Tool → Result LeaseAuthority × Tool
  unfolding holds
  heartbeat a ttl_ms now tool =
      if not (holds a.lease_id tool.held_locks)
      then (err recovery_ambiguous, tool)
      else finish (heartbeat_writer_lease digest a ttl_ms now tool.db) (λ _. tool.held_locks)
          tool.held_locks

  unfoldable pub bind_process : LeaseAuthority → ℕ → ℕ → World → Tool → Result LeaseAuthority × Tool
  unfolding holds
  bind_process a pid now world tool =
      if not (holds a.lease_id tool.held_locks)
      then (err recovery_ambiguous, tool)
      else elim (world.start_token pid) [
        | none ↦ (err recovery_ambiguous, tool)
        | some token ↦
            finish (bind_writer_process digest a pid token now tool.db) (λ _. tool.held_locks)
              tool.held_locks
      ]

  -- `releaseWriter`
  unfoldable pub release_writer : LeaseAuthority → ℕ → World → Tool → Result (Unit {0}) × Tool
  unfolding holds authority_process drop_lock
  release_writer a now world tool =
      if not (holds a.lease_id tool.held_locks)
      then (err recovery_ambiguous, tool)
      else if is_some a.process_id && not (is_absent (authority_process host_id a world tool.db))
      then (err recovery_ambiguous, tool)
      else finish (release_writer_lease digest a now tool.db)
          (λ _. drop_lock a.lease_id tool.held_locks) tool.held_locks

-- ===== src/Storage/Tests.antt =====
-- src/storage.ts: the lease theorems at a concrete registry.
use superset_agent_orchestra.Base.{
  ℕ, suc, String, ◌≡◌, refl, false, true, none, some, List, [], ◌∷◌, any, find, is_blank, arith,
}
use superset_agent_orchestra.Storage.Db.{
  err, invalid_argument, LeaseState, writer, Lease, writer_busy, LeaseAuthority, Db, Milliseconds,
  is_blocking, last_allocated_generation, ok, may_insert, insert_lease, bump_generation,
}
use superset_agent_orchestra.Storage.Decision.{IsExact, acquire-IsExact}
use superset_agent_orchestra.Storage.Leases.{
  WriterRequest, Fresh, acquire_writer_lease, heartbeat_writer_lease, admit, new_lease,
  ownership_predicate, owns_live,
}
use superset_agent_orchestra.Storage.History.{run, step}
use superset_agent_orchestra.Storage.Moves.{Call, acquire, heartbeat}
use superset_agent_orchestra.Storage.Invariant.{IsValid, run-IsValid}
use superset_agent_orchestra.Storage.Fencing.{Fenced}
use superset_agent_orchestra.Storage.Supersede.{renewed, Used-Fenced}
use superset_agent_orchestra.Storage.Admission.{
  acquire-next, acquire_fences_predecessors, step-keeps_blocked,
}

abbrev digest : String → String
digest token = token

abbrev request : WriterRequest
request = record {
  workspace_id = "w1";
  owner_session_id = none;
  owner_batch_id = "b1";
  ttl_ms = Milliseconds.pos 30;
  server_instance_id = some "srv";
  owner_host = some "host";
  process_id = none;
  process_start_token = none;
}

abbrev fresh : Fresh
fresh = record { lease_id = "l1"; token = "secret" }

abbrev next_fresh : Fresh
next_fresh = record { lease_id = "l2"; token = "other" }

abbrev registry : Db
registry = record { sessions = []; batches = "b1" ∷ []; leases = []; fencing = []; events = [] }

-- The lease that the request is admitted with at instant 5.
abbrev held_lease : Lease
held_lease = record {
  id = "l1";
  workspace_id = "w1";
  mode = writer;
  owner_session_id = none;
  owner_batch_id = "b1";
  acquired_at = 5;
  expires_at = 35;
  released_at = none;
  generation = 1;
  fencing_token_digest = "secret";
  state = LeaseState.active;
  heartbeat_at = 5;
  quarantine_reason = none;
  row_version = 1;
  server_instance_id = "srv";
  owner_host = "host";
  process_id = none;
  process_start_token = none;
}

abbrev authority : LeaseAuthority
authority = record {
  lease_id = "l1";
  workspace_id = "w1";
  owner_session_id = none;
  owner_batch_id = "b1";
  generation = 1;
  fencing_token = "secret";
  row_version = 1;
  expires_at = 35;
  server_instance_id = "srv";
  owner_host = "host";
  process_id = none;
  process_start_token = none;
}

abbrev busy_registry : Db
busy_registry = record registry { leases = held_lease ∷ []; fencing = ("w1", 1) ∷ [] }

-- The lease was released, and its generation is on record.
abbrev freed_registry : Db
freed_registry = record registry {
  leases = record held_lease { state = LeaseState.released; row_version = 3 } ∷ [];
  fencing = ("w1", 1) ∷ [];
}

registry-IsValid : IsValid registry
registry-IsValid = record { apart = tt; allocated = tt }

busy_registry-IsValid : IsValid busy_registry
unfolding last_allocated_generation
busy_registry-IsValid = record { apart = (tt, tt); allocated = (omega arith, tt) }

abbrev history : List (ℕ × Call)
history =
    (5, acquire request fresh)
    ∷ (50, acquire request next_fresh)
    ∷ (60, heartbeat authority (Milliseconds.pos 10))
    ∷ []

run-IsValid_example : IsValid (run digest registry history)
run-IsValid_example = run-IsValid digest registry history registry-IsValid

renewed_once :
    (heartbeat_writer_lease digest authority (Milliseconds.pos 10) 20 busy_registry).0
    ≡ ok (record authority { row_version = 2; expires_at = 30 })
unfolding heartbeat_writer_lease owns_live ownership_predicate find
renewed_once = refl

Used-Fenced_example : Fenced digest authority (
    run digest
      (heartbeat_writer_lease digest authority (Milliseconds.pos 10) 20 busy_registry).1
      history)
unfolding heartbeat_writer_lease owns_live ownership_predicate find
Used-Fenced_example =
    Used-Fenced digest authority busy_registry _ history busy_registry-IsValid (
      renewed (Milliseconds.pos 10) 20 (record authority { row_version = 2; expires_at = 30 }) refl)

-- The lease of the first writer has expired, and still blocks the second.
busy_past_expiry :
    (acquire_writer_lease digest request next_fresh 99 busy_registry).0 ≡ err writer_busy
unfolding acquire_writer_lease find is_blocking is_blank
busy_past_expiry = refl

-- A lifetime that ends after the last instant of Date changes nothing.
too_late :
    acquire_writer_lease digest request fresh 8640000000000000 registry
    ≡ (err invalid_argument, registry)
unfolding acquire_writer_lease admit find is_blank
too_late = refl

-- A second writer after the release gets generation 2.
abbrev second_authority : LeaseAuthority
second_authority = record authority {
  lease_id = "l2";
  generation = 2;
  fencing_token = "other";
  expires_at = 80;
}

second_admitted :
    (acquire_writer_lease digest request next_fresh 50 freed_registry).0 ≡ ok second_authority
unfolding acquire_writer_lease admit insert_lease may_insert new_lease find any is_blocking is_blank
    last_allocated_generation bump_generation
second_admitted = refl

acquire-next_example :
    (any (is_blocking "w1") freed_registry.leases ≡ false)
    × (second_authority.generation ≡ suc (last_allocated_generation "w1" freed_registry.fencing))
    × (last_allocated_generation "w1"
          (acquire_writer_lease digest request next_fresh 50 freed_registry).1.fencing
        ≡ second_authority.generation)
unfolding acquire_writer_lease admit insert_lease may_insert new_lease find any is_blocking is_blank
    last_allocated_generation bump_generation
acquire-next_example =
    acquire-next digest request next_fresh 50 freed_registry _ second_authority refl

acquire_fences_predecessors_example :
    Fenced digest authority
      (run digest (acquire_writer_lease digest request next_fresh 50 freed_registry).1 history)
unfolding acquire_writer_lease admit insert_lease may_insert new_lease find any is_blocking is_blank
    last_allocated_generation bump_generation
acquire_fences_predecessors_example =
    acquire_fences_predecessors digest request next_fresh 50 freed_registry _ second_authority
      authority history refl refl (omega arith) ((λ _. refl), tt)

acquire-IsExact_example :
    IsExact digest request next_fresh 50 freed_registry
      (acquire_writer_lease digest request next_fresh 50 freed_registry)
acquire-IsExact_example = acquire-IsExact digest request next_fresh 50 freed_registry

step-keeps_blocked_example :
    any (is_blocking "w1") (step digest busy_registry (900, acquire request next_fresh)).leases
    ≡ true
unfolding any is_blocking
step-keeps_blocked_example =
    step-keeps_blocked digest busy_registry (900, acquire request next_fresh) "w1" refl refl

-- ===== src/Safety/Tests.antt =====
-- src/workspace-safety.ts: the tool at a small registry.
use superset_agent_orchestra.Base.{
  ℕ, ◌≤◌, String, ◌≡◌, refl, true, false, none, some, List, [], ◌∷◌, any, arith, count,
}
use superset_agent_orchestra.Storage.Db.{LeaseState, writer, Lease, Db, Milliseconds, is_blocking}
use superset_agent_orchestra.Storage.Leases.{WriterRequest, Fresh}
use superset_agent_orchestra.Storage.Recovery.{blocking_writer_lease, highest_generation, status_of}
use superset_agent_orchestra.Safety.Tool.{World, Tool, owner_process_state}
use superset_agent_orchestra.Safety.Recovery.{Request, acquires, recovers, repairs, closes, perform}
use superset_agent_orchestra.Safety.Tenure.{owner_gone, perform-keeps_blocked, perform_all}
use superset_agent_orchestra.Safety.Outside.{Untouched, perform_all-Untouched}
use superset_agent_orchestra.Safety.Locks.{locks_of}
use superset_agent_orchestra.Safety.Exclusion.{perform_all-locks}

abbrev digest : String → String
digest token = token

abbrev input : WriterRequest
input = record {
  workspace_id = "w1";
  owner_session_id = none;
  owner_batch_id = "b1";
  ttl_ms = Milliseconds.pos 30;
  server_instance_id = none;
  owner_host = none;
  process_id = none;
  process_start_token = none;
}

abbrev fresh : Fresh
fresh = record { lease_id = "l1"; token = "secret" }

-- The owner of the lease is the process 7 of this host, started at "t7".
abbrev lease : Lease
lease = record {
  id = "l1";
  workspace_id = "w1";
  mode = writer;
  owner_session_id = none;
  owner_batch_id = "b1";
  acquired_at = 5;
  expires_at = 35;
  released_at = none;
  generation = 1;
  fencing_token_digest = "secret";
  state = LeaseState.active;
  heartbeat_at = 5;
  quarantine_reason = none;
  row_version = 2;
  server_instance_id = "srv";
  owner_host = "host";
  process_id = some 7;
  process_start_token = some "t7";
}

abbrev registry : Db
registry = record { sessions = []; batches = "b1" ∷ []; leases = []; fencing = []; events = [] }

abbrev empty : Tool
empty = record { db = registry; held_locks = [] }

abbrev owned : Tool
owned = record {
  db = record registry { leases = lease ∷ []; fencing = ("w1", 1) ∷ [] };
  held_locks = [];
}

-- Every process exists, with the start token "t7".
abbrev world : World
world = record {
  lock_file_private = true;
  locked_elsewhere = λ _. false;
  exists = λ _. true;
  start_token = λ _. some "t7";
}

abbrev history : List (ℕ × World × Request)
history =
    (5, world, acquires input fresh)
    ∷ (50, world, closes)
    ∷ (60, world, recovers "w1" "operator")
    ∷ (70, world, repairs "l1" "operator")
    ∷ []

perform-keeps_blocked_example :
    any
      (is_blocking "w1")
      (perform digest "host" "srv" 60 world (recovers "w1" "operator") owned).db.leases
    ≡ true
perform-keeps_blocked_example =
    perform-keeps_blocked digest "host" "srv" 60 world owned (recovers "w1" "operator") "w1"
      (unfold owner_gone blocking_writer_lease highest_generation is_blocking status_of
          owner_process_state in
        refl)
      (unfold any is_blocking in refl)

-- Another process has the locks.
abbrev shut_world : World
shut_world = record world { locked_elsewhere = λ _. true }

perform_all-Untouched_example : Untouched owned (
    perform_all digest "host" "srv"
      ((50, shut_world, acquires input fresh) ∷ (60, shut_world, recovers "w1" "operator") ∷ [])
      owned)
perform_all-Untouched_example =
    perform_all-Untouched digest "host" "srv"
      ((50, shut_world, acquires input fresh) ∷ (60, shut_world, recovers "w1" "operator") ∷ [])
      owned refl ((λ _. refl), ((λ _. refl), tt))

perform_all-locks_example :
    locks_of "w1" (perform_all digest "host" "srv" history empty).held_locks ≤ 1
perform_all-locks_example =
    perform_all-locks "w1" digest "host" "srv" history empty (unfold locks_of count in ground arith)

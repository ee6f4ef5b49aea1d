-- ===== src/Safety/Exclusion.antt =====
-- src/workspace-safety.ts: an instance holds one lock of a workspace at most.
use superset_agent_orchestra.Base.{
  ℕ, ◌≤◌, String, ◌≡◌, nat_eq, ◌&&◌, not, none, List, [], ◌∷◌, inl, inr, count, string_eq, arith,
  Bool-cases, Option-cases,
}
use superset_agent_orchestra.Storage.Db.{
  LeaseAuthority, WorkspaceLeaseStatus, Db, Result, ok, err, Milliseconds, is_quarantined,
}
use superset_agent_orchestra.Storage.Leases.{
  WriterRequest, Fresh, acquire_writer_lease, heartbeat_writer_lease, bind_writer_process,
  release_writer_lease,
}
use superset_agent_orchestra.Storage.Recovery.{
  quarantine_writer_lease, recover_expired_writer_lease, repair_quarantined_writer_lease,
  workspace_lease_by_id, blocking_writer_lease,
}
use superset_agent_orchestra.Safety.Tool.{
  World, Tool, is_absent, is_some, is_busy, owner_process_state, lock_error, holds, drop_lock,
  hold_lock, finish, on_host, acquire_writer, heartbeat, bind_process, authority_process,
  release_writer,
}
use superset_agent_orchestra.Safety.Recovery.{
  preserve, absence, quarantine_reason, recover_locked, recover_workspace, repair_locked,
  repair_lease, repair_quarantine, close, Request, acquires, heartbeats, binds, releases, recovers,
  repairs, closes, perform,
}
use superset_agent_orchestra.Safety.Tenure.{perform_all}
use superset_agent_orchestra.Safety.Locks.{locks_of, drop-locks, hold-locks, blocking-workspace}

module _ (v : String) where
  abbrev Single : List (String × String) → Type 0
  Single held = locks_of v held ≤ 1

  finish-locks {ℓ} :
      {A : Type ℓ} (r : Result A × Db) (kept : A → List (String × String))
      (held : List (String × String))
      → ((a : A) → Single (kept a))
      → Single held
      → Single (finish r kept held).1.held_locks
  finish-locks (ok a, db) kept held f h = f a
  finish-locks (err e, db) kept held f h = h

  module _ (digest : String → String) (host instance : String) (now : ℕ) (world : World)
      (tool : Tool) (h : Single tool.held_locks) where
    acquire-locks :
        (input : WriterRequest) (fresh : Fresh)
        → Single (acquire_writer digest host instance input fresh now world tool).1.held_locks
    unfolding acquire_writer
    acquire-locks input fresh =
        elim (Option-cases (lock_error world input.workspace_id tool.held_locks)) [
          | inl n ↦
              rw (n, acquire_writer)
                (finish-locks
                  (acquire_writer_lease digest (on_host host instance input) fresh now tool.db)
                  (λ a. hold_lock a.lease_id input.workspace_id tool.held_locks) tool.held_locks
                  (λ a. hold-locks world a.lease_id input.workspace_id v tool.held_locks n h) h)
          | inr (e, n) ↦ elim (Bool-cases (is_busy e)) [
            | inl b ↦ rw (n, b, acquire_writer) h
            | inr b ↦ rw (n, b, acquire_writer) h
          ]
        ]

    heartbeat-locks :
        (a : LeaseAuthority) (ttl_ms : Milliseconds)
        → Single (heartbeat digest host instance a ttl_ms now tool).1.held_locks
    unfolding heartbeat
    heartbeat-locks a ttl_ms = elim (Bool-cases (holds a.lease_id tool.held_locks)) [
      | inr k ↦ rw (k, heartbeat) h
      | inl k ↦
          rw (k, heartbeat)
            (finish-locks (heartbeat_writer_lease digest a ttl_ms now tool.db)
              (λ _. tool.held_locks) tool.held_locks (λ _. h) h)
    ]

    bind-locks :
        (a : LeaseAuthority) (pid : ℕ)
        → Single (bind_process digest host instance a pid now world tool).1.held_locks
    unfolding bind_process
    bind-locks a pid = elim (Bool-cases (holds a.lease_id tool.held_locks)) [
      | inr k ↦ rw (k, bind_process) h
      | inl k ↦ elim (Option-cases (world.start_token pid)) [
        | inl n ↦ rw (k, n, bind_process) h
        | inr (token, n) ↦
            rw (k, n, bind_process)
              (finish-locks (bind_writer_process digest a pid token now tool.db)
                (λ _. tool.held_locks) tool.held_locks (λ _. h) h)
      ]
    ]

    dropped : (id : String) → Single (drop_lock id tool.held_locks)
    dropped id = ground (arith, h, drop-locks id v tool.held_locks)

    release-locks :
        (a : LeaseAuthority)
        → Single (release_writer digest host instance a now world tool).1.held_locks
    unfolding release_writer
    release-locks a = elim (Bool-cases (holds a.lease_id tool.held_locks)) [
      | inr k ↦ rw (k, release_writer) h
      | inl k ↦
          elim (Bool-cases
            (is_some a.process_id && not (is_absent (authority_process host a world tool.db)))) [
              | inl g ↦ rw (k, g, release_writer) h
              | inr g ↦
                  rw (k, g, release_writer)
                    (finish-locks (release_writer_lease digest a now tool.db)
                      (λ _. drop_lock a.lease_id tool.held_locks) tool.held_locks
                      (λ _. dropped a.lease_id) h)
            ]
    ]

    preserve-locks :
        (lease : WorkspaceLeaseStatus) (r : Result (Unit {0}) × Db)
        → lock_error world lease.workspace_id tool.held_locks ≡ none
        → Single (preserve lease r tool.held_locks).1.held_locks
    unfolding preserve
    preserve-locks lease (ok u, db) n =
        hold-locks world lease.lease_id lease.workspace_id v tool.held_locks n h
    preserve-locks lease (err e, db) n = h

    recover_locked-locks :
        (lease : WorkspaceLeaseStatus) (actor : String)
        → lock_error world lease.workspace_id tool.held_locks ≡ none
        → Single (recover_locked host lease actor now world tool).1.held_locks
    unfolding recover_locked
    recover_locked-locks lease actor n =
        elim (Bool-cases (is_absent (owner_process_state host world lease))) [
          | inr g ↦
              rw (g, recover_locked)
                (preserve-locks lease
                  (quarantine_writer_lease lease
                    (quarantine_reason (owner_process_state host world lease)) actor now tool.db)
                  n)
          | inl g ↦
              let e = absence "owner pid and start token authoritatively absent while lock held" in
              rw (g, recover_locked)
                (finish-locks (recover_expired_writer_lease lease e actor now tool.db)
                  (λ _. tool.held_locks) tool.held_locks (λ _. h) h)
        ]

    recover-locks :
        (id actor : String) → Single (recover_workspace host id actor now world tool).1.held_locks
    unfolding recover_workspace
    recover-locks id actor = elim (Option-cases (blocking_writer_lease id tool.db)) [
      | inl n ↦ rw (n, recover_workspace) h
      | inr (lease, n) ↦ elim (Bool-cases (is_quarantined lease.state)) [
        | inl q ↦ rw (n, q, recover_workspace) h
        | inr q ↦ elim (Bool-cases (holds lease.lease_id tool.held_locks)) [
          | inl k ↦ rw (n, q, k, recover_workspace) h
          | inr k ↦ elim (Option-cases (lock_error world id tool.held_locks)) [
            | inr (e, l) ↦ rw (n, q, k, l, recover_workspace) h
            | inl l ↦
                rw (n, q, k, l, recover_workspace)
                  (recover_locked-locks lease actor (rw (blocking-workspace id tool.db lease n) l))
          ]
        ]
      ]
    ]

    repair_locked-locks :
        (lease : WorkspaceLeaseStatus) (actor : String)
        → Single (repair_locked host lease actor now world tool).1.held_locks
    unfolding repair_locked
    repair_locked-locks lease actor =
        elim (Bool-cases (is_absent (owner_process_state host world lease))) [
          | inr g ↦ rw (g, repair_locked) h
          | inl g ↦
              let e = absence "local host, pid, start token, and exclusive lock verified" in
              rw (g, repair_locked)
                (finish-locks (repair_quarantined_writer_lease lease e actor now tool.db)
                  (λ _. drop_lock lease.lease_id tool.held_locks) tool.held_locks
                  (λ _. dropped lease.lease_id) h)
        ]

    repair_lease-locks :
        (lease : WorkspaceLeaseStatus) (actor : String)
        → Single (repair_lease host lease actor now world tool).1.held_locks
    unfolding repair_lease
    repair_lease-locks lease actor = elim (Bool-cases (is_quarantined lease.state)) [
      | inr q ↦ rw (q, repair_lease) h
      | inl q ↦ elim (Bool-cases (holds lease.lease_id tool.held_locks)) [
        | inl k ↦ rw (q, k, repair_lease) (repair_locked-locks lease actor)
        | inr k ↦ elim (Option-cases (lock_error world lease.workspace_id tool.held_locks)) [
          | inr (e, l) ↦ rw (q, k, l, repair_lease) h
          | inl l ↦ rw (q, k, l, repair_lease) (repair_locked-locks lease actor)
        ]
      ]
    ]

    repair-locks :
        (id actor : String) → Single (repair_quarantine host id actor now world tool).1.held_locks
    unfolding repair_quarantine
    repair-locks id actor = elim (Option-cases (workspace_lease_by_id id tool.db)) [
      | inl n ↦ rw (n, repair_quarantine) h
      | inr (lease, n) ↦ rw (n, repair_quarantine) (repair_lease-locks lease actor)
    ]

    perform-locks :
        (c : Request) → Single (perform digest host instance now world c tool).held_locks
    unfolding perform
    perform-locks (acquires input fresh) = acquire-locks input fresh
    perform-locks (heartbeats a ttl_ms) = heartbeat-locks a ttl_ms
    perform-locks (binds a pid) = bind-locks a pid
    perform-locks (releases a) = release-locks a
    perform-locks (recovers id actor) = recover-locks id actor
    perform-locks (repairs id actor) = repair-locks id actor
    perform-locks closes = unfold close locks_of count in ground arith

  -- An instance never holds the lock of a workspace twice, whatever calls it performs: so at most one
  -- of its leases has the exclusive lock of the workspace.
  pub perform_all-locks :
      (digest : String → String) (host instance : String) (cs : List (ℕ × World × Request))
      (tool : Tool)
      → locks_of v tool.held_locks ≤ 1
      → locks_of v (perform_all digest host instance cs tool).held_locks ≤ 1
  unfolding perform_all
  perform_all-locks digest host instance [] tool h = h
  perform_all-locks digest host instance ((now, world, c) ∷ cs) tool h =
      perform_all-locks digest host instance cs (perform digest host instance now world c tool)
        (perform-locks digest host instance now world tool h c)

-- ===== src/Safety/Tenure.antt =====
-- src/workspace-safety.ts: the tenure of a writer ends only with evidence, and the registry stays valid.
use superset_agent_orchestra.Base.{
  ℕ, String, ◌≡◌, refl, Bool, true, false, ◌&&◌, ◌||◌, not, none, some, List, [], ◌∷◌, inl, inr,
  any, arith, Bool-cases, Option-cases,
}
use superset_agent_orchestra.Storage.Db.{
  LeaseAuthority, WorkspaceLeaseStatus, Db, Result, ok, err, Milliseconds, is_quarantined,
  is_blocking,
}
use superset_agent_orchestra.Storage.Leases.{
  WriterRequest, Fresh, record_policy_denial, acquire_writer_lease, heartbeat_writer_lease,
  bind_writer_process, release_writer_lease,
}
use superset_agent_orchestra.Storage.Recovery.{
  quarantine_writer_lease, recover_expired_writer_lease, repair_quarantined_writer_lease,
  workspace_lease_by_id, blocking_writer_lease,
}
use superset_agent_orchestra.Storage.History.{step, step-Move}
use superset_agent_orchestra.Storage.Moves.{
  Call, acquire, bind, release, recover, quarantines, repair, Move, keep,
}
use superset_agent_orchestra.Storage.Admission.{Move-keeps_blocked}
use superset_agent_orchestra.Safety.Tool.{
  World, Tool, is_absent, is_some, is_busy, owner_process_state, lock_error, holds, drop_lock,
  hold_lock, finish, on_host, acquire_writer, heartbeat, bind_process, authority_process,
  release_writer,
}
use superset_agent_orchestra.Safety.Recovery.{
  preserve, absence, quarantine_reason, recover_locked, recover_workspace, repair_locked,
  repair_lease, repair_quarantine, close, Request, acquires, heartbeats, binds, releases, recovers,
  repairs, closes, perform,
}

finish-Move {ℓ} :
    {A : Type ℓ} (b : Bool) (db : Db) (r : Result A × Db) (kept : A → List (String × String))
    (held : List (String × String))
    → Move b db r.1
    → Move b db (finish r kept held).1.db
finish-Move b db (ok a, after) kept held m = m
finish-Move b db (err e, after) kept held m = m

preserve-Move :
    (b : Bool) (db : Db) (lease : WorkspaceLeaseStatus) (r : Result (Unit {0}) × Db)
    (held : List (String × String))
    → Move b db r.1
    → Move b db (preserve lease r held).1.db
unfolding preserve
preserve-Move b db lease (ok a, after) held m = m
preserve-Move b db lease (err e, after) held m = m

-- Whether a call finds the process of the owner provably gone: the one that the caller's authority
-- names, if it names one, or the one that the lease names.
unfoldable pub owner_gone : String → World → Request → Db → Bool
owner_gone host world (releases a) db =
    not (is_some a.process_id) || is_absent (authority_process host a world db)
owner_gone host world (recovers id actor) db = elim (blocking_writer_lease id db) [
  | none ↦ false
  | some lease ↦ is_absent (owner_process_state host world lease)
]
owner_gone host world (repairs id actor) db = elim (workspace_lease_by_id id db) [
  | none ↦ false
  | some lease ↦ is_absent (owner_process_state host world lease)
]
owner_gone host world _ db = false

module _ (digest : String → String) (host instance : String) (now : ℕ) (world : World)
    (tool : Tool) where
  acquire-Move :
      (input : WriterRequest) (fresh : Fresh)
      → Move false tool.db (acquire_writer digest host instance input fresh now world tool).1.db
  unfolding acquire_writer step
  acquire-Move input fresh =
      elim (Option-cases (lock_error world input.workspace_id tool.held_locks)) [
        | inl n ↦
            rw (n, acquire_writer)
              (finish-Move false tool.db
                (acquire_writer_lease digest (on_host host instance input) fresh now tool.db)
                (λ a. hold_lock a.lease_id input.workspace_id tool.held_locks) tool.held_locks
                (step-Move digest tool.db (now, acquire (on_host host instance input) fresh)))
        | inr (e, n) ↦ elim (Bool-cases (is_busy e)) [
          | inl b ↦ rw (n, b, acquire_writer) (unfold record_policy_denial in keep refl refl)
          | inr b ↦ rw (n, b, acquire_writer) (keep refl refl)
        ]
      ]

  heartbeat-Move :
      (a : LeaseAuthority) (ttl_ms : Milliseconds)
      → Move false tool.db (heartbeat digest host instance a ttl_ms now tool).1.db
  unfolding heartbeat step
  heartbeat-Move a ttl_ms = elim (Bool-cases (holds a.lease_id tool.held_locks)) [
    | inr h ↦ rw (h, heartbeat) (keep refl refl)
    | inl h ↦
        rw (h, heartbeat)
          (finish-Move false tool.db (heartbeat_writer_lease digest a ttl_ms now tool.db)
            (λ _. tool.held_locks) tool.held_locks
            (step-Move digest tool.db (now, Call.heartbeat a ttl_ms)))
  ]

  bind-Move :
      (a : LeaseAuthority) (pid : ℕ)
      → Move false tool.db (bind_process digest host instance a pid now world tool).1.db
  unfolding bind_process step
  bind-Move a pid = elim (Bool-cases (holds a.lease_id tool.held_locks)) [
    | inr h ↦ rw (h, bind_process) (keep refl refl)
    | inl h ↦ elim (Option-cases (world.start_token pid)) [
      | inl n ↦ rw (h, n, bind_process) (keep refl refl)
      | inr (token, n) ↦
          rw (h, n, bind_process)
            (finish-Move false tool.db (bind_writer_process digest a pid token now tool.db)
              (λ _. tool.held_locks) tool.held_locks
              (step-Move digest tool.db (now, bind a pid token)))
    ]
  ]

  release-Move :
      (a : LeaseAuthority)
      → Move
          (owner_gone host world (releases a) tool.db)
          tool.db
          (release_writer digest host instance a now world tool).1.db
  unfolding release_writer step owner_gone
  release-Move a = elim (Bool-cases (holds a.lease_id tool.held_locks)) [
    | inr h ↦ rw (h, release_writer) (keep refl refl)
    | inl h ↦
        elim (Bool-cases
          (is_some a.process_id && not (is_absent (authority_process host a world tool.db)))) [
            | inl g ↦ rw (h, g, release_writer) (keep refl refl)
            | inr g ↦
                let gone : (not (is_some a.process_id)
                      || is_absent (authority_process host a world tool.db))
                    ≡ true =
                  ground (arith, g) in
                rw (h, g, gone, release_writer)
                  (finish-Move true tool.db (release_writer_lease digest a now tool.db)
                    (λ _. drop_lock a.lease_id tool.held_locks) tool.held_locks
                    (step-Move digest tool.db (now, release a)))
          ]
  ]

  recover_locked-Move :
      (lease : WorkspaceLeaseStatus) (actor : String)
      → Move
          (is_absent (owner_process_state host world lease))
          tool.db
          (recover_locked host lease actor now world tool).1.db
  unfolding recover_locked step
  recover_locked-Move lease actor =
      elim (Bool-cases (is_absent (owner_process_state host world lease))) [
        | inr g ↦
            rw (g, recover_locked)
              (preserve-Move false tool.db lease
                (quarantine_writer_lease lease
                  (quarantine_reason (owner_process_state host world lease)) actor now tool.db)
                tool.held_locks
                (step-Move digest tool.db (
                  now,
                  quarantines lease (quarantine_reason (owner_process_state host world lease))
                      actor,
                )))
        | inl g ↦
            let e = absence "owner pid and start token authoritatively absent while lock held" in
            rw (g, recover_locked)
              (finish-Move true tool.db (recover_expired_writer_lease lease e actor now tool.db)
                (λ _. tool.held_locks) tool.held_locks
                (step-Move digest tool.db (now, recover lease e actor)))
      ]

  recover-Move :
      (id actor : String)
      → Move
          (owner_gone host world (recovers id actor) tool.db)
          tool.db
          (recover_workspace host id actor now world tool).1.db
  unfolding recover_workspace owner_gone
  recover-Move id actor = elim (Option-cases (blocking_writer_lease id tool.db)) [
    | inl n ↦ rw (n, recover_workspace) (keep refl refl)
    | inr (lease, n) ↦ elim (Bool-cases (is_quarantined lease.state)) [
      | inl q ↦ rw (n, q, recover_workspace) (keep refl refl)
      | inr q ↦ elim (Bool-cases (holds lease.lease_id tool.held_locks)) [
        | inl h ↦ rw (n, q, h, recover_workspace) (keep refl refl)
        | inr h ↦ elim (Option-cases (lock_error world id tool.held_locks)) [
          | inr (e, l) ↦ rw (n, q, h, l, recover_workspace) (keep refl refl)
          | inl l ↦ rw (n, q, h, l, recover_workspace, owner_gone) (recover_locked-Move lease actor)
        ]
      ]
    ]
  ]

  repair_locked-Move :
      (lease : WorkspaceLeaseStatus) (actor : String)
      → Move
          (is_absent (owner_process_state host world lease))
          tool.db
          (repair_locked host lease actor now world tool).1.db
  unfolding repair_locked step
  repair_locked-Move lease actor =
      elim (Bool-cases (is_absent (owner_process_state host world lease))) [
        | inr g ↦ rw (g, repair_locked) (keep refl refl)
        | inl g ↦
            let e = absence "local host, pid, start token, and exclusive lock verified" in
            rw (g, repair_locked)
              (finish-Move true tool.db (repair_quarantined_writer_lease lease e actor now tool.db)
                (λ _. drop_lock lease.lease_id tool.held_locks) tool.held_locks
                (step-Move digest tool.db (now, repair lease e actor)))
      ]

  repair_lease-Move :
      (lease : WorkspaceLeaseStatus) (actor : String)
      → Move
          (is_absent (owner_process_state host world lease))
          tool.db
          (repair_lease host lease actor now world tool).1.db
  unfolding repair_lease
  repair_lease-Move lease actor = elim (Bool-cases (is_quarantined lease.state)) [
    | inr q ↦ rw (q, repair_lease) (keep refl refl)
    | inl q ↦ elim (Bool-cases (holds lease.lease_id tool.held_locks)) [
      | inl h ↦ rw (q, h, repair_lease) (repair_locked-Move lease actor)
      | inr h ↦ elim (Option-cases (lock_error world lease.workspace_id tool.held_locks)) [
        | inr (e, l) ↦ rw (q, h, l, repair_lease) (keep refl refl)
        | inl l ↦ rw (q, h, l, repair_lease) (repair_locked-Move lease actor)
      ]
    ]
  ]

  repair-Move :
      (id actor : String)
      → Move
          (owner_gone host world (repairs id actor) tool.db)
          tool.db
          (repair_quarantine host id actor now world tool).1.db
  unfolding repair_quarantine owner_gone
  repair-Move id actor = elim (Option-cases (workspace_lease_by_id id tool.db)) [
    | inl n ↦ rw (n, repair_quarantine) (keep refl refl)
    | inr (lease, n) ↦ rw (n, repair_quarantine, owner_gone) (repair_lease-Move lease actor)
  ]

  perform-Move :
      (c : Request)
      → Move
          (owner_gone host world c tool.db)
          tool.db
          (perform digest host instance now world c tool).db
  unfolding perform owner_gone
  perform-Move (acquires input fresh) = acquire-Move input fresh
  perform-Move (heartbeats a ttl_ms) = heartbeat-Move a ttl_ms
  perform-Move (binds a pid) = bind-Move a pid
  perform-Move (releases a) = release-Move a
  perform-Move (recovers id actor) = recover-Move id actor
  perform-Move (repairs id actor) = repair-Move id actor
  perform-Move closes = unfold close in keep refl refl

  -- Evidence before release: a call of the tool that does not find the process of the owner provably
  -- gone leaves a workspace with a writer blocked, whatever else the call does. Only an authority
  -- that names no process is released without that evidence.
  pub perform-keeps_blocked :
      (c : Request) (workspace_id : String)
      → owner_gone host world c tool.db ≡ false
      → any (is_blocking workspace_id) tool.db.leases ≡ true
      → any (is_blocking workspace_id) (perform digest host instance now world c tool).db.leases
        ≡ true
  perform-keeps_blocked c workspace_id g h = Move-keeps_blocked workspace_id (perform-Move c) g h

-- A history of calls, each at an instant and with the world that it finds.
unfoldable pub perform_all :
    (String → String) → String → String → List (ℕ × World × Request) → Tool → Tool
perform_all digest host instance [] tool = tool
perform_all digest host instance ((now, world, c) ∷ cs) tool =
    perform_all digest host instance cs (perform digest host instance now world c tool)

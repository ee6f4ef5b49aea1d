-- ===== src/Storage/History.antt =====
-- src/storage.ts: a history of calls on the registry, and the four kinds of change that one call can
-- make to the tables of leases and generations.
use superset_agent_orchestra.Base.{
  ℕ, suc, ◌+◌, ◌-◌, String, ◌≡◌, refl, true, false, not, ◌&&◌, ◌||◌, List, [], ◌∷◌, ◌⊎◌, inl, inr,
  find, update, count, is_blank, ltb, ◌==◌, nat_eq, string_eq, arith, Bool-cases, Option-cases,
}
use superset_agent_orchestra.Storage.Db.{
  LeaseState, Lease, LeaseAuthority, WorkspaceLeaseStatus, Db, Milliseconds, is_released, is_writer,
  is_active, is_releasing, same_state, is_blocking, last_allocated_generation, bump_generation,
  may_insert, insert_lease, transaction,
}
use superset_agent_orchestra.Storage.Leases.{
  max_time, WriterRequest, Fresh, positive, new_lease, admit, acquire_writer_lease, owns_active,
  owns_live, bind_process, bind_writer_process, renew, heartbeat_writer_lease, begin_release,
  finish_release, second_phase, release_writer_lease, record_policy_denial,
}
use superset_agent_orchestra.Storage.Recovery.{
  Evidence, Purged, is_observed, is_recoverable, recover_expired_writer_lease, quarantine,
  quarantine_writer_lease, repair_quarantined_writer_lease, is_disposable, cleanup,
}
use superset_agent_orchestra.Storage.Moves.{
  Call, Evolves, Move, acquire, begin_release-Evolves, bind, clean, delete, evolve,
  finish_release-Evolves, frees, heartbeat, insert, keep, may_insert_lem, quarantines, recover,
  release, repair, transaction-Move, twice,
}

module _ (digest : String → String) where
  unfoldable pub step : Db → ℕ × Call → Db
  step db (now, acquire input fresh) = (acquire_writer_lease digest input fresh now db).1
  step db (now, bind a pid token) = (bind_writer_process digest a pid token now db).1
  step db (now, heartbeat a ttl) = (heartbeat_writer_lease digest a ttl now db).1
  step db (now, release a) = (release_writer_lease digest a now db).1
  step db (now, recover o evidence actor) = (recover_expired_writer_lease o evidence actor now db).1
  step db (now, quarantines o reason actor) = (quarantine_writer_lease o reason actor now db).1
  step db (now, repair o evidence actor) =
      (repair_quarantined_writer_lease o evidence actor now db).1
  step db (now, clean retention purged) = cleanup retention purged now db

  unfoldable pub run : Db → List (ℕ × Call) → Db
  run db [] = db
  run db (c ∷ cs) = run (step db c) cs

  admit-Move :
      (input : WriterRequest) (fresh : Fresh) (ttl now : ℕ) (db : Db)
      → Move false db (transaction (admit digest input fresh ttl now) db).1
  unfolding admit insert_lease new_lease
  admit-Move input fresh ttl now db =
      transaction-Move false (admit digest input fresh ttl now) db λ a after e.
        let fencing = bump_generation input.workspace_id db.fencing in
        let l =
          new_lease digest input fresh (last_allocated_generation input.workspace_id fencing) ttl
            now in
        elim (Bool-cases (may_insert l (record db { fencing = fencing }))) [
          | inl free ↦
              let facts = may_insert_lem l (record db { fencing = fencing }) free refl refl in
              insert l refl facts.1 facts.0 (ground arith) (ground arith) (ground arith)
          | inr taken ↦ absurd (ground arith)
        ]

  acquire-Move :
      (input : WriterRequest) (fresh : Fresh) (now : ℕ) (db : Db)
      → Move false db (acquire_writer_lease digest input fresh now db).1
  unfolding acquire_writer_lease record_policy_denial
  acquire-Move input fresh now db = elim (Bool-cases (is_blank input.workspace_id)) [
    | inl blank ↦ rw blank (keep refl refl)
    | inr ok_id ↦ rw ok_id (elim (Option-cases (positive input.ttl_ms)) [
      | inl bad ↦ rw bad (keep refl refl)
      | inr (ttl, good) ↦
          rw good (elim (Option-cases (find (is_blocking input.workspace_id) db.leases)) [
            | inr (held, e) ↦ rw e (keep refl refl)
            | inl free ↦ rw free (admit-Move input fresh ttl now db)
          ])
    ])
  ]

  bind-Move :
      (a : LeaseAuthority) (pid : ℕ) (token : String) (now : ℕ) (db : Db)
      → Move false db (bind_writer_process digest a pid token now db).1
  unfolding bind_writer_process bind_process
  bind-Move a pid token now db = elim (Option-cases (find (owns_active digest a) db.leases)) [
    | inl e ↦ rw (e, bind_writer_process, transaction) (keep refl refl)
    | inr (l, e) ↦
        rw (e, bind_writer_process, transaction)
          (evolve (owns_active digest a) (bind_process pid token) (λ l _. ground arith) refl refl)
  ]

  heartbeat-Move :
      (a : LeaseAuthority) (ttl_ms : Milliseconds) (now : ℕ) (db : Db)
      → Move false db (heartbeat_writer_lease digest a ttl_ms now db).1
  unfolding heartbeat_writer_lease renew
  heartbeat-Move a ttl_ms now db = elim (Option-cases (positive ttl_ms)) [
    | inl e ↦ rw (e, heartbeat_writer_lease, transaction) (keep refl refl)
    | inr (ttl, e) ↦ elim (Bool-cases (ltb max_time (now + ttl))) [
      | inl late ↦ rw (e, late, heartbeat_writer_lease) (keep refl refl)
      | inr soon ↦
          rw (e, soon, heartbeat_writer_lease, transaction)
            (elim (Option-cases (find (owns_live digest a now) db.leases)) [
              | inl e ↦ rw (e, heartbeat_writer_lease, transaction) (keep refl refl)
              | inr (l, e) ↦
                  rw (e, heartbeat_writer_lease, transaction)
                    (evolve (owns_live digest a now) (renew now (now + ttl)) (λ l _. ground arith)
                      refl refl)
            ])
    ]
  ]

  release-Move :
      (a : LeaseAuthority) (now : ℕ) (db : Db)
      → Move true db (release_writer_lease digest a now db).1
  unfolding release_writer_lease owns_active
  release-Move a now db = elim (Option-cases (find (owns_active digest a) db.leases)) [
    | inl e ↦ rw (e, release_writer_lease, transaction) (keep refl refl)
    | inr (l, e) ↦
        rw (e, release_writer_lease, transaction)
          (let released =
              count (second_phase digest a (suc l.row_version))
                (update (owns_active digest a) begin_release db.leases)
              == 1 in
            elim (Bool-cases released) [
              | inl one ↦ rw one (
                  twice (owns_active digest a) (second_phase digest a (suc l.row_version))
                    begin_release (finish_release now)
                    (λ m h. begin_release-Evolves m (ground arith))
                    (λ m _. finish_release-Evolves now m) refl refl)
              | inr other ↦ rw other (keep refl refl)
            ])
  ]

recover-Move :
    (o : WorkspaceLeaseStatus) (evidence : Evidence) (actor : String) (now : ℕ) (db : Db)
    → Move true db (recover_expired_writer_lease o evidence actor now db).1
unfolding recover_expired_writer_lease
recover-Move o evidence actor now db =
    elim (Bool-cases (not (is_active o.state) || ltb now o.expires_at)) [
      | inl e ↦ rw (e, recover_expired_writer_lease, transaction) (keep refl refl)
      | inr e ↦
          rw (e, recover_expired_writer_lease, transaction)
            (elim (Bool-cases evidence.owner_process_absent) [
              | inr e ↦ rw (e, recover_expired_writer_lease, transaction) (keep refl refl)
              | inl e ↦
                  rw (e, recover_expired_writer_lease, transaction)
                    (elim (Bool-cases (count (is_recoverable o) db.leases == 1)) [
                      | inr e ↦ rw (e, recover_expired_writer_lease, transaction) (keep refl refl)
                      | inl e ↦
                          rw (e, recover_expired_writer_lease, transaction)
                            (evolve (is_recoverable o) (finish_release now)
                              (λ l _. finish_release-Evolves now l) refl refl)
                    ])
            ])
    ]

-- The rows that a quarantine or a repair finds are in the state that its caller observed.
observed_state :
    (o : WorkspaceLeaseStatus) (s : LeaseState) (l : Lease)
    → is_observed o s l ≡ true
    → same_state s l.state ≡ true
unfolding is_observed
observed_state o s l h = ground arith

quarantine-Evolves :
    (reason : String) (s : LeaseState) (l : Lease)
    → is_released s ≡ false
    → same_state s l.state ≡ true
    → Evolves false l (quarantine reason l)
unfolding quarantine
quarantine-Evolves reason s l r h = ground arith

quarantine-Move :
    (o : WorkspaceLeaseStatus) (reason actor : String) (now : ℕ) (db : Db)
    → Move false db (quarantine_writer_lease o reason actor now db).1
unfolding quarantine_writer_lease
quarantine-Move o reason actor now db =
    elim (Bool-cases (not (is_active o.state) && not (is_releasing o.state))) [
      | inl e ↦ rw e (keep refl refl)
      | inr e ↦ rw e (elim (Option-cases (find (is_observed o o.state) db.leases)) [
        | inl f ↦ rw (f, transaction) (keep refl refl)
        | inr (l, f) ↦
            rw (f, transaction)
              (evolve (is_observed o o.state) (quarantine reason)
                (λ m h.
                  quarantine-Evolves reason o.state m (ground arith) (observed_state o o.state m h))
                refl refl)
      ])
    ]

repair-Move :
    (o : WorkspaceLeaseStatus) (evidence : Evidence) (actor : String) (now : ℕ) (db : Db)
    → Move true db (repair_quarantined_writer_lease o evidence actor now db).1
unfolding repair_quarantined_writer_lease
repair-Move o evidence actor now db = elim (Bool-cases evidence.owner_process_absent) [
  | inr e ↦ rw (e, repair_quarantined_writer_lease, transaction) (keep refl refl)
  | inl e ↦
      rw (e, repair_quarantined_writer_lease, transaction)
        (elim (Option-cases (find (is_observed o LeaseState.quarantined) db.leases)) [
          | inl f ↦ rw (f, repair_quarantined_writer_lease, transaction) (keep refl refl)
          | inr (l, f) ↦
              rw (f, repair_quarantined_writer_lease, transaction)
                (evolve (is_observed o LeaseState.quarantined) (finish_release now)
                  (λ m _. finish_release-Evolves now m) refl refl)
        ])
]

disposable_only :
    (payload now : ℕ) (l : Lease)
    → not (is_disposable payload now l) ≡ false
    → (is_released l.state ≡ true) ⊎ (is_writer l.mode ≡ false)
unfolding is_disposable
disposable_only payload now l h = ground arith

cleanup-Move :
    (retention : ℕ) (purged : Purged) (now : ℕ) (db : Db)
    → Move false db (cleanup retention purged now db)
unfolding cleanup
cleanup-Move retention purged now db =
    let total =
      purged.assignments
      + purged.results
      + purged.idempotency
      + count (is_disposable (now - retention) now) db.leases in
    elim (Bool-cases (ltb 0 total)) [
      | inl e ↦ rw e (
          delete (λ l. not (is_disposable (now - retention) now l)) refl refl
            (disposable_only (now - retention) now))
      | inr e ↦ rw e (
          delete (λ l. not (is_disposable (now - retention) now l)) refl refl
            (disposable_only (now - retention) now))
    ]

-- Every call changes the tables in one of these ways.
pub step-Move :
    (digest : String → String) (db : Db) (c : ℕ × Call) → Move (frees c.1) db (step digest db c)
unfolding step
step-Move digest db (now, acquire input fresh) = acquire-Move digest input fresh now db
step-Move digest db (now, bind a pid token) = bind-Move digest a pid token now db
step-Move digest db (now, heartbeat a ttl) = heartbeat-Move digest a ttl now db
step-Move digest db (now, release a) = release-Move digest a now db
step-Move digest db (now, recover o evidence actor) = recover-Move o evidence actor now db
step-Move digest db (now, quarantines o reason actor) = quarantine-Move o reason actor now db
step-Move digest db (now, repair o evidence actor) = repair-Move o evidence actor now db
step-Move digest db (now, clean retention purged) = cleanup-Move retention purged now db

-- ===== src/Storage/Recovery.antt =====
-- src/storage.ts: recovery, quarantine, repair and retention of writer leases, and the queries.
use superset_agent_orchestra.Base.{
  ℕ, suc, ◌+◌, ◌-◌, String, Bool, false, ◌&&◌, ◌||◌, not, Option, none, some, List, [], ◌∷◌, find,
  select, update, count, ltb, ◌==◌, if◌then◌else◌, nat_eq, string_eq,
}
use superset_agent_orchestra.Storage.Db.{
  LeaseState, Lease, WorkspaceLeaseStatus, Datum, text, number, null, Db, lease_fenced,
  recovery_ambiguous, state_corrupt, Result, ok, err, is_active, is_releasing, is_released,
  is_writer, same_state, transaction, append_event, is_blocking,
}
use superset_agent_orchestra.Storage.Leases.{lease_event, finish_release}

pub record Evidence : Type 0 where
  pub owner_process_absent : Bool
  pub detail : Option String

-- SELECT LEASE_COLUMNS
unfoldable pub status_of : Lease → WorkspaceLeaseStatus
status_of l = record {
  lease_id = l.id;
  workspace_id = l.workspace_id;
  owner_session_id = l.owner_session_id;
  owner_batch_id = l.owner_batch_id;
  generation = l.generation;
  state = l.state;
  acquired_at = l.acquired_at;
  heartbeat_at = l.heartbeat_at;
  expires_at = l.expires_at;
  released_at = l.released_at;
  quarantine_reason = l.quarantine_reason;
  row_version = l.row_version;
  server_instance_id = l.server_instance_id;
  owner_host = l.owner_host;
  process_id = l.process_id;
  process_start_token = l.process_start_token;
}

-- JSON.stringify leaves an undefined field out.
abbrev detail_field : Option String → List (String × Datum)
detail_field none = []
detail_field (some d) = ("detail", text d) ∷ []

abbrev reason_datum : Option String → Datum
reason_datum none = null
reason_datum (some r) = text r

-- The row that the caller observed, unchanged since.
unfoldable pub is_observed : WorkspaceLeaseStatus → LeaseState → Lease → Bool
is_observed o s l =
    l.id == o.lease_id
    && (l.generation == o.generation && (same_state s l.state && l.row_version == o.row_version))

unfoldable pub is_recoverable : WorkspaceLeaseStatus → Lease → Bool
unfolding is_observed
is_recoverable o l = is_observed o LeaseState.active l && l.expires_at == o.expires_at

unfoldable pub recover_expired_writer_lease :
    WorkspaceLeaseStatus → Evidence → String → ℕ → Db → Result (Unit {0}) × Db
recover_expired_writer_lease o evidence actor now = transaction λ db.
    if not (is_active o.state) || ltb now o.expires_at
    then err recovery_ambiguous
    else if not evidence.owner_process_absent
    then err recovery_ambiguous
    else if count (is_recoverable o) db.leases == 1
    then ok (
      tt,
      append_event
          (lease_event o.lease_id "lease_recovered" actor
            (("workspaceId", text o.workspace_id)
              ∷ ("generation", number o.generation)
              ∷ ("evidence", text "owner_process_absent")
              ∷ detail_field evidence.detail)
            now)
          (record db { leases = update (is_recoverable o) (finish_release now) db.leases }),
    )
    else err lease_fenced

unfoldable pub quarantine : String → Lease → Lease
quarantine reason l = record l {
  state = LeaseState.quarantined;
  quarantine_reason = some reason;
  row_version = suc l.row_version;
}

unfoldable pub quarantine_writer_lease :
    WorkspaceLeaseStatus → String → String → ℕ → Db → Result (Unit {0}) × Db
quarantine_writer_lease o reason actor now db =
    if not (is_active o.state) && not (is_releasing o.state)
    then (err state_corrupt, db)
    else transaction
        (λ before. elim (find (is_observed o o.state) before.leases) [
          | none ↦ err lease_fenced
          | some l ↦ ok (
            tt,
            append_event
                (lease_event o.lease_id "lease_quarantined" actor
                  (("workspaceId", text l.workspace_id)
                    ∷ ("generation", number l.generation)
                    ∷ ("reason", text reason)
                    ∷ [])
                  now)
                (record before {
                  leases = update (is_observed o o.state) (quarantine reason) before.leases;
                }),
          )
        ])
        db

unfoldable pub repair_quarantined_writer_lease :
    WorkspaceLeaseStatus → Evidence → String → ℕ → Db → Result (Unit {0}) × Db
repair_quarantined_writer_lease o evidence actor now = transaction λ db.
    if not evidence.owner_process_absent
    then err recovery_ambiguous
    else elim (find (is_observed o LeaseState.quarantined) db.leases) [
      | none ↦ err lease_fenced
      | some l ↦ ok (
        tt,
        append_event
            (lease_event o.lease_id "lease_repaired" actor
              (("workspaceId", text l.workspace_id)
                ∷ ("generation", number l.generation)
                ∷ ("quarantineReason", reason_datum l.quarantine_reason)
                ∷ detail_field evidence.detail)
              now)
            (record db {
              leases = update (is_observed o LeaseState.quarantined) (finish_release now) db.leases;
            }),
      )
    ]

-- ORDER BY generation DESC LIMIT 1 over the rows that pass the test.
unfoldable pub highest_generation : (Lease → Bool) → List Lease → Option Lease
highest_generation p [] = none
highest_generation p (l ∷ ls) =
    let rest = highest_generation p ls in
    if p l
    then elim rest [
      | none ↦ some l
      | some m ↦ if ltb l.generation m.generation then some m else some l
    ]
    else rest

abbrev status_of? : Option Lease → Option WorkspaceLeaseStatus
status_of? none = none
status_of? (some l) = some (status_of l)

unfoldable pub workspace_lease_status : String → Db → Option WorkspaceLeaseStatus
workspace_lease_status workspace_id db =
    status_of? (highest_generation (λ l. l.workspace_id == workspace_id) db.leases)

unfoldable pub workspace_lease_by_id : String → Db → Option WorkspaceLeaseStatus
workspace_lease_by_id lease_id db = status_of? (find (λ l. l.id == lease_id) db.leases)

unfoldable pub blocking_writer_lease : String → Db → Option WorkspaceLeaseStatus
blocking_writer_lease workspace_id db =
    status_of? (highest_generation (is_blocking workspace_id) db.leases)

-- `released_at < ?` is not true of NULL.
abbrev is_before : Option ℕ → ℕ → Bool
is_before none t = false
is_before (some r) t = ltb r t

unfoldable pub is_disposable : ℕ → ℕ → Lease → Bool
is_disposable expired_payload now l =
    (is_released l.state && is_before l.released_at expired_payload)
    || (not (is_writer l.mode) && ltb l.expires_at now)

-- The numbers of rows of the other tables that a cleanup redacts or deletes.
pub record Purged : Type 0 where
  pub assignments : ℕ
  pub results : ℕ
  pub idempotency : ℕ

-- `retention` is `resultRetentionDays` in milliseconds.
unfoldable pub cleanup : ℕ → Purged → ℕ → Db → Db
cleanup retention purged now db =
    let expired_payload = now - retention in
    let deleted = count (is_disposable expired_payload now) db.leases in
    let kept = record db {
      leases = select (λ l. not (is_disposable expired_payload now l)) db.leases;
    } in
    if ltb 0 (purged.assignments + purged.results + purged.idempotency + deleted)
    then append_event
        (record {
          aggregate_type = "registry";
          aggregate_id = "maintenance";
          event_type = "retention.cleanup_completed";
          actor = "system";
          fields =
              ("assignmentsRedacted", number purged.assignments)
              ∷ ("resultsRedacted", number purged.results)
              ∷ ("idempotencyDeleted", number purged.idempotency)
              ∷ ("leasesDeleted", number deleted)
              ∷ [];
          occurred_at = now;
        })
        kept
    else kept

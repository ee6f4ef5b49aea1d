-- ===== src/Storage/Leases.antt =====
-- src/storage.ts: the operations on writer leases. Random ids and tokens are arguments; `digest`
-- stands for the SHA-256 digest of a fencing token.
use superset_agent_orchestra.Base.{
  ℕ, zero, suc, ◌+◌, String, Bool, ◌&&◌, Option, none, some, List, [], ◌∷◌, ◌++◌, find, update,
  count, is_blank, ltb, ◌==◌, if◌then◌else◌, nat_eq, string_eq, option_string_eq, option_nat_eq,
}
use superset_agent_orchestra.Storage.Db.{
  LeaseState, writer, Lease, LeaseAuthority, Datum, text, number, lease_state, Event, Db,
  invalid_argument, writer_busy, lease_fenced, state_corrupt, Result, ok, err, Milliseconds, pos,
  negsuc, not_finite, is_active, is_releasing, get_or, transaction, append_event, is_blocking,
  last_allocated_generation, bump_generation, insert_lease,
}

infixl 5 ◌>>=◌
abbrev ◌>>=◌ {ℓ κ} : {A : Type ℓ} {B : Type κ} → Result A → (A → Result B) → Result B
ok a >>= f = f a
err e >>= f = err e

-- `!Number.isFinite(ttlMs) || ttlMs <= 0` throws.
abbrev pub positive : Milliseconds → Option ℕ
positive (pos zero) = none
positive (pos (suc n)) = some (suc n)
positive (negsuc n) = none
positive not_finite = none

-- The last millisecond that a Date can hold: `toISOString` throws a RangeError beyond it.
abbrev pub max_time : ℕ
max_time = 8640000000000000

pub record WriterRequest : Type 0 where
  pub workspace_id : String
  pub owner_session_id : Option String
  pub owner_batch_id : String
  pub ttl_ms : Milliseconds
  pub server_instance_id : Option String
  pub owner_host : Option String
  pub process_id : Option ℕ
  pub process_start_token : Option String

abbrev pub lease_event : String → String → String → List (String × Datum) → ℕ → Event
lease_event lease_id event_type actor fields now = record {
  aggregate_type = "workspace_lease";
  aggregate_id = lease_id;
  event_type = event_type;
  actor = actor;
  fields = fields;
  occurred_at = now;
}

unfoldable pub record_policy_denial : String → String → String → List (String × Datum) → ℕ → Db → Db
record_policy_denial workspace_id denial actor fields now db =
    append_event
      (record {
        aggregate_type = "workspace";
        aggregate_id = workspace_id;
        event_type = "policy_denied";
        actor = actor;
        fields = fields ++ ("code", text denial) ∷ [];
        occurred_at = now;
      })
      db

-- The id and the token that a new lease draws at random.
pub record Fresh : Type 0 where
  pub lease_id : String
  pub token : String

abbrev pub actor_of : LeaseAuthority → String
actor_of a = get_or a.owner_session_id a.owner_batch_id

unfoldable pub bind_process : ℕ → String → Lease → Lease
bind_process pid token l = record l {
  process_id = some pid;
  process_start_token = some token;
  row_version = suc l.row_version;
}

unfoldable pub renew : ℕ → ℕ → Lease → Lease
renew heartbeat_at expires_at l = record l {
  heartbeat_at = heartbeat_at;
  expires_at = expires_at;
  row_version = suc l.row_version;
}

unfoldable pub begin_release : Lease → Lease
begin_release l = record l { state = LeaseState.releasing; row_version = suc l.row_version }

unfoldable pub finish_release : ℕ → Lease → Lease
finish_release now l = record l {
  state = LeaseState.released;
  released_at = some now;
  row_version = suc l.row_version;
}

module _ (digest : String → String) where
  -- The row that an admitted writer inserts.
  unfoldable pub new_lease : WriterRequest → Fresh → ℕ → ℕ → ℕ → Lease
  new_lease input fresh generation ttl now = record {
    id = fresh.lease_id;
    workspace_id = input.workspace_id;
    mode = writer;
    owner_session_id = input.owner_session_id;
    owner_batch_id = input.owner_batch_id;
    acquired_at = now;
    expires_at = now + ttl;
    released_at = none;
    generation = generation;
    fencing_token_digest = digest fresh.token;
    state = LeaseState.active;
    heartbeat_at = now;
    quarantine_reason = none;
    row_version = 1;
    server_instance_id = get_or input.server_instance_id "";
    owner_host = get_or input.owner_host "";
    process_id = input.process_id;
    process_start_token = input.process_start_token;
  }

  abbrev pub authority_of : WriterRequest → Fresh → Lease → LeaseAuthority
  authority_of input fresh l = record {
    lease_id = l.id;
    workspace_id = l.workspace_id;
    owner_session_id = l.owner_session_id;
    owner_batch_id = l.owner_batch_id;
    generation = l.generation;
    fencing_token = fresh.token;
    row_version = 1;
    expires_at = l.expires_at;
    server_instance_id = l.server_instance_id;
    owner_host = l.owner_host;
    process_id = l.process_id;
    process_start_token = l.process_start_token;
  }

  -- The new generation, its lease and its event, in one transaction.
  unfoldable pub admit : WriterRequest → Fresh → ℕ → ℕ → Db → Result (LeaseAuthority × Db)
  unfolding new_lease
  admit input fresh ttl now db =
      let fencing = bump_generation input.workspace_id db.fencing in
      let generation = last_allocated_generation input.workspace_id fencing in
      let lease = new_lease input fresh generation ttl now in
      if ltb max_time (now + ttl)
      then err invalid_argument
      else insert_lease lease (record db { fencing = fencing }) >>= λ inserted. ok (
        authority_of input fresh lease,
        append_event
            (lease_event fresh.lease_id "lease_acquired"
              (get_or input.owner_session_id input.owner_batch_id)
              (("workspaceId", text input.workspace_id)
                ∷ ("generation", number generation)
                ∷ ("serverInstanceId", text (get_or input.server_instance_id ""))
                ∷ [])
              now)
            inserted,
      )

  unfoldable pub acquire_writer_lease : WriterRequest → Fresh → ℕ → Db → Result LeaseAuthority × Db
  unfolding admit
  acquire_writer_lease input fresh now db =
      if is_blank input.workspace_id
      then (err invalid_argument, db)
      else elim (positive input.ttl_ms) [
        | none ↦ (err invalid_argument, db)
        | some ttl ↦ elim (find (is_blocking input.workspace_id) db.leases) [
          | some existing ↦ (
            err writer_busy,
            record_policy_denial input.workspace_id "WORKSPACE_WRITER_BUSY"
                (get_or input.owner_session_id input.owner_batch_id)
                (("state", lease_state existing.state) ∷ []) now db,
          )
          | none ↦ transaction (admit input fresh ttl now) db
        ]
      ]

  -- Every fact that a caller must present to act as the current generation.
  unfoldable pub ownership_predicate : LeaseAuthority → Lease → Bool
  ownership_predicate a l =
      l.id == a.lease_id
      && (l.workspace_id == a.workspace_id
          && (l.generation == a.generation
              && (l.fencing_token_digest == digest a.fencing_token
                  && (l.owner_batch_id == a.owner_batch_id
                      && (l.owner_session_id == a.owner_session_id
                          && (l.server_instance_id == a.server_instance_id
                              && (l.owner_host == a.owner_host
                                  && (l.process_id == a.process_id
                                      && (l.process_start_token == a.process_start_token
                                          && l.row_version == a.row_version)))))))))

  unfoldable pub owns_active : LeaseAuthority → Lease → Bool
  owns_active a l = ownership_predicate a l && is_active l.state

  unfoldable pub owns_live : LeaseAuthority → ℕ → Lease → Bool
  owns_live a now l = ownership_predicate a l && (is_active l.state && ltb now l.expires_at)

  unfoldable pub bind_writer_process :
      LeaseAuthority → ℕ → String → ℕ → Db → Result LeaseAuthority × Db
  bind_writer_process a pid token now = transaction λ db. elim (find (owns_active a) db.leases) [
    | none ↦ err lease_fenced
    | some l ↦ ok (
      record a {
        process_id = some pid;
        process_start_token = some token;
        row_version = suc l.row_version;
      },
      append_event
          (lease_event a.lease_id "lease_process_bound" (actor_of a)
            (("generation", number a.generation) ∷ []) now)
          (record db { leases = update (owns_active a) (bind_process pid token) db.leases }),
    )
  ]

  unfoldable pub heartbeat_writer_lease :
      LeaseAuthority → Milliseconds → ℕ → Db → Result LeaseAuthority × Db
  heartbeat_writer_lease a ttl_ms now db = elim (positive ttl_ms) [
    | none ↦ (err invalid_argument, db)
    | some ttl ↦
        if ltb max_time (now + ttl)
        then (err invalid_argument, db)
        else transaction
            (λ before. elim (find (owns_live a now) before.leases) [
              | none ↦ err lease_fenced
              | some l ↦ ok (
                record a { row_version = suc l.row_version; expires_at = now + ttl },
                append_event
                    (lease_event a.lease_id "lease_heartbeat" (actor_of a)
                      (("generation", number a.generation) ∷ []) now)
                    (record before {
                      leases = update (owns_live a now) (renew now (now + ttl)) before.leases;
                    }),
              )
            ])
            db
  ]

  -- Throws unless the caller still owns the live current generation.
  unfoldable pub assert_writer_lease : LeaseAuthority → ℕ → Db → Result (Unit {0})
  assert_writer_lease a now db = elim (find (owns_live a now) db.leases) [
    | none ↦ err lease_fenced
    | some _ ↦ ok tt
  ]

  -- The second phase finds its row by the version that the first phase returned.
  unfoldable pub second_phase : LeaseAuthority → ℕ → Lease → Bool
  second_phase a version l =
      l.id == a.lease_id
      && (l.generation == a.generation
          && (l.fencing_token_digest == digest a.fencing_token
              && (is_releasing l.state && l.row_version == version)))

  unfoldable pub release_writer_lease : LeaseAuthority → ℕ → Db → Result (Unit {0}) × Db
  release_writer_lease a now = transaction λ db. elim (find (owns_active a) db.leases) [
    | none ↦ err lease_fenced
    | some l ↦
        let releasing = update (owns_active a) begin_release db.leases in
        let version = suc l.row_version in
        if count (second_phase a version) releasing == 1
        then ok (
          tt,
          append_event
              (lease_event a.lease_id "lease_released" (actor_of a)
                (("generation", number a.generation) ∷ []) now)
              (record db {
                leases = update (second_phase a version) (finish_release now) releasing;
              }),
        )
        else err state_corrupt
  ]

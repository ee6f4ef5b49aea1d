-- ===== src/Storage/Db.antt =====
-- src/storage.ts: the tables that the writer leases live in, the values handed to callers, the
-- errors, and transactions. An instant is its number of milliseconds, whose order is that of the
-- fixed-width texts of `toISOString`. The event log keeps its order and leaves out the random id.
use superset_agent_orchestra.Base.{
  ℕ, suc, String, Bool, true, false, ◌&&◌, not, Option, none, some, List, [], ◌∷◌, ◌++◌, any, ◌==◌,
  if◌then◌else◌, nat_eq, string_eq, option_string_eq, option_nat_eq,
}

pub data LeaseState : Type 0 where
  active releasing released quarantined : LeaseState

pub data Mode : Type 0 where
  read_only writer : Mode

-- A row of workspace_leases.
pub record Lease : Type 0 where
  pub id : String
  pub workspace_id : String
  pub mode : Mode
  pub owner_session_id : Option String
  pub owner_batch_id : String
  pub acquired_at : ℕ
  pub expires_at : ℕ
  pub released_at : Option ℕ
  pub generation : ℕ
  pub fencing_token_digest : String
  pub state : LeaseState
  pub heartbeat_at : ℕ
  pub quarantine_reason : Option String
  pub row_version : ℕ
  pub server_instance_id : String
  pub owner_host : String
  pub process_id : Option ℕ
  pub process_start_token : Option String

pub record LeaseAuthority : Type 0 where
  pub lease_id : String
  pub workspace_id : String
  pub owner_session_id : Option String
  pub owner_batch_id : String
  pub generation : ℕ
  pub fencing_token : String
  pub row_version : ℕ
  pub expires_at : ℕ
  pub server_instance_id : String
  pub owner_host : String
  pub process_id : Option ℕ
  pub process_start_token : Option String

pub record WorkspaceLeaseStatus : Type 0 where
  pub lease_id : String
  pub workspace_id : String
  pub owner_session_id : Option String
  pub owner_batch_id : String
  pub generation : ℕ
  pub state : LeaseState
  pub acquired_at : ℕ
  pub heartbeat_at : ℕ
  pub expires_at : ℕ
  pub released_at : Option ℕ
  pub quarantine_reason : Option String
  pub row_version : ℕ
  pub server_instance_id : String
  pub owner_host : String
  pub process_id : Option ℕ
  pub process_start_token : Option String

-- What an event's JSON data holds.
pub data Datum : Type 0 where
  text : String → Datum
  number : ℕ → Datum
  null : Datum
  lease_state : LeaseState → Datum

pub record Event : Type 0 where
  pub aggregate_type : String
  pub aggregate_id : String
  pub event_type : String
  pub actor : String
  pub fields : List (String × Datum)
  pub occurred_at : ℕ

-- `sessions` and `batches` hold the ids that the foreign keys of a lease refer to.
pub record Db : Type 0 where
  pub sessions : List String
  pub batches : List String
  pub leases : List Lease
  pub fencing : List (String × ℕ)
  pub events : List Event

-- The error classes, and the plain `Error`s of rejected arguments and violated constraints.
pub data Error : Type 0 where
  invalid_argument constraint_violated writer_busy lease_fenced recovery_ambiguous : Error
  state_corrupt : Error

pub data Result {ℓ} (A : Type ℓ) : Type ℓ where
  ok : A → Result A
  err : Error → Result A

-- A lifetime argument: a JavaScript number that is whole, or not finite.
pub data Milliseconds : Type 0 where
  pos : ℕ → Milliseconds
  negsuc : ℕ → Milliseconds
  not_finite : Milliseconds

abbrev pub is_active : LeaseState → Bool
is_active LeaseState.active = true
is_active _ = false

abbrev pub is_releasing : LeaseState → Bool
is_releasing LeaseState.releasing = true
is_releasing _ = false

abbrev pub is_released : LeaseState → Bool
is_released LeaseState.released = true
is_released _ = false

abbrev pub is_quarantined : LeaseState → Bool
is_quarantined LeaseState.quarantined = true
is_quarantined _ = false

abbrev pub is_writer : Mode → Bool
is_writer writer = true
is_writer read_only = false

abbrev pub same_state : LeaseState → LeaseState → Bool
same_state LeaseState.active s = is_active s
same_state LeaseState.releasing s = is_releasing s
same_state LeaseState.released s = is_released s
same_state LeaseState.quarantined s = is_quarantined s

-- `?? fallback`
abbrev pub get_or {ℓ} : {A : Type ℓ} → Option A → A → A
get_or none d = d
get_or (some a) d = a

-- A body that fails leaves the database as it was (ROLLBACK).
abbrev pub transaction {ℓ} : {A : Type ℓ} → (Db → Result (A × Db)) → Db → Result A × Db
transaction operation db = elim (operation db) [
  | ok (a, after) ↦ (ok a, after)
  | err e ↦ (err e, db)
]

abbrev pub append_event : Event → Db → Db
append_event e db = record db { events = db.events ++ e ∷ [] }

-- A writer row that the partial unique index and the admission query see.
unfoldable pub is_blocking : String → Lease → Bool
is_blocking workspace_id l =
    l.workspace_id == workspace_id && (is_writer l.mode && not (is_released l.state))

-- SELECT last_generation; 0 where the workspace has no row.
unfoldable pub last_allocated_generation : String → List (String × ℕ) → ℕ
last_allocated_generation workspace_id [] = 0
last_allocated_generation workspace_id ((w, g) ∷ rest) =
    if w == workspace_id then g else last_allocated_generation workspace_id rest

-- INSERT … VALUES (?, 1) ON CONFLICT DO UPDATE SET last_generation = last_generation + 1
unfoldable pub bump_generation : String → List (String × ℕ) → List (String × ℕ)
bump_generation workspace_id [] = (workspace_id, 1) ∷ []
bump_generation workspace_id ((w, g) ∷ rest) =
    if w == workspace_id then (w, suc g) ∷ rest else (w, g) ∷ bump_generation workspace_id rest

abbrev pub has_owner : Option String → List String → Bool
has_owner none ids = true
has_owner (some s) ids = any (λ id. id == s) ids

-- The primary key, the two foreign keys and the partial unique index.
unfoldable pub may_insert : Lease → Db → Bool
may_insert l db =
    not (any (λ (m : Lease). m.id == l.id) db.leases)
    && (any (λ (b : String). b == l.owner_batch_id) db.batches
        && (has_owner l.owner_session_id db.sessions
            && not (
                is_writer l.mode
                && (not (is_released l.state) && any (is_blocking l.workspace_id) db.leases))))

unfoldable pub insert_lease : Lease → Db → Result Db
insert_lease l db =
    if may_insert l db
    then ok (record db { leases = db.leases ++ l ∷ [] })
    else err constraint_violated

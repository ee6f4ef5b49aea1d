-- ===== src/Storage/Moves.antt =====
-- src/storage.ts: the calls on the registry, and the four kinds of change that they make to the tables
-- of leases and generations.
use superset_agent_orchestra.Base.{
  ℕ, ◌<◌, String, ◌≡◌, refl, Bool, true, false, [], ◌∷◌, ◌++◌, ◌⊎◌, any, select, update, ◌==◌,
  nat_eq, string_eq, arith,
}
use superset_agent_orchestra.Storage.Db.{
  Lease, LeaseAuthority, WorkspaceLeaseStatus, Db, Milliseconds, Result, ok, err, is_released,
  is_writer, is_active, is_blocking, last_allocated_generation, bump_generation, may_insert,
  transaction,
}
use superset_agent_orchestra.Storage.Leases.{WriterRequest, Fresh, begin_release, finish_release}
use superset_agent_orchestra.Storage.Recovery.{Evidence, Purged}

pub data Call : Type 0 where
  acquire : WriterRequest → Fresh → Call
  bind : LeaseAuthority → ℕ → String → Call
  heartbeat : LeaseAuthority → Milliseconds → Call
  release : LeaseAuthority → Call
  recover : WorkspaceLeaseStatus → Evidence → String → Call
  quarantines : WorkspaceLeaseStatus → String → String → Call
  repair : WorkspaceLeaseStatus → Evidence → String → Call
  clean : ℕ → Purged → Call

-- The calls that may end a writer's tenure.
abbrev pub frees : Call → Bool
frees (release _) = true
frees (recover _ _ _) = true
frees (repair _ _ _) = true
frees _ = false

-- A row keeps its identity, `released` is final and the version grows. A call that does not free
-- makes no row released.
pub record Evolves (may_free : Bool) (l m : Lease) : Type 0 where
  pub id : m.id ≡ l.id
  pub workspace_id : m.workspace_id ≡ l.workspace_id
  pub mode : m.mode ≡ l.mode
  pub generation : m.generation ≡ l.generation
  pub released : is_released l.state ≡ true → is_released m.state ≡ true
  pub row_version : l.row_version < m.row_version
  pub held : may_free ≡ false → is_released m.state ≡ true → is_released l.state ≡ true

pub data Move (may_free : Bool) (d e : Db) : Type 0 where
  keep : e.leases ≡ d.leases → e.fencing ≡ d.fencing → Move may_free d e
  evolve :
      (p : Lease → Bool) (f : Lease → Lease)
      → ((l : Lease) → p l ≡ true → Evolves may_free l (f l))
      → e.leases ≡ update p f d.leases
      → e.fencing ≡ d.fencing
      → Move may_free d e
  twice :
      (p q : Lease → Bool) (f g : Lease → Lease)
      → ((l : Lease) → p l ≡ true → Evolves may_free l (f l))
      → ((l : Lease) → q l ≡ true → Evolves may_free l (g l))
      → e.leases ≡ update q g (update p f d.leases)
      → e.fencing ≡ d.fencing
      → Move may_free d e
  insert :
      (l : Lease)
      → is_writer l.mode ≡ true
      → any (is_blocking l.workspace_id) d.leases ≡ false
      → any (λ (m : Lease). m.id == l.id) d.leases ≡ false
      → l.generation ≡ last_allocated_generation l.workspace_id e.fencing
      → e.leases ≡ d.leases ++ l ∷ []
      → e.fencing ≡ bump_generation l.workspace_id d.fencing
      → Move may_free d e
  delete :
      (p : Lease → Bool)
      → e.leases ≡ select p d.leases
      → e.fencing ≡ d.fencing
      → ((l : Lease) → p l ≡ false → (is_released l.state ≡ true) ⊎ (is_writer l.mode ≡ false))
      → Move may_free d e

pub may_insert_lem :
    (l : Lease) (db : Db)
    → may_insert l db ≡ true
    → is_writer l.mode ≡ true
    → is_released l.state ≡ false
    → (any (λ (m : Lease). m.id == l.id) db.leases ≡ false)
      × (any (is_blocking l.workspace_id) db.leases ≡ false)
unfolding may_insert
may_insert_lem l db h w r = ground arith

pub transaction-Move {ℓ} :
    {A : Type ℓ} (b : Bool) (operation : Db → Result (A × Db)) (db : Db)
    → ((a : A) (after : Db) → operation db ≡ ok (a, after) → Move b db after)
    → Move b db (transaction operation db).1
transaction-Move {A} b operation db h = go (operation db) refl
  where
    go : (r : Result (A × Db)) → operation db ≡ r → Move b db (transaction operation db).1
    go (ok (a, after)) e = rw (e, transaction) (h a after e)
    go (err x) e = rw (e, transaction) (keep refl refl)

pub begin_release-Evolves :
    (l : Lease) → is_active l.state ≡ true → Evolves true l (begin_release l)
unfolding begin_release
begin_release-Evolves l h = ground arith

pub finish_release-Evolves : (now : ℕ) (l : Lease) → Evolves true l (finish_release now l)
unfolding finish_release
finish_release-Evolves now l = ground arith

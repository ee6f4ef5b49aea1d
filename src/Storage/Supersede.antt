-- ===== src/Storage/Supersede.antt =====
-- src/storage.ts: which successful calls make an authority stale.
use superset_agent_orchestra.Base.{
  ltb, Bool-cases, ℕ, suc, ◌+◌, ◌≤◌, String, ◌≡◌, refl, sym, ◌∙◌, ◌≢◌, Bool, true, false, some,
  List, [], ◌∷◌, inl, inr, find, update, nat_eq, string_eq, arith, eq_iff, Option-cases, All, Pairs,
  All-map, All-update, All-find,
}
use superset_agent_orchestra.Storage.Db.{
  Lease, LeaseAuthority, Db, Milliseconds, ok, last_allocated_generation,
}
use superset_agent_orchestra.Storage.Leases.{
  max_time, positive, ownership_predicate, owns_active, owns_live, bind_process,
  bind_writer_process, renew, heartbeat_writer_lease, begin_release, finish_release, second_phase,
  release_writer_lease,
}
use superset_agent_orchestra.Storage.History.{run}
use superset_agent_orchestra.Storage.Moves.{
  Evolves, Call, finish_release-Evolves, begin_release-Evolves,
}
use superset_agent_orchestra.Storage.Invariant.{Apart, IsValid}
use superset_agent_orchestra.Storage.Fencing.{Outdated, Outdated-update, Stale, Fenced, run-Fenced}

-- Ids are distinct, so a row with the id of the row that passes the test is that row.
All-unique :
    (p : Lease → Bool) (id : String)
    → ((l : Lease) → p l ≡ true → l.id ≡ id)
    → (ls : List Lease) (x : Lease) → Pairs Apart ls
    → find p ls ≡ some x
    → All (λ l. p l ≡ false → l.id ≢ id) ls
unfolding find
All-unique p id hit [] x h e = tt
All-unique p id hit (l ∷ ls) x h e = elim (Bool-cases (p l)) [
  | inl t ↦ (λ n. cc, All-map (Apart l) _ (λ m a _ k. a.ids (hit l t ∙ sym k)) ls h.0)
  | inr t ↦
      let rest : find p ls ≡ some x = rw (t, find) at e in
      let found = All-find (Apart l) p ls h.0 rest in
      (λ _ k. found.0.ids (k ∙ sym (hit x found.1)), All-unique p id hit ls x h.1 rest)
]

module _ (digest : String → String) (a : LeaseAuthority) where
  record Owned (l : Lease) : Type 0 where
    id : l.id ≡ a.lease_id
    workspace_id : l.workspace_id ≡ a.workspace_id
    generation : l.generation ≡ a.generation
    row_version : l.row_version ≡ a.row_version

  owns-Owned : (l : Lease) → ownership_predicate digest a l ≡ true → Owned l
  unfolding ownership_predicate
  owns-Owned l h = record {
    id = (eq_iff l.id a.lease_id).0 (ground arith);
    workspace_id = (eq_iff l.workspace_id a.workspace_id).0 (ground arith);
    generation = ground arith;
    row_version = ground arith;
  }

  -- The update that the found row's owner makes leaves the authority outdated in every row.
  module _ {b : Bool} (p : Lease → Bool) (f : Lease → Lease)
      (owned : (l : Lease) → p l ≡ true → ownership_predicate digest a l ≡ true)
      (ev : (l : Lease) → p l ≡ true → Evolves b l (f l)) where
    update-Outdated :
        (db : Db) (x : Lease)
        → IsValid db
        → find p db.leases ≡ some x
        → All (Outdated a) (update p f db.leases)
    update-Outdated db x v e =
        All-update (λ l. p l ≡ false → l.id ≢ a.lease_id) (Outdated a) p f
          (λ l _ h i w g.
            inr (omega (arith, (ev l h).row_version, (owns-Owned l (owned l h)).row_version)))
          (λ l o h i w g. absurd (o h i)) db.leases
          (All-unique p a.lease_id (λ l h. (owns-Owned l (owned l h)).id) db.leases x v.apart e)

    handed_out :
        (db : Db) (x : Lease)
        → IsValid db
        → find p db.leases ≡ some x
        → a.generation ≤ last_allocated_generation a.workspace_id db.fencing
    handed_out db x v e =
        let found = All-find _ p db.leases v.allocated e in
        let o = owns-Owned x (owned x found.1) in rw (← o.workspace_id, ← o.generation) found.0

    Stale-update :
        (db after : Db) (x : Lease)
        → IsValid db
        → find p db.leases ≡ some x
        → after.leases ≡ update p f db.leases
        → after.fencing ≡ db.fencing
        → Stale a after
    Stale-update db after x v e same kept = record {
      handed_out = rw kept (handed_out db x v e);
      outdated = rw same (update-Outdated db x v e);
    }

  owns_active-owns :
      (l : Lease) → owns_active digest a l ≡ true → ownership_predicate digest a l ≡ true
  unfolding owns_active
  owns_active-owns l h = ground arith

  owns_live-owns :
      (now : ℕ) (l : Lease)
      → owns_live digest a now l ≡ true
      → ownership_predicate digest a l ≡ true
  unfolding owns_live
  owns_live-owns now l h = ground arith

  bind-Stale :
      (pid now : ℕ) (token : String) (db after : Db) (b : LeaseAuthority)
      → IsValid db
      → bind_writer_process digest a pid token now db ≡ (ok b, after)
      → Stale a after
  unfolding bind_writer_process bind_process
  bind-Stale pid now token db after b v e =
      elim (Option-cases (find (owns_active digest a) db.leases)) [
        | inl f ↦ absurd (ground arith)
        | inr (x, f) ↦
            Stale-update {b = false} (owns_active digest a) (bind_process pid token)
              owns_active-owns (λ l _. ground arith) db after x v f (ground arith) (ground arith)
      ]

  heartbeat-Stale :
      (ttl_ms : Milliseconds) (now : ℕ) (db after : Db) (b : LeaseAuthority)
      → IsValid db
      → heartbeat_writer_lease digest a ttl_ms now db ≡ (ok b, after)
      → Stale a after
  unfolding heartbeat_writer_lease renew
  heartbeat-Stale ttl_ms now db after b v e = elim (Option-cases (positive ttl_ms)) [
    | inl bad ↦ absurd (ground arith)
    | inr (ttl, good) ↦ elim (Bool-cases (ltb max_time (now + ttl))) [
      | inl late ↦ absurd (ground arith)
      | inr soon ↦ elim (Option-cases (find (owns_live digest a now) db.leases)) [
        | inl f ↦ absurd (ground arith)
        | inr (x, f) ↦
            Stale-update {b = false} (owns_live digest a now) (renew now (now + ttl))
              (owns_live-owns now) (λ l _. ground arith) db after x v f (ground arith)
              (ground arith)
      ]
    ]
  ]

  active-begin_release :
      (l : Lease) → owns_active digest a l ≡ true → Evolves true l (begin_release l)
  unfolding owns_active
  active-begin_release l h = begin_release-Evolves l (ground arith)

  release-Stale :
      (now : ℕ) (db after : Db)
      → IsValid db
      → release_writer_lease digest a now db ≡ (ok tt, after)
      → Stale a after
  unfolding release_writer_lease
  release-Stale now db after v e = elim (Option-cases (find (owns_active digest a) db.leases)) [
    | inl f ↦ absurd (ground arith)
    | inr (x, f) ↦
        let releasing = update (owns_active digest a) begin_release db.leases in
        let second = second_phase digest a (suc x.row_version) in
        let first =
          Stale-update (owns_active digest a) begin_release owns_active-owns active-begin_release db
            (record db { leases = releasing }) x v f refl refl in
        let same : after.leases ≡ update second (finish_release now) releasing = ground arith in
        record {
          handed_out = ground (arith, first.handed_out);
          outdated = rw same (
              Outdated-update a second (finish_release now) (λ l _. finish_release-Evolves now l)
                releasing first.outdated);
        }
  ]

  -- A successful call by the authority's holder.
  pub data Used (db after : Db) : Type 0 where
    bound :
        (pid now : ℕ) (token : String) (b : LeaseAuthority)
        → bind_writer_process digest a pid token now db ≡ (ok b, after)
        → Used db after
    renewed :
        (ttl_ms : Milliseconds) (now : ℕ) (b : LeaseAuthority)
        → heartbeat_writer_lease digest a ttl_ms now db ≡ (ok b, after)
        → Used db after
    let_go : (now : ℕ) → release_writer_lease digest a now db ≡ (ok tt, after) → Used db after

  Used-Stale : (db after : Db) → IsValid db → Used db after → Stale a after
  Used-Stale db after v (bound pid now token b e) = bind-Stale pid now token db after b v e
  Used-Stale db after v (renewed ttl_ms now b e) = heartbeat-Stale ttl_ms now db after b v e
  Used-Stale db after v (let_go now e) = release-Stale now db after v e

  -- An authority works once: after it has bound a process, renewed or released its lease in a valid
  -- database, it is fenced for ever, whatever calls follow; only the authority that the call
  -- returned can go on.
  pub Used-Fenced :
      (db after : Db) (cs : List (ℕ × Call))
      → IsValid db
      → Used db after
      → Fenced digest a (run digest after cs)
  Used-Fenced db after cs v u = run-Fenced digest a after cs (Used-Stale db after v u)

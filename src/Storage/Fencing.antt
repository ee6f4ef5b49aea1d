-- ===== src/Storage/Fencing.antt =====
-- src/storage.ts: what an authority is worth once another call has gone past it.
use superset_agent_orchestra.Base.{
  ltb, inl, inr, Bool-cases, if◌then◌else◌, ◌+◌, suc, ℕ, ◌≤◌, ◌<◌, String, ◌≡◌, sym, ◌∙◌, Bool,
  true, false, none, List, [], ◌∷◌, ◌⊎◌, find, update, nat_eq, string_eq, arith, eq_iff, All,
  All-append, All-select, All-map, All-update, All-false-find,
}
use superset_agent_orchestra.Storage.Db.{
  invalid_argument, Lease, LeaseAuthority, Db, Milliseconds, err, lease_fenced, is_released,
  last_allocated_generation, transaction,
}
use superset_agent_orchestra.Storage.Leases.{
  max_time, ownership_predicate, owns_active, owns_live, bind_writer_process,
  heartbeat_writer_lease, assert_writer_lease, release_writer_lease,
}
use superset_agent_orchestra.Storage.History.{step, run, step-Move}
use superset_agent_orchestra.Storage.Moves.{
  Evolves, Move, keep, evolve, twice, insert, delete, Call,
}
use superset_agent_orchestra.Storage.Invariant.{Move-last-le, last-bump}

-- A row that the authority names is released, or has a later version.
abbrev pub Outdated : LeaseAuthority → Lease → Type 0
Outdated a l =
    l.id ≡ a.lease_id
    → l.workspace_id ≡ a.workspace_id
    → l.generation ≡ a.generation
    → (is_released l.state ≡ true) ⊎ (a.row_version < l.row_version)

-- The authority's generation was handed out, and its row has moved on or is gone.
pub record Stale (a : LeaseAuthority) (db : Db) : Type 0 where
  pub handed_out : a.generation ≤ last_allocated_generation a.workspace_id db.fencing
  pub outdated : All (Outdated a) db.leases

Outdated-Evolves :
    {b : Bool} (a : LeaseAuthority) (l m : Lease) → Evolves b l m → Outdated a l → Outdated a m
Outdated-Evolves a l m e o i w g =
    elim (o (sym e.id ∙ i) (sym e.workspace_id ∙ w) (sym e.generation ∙ g)) [
      | inl r ↦ inl (e.released r)
      | inr v ↦ inr (omega (arith, e.row_version))
    ]

pub Outdated-update :
    {b : Bool} (a : LeaseAuthority) (p : Lease → Bool) (f : Lease → Lease)
    → ((l : Lease) → p l ≡ true → Evolves b l (f l))
    → (ls : List Lease) → All (Outdated a) ls
    → All (Outdated a) (update p f ls)
Outdated-update a p f ev =
    All-update (Outdated a) (Outdated a) p f (λ l o h. Outdated-Evolves a l (f l) (ev l h) o)
      (λ l o h. o)

Move-Stale : {b : Bool} {d e : Db} (a : LeaseAuthority) → Move b d e → Stale a d → Stale a e
Move-Stale a (keep l f) s = record { handed_out = rw f s.handed_out; outdated = rw l s.outdated }
Move-Stale {d} a (evolve p f ev l g) s = record {
  handed_out = rw g s.handed_out;
  outdated = rw l (Outdated-update a p f ev d.leases s.outdated);
}
Move-Stale {d} a (twice p q f g ev ew l h) s = record {
  handed_out = rw h s.handed_out;
  outdated = rw l (Outdated-update a q g ew _ (Outdated-update a p f ev d.leases s.outdated));
}
Move-Stale {b = c} {d} {e} a (insert l w b i g ls fs) s = record {
  handed_out = omega (
    arith,
    s.handed_out,
    Move-last-le {b = c} {d = d} {e = e} a.workspace_id (insert l w b i g ls fs),
  );
  outdated = rw ls (
      All-append (Outdated a) d.leases (l ∷ []) s.outdated (
        (λ _ v x. absurd (
            ground (
              arith,
              s.handed_out,
              g,
              fs,
              v,
              x,
              eq_iff l.workspace_id l.workspace_id,
              last-bump l.workspace_id l.workspace_id d.fencing,
            ))),
        tt,
      ));
}
Move-Stale {d} a (delete p l f _) s = record {
  handed_out = rw f s.handed_out;
  outdated = rw l (All-select (Outdated a) p d.leases s.outdated);
}

module _ (digest : String → String) (a : LeaseAuthority) where
  run-Stale : (db : Db) (cs : List (ℕ × Call)) → Stale a db → Stale a (run digest db cs)
  unfolding run
  run-Stale db [] s = s
  run-Stale db (c ∷ cs) s = run-Stale (step digest db c) cs (Move-Stale a (step-Move digest db c) s)

  not-owns-Outdated : (l : Lease) → Outdated a l → owns_active digest a l ≡ false
  unfolding owns_active ownership_predicate
  not-owns-Outdated l o = elim (Bool-cases (owns_active digest a l)) [
    | inr e ↦ e
    | inl e ↦ absurd (
        ground (
          arith,
          eq_iff l.id a.lease_id,
          eq_iff l.workspace_id a.workspace_id,
          o ((eq_iff l.id a.lease_id).0 (ground arith))
              ((eq_iff l.workspace_id a.workspace_id).0 (ground arith)) (ground arith),
        ))
  ]

  owns_live-active :
      (now : ℕ) (l : Lease) → owns_active digest a l ≡ false → owns_live digest a now l ≡ false
  unfolding owns_active owns_live
  owns_live-active now l h = ground arith

  -- Every operation that an outdated authority could try is refused and changes nothing; a renewal
  -- beyond the range of Date is refused for that.
  abbrev pub Fenced : Db → Type 0
  Fenced db =
      ((now : ℕ) → assert_writer_lease digest a now db ≡ err lease_fenced)
      × ((pid now : ℕ) (token : String)
          → bind_writer_process digest a pid token now db ≡ (err lease_fenced, db))
      × ((ttl now : ℕ)
          → heartbeat_writer_lease digest a (Milliseconds.pos (suc ttl)) now db
            ≡ (err (if ltb max_time (now + suc ttl) then invalid_argument else lease_fenced), db))
      × ((now : ℕ) → release_writer_lease digest a now db ≡ (err lease_fenced, db))

  Stale-Fenced : (db : Db) → Stale a db → Fenced db
  unfolding assert_writer_lease bind_writer_process heartbeat_writer_lease release_writer_lease
  Stale-Fenced db s = (
    λ now. rw (live now, assert_writer_lease),
    λ pid now token. rw (active, bind_writer_process, transaction),
    λ ttl now. elim (Bool-cases (ltb max_time (now + suc ttl))) [
      | inl late ↦ rw (heartbeat_writer_lease, late)
      | inr soon ↦ rw (heartbeat_writer_lease, soon, live now, transaction)
    ],
    λ now. rw (active, release_writer_lease, transaction),
  )
    where
      none_active : All (λ l. owns_active digest a l ≡ false) db.leases
      none_active = All-map (Outdated a) _ not-owns-Outdated db.leases s.outdated

      active : find (owns_active digest a) db.leases ≡ none
      active = All-false-find (owns_active digest a) db.leases none_active

      live : (now : ℕ) → find (owns_live digest a now) db.leases ≡ none
      live now =
          All-false-find (owns_live digest a now) db.leases
            (All-map _ _ (owns_live-active now) db.leases none_active)

  -- Fencing is permanent: once an authority is stale, after any further history it can neither be
  -- asserted, bound, renewed nor released, and the refused calls leave the database as it is.
  pub run-Fenced : (db : Db) (cs : List (ℕ × Call)) → Stale a db → Fenced (run digest db cs)
  run-Fenced db cs s = Stale-Fenced (run digest db cs) (run-Stale db cs s)

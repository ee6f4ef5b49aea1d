-- ===== src/Storage/Admission.antt =====
-- src/storage.ts: who is admitted as a writer, and what never frees a workspace.
use superset_agent_orchestra.Base.{
  ℕ, suc, ◌≤◌, String, ◌≡◌, refl, sym, Bool, true, false, none, List, [], ◌∷◌, ◌++◌, ◌⊎◌, inl, inr,
  any, find, select, update, nat_eq, string_eq, arith, eq_iff, Bool-cases, Option-cases, All,
  All-append, is_blank, find-none-any, All-of-any,
}
use superset_agent_orchestra.Storage.Db.{
  Lease, LeaseAuthority, Db, may_insert, ok, is_released, is_writer, is_blocking,
  last_allocated_generation, bump_generation, transaction, insert_lease,
}
use superset_agent_orchestra.Storage.Leases.{
  WriterRequest, Fresh, positive, new_lease, admit, acquire_writer_lease,
}
use superset_agent_orchestra.Storage.History.{run, step, step-Move}
use superset_agent_orchestra.Storage.Moves.{
  Call, frees, Evolves, Move, keep, evolve, twice, insert, delete,
}
use superset_agent_orchestra.Storage.Invariant.{last-bump}
use superset_agent_orchestra.Storage.Fencing.{Outdated, Fenced, run-Fenced}

Evolves-blocking :
    {b : Bool} (w : String) (l m : Lease)
    → Evolves b l m
    → b ≡ false
    → is_blocking w l ≡ true
    → is_blocking w m ≡ true
unfolding is_blocking
Evolves-blocking w l m e f h = rw (e.workspace_id, e.mode) (ground (arith, e.held f))

any-update-blocking :
    {b : Bool} (w : String) (p : Lease → Bool) (f : Lease → Lease)
    → ((l : Lease) → p l ≡ true → Evolves b l (f l))
    → b ≡ false
    → (ls : List Lease) → any (is_blocking w) ls ≡ true
    → any (is_blocking w) (update p f ls) ≡ true
unfolding any update
any-update-blocking w p f ev k [] h = h
any-update-blocking w p f ev k (l ∷ ls) h = elim (Bool-cases (p l)) [
  | inl t ↦
      ground (arith, t, Evolves-blocking w l (f l) (ev l t) k, any-update-blocking w p f ev k ls)
  | inr t ↦ ground (arith, t, any-update-blocking w p f ev k ls)
]

any-append-left :
    (p : Lease → Bool) (xs ys : List Lease) → any p xs ≡ true → any p (xs ++ ys) ≡ true
unfolding any
any-append-left p [] ys h = cc
any-append-left p (x ∷ xs) ys h = ground (arith, any-append-left p xs ys)

any-select-blocking :
    (w : String) (p : Lease → Bool)
    → ((l : Lease) → p l ≡ false → (is_released l.state ≡ true) ⊎ (is_writer l.mode ≡ false))
    → (ls : List Lease) → any (is_blocking w) ls ≡ true
    → any (is_blocking w) (select p ls) ≡ true
unfolding any select is_blocking
any-select-blocking w p only [] h = h
any-select-blocking w p only (l ∷ ls) h = elim (Bool-cases (p l)) [
  | inl t ↦ ground (arith, t, any-select-blocking w p only ls)
  | inr t ↦ ground (arith, t, only l t, any-select-blocking w p only ls)
]

pub Move-keeps_blocked :
    {b : Bool} {d e : Db} (w : String)
    → Move b d e
    → b ≡ false
    → any (is_blocking w) d.leases ≡ true
    → any (is_blocking w) e.leases ≡ true
Move-keeps_blocked w (keep l f) k h = rw l h
Move-keeps_blocked {d} w (evolve p f ev l g) k h = rw l (any-update-blocking w p f ev k d.leases h)
Move-keeps_blocked {d} w (twice p q f g ev ew l x) k h =
    rw l (any-update-blocking w q g ew k _ (any-update-blocking w p f ev k d.leases h))
Move-keeps_blocked {d} w (insert l x b i g ls fs) k h =
    rw ls (any-append-left (is_blocking w) d.leases (l ∷ []) h)
Move-keeps_blocked {d} w (delete p l f only) k h = rw l (any-select-blocking w p only d.leases h)

module _ (digest : String → String) where
  record Admitted (input : WriterRequest) (fresh : Fresh) (db after : Db) (b : LeaseAuthority)
      : Type 0 where
    was_free : find (is_blocking input.workspace_id) db.leases ≡ none
    for_workspace : b.workspace_id ≡ input.workspace_id
    generation :
        b.generation
        ≡ last_allocated_generation input.workspace_id
            (bump_generation input.workspace_id db.fencing)
    fencing : after.fencing ≡ bump_generation input.workspace_id db.fencing
    lease : Lease
    leases : after.leases ≡ db.leases ++ lease ∷ []
    lease_generation : lease.generation ≡ b.generation
    lease_workspace : lease.workspace_id ≡ input.workspace_id

  admit-Admitted :
      (input : WriterRequest) (fresh : Fresh) (ttl now : ℕ) (db after : Db) (b : LeaseAuthority)
      → find (is_blocking input.workspace_id) db.leases ≡ none
      → transaction (admit digest input fresh ttl now) db ≡ (ok b, after)
      → Admitted input fresh db after b
  unfolding admit insert_lease new_lease
  admit-Admitted input fresh ttl now db after b f e =
      let fencing = bump_generation input.workspace_id db.fencing in
      let l =
        new_lease digest input fresh (last_allocated_generation input.workspace_id fencing) ttl
          now in
      elim (Bool-cases (may_insert l (record db { fencing = fencing }))) [
        | inl free ↦ record {
          was_free = f;
          for_workspace = ground arith;
          generation = ground arith;
          fencing = ground arith;
          lease = l;
          leases = ground arith;
          lease_generation = ground arith;
          lease_workspace = refl;
        }
        | inr taken ↦ absurd (ground arith)
      ]

  acquire-Admitted :
      (input : WriterRequest) (fresh : Fresh) (now : ℕ) (db after : Db) (b : LeaseAuthority)
      → acquire_writer_lease digest input fresh now db ≡ (ok b, after)
      → Admitted input fresh db after b
  unfolding acquire_writer_lease
  acquire-Admitted input fresh now db after b e = elim (Bool-cases (is_blank input.workspace_id)) [
    | inl blank ↦ absurd (ground arith)
    | inr named ↦ elim (Option-cases (positive input.ttl_ms)) [
      | inl bad ↦ absurd (ground arith)
      | inr (ttl, good) ↦ elim (Option-cases (find (is_blocking input.workspace_id) db.leases)) [
        | inr (held, f) ↦ absurd (ground arith)
        | inl f ↦
            admit-Admitted input fresh ttl now db after b f
              (rw (named, good, f, acquire_writer_lease) at e)
      ]
    ]
  ]

  -- An admitted writer takes over a workspace without a blocking lease, and gets the generation
  -- right after the last allocated one, also where earlier leases have been deleted.
  pub acquire-next :
      (input : WriterRequest) (fresh : Fresh) (now : ℕ) (db after : Db) (b : LeaseAuthority)
      → acquire_writer_lease digest input fresh now db ≡ (ok b, after)
      → (any (is_blocking input.workspace_id) db.leases ≡ false)
        × (b.generation ≡ suc (last_allocated_generation input.workspace_id db.fencing))
        × (last_allocated_generation input.workspace_id after.fencing ≡ b.generation)
  acquire-next input fresh now db after b e =
      let a = acquire-Admitted input fresh now db after b e in
      (
        find-none-any (is_blocking input.workspace_id) db.leases a.was_free,
        ground (
          arith,
          a.generation,
          eq_iff input.workspace_id input.workspace_id,
          last-bump input.workspace_id input.workspace_id db.fencing,
        ),
        rw a.fencing (sym a.generation),
      )

  -- In a workspace without a blocking lease every writer row is released.
  free-Outdated :
      (a : LeaseAuthority) (w : String) (l : Lease)
      → a.workspace_id ≡ w
      → (l.id ≡ a.lease_id → is_writer l.mode ≡ true)
      → is_blocking w l ≡ false
      → Outdated a l
  unfolding is_blocking
  free-Outdated a w l same writes free i v g =
      inl (ground (arith, writes i, eq_iff l.workspace_id w))

  All-free-Outdated :
      (a : LeaseAuthority) (w : String) (ls : List Lease)
      → a.workspace_id ≡ w
      → All (λ l. l.id ≡ a.lease_id → is_writer l.mode ≡ true) ls
      → All (λ l. is_blocking w l ≡ false) ls
      → All (Outdated a) ls
  All-free-Outdated a w [] same h f = tt
  All-free-Outdated a w (l ∷ ls) same h f =
      (free-Outdated a w l same h.0 f.0, All-free-Outdated a w ls same h.1 f.1)

  -- Admission of a new writer fences every writer authority that the workspace handed out before,
  -- for ever, whatever state its lease was left in.
  pub acquire_fences_predecessors :
      (input : WriterRequest) (fresh : Fresh) (now : ℕ) (db after : Db) (b a : LeaseAuthority)
      (cs : List (ℕ × Call))
      → acquire_writer_lease digest input fresh now db ≡ (ok b, after)
      → a.workspace_id ≡ input.workspace_id
      → a.generation ≤ last_allocated_generation input.workspace_id db.fencing
      → All (λ l. l.id ≡ a.lease_id → is_writer l.mode ≡ true) db.leases
      → Fenced digest a (run digest after cs)
  acquire_fences_predecessors input fresh now db after b a cs e same older writes =
      let w = input.workspace_id in
      let ad = acquire-Admitted input fresh now db after b e in
      let next = acquire-next input fresh now db after b e in
      run-Fenced digest a after cs (record {
        handed_out = rw same (omega (arith, older, next.1, next.2));
        outdated = rw ad.leases (
            All-append (Outdated a) db.leases (ad.lease ∷ [])
              (All-free-Outdated a w db.leases same writes
                (All-of-any (is_blocking w) db.leases next.0))
              ((λ _ _ g. absurd (omega (arith, older, next.1, ad.lease_generation, g))), tt));
      })

  -- Neither expiry, a lost heartbeat, a quarantine, a refused admission nor a cleanup frees a
  -- workspace: under any call but release, recovery and repair, a blocked one stays blocked.
  pub step-keeps_blocked :
      (db : Db) (c : ℕ × Call) (w : String)
      → frees c.1 ≡ false
      → any (is_blocking w) db.leases ≡ true
      → any (is_blocking w) (step digest db c).leases ≡ true
  step-keeps_blocked db c w f h = Move-keeps_blocked w (step-Move digest db c) f h

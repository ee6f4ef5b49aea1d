-- ===== src/Storage/Invariant.antt =====
-- src/storage.ts: what holds of the leases after any history: one blocking writer for a workspace,
-- and generations that are never used twice.
use superset_agent_orchestra.Base.{
  ℕ, suc, ◌≤◌, String, ◌≡◌, sym, ap, ◌∙◌, ◌≢◌, Bool, true, false, List, [], ◌∷◌, ◌++◌, ◌⊎◌, inl,
  inr, update, ◌==◌, if◌then◌else◌, nat_eq, string_eq, arith, eq_iff, Bool-cases, All, Pairs,
  All-append, All-select, All-map, All-update, All-of-any, Pairs-select,
}
use superset_agent_orchestra.Storage.Db.{
  Lease, Db, is_released, is_writer, is_blocking, last_allocated_generation, bump_generation,
}
use superset_agent_orchestra.Storage.History.{step, run, step-Move}
use superset_agent_orchestra.Storage.Moves.{
  Evolves, Move, keep, evolve, twice, insert, delete, Call,
}

-- Two rows have different ids; two writer rows of one workspace have different generations, and
-- one of them is released.
pub record Apart (l m : Lease) : Type 0 where
  pub ids : l.id ≢ m.id
  pub writers :
      l.workspace_id ≡ m.workspace_id
      → is_writer l.mode ≡ true
      → is_writer m.mode ≡ true
      → (l.generation ≢ m.generation)
        × ((is_released l.state ≡ true) ⊎ (is_released m.state ≡ true))

abbrev pub Allocated : List (String × ℕ) → Lease → Type 0
Allocated fencing l = l.generation ≤ last_allocated_generation l.workspace_id fencing

pub record IsValid (db : Db) : Type 0 where
  pub apart : Pairs Apart db.leases
  pub allocated : All (Allocated db.fencing) db.leases

pub last-bump :
    (w v : String) (fencing : List (String × ℕ))
    → last_allocated_generation v (bump_generation w fencing) ≡ (
        if w == v
        then suc (last_allocated_generation v fencing)
        else last_allocated_generation v fencing)
unfolding last_allocated_generation bump_generation
last-bump w v [] = ground (arith, eq_iff w v)
last-bump w v ((u, g) ∷ rest) =
    ground (arith, eq_iff u w, eq_iff u v, eq_iff w v, last-bump w v rest)

pub last-le-bump :
    (w v : String) (fencing : List (String × ℕ))
    → last_allocated_generation v fencing ≤ last_allocated_generation v (bump_generation w fencing)
last-le-bump w v fencing = ground (arith, last-bump w v fencing)

Apart-left : {b : Bool} (l l' m : Lease) → Evolves b l l' → Apart l m → Apart l' m
Apart-left l l' m e a = record {
  ids = λ p. a.ids (sym e.id ∙ p);
  writers = λ w x y.
      let h = a.writers (sym e.workspace_id ∙ w) (ap is_writer (sym e.mode) ∙ x) y in
      (λ g. h.0 (sym e.generation ∙ g), elim h.1 [ inl r ↦ inl (e.released r) | inr r ↦ inr r ]);
}

Apart-right : {b : Bool} (l m m' : Lease) → Evolves b m m' → Apart l m → Apart l m'
Apart-right l m m' e a = record {
  ids = λ p. a.ids (p ∙ e.id);
  writers = λ w x y.
      let h = a.writers (w ∙ e.workspace_id) x (ap is_writer (sym e.mode) ∙ y) in
      (λ g. h.0 (g ∙ e.generation), elim h.1 [ inl r ↦ inl r | inr r ↦ inr (e.released r) ]);
}

module _ {b : Bool} (p : Lease → Bool) (f : Lease → Lease)
    (ev : (l : Lease) → p l ≡ true → Evolves b l (f l)) where
  Apart-update-right :
      (l : Lease) (ls : List Lease) → All (Apart l) ls → All (Apart l) (update p f ls)
  Apart-update-right l =
      All-update (Apart l) (Apart l) p f (λ m a h. Apart-right l m (f m) (ev m h) a) (λ m a h. a)

  Pairs-update : (ls : List Lease) → Pairs Apart ls → Pairs Apart (update p f ls)
  unfolding update
  Pairs-update [] h = tt
  Pairs-update (l ∷ ls) h = elim (Bool-cases (p l)) [
    | inl e ↦ rw e (
      All-map (Apart l) (Apart (f l)) (λ m a. Apart-left l (f l) m (ev l e) a) (update p f ls)
          (Apart-update-right l ls h.0),
      Pairs-update ls h.1,
    )
    | inr e ↦ rw e (Apart-update-right l ls h.0, Pairs-update ls h.1)
  ]

  Allocated-update :
      (fencing : List (String × ℕ)) (ls : List Lease)
      → All (Allocated fencing) ls
      → All (Allocated fencing) (update p f ls)
  Allocated-update fencing =
      All-update (Allocated fencing) (Allocated fencing) p f
        (λ m a h. let e = ev m h in rw (e.generation, e.workspace_id) a) (λ m a h. a)

Pairs-snoc :
    (l : Lease) (ls : List Lease)
    → Pairs Apart ls
    → All (λ m. Apart m l) ls
    → Pairs Apart (ls ++ l ∷ [])
Pairs-snoc l [] h k = (tt, tt)
Pairs-snoc l (m ∷ ls) h k =
    (All-append (Apart m) ls (l ∷ []) h.0 (k.0, tt), Pairs-snoc l ls h.1 k.1)

-- A row that was there stands apart from a new one of the next generation.
Apart-new :
    (l : Lease) (fencing : List (String × ℕ)) (m : Lease)
    → l.generation
      ≡ last_allocated_generation l.workspace_id (bump_generation l.workspace_id fencing)
    → Allocated fencing m
    → (m.id == l.id) ≡ false
    → is_blocking l.workspace_id m ≡ false
    → Apart m l
unfolding is_blocking
Apart-new l fencing m g a i b = record {
  ids = λ p. ground (arith, eq_iff m.id l.id);
  writers = λ w x y. (
    λ e. ground (
      arith,
      a,
      w,
      eq_iff l.workspace_id l.workspace_id,
      last-bump l.workspace_id l.workspace_id fencing,
    ),
    inl (ground (arith, eq_iff m.workspace_id l.workspace_id)),
  );
}

module _ (l : Lease) (fencing : List (String × ℕ))
    (new_generation : l.generation
      ≡ last_allocated_generation l.workspace_id (bump_generation l.workspace_id fencing)) where
  All-Apart-new :
      (ls : List Lease)
      → All (Allocated fencing) ls
      → All (λ m. (m.id == l.id) ≡ false) ls
      → All (λ m. is_blocking l.workspace_id m ≡ false) ls
      → All (λ m. Apart m l) ls
  All-Apart-new [] a i b = tt
  All-Apart-new (m ∷ ls) a i b =
      (Apart-new l fencing m new_generation a.0 i.0 b.0, All-Apart-new ls a.1 i.1 b.1)

Allocated-bump :
    (w : String) (fencing : List (String × ℕ)) (m : Lease)
    → Allocated fencing m
    → Allocated (bump_generation w fencing) m
Allocated-bump w fencing m a = ground (arith, a, last-le-bump w m.workspace_id fencing)

pub Move-IsValid : {b : Bool} {d e : Db} → Move b d e → IsValid d → IsValid e
Move-IsValid (keep l f) v = record { apart = rw l v.apart; allocated = rw (l, f) v.allocated }
Move-IsValid {d} (evolve p f ev l g) v = record {
  apart = rw l (Pairs-update p f ev d.leases v.apart);
  allocated = rw (l, g) (Allocated-update p f ev d.fencing d.leases v.allocated);
}
Move-IsValid {d} (twice p q f g ev ew l h) v = record {
  apart = rw l (Pairs-update q g ew _ (Pairs-update p f ev d.leases v.apart));
  allocated =
      rw (l, h)
        (Allocated-update q g ew d.fencing _
          (Allocated-update p f ev d.fencing d.leases v.allocated));
}
Move-IsValid {d} (insert l w b i g ls fs) v = record {
  apart = rw ls (
      Pairs-snoc l d.leases v.apart (
        All-Apart-new l d.fencing (g ∙ ap (last_allocated_generation l.workspace_id) fs) d.leases
          v.allocated (All-of-any (λ m. m.id == l.id) d.leases i)
          (All-of-any (is_blocking l.workspace_id) d.leases b)));
  allocated =
      rw (ls, fs)
        (All-append (Allocated _) d.leases (l ∷ [])
          (All-map (Allocated d.fencing) (Allocated _) (Allocated-bump l.workspace_id d.fencing)
            d.leases v.allocated)
          (ground (arith, g, fs), tt));
}
Move-IsValid {d} (delete p l f _) v = record {
  apart = rw l (Pairs-select Apart p d.leases v.apart);
  allocated = rw (l, f) (All-select (Allocated d.fencing) p d.leases v.allocated);
}

pub Move-last-le :
    {b : Bool} {d e : Db} (w : String)
    → Move b d e
    → last_allocated_generation w d.fencing ≤ last_allocated_generation w e.fencing
Move-last-le w (keep l f) = ground (arith, f)
Move-last-le w (evolve p f ev l g) = ground (arith, g)
Move-last-le w (twice p q f g ev ew l h) = ground (arith, h)
Move-last-le {d} w (insert l x b i g ls fs) =
    ground (arith, fs, last-le-bump l.workspace_id w d.fencing)
Move-last-le w (delete p l f _) = ground (arith, f)

module _ (digest : String → String) where
  pub step-IsValid : (db : Db) (c : ℕ × Call) → IsValid db → IsValid (step digest db c)
  step-IsValid db c v = Move-IsValid (step-Move digest db c) v

  -- From a valid registry every history of calls, successful or refused, keeps the lease ids
  -- distinct, at most one writer lease of a workspace that is not released, distinct writer
  -- generations within a workspace, and every generation at or below the last allocated one.
  pub run-IsValid : (db : Db) (cs : List (ℕ × Call)) → IsValid db → IsValid (run digest db cs)
  unfolding run
  run-IsValid db [] v = v
  run-IsValid db (c ∷ cs) v = run-IsValid (step digest db c) cs (step-IsValid db c v)

  pub run-last-le :
      (db : Db) (cs : List (ℕ × Call)) (w : String)
      → last_allocated_generation w db.fencing
        ≤ last_allocated_generation w (run digest db cs).fencing
  unfolding run
  run-last-le db [] w = omega arith
  run-last-le db (c ∷ cs) w =
      omega (arith, Move-last-le w (step-Move digest db c), run-last-le (step digest db c) cs w)

-- ===== src/Adapter/Books.antt =====
-- src/concurrency-limited-agent-adapter.ts: the account of an adapter, and what a recovery knows while
-- it waits for the lookup.
use superset_agent_orchestra.Base.{
  ℕ, ◌+◌, ◌≤◌, String, ◌≡◌, refl, Bool, false, Option, none, some, List, [], ◌∷◌, inl, inr, find,
  count, ◌==◌, nat_eq, string_eq, arith, eq_refl, ap, ◌∙◌, Option-cases, All, All-find,
}
use superset_agent_orchestra.Scheduler.Policy.{Policy}
use superset_agent_orchestra.Scheduler.Queue.{Scheduler}
use superset_agent_orchestra.Adapter.Permits.{
  HeldPermit, Lookup, Adapter, lookup, delete, is_run, is_entry, is_lookup, remove_run,
  remove_lookup, reserved, free, free_some, release_run,
}
use superset_agent_orchestra.Adapter.Core.{Tally, Core, Core-same, Core-free}
use superset_agent_orchestra.Adapter.Maps.{
  is_stored, maybe_point, fresh_count, count-delete, count-remove_run, fresh_count-remove_lookup,
  count-remove_lookup, All-remove_lookup,
}

abbrev Entries : Type 0
Entries = List (String × ℕ)

-- The closures that are stored, and those that launches wait for.
abbrev pub stored : List HeldPermit → Entries → Entries → List Lookup → Tally
stored releases launches recovered lookups t k =
    count (is_stored t k) releases
    + (count (is_entry t k) launches + (count (is_entry t k) recovered + fresh_count lookups t k))

abbrev pub pending : Entries → Tally
pending launching t k = count (is_entry t k) launching

-- A permit that a recovery has found is still kept, and it reserves one only where none is.
pub record Aware (launches recovered : Entries) (l : Lookup) : Type 0 where
  pub unresolved : (t : ℕ) → l.unresolved ≡ some t → lookup l.key launches ≡ some t
  pub retained : lookup l.key recovered ≡ l.retained
  pub fresh :
      (t : ℕ)
      → l.fresh ≡ some t
      → (l.unresolved ≡ none) × ((l.retained ≡ none) × (l.has_permit ≡ false))

pub record Books (sch : Scheduler) (releases : List HeldPermit) (launches recovered : Entries)
    (lookups : List Lookup) (launching : Entries) : Type 0 where
  pub core : Core sch (stored releases launches recovered lookups) (pending launching)
  pub aware : All (Aware launches recovered) lookups
  pub single : (k : String) → count (is_lookup k) lookups ≤ 1

-- Every permit of the scheduler has exactly one closure, and every closure that is stored its permit.
abbrev pub Kept : Adapter → Type 0
Kept st = Books st.scheduler st.releases st.launches st.recovered st.lookups st.launching

pub others-Aware :
    (key : String) (launches launches' recovered recovered' : Entries) (ls : List Lookup)
    → ((j : String) → (j == key) ≡ false → lookup j launches' ≡ lookup j launches)
    → ((j : String) → (j == key) ≡ false → lookup j recovered' ≡ lookup j recovered)
    → count (is_lookup key) ls ≡ 0
    → All (Aware launches recovered) ls
    → All (Aware launches' recovered') ls
unfolding count
others-Aware key launches launches' recovered recovered' [] sl sr e a = tt
others-Aware key launches launches' recovered recovered' (m ∷ ls) sl sr e a =
    let apart : (m.key == key) ≡ false = ground (arith, e) in
    (
      record {
        unresolved = λ t u. ground (arith, sl m.key apart, a.0.unresolved t u);
        retained = ground (arith, sr m.key apart, a.0.retained);
        fresh = a.0.fresh;
      },
      others-Aware key launches launches' recovered recovered' ls sl sr (ground (arith, e)) a.1,
    )

-- The books while a recovery goes on: its row is gone.
pub record Open (l : Lookup) (st : Adapter) : Type 0 where
  pub core :
      Core st.scheduler
        (λ t k.
          stored st.releases st.launches st.recovered st.lookups t k
          + maybe_point l.fresh l.key t k)
        (pending st.launching)
  pub aware : All (Aware st.launches st.recovered) st.lookups
  pub single : (k : String) → count (is_lookup k) st.lookups ≤ 1
  pub alone : count (is_lookup l.key) st.lookups ≡ 0
  pub own : Aware st.launches st.recovered l

pub lookup-Open :
    (key : String) (l : Lookup) (st : Adapter)
    → find (is_lookup key) st.lookups ≡ some l
    → Kept st
    → Open l (record st { lookups = remove_lookup key st.lookups })
lookup-Open key l st e b =
    let rest = remove_lookup key st.lookups in
    record {
      core =
          Core-same (stored st.releases st.launches st.recovered st.lookups) (pending st.launching)
            (λ t k.
              stored st.releases st.launches st.recovered rest t k + maybe_point l.fresh l.key t k)
            (pending st.launching) st.scheduler
            (λ t k. ground (arith, fresh_count-remove_lookup key st.lookups l t k e)) (λ t k. refl)
            b.core;
      aware = All-remove_lookup (Aware st.launches st.recovered) key st.lookups b.aware;
      single = λ k. ground (arith, b.single k, count-remove_lookup key st.lookups l k e);
      alone =
          ground
            (arith, b.single l.key, count-remove_lookup key st.lookups l l.key e, eq_refl l.key);
      own = (All-find (Aware st.launches st.recovered) (is_lookup key) st.lookups b.aware e).0;
    }

-- What the recovery has reserved is what is kept for the key, or what it has reserved itself.
pub reserved-count :
    (l : Lookup) (launches recovered : Entries) (t : ℕ) (k : String)
    → Aware launches recovered l
    → count (is_entry t k) recovered + maybe_point l.fresh l.key t k
      ≡ count (is_entry t k) (delete l.key recovered) + maybe_point (reserved l) l.key t k
reserved-count l launches recovered t k a = elim (Option-cases l.fresh) [
  | inl n ↦ rw (n, ← a.retained) (ground (arith, count-delete l.key recovered t k))
  | inr (u, e) ↦
      let none_kept = a.retained ∙ (a.fresh u e).1.0 in
      rw e (
        ground
          (arith, count-delete l.key recovered t k, ap (λ o. maybe_point o l.key t k) none_kept))
]

module _ (p : Policy) (hooked : Bool) where
  pub free_some-Core :
      (o : Option ℕ) (key : String) (now : ℕ) (before after launching : Tally) (sch : Scheduler)
      → ((t : ℕ) (k : String) → before t k ≡ after t k + maybe_point o key t k)
      → Core sch before launching
      → Core (free_some p hooked o now sch) after launching
  unfolding free_some
  free_some-Core none key now before after launching sch s c =
      Core-same before launching after launching sch (λ t k. ground (arith, s t k)) (λ t k. refl) c
  free_some-Core (some t) key now before after launching sch s c =
      Core-free p hooked before launching t key now after sch s c

  pub release_run-Kept :
      (run : String) (now : ℕ) (st : Adapter) → Kept st → Kept (release_run p hooked run now st)
  unfolding release_run free
  release_run-Kept run now st b = elim (Option-cases (find (is_run run) st.releases)) [
    | inl n ↦ rw (n, release_run) b
    | inr (h, e) ↦
        rw (e, release_run)
          (record {
            core =
                Core-free p hooked (stored st.releases st.launches st.recovered st.lookups)
                  (pending st.launching) h.ticket h.key now
                  (stored (remove_run run st.releases) st.launches st.recovered st.lookups)
                  st.scheduler (λ t k. ground (arith, count-remove_run run st.releases h t k e))
                  b.core;
            aware = b.aware;
            single = b.single;
          })
  ]

-- ===== src/Adapter/Recoveries.antt =====
-- src/concurrency-limited-agent-adapter.ts: the account is kept when a recovery begins.
use superset_agent_orchestra.Base.{
  ℕ, ◌≤◌, String, ◌≡◌, refl, sym, subst, ap, Bool, true, false, Option, none, some, List, [], ◌∷◌,
  inl, inr, any, count, ◌==◌, nat_eq, string_eq, eq_iff, arith, Bool-cases,
}
use superset_agent_orchestra.Scheduler.Policy.{Policy, Request, valid_request}
use superset_agent_orchestra.Scheduler.Queue.{
  Scheduler, Refusal, duplicate, invalid, issued, refused, acquire_existing, is_known, adopt,
}
use superset_agent_orchestra.Adapter.Permits.{
  Lookup, Adapter, lookup, is_lookup, is_none, is_recovering,
}
use superset_agent_orchestra.Adapter.Recovery.{is_unknown, read_key, recover, enter_recovery}
use superset_agent_orchestra.Adapter.Core.{Core-same}
use superset_agent_orchestra.Adapter.Admitted.{Core-adopted}
use superset_agent_orchestra.Adapter.Books.{stored, pending, Aware, Kept}

pub is_none-none : {A : Type 0} → (o : Option A) → is_none o ≡ true → o ≡ none
is_none-none none e = refl
is_none-none (some a) e = absurd (ground (arith, e))

any-lookup :
    (key : String) (ls : List Lookup)
    → any (is_lookup key) ls ≡ false
    → count (is_lookup key) ls ≡ 0
unfolding any count
any-lookup key [] e = refl
any-lookup key (l ∷ ls) e = ground (arith, e, any-lookup key ls (ground (arith, e)))

-- What `acquireExisting` does: it refuses, or it adopts an id that is not known.
data Adopted (r : Request) (sch : Scheduler) : Type 0 where
  rejected : (why : Refusal) → acquire_existing r sch ≡ (refused why, sch) → Adopted r sch
  accepted :
      is_known r.id sch ≡ false
      → acquire_existing r sch ≡ (issued sch.next_ticket, adopt r sch)
      → Adopted r sch

acquire_existing-Adopted : (r : Request) (sch : Scheduler) → Adopted r sch
unfolding acquire_existing
acquire_existing-Adopted r sch = elim (Bool-cases (valid_request r)) [
  | inr e ↦ rejected invalid (rw (e, acquire_existing) refl)
  | inl e ↦ elim (Bool-cases (is_known r.id sch)) [
    | inl k ↦ rejected duplicate (rw (e, k, acquire_existing) refl)
    | inr k ↦ accepted k (rw (e, k, acquire_existing) refl)
  ]
]

read-Aware : (key : String) (st : Adapter) → Aware st.launches st.recovered (read_key key none st)
unfolding read_key
read-Aware key st = record {
  unresolved = λ t e. e;
  retained = refl;
  fresh = λ t e. absurd (ground (arith, e));
}

read-fresh :
    (key : String) (t : ℕ) (st : Adapter)
    → is_unknown key st ≡ true
    → Aware st.launches st.recovered (read_key key (some t) st)
unfolding read_key is_unknown
read-fresh key t st u =
    let l = read_key key none st in
    record {
      unresolved = λ t e. e;
      retained = refl;
      fresh = λ t e. (
        is_none-none (lookup key st.launches) (ground (arith, u)),
        (is_none-none (lookup key st.recovered) (ground (arith, u)), ground (arith, u)),
      );
    }

read-single :
    (key k : String) (fresh : Option ℕ) (st : Adapter)
    → count (is_lookup key) st.lookups ≡ 0
    → count (is_lookup k) st.lookups ≤ 1
    → count (is_lookup k) (read_key key fresh st ∷ st.lookups) ≤ 1
unfolding count read_key
read-single key k fresh st e l = elim (Bool-cases (key == k)) [
  | inr n ↦ ground (arith, n, l)
  | inl y ↦
      let same = (eq_iff key k).0 y in
      ground (arith, y, e, ap (λ x. count (is_lookup x) st.lookups) same)
]

module _ (p : Policy) (hooked : Bool) where
  pub recover-Kept :
      (scope_of : String → Request) (key : String) (st : Adapter)
      → Kept st
      → Kept (recover scope_of key st).1
  unfolding recover enter_recovery
  recover-Kept scope_of key st b =
      let r = record (scope_of key) { id = key } in
      elim (Bool-cases (is_recovering key st)) [
        | inl g ↦ rw (g, recover) b
        | inr g ↦
            let free_key : count (is_lookup key) st.lookups ≡ 0 =
              any-lookup key st.lookups (unfold is_recovering in ground (arith, g)) in
            elim (Bool-cases (is_unknown key st)) [
              | inr u ↦
                  rw (g, u, recover)
                    (record {
                      core =
                          Core-same (stored st.releases st.launches st.recovered st.lookups)
                            (pending st.launching)
                            (stored st.releases st.launches st.recovered
                              (read_key key none st ∷ st.lookups))
                            (pending st.launching) st.scheduler
                            (λ t k. unfold read_key in ground arith) (λ t k. refl) b.core;
                      aware = (read-Aware key st, b.aware);
                      single = λ k. read-single key k none st free_key (b.single k);
                    })
              | inl u ↦ elim (acquire_existing-Adopted r st.scheduler) [
                | rejected why e ↦
                    rw (g, u, recover) (subst (λ x. Kept (enter_recovery key x st).1) (sym e) b)
                | accepted k e ↦
                    rw (g, u, recover)
                      (subst (λ x. Kept (enter_recovery key x st).1) (sym e)
                        (record {
                          core =
                              Core-adopted p hooked
                                (stored st.releases st.launches st.recovered st.lookups)
                                (pending st.launching) r
                                (stored st.releases st.launches st.recovered
                                  (read_key key (some st.scheduler.next_ticket) st ∷ st.lookups))
                                st.scheduler k (λ t j. unfold read_key in ground arith) b.core;
                          aware = (read-fresh key st.scheduler.next_ticket st u, b.aware);
                          single = λ k.
                              read-single key k (some st.scheduler.next_ticket) st free_key
                                (b.single k);
                        }))
              ]
            ]
      ]

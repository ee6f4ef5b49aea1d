-- ===== src/Adapter/Lookups.antt =====
-- src/concurrency-limited-agent-adapter.ts: the account is kept when the lookup of a recovery
-- is answered.
use superset_agent_orchestra.Base.{
  ℕ, ◌+◌, String, ◌≡◌, refl, sym, ap, ◌∙◌, Bool, true, false, ◌||◌, not, none, some, List, ◌∷◌, inl,
  inr, any, find, count, ◌==◌, nat_eq, string_eq, arith, Bool-cases, Option-cases,
}
use superset_agent_orchestra.Scheduler.Policy.{Policy}
use superset_agent_orchestra.Scheduler.Queue.{Scheduler, release}
use superset_agent_orchestra.Adapter.Permits.{
  HeldPermit, Lookup, Adapter, Found, threw, absent, present, lookup, delete, assign, is_run,
  is_lookup, is_none, reserved, free, free_some, bind_run, inspect, unmark, remove_lookup,
}
use superset_agent_orchestra.Adapter.Recovery.{
  is_bound, keep_recovery, forget, resolve_launch, give_back, restore, answer_lookup, looked,
}
use superset_agent_orchestra.Adapter.Core.{Tally, point, Core, Core-same, Core-free}
use superset_agent_orchestra.Adapter.Maps.{maybe_point, count-delete, lookup-delete, lookup-assign}
use superset_agent_orchestra.Adapter.Books.{
  stored, pending, Books, Kept, Open, lookup-Open, reserved-count, free_some-Core, release_run-Kept,
  others-Aware,
}
use superset_agent_orchestra.Adapter.Recoveries.{is_none-none}

-- A run is bound to no other key.
unfoldable pub is_free : String → String → List HeldPermit → Bool
is_free key run releases = elim (find (is_run run) releases) [ none ↦ true | some h ↦ h.key == key ]

-- What the account asks of the answer to a lookup: where there is no run, no launch of the key has
-- failed after the recovery began; and the run of a launch that had not resolved is bound to no other
-- key.
unfoldable pub is_sound : Lookup → Found → List (String × ℕ) → List HeldPermit → Bool
unfolding is_free
is_sound l threw launches releases = true
is_sound l absent launches releases = not (is_none l.unresolved) || is_none (lookup l.key launches)
is_sound l (present run) launches releases = is_none l.unresolved || is_free l.key run releases

unfoldable pub is_sound_answer : String → Found → Adapter → Bool
unfolding is_sound
is_sound_answer key answer st = elim (find (is_lookup key) st.lookups) [
  | none ↦ true
  | some l ↦ is_sound l answer st.launches st.releases
]

-- The recovery ends: only its own key has changed.
close :
    (l : Lookup) (st : Adapter) (sch : Scheduler) (releases : List HeldPermit)
    (launches recovered : List (String × ℕ))
    → Open l st
    → ((j : String) → (j == l.key) ≡ false → lookup j launches ≡ lookup j st.launches)
    → ((j : String) → (j == l.key) ≡ false → lookup j recovered ≡ lookup j st.recovered)
    → Core sch (stored releases launches recovered st.lookups) (pending st.launching)
    → Books sch releases launches recovered st.lookups st.launching
close l st sch releases launches recovered o sl sr c = record {
  core = c;
  aware =
      others-Aware l.key st.launches launches st.recovered recovered st.lookups sl sr o.alone
        o.aware;
  single = o.single;
}

reserved-none : (l : Lookup) → reserved l ≡ none → l.fresh ≡ none
reserved-none l e = elim (Option-cases l.fresh) [
  | inl n ↦ n
  | inr (t, s) ↦ absurd (ground (arith, rw s at e))
]

module _ (l : Lookup) (st : Adapter) (o : Open l st) where
  abbrev Total : Tally
  Total t k =
      stored st.releases st.launches st.recovered st.lookups t k + maybe_point l.fresh l.key t k

  close-same : l.fresh ≡ none → Kept st
  close-same n =
      close l st st.scheduler st.releases st.launches st.recovered o (λ j e. refl) (λ j e. refl)
        (Core-same Total (pending st.launching)
          (stored st.releases st.launches st.recovered st.lookups) (pending st.launching)
          st.scheduler (λ t k. ground (arith, ap (λ x. maybe_point x l.key t k) n)) (λ t k. refl)
          o.core)

  bound-Kept : (run : String) → is_bound l run ≡ true → Kept st
  unfolding is_bound
  bound-Kept run e = elim (Option-cases l.fresh) [
    | inl n ↦ close-same n
    | inr (t, s) ↦ elim (Option-cases l.bound) [
      | inl b ↦ absurd (ground (arith, rw (b, is_bound) at e))
      | inr (r, b) ↦ absurd (ground (arith, rw (b, is_bound) at e, (o.own.fresh t s).1.1))
    ]
  ]

  keep_recovery-Kept : Kept (keep_recovery l st)
  unfolding keep_recovery assign
  keep_recovery-Kept = elim (Option-cases (reserved l)) [
    | inl n ↦ rw (n, keep_recovery) (close-same (reserved-none l n))
    | inr (u, e) ↦
        let more = assign l.key u st.recovered in
        rw (e, keep_recovery)
          (close l st st.scheduler st.releases st.launches more o (λ j e. refl)
            (λ j n. lookup-assign j l.key u st.recovered n)
            (Core-same Total (pending st.launching) (stored st.releases st.launches more st.lookups)
              (pending st.launching) st.scheduler
              (λ t k.
                unfold count in
                ground (
                  arith,
                  reserved-count l st.launches st.recovered t k o.own,
                  ap (λ x. maybe_point x l.key t k) e,
                ))
              (λ t k. refl) o.core))
  ]

  module _ (p : Policy) (hooked : Bool) (now : ℕ) where
    -- A lookup without a run leaves nothing, if no launch has failed meanwhile.
    forget-Kept : lookup l.key st.launches ≡ l.unresolved → Kept (forget p hooked l now st)
    unfolding forget
    forget-Kept e =
        let launches = delete l.key st.launches in
        let recovered = delete l.key st.recovered in
        let middle : Tally = λ t k.
          stored st.releases launches st.recovered st.lookups t k + maybe_point l.fresh l.key t k in
        let freed = free_some p hooked l.unresolved now st.scheduler in
        let scheduler = free_some p hooked (reserved l) now freed in
        let back = record st {
          scheduler = scheduler;
          launches = launches;
          recovered = recovered;
        } in
        let after : Tally = stored st.releases launches recovered st.lookups in
        let first =
          free_some-Core p hooked l.unresolved l.key now Total middle (pending st.launching)
            st.scheduler
            (λ t k.
              ground
                (arith, count-delete l.key st.launches t k, ap (λ x. maybe_point x l.key t k) e))
            o.core in
        let second =
          free_some-Core p hooked (reserved l) l.key now middle after (pending st.launching) freed
            (λ t k. ground (arith, reserved-count l st.launches st.recovered t k o.own)) first in
        let kept : Kept back =
          close l st scheduler st.releases launches recovered o
            (λ j n. lookup-delete j l.key st.launches n)
            (λ j n. lookup-delete j l.key st.recovered n) second in
        elim (Option-cases l.bound) [
          | inl n ↦ rw (n, forget) kept
          | inr (run, n) ↦ rw (n, forget) (release_run-Kept p hooked run now back kept)
        ]

    -- The launch that is resolved has left the map, and its closure is to be placed.
    abbrev Placed : ℕ → Tally
    Placed t u k =
        stored st.releases (delete l.key st.launches) st.recovered st.lookups u k
        + point t l.key u k

    unresolved-Core :
        (t : ℕ) → l.unresolved ≡ some t → Core st.scheduler (Placed t) (pending st.launching)
    unresolved-Core t e = elim (Option-cases l.fresh) [
      | inr (u, s) ↦ absurd (ground (arith, e, (o.own.fresh u s).0))
      | inl n ↦
          Core-same Total (pending st.launching) (Placed t) (pending st.launching) st.scheduler
            (λ u k. ground (
              arith,
              count-delete l.key st.launches u k,
              ap (λ x. maybe_point x l.key u k) n,
              ap (λ x. maybe_point x l.key u k) (o.own.unresolved t e),
            ))
            (λ u k. refl) o.core
    ]

    resolve_launch-Kept :
        (run : String) (t : ℕ)
        → l.unresolved ≡ some t
        → is_free l.key run st.releases ≡ true
        → Kept (resolve_launch p hooked l run t now st).1
    unfolding resolve_launch is_free inspect bind_run free
    resolve_launch-Kept run t e f =
        let launches = delete l.key st.launches in
        elim (Option-cases (find (is_run run) st.releases)) [
          | inl n ↦
              let releases = record { run = run; key = l.key; ticket = t } ∷ st.releases in
              rw (n, resolve_launch)
                (close l st st.scheduler releases launches st.recovered o
                  (λ j n. lookup-delete j l.key st.launches n) (λ j n. refl)
                  (Core-same (Placed t) (pending st.launching)
                    (stored releases launches st.recovered st.lookups) (pending st.launching)
                    st.scheduler (λ u k. unfold count in ground arith) (λ u k. refl)
                    (unresolved-Core t e)))
          | inr (h, n) ↦
              let own : (h.key == l.key) ≡ true = rw (n, is_free) at f in
              rw (n, own, resolve_launch)
                (close l st (release p hooked t now st.scheduler) st.releases launches st.recovered
                  o (λ j n. lookup-delete j l.key st.launches n) (λ j n. refl)
                  (Core-free p hooked (Placed t) (pending st.launching) t l.key now
                    (stored st.releases launches st.recovered st.lookups) st.scheduler (λ u k. refl)
                    (unresolved-Core t e)))
        ]

    give_back-Kept : (h : HeldPermit) (run : String) → Kept (give_back p hooked l h run now st).1
    unfolding give_back
    give_back-Kept h run =
        let recovered = delete l.key st.recovered in
        let kept =
          close l st (free_some p hooked (reserved l) now st.scheduler) st.releases st.launches
            recovered o (λ j n. refl) (λ j n. lookup-delete j l.key st.recovered n)
            (free_some-Core p hooked (reserved l) l.key now Total
              (stored st.releases st.launches recovered st.lookups) (pending st.launching)
              st.scheduler
              (λ t k. ground (arith, reserved-count l st.launches st.recovered t k o.own))
              o.core) in
        elim (Bool-cases (h.key == l.key)) [
          | inl e ↦ rw (e, give_back) kept
          | inr e ↦ rw (e, give_back) kept
        ]

    restore-Kept : (run : String) → Kept (restore p hooked l run now st).1
    unfolding restore unmark inspect bind_run free
    restore-Kept run = elim (Option-cases (reserved l)) [
      | inl n ↦ rw (n, restore) (close-same (reserved-none l n))
      | inr (t, e) ↦
          let recovered = delete l.key st.recovered in
          elim (Bool-cases (any (λ r. r == run) st.terminal)) [
            | inl d ↦
                rw (e, d, restore)
                  (close l st (release p hooked t now st.scheduler) st.releases st.launches
                    recovered o (λ j n. refl) (λ j n. lookup-delete j l.key st.recovered n)
                    (Core-free p hooked Total (pending st.launching) t l.key now
                      (stored st.releases st.launches recovered st.lookups) st.scheduler
                      (λ u k. ground (
                        arith,
                        reserved-count l st.launches st.recovered u k o.own,
                        ap (λ x. maybe_point x l.key u k) e,
                      ))
                      o.core))
            | inr d ↦
                rw (e, d, restore)
                  (close l st st.scheduler
                    (record { run = run; key = l.key; ticket = t } ∷ st.releases) st.launches
                    recovered o (λ j n. refl) (λ j n. lookup-delete j l.key st.recovered n)
                    (Core-same Total (pending st.launching)
                      (stored (record { run = run; key = l.key; ticket = t } ∷ st.releases)
                        st.launches recovered st.lookups)
                      (pending st.launching) st.scheduler
                      (λ u k.
                        unfold count in
                        ground (
                          arith,
                          reserved-count l st.launches st.recovered u k o.own,
                          ap (λ x. maybe_point x l.key u k) e,
                        ))
                      (λ u k. refl) o.core))
          ]
    ]

    answer_lookup-Kept :
        (answer : Found)
        → is_sound l answer st.launches st.releases ≡ true
        → Kept (answer_lookup p hooked l answer now st).1
    unfolding answer_lookup is_sound
    answer_lookup-Kept threw e = keep_recovery-Kept
    answer_lookup-Kept absent e = elim (Option-cases l.unresolved) [
      | inl n ↦
          let free_key =
            is_none-none (lookup l.key st.launches) (ground (arith, rw (n, is_sound) at e)) in
          forget-Kept (free_key ∙ sym n)
      | inr (t, n) ↦ forget-Kept (o.own.unresolved t n ∙ sym n)
    ]
    answer_lookup-Kept (present run) e = elim (Option-cases l.unresolved) [
      | inr (t, n) ↦
          rw (n, answer_lookup)
            (resolve_launch-Kept run t n (ground (arith, rw (n, is_sound) at e)))
      | inl n ↦ elim (Option-cases (find (is_run run) st.releases)) [
        | inr (h, f) ↦ rw (n, f, answer_lookup) (give_back-Kept h run)
        | inl f ↦ elim (Bool-cases (is_bound l run)) [
          | inl b ↦ rw (n, f, b, answer_lookup) (bound-Kept run b)
          | inr b ↦ rw (n, f, b, answer_lookup) (restore-Kept run)
        ]
      ]
    ]

module _ (p : Policy) (hooked : Bool) where
  pub looked-Kept :
      (key : String) (answer : Found) (now : ℕ) (st : Adapter)
      → is_sound_answer key answer st ≡ true
      → Kept st
      → Kept (looked p hooked key answer now st).1
  unfolding looked is_sound_answer is_sound
  looked-Kept key answer now st e b = elim (Option-cases (find (is_lookup key) st.lookups)) [
    | inl n ↦ rw (n, looked) b
    | inr (l, n) ↦
        let rest = record st { lookups = remove_lookup key st.lookups } in
        rw (n, looked)
          (answer_lookup-Kept l rest (lookup-Open key l st n b) p hooked now answer
            (rw (n, is_sound_answer) at e))
  ]

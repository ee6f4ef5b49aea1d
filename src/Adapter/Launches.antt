-- ===== src/Adapter/Launches.antt =====
-- src/concurrency-limited-agent-adapter.ts: the account is kept by a launch and by its answer.
use superset_agent_orchestra.Base.{
  ℕ, ◌+◌, ◌≤◌, String, ◌≡◌, refl, sym, subst, ap, ◌∙◌, Bool, true, false, Option, none, some, List,
  [], ◌∷◌, inl, inr, any, find, count, ◌==◌, nat_eq, string_eq, eq_iff, eq_refl, arith, Bool-cases,
  Option-cases, All-map,
}
use superset_agent_orchestra.Scheduler.Policy.{Policy, Request}
use superset_agent_orchestra.Scheduler.Ids.{names}
use superset_agent_orchestra.Scheduler.Queue.{
  Pending, Scheduler, Refusal, issued, refused, acquire, refusal, drain, enqueue, release,
}
use superset_agent_orchestra.Adapter.Permits.{
  Adapter, lookup, delete, assign, is_run, is_entry, remove_launching, grants, keep_launch,
  bind_run, free, launch, enter_launch, settle_launch, launched,
}
use superset_agent_orchestra.Adapter.Growth.{held, waits_for}
use superset_agent_orchestra.Adapter.Core.{Tally, point, Core, Core-free, Core-store, Core-drop}
use superset_agent_orchestra.Adapter.Admitted.{Core-acquired}
use superset_agent_orchestra.Adapter.Maps.{
  maybe_point, apart-sym, count-delete, lookup-delete, count-remove_launching,
}
use superset_agent_orchestra.Adapter.Books.{stored, pending, Aware, Kept}

two_tickets :
    (t u : ℕ) (k : String) (hs : List (ℕ × String))
    → (t == u) ≡ false
    → held t k hs + held u k hs ≤ count (names k) hs
unfolding count
two_tickets t u k [] e = ground arith
two_tickets t u k ((s, w) ∷ hs) e = ground (arith, two_tickets t u k hs e)

any-held :
    (t : ℕ) (k : String) (hs : List (ℕ × String)) → any (grants t k) hs ≡ true → 1 ≤ held t k hs
unfolding any count
any-held t k [] e = absurd (ground arith)
any-held t k (h ∷ hs) e = elim (Bool-cases (grants t k h)) [
  | inl y ↦ ground (arith, y)
  | inr n ↦ ground (arith, n, any-held t k hs (ground (arith, n, e)))
]

any-unheld :
    (t : ℕ) (k : String) (hs : List (ℕ × String)) → any (grants t k) hs ≡ false → held t k hs ≡ 0
unfolding any count
any-unheld t k [] e = refl
any-unheld t k (h ∷ hs) e = ground (arith, e, any-unheld t k hs (ground (arith, e)))

not-waits :
    (t : ℕ) (k : String) (qs : List Pending)
    → any (λ (q : Pending). q.ticket == t) qs ≡ false
    → count (waits_for t k) qs ≡ 0
unfolding any count
not-waits t k [] e = refl
not-waits t k (q ∷ qs) e = ground (arith, e, not-waits t k qs (ground (arith, e)))

-- While a launch holds the permit of its key, no other closure is kept for the key.
no_launch :
    (key : String) (t u : ℕ) (st : Adapter)
    → any (is_entry t key) st.launching ≡ true
    → any (grants t key) st.scheduler.permits ≡ true
    → Kept st
    → lookup key st.launches ≡ some u
    → ⊥
no_launch key t u st w h b e =
    let hs = st.scheduler.permits in
    let c = b.core in
    let here = count-delete key st.launches u key in
    let found : maybe_point (lookup key st.launches) key u key ≡ 1 =
      ap (λ o. maybe_point o key u key) e ∙ ground (arith, eq_refl key) in
    let kept : 1 ≤ held u key hs = ground (arith, here, found, c.backed u key) in
    elim (Bool-cases (t == u)) [
      | inr n ↦
          ground (arith, kept, any-held t key hs h, two_tickets t u key hs n, c.unique.single key)
      | inl y ↦
          let same : t ≡ u = ground (arith, y) in
          let waits = count-remove_launching t key st.launching u key w in
          ground (arith, here, found, waits, y, eq_refl key, c.once u key)
    ]

module _ (p : Policy) (hooked : Bool) where
  acquire-refused :
      (r : Request) (now : ℕ) (why : Refusal) (sch : Scheduler)
      → refusal p hooked r false false sch ≡ some why
      → acquire p hooked r false false now sch ≡ (refused why, sch)
  unfolding acquire
  acquire-refused r now why sch n = rw (n, acquire) refl

  acquire-issued :
      (r : Request) (now : ℕ) (sch : Scheduler)
      → refusal p hooked r false false sch ≡ none
      → acquire p hooked r false false now sch
        ≡ (issued sch.next_ticket, drain p hooked now (enqueue r false now sch))
  unfolding acquire
  acquire-issued r now sch n = rw (n, acquire) refl

  pub launch-Kept :
      (key : String) (scope : Request) (now : ℕ) (st : Adapter)
      → Kept st
      → Kept (launch p hooked key scope now st).1
  unfolding launch enter_launch
  launch-Kept key scope now st b =
      let r = record scope { id = key } in
      elim (Option-cases (refusal p hooked r false false st.scheduler)) [
        | inr (why, n) ↦
            subst (λ x. Kept (enter_launch key x st).1)
              (sym (acquire-refused r now why st.scheduler n)) b
        | inl n ↦
            subst (λ x. Kept (enter_launch key x st).1) (sym (acquire-issued r now st.scheduler n))
              (record {
                core =
                    Core-acquired p hooked (stored st.releases st.launches st.recovered st.lookups)
                      (pending st.launching) r now
                      (pending ((key, st.scheduler.next_ticket) ∷ st.launching)) st.scheduler n
                      (λ t k. unfold count in ground arith) b.core;
                aware = b.aware;
                single = b.single;
              })
      ]

  keep_launch-Kept :
      (key : String) (t : ℕ) (st : Adapter)
      → any (is_entry t key) st.launching ≡ true
      → any (grants t key) st.scheduler.permits ≡ true
      → Kept st
      → Kept (keep_launch key t (record st { launching = remove_launching t key st.launching }))
  unfolding keep_launch assign lookup
  keep_launch-Kept key t st w h b = elim (Option-cases (lookup key st.launches)) [
    | inr (u, e) ↦ absurd (no_launch key t u st w h b e)
    | inl n ↦
        let kept = (key, t) ∷ delete key st.launches in
        record {
          core =
              Core-store (stored st.releases st.launches st.recovered st.lookups)
                (pending st.launching) t key (stored st.releases kept st.recovered st.lookups)
                (pending (remove_launching t key st.launching)) st.scheduler
                (any-held t key st.scheduler.permits h)
                (λ u k.
                  unfold count in
                  ground
                    (arith, count-delete key st.launches u k, ap (λ o. maybe_point o key u k) n))
                (λ u k. count-remove_launching t key st.launching u k w) b.core;
          aware =
              All-map (Aware st.launches st.recovered) (Aware kept st.recovered)
                (λ l a. record {
                  unresolved = λ u e. elim (Bool-cases (key == l.key)) [
                    | inl y ↦
                        let same : key ≡ l.key = (eq_iff key l.key).0 y in
                        absurd (ground (arith, a.unresolved u e, rw same at n))
                    | inr y ↦
                        rw (y, lookup)
                          (lookup-delete l.key key st.launches (apart-sym key l.key y)
                            ∙ a.unresolved u e)
                  ];
                  retained = a.retained;
                  fresh = a.fresh;
                })
                st.lookups b.aware;
          single = b.single;
        }
  ]

  -- The run has a closure already: that of the launch is called.
  freed-Core :
      (key : String) (t now : ℕ) (st : Adapter)
      → any (is_entry t key) st.launching ≡ true
      → any (grants t key) st.scheduler.permits ≡ true
      → Kept st
      → Core
          (release p hooked t now st.scheduler)
          (stored st.releases st.launches st.recovered st.lookups)
          (pending (remove_launching t key st.launching))
  freed-Core key t now st w h b =
      let before = stored st.releases st.launches st.recovered st.lookups in
      let left = pending (remove_launching t key st.launching) in
      let more : Tally = λ u k. before u k + point t key u k in
      Core-free p hooked more left t key now before st.scheduler (λ u k. refl)
        (Core-store before (pending st.launching) t key more left st.scheduler
          (any-held t key st.scheduler.permits h) (λ u k. refl)
          (λ u k. count-remove_launching t key st.launching u k w) b.core)

  settle_launch-Kept :
      (key : String) (t : ℕ) (answer : Option String) (now : ℕ) (st : Adapter)
      → any (is_entry t key) st.launching ≡ true
      → any (grants t key) st.scheduler.permits ≡ true
      → Kept st
      → Kept
          (settle_launch p hooked key t answer now
            (record st { launching = remove_launching t key st.launching })).1
  unfolding settle_launch bind_run free
  settle_launch-Kept key t none now st w h b = keep_launch-Kept key t st w h b
  settle_launch-Kept key t (some run) now st w h b =
      elim (Option-cases (find (is_run run) st.releases)) [
        | inl n ↦
            rw (n, settle_launch)
              (record {
                core =
                    Core-store (stored st.releases st.launches st.recovered st.lookups)
                      (pending st.launching) t key
                      (stored (record { run = run; key = key; ticket = t } ∷ st.releases)
                        st.launches st.recovered st.lookups)
                      (pending (remove_launching t key st.launching)) st.scheduler
                      (any-held t key st.scheduler.permits h) (λ u k. unfold count in ground arith)
                      (λ u k. count-remove_launching t key st.launching u k w) b.core;
                aware = b.aware;
                single = b.single;
              })
        | inr (g, n) ↦ elim (Bool-cases (g.key == key)) [
          | inr e ↦ rw (n, e, settle_launch) (keep_launch-Kept key t st w h b)
          | inl e ↦
              rw (n, e, settle_launch)
                (record {
                  core = freed-Core key t now st w h b;
                  aware = b.aware;
                  single = b.single;
                })
        ]
      ]

  pub launched-Kept :
      (key : String) (t : ℕ) (answer : Option String) (now : ℕ) (st : Adapter)
      → Kept st
      → Kept (launched p hooked key t answer now st).1
  unfolding launched
  launched-Kept key t answer now st b = elim (Bool-cases (any (is_entry t key) st.launching)) [
    | inr w ↦ rw (w, launched) b
    | inl w ↦ elim (Bool-cases (any (grants t key) st.scheduler.permits)) [
      | inl h ↦ rw (w, h, launched) (settle_launch-Kept key t answer now st w h b)
      | inr h ↦ elim (Bool-cases (any (λ (q : Pending). q.ticket == t) st.scheduler.waiting)) [
        | inl q ↦ rw (w, h, q, launched) b
        | inr q ↦
            rw (w, h, q, launched)
              (record {
                core =
                    Core-drop (stored st.releases st.launches st.recovered st.lookups)
                      (pending st.launching) t key (pending (remove_launching t key st.launching))
                      st.scheduler
                      (ground (
                        arith,
                        any-unheld t key st.scheduler.permits h,
                        not-waits t key st.scheduler.waiting q,
                      ))
                      (λ u k. count-remove_launching t key st.launching u k w) b.core;
                aware = b.aware;
                single = b.single;
              })
      ]
    ]
  ]

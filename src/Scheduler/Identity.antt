-- ===== src/Scheduler/Identity.antt =====
-- src/concurrency-scheduler.ts: an id stands for one request at a time.
use superset_agent_orchestra.Base.{
  ℕ, ◌+◌, ◌≤◌, String, ◌≡◌, refl, ap, Bool, false, ◌||◌, none, some, List, [], ◌∷◌, find, inl, inr,
  count, ltb, ◌==◌, if◌then◌else◌, nat_eq, string_eq, eq_iff, eq_refl, arith, Bool-cases,
  Option-cases,
}
use superset_agent_orchestra.Scheduler.Policy.{Policy, Request, put, is_blocked}
use superset_agent_orchestra.Scheduler.Events.{Invariant, run-keeps}
use superset_agent_orchestra.Scheduler.Settlement.{has_ticket, count-append, count-without}
use superset_agent_orchestra.Scheduler.Queue.{
  Pending, Outcome, Scheduler, Answer, Decision, pressure, is_waiting, rejects, is_known, admit,
  settle, drain_queue, drain, decide, resume, postpone, enqueue, queued, adopt, withdraw, revoke,
  activate, refusal, initial, Event, run,
}
use superset_agent_orchestra.Scheduler.Ids.{
  any-asks, any-count, asks, asks-append, count-asks, count-holds, count-put, count-remove,
  count-revoke, holds, named, names,
}

-- An id waits or is held, once; the active requests are those of the permits; and a ticket that was
-- issued is in the queue or on a permit at most once, another never.
pub record Unique (qs : List Pending) (active : List Request) (permits : List (ℕ × String)) (n : ℕ)
    : Type 0 where
  pub single : (id : String) → count (asks id) qs + count (names id) permits ≤ 1
  pub matched : (id : String) → count (named id) active ≡ count (names id) permits
  pub ticketed :
      (t : ℕ) → count (has_ticket t) qs + count (holds t) permits ≤ (if ltb t n then 1 else 0)

abbrev pub IsUnique : Scheduler → Type 0
IsUnique st = Unique st.waiting st.active st.permits st.next_ticket

-- The head of the queue becomes active.
admit-Unique :
    (q : Pending) (qs : List Pending) (active : List Request) (hs : List (ℕ × String)) (n : ℕ)
    → Unique (q ∷ qs) active hs n
    → Unique qs (put q.request active) ((q.ticket, q.request.id) ∷ hs) n
unfolding count
admit-Unique q qs active hs n u =
    let id = q.request.id in
    let free : count (named id) active ≡ 0 =
      ground (arith, u.single id, u.matched id, eq_refl id) in
    record {
      single = λ v. ground (arith, u.single v);
      matched = λ v. ground (arith, u.matched v, count-put v q.request active free);
      ticketed = λ t. ground (arith, u.ticketed t);
    }

-- The head of the queue leaves it.
drop-Unique :
    (q : Pending) (qs : List Pending) (active : List Request) (hs : List (ℕ × String)) (n : ℕ)
    → Unique (q ∷ qs) active hs n
    → Unique qs active hs n
unfolding count
drop-Unique q qs active hs n u = record {
  single = λ v. ground (arith, u.single v);
  matched = u.matched;
  ticketed = λ t. ground (arith, u.ticketed t);
}

postpone-Unique :
    (d : Decision) (now : ℕ) (q : Pending) (qs : List Pending) (active : List Request)
    (hs : List (ℕ × String)) (n : ℕ)
    → Unique (q ∷ qs) active hs n
    → Unique (postpone d now q ∷ qs) active hs n
unfolding count postpone
postpone-Unique d now q qs active hs n u = record {
  single = u.single;
  matched = u.matched;
  ticketed = u.ticketed;
}

unknown-free :
    (r : Request) (st : Scheduler)
    → is_known r.id st ≡ false
    → (count (named r.id) st.active ≡ 0) × (count (asks r.id) st.waiting ≡ 0)
unfolding is_known
unknown-free r st k =
    (any-count r.id st.active (ground (arith, k)), any-asks r.id st.waiting (ground (arith, k)))

enqueue-Unique :
    (r : Request) (s : Bool) (now : ℕ) (st : Scheduler)
    → is_known r.id st ≡ false
    → IsUnique st
    → IsUnique (enqueue r s now st)
unfolding enqueue count
enqueue-Unique r s now st k u =
    let q = queued r s now st in
    let free = unknown-free r st k in
    record {
      single = λ v. elim (Bool-cases (r.id == v)) [
        | inl e ↦
            let same = (eq_iff r.id v).0 e in
            rw (← same) (ground (arith, free, u.matched r.id, asks-append r.id st.waiting (q ∷ [])))
        | inr e ↦ ground (arith, e, u.single v, asks-append v st.waiting (q ∷ []))
      ];
      matched = u.matched;
      ticketed = λ t. ground (arith, u.ticketed t, count-append t st.waiting (q ∷ []));
    }

adopt-Unique :
    (r : Request) (st : Scheduler) → is_known r.id st ≡ false → IsUnique st → IsUnique (adopt r st)
unfolding adopt activate settle count
adopt-Unique r st k u =
    let free = unknown-free r st k in
    record {
      single = λ v. elim (Bool-cases (r.id == v)) [
        | inl e ↦
            let same = (eq_iff r.id v).0 e in
            ground (
              arith,
              free,
              u.matched r.id,
              ap (λ x. count (asks x) st.waiting) same,
              ap (λ x. count (names x) st.permits) same,
            )
        | inr e ↦ ground (arith, e, u.single v)
      ];
      matched = λ v. ground (arith, u.matched v, count-put v r st.active free.0);
      ticketed = λ t. ground (arith, u.ticketed t);
    }

withdraw-Unique : (t : ℕ) (st : Scheduler) → IsUnique st → IsUnique (withdraw t st)
unfolding withdraw settle
withdraw-Unique t st u = record {
  single = λ v. ground (arith, u.single v, count-asks t v st.waiting);
  matched = u.matched;
  ticketed = λ w. ground (arith, u.ticketed w, count-without t w st.waiting);
}

revoke-Unique :
    (t u : ℕ) (id : String) (st : Scheduler)
    → find (holds t) st.permits ≡ some (u, id)
    → IsUnique st
    → IsUnique (revoke t id st)
unfolding revoke
revoke-Unique t u id st e q =
    let most : count (holds t) st.permits ≤ 1 = ground (arith, q.ticketed t) in
    record {
      single = λ v. ground (arith, q.single v, count-revoke t u id v st.permits e most);
      matched = λ v. ground (
        arith,
        q.matched v,
        q.single v,
        count-revoke t u id v st.permits e most,
        count-remove v id st.active,
      );
      ticketed = λ w. ground (arith, q.ticketed w, count-holds t w st.permits);
    }

module _ (p : Policy) (hooked : Bool) where
  drain_queue-Unique :
      (now : ℕ) (qs : List Pending) (st : Scheduler)
      → Unique qs st.active st.permits st.next_ticket
      → IsUnique (drain_queue p hooked now qs st)
  unfolding drain_queue
  drain_queue-Unique now [] st u = u
  drain_queue-Unique now (q ∷ qs) st u = elim (Bool-cases (is_blocked p st.active q.request)) [
    | inl b ↦ rw (b, drain_queue) u
    | inr b ↦ elim (Bool-cases (ltb now q.ready_at)) [
      | inl w ↦ rw (b, w, drain_queue) u
      | inr w ↦ elim (Bool-cases hooked) [
        | inl h ↦ rw (b, w, h, drain_queue) u
        | inr h ↦
            rw (b, w, h, drain_queue)
              (drain_queue-Unique now qs (admit q st) (
                unfold admit activate settle in
                admit-Unique q qs st.active st.permits st.next_ticket u))
      ]
    ]
  ]

  drain-Unique : (now : ℕ) (st : Scheduler) → IsUnique st → IsUnique (drain p hooked now st)
  unfolding drain
  drain-Unique now st u = elim (Bool-cases (is_waiting st.awaiting)) [
    | inl w ↦ rw (w, drain) u
    | inr w ↦ rw (w, drain) (drain_queue-Unique now st.waiting st u)
  ]

  decide-Unique :
      (d : Decision) (now : ℕ) (q : Pending) (qs : List Pending) (st : Scheduler)
      → Unique (q ∷ qs) st.active st.permits st.next_ticket
      → IsUnique (decide p hooked d now q qs st)
  unfolding decide
  decide-Unique d now q qs st u = elim (Bool-cases d.ready) [
    | inl r ↦
        rw (r, decide)
          (drain_queue-Unique now qs (admit q st) (
            unfold admit activate settle in
            admit-Unique q qs st.active st.permits st.next_ticket u))
    | inr r ↦ elim (Bool-cases (rejects p.overload || p.max_queued == 0)) [
      | inl e ↦
          rw (r, e, decide)
            (drain_queue-Unique now qs (settle q.ticket Outcome.overloaded st)
              (unfold settle in drop-Unique q qs st.active st.permits st.next_ticket u))
      | inr e ↦ rw (r, e, decide) (postpone-Unique d now q qs st.active st.permits st.next_ticket u)
    ]
  ]

  resume-Unique :
      (t : ℕ) (a : Answer) (now : ℕ) (qs : List Pending) (st : Scheduler)
      → qs ≡ st.waiting
      → Unique qs st.active st.permits st.next_ticket
      → IsUnique (resume p hooked t a now qs st)
  unfolding resume
  resume-Unique t a now [] st e u = rw (← e) u
  resume-Unique t a now (q ∷ qs) st e u = elim (Bool-cases (q.ticket == t)) [
    | inr s ↦ rw (s, resume) (drain_queue-Unique now (q ∷ qs) st u)
    | inl s ↦ elim (Option-cases (pressure a)) [
      | inl n ↦ rw (s, n, resume) (drain_queue-Unique now (q ∷ qs) st u)
      | inr (d, n) ↦ rw (s, n, resume) (decide-Unique d now q qs st u)
    ]
  ]

  pub invariant-Unique : Invariant p hooked IsUnique
  invariant-Unique = record {
    enqueued = λ r s a now st n h.
        drain-Unique now (enqueue r s now st)
          (enqueue-Unique r s now st (unfold refusal in ground (arith, n)) h);
    adopted = λ r st k h. adopt-Unique r st k h;
    withdrawn = λ t now st e h. drain-Unique now (withdraw t st) (withdraw-Unique t st h);
    revoked = λ t u id now st e h. drain-Unique now (revoke t id st) (revoke-Unique t u id st e h);
    fired = λ now st h.
        drain-Unique now (record st { timer = false })
          (record { single = h.single; matched = h.matched; ticketed = h.ticketed });
    answered =
        λ t a now st e h. resume-Unique t a now st.waiting (record st { awaiting = none }) refl h;
  }

  -- After every sequence of events an id is at most once among the requests that wait and those that
  -- hold a permit; it is active exactly as often as it holds a permit; and a ticket that was issued
  -- waits or is on a permit at most once, while one that was not issued never is.
  pub run-Unique : (es : List Event) → IsUnique (run p hooked es initial)
  run-Unique es = run-keeps p hooked IsUnique invariant-Unique es initial (record {
    single = λ v. unfold count in ground arith;
    matched = λ v. unfold count in refl;
    ticketed = λ t. unfold count in ground arith;
  })

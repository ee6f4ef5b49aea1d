-- ===== src/Adapter/Growth.antt =====
-- src/concurrency-scheduler.ts: what an operation does to the permits and to the requests that wait.
use superset_agent_orchestra.Base.{
  ℕ, ◌+◌, ◌≤◌, String, ◌≡◌, refl, Option, Bool, true, false, ◌&&◌, ◌||◌, not, none, some, List, [],
  ◌∷◌, find, select, inl, inr, count, ltb, ◌==◌, if◌then◌else◌, nat_eq, string_eq, arith,
  Bool-cases, Option-cases,
}
use superset_agent_orchestra.Scheduler.Policy.{Policy, is_blocked}
use superset_agent_orchestra.Scheduler.Ids.{holds}
use superset_agent_orchestra.Scheduler.Queue.{
  Pending, Outcome, Scheduler, Answer, Decision, pressure, is_waiting, rejects, admit, settle,
  drain_queue, drain, decide, resume, answer_for, hooks_answer, timer_fires, release, postpone,
  revoke, activate,
}
use superset_agent_orchestra.Adapter.Permits.{grants}

abbrev pub waits_for : ℕ → String → Pending → Bool
waits_for t id q = q.ticket == t && q.request.id == id

-- How often a ticket is on a permit with an id; and how often it is there or in the queue.
abbrev pub held : ℕ → String → List (ℕ × String) → ℕ
held t id hs = count (grants t id) hs

abbrev pub live : ℕ → String → List Pending → List (ℕ × String) → ℕ
live t id qs hs = count (waits_for t id) qs + count (grants t id) hs

-- No permit goes, and nothing comes that did not wait.
pub record Grows (qs : List Pending) (hs : List (ℕ × String)) (st : Scheduler) : Type 0 where
  pub kept : (t : ℕ) (id : String) → held t id hs ≤ held t id st.permits
  pub bounded : (t : ℕ) (id : String) → live t id st.waiting st.permits ≤ live t id qs hs

same-Grows : (st : Scheduler) → Grows st.waiting st.permits st
same-Grows st = record { kept = λ t id. ground arith; bounded = λ t id. ground arith }

admitted-Grows :
    (q : Pending) (qs : List Pending) (before after : Scheduler)
    → Grows qs (admit q before).permits after
    → Grows (q ∷ qs) before.permits after
unfolding count admit activate settle
admitted-Grows q qs before after g = record {
  kept = λ t id. ground (arith, g.kept t id);
  bounded = λ t id. ground (arith, g.bounded t id);
}

dropped-Grows :
    (q : Pending) (qs : List Pending) (hs : List (ℕ × String)) (st : Scheduler)
    → Grows qs hs st
    → Grows (q ∷ qs) hs st
unfolding count
dropped-Grows q qs hs st g = record {
  kept = g.kept;
  bounded = λ t id. ground (arith, g.bounded t id);
}

module _ (p : Policy) (hooked : Bool) where
  drain_queue-Grows :
      (now : ℕ) (qs : List Pending) (st : Scheduler)
      → Grows qs st.permits (drain_queue p hooked now qs st)
  unfolding drain_queue
  drain_queue-Grows now [] st = same-Grows (record st { waiting = [] })
  drain_queue-Grows now (q ∷ qs) st = elim (Bool-cases (is_blocked p st.active q.request)) [
    | inl b ↦ rw (b, drain_queue) (same-Grows (record st { waiting = q ∷ qs }))
    | inr b ↦ elim (Bool-cases (ltb now q.ready_at)) [
      | inl w ↦ rw (b, w, drain_queue) (same-Grows (record st { waiting = q ∷ qs; timer = true }))
      | inr w ↦ elim (Bool-cases hooked) [
        | inl h ↦
            rw (b, w, h, drain_queue)
              (same-Grows (record st { waiting = q ∷ qs; awaiting = some q.ticket }))
        | inr h ↦
            rw (b, w, h, drain_queue)
              (admitted-Grows q qs st (drain_queue p hooked now qs (admit q st))
                (drain_queue-Grows now qs (admit q st)))
      ]
    ]
  ]

  pub drain-Grows : (now : ℕ) (st : Scheduler) → Grows st.waiting st.permits (drain p hooked now st)
  unfolding drain
  drain-Grows now st = elim (Bool-cases (is_waiting st.awaiting)) [
    | inl w ↦ rw (w, drain) (same-Grows st)
    | inr w ↦ rw (w, drain) (drain_queue-Grows now st.waiting st)
  ]

  decide-Grows :
      (d : Decision) (now : ℕ) (q : Pending) (qs : List Pending) (st : Scheduler)
      → Grows (q ∷ qs) st.permits (decide p hooked d now q qs st)
  unfolding decide postpone
  decide-Grows d now q qs st = elim (Bool-cases d.ready) [
    | inl r ↦
        rw (r, decide)
          (admitted-Grows q qs st (drain_queue p hooked now qs (admit q st))
            (drain_queue-Grows now qs (admit q st)))
    | inr r ↦ elim (Bool-cases (rejects p.overload || p.max_queued == 0)) [
      | inl e ↦
          let rejected = settle q.ticket Outcome.overloaded st in
          rw (r, e, decide)
            (dropped-Grows q qs st.permits (drain_queue p hooked now qs rejected)
              (unfold settle in drain_queue-Grows now qs rejected))
      | inr e ↦
          rw (r, e, decide)
            (record { kept = λ t id. ground arith; bounded = λ t id. unfold count in ground arith })
    ]
  ]

  resume-Grows :
      (t : ℕ) (a : Answer) (now : ℕ) (qs : List Pending) (st : Scheduler)
      → qs ≡ st.waiting
      → Grows qs st.permits (resume p hooked t a now qs st)
  unfolding resume
  resume-Grows t a now [] st e = rw e (same-Grows st)
  resume-Grows t a now (q ∷ qs) st e = elim (Bool-cases (q.ticket == t)) [
    | inr s ↦ rw (s, resume) (drain_queue-Grows now (q ∷ qs) st)
    | inl s ↦ elim (Option-cases (pressure a)) [
      | inl n ↦ rw (s, n, resume) (drain_queue-Grows now (q ∷ qs) st)
      | inr (d, n) ↦ rw (s, n, resume) (decide-Grows d now q qs st)
    ]
  ]

  answer_for-Grows :
      (o : Option ℕ) (a : Answer) (now : ℕ) (st : Scheduler)
      → Grows st.waiting st.permits (answer_for p hooked o a now st)
  unfolding answer_for
  answer_for-Grows none a now st = same-Grows st
  answer_for-Grows (some t) a now st =
      resume-Grows t a now st.waiting (record st { awaiting = none }) refl

  pub hooks_answer-Grows :
      (a : Answer) (now : ℕ) (st : Scheduler)
      → Grows st.waiting st.permits (hooks_answer p hooked a now st)
  unfolding hooks_answer
  hooks_answer-Grows a now st = answer_for-Grows st.awaiting a now st

  set_timer-Grows :
      (b : Bool) (now : ℕ) (st : Scheduler)
      → Grows st.waiting st.permits
          (if b then drain p hooked now (record st { timer = false }) else st)
  set_timer-Grows true now st = drain-Grows now (record st { timer = false })
  set_timer-Grows false now st = same-Grows st

  pub timer_fires-Grows :
      (now : ℕ) (st : Scheduler) → Grows st.waiting st.permits (timer_fires p hooked now st)
  unfolding timer_fires
  timer_fires-Grows now st = set_timer-Grows st.timer now st

held-others :
    (t u : ℕ) (id : String) (hs : List (ℕ × String))
    → held u id (select (λ (h : ℕ × String). not (h.0 == t)) hs)
      ≡ (if u == t then 0 else held u id hs)
unfolding count select
held-others t u id [] = ground arith
held-others t u id ((s, w) ∷ hs) = ground (arith, held-others t u id hs)

find-held :
    (t : ℕ) (id : String) (hs : List (ℕ × String)) → find (holds t) hs ≡ none → held t id hs ≡ 0
unfolding count find
find-held t id [] e = refl
find-held t id ((s, w) ∷ hs) e = elim (Bool-cases (s == t)) [
  | inl y ↦ absurd (ground (arith, y, e))
  | inr y ↦ ground (arith, y, find-held t id hs (ground (arith, y, e)))
]

-- The release of a ticket takes that ticket's permit and no other.
pub record Frees (t : ℕ) (before after : Scheduler) : Type 0 where
  pub kept :
      (u : ℕ) (id : String)
      → (if u == t then 0 else held u id before.permits) ≤ held u id after.permits
  pub bounded :
      (u : ℕ) (id : String)
      → live u id after.waiting after.permits + (if u == t then held u id before.permits else 0)
        ≤ live u id before.waiting before.permits

module _ (p : Policy) (hooked : Bool) where
  pub release-Frees : (t now : ℕ) (st : Scheduler) → Frees t st (release p hooked t now st)
  unfolding release
  release-Frees t now st = elim (Option-cases (find (holds t) st.permits)) [
    | inl n ↦
        rw (n, release)
          (record {
            kept = λ u id. ground arith;
            bounded = λ u id. elim (Bool-cases (u == t)) [
              | inl e ↦
                  let same : u ≡ t = ground (arith, e) in
                  rw same (ground (arith, find-held t id st.permits n))
              | inr e ↦ ground (arith, e)
            ];
          })
    | inr ((u, id), n) ↦
        let g = drain-Grows p hooked now (revoke t id st) in
        rw (n, release)
          (record {
            kept = λ v w. unfold revoke in ground (arith, g.kept v w, held-others t v w st.permits);
            bounded =
                λ v w. unfold revoke in ground (arith, g.bounded v w, held-others t v w st.permits);
          })
  ]

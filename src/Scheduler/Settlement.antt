-- ===== src/Scheduler/Settlement.antt =====
-- src/concurrency-scheduler.ts: every request settles once, and the queue is bounded.
use superset_agent_orchestra.Base.{
  ℕ, ◌+◌, ◌≤◌, max, ◌≡◌, refl, Bool, true, false, ◌&&◌, not, none, List, [], ◌∷◌, ◌++◌, any, select,
  inl, inr, count, length, length-append, ltb, ◌==◌, if◌then◌else◌, nat_eq, string_eq, arith,
  Bool-cases,
}
use superset_agent_orchestra.Scheduler.Policy.{Policy, Request}
use superset_agent_orchestra.Scheduler.Events.{Invariant, run-keeps}
use superset_agent_orchestra.Scheduler.Ledger.{Ledger, drain-keeps, resume-keeps}
use superset_agent_orchestra.Scheduler.Queue.{
  Pending, Outcome, Scheduler, initial, postpone, Event, run, refusal, enqueue, queued, adopt,
  withdraw, revoke,
}

abbrev pub has_ticket : ℕ → Pending → Bool
has_ticket t q = q.ticket == t

abbrev pub is_settled : ℕ → ℕ × Outcome → Bool
is_settled t s = s.0 == t

-- How often a ticket waits or is settled: once if it was issued, else never.
abbrev pub Conserved : List Pending → List (ℕ × Outcome) → ℕ → Type 0
Conserved qs ss n =
    (t : ℕ) → count (has_ticket t) qs + count (is_settled t) ss ≡ (if ltb t n then 1 else 0)

pub count-append :
    (t : ℕ) (qs rs : List Pending)
    → count (has_ticket t) (qs ++ rs) ≡ count (has_ticket t) qs + count (has_ticket t) rs
unfolding count
count-append t [] rs = ground arith
count-append t (q ∷ qs) rs = ground (arith, count-append t qs rs)

pub count-without :
    (t u : ℕ) (qs : List Pending)
    → count (has_ticket u) (select (λ (q : Pending). not (q.ticket == t)) qs)
      ≡ (if u == t then 0 else count (has_ticket u) qs)
unfolding count select
count-without t u [] = ground arith
count-without t u (q ∷ qs) = ground (arith, count-without t u qs)

any-count :
    (t : ℕ) (qs : List Pending)
    → any (λ (q : Pending). q.ticket == t && q.signal) qs ≡ true
    → 1 ≤ count (has_ticket t) qs
unfolding any count
any-count t [] e = absurd (ground (arith, e))
any-count t (q ∷ qs) e = elim (Bool-cases (q.ticket == t)) [
  | inl f ↦ ground (arith, f)
  | inr f ↦ ground (arith, f, any-count t qs (ground (arith, e, f)))
]

ledger-Conserved : Ledger Conserved
unfolding postpone count
ledger-Conserved = record {
  settled = λ out q qs ss n h t. ground (arith, h t);
  postponed = λ d now q qs ss n h t. ground (arith, h t);
}

abbrev IsConserved : Scheduler → Type 0
IsConserved st = Conserved st.waiting st.settled st.next_ticket

enqueue-Conserved :
    (r : Request) (s : Bool) (now : ℕ) (st : Scheduler)
    → IsConserved st
    → IsConserved (enqueue r s now st)
unfolding enqueue count
enqueue-Conserved r s now st h t =
    let q = queued r s now st in ground (arith, h t, count-append t st.waiting (q ∷ []))

adopt-Conserved : (r : Request) (st : Scheduler) → IsConserved st → IsConserved (adopt r st)
unfolding adopt count
adopt-Conserved r st h t = ground (arith, h t)

withdraw-Conserved :
    (t : ℕ) (st : Scheduler)
    → any (λ (q : Pending). q.ticket == t && q.signal) st.waiting ≡ true
    → IsConserved st
    → IsConserved (withdraw t st)
unfolding withdraw count
withdraw-Conserved t st e h u =
    ground (arith, h u, h t, any-count t st.waiting e, count-without t u st.waiting)

-- The bound on the queue: one request may wait for the hooks where none may be queued.
abbrev Bounded : Policy → List Pending → List (ℕ × Outcome) → ℕ → Type 0
Bounded p qs ss n = length qs ≤ max 1 p.max_queued

length-without :
    (t : ℕ) (qs : List Pending)
    → length (select (λ (q : Pending). not (q.ticket == t)) qs) ≤ length qs
unfolding select
length-without t [] = ground arith
length-without t (q ∷ qs) = ground (arith, length-without t qs)

ledger-Bounded : (p : Policy) → Ledger (Bounded p)
ledger-Bounded p = record {
  settled = λ out q qs ss n h. ground (arith, h);
  postponed = λ d now q qs ss n h. h;
}

module _ (p : Policy) (hooked : Bool) where
  invariant-Conserved : Invariant p hooked IsConserved
  invariant-Conserved = record {
    enqueued = λ r s a now st n h.
        drain-keeps p hooked Conserved ledger-Conserved now (enqueue r s now st)
          (enqueue-Conserved r s now st h);
    adopted = λ r st k h. adopt-Conserved r st h;
    withdrawn = λ t now st e h.
        drain-keeps p hooked Conserved ledger-Conserved now (withdraw t st)
          (withdraw-Conserved t st e h);
    revoked = λ t u id now st e h.
        drain-keeps p hooked Conserved ledger-Conserved now (revoke t id st) (unfold revoke in h);
    fired = λ now st h.
        drain-keeps p hooked Conserved ledger-Conserved now (record st { timer = false }) h;
    answered = λ t a now st e h.
        resume-keeps p hooked Conserved ledger-Conserved t a now st.waiting
          (record st { awaiting = none }) refl h;
  }

  enqueue-Bounded :
      (r : Request) (s a : Bool) (now : ℕ) (st : Scheduler)
      → refusal p hooked r s a st ≡ none
      → length (enqueue r s now st).waiting ≤ max 1 p.max_queued
  unfolding refusal enqueue
  enqueue-Bounded r s a now st n =
      let q = queued r s now st in ground (arith, n, length-append st.waiting (q ∷ []))

  invariant-Bounded : Invariant p hooked (λ st. length st.waiting ≤ max 1 p.max_queued)
  invariant-Bounded =
      let laws = ledger-Bounded p in
      record {
        enqueued = λ r s a now st n h.
            drain-keeps p hooked (Bounded p) laws now (enqueue r s now st)
              (enqueue-Bounded r s a now st n);
        adopted = λ r st k h. unfold adopt in h;
        withdrawn = λ t now st e h.
            drain-keeps p hooked (Bounded p) laws now (withdraw t st)
              (unfold withdraw in ground (arith, h, length-without t st.waiting));
        revoked = λ t u id now st e h.
            drain-keeps p hooked (Bounded p) laws now (revoke t id st) (unfold revoke in h);
        fired =
            λ now st h. drain-keeps p hooked (Bounded p) laws now (record st { timer = false }) h;
        answered = λ t a now st e h.
            resume-keeps p hooked (Bounded p) laws t a now st.waiting
              (record st { awaiting = none }) refl h;
      }

  -- No request is lost and none settles twice: after every sequence of events, each ticket that was
  -- issued either waits, once, or is settled, once, and no other ticket does.
  pub run-Conserved :
      (es : List Event)
      → let st = run p hooked es initial in Conserved st.waiting st.settled st.next_ticket
  run-Conserved es =
      run-keeps p hooked IsConserved invariant-Conserved es initial
        (λ t. unfold count in ground arith)

  -- The queue never holds more than max_queued requests, or one where max_queued is 0.
  pub run-Bounded :
      (es : List Event) → length (run p hooked es initial).waiting ≤ max 1 p.max_queued
  run-Bounded es =
      run-keeps p hooked (λ st. length st.waiting ≤ max 1 p.max_queued) invariant-Bounded es initial
        (ground arith)

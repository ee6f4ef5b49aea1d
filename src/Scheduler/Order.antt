-- ===== src/Scheduler/Order.antt =====
-- src/concurrency-scheduler.ts: requests are admitted in the order in which they came.
use superset_agent_orchestra.Base.{
  ℕ, ◌+◌, ◌<◌, ◌≡◌, refl, Bool, true, false, ◌&&◌, not, none, List, [], ◌∷◌, ◌++◌, any, inl, inr,
  ◌==◌, nat_eq, string_eq, option_nat_eq, arith, Bool-cases, All, Pairs, All-append, All-select,
  All-map, Pairs-select,
}
use superset_agent_orchestra.Scheduler.Policy.{Policy, Request}
use superset_agent_orchestra.Scheduler.Ledger.{Ledger, drain-keeps, resume-keeps}
use superset_agent_orchestra.Scheduler.Events.{Invariant, run-keeps}
use superset_agent_orchestra.Scheduler.Queue.{
  Pending, Outcome, Scheduler, initial, postpone, Event, run, enqueue, queued, adopt, withdraw,
  revoke,
}

unfoldable pub is_admitted : Outcome → Bool
is_admitted Outcome.admitted = true
is_admitted _ = false

abbrev pub Earlier : ℕ → Pending → Type 0
Earlier t q = t < q.ticket

-- The newest first: of two admissions the newer has the greater ticket.
abbrev pub InOrder : ℕ × Outcome → ℕ × Outcome → Type 0
InOrder (t, o) (u, o') = is_admitted o ≡ true → is_admitted o' ≡ true → u < t

abbrev pub Issued : ℕ → Pending → Type 0
Issued n q = q.ticket < n

abbrev pub Past : ℕ → ℕ × Outcome → Type 0
Past n s = s.0 < n

-- What was admitted came before the request.
abbrev pub Before : Pending → ℕ × Outcome → Type 0
Before q s = is_admitted s.1 ≡ true → s.0 < q.ticket

abbrev pub Ahead : List (ℕ × Outcome) → Pending → Type 0
Ahead ss q = All (Before q) ss

-- The tickets of a queue, and those that were settled.
pub record Orderly (qs : List Pending) (settled : List (ℕ × Outcome)) (next : ℕ) : Type 0 where
  pub sorted : Pairs (λ (a b : Pending). a.ticket < b.ticket) qs
  pub issued : All (Issued next) qs
  pub past : All (Past next) settled
  pub ahead : All (Ahead settled) qs
  pub in_order : Pairs InOrder settled

abbrev pub IsOrderly : Scheduler → Type 0
IsOrderly st = Orderly st.waiting st.settled st.next_ticket

tail-Orderly :
    (q : Pending) (qs : List Pending) (ss : List (ℕ × Outcome)) (n : ℕ)
    → Orderly (q ∷ qs) ss n
    → Orderly qs ss n
tail-Orderly q qs ss n o = record {
  sorted = o.sorted.1;
  issued = o.issued.1;
  past = o.past;
  ahead = o.ahead.1;
  in_order = o.in_order;
}

-- The head of the queue is settled, whatever its outcome.
pub head-Orderly :
    (out : Outcome) (q : Pending) (qs : List Pending) (ss : List (ℕ × Outcome)) (n : ℕ)
    → Orderly (q ∷ qs) ss n
    → Orderly qs ((q.ticket, out) ∷ ss) n
head-Orderly out q qs ss n o = record {
  sorted = o.sorted.1;
  issued = o.issued.1;
  past = (o.issued.0, o.past);
  ahead = later qs o.sorted.0 o.ahead.1;
  in_order = (All-map _ (InOrder (q.ticket, out)) (λ s f a b. f b) ss o.ahead.0, o.in_order);
}
  where
    later :
        (qs : List Pending)
        → All (λ (b : Pending). q.ticket < b.ticket) qs
        → All (Ahead ss) qs
        → All (Ahead ((q.ticket, out) ∷ ss)) qs
    later [] a b = tt
    later (r ∷ rs) a b = ((λ e. a.0, b.0), later rs a.1 b.1)

pub ledger-Orderly : Ledger Orderly
unfolding postpone
ledger-Orderly = record {
  settled = head-Orderly;
  postponed = λ d now q qs ss n o. record {
    sorted = o.sorted;
    issued = o.issued;
    past = o.past;
    ahead = o.ahead;
    in_order = o.in_order;
  };
}

last-Earlier :
    (qs : List Pending) (q : Pending)
    → Pairs (λ (a b : Pending). a.ticket < b.ticket) qs
    → All (λ (a : Pending). a.ticket < q.ticket) qs
    → Pairs (λ (a b : Pending). a.ticket < b.ticket) (qs ++ q ∷ [])
last-Earlier [] q s h = (tt, tt)
last-Earlier (r ∷ rs) q s h =
    (All-append (Earlier r.ticket) rs (q ∷ []) s.0 (h.0, tt), last-Earlier rs q s.1 h.1)

pub enqueue-Orderly :
    (r : Request) (s : Bool) (now : ℕ) (st : Scheduler)
    → IsOrderly st
    → IsOrderly (enqueue r s now st)
unfolding enqueue
enqueue-Orderly r s now st o =
    let n = st.next_ticket in
    let q = queued r s now st in
    record {
      sorted = last-Earlier st.waiting q o.sorted o.issued;
      issued =
          All-append (Issued (n + 1)) st.waiting (q ∷ [])
            (All-map (Issued n) (Issued (n + 1)) (λ (q : Pending) h. ground (arith, h)) st.waiting
              o.issued)
            (ground arith, tt);
      past =
          All-map (Past n) (Past (n + 1)) (λ (u : ℕ × Outcome) h. ground (arith, h)) st.settled
            o.past;
      ahead =
          All-append (Ahead st.settled) st.waiting (q ∷ []) o.ahead
            (All-map (Past n) (Before q) (λ (u : ℕ × Outcome) h e. h) st.settled o.past, tt);
      in_order = o.in_order;
    }

adopt-Orderly : (r : Request) (st : Scheduler) → IsOrderly st → IsOrderly (adopt r st)
unfolding adopt is_admitted
adopt-Orderly r st o =
    let n = st.next_ticket in
    let s : ℕ × Outcome = (n, Outcome.adopted) in
    record {
      sorted = o.sorted;
      issued =
          All-map (Issued n) (Issued (n + 1)) (λ (q : Pending) h. ground (arith, h)) st.waiting
            o.issued;
      past = (
        ground arith,
        All-map (Past n) (Past (n + 1)) (λ (u : ℕ × Outcome) h. ground (arith, h)) st.settled
            o.past,
      );
      ahead =
          All-map (Ahead st.settled) (Ahead (s ∷ st.settled))
            (λ (q : Pending) h. (λ e. absurd (ground (arith, e)), h)) st.waiting o.ahead;
      in_order = (
        All-map (Past n) (InOrder s) (λ (u : ℕ × Outcome) h e. absurd (ground (arith, e)))
            st.settled o.past,
        o.in_order,
      );
    }

any-Issued :
    (t n : ℕ) (qs : List Pending)
    → any (λ (q : Pending). q.ticket == t && q.signal) qs ≡ true
    → All (Issued n) qs
    → t < n
unfolding any
any-Issued t n [] e h = absurd (ground (arith, e))
any-Issued t n (q ∷ qs) e h = elim (Bool-cases (q.ticket == t && q.signal)) [
  | inl f ↦ ground (arith, f, h.0)
  | inr f ↦ any-Issued t n qs (ground (arith, e, f)) h.1
]

pub withdraw-Orderly :
    (t : ℕ) (st : Scheduler)
    → any (λ (q : Pending). q.ticket == t && q.signal) st.waiting ≡ true
    → IsOrderly st
    → IsOrderly (withdraw t st)
unfolding withdraw is_admitted
withdraw-Orderly t st e o =
    let n = st.next_ticket in
    let s : ℕ × Outcome = (t, Outcome.cancelled) in
    let kept : Pending → Bool = λ (q : Pending). not (q.ticket == t) in
    record {
      sorted = Pairs-select (λ (a b : Pending). a.ticket < b.ticket) kept st.waiting o.sorted;
      issued = All-select (Issued n) kept st.waiting o.issued;
      past = (any-Issued t n st.waiting e o.issued, o.past);
      ahead = All-select (Ahead (s ∷ st.settled)) kept st.waiting (
          All-map (Ahead st.settled) (Ahead (s ∷ st.settled))
            (λ (q : Pending) h. (λ e. absurd (ground (arith, e)), h)) st.waiting o.ahead);
      in_order = (
        All-map (Past n) (InOrder s) (λ (u : ℕ × Outcome) h e. absurd (ground (arith, e)))
            st.settled o.past,
        o.in_order,
      );
    }

module _ (p : Policy) (hooked : Bool) where
  pub invariant-Orderly : Invariant p hooked IsOrderly
  invariant-Orderly = record {
    enqueued = λ r s a now st n o.
        drain-keeps p hooked Orderly ledger-Orderly now (enqueue r s now st)
          (enqueue-Orderly r s now st o);
    adopted = λ r st k o. adopt-Orderly r st o;
    withdrawn = λ t now st e o.
        drain-keeps p hooked Orderly ledger-Orderly now (withdraw t st) (withdraw-Orderly t st e o);
    revoked = λ t u id now st e o.
        drain-keeps p hooked Orderly ledger-Orderly now (revoke t id st) (unfold revoke in o);
    fired =
        λ now st o. drain-keeps p hooked Orderly ledger-Orderly now (record st { timer = false }) o;
    answered = λ t a now st e o.
        resume-keeps p hooked Orderly ledger-Orderly t a now st.waiting
          (record st { awaiting = none }) refl o;
  }

  -- First come, first served: after every sequence of events the queue is in the order of arrival, of
  -- two requests that the queue admitted the earlier one was admitted first, and every request that
  -- it admitted came before each one that still waits.
  pub run-Orderly : (es : List Event) → IsOrderly (run p hooked es initial)
  run-Orderly es =
      run-keeps p hooked IsOrderly invariant-Orderly es initial
        (record { sorted = tt; issued = tt; past = tt; ahead = tt; in_order = tt })

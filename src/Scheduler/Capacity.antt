-- ===== src/Scheduler/Capacity.antt =====
-- src/concurrency-scheduler.ts: the limits hold in every state that the scheduler reaches.
use superset_agent_orchestra.Base.{
  ℕ, ◌<◌, String, ◌≡◌, refl, ap, ◌∙◌, Bool, false, ◌||◌, not, Option, none, some, List, [], ◌∷◌,
  inl, inr, count, ltb, ◌==◌, nat_eq, string_eq, option_nat_eq, arith, Bool-cases, Option-cases,
  All, All-append, All-select, All-map,
}
use superset_agent_orchestra.Scheduler.Policy.{Policy, Request, count_key, is_blocked}
use superset_agent_orchestra.Scheduler.Events.{Invariant, run-keeps}
use superset_agent_orchestra.Scheduler.Order.{
  Orderly, IsOrderly, invariant-Orderly, head-Orderly, enqueue-Orderly, withdraw-Orderly,
}
use superset_agent_orchestra.Scheduler.Limits.{
  is_adopted, adoptions, Within, Room, Safe, unblocked-Room, put-Within, remove-Within, remove-Room,
  adopt-Within, adopt-Room,
}
use superset_agent_orchestra.Scheduler.Queue.{
  Pending, Outcome, Scheduler, initial, Answer, Decision, pressure, is_waiting, rejects, admit,
  settle, drain_queue, drain, decide, resume, postpone, Event, run, enqueue, queued, adopt,
  withdraw, revoke,
}

-- What the queue's own loop needs: a request that is being checked is the only one with its ticket.
later_tickets :
    (t : ℕ) (P : Pending → Type 0) (qs : List Pending)
    → All (λ (b : Pending). t < b.ticket) qs
    → All (λ (b : Pending). some t ≡ some b.ticket → P b) qs
later_tickets t P [] h = tt
later_tickets t P (q ∷ qs) h = (λ e. absurd (ground (arith, e, h.0)), later_tickets t P qs h.1)

unchecked :
    (o : Option ℕ) (P : Pending → Type 0) (qs : List Pending)
    → is_waiting o ≡ false
    → All (λ (b : Pending). o ≡ some b.ticket → P b) qs
unchecked o P [] h = tt
unchecked o P (q ∷ qs) h = (λ e. absurd (ground (arith, e, h)), unchecked o P qs h)

none_awaited : (o : Option ℕ) (n : ℕ) → is_waiting o ≡ false → (t : ℕ) → o ≡ some t → t < n
none_awaited o n h t e = absurd (ground (arith, e, h))

module _ (p : Policy) (hooked : Bool) where
  abbrev Roomy : Scheduler → Pending → Type 0
  Roomy st q = Room p (adoptions st.settled) st.active q.request

  admit-Within :
      (q : Pending) (st : Scheduler)
      → Within p (adoptions st.settled) st.active
      → Room p (adoptions st.settled) st.active q.request
      → Within p (adoptions (admit q st).settled) (admit q st).active
  unfolding admit adoptions is_adopted
  admit-Within q st w m = put-Within p (adoptions st.settled) st.active q.request w m

  drain_queue-Safe :
      (now : ℕ) (qs : List Pending) (st : Scheduler)
      → Orderly qs st.settled st.next_ticket
      → is_waiting st.awaiting ≡ false
      → Within p (adoptions st.settled) st.active
      → Safe p (drain_queue p hooked now qs st)
  unfolding drain_queue
  drain_queue-Safe now [] st o a w = record {
    within = w;
    awaited = none_awaited st.awaiting st.next_ticket a;
    checked = tt;
  }
  drain_queue-Safe now (q ∷ qs) st o a w = elim (Bool-cases (is_blocked p st.active q.request)) [
    | inl b ↦
        rw (b, drain_queue)
          (record {
            within = w;
            awaited = none_awaited st.awaiting st.next_ticket a;
            checked = unchecked st.awaiting (Roomy st) (q ∷ qs) a;
          })
    | inr b ↦ elim (Bool-cases (ltb now q.ready_at)) [
      | inl l ↦
          rw (b, l, drain_queue)
            (record {
              within = w;
              awaited = none_awaited st.awaiting st.next_ticket a;
              checked = unchecked st.awaiting (Roomy st) (q ∷ qs) a;
            })
      | inr l ↦
          let m = unblocked-Room p (adoptions st.settled) st.active q.request b in
          elim (Bool-cases hooked) [
            | inl h ↦
                rw (b, l, h, drain_queue)
                  (record {
                    within = w;
                    awaited = λ t e. ground (arith, e, o.issued.0);
                    checked = (λ e. m, later_tickets q.ticket (Roomy st) qs o.sorted.0);
                  })
            | inr h ↦
                rw (b, l, h, drain_queue)
                  (drain_queue-Safe now qs (admit q st)
                    (unfold admit in head-Orderly Outcome.admitted q qs st.settled st.next_ticket o)
                    (unfold admit in a) (admit-Within q st w m))
          ]
    ]
  ]

  drain-Safe :
      (now : ℕ) (st : Scheduler) → IsOrderly st → Safe p st → Safe p (drain p hooked now st)
  unfolding drain
  drain-Safe now st o s = elim (Bool-cases (is_waiting st.awaiting)) [
    | inl w ↦ rw (w, drain) s
    | inr w ↦ rw (w, drain) (drain_queue-Safe now st.waiting st o w s.within)
  ]

  decide-Safe :
      (d : Decision) (now : ℕ) (q : Pending) (qs : List Pending) (st : Scheduler)
      → Orderly (q ∷ qs) st.settled st.next_ticket
      → is_waiting st.awaiting ≡ false
      → Within p (adoptions st.settled) st.active
      → Room p (adoptions st.settled) st.active q.request
      → Safe p (decide p hooked d now q qs st)
  unfolding decide
  decide-Safe d now q qs st o a w m = elim (Bool-cases d.ready) [
    | inl r ↦
        rw (r, decide)
          (drain_queue-Safe now qs (admit q st)
            (unfold admit in head-Orderly Outcome.admitted q qs st.settled st.next_ticket o)
            (unfold admit in a) (admit-Within q st w m))
    | inr r ↦ elim (Bool-cases (rejects p.overload || p.max_queued == 0)) [
      | inl e ↦
          rw (r, e, decide)
            (drain_queue-Safe now qs (settle q.ticket Outcome.overloaded st)
              (unfold settle in head-Orderly Outcome.overloaded q qs st.settled st.next_ticket o)
              (unfold settle in a) (unfold settle adoptions is_adopted in w))
      | inr e ↦
          rw (r, e, decide)
            (record {
              within = w;
              awaited = none_awaited st.awaiting st.next_ticket a;
              checked = unchecked st.awaiting (Roomy st) (postpone d now q ∷ qs) a;
            })
    ]
  ]

  resume-Safe :
      (t : ℕ) (a : Answer) (now : ℕ) (qs : List Pending) (st : Scheduler)
      → qs ≡ st.waiting
      → Orderly qs st.settled st.next_ticket
      → is_waiting st.awaiting ≡ false
      → Within p (adoptions st.settled) st.active
      → All (λ (q : Pending). t ≡ q.ticket → Roomy st q) qs
      → Safe p (resume p hooked t a now qs st)
  unfolding resume
  resume-Safe t a now [] st e o n w m = record {
    within = w;
    awaited = none_awaited st.awaiting st.next_ticket n;
    checked = unchecked st.awaiting (Roomy st) st.waiting n;
  }
  resume-Safe t a now (q ∷ qs) st e o n w m = elim (Bool-cases (q.ticket == t)) [
    | inr s ↦ rw (s, resume) (drain_queue-Safe now (q ∷ qs) st o n w)
    | inl s ↦ elim (Option-cases (pressure a)) [
      | inl y ↦ rw (s, y, resume) (drain_queue-Safe now (q ∷ qs) st o n w)
      | inr (d, y) ↦ rw (s, y, resume) (decide-Safe d now q qs st o n w (m.0 (ground (arith, s))))
    ]
  ]

  enqueue-Safe :
      (r : Request) (s : Bool) (now : ℕ) (st : Scheduler) → Safe p st → Safe p (enqueue r s now st)
  unfolding enqueue
  enqueue-Safe r s now st f =
      let q = queued r s now st in
      record {
        within = f.within;
        awaited = λ t e. ground (arith, f.awaited t e);
        checked =
            All-append (λ (q : Pending). st.awaiting ≡ some q.ticket → Roomy st q) st.waiting
              (q ∷ []) f.checked (λ e. absurd (ground (arith, f.awaited st.next_ticket e)), tt);
      }

  adopt-Safe : (r : Request) (st : Scheduler) → Safe p st → Safe p (adopt r st)
  unfolding adopt adoptions is_adopted
  adopt-Safe r st f = record {
    within = adopt-Within p (adoptions st.settled) st.active r f.within;
    awaited = λ t e. ground (arith, f.awaited t e);
    checked =
        All-map (λ (q : Pending). st.awaiting ≡ some q.ticket → Roomy st q)
          (λ (q : Pending). st.awaiting ≡ some q.ticket → Roomy (adopt r st) q)
          (λ (q : Pending) h e. adopt-Room p (adoptions st.settled) st.active r q.request (h e))
          st.waiting f.checked;
  }

  withdraw-Safe : (t : ℕ) (st : Scheduler) → Safe p st → Safe p (withdraw t st)
  unfolding withdraw adoptions is_adopted
  withdraw-Safe t st f = record {
    within = f.within;
    awaited = f.awaited;
    checked =
        All-select (λ (q : Pending). st.awaiting ≡ some q.ticket → Roomy st q)
          (λ (q : Pending). not (q.ticket == t)) st.waiting f.checked;
  }

  revoke-Safe : (t : ℕ) (id : String) (st : Scheduler) → Safe p st → Safe p (revoke t id st)
  unfolding revoke
  revoke-Safe t id st f = record {
    within = remove-Within p (adoptions st.settled) id st.active f.within;
    awaited = f.awaited;
    checked =
        All-map (λ (q : Pending). st.awaiting ≡ some q.ticket → Roomy st q)
          (λ (q : Pending). st.awaiting ≡ some q.ticket → Roomy (revoke t id st) q)
          (λ (q : Pending) h e. remove-Room p (adoptions st.settled) id st.active q.request (h e))
          st.waiting f.checked;
  }

  abbrev Good : Scheduler → Type 0
  Good st = IsOrderly st × Safe p st

  invariant-Good : Invariant p hooked Good
  invariant-Good =
      let o = invariant-Orderly p hooked in
      record {
        enqueued = λ r s a now st n g. (
          o.enqueued r s a now st n g.0,
          drain-Safe now (enqueue r s now st) (enqueue-Orderly r s now st g.0)
              (enqueue-Safe r s now st g.1),
        );
        adopted = λ r st k g. (o.adopted r st k g.0, adopt-Safe r st g.1);
        withdrawn = λ t now st e g. (
          o.withdrawn t now st e g.0,
          drain-Safe now (withdraw t st) (withdraw-Orderly t st e g.0) (withdraw-Safe t st g.1),
        );
        revoked = λ t u id now st e g. (
          o.revoked t u id now st e g.0,
          drain-Safe now (revoke t id st) (unfold revoke in g.0) (revoke-Safe t id st g.1),
        );
        fired = λ now st g. (
          o.fired now st g.0,
          drain-Safe now (record st { timer = false }) g.0
              (record { within = g.1.within; awaited = g.1.awaited; checked = g.1.checked }),
        );
        answered = λ t a now st e g. (
          o.answered t a now st e g.0,
          resume-Safe t a now st.waiting (record st { awaiting = none }) refl g.0 refl g.1.within
              (All-map (λ (q : Pending). st.awaiting ≡ some q.ticket → Roomy st q)
                (λ (q : Pending). t ≡ q.ticket → Roomy st q)
                (λ (q : Pending) h s. h (e ∙ ap some s)) st.waiting g.1.checked),
        );
      }

  -- The limits hold after every sequence of events: the active requests in all, and those of each
  -- host, project, agent and workspace, exceed their limit by no more than the number of requests that
  -- acquire_existing has let in. Without such adoptions they never exceed it.
  pub run-Within :
      (es : List Event)
      → let st = run p hooked es initial in Within p (adoptions st.settled) st.active
  run-Within es =
      (run-keeps p hooked Good invariant-Good es initial (
        record { sorted = tt; issued = tt; past = tt; ahead = tt; in_order = tt },
        record {
          within = record {
            total = ground arith;
            keyed = λ k v. unfold count_key count in ground arith;
          };
          awaited = λ t e. absurd (ground (arith, e));
          checked = tt;
        },
      )).1.within

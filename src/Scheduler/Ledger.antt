-- ===== src/Scheduler/Ledger.antt =====
-- src/concurrency-scheduler.ts: what the loop of drain keeps of the queue and the settled requests.
use superset_agent_orchestra.Base.{
  ℕ, ◌≡◌, Bool, ◌||◌, List, [], ◌∷◌, inl, inr, ltb, ◌==◌, nat_eq, Bool-cases, Option-cases,
}
use superset_agent_orchestra.Scheduler.Policy.{Policy, is_blocked}
use superset_agent_orchestra.Scheduler.Queue.{
  Pending, Outcome, Scheduler, Answer, Decision, pressure, is_waiting, rejects, admit, settle,
  drain_queue, drain, decide, resume, postpone,
}

-- A predicate on the queue, the settled tickets and the next ticket: it is kept when the head of the
-- queue settles and when it is postponed.
pub record Ledger {ℓ} (Q : List Pending → List (ℕ × Outcome) → ℕ → Type ℓ) : Type ℓ where
  pub settled :
      (out : Outcome) (q : Pending) (qs : List Pending) (ss : List (ℕ × Outcome)) (n : ℕ)
      → Q (q ∷ qs) ss n
      → Q qs ((q.ticket, out) ∷ ss) n
  pub postponed :
      (d : Decision) (now : ℕ) (q : Pending) (qs : List Pending) (ss : List (ℕ × Outcome)) (n : ℕ)
      → Q (q ∷ qs) ss n
      → Q (postpone d now q ∷ qs) ss n

module _ {ℓ} (p : Policy) (hooked : Bool) (Q : List Pending → List (ℕ × Outcome) → ℕ → Type ℓ)
    (laws : Ledger Q) where
  abbrev Kept : Scheduler → Type ℓ
  Kept st = Q st.waiting st.settled st.next_ticket

  drain_queue-keeps :
      (now : ℕ) (qs : List Pending) (st : Scheduler)
      → Q qs st.settled st.next_ticket
      → Kept (drain_queue p hooked now qs st)
  unfolding drain_queue
  drain_queue-keeps now [] st o = o
  drain_queue-keeps now (q ∷ qs) st o = elim (Bool-cases (is_blocked p st.active q.request)) [
    | inl b ↦ rw b o
    | inr b ↦ rw b (elim (Bool-cases (ltb now q.ready_at)) [
      | inl w ↦ rw w o
      | inr w ↦ rw w (elim (Bool-cases hooked) [
        | inl h ↦ rw h o
        | inr h ↦ rw h (
            drain_queue-keeps now qs (admit q st)
              (unfold admit in laws.settled Outcome.admitted q qs st.settled st.next_ticket o))
      ])
    ])
  ]

  pub drain-keeps :
      (now : ℕ) (st : Scheduler)
      → Q st.waiting st.settled st.next_ticket
      → Kept (drain p hooked now st)
  unfolding drain
  drain-keeps now st o = elim (Bool-cases (is_waiting st.awaiting)) [
    | inl w ↦ rw (w, drain) o
    | inr w ↦ rw (w, drain) (drain_queue-keeps now st.waiting st o)
  ]

  decide-keeps :
      (d : Decision) (now : ℕ) (q : Pending) (qs : List Pending) (st : Scheduler)
      → Q (q ∷ qs) st.settled st.next_ticket
      → Kept (decide p hooked d now q qs st)
  unfolding decide postpone
  decide-keeps d now q qs st o = elim (Bool-cases d.ready) [
    | inl r ↦
        rw (r, decide)
          (drain_queue-keeps now qs (admit q st)
            (unfold admit in laws.settled Outcome.admitted q qs st.settled st.next_ticket o))
    | inr r ↦ elim (Bool-cases (rejects p.overload || p.max_queued == 0)) [
      | inl e ↦
          rw (r, e, decide)
            (drain_queue-keeps now qs (settle q.ticket Outcome.overloaded st)
              (unfold settle in laws.settled Outcome.overloaded q qs st.settled st.next_ticket o))
      | inr e ↦ rw (r, e, decide) (laws.postponed d now q qs st.settled st.next_ticket o)
    ]
  ]

  pub resume-keeps :
      (t : ℕ) (a : Answer) (now : ℕ) (qs : List Pending) (st : Scheduler)
      → qs ≡ st.waiting
      → Q qs st.settled st.next_ticket
      → Kept (resume p hooked t a now qs st)
  unfolding resume
  resume-keeps t a now [] st e o = rw (← e) o
  resume-keeps t a now (q ∷ qs) st e o = elim (Bool-cases (q.ticket == t)) [
    | inr s ↦ rw (s, resume) (drain_queue-keeps now (q ∷ qs) st o)
    | inl s ↦ elim (Option-cases (pressure a)) [
      | inl n ↦ rw (s, n, resume) (drain_queue-keeps now (q ∷ qs) st o)
      | inr (d, n) ↦ rw (s, n, resume) (decide-keeps d now q qs st o)
    ]
  ]

-- ===== src/Scheduler/Events.antt =====
-- src/concurrency-scheduler.ts: what an invariant of the scheduler has to be kept by.
use superset_agent_orchestra.Base.{
  ℕ, String, ◌≡◌, refl, Bool, true, false, ◌&&◌, Option, none, some, List, [], ◌∷◌, any, find, inl,
  inr, ◌==◌, if◌then◌else◌, nat_eq, Bool-cases, Option-cases,
}
use superset_agent_orchestra.Scheduler.Policy.{Policy, Request, valid_request}
use superset_agent_orchestra.Scheduler.Queue.{
  Pending, Scheduler, Answer, is_known, drain, resume, answer_for, hooks_answer, acquire,
  acquire_existing, abort_signal, release, timer_fires, refusal, enqueue, adopt, withdraw, revoke,
  Event, acquires, adopts, aborts, releases, fires, answers, handle, run,
}

-- The branches on which an event changes the scheduler.
pub record Invariant {ℓ} (p : Policy) (hooked : Bool) (P : Scheduler → Type ℓ) : Type ℓ where
  pub enqueued :
      (r : Request) (s a : Bool) (now : ℕ) (st : Scheduler)
      → refusal p hooked r s a st ≡ none
      → P st
      → P (drain p hooked now (enqueue r s now st))
  pub adopted : (r : Request) (st : Scheduler) → is_known r.id st ≡ false → P st → P (adopt r st)
  pub withdrawn :
      (t now : ℕ) (st : Scheduler)
      → any (λ (q : Pending). q.ticket == t && q.signal) st.waiting ≡ true
      → P st
      → P (drain p hooked now (withdraw t st))
  pub revoked :
      (t u : ℕ) (id : String) (now : ℕ) (st : Scheduler)
      → find (λ (h : ℕ × String). h.0 == t) st.permits ≡ some (u, id)
      → P st
      → P (drain p hooked now (revoke t id st))
  pub fired :
      (now : ℕ) (st : Scheduler) → P st → P (drain p hooked now (record st { timer = false }))
  pub answered :
      (t : ℕ) (a : Answer) (now : ℕ) (st : Scheduler)
      → st.awaiting ≡ some t
      → P st
      → P (resume p hooked t a now st.waiting (record st { awaiting = none }))

module _ {ℓ} (p : Policy) (hooked : Bool) (P : Scheduler → Type ℓ)
    (inv : Invariant p hooked P) where
  answer_for-keeps :
      (o : Option ℕ) (a : Answer) (now : ℕ) (st : Scheduler)
      → st.awaiting ≡ o
      → P st
      → P (answer_for p hooked o a now st)
  unfolding answer_for
  answer_for-keeps none a now st e h = h
  answer_for-keeps (some t) a now st e h = inv.answered t a now st e h

  timer_fires-keeps :
      (b : Bool) (now : ℕ) (st : Scheduler)
      → P st
      → P (if b then drain p hooked now (record st { timer = false }) else st)
  timer_fires-keeps true now st h = inv.fired now st h
  timer_fires-keeps false now st h = h

  pub handle-keeps : (e : Event) (st : Scheduler) → P st → P (handle p hooked e st)
  unfolding handle acquire acquire_existing abort_signal release
  handle-keeps (acquires r s a now) st h = elim (Option-cases (refusal p hooked r s a st)) [
    | inl n ↦ rw (n, handle, acquire) (inv.enqueued r s a now st n h)
    | inr (why, n) ↦ rw (n, handle, acquire) h
  ]
  handle-keeps (adopts r) st h = elim (Bool-cases (valid_request r)) [
    | inr e ↦ rw (e, handle, acquire_existing) h
    | inl e ↦ elim (Bool-cases (is_known r.id st)) [
      | inl k ↦ rw (e, k, handle, acquire_existing) h
      | inr k ↦ rw (e, k, handle, acquire_existing) (inv.adopted r st k h)
    ]
  ]
  handle-keeps (aborts t now) st h =
      elim (Bool-cases (any (λ (q : Pending). q.ticket == t && q.signal) st.waiting)) [
        | inl e ↦ rw (e, handle, abort_signal) (inv.withdrawn t now st e h)
        | inr e ↦ rw (e, handle, abort_signal) h
      ]
  handle-keeps (releases t now) st h =
      elim (Option-cases (find (λ (h : ℕ × String). h.0 == t) st.permits)) [
        | inl n ↦ rw (n, handle, release) h
        | inr ((u, id), n) ↦ rw (n, handle, release) (inv.revoked t u id now st n h)
      ]
  handle-keeps (fires now) st h = unfold timer_fires in timer_fires-keeps st.timer now st h
  handle-keeps (answers a now) st h =
      unfold hooks_answer in answer_for-keeps st.awaiting a now st refl h

  -- A predicate that the branches keep holds after every sequence of events.
  pub run-keeps : (es : List Event) (st : Scheduler) → P st → P (run p hooked es st)
  unfolding run
  run-keeps [] st h = h
  run-keeps (e ∷ es) st h = run-keeps es (handle p hooked e st) (handle-keeps e st h)

-- ===== src/Scheduler/Queue.antt =====
-- src/concurrency-scheduler.ts: the queue, the loop that admits from it, and the events that reach a
-- scheduler. A ticket is the identity of a pending request. Between two events the code is draining
-- exactly while it waits for the pressure hooks, which `awaiting` records. The clock is read once in
-- an event. A timer is only known to be set: it may fire at any time.
use superset_agent_orchestra.Base.{
  ℕ, ◌+◌, max, String, Bool, true, false, ◌&&◌, ◌||◌, not, Option, none, some, List, [], ◌∷◌, ◌++◌,
  any, find, select, length, ltb, leb, ◌==◌, if◌then◌else◌, nat_eq, string_eq, option_nat_eq,
}
use superset_agent_orchestra.Scheduler.Policy.{
  Overload, reject, Policy, Request, valid_request, put, remove, blocked_by, is_blocked,
}

pub record Pending : Type 0 where
  pub ticket : ℕ
  pub request : Request
  pub signal : Bool
  pub enqueued_at : ℕ
  pub ready_at : ℕ
  pub reason : Option String

-- How the promise of a pending request settles; `adopted` is what `acquireExisting` returns.
pub data Outcome : Type 0 where
  admitted adopted cancelled overloaded : Outcome

-- The admissions that can still be released, with the id that each holds.
pub record Scheduler : Type 0 where
  pub waiting : List Pending
  pub active : List Request
  pub permits : List (ℕ × String)
  pub settled : List (ℕ × Outcome)
  pub next_ticket : ℕ
  pub timer : Bool
  pub awaiting : Option ℕ

abbrev pub initial : Scheduler
initial = record {
  waiting = [];
  active = [];
  permits = [];
  settled = [];
  next_ticket = 0;
  timer = false;
  awaiting = none;
}

pub record Decision : Type 0 where
  pub ready : Bool
  pub retry_after_ms : Option ℕ
  pub reason : Option String

-- `checkPressure`: the first decision that is not ready.
unfoldable pub check_pressure : List (Request → Decision) → Request → Decision
check_pressure [] r = record { ready = true; retry_after_ms = none; reason = none }
check_pressure (hook ∷ hooks) r =
    let rest = check_pressure hooks r in if (hook r).ready then rest else hook r

-- What ends the wait for the hooks.
pub data Answer : Type 0 where
  decided : Decision → Answer
  threw timed_out interrupted : Answer

unfoldable pub pressure : Answer → Option Decision
pressure (decided d) = some d
pressure threw =
    some (record { ready = false; retry_after_ms = some 1000; reason = some "pressure_hook_error" })
pressure timed_out =
    some (record { ready = false; retry_after_ms = none; reason = some "pressure_hook_timeout" })
pressure interrupted = none

abbrev pub or_default {ℓ} : {A : Type ℓ} → Option A → A → A
or_default none d = d
or_default (some a) d = a

abbrev pub is_waiting : Option ℕ → Bool
is_waiting none = false
is_waiting (some t) = true

abbrev pub rejects : Overload → Bool
rejects reject = true
rejects _ = false

-- `activate`, for a permit of its own.
unfoldable pub activate : ℕ → Request → Scheduler → Scheduler
activate t r st = record st { active = put r st.active; permits = (t, r.id) ∷ st.permits }

unfoldable pub settle : ℕ → Outcome → Scheduler → Scheduler
settle t o st = record st { settled = (t, o) ∷ st.settled }

unfoldable pub admit : Pending → Scheduler → Scheduler
unfolding activate settle
admit q st = settle q.ticket Outcome.admitted (activate q.ticket q.request st)

-- `this.active.has(id) || this.queue.some(...)`
unfoldable pub is_known : String → Scheduler → Bool
is_known id st =
    any (λ (r : Request). r.id == id) st.active
    || any (λ (q : Pending). q.request.id == id) st.waiting

-- Why `acquire` or `acquireExisting` throws or rejects at once.
pub data Refusal : Type 0 where
  invalid aborted duplicate : Refusal
  overload : ℕ → List String → Refusal

pub data Reply : Type 0 where
  issued : ℕ → Reply
  refused : Refusal → Reply

-- What `acquire` puts in the queue.
abbrev pub queued : Request → Bool → ℕ → Scheduler → Pending
queued r signal now st = record {
  ticket = st.next_ticket;
  request = r;
  signal = signal;
  enqueued_at = now;
  ready_at = 0;
  reason = none;
}

-- A new pending request, at the end of the queue.
unfoldable pub enqueue : Request → Bool → ℕ → Scheduler → Scheduler
enqueue r signal now st = record st {
  next_ticket = st.next_ticket + 1;
  waiting = st.waiting ++ queued r signal now st ∷ [];
}

unfoldable pub adopt : Request → Scheduler → Scheduler
unfolding activate settle
adopt r st =
    settle st.next_ticket Outcome.adopted
      (activate st.next_ticket r (record st { next_ticket = st.next_ticket + 1 }))

-- `acquireExisting`, which no limit stops.
unfoldable pub acquire_existing : Request → Scheduler → Reply × Scheduler
unfolding adopt is_known
acquire_existing r st =
    if not (valid_request r)
    then (refused invalid, st)
    else if is_known r.id st
    then (refused duplicate, st)
    else (issued st.next_ticket, adopt r st)

-- The pending request leaves the queue, and its timer is cleared.
unfoldable pub withdraw : ℕ → Scheduler → Scheduler
unfolding settle
withdraw t st = settle t Outcome.cancelled (record st {
  waiting = select (λ (q : Pending). not (q.ticket == t)) st.waiting;
  timer = false;
})

unfoldable pub revoke : ℕ → String → Scheduler → Scheduler
revoke t id st = record st {
  active = remove id st.active;
  permits = select (λ (h : ℕ × String). not (h.0 == t)) st.permits;
}

-- The hooks are asked again later, and `snapshot` shows their reason.
unfoldable pub postpone : Decision → ℕ → Pending → Pending
postpone d now q = record q {
  ready_at = now + max 1 (or_default d.retry_after_ms 1000);
  reason = some (or_default d.reason "resource_pressure");
}

module _ (p : Policy) (hooked : Bool) where
  -- The loop of `drain`, up to its end or to the next wait for the hooks.
  unfoldable pub drain_queue : ℕ → List Pending → Scheduler → Scheduler
  drain_queue now [] st = record st { waiting = [] }
  drain_queue now (q ∷ qs) st =
      let rest = drain_queue now qs (admit q st) in
      let stay = record st { waiting = q ∷ qs } in
      if is_blocked p st.active q.request
      then stay
      else if ltb now q.ready_at
      then record stay { timer = true }
      else if hooked
      then record stay { awaiting = some q.ticket }
      else rest

  unfoldable pub drain : ℕ → Scheduler → Scheduler
  drain now st = if is_waiting st.awaiting then st else drain_queue now st.waiting st

  -- What the loop does with the head of the queue when the hooks have answered.
  unfoldable pub decide : Decision → ℕ → Pending → List Pending → Scheduler → Scheduler
  unfolding postpone
  decide d now q qs st =
      if d.ready
      then drain_queue now qs (admit q st)
      else if rejects p.overload || p.max_queued == 0
      then drain_queue now qs (settle q.ticket Outcome.overloaded st)
      else record st { waiting = postpone d now q ∷ qs; timer = true }

  unfoldable pub resume : ℕ → Answer → ℕ → List Pending → Scheduler → Scheduler
  unfolding decide pressure
  resume t answer now [] st = st
  resume t answer now (q ∷ qs) st =
      if not (q.ticket == t) then drain_queue now (q ∷ qs) st else elim (pressure answer) [
        | none ↦ drain_queue now (q ∷ qs) st
        | some d ↦ decide d now q qs st
      ]

  unfoldable pub answer_for : Option ℕ → Answer → ℕ → Scheduler → Scheduler
  unfolding resume
  answer_for none answer now st = st
  answer_for (some t) answer now st = resume t answer now st.waiting (record st { awaiting = none })

  -- The hooks answer, time out or fail, or the abort of the request interrupts the wait.
  unfoldable pub hooks_answer : Answer → ℕ → Scheduler → Scheduler
  unfolding answer_for
  hooks_answer answer now st = answer_for st.awaiting answer now st

  -- Why `acquire` does not queue a request, if it does not.
  unfoldable pub refusal : Request → Bool → Bool → Scheduler → Option Refusal
  unfolding is_known
  refusal r signal abort st =
      let limits = blocked_by p st.active r in
      let depth = length st.waiting in
      let full = ltb 0 depth || ltb 0 (length limits) in
      if not (valid_request r)
      then some invalid
      else if signal && abort
      then some aborted
      else if is_known r.id st
      then some duplicate
      else if rejects p.overload && full
      then some (overload depth limits)
      else if leb p.max_queued depth && full
      then some (overload depth limits)
      else none

  unfoldable pub acquire : Request → Bool → Bool → ℕ → Scheduler → Reply × Scheduler
  unfolding drain refusal enqueue
  acquire r signal abort now st = elim (refusal r signal abort st) [
    | some why ↦ (refused why, st)
    | none ↦ (issued st.next_ticket, drain now (enqueue r signal now st))
  ]

  -- `onAbort`; the listener is gone once the request is settled.
  unfoldable pub abort_signal : ℕ → ℕ → Scheduler → Scheduler
  unfolding drain withdraw
  abort_signal t now st =
      if any (λ (q : Pending). q.ticket == t && q.signal) st.waiting
      then drain now (withdraw t st)
      else st

  -- The closure that `activate` returns; a second call finds no permit.
  unfoldable pub release : ℕ → ℕ → Scheduler → Scheduler
  unfolding drain revoke
  release t now st = elim (find (λ (h : ℕ × String). h.0 == t) st.permits) [
    | none ↦ st
    | some (u, id) ↦ drain now (revoke t id st)
  ]

  unfoldable pub timer_fires : ℕ → Scheduler → Scheduler
  unfolding drain
  timer_fires now st = if st.timer then drain now (record st { timer = false }) else st

-- The events, with the instant at which each happens.
pub data Event : Type 0 where
  acquires : Request → Bool → Bool → ℕ → Event
  adopts : Request → Event
  aborts : ℕ → ℕ → Event
  releases : ℕ → ℕ → Event
  fires : ℕ → Event
  answers : Answer → ℕ → Event

unfoldable pub handle : Policy → Bool → Event → Scheduler → Scheduler
handle p hooked (acquires r signal abort now) st = (acquire p hooked r signal abort now st).1
handle p hooked (adopts r) st = (acquire_existing r st).1
handle p hooked (aborts t now) st = abort_signal p hooked t now st
handle p hooked (releases t now) st = release p hooked t now st
handle p hooked (fires now) st = timer_fires p hooked now st
handle p hooked (answers a now) st = hooks_answer p hooked a now st

unfoldable pub run : Policy → Bool → List Event → Scheduler → Scheduler
run p hooked [] st = st
run p hooked (e ∷ es) st = run p hooked es (handle p hooked e st)

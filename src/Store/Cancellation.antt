-- ===== src/Store/Cancellation.antt =====
-- src/store.ts: cancellation, its delivery, deadlines and late evidence, on one worker.
use superset_agent_orchestra.Base.{
  ℕ, ◌-◌, ◌≤◌, String, ◌≡◌, refl, ◌↔◌, Bool, true, false, ◌&&◌, ◌||◌, not, Option, none, some, List,
  [], ◌∷◌, ◌++◌, inl, inr, any, length, length-drop, ltb, ◌==◌, if◌then◌else◌, nat_eq, string_eq,
  option_string_eq, arith, Bool-cases, All,
}
use superset_agent_orchestra.Store.State.{
  WorkerStatus, LateObservation, Worker, ok, err, is_terminal, is_canceling, is_some, allows,
  stop_reasons,
}
use superset_agent_orchestra.Store.Workers.{
  recover_claims, bind_worker_run, set_worker_deadline, request_cancellation,
  claim_cancellation_delivery, release_cancellation_delivery, mark_cancellation_delivered,
  mark_provider_stop_delivered, mark_provider_stop_unsupported, handle_unsupported_cancellation,
  claim_provider_stop, release_provider_stop, clear_cancellation, or_else,
}
use superset_agent_orchestra.Store.Outcomes.{
  is_overdue, append_late_observation, record_terminal, settle_late, settle_cancellation, expire,
  record_result, settled_reason, valid_stop_reason, is_due, max_late_observations,
}
use superset_agent_orchestra.Store.Calls.{
  Call, bind_run, set_deadline, request_cancel, claim_delivery, release_delivery, mark_delivered,
  mark_stop_delivered, mark_stop_unsupported, handle_unsupported, claim_stop, release_stop,
  clear_cancel, terminal, settle, expires, result, change_of, report,
}

-- A second request changes nothing and claims nothing, whatever its reason, and so the first reason
-- is preserved.
request-request :
    (reason other : String) (detail more : Option String) (at later : ℕ) (l m : Bool) (w : Worker)
    → let first = (request_cancellation reason detail at l w).0 in
      request_cancellation other more later m first ≡ (first, report false)
unfolding request_cancellation is_terminal
request-request reason other detail more at later l m w = ground arith

-- Of an active worker with a run, or one that is being launched, clearing undoes a request: the
-- status is the one before, and no trace of the cancellation is left.
clear-request :
    (reason : String) (detail : Option String) (at : ℕ) (l : Bool) (w : Worker)
    → is_terminal w.status ≡ false
    → is_canceling w.status ≡ false
    → (is_some w.run_id || l) ≡ true
    → clear_cancellation (request_cancellation reason detail at l w).0 ≡ record w {
      pre_cancel_status = none;
      cancel_requested_at = none;
      cancellation_delivery_pending = false;
      cancellation_delivery_claimed = false;
      cancellation_delivered = false;
      stop_reason = none;
      stop_detail = none;
    }
unfolding request_cancellation clear_cancellation
clear-request reason detail at l w t c r = ground arith

-- A call that a worker refuses leaves it as it is.
unfoldable pub apply : Call → Bool → Worker → Worker
apply c l w = elim (change_of c l w) [ ok (v, i) ↦ v | err e ↦ w ]

unfoldable pub apply_all : List (Call × Bool) → Worker → Worker
apply_all [] w = w
apply_all ((c, l) ∷ cs) w = apply_all cs (apply c l w)

-- The calls after which a stop may be delivered again.
abbrev pub renews : Call → Bool
renews (request_cancel reason detail at) = true
renews release_delivery = true
renews _ = false

idle_after :
    (c : Call) (l : Bool) (w : Worker)
    → renews c ≡ false
    → w.cancellation_delivery_pending ≡ false
    → (apply c l w).cancellation_delivery_pending ≡ false
unfolding apply change_of
idle_after (bind_run r e) l w n h = unfold bind_worker_run in ground arith
idle_after (set_deadline d) l w n h = unfold set_worker_deadline in ground arith
idle_after (request_cancel r d at) l w n h = absurd (ground arith)
idle_after claim_delivery l w n h = unfold claim_cancellation_delivery in ground arith
idle_after release_delivery l w n h = absurd (ground arith)
idle_after mark_delivered l w n h = unfold mark_cancellation_delivered in ground arith
idle_after mark_stop_delivered l w n h = unfold mark_provider_stop_delivered in ground arith
idle_after mark_stop_unsupported l w n h = unfold mark_provider_stop_unsupported in ground arith
idle_after handle_unsupported l w n h = unfold handle_unsupported_cancellation in ground arith
idle_after claim_stop l w n h = unfold claim_provider_stop in ground arith
idle_after release_stop l w n h = unfold release_provider_stop in ground arith
idle_after clear_cancel l w n h = unfold clear_cancellation in ground arith
idle_after (terminal s r p at) l w n h = unfold record_terminal in ground arith
idle_after (settle s r p at k) l w n h = unfold settle_cancellation settle_late in ground arith
idle_after (expires d at) l w n h = unfold expire in ground arith
idle_after (result s r at) l w n h = unfold record_result in ground arith

idle_after_calls :
    (cs : List (Call × Bool)) (w : Worker)
    → All (λ c. renews c.0 ≡ false) cs
    → w.cancellation_delivery_pending ≡ false
    → (apply_all cs w).cancellation_delivery_pending ≡ false
unfolding apply_all
idle_after_calls [] w n h = h
idle_after_calls ((c, l) ∷ cs) w n h =
    idle_after_calls cs (apply c l w) n.1 (idle_after c l w n.0 h)

-- What happens to a worker: a call, or a restart that recovers the claims of the one before.
pub data Happening : Type 0 where
  calls : Call → Bool → Happening
  restarts : Happening

unfoldable pub happen : List Happening → Worker → Worker
happen [] w = w
happen (calls c l ∷ hs) w = happen hs (apply c l w)
happen (restarts ∷ hs) w = happen hs (recover_claims w)

-- What may give up a claim: a new request, a release, or a restart.
abbrev pub reopens : Happening → Bool
reopens (calls c l) = renews c
reopens restarts = true

idle_after_all :
    (hs : List Happening) (w : Worker)
    → any reopens hs ≡ false
    → w.cancellation_delivery_pending ≡ false
    → (happen hs w).cancellation_delivery_pending ≡ false
unfolding happen any
idle_after_all [] w n h = h
idle_after_all (calls c l ∷ hs) w n h =
    idle_after_all hs (apply c l w) (ground (arith, n)) (idle_after c l w (ground (arith, n)) h)
idle_after_all (restarts ∷ hs) w n h = absurd (ground (arith, n))

-- Of all the callers that try to claim a delivery only one gets it: between two successful claims,
-- whatever else happens, there is a new request, a release of the claim, or a restart. A restart
-- while the claim of an active worker with a run is held lets it be claimed again.
pub claim_delivery-once :
    (w : Worker) (hs : List Happening)
    → (claim_cancellation_delivery w).1 ≡ true
    → let claimed = (claim_cancellation_delivery w).0 in
      ((claim_cancellation_delivery (happen hs claimed)).1 ≡ true → any reopens hs ≡ true)
      × (is_some w.run_id ≡ true
          → is_terminal w.status ≡ false
          → (claim_cancellation_delivery (happen (restarts ∷ []) claimed)).1 ≡ true)
unfolding claim_cancellation_delivery any happen recover_claims is_terminal
claim_delivery-once w hs h =
    let claimed = (claim_cancellation_delivery w).0 in
    let none_pending : claimed.cancellation_delivery_pending ≡ false = ground arith in
    (
      λ again. elim (Bool-cases (any reopens hs)) [
        | inl y ↦ y
        | inr n ↦ absurd (ground (arith, again, idle_after_all hs claimed n none_pending))
      ],
      λ r active. ground (arith, h, r, active),
    )

is_due-exact :
    (deadline : Option ℕ) (at : ℕ)
    → (is_due deadline at ≡ true) ↔ ((due : ℕ) × (deadline ≡ some due) × (due ≤ at))
is_due-exact none at = (λ h. absurd (ground (arith, h)), λ (due, e, _). absurd (cc))
is_due-exact (some d) at = (
  λ h. (d, refl, ground (arith, h)),
  λ (due, e, n). let same : d ≡ due = cc in ground (arith, same, n),
)

-- With the deadline given, or else its own, a worker expires exactly if it has not settled and that
-- deadline is there and not after the instant; it is then failed with the deadline as its reason.
-- Under its own deadline it expires exactly if the sweep lists it as overdue, and after an attempt
-- to expire it, successful or not, it is neither overdue nor claimed by a second one.
pub expire-exact :
    (deadline : Option ℕ) (at : ℕ) (l : Bool) (w : Worker)
    → let (v, claimed) = expire deadline at l w in
      ((claimed ≡ true) ↔ (
        (is_terminal w.status ≡ false)
        × ((due : ℕ) × (or_else deadline w.deadline_at ≡ some due) × (due ≤ at))))
      × (claimed ≡ true
          → (v.status ≡ WorkerStatus.failed)
            × (v.stop_reason ≡ some "deadline_exceeded")
            × (v.completed_at ≡ some at))
      × ((expire none at l w).1 ≡ is_overdue at w)
      × (is_overdue at v ≡ false)
      × ((expire none at l v).1 ≡ false)
unfolding expire is_terminal is_overdue
expire-exact deadline at l w = (
  (
    λ c. (
      ground (arith, c),
      (is_due-exact (or_else deadline w.deadline_at) at).0 (ground (arith, c)),
    ),
    λ (active, due).
        let is_now = (is_due-exact (or_else deadline w.deadline_at) at).1 due in
        ground (arith, active, is_now),
  ),
  ground arith,
  ground arith,
  ground arith,
  ground arith,
)

late_status :
    (s : WorkerStatus) (r : Option String) (at : ℕ) (k : Bool) (w : Worker)
    → (settle_late s r at k w).status ≡ w.status
unfolding settle_late
late_status s r at k w = ground arith

-- A provider observation settles a worker exactly if it is canceling, and then with the observed
-- status; a second observation, of any kind, does not settle it again.
pub settle-once :
    (s t : WorkerStatus) (r p q u : Option String) (at later : ℕ) (k m : Bool) (w : Worker)
    → is_canceling s ≡ false
    → let (v, claimed) = settle_cancellation s r p at k w in
      ((claimed ≡ true) ↔ (is_canceling w.status ≡ true))
      × (claimed ≡ true → v.status ≡ s)
      × ((settle_cancellation t q u later m v).1 ≡ false)
unfolding settle_cancellation is_terminal
settle-once s t r p q u at later k m w h =
    ((ground arith, ground arith), ground arith, ground (arith, late_status s r at k w))

-- The reason that a terminal outcome is stored with is one that the schema allows for its status,
-- if the reason given passes the check and a canceled worker's own reason is one for cancellation.
pub settled_reason-allows :
    (status : WorkerStatus) (canceling : Bool) (given current : Option String)
    → valid_stop_reason status given ≡ true
    → allows WorkerStatus.canceled current ≡ true
    → allows status (settled_reason status canceling given current) ≡ true
unfolding settled_reason valid_stop_reason any
settled_reason-allows status canceling (some g) current v c = unfold stop_reasons in ground arith
settled_reason-allows WorkerStatus.succeeded true none current v c = refl
settled_reason-allows WorkerStatus.succeeded false none current v c = refl
settled_reason-allows WorkerStatus.failed b none current v c = refl
settled_reason-allows WorkerStatus.canceled b none none v c = refl
settled_reason-allows WorkerStatus.canceled b none (some r) v c = c
settled_reason-allows WorkerStatus.requested b none current v c = refl
settled_reason-allows WorkerStatus.running b none current v c = refl
settled_reason-allows WorkerStatus.canceling b none current v c = refl
settled_reason-allows WorkerStatus.unknown_outcome b none current v c = refl

abbrev pub Bounded : Worker → Type 0
Bounded w = length w.late_observations ≤ max_late_observations

append-Bounded : (o : LateObservation) (w : Worker) → Bounded (append_late_observation o w)
unfolding append_late_observation
append-Bounded o w =
    let all_of = w.late_observations ++ o ∷ [] in
    elim (Bool-cases (ltb 32 (length all_of))) [
      | inl e ↦ rw e (omega (arith, length-drop (length all_of - 32) all_of))
      | inr e ↦ rw e (ground (arith, e))
    ]

late-Bounded :
    (s : WorkerStatus) (r : Option String) (at : ℕ) (k : Bool) (w : Worker)
    → Bounded w
    → Bounded (settle_late s r at k w)
unfolding settle_late
late-Bounded s r at k w b =
    let retained = is_some r && not (is_some w.result) in
    let changed = is_some r && not (w.result == r) in
    elim (Bool-cases (retained || (changed || not k))) [
      | inl e ↦
          rw (e, settle_late)
            (append-Bounded (record { observed_at = at; status = s; retained_result = retained })
              (record w {
                result =
                    if retained || (is_some r && w.lifecycle_reconcile_pending)
                    then r
                    else w.result;
              }))
      | inr e ↦ rw (e, settle_late) b
    ]

terminal-Bounded :
    (s : WorkerStatus) (r p : Option String) (at : ℕ) (w : Worker)
    → Bounded w
    → Bounded (record_terminal s r p at w)
unfolding record_terminal
terminal-Bounded s r p at w b =
    let retained = is_some r && not (is_some w.result) in
    elim (Bool-cases (is_terminal w.status)) [
      | inl e ↦
          rw (e, record_terminal)
            (append-Bounded (record { observed_at = at; status = s; retained_result = retained })
              (record w {
                result = if retained then r else w.result;
                lifecycle_reconcile_pending = false;
              }))
      | inr e ↦ rw (e, record_terminal) b
    ]

apply-Bounded : (c : Call) (l : Bool) (w : Worker) → Bounded w → Bounded (apply c l w)
unfolding apply change_of
apply-Bounded (bind_run r e) l w b = unfold bind_worker_run in ground arith
apply-Bounded (set_deadline d) l w b = unfold set_worker_deadline in ground arith
apply-Bounded (request_cancel r d at) l w b = unfold request_cancellation in ground arith
apply-Bounded claim_delivery l w b = unfold claim_cancellation_delivery in ground arith
apply-Bounded release_delivery l w b = unfold release_cancellation_delivery in ground arith
apply-Bounded mark_delivered l w b = unfold mark_cancellation_delivered in ground arith
apply-Bounded mark_stop_delivered l w b = unfold mark_provider_stop_delivered in ground arith
apply-Bounded mark_stop_unsupported l w b = unfold mark_provider_stop_unsupported in ground arith
apply-Bounded handle_unsupported l w b = unfold handle_unsupported_cancellation in ground arith
apply-Bounded claim_stop l w b = unfold claim_provider_stop in ground arith
apply-Bounded release_stop l w b = unfold release_provider_stop in ground arith
apply-Bounded clear_cancel l w b = unfold clear_cancellation in ground arith
apply-Bounded (terminal s r p at) l w b = terminal-Bounded s r p at w b
apply-Bounded (settle s r p at k) l w b =
    unfold settle_cancellation in ground (arith, late-Bounded s r at k w b)
apply-Bounded (expires d at) l w b = unfold expire in ground arith
apply-Bounded (result s r at) l w b = unfold record_result in ground arith

-- The late observations of a worker stay within their bound of 32, whatever calls reach it.
pub apply_all-Bounded :
    (cs : List (Call × Bool)) (w : Worker) → Bounded w → Bounded (apply_all cs w)
unfolding apply_all
apply_all-Bounded [] w b = b
apply_all-Bounded ((c, l) ∷ cs) w b = apply_all-Bounded cs (apply c l w) (apply-Bounded c l w b)

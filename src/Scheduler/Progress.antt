-- ===== src/Scheduler/Progress.antt =====
-- src/concurrency-scheduler.ts: the queue is never left without something that resumes it.
use superset_agent_orchestra.Base.{
  ℕ, ◌+◌, ◌≤◌, String, ◌≡◌, refl, Bool, true, false, ◌||◌, none, List, [], ◌∷◌, any, inl, inr, ◌⊎◌,
  count, length, ltb, leb, ◌==◌, nat_eq, string_eq, option_nat_eq, arith, Bool-cases, Option-cases,
}
use superset_agent_orchestra.Scheduler.Policy.{
  Policy, Request, Key, host, project, agent, workspace, value_of, valid_policy, put, count_key,
  reached, is_blocked,
}
use superset_agent_orchestra.Scheduler.Events.{Invariant, run-keeps}
use superset_agent_orchestra.Scheduler.Queue.{
  Pending, Scheduler, initial, Answer, Decision, pressure, is_waiting, rejects, admit, is_known,
  drain_queue, drain, decide, resume, enqueue, adopt, withdraw, revoke, Event, run,
}

-- The head of the queue, if there is one, exceeds a limit.
unfoldable pub head_blocked : Policy → List Request → List Pending → Bool
head_blocked p active [] = true
head_blocked p active (q ∷ qs) = is_blocked p active q.request

-- The hooks will answer, the timer will fire, or only a release can help the head of the queue.
unfoldable pub is_awake : Policy → Scheduler → Bool
unfolding head_blocked
is_awake p st = is_waiting st.awaiting || (st.timer || head_blocked p st.active st.waiting)

-- What can resume the queue: the hooks that are being asked, the timer, or the release of an
-- active request.
unfoldable pub is_resumable : Scheduler → Bool
is_resumable st = is_waiting st.awaiting || (st.timer || ltb 0 (length st.active))

pub blocked-reached :
    (p : Policy) (active : List Request) (r : Request)
    → is_blocked p active r ≡ (
        leb p.global (length active)
        || (reached p active host r
            || (reached p active project r
                || (reached p active agent r || reached p active workspace r))))
unfolding is_blocked
blocked-reached p active r = ground arith

pub count-put_new :
    (k : Key) (v : String) (r : Request) (rs : List Request)
    → any (λ (q : Request). q.id == r.id) rs ≡ false
    → count_key k v rs ≤ count_key k v (put r rs)
unfolding count_key put count any
count-put_new k v r [] h = ground arith
count-put_new k v r (q ∷ rs) h = ground (arith, count-put_new k v r rs)

pub length-put_new :
    (r : Request) (rs : List Request)
    → any (λ (q : Request). q.id == r.id) rs ≡ false
    → length (put r rs) ≡ length rs + 1
unfolding put any
length-put_new r [] h = ground arith
length-put_new r (q ∷ rs) h = ground (arith, length-put_new r rs)

reached-put :
    (p : Policy) (k : Key) (r s : Request) (rs : List Request)
    → any (λ (q : Request). q.id == s.id) rs ≡ false
    → reached p rs k r ≡ true
    → reached p (put s rs) k r ≡ true
unfolding reached
reached-put p k r s rs h b = ground (arith, count-put_new k (value_of k r) s rs h)

-- One more active request frees nothing.
pub blocked-put :
    (p : Policy) (r s : Request) (rs : List Request)
    → any (λ (q : Request). q.id == s.id) rs ≡ false
    → is_blocked p rs r ≡ true
    → is_blocked p (put s rs) r ≡ true
blocked-put p r s rs h b = rw (blocked-reached p (put s rs) r) (
    let e : (leb p.global (length rs)
          || (reached p rs host r
              || (reached p rs project r || (reached p rs agent r || reached p rs workspace r))))
        ≡ true =
      rw (blocked-reached p rs r) at b in
    ground (
      arith,
      e,
      length-put_new s rs h,
      reached-put p host r s rs h,
      reached-put p project r s rs h,
      reached-put p agent r s rs h,
      reached-put p workspace r s rs h,
    ))

module _ (p : Policy) (hooked : Bool) where
  drain_queue-awake :
      (now : ℕ) (qs : List Pending) (st : Scheduler)
      → is_awake p (drain_queue p hooked now qs st) ≡ true
  unfolding drain_queue is_awake
  drain_queue-awake now [] st = ground arith
  drain_queue-awake now (q ∷ qs) st = ground (arith, drain_queue-awake now qs (admit q st))

  drain-awake : (now : ℕ) (st : Scheduler) → is_awake p (drain p hooked now st) ≡ true
  unfolding drain
  drain-awake now st = elim (Bool-cases (is_waiting st.awaiting)) [
    | inl w ↦ rw w (unfold is_awake in ground (arith, w))
    | inr w ↦ rw w (drain_queue-awake now st.waiting st)
  ]

  decide-awake :
      (d : Decision) (now : ℕ) (q : Pending) (qs : List Pending) (st : Scheduler)
      → is_awake p (decide p hooked d now q qs st) ≡ true
  unfolding decide
  decide-awake d now q qs st = elim (Bool-cases d.ready) [
    | inl r ↦ rw r (drain_queue-awake now qs (admit q st))
    | inr r ↦ rw r (elim (Bool-cases (rejects p.overload || p.max_queued == 0)) [
      | inl e ↦ rw e (drain_queue-awake now qs _)
      | inr e ↦ rw e (unfold is_awake in ground arith)
    ])
  ]

  resume-awake :
      (t : ℕ) (a : Answer) (now : ℕ) (qs : List Pending) (st : Scheduler)
      → qs ≡ st.waiting
      → is_awake p (resume p hooked t a now qs st) ≡ true
  unfolding resume
  resume-awake t a now [] st e = unfold is_awake in rw (← e) (ground arith)
  resume-awake t a now (q ∷ qs) st e = elim (Bool-cases (q.ticket == t)) [
    | inr s ↦ rw s (drain_queue-awake now (q ∷ qs) st)
    | inl s ↦ rw s (elim (Option-cases (pressure a)) [
      | inl n ↦ rw n (drain_queue-awake now (q ∷ qs) st)
      | inr (d, n) ↦ rw n (decide-awake d now q qs st)
    ])
  ]

  head_blocked-put :
      (r : Request) (active : List Request) (qs : List Pending)
      → any (λ (q : Request). q.id == r.id) active ≡ false
      → head_blocked p active qs ≡ true
      → head_blocked p (put r active) qs ≡ true
  unfolding head_blocked
  head_blocked-put r active [] k h = h
  head_blocked-put r active (q ∷ qs) k h = blocked-put p q.request r active k h

  adopt-awake :
      (r : Request) (st : Scheduler)
      → is_known r.id st ≡ false
      → is_awake p st ≡ true
      → is_awake p (adopt r st) ≡ true
  unfolding adopt is_awake is_known
  adopt-awake r st k h = ground (arith, h, k, head_blocked-put r st.active st.waiting)

  awake_invariant : Invariant p hooked (λ st. is_awake p st ≡ true)
  awake_invariant = record {
    enqueued = λ r s a now st n h. drain-awake now (enqueue r s now st);
    adopted = λ r st k h. adopt-awake r st k h;
    withdrawn = λ t now st e h. drain-awake now (withdraw t st);
    revoked = λ t u id now st e h. drain-awake now (revoke t id st);
    fired = λ now st h. drain-awake now (record st { timer = false });
    answered =
        λ t a now st e h. resume-awake t a now st.waiting (record st { awaiting = none }) refl;
  }

  count-length : (k : Key) (v : String) (rs : List Request) → count_key k v rs ≤ length rs
  unfolding count_key count
  count-length k v [] = ground arith
  count-length k v (r ∷ rs) = ground (arith, count-length k v rs)

  blocked-active :
      (active : List Request) (r : Request)
      → valid_policy p ≡ true
      → is_blocked p active r ≡ true
      → ltb 0 (length active) ≡ true
  unfolding valid_policy reached
  blocked-active active r v b =
      let e : (leb p.global (length active)
            || (reached p active host r
                || (reached p active project r
                    || (reached p active agent r || reached p active workspace r))))
          ≡ true =
        rw (blocked-reached p active r) at b in
      ground (
        arith,
        e,
        v,
        count-length host (value_of host r) active,
        count-length project (value_of project r) active,
        count-length agent (value_of agent r) active,
        count-length workspace (value_of workspace r) active,
      )

  blocked-resumable :
      (active : List Request) (qs : List Pending)
      → valid_policy p ≡ true
      → head_blocked p active qs ≡ true
      → (qs ≡ []) ⊎ (ltb 0 (length active) ≡ true)
  unfolding head_blocked
  blocked-resumable active [] v h = inl refl
  blocked-resumable active (q ∷ qs) v h = inr (blocked-active active q.request v h)

  -- The queue never stalls: under a valid policy, after every sequence of events, the queue is empty,
  -- or the hooks are being asked, or the timer is set, or a request is active whose release resumes
  -- the queue.
  pub run-resumable :
      (es : List Event)
      → valid_policy p ≡ true
      → let st = run p hooked es initial in (st.waiting ≡ []) ⊎ (is_resumable st ≡ true)
  unfolding is_awake is_resumable
  run-resumable es v =
      let st = run p hooked es initial in
      let h =
        run-keeps p hooked _ awake_invariant es initial (unfold is_awake head_blocked in refl) in
      elim (Bool-cases (is_waiting st.awaiting || st.timer)) [
        | inl e ↦ inr (ground (arith, e))
        | inr e ↦ elim (blocked-resumable st.active st.waiting v (ground (arith, e, h))) [
          | inl n ↦ inl n
          | inr n ↦ inr (ground (arith, n))
        ]
      ]

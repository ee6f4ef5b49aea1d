-- ===== src/Adapter/Core.antt =====
-- src/concurrency-limited-agent-adapter.ts: the account of the permits, as counts of a ticket and an id
-- among the closures that are stored and those that a launch still waits for.
use superset_agent_orchestra.Base.{
  ℕ, ◌+◌, ◌≤◌, String, ◌≡◌, refl, ap, ◌∙◌, Bool, true, false, ◌&&◌, none, List, [], ◌∷◌, inl, inr,
  count, ltb, ◌==◌, if◌then◌else◌, nat_eq, string_eq, eq_iff, eq_refl, arith, Bool-cases,
}
use superset_agent_orchestra.Scheduler.Policy.{Policy}
use superset_agent_orchestra.Scheduler.Events.{Invariant, handle-keeps}
use superset_agent_orchestra.Scheduler.Ledger.{Ledger, drain-keeps, resume-keeps}
use superset_agent_orchestra.Scheduler.Identity.{IsUnique, invariant-Unique}
use superset_agent_orchestra.Scheduler.Ids.{holds}
use superset_agent_orchestra.Scheduler.Queue.{
  Pending, Outcome, Scheduler, Answer, Event, handle, release, timer_fires, hooks_answer, enqueue,
  adopt, activate, settle, drain, withdraw, revoke,
}
use superset_agent_orchestra.Adapter.Growth.{
  held, live, Grows, hooks_answer-Grows, timer_fires-Grows, release-Frees,
}

abbrev pub Tally : Type 0
Tally = ℕ → String → ℕ

abbrev pub point : ℕ → String → Tally
point t k u v = if t == u && k == v then 1 else 0

pub point-same : (f : Tally) (t u : ℕ) (k v : String) → (t == u && k == v) ≡ true → f t k ≡ f u v
point-same f t u k v e =
    let same : t ≡ u = ground (arith, e) in
    let same_key : k ≡ v = (eq_iff k v).0 (ground (arith, e)) in
    ap (λ x. f x k) same ∙ ap (λ x. f u x) same_key

-- The numbers of closures that are stored, and of launches that wait, for a ticket and an id.
pub record Core (sch : Scheduler) (stored launching : Tally) : Type 0 where
  pub covered : (t : ℕ) (k : String) → live t k sch.waiting sch.permits ≤ stored t k + launching t k
  pub backed : (t : ℕ) (k : String) → stored t k ≤ held t k sch.permits
  pub once :
      (t : ℕ) (k : String) → stored t k + launching t k ≤ (if ltb t sch.next_ticket then 1 else 0)
  pub unique : IsUnique sch

abbrev Issued : ℕ → List Pending → List (ℕ × Outcome) → ℕ → Type 0
Issued m qs ss n = m ≤ n

ledger-Issued : (m : ℕ) → Ledger (Issued m)
ledger-Issued m = record { settled = λ out q qs ss n h. h; postponed = λ d now q qs ss n h. h }

module _ (p : Policy) (hooked : Bool) where
  invariant-Issued : (m : ℕ) → Invariant p hooked (λ st. m ≤ st.next_ticket)
  invariant-Issued m =
      let laws = ledger-Issued m in
      record {
        enqueued = λ r s a now st n h.
            drain-keeps p hooked (Issued m) laws now (enqueue r s now st)
              (unfold enqueue in ground (arith, h));
        adopted = λ r st k h. unfold adopt activate settle in ground (arith, h);
        withdrawn = λ t now st e h.
            drain-keeps p hooked (Issued m) laws now (withdraw t st) (unfold withdraw settle in h);
        revoked = λ t u id now st e h.
            drain-keeps p hooked (Issued m) laws now (revoke t id st) (unfold revoke in h);
        fired =
            λ now st h. drain-keeps p hooked (Issued m) laws now (record st { timer = false }) h;
        answered = λ t a now st e h.
            resume-keeps p hooked (Issued m) laws t a now st.waiting (record st { awaiting = none })
              refl h;
      }

  pub drain-issued :
      (now : ℕ) (st : Scheduler) → st.next_ticket ≤ (drain p hooked now st).next_ticket
  drain-issued now st =
      let m = st.next_ticket in
      drain-keeps p hooked (Issued m) (ledger-Issued m) now st (ground arith)

  handle-issued : (e : Event) (st : Scheduler) → st.next_ticket ≤ (handle p hooked e st).next_ticket
  handle-issued e st =
      handle-keeps p hooked (λ s. st.next_ticket ≤ s.next_ticket) (invariant-Issued st.next_ticket)
        e st (ground arith)

  handle-Unique : (e : Event) (st : Scheduler) → IsUnique st → IsUnique (handle p hooked e st)
  handle-Unique e st u = handle-keeps p hooked IsUnique (invariant-Unique p hooked) e st u

module _ (stored launching : Tally) where
  pub Core-same :
      (stored' launching' : Tally) (sch : Scheduler)
      → ((t : ℕ) (k : String) → stored t k ≡ stored' t k)
      → ((t : ℕ) (k : String) → launching t k ≡ launching' t k)
      → Core sch stored launching
      → Core sch stored' launching'
  Core-same stored' launching' sch s l c = record {
    covered = λ t k. ground (arith, c.covered t k, s t k, l t k);
    backed = λ t k. ground (arith, c.backed t k, s t k);
    once = λ t k. ground (arith, c.once t k, s t k, l t k);
    unique = c.unique;
  }

  pub Core-grow :
      (before after : Scheduler)
      → Grows before.waiting before.permits after
      → before.next_ticket ≤ after.next_ticket
      → IsUnique after
      → Core before stored launching
      → Core after stored launching
  Core-grow before after g n u c = record {
    covered = λ t k. ground (arith, c.covered t k, g.bounded t k);
    backed = λ t k. ground (arith, c.backed t k, g.kept t k);
    once = λ t k. ground (arith, c.once t k, n);
    unique = u;
  }

  -- A launch gets its permit and the closure is stored.
  pub Core-store :
      (t0 : ℕ) (k0 : String) (stored' launching' : Tally) (sch : Scheduler)
      → 1 ≤ held t0 k0 sch.permits
      → ((t : ℕ) (k : String) → stored' t k ≡ stored t k + point t0 k0 t k)
      → ((t : ℕ) (k : String) → launching t k ≡ launching' t k + point t0 k0 t k)
      → Core sch stored launching
      → Core sch stored' launching'
  Core-store t0 k0 stored' launching' sch h s l c = record {
    covered = λ t k. ground (arith, c.covered t k, s t k, l t k);
    backed = λ t k. elim (Bool-cases (t0 == t && k0 == k)) [
      | inr e ↦ ground (arith, c.backed t k, s t k, e)
      | inl e ↦ ground (
        arith,
        c.once t k,
        s t k,
        l t k,
        e,
        h,
        point-same (λ t k. held t k sch.permits) t0 t k0 k e,
      )
    ];
    once = λ t k. ground (arith, c.once t k, s t k, l t k);
    unique = c.unique;
  }

  -- A launch is given up that waits no longer and holds nothing.
  pub Core-drop :
      (t0 : ℕ) (k0 : String) (launching' : Tally) (sch : Scheduler)
      → live t0 k0 sch.waiting sch.permits ≡ 0
      → ((t : ℕ) (k : String) → launching t k ≡ launching' t k + point t0 k0 t k)
      → Core sch stored launching
      → Core sch stored launching'
  Core-drop t0 k0 launching' sch h l c = record {
    covered = λ t k. elim (Bool-cases (t0 == t && k0 == k)) [
      | inr e ↦ ground (arith, c.covered t k, l t k, e)
      | inl e ↦ ground (arith, h, point-same (λ t k. live t k sch.waiting sch.permits) t0 t k0 k e)
    ];
    backed = c.backed;
    once = λ t k. ground (arith, c.once t k, l t k);
    unique = c.unique;
  }

two_ids :
    (t : ℕ) (j k : String) (hs : List (ℕ × String))
    → (j == k) ≡ false
    → held t j hs + held t k hs ≤ count (holds t) hs
unfolding count
two_ids t j k [] e = ground arith
two_ids t j k ((s, w) ∷ hs) e = elim (Bool-cases (w == j)) [
  | inr n ↦ ground (arith, n, two_ids t j k hs e)
  | inl y ↦
      let apart : (w == k) ≡ false = ap (λ x. x == k) ((eq_iff w j).0 y) ∙ e in
      ground (arith, apart, two_ids t j k hs e)
]

module _ (p : Policy) (hooked : Bool) (stored launching : Tally) where
  pub Core-fires :
      (now : ℕ) (sch : Scheduler)
      → Core sch stored launching
      → Core (timer_fires p hooked now sch) stored launching
  Core-fires now sch c =
      let e = Event.fires now in
      Core-grow stored launching sch (timer_fires p hooked now sch)
        (timer_fires-Grows p hooked now sch) (unfold handle in handle-issued p hooked e sch)
        (unfold handle in handle-Unique p hooked e sch c.unique) c

  pub Core-answers :
      (a : Answer) (now : ℕ) (sch : Scheduler)
      → Core sch stored launching
      → Core (hooks_answer p hooked a now sch) stored launching
  Core-answers a now sch c =
      let e = Event.answers a now in
      Core-grow stored launching sch (hooks_answer p hooked a now sch)
        (hooks_answer-Grows p hooked a now sch) (unfold handle in handle-issued p hooked e sch)
        (unfold handle in handle-Unique p hooked e sch c.unique) c

  -- A closure that was stored is called.
  pub Core-free :
      (t0 : ℕ) (k0 : String) (now : ℕ) (stored' : Tally) (sch : Scheduler)
      → ((t : ℕ) (k : String) → stored t k ≡ stored' t k + point t0 k0 t k)
      → Core sch stored launching
      → Core (release p hooked t0 now sch) stored' launching
  unfolding handle
  Core-free t0 k0 now stored' sch s c =
      let freed = Event.releases t0 now in
      let f = release-Frees p hooked t0 now sch in
      record {
        covered = λ t k. ground (arith, c.covered t k, c.backed t k, f.bounded t k, s t k);
        backed = λ t k. elim (Bool-cases (t == t0)) [
          | inr n ↦ ground (arith, n, c.backed t k, f.kept t k, s t k)
          | inl y ↦
              let same : t ≡ t0 = ground (arith, y) in
              rw same (elim (Bool-cases (k0 == k)) [
                | inl e ↦
                    let same_key = (eq_iff k0 k).0 e in
                    rw (← same_key) (ground (arith, c.once t0 k0, s t0 k0, eq_refl k0))
                | inr e ↦ ground (
                  arith,
                  e,
                  c.backed t0 k0,
                  c.backed t0 k,
                  s t0 k0,
                  s t0 k,
                  c.unique.ticketed t0,
                  two_ids t0 k0 k sch.permits e,
                  eq_refl k0,
                )
              ])
        ];
        once = λ t k. ground (arith, c.once t k, s t k, handle-issued p hooked freed sch);
        unique = handle-Unique p hooked freed sch c.unique;
      }

-- ===== src/Adapter/Admitted.antt =====
-- src/concurrency-limited-agent-adapter.ts: the account of the permits when a request is queued or a
-- permit is reserved.
use superset_agent_orchestra.Base.{
  ℕ, ◌+◌, ◌≤◌, String, ◌≡◌, Bool, false, none, List, [], ◌∷◌, ◌++◌, count, nat_eq, string_eq, arith,
}
use superset_agent_orchestra.Scheduler.Policy.{Policy, Request}
use superset_agent_orchestra.Scheduler.Identity.{invariant-Unique}
use superset_agent_orchestra.Scheduler.Queue.{
  Pending, Scheduler, refusal, is_known, enqueue, queued, adopt, activate, settle, drain,
}
use superset_agent_orchestra.Adapter.Growth.{held, live, waits_for, drain-Grows}
use superset_agent_orchestra.Adapter.Core.{Tally, point, Core, drain-issued}

waits-append :
    (t : ℕ) (k : String) (qs rs : List Pending)
    → count (waits_for t k) (qs ++ rs) ≡ count (waits_for t k) qs + count (waits_for t k) rs
unfolding count
waits-append t k [] rs = ground arith
waits-append t k (q ∷ qs) rs = ground (arith, waits-append t k qs rs)

enqueue-live :
    (r : Request) (now : ℕ) (sch : Scheduler) (t : ℕ) (k : String)
    → let queued = enqueue r false now sch in
      live t k queued.waiting queued.permits
      ≡ live t k sch.waiting sch.permits + point sch.next_ticket r.id t k
unfolding enqueue count
enqueue-live r now sch t k =
    let q = queued r false now sch in ground (arith, waits-append t k sch.waiting (q ∷ []))

module _ (p : Policy) (hooked : Bool) (stored launching : Tally) where
  pub Core-acquired :
      (r : Request) (now : ℕ) (launching' : Tally) (sch : Scheduler)
      → refusal p hooked r false false sch ≡ none
      → ((t : ℕ) (k : String) → launching' t k ≡ launching t k + point sch.next_ticket r.id t k)
      → Core sch stored launching
      → Core (drain p hooked now (enqueue r false now sch)) stored launching'
  Core-acquired r now launching' sch n l c =
      let queued = enqueue r false now sch in
      let g = drain-Grows p hooked now queued in
      let issued : sch.next_ticket + 1 ≤ (drain p hooked now queued).next_ticket =
        unfold enqueue in drain-issued p hooked now queued in
      record {
        covered =
            λ t k. ground (arith, c.covered t k, l t k, g.bounded t k, enqueue-live r now sch t k);
        backed = λ t k.
            let kept : held t k sch.permits ≤ held t k (drain p hooked now queued).permits =
              unfold enqueue in g.kept t k in
            ground (arith, c.backed t k, kept);
        once = λ t k. ground (arith, c.once t k, l t k, issued);
        unique = (invariant-Unique p hooked).enqueued r false false now sch n c.unique;
      }

  pub Core-adopted :
      (r : Request) (stored' : Tally) (sch : Scheduler)
      → is_known r.id sch ≡ false
      → ((t : ℕ) (k : String) → stored' t k ≡ stored t k + point sch.next_ticket r.id t k)
      → Core sch stored launching
      → Core (adopt r sch) stored' launching
  unfolding adopt activate settle count
  Core-adopted r stored' sch n s c = record {
    covered = λ t k. ground (arith, c.covered t k, s t k);
    backed = λ t k. ground (arith, c.backed t k, s t k);
    once = λ t k. ground (arith, c.once t k, s t k);
    unique = (invariant-Unique p hooked).adopted r sch n c.unique;
  }

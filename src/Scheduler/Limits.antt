-- ===== src/Scheduler/Limits.antt =====
-- src/concurrency-scheduler.ts: how many requests are active at once, and how many wait.
use superset_agent_orchestra.Base.{
  ℕ, ◌+◌, ◌≤◌, ◌<◌, String, ◌≡◌, Bool, true, false, ◌||◌, some, List, [], ◌∷◌, select, inl, inr,
  count, length, leb, ◌==◌, if◌then◌else◌, nat_eq, string_eq, option_nat_eq, arith, Bool-cases, All,
}
use superset_agent_orchestra.Scheduler.Policy.{
  Policy, Request, Key, host, project, agent, workspace, value_of, limit_of, put, remove, count_key,
  reached, is_blocked,
}
use superset_agent_orchestra.Scheduler.Progress.{blocked-reached}
use superset_agent_orchestra.Scheduler.Queue.{Pending, Outcome, Scheduler}

unfoldable pub is_adopted : Outcome → Bool
is_adopted Outcome.adopted = true
is_adopted _ = false

-- How often `acquireExisting` has admitted a request.
unfoldable pub adoptions : List (ℕ × Outcome) → ℕ
adoptions [] = 0
adoptions ((t, o) ∷ ss) = let rest = adoptions ss in if is_adopted o then 1 + rest else rest

module _ (p : Policy) where
  pub record Within (n : ℕ) (active : List Request) : Type 0 where
    pub total : length active ≤ p.global + n
    pub keyed : (k : Key) (v : String) → count_key k v active ≤ limit_of k p + n

  -- There is room for one more.
  pub record Room (n : ℕ) (active : List Request) (r : Request) : Type 0 where
    pub total : length active < p.global + n
    pub keyed : (k : Key) → count_key k (value_of k r) active < limit_of k p + n

  pub record Safe (st : Scheduler) : Type 0 where
    pub within : Within (adoptions st.settled) st.active
    pub awaited : (t : ℕ) → st.awaiting ≡ some t → t < st.next_ticket
    pub checked :
        All
          (λ (q : Pending).
            st.awaiting ≡ some q.ticket → Room (adoptions st.settled) st.active q.request)
          st.waiting

length-put : (r : Request) (rs : List Request) → length (put r rs) ≤ length rs + 1
unfolding put
length-put r [] = ground arith
length-put r (q ∷ rs) = ground (arith, length-put r rs)

count-put :
    (k : Key) (v : String) (r : Request) (rs : List Request)
    → count_key k v (put r rs) ≤ count_key k v rs + (if value_of k r == v then 1 else 0)
unfolding count_key put count
count-put k v r [] = ground arith
count-put k v r (q ∷ rs) = ground (arith, count-put k v r rs)

length-remove : (id : String) (rs : List Request) → length (remove id rs) ≤ length rs
unfolding remove select
length-remove id [] = ground arith
length-remove id (q ∷ rs) = ground (arith, length-remove id rs)

count-remove :
    (k : Key) (v id : String) (rs : List Request) → count_key k v (remove id rs) ≤ count_key k v rs
unfolding count_key remove select count
count-remove k v id [] = ground arith
count-remove k v id (q ∷ rs) = ground (arith, count-remove k v id rs)

module _ (p : Policy) where
  pub unblocked-Room :
      (n : ℕ) (active : List Request) (r : Request)
      → is_blocked p active r ≡ false
      → Room p n active r
  unfolding reached
  unblocked-Room n active r b =
      let e : (leb p.global (length active)
            || (reached p active host r
                || (reached p active project r
                    || (reached p active agent r || reached p active workspace r))))
          ≡ false =
        rw (blocked-reached p active r) at b in
      record {
        total = ground (arith, e);
        keyed = λ k. elim k [
          | host ↦ ground (arith, e)
          | project ↦ ground (arith, e)
          | agent ↦ ground (arith, e)
          | workspace ↦ ground (arith, e)
        ];
      }

  pub put-Within :
      (n : ℕ) (active : List Request) (r : Request)
      → Within p n active
      → Room p n active r
      → Within p n (put r active)
  put-Within n active r w m = record {
    total = ground (arith, length-put r active, m.total);
    keyed = λ k v. elim (Bool-cases (value_of k r == v)) [
      | inl e ↦
          let same : value_of k r ≡ v = (string_eq.equals_iff (value_of k r) v).0 e in
          rw (← same) (ground (arith, count-put k (value_of k r) r active, m.keyed k))
      | inr e ↦ ground (arith, count-put k v r active, w.keyed k v, e)
    ];
  }

  pub remove-Within :
      (n : ℕ) (id : String) (active : List Request)
      → Within p n active
      → Within p n (remove id active)
  remove-Within n id active w = record {
    total = ground (arith, length-remove id active, w.total);
    keyed = λ k v. ground (arith, count-remove k v id active, w.keyed k v);
  }

  pub remove-Room :
      (n : ℕ) (id : String) (active : List Request) (r : Request)
      → Room p n active r
      → Room p n (remove id active) r
  remove-Room n id active r m = record {
    total = ground (arith, length-remove id active, m.total);
    keyed = λ k. ground (arith, count-remove k (value_of k r) id active, m.keyed k);
  }

  pub adopt-Within :
      (n : ℕ) (active : List Request) (r : Request)
      → Within p n active
      → Within p (1 + n) (put r active)
  adopt-Within n active r w = record {
    total = ground (arith, length-put r active, w.total);
    keyed = λ k v. ground (arith, count-put k v r active, w.keyed k v);
  }

  pub adopt-Room :
      (n : ℕ) (active : List Request) (s r : Request)
      → Room p n active r
      → Room p (1 + n) (put s active) r
  adopt-Room n active s r m = record {
    total = ground (arith, length-put s active, m.total);
    keyed = λ k. ground (arith, count-put k (value_of k r) s active, m.keyed k);
  }

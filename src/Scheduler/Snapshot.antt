-- ===== src/Scheduler/Snapshot.antt =====
-- src/concurrency-scheduler.ts: what a snapshot shows.
use superset_agent_orchestra.Base.{
  ℕ, ◌+◌, String, ◌≡◌, none, some, List, [], ◌∷◌, count, length, ◌==◌, if◌then◌else◌, nat_eq,
  string_eq, arith, eq_iff,
}
use superset_agent_orchestra.Scheduler.Policy.{
  Policy, Request, Key, value_of, count_key, blocked_by, increment, count_from, count_by, count_in,
}
use superset_agent_orchestra.Scheduler.Queue.{Pending, Scheduler}

pub record QueueEntry : Type 0 where
  pub scope : Request
  pub position : ℕ
  pub enqueued_at : ℕ
  pub blocked : List String

unfoldable pub entry : Policy → List Request → ℕ → Pending → QueueEntry
entry p active index q = record {
  scope = q.request;
  position = index + 1;
  enqueued_at = q.enqueued_at;
  blocked = elim q.reason [ none ↦ blocked_by p active q.request | some why ↦ why ∷ [] ];
}

unfoldable pub entries : Policy → List Request → ℕ → List Pending → List QueueEntry
unfolding entry
entries p active index [] = []
entries p active index (q ∷ qs) = entry p active index q ∷ entries p active (index + 1) qs

pub record Snapshot : Type 0 where
  pub active : ℕ
  pub queued : List QueueEntry
  pub active_by : Key → List (String × ℕ)

unfoldable pub snapshot : Policy → Scheduler → Snapshot
unfolding entries
snapshot p st = record {
  active = length st.active;
  queued = entries p st.active 0 st.waiting;
  active_by = λ k. count_by k st.active;
}

count_in-increment :
    (v w : String) (counts : List (String × ℕ))
    → count_in v (increment w counts) ≡ count_in v counts + (if w == v then 1 else 0)
unfolding increment
count_in-increment v w [] = ground (arith, eq_iff w v)
count_in-increment v w ((u, n) ∷ counts) =
    ground (arith, count_in-increment v w counts, eq_iff u w, eq_iff u v, eq_iff w v)

count_from-count :
    (k : Key) (v : String) (rs : List Request) (counts : List (String × ℕ))
    → count_in v (count_from k counts rs) ≡ count_in v counts + count_key k v rs
unfolding count_from count_key count
count_from-count k v [] counts = ground arith
count_from-count k v (r ∷ rs) counts = ground (
  arith,
  count_from-count k v rs (increment (value_of k r) counts),
  count_in-increment v (value_of k r) counts,
)

-- The counts that a snapshot shows by key are the counts that the limits are checked against.
pub active_by-count :
    (p : Policy) (st : Scheduler) (k : Key) (v : String)
    → count_in v ((snapshot p st).active_by k) ≡ count_key k v st.active
unfolding snapshot count_by
active_by-count p st k v = ground (arith, count_from-count k v st.active [])

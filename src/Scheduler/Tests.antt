-- ===== src/Scheduler/Tests.antt =====
-- src/concurrency-scheduler.ts: the scheduler on small histories.
use superset_agent_orchestra.Base.{
  ◌≤◌, max, String, ◌≡◌, refl, true, false, some, List, [], ◌∷◌, ◌⊎◌, length, find, any, count,
  select,
}
use superset_agent_orchestra.Scheduler.Policy.{
  Request, valid_policy, default_policy, valid_request, is_blocked, put, remove,
}
use superset_agent_orchestra.Scheduler.Queue.{
  Outcome, initial, Event, acquires, adopts, aborts, releases, fires, answers, decided, run,
  Decision, handle, release, abort_signal, acquire, drain_queue, admit,
}
use superset_agent_orchestra.Scheduler.Progress.{run-resumable, is_resumable}
use superset_agent_orchestra.Scheduler.Order.{run-Orderly, IsOrderly}
use superset_agent_orchestra.Scheduler.Limits.{Within, adoptions}
use superset_agent_orchestra.Scheduler.Capacity.{run-Within}
use superset_agent_orchestra.Scheduler.Settlement.{run-Conserved, run-Bounded, Conserved}
use superset_agent_orchestra.Scheduler.Identity.{run-Unique, IsUnique}

abbrev request : String → Request
request id = record {
  id = id;
  host_id = "local";
  project_id = "site";
  agent_id = "codex";
  workspace_id = "w1";
}

-- The second request waits, the third is aborted, and the first is released.
abbrev history : List Event
history =
    acquires (request "a") true false 10
    ∷ acquires (request "b") false false 20
    ∷ acquires (request "c") true false 30
    ∷ aborts 2 40
    ∷ releases 0 50
    ∷ []

abbrev refuse : Decision
refuse = record { ready = false; retry_after_ms = some 500; reason = some "cpu" }

-- With hooks: the first request is postponed, another is adopted meanwhile, and the timer fires.
abbrev pressed : List Event
pressed =
    acquires (request "a") true false 10
    ∷ answers (decided refuse) 20
    ∷ adopts (request "b")
    ∷ releases 1 30
    ∷ fires 600
    ∷ []

history_settled :
    (run default_policy false history initial).settled
    ≡ (1, Outcome.admitted) ∷ (2, Outcome.cancelled) ∷ (0, Outcome.admitted) ∷ []
unfolding run handle release find abort_signal any acquire valid_request drain_queue is_blocked
    count admit put select remove
history_settled = refl

run-resumable_example :
    let st = run default_policy true pressed initial in (st.waiting ≡ []) ⊎ (is_resumable st ≡ true)
run-resumable_example = run-resumable default_policy true pressed (unfold valid_policy in refl)

run-Orderly_example : IsOrderly (run default_policy false history initial)
run-Orderly_example = run-Orderly default_policy false history

run-Within_example :
    let st = run default_policy true pressed initial in
    Within default_policy (adoptions st.settled) st.active
run-Within_example = run-Within default_policy true pressed

run-Conserved_example :
    let st = run default_policy false history initial in
    Conserved st.waiting st.settled st.next_ticket
run-Conserved_example = run-Conserved default_policy false history

run-Bounded_example : length (run default_policy true pressed initial).waiting ≤ max 1 100
run-Bounded_example = run-Bounded default_policy true pressed

run-Unique_example : IsUnique (run default_policy true pressed initial)
run-Unique_example = run-Unique default_policy true pressed

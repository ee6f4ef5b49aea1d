-- ===== src/Adapter/Tests.antt =====
-- src/concurrency-limited-agent-adapter.ts: the adapter on small histories.
use superset_agent_orchestra.Base.{
  String, ◌+◌, ◌≤◌, ◌≡◌, refl, true, false, none, some, List, [], ◌∷◌, find, any, count, select,
}
use superset_agent_orchestra.Scheduler.Policy.{
  Request, default_policy, valid_request, is_blocked, blocked_by, reached, count_key, put, remove,
}
use superset_agent_orchestra.Scheduler.Queue.{
  duplicate, acquire, acquire_existing, refusal, is_known, enqueue, drain, drain_queue, admit,
  activate, settle, adopt, release, revoke,
}
use superset_agent_orchestra.Adapter.Permits.{
  thrown, unadmitted, RunStatus, present, absent, threw, launch, enter_launch, launched,
  settle_launch, keep_launch, bind_run, remove_launching, is_recovering, remove_lookup, inspect,
  status, mark_terminal, unmark, include, exclude, is_terminal, release_run, remove_run, free,
  free_some, lookup, delete, assign, is_run,
}
use superset_agent_orchestra.Adapter.Recovery.{
  Event, launches, answers_launch, reports, recovers, answers_lookup, answers_inspection,
  handle_event, run_events, recover, enter_recovery, read_key, is_unknown, looked, answer_lookup,
  keep_recovery, forget, resolve_launch, give_back, restore, is_bound, inspected, answer_inspection,
}
use superset_agent_orchestra.Adapter.Growth.{held}
use superset_agent_orchestra.Adapter.Books.{stored, pending}
use superset_agent_orchestra.Adapter.Lookups.{is_free, is_sound, is_sound_answer}
use superset_agent_orchestra.Adapter.Kept.{idle, is_sound_event, all_sound, run_events-accounted}

-- A workspace of its own for each key.
abbrev scope : String → Request
scope key = record {
  id = "";
  host_id = "local";
  project_id = "site";
  agent_id = "codex";
  workspace_id = key;
}

-- The launch of a fails, and its recovery finds the run; then a lookup of b fails, whose permit is
-- reserved, and the run of a ends.
abbrev history : List Event
history =
    launches "a" (scope "a") 1
    ∷ answers_launch "a" 0 none 2
    ∷ recovers "a"
    ∷ answers_lookup "a" (present "r") 3
    ∷ answers_inspection "a" (some ("r", RunStatus.running)) 4
    ∷ recovers "b"
    ∷ answers_lookup "b" threw 5
    ∷ reports "r" (some ("r", RunStatus.succeeded)) 6
    ∷ []

history_sound : all_sound default_policy false scope history idle ≡ true
unfolding run_events handle_event launch enter_launch acquire refusal valid_request is_known any
    is_blocked blocked_by reached count_key count enqueue drain drain_queue admit activate settle
    put launched settle_launch keep_launch bind_run remove_launching find recover enter_recovery
    read_key is_unknown is_recovering acquire_existing adopt looked answer_lookup remove_lookup
    keep_recovery forget resolve_launch give_back restore is_bound inspected inspect
    answer_inspection status mark_terminal unmark include exclude is_terminal release_run remove_run
    free free_some release revoke remove select lookup delete assign is_run all_sound is_sound_event
    is_sound_answer is_sound is_free
history_sound = refl

history_held :
    (run_events default_policy false scope history idle).scheduler.permits ≡ (1, "b") ∷ []
unfolding run_events handle_event launch enter_launch acquire refusal valid_request is_known any
    is_blocked blocked_by reached count_key count enqueue drain drain_queue admit activate settle
    put launched settle_launch keep_launch bind_run remove_launching find recover enter_recovery
    read_key is_unknown is_recovering acquire_existing adopt looked answer_lookup remove_lookup
    keep_recovery forget resolve_launch give_back restore is_bound inspected inspect
    answer_inspection status mark_terminal unmark include exclude is_terminal release_run remove_run
    free free_some release revoke remove select lookup delete assign is_run
history_held = refl

run_events-accounted_example :
    let st = run_events default_policy false scope history idle in
    let closures = stored st.releases st.launches st.recovered st.lookups 1 "b" in
    (closures ≤ held 1 "b" st.scheduler.permits)
    × ((held 1 "b" st.scheduler.permits ≤ closures + pending st.launching 1 "b")
        × (closures + pending st.launching 1 "b" ≤ 1))
run_events-accounted_example =
    run_events-accounted default_policy false scope history 1 "b" history_sound

-- The provider finds for a the run of b: the permit of a is held, and no closure of it is left.
abbrev rebound : List Event
rebound =
    launches "a" (scope "a") 1
    ∷ answers_launch "a" 0 none 2
    ∷ launches "b" (scope "b") 3
    ∷ answers_launch "b" 1 (some "r") 4
    ∷ recovers "a"
    ∷ answers_lookup "a" (present "r") 5
    ∷ []

rebound_lost :
    let st = run_events default_policy false scope rebound idle in
    (held 0 "a" st.scheduler.permits ≡ 1)
    × (stored st.releases st.launches st.recovered st.lookups 0 "a" ≡ 0)
unfolding run_events handle_event launch enter_launch acquire refusal valid_request is_known any
    is_blocked blocked_by reached count_key count enqueue drain drain_queue admit activate settle
    put launched settle_launch keep_launch bind_run remove_launching find recover enter_recovery
    read_key is_unknown is_recovering acquire_existing adopt looked answer_lookup remove_lookup
    keep_recovery forget resolve_launch give_back restore is_bound inspected inspect
    answer_inspection status mark_terminal unmark include exclude is_terminal release_run remove_run
    free free_some release revoke remove select lookup delete assign is_run
rebound_lost = (refl, refl)

-- The next recovery of a is refused.
rebound_refused :
    (handle_event default_policy false scope
      (recovers "a")
      (run_events default_policy false scope rebound idle)).0
    ≡ thrown (unadmitted duplicate)
unfolding run_events handle_event launch enter_launch acquire refusal valid_request is_known any
    is_blocked blocked_by reached count_key count enqueue drain drain_queue admit activate settle
    put launched settle_launch keep_launch bind_run remove_launching find recover enter_recovery
    read_key is_unknown is_recovering acquire_existing adopt looked answer_lookup remove_lookup
    keep_recovery forget resolve_launch give_back restore is_bound inspected inspect
    answer_inspection status mark_terminal unmark include exclude is_terminal release_run remove_run
    free free_some release revoke remove select lookup delete assign is_run
rebound_refused = refl

-- While a is looked up, its run ends, and a new launch of a fails; then the lookup finds no run.
abbrev relaunched : List Event
relaunched =
    launches "a" (scope "a") 1
    ∷ answers_launch "a" 0 (some "r") 2
    ∷ recovers "a"
    ∷ reports "r" (some ("r", RunStatus.succeeded)) 3
    ∷ launches "a" (scope "a") 4
    ∷ answers_launch "a" 1 none 5
    ∷ answers_lookup "a" absent 6
    ∷ []

relaunched_lost :
    let st = run_events default_policy false scope relaunched idle in
    (held 1 "a" st.scheduler.permits ≡ 1)
    × (stored st.releases st.launches st.recovered st.lookups 1 "a" ≡ 0)
unfolding run_events handle_event launch enter_launch acquire refusal valid_request is_known any
    is_blocked blocked_by reached count_key count enqueue drain drain_queue admit activate settle
    put launched settle_launch keep_launch bind_run remove_launching find recover enter_recovery
    read_key is_unknown is_recovering acquire_existing adopt looked answer_lookup remove_lookup
    keep_recovery forget resolve_launch give_back restore is_bound inspected inspect
    answer_inspection status mark_terminal unmark include exclude is_terminal release_run remove_run
    free free_some release revoke remove select lookup delete assign is_run
relaunched_lost = (refl, refl)

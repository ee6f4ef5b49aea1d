-- ===== src/Adapter/Kept.antt =====
-- src/concurrency-limited-agent-adapter.ts: the account of the permits over a history of events.
use superset_agent_orchestra.Base.{
  ℕ, ◌+◌, ◌≤◌, String, ◌≡◌, Bool, true, false, ◌&&◌, not, Option, none, some, List, [], ◌∷◌, inl,
  inr, any, find, select, count, ◌==◌, string_eq, arith, Bool-cases, Option-cases,
}
use superset_agent_orchestra.Scheduler.Policy.{Policy, Request}
use superset_agent_orchestra.Scheduler.Queue.{initial, run}
use superset_agent_orchestra.Scheduler.Identity.{run-Unique}
use superset_agent_orchestra.Adapter.Permits.{
  Adapter, RunStatus, Inspection, is_terminal, mark_terminal, unmark, release_run, status, collect,
}
use superset_agent_orchestra.Adapter.Recovery.{
  answer_inspection, inspected, Event, launches, answers_launch, reports, collects, recovers,
  answers_lookup, answers_inspection, fires, answers, handle_event, run_events,
}
use superset_agent_orchestra.Adapter.Growth.{held}
use superset_agent_orchestra.Adapter.Core.{Core-fires, Core-answers}
use superset_agent_orchestra.Adapter.Books.{stored, pending, Kept, release_run-Kept}
use superset_agent_orchestra.Adapter.Launches.{launch-Kept, launched-Kept}
use superset_agent_orchestra.Adapter.Recoveries.{recover-Kept}
use superset_agent_orchestra.Adapter.Lookups.{is_sound_answer, looked-Kept}

abbrev pub idle : Adapter
idle = record {
  scheduler = initial;
  releases = [];
  runs = [];
  launches = [];
  recovered = [];
  recovering = [];
  terminal = [];
  launching = [];
  lookups = [];
  inspections = [];
}

mark_terminal-Kept : (run : String) (st : Adapter) → Kept st → Kept (mark_terminal run st)
unfolding mark_terminal
mark_terminal-Kept run st b = elim (Bool-cases (any (λ r. r == run) st.recovering)) [
  | inl e ↦ rw (e, mark_terminal) b
  | inr e ↦ rw (e, mark_terminal) b
]

module _ (p : Policy) (hooked : Bool) where
  ended-Kept :
      (run : String) (now : ℕ) (st : Adapter)
      → Kept st
      → Kept (release_run p hooked run now (mark_terminal run st))
  ended-Kept run now st b =
      release_run-Kept p hooked run now (mark_terminal run st) (mark_terminal-Kept run st b)

  status-Kept :
      (run : String) (answer : Option (String × RunStatus)) (now : ℕ) (st : Adapter)
      → Kept st
      → Kept (status p hooked run answer now st).1
  unfolding status
  status-Kept run none now st b = b
  status-Kept run (some (r, s)) now st b = elim (Bool-cases (r == run)) [
    | inr m ↦ rw (m, status) b
    | inl m ↦ elim (Bool-cases (is_terminal s)) [
      | inl e ↦ rw (m, e, status) (ended-Kept run now st b)
      | inr e ↦ rw (m, e, status) b
    ]
  ]

  collect-Kept :
      (run : String) (answer : Option Bool) (now : ℕ) (st : Adapter)
      → Kept st
      → Kept (collect p hooked run answer now st).1
  unfolding collect
  collect-Kept run none now st b = b
  collect-Kept run (some true) now st b = ended-Kept run now st b
  collect-Kept run (some false) now st b = b

  answer_inspection-Kept :
      (run : String) (answer : Option (String × RunStatus)) (now : ℕ) (st : Adapter)
      → Kept st
      → Kept (answer_inspection p hooked run answer now st).1
  unfolding answer_inspection
  answer_inspection-Kept run none now st b = b
  answer_inspection-Kept run (some (r, s)) now st b = elim (Bool-cases (r == run)) [
    | inr m ↦ rw (m, answer_inspection) b
    | inl m ↦ elim (Bool-cases (is_terminal s)) [
      | inl e ↦ rw (m, e, answer_inspection) (release_run-Kept p hooked run now st b)
      | inr e ↦ rw (m, e, answer_inspection) b
    ]
  ]

  inspected-Kept :
      (key : String) (answer : Option (String × RunStatus)) (now : ℕ) (st : Adapter)
      → Kept st
      → Kept (inspected p hooked key answer now st).1
  unfolding inspected unmark
  inspected-Kept key answer now st b =
      elim (Option-cases (find (λ (i : Inspection). i.key == key) st.inspections)) [
        | inl n ↦ rw (n, inspected) b
        | inr (i, n) ↦
            let rest = record st {
              inspections = select (λ (j : Inspection). not (j.key == key)) st.inspections;
            } in
            let kept = answer_inspection-Kept i.run answer now rest b in
            elim (Bool-cases i.guarded) [
              | inl g ↦ rw (n, g, inspected) kept
              | inr g ↦ rw (n, g, inspected) kept
            ]
      ]

-- An answer to a lookup meets no launch that has failed after the recovery began, where there is no
-- run; and the run of a launch that had not resolved is bound to no other key.
unfoldable pub is_sound_event : Event → Adapter → Bool
unfolding is_sound_answer
is_sound_event (answers_lookup key answer now) st = is_sound_answer key answer st
is_sound_event _ st = true

module _ (p : Policy) (hooked : Bool) (scope_of : String → Request) where
  unfoldable pub all_sound : List Event → Adapter → Bool
  unfolding is_sound_event handle_event
  all_sound [] st = true
  all_sound (e ∷ es) st =
      is_sound_event e st && all_sound es (handle_event p hooked scope_of e st).1

  handle_event-Kept :
      (e : Event) (st : Adapter)
      → is_sound_event e st ≡ true
      → Kept st
      → Kept (handle_event p hooked scope_of e st).1
  unfolding handle_event is_sound_event
  handle_event-Kept (launches key scope now) st s b = launch-Kept p hooked key scope now st b
  handle_event-Kept (answers_launch key t answer now) st s b =
      launched-Kept p hooked key t answer now st b
  handle_event-Kept (reports run answer now) st s b = status-Kept p hooked run answer now st b
  handle_event-Kept (collects run answer now) st s b = collect-Kept p hooked run answer now st b
  handle_event-Kept (recovers key) st s b = recover-Kept p hooked scope_of key st b
  handle_event-Kept (answers_lookup key answer now) st s b =
      looked-Kept p hooked key answer now st s b
  handle_event-Kept (answers_inspection key answer now) st s b =
      inspected-Kept p hooked key answer now st b
  handle_event-Kept (fires now) st s b = record {
    core =
        Core-fires p hooked (stored st.releases st.launches st.recovered st.lookups)
          (pending st.launching) now st.scheduler b.core;
    aware = b.aware;
    single = b.single;
  }
  handle_event-Kept (answers a now) st s b = record {
    core =
        Core-answers p hooked (stored st.releases st.launches st.recovered st.lookups)
          (pending st.launching) a now st.scheduler b.core;
    aware = b.aware;
    single = b.single;
  }

  run-Kept :
      (es : List Event) (st : Adapter)
      → all_sound es st ≡ true
      → Kept st
      → Kept (run_events p hooked scope_of es st)
  unfolding run_events all_sound
  run-Kept [] st s b = b
  run-Kept (e ∷ es) st s b =
      run-Kept es (handle_event p hooked scope_of e st).1 (ground (arith, s))
        (handle_event-Kept e st (ground (arith, s)) b)

  idle-Kept : Kept idle
  unfolding count
  idle-Kept = record {
    core = record {
      covered = λ t k. ground arith;
      backed = λ t k. ground arith;
      once = λ t k. ground arith;
      unique = unfold run in run-Unique p hooked [];
    };
    aware = tt;
    single = λ k. ground arith;
  }

  -- After every sequence of events that starts with an idle adapter: a ticket that holds a permit under
  -- a key is kept once, by a closure of a run, of a launch that failed or of a recovery, or by a launch
  -- that still waits for the provider; and a closure that is stored has its permit. The condition is
  -- that an answer to a lookup without a run meets no launch of its key that failed after the recovery
  -- began, and that the run found for a launch that had not resolved is bound to no other key.
  pub run_events-accounted :
      (es : List Event) (t : ℕ) (key : String)
      → all_sound es idle ≡ true
      → let st = run_events p hooked scope_of es idle in
        let closures = stored st.releases st.launches st.recovered st.lookups t key in
        (closures ≤ held t key st.scheduler.permits)
        × ((held t key st.scheduler.permits ≤ closures + pending st.launching t key)
            × (closures + pending st.launching t key ≤ 1))
  run_events-accounted es t key s =
      let c = (run-Kept es idle s idle-Kept).core in
      (c.backed t key, (ground (arith, c.covered t key), ground (arith, c.once t key)))

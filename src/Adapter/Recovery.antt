-- ===== src/Adapter/Recovery.antt =====
-- src/concurrency-limited-agent-adapter.ts: the recovery of a run by its key, and the events that reach
-- an adapter.
use superset_agent_orchestra.Base.{
  ℕ, String, Bool, true, false, ◌&&◌, not, Option, none, some, List, [], ◌∷◌, any, find, select,
  ◌==◌, if◌then◌else◌, nat_eq, string_eq,
}
use superset_agent_orchestra.Scheduler.Policy.{Policy, Request}
use superset_agent_orchestra.Scheduler.Queue.{
  Scheduler, Answer, Reply, issued, refused, acquire_existing, timer_fires, hooks_answer,
}
use superset_agent_orchestra.Adapter.Permits.{
  lookup, delete, assign, is_terminal, is_run, is_none, reserved, include, is_lookup, remove_lookup,
  unmark, bind_run, inspect, is_recovering, free, free_some, release_run, launch, launched, status,
  collect, HeldPermit, Lookup, Inspection, Adapter, RunStatus, Response, Found, threw, absent,
  present, unadmitted, provider, elsewhere, mismatched, unreserved, ignored, waits, handle, thrown,
}

-- What `recover` reads of the maps for a key.
unfoldable pub read_key : String → Option ℕ → Adapter → Lookup
unfolding lookup is_run
read_key key fresh st = record {
  key = key;
  unresolved = lookup key st.launches;
  retained = lookup key st.recovered;
  bound = lookup key st.runs;
  has_permit = elim (lookup key st.runs) [ none ↦ false | some run ↦ any (is_run run) st.releases ];
  fresh = fresh;
}

-- Nothing is kept for the key, so that a permit has to be reserved.
unfoldable pub is_unknown : String → Adapter → Bool
unfolding read_key
is_unknown key st =
    let l = read_key key none st in is_none l.unresolved && (is_none l.retained && not l.has_permit)

-- What `acquireExisting` has answered.
unfoldable pub enter_recovery : String → Reply × Scheduler → Adapter → Response × Adapter
unfolding read_key
enter_recovery key (refused why, sch) st = (thrown (unadmitted why), record st { scheduler = sch })
enter_recovery key (issued t, sch) st =
    (waits, record st { scheduler = sch; lookups = read_key key (some t) st ∷ st.lookups })

-- `findByIdempotencyKey`, and `recover` up to the lookup. A key that is being recovered gets the
-- promise there is.
unfoldable pub recover : (String → Request) → String → Adapter → Response × Adapter
unfolding is_unknown read_key is_recovering enter_recovery
recover scope_of key st =
    if is_recovering key st
    then (waits, st)
    else if is_unknown key st
    then enter_recovery key (acquire_existing (record (scope_of key) { id = key }) st.scheduler) st
    else (waits, record st { lookups = read_key key none st ∷ st.lookups })

-- The run whose permit was kept when the lookup began.
unfoldable pub is_bound : Lookup → String → Bool
is_bound l run = elim l.bound [ none ↦ false | some bound ↦ l.has_permit && bound == run ]

-- The lookup has thrown: the reserved permit is kept for the next recovery.
unfoldable pub keep_recovery : Lookup → Adapter → Adapter
unfolding assign
keep_recovery l st = elim (reserved l) [
  | none ↦ st
  | some t ↦ record st { recovered = assign l.key t st.recovered }
]

module _ (p : Policy) (hooked : Bool) where
  -- There is no run: all that is kept for the key goes.
  unfoldable pub forget : Lookup → ℕ → Adapter → Adapter
  unfolding free_some release_run delete
  forget l now st =
      let freed = free_some p hooked l.unresolved now st.scheduler in
      let back = record st {
        scheduler = free_some p hooked (reserved l) now freed;
        launches = delete l.key st.launches;
        recovered = delete l.key st.recovered;
      } in
      elim l.bound [ none ↦ back | some run ↦ release_run p hooked run now back ]

  -- A run for a launch that had not resolved.
  unfoldable pub resolve_launch : Lookup → String → ℕ → ℕ → Adapter → Response × Adapter
  unfolding free delete assign inspect bind_run
  resolve_launch l run t now st =
      let gone = record st { launches = delete l.key st.launches } in
      elim (find (is_run run) st.releases) [
        | none ↦ (waits, inspect l.key run false (bind_run run l.key t gone))
        | some h ↦
            if h.key == l.key
            then (
              waits,
              inspect l.key run false
                  (record (free p hooked t now gone) { runs = assign l.key run st.runs }),
            )
            else (thrown elsewhere, gone)
      ]

  -- A run that holds a permit already: the reserved one is given back.
  unfoldable pub give_back : Lookup → HeldPermit → String → ℕ → Adapter → Response × Adapter
  unfolding free_some delete
  give_back l h run now st =
      let back = record st {
        scheduler = free_some p hooked (reserved l) now st.scheduler;
        recovered = delete l.key st.recovered;
      } in
      if h.key == l.key then (handle (some run), back) else (thrown elsewhere, back)

  -- A run without a permit gets the reserved one, unless it has ended meanwhile.
  unfoldable pub restore : Lookup → String → ℕ → Adapter → Response × Adapter
  unfolding free delete bind_run inspect include unmark
  restore l run now st =
      let marked = record st { recovering = include run st.recovering } in
      let back = record marked { recovered = delete l.key st.recovered } in
      elim (reserved l) [
        | none ↦ (thrown unreserved, unmark run marked)
        | some t ↦
            if any (λ r. r == run) st.terminal
            then (waits, inspect l.key run true (free p hooked t now back))
            else (waits, inspect l.key run true (bind_run run l.key t back))
      ]

  -- `recover` after the lookup.
  unfoldable pub answer_lookup : Lookup → Found → ℕ → Adapter → Response × Adapter
  unfolding keep_recovery forget resolve_launch give_back restore is_bound
  answer_lookup l threw now st = (thrown provider, keep_recovery l st)
  answer_lookup l absent now st = (handle none, forget l now st)
  answer_lookup l (present run) now st = elim l.unresolved [
    | some t ↦ resolve_launch l run t now st
    | none ↦ elim (find (is_run run) st.releases) [
      | some h ↦ give_back l h run now st
      | none ↦ if is_bound l run then (handle (some run), st) else restore l run now st
    ]
  ]

  unfoldable pub looked : String → Found → ℕ → Adapter → Response × Adapter
  unfolding answer_lookup remove_lookup
  looked key answer now st = elim (find (is_lookup key) st.lookups) [
    | none ↦ (ignored, st)
    | some l ↦ answer_lookup l answer now (record st { lookups = remove_lookup key st.lookups })
  ]

  -- The status that `inspectRecoveredRun` waits for.
  unfoldable pub answer_inspection :
      String → Option (String × RunStatus) → ℕ → Adapter → Response × Adapter
  unfolding release_run is_terminal
  answer_inspection run none now st = (thrown provider, st)
  answer_inspection run (some (r, s)) now st =
      if not (r == run)
      then (thrown mismatched, st)
      else if is_terminal s
      then (handle (some run), release_run p hooked run now st)
      else (handle (some run), st)

  unfoldable pub inspected : String → Option (String × RunStatus) → ℕ → Adapter → Response × Adapter
  unfolding answer_inspection unmark
  inspected key answer now st = elim (find (λ (i : Inspection). i.key == key) st.inspections) [
    | none ↦ (ignored, st)
    | some i ↦
        let (response, after) = answer_inspection i.run answer now (record st {
          inspections = select (λ (j : Inspection). not (j.key == key)) st.inspections;
        }) in
        (response, if i.guarded then unmark i.run after else after)
  ]

-- The events, with the instant at which each happens; `fires` and `answers` are the scheduler's own.
pub data Event : Type 0 where
  launches : String → Request → ℕ → Event
  answers_launch : String → ℕ → Option String → ℕ → Event
  reports : String → Option (String × RunStatus) → ℕ → Event
  collects : String → Option Bool → ℕ → Event
  recovers : String → Event
  answers_lookup : String → Found → ℕ → Event
  answers_inspection : String → Option (String × RunStatus) → ℕ → Event
  fires : ℕ → Event
  answers : Answer → ℕ → Event

module _ (p : Policy) (hooked : Bool) (scope_of : String → Request) where
  unfoldable pub handle_event : Event → Adapter → Response × Adapter
  unfolding launch launched status collect recover looked inspected
  handle_event (launches key scope now) st = launch p hooked key scope now st
  handle_event (answers_launch key t answer now) st = launched p hooked key t answer now st
  handle_event (reports run answer now) st = status p hooked run answer now st
  handle_event (collects run answer now) st = collect p hooked run answer now st
  handle_event (recovers key) st = recover scope_of key st
  handle_event (answers_lookup key answer now) st = looked p hooked key answer now st
  handle_event (answers_inspection key answer now) st = inspected p hooked key answer now st
  handle_event (fires now) st =
      (ignored, record st { scheduler = timer_fires p hooked now st.scheduler })
  handle_event (answers a now) st =
      (ignored, record st { scheduler = hooks_answer p hooked a now st.scheduler })

  unfoldable pub run_events : List Event → Adapter → Adapter
  unfolding handle_event
  run_events [] st = st
  run_events (e ∷ es) st = run_events es (handle_event e st).1

-- ===== src/Store/Launch.antt =====
-- src/store.ts: launch intents, which make a launch request idempotent and bind it to one run.
-- `redact` is RedactionPolicy.text. Persisting checks the intent against the batches and workers.
use superset_agent_orchestra.Base.{
  ℕ, String, Bool, true, false, ◌&&◌, ◌||◌, not, Option, none, some, List, [], ◌∷◌, ◌++◌, find,
  update, any, ◌==◌, if◌then◌else◌, string_eq, option_string_eq,
}
use superset_agent_orchestra.Store.State.{Attribution, Session, Batch, Worker, is_some}
use superset_agent_orchestra.Store.Audit.{is_digest, present, present?, map?}

pub data LaunchStatus : Type 0 where
  reserved dispatching unknown_outcome bound : LaunchStatus

pub record LaunchIntent : Type 0 where
  pub idempotency_key : String
  pub request_hash : String
  pub session_id : String
  pub batch_id : String
  pub worker_id : String
  pub workspace_id : Option String
  pub attribution : Attribution
  pub status : LaunchStatus
  pub created_at : ℕ
  pub updated_at : ℕ
  pub run_id : Option String
  pub diagnostic : Option String

-- The parts of the durable state that the launch operations read or write.
pub record Launches : Type 0 where
  pub sessions : List Session
  pub batches : List Batch
  pub workers : List Worker
  pub intents : List LaunchIntent

pub data LaunchError : Type 0 where
  unknown_key invalid_transition invalid_intent rebound conflict rejected : LaunchError

pub data LaunchReply : Type 0 where
  accepted : LaunchIntent → Bool → LaunchReply
  failed : LaunchError → LaunchReply

abbrev pub is_bound : LaunchStatus → Bool
is_bound bound = true
is_bound _ = false

-- `launchIntentSchema`
unfoldable pub valid_intent : LaunchIntent → Bool
valid_intent i =
    present i.idempotency_key
    && (is_digest i.request_hash
        && (present i.session_id
            && (present i.batch_id
                && (present i.worker_id
                    && (present? i.workspace_id
                        && (present i.attribution.agent
                            && (present i.attribution.task
                                && (present? i.run_id
                                    && (present? i.diagnostic
                                        && (not (is_bound i.status) || is_some i.run_id))))))))))

abbrev batch_agrees : LaunchIntent → List Session → Option Batch → Bool
batch_agrees i sessions none = true
batch_agrees i sessions (some b) =
    any (λ (s : Session). s.id == i.session_id) sessions && b.session_id == i.session_id

abbrev worker_agrees : LaunchIntent → Option Batch → Option Worker → Bool
worker_agrees i b none = true
worker_agrees i b (some w) =
    is_some b
    && (w.batch_id == i.batch_id
        && (w.session_id == i.session_id
            && (w.attribution.agent == i.attribution.agent
                && w.attribution.task == i.attribution.task)))

-- What the schema of the state asks of an intent.
unfoldable pub agrees : LaunchIntent → Launches → Bool
agrees i st =
    let b = find (λ (b : Batch). b.id == i.batch_id) st.batches in
    let w = find (λ (w : Worker). w.id == i.worker_id) st.workers in
    batch_agrees i st.sessions b && worker_agrees i b w

unfoldable pub intent_by_key : String → List LaunchIntent → Option LaunchIntent
intent_by_key key is = find (λ (i : LaunchIntent). i.idempotency_key == key) is

unfoldable pub replace_intent : LaunchIntent → List LaunchIntent → List LaunchIntent
replace_intent new is =
    update (λ (i : LaunchIntent). i.idempotency_key == new.idempotency_key) (λ _. new) is

-- `reserveLaunch`, whose intent comes without a status and instants.
unfoldable pub reserve_launch : LaunchIntent → ℕ → Launches → LaunchReply × Launches
unfolding intent_by_key valid_intent agrees
reserve_launch input now st =
    let new : LaunchIntent = record input {
      status = reserved;
      created_at = now;
      updated_at = now;
    } in
    elim (intent_by_key input.idempotency_key st.intents) [
      | some old ↦
          if old.request_hash == input.request_hash
          then (accepted old false, st)
          else (failed conflict, st)
      | none ↦
          if valid_intent new && agrees new st
          then (accepted new true, record st { intents = st.intents ++ new ∷ [] })
          else (failed rejected, st)
    ]

-- The table `transitions` of `updateLaunch`.
unfoldable pub may_become : LaunchStatus → LaunchStatus → Bool
may_become reserved reserved = true
may_become reserved dispatching = true
may_become reserved unknown_outcome = true
may_become dispatching dispatching = true
may_become dispatching unknown_outcome = true
may_become dispatching bound = true
may_become unknown_outcome unknown_outcome = true
may_become unknown_outcome bound = true
may_become bound bound = true
may_become _ _ = false

abbrev pub or_keep : Option String → Option String → Option String
or_keep none old = old
or_keep (some new) old = some new

unfoldable pub updated_intent :
    (String → String)
    → LaunchStatus
    → Option String
    → Option String
    → ℕ
    → LaunchIntent
    → LaunchIntent
updated_intent redact status run_id diagnostic now i = record i {
  status = status;
  updated_at = now;
  run_id = or_keep run_id i.run_id;
  diagnostic = or_keep (map? redact diagnostic) i.diagnostic;
}

-- What `updateLaunch` makes of the intent that it found; `audited` says whether the security audit
-- event that may come with the update was appended.
unfoldable pub change_intent :
    LaunchIntent → LaunchIntent → Bool → Launches → LaunchReply × Launches
unfolding may_become valid_intent agrees replace_intent
change_intent old new audited st =
    if not (may_become old.status new.status)
    then (failed invalid_transition, st)
    else if not (valid_intent new)
    then (failed invalid_intent, st)
    else if is_bound old.status && not (new.run_id == old.run_id)
    then (failed rebound, st)
    else if not (audited && agrees new st)
    then (failed rejected, st)
    else (accepted new false, record st { intents = replace_intent new st.intents })

-- `updateLaunch`
unfoldable pub update_launch :
    (String → String)
    → String
    → LaunchStatus
    → Option String
    → Option String
    → Bool
    → ℕ
    → Launches
    → LaunchReply × Launches
unfolding change_intent updated_intent intent_by_key
update_launch redact key status run_id diagnostic audited now st =
    elim (intent_by_key key st.intents) [
      | none ↦ (failed unknown_key, st)
      | some old ↦
          change_intent old (updated_intent redact status run_id diagnostic now old) audited st
    ]

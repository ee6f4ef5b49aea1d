-- ===== src/Store/LaunchTests.antt =====
-- src/store.ts: launch intents on a small history.
use superset_agent_orchestra.Base.{
  ◌≡◌, refl, true, false, none, some, List, [], ◌∷◌, string_eq, find,
}
use superset_agent_orchestra.Store.Audit.{genesis_audit_hash, is_digest}
use superset_agent_orchestra.Store.Launch.{
  LaunchIntent, Launches, reserved, dispatching, bound, accepted, reserve_launch, intent_by_key,
  valid_intent, agrees,
}
use superset_agent_orchestra.Store.Binding.{
  Follows, LaunchCall, updates, launch_all, launch_all-Follows,
}
use superset_agent_orchestra.Store.Reservation.{reserve-again}

abbrev intent : LaunchIntent
intent = record {
  idempotency_key = "k1";
  request_hash = genesis_audit_hash;
  session_id = "s1";
  batch_id = "b1";
  worker_id = "w1";
  workspace_id = none;
  attribution = record { agent = "codex"; task = "fix" };
  status = reserved;
  created_at = 5;
  updated_at = 5;
  run_id = none;
  diagnostic = none;
}

abbrev empty : Launches
empty = record { sessions = []; batches = []; workers = []; intents = [] }

abbrev launches : Launches
launches = record empty { intents = intent ∷ [] }

abbrev calls : List LaunchCall
calls =
    updates "k1" dispatching none none true 6
    ∷ updates "k1" bound (some "r1") none true 7
    ∷ updates "k1" bound (some "r2") none true 8
    ∷ []

launch_all-Follows_example :
    (j : LaunchIntent) × (intent_by_key "k1" (launch_all (λ s. s) calls launches).intents ≡ some j)
    × Follows intent j
launch_all-Follows_example =
    launch_all-Follows (λ s. s) calls launches "k1" intent (unfold intent_by_key find in refl)

reserve-again_example : reserve_launch intent 9 launches ≡ (accepted intent false, launches)
reserve-again_example =
    reserve-again intent intent 5 9 empty launches intent true
      (unfold reserve_launch intent_by_key find valid_intent is_digest agrees in refl) refl

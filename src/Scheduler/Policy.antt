-- ===== src/Scheduler/Policy.antt =====
-- src/concurrency-scheduler.ts: the policy, the requests, and which limits block a request.
use superset_agent_orchestra.Base.{
  ℕ, ◌+◌, String, Bool, ◌&&◌, not, List, [], ◌∷◌, ◌++◌, select, count, length, ltb, leb, ◌==◌,
  if◌then◌else◌, nat_eq, string_eq,
}

pub data Overload : Type 0 where
  queue reject : Overload

pub record Policy : Type 0 where
  pub global : ℕ
  pub per_host : ℕ
  pub per_project : ℕ
  pub per_agent : ℕ
  pub per_workspace : ℕ
  pub max_queued : ℕ
  pub pressure_hook_timeout_ms : ℕ
  pub overload : Overload

abbrev pub default_policy : Policy
default_policy = record {
  global = 8;
  per_host = 4;
  per_project = 4;
  per_agent = 2;
  per_workspace = 1;
  max_queued = 100;
  pressure_hook_timeout_ms = 30000;
  overload = Overload.queue;
}

-- What the constructor demands of numbers that are not negative.
unfoldable pub valid_policy : Policy → Bool
valid_policy p =
    ltb 0 p.pressure_hook_timeout_ms
    && (ltb 0 p.global
        && (ltb 0 p.per_host
            && (ltb 0 p.per_project && (ltb 0 p.per_agent && ltb 0 p.per_workspace))))

pub record Request : Type 0 where
  pub id : String
  pub host_id : String
  pub project_id : String
  pub agent_id : String
  pub workspace_id : String

-- `validateRequest`; true where it does not throw.
unfoldable pub valid_request : Request → Bool
valid_request r =
    not (r.host_id == "")
    && (not (r.project_id == "")
        && (not (r.agent_id == "") && (not (r.workspace_id == "") && not (r.id == ""))))

-- `active` is a Map from ids, in insertion order: its `set` and its `delete`.
unfoldable pub put : Request → List Request → List Request
put r [] = r ∷ []
put r (q ∷ qs) = let rest = put r qs in if q.id == r.id then r ∷ qs else q ∷ rest

unfoldable pub remove : String → List Request → List Request
remove id rs = select (λ (r : Request). not (r.id == id)) rs

abbrev pub push_if : Bool → String → List String → List String
push_if reached name limits = if reached then limits ++ name ∷ [] else limits

-- The keys of a `ConcurrencyScope`.
pub data Key : Type 0 where
  host project agent workspace : Key

abbrev pub value_of : Key → Request → String
value_of host r = r.host_id
value_of project r = r.project_id
value_of agent r = r.agent_id
value_of workspace r = r.workspace_id

abbrev pub limit_of : Key → Policy → ℕ
limit_of host p = p.per_host
limit_of project p = p.per_project
limit_of agent p = p.per_agent
limit_of workspace p = p.per_workspace

-- `count`
unfoldable pub count_key : Key → String → List Request → ℕ
count_key k v active = count (λ (r : Request). value_of k r == v) active

unfoldable pub reached : Policy → List Request → Key → Request → Bool
unfolding count_key
reached p active k r = leb (limit_of k p) (count_key k (value_of k r) active)

-- `blockedBy`: the limits that the request would exceed, by name.
unfoldable pub blocked_by : Policy → List Request → Request → List String
unfolding reached
blocked_by p active r = push_if (reached p active workspace r) "workspace" (
    push_if (reached p active agent r) "agent" (
      push_if (reached p active project r) "project" (
        push_if (reached p active host r) "host"
          (push_if (leb p.global (length active)) "global" []))))

-- `this.blockedBy(request).length > 0`
unfoldable pub is_blocked : Policy → List Request → Request → Bool
unfolding blocked_by
is_blocked p active r = ltb 0 (length (blocked_by p active r))

-- `countBy`: the object that holds the counts, by the order of first use.
unfoldable pub increment : String → List (String × ℕ) → List (String × ℕ)
increment v [] = (v, 1) ∷ []
increment v ((w, n) ∷ counts) =
    let rest = increment v counts in if w == v then (w, n + 1) ∷ counts else (w, n) ∷ rest

unfoldable pub count_from : Key → List (String × ℕ) → List Request → List (String × ℕ)
count_from k counts [] = counts
count_from k counts (r ∷ rs) = count_from k (increment (value_of k r) counts) rs

unfoldable pub count_by : Key → List Request → List (String × ℕ)
count_by k active = count_from k [] active

-- The counts of an object: a key that is absent counts 0.
abbrev pub count_in : String → List (String × ℕ) → ℕ
count_in v [] = 0
count_in v ((w, n) ∷ counts) = let rest = count_in v counts in if w == v then n else rest

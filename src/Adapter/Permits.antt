-- ===== src/Adapter/Permits.antt =====
-- src/concurrency-limited-agent-adapter.ts: the class `ConcurrencyLimitedAgentAdapter` as a state that
-- events change. A release closure is the ticket of its permit. A call that waits for the provider is a
-- row of `launching`, `lookups` or `inspections`, and the answer of the provider is an event of its own;
-- `recoveries` of the code has a key while a row of the last two has it. The maps are never iterated, so
-- their order is left out. The provider and the scopes of the requests are the events' arguments.
use superset_agent_orchestra.Base.{
  ℕ, String, Bool, true, false, ◌&&◌, ◌||◌, not, Option, none, some, List, [], ◌∷◌, any, find,
  select, ◌==◌, if◌then◌else◌, nat_eq, string_eq,
}
use superset_agent_orchestra.Scheduler.Policy.{Policy, Request}
use superset_agent_orchestra.Scheduler.Queue.{
  Pending, Scheduler, Refusal, Reply, issued, refused, acquire, release,
}

-- The `get` and the `delete` of a Map; `set` is `assign`.
unfoldable pub lookup {ℓ} : {A : Type ℓ} → String → List (String × A) → Option A
lookup k [] = none
lookup k ((j, a) ∷ es) = let rest = lookup k es in if j == k then some a else rest

unfoldable pub delete {ℓ} : {A : Type ℓ} → String → List (String × A) → List (String × A)
delete k [] = []
delete k ((j, a) ∷ es) = let rest = delete k es in if j == k then es else (j, a) ∷ rest

unfoldable pub assign {ℓ} : {A : Type ℓ} → String → A → List (String × A) → List (String × A)
unfolding delete
assign k a es = (k, a) ∷ delete k es

-- The value of `releases` with its key.
pub record HeldPermit : Type 0 where
  pub run : String
  pub key : String
  pub ticket : ℕ

-- What `recover` has read when it waits for the lookup: `unresolvedRelease`, `retainedRecoveryRelease`,
-- `retainedRunId`, whether `retainedPermit` is defined, and the permit it has reserved itself.
pub record Lookup : Type 0 where
  pub key : String
  pub unresolved : Option ℕ
  pub retained : Option ℕ
  pub bound : Option String
  pub has_permit : Bool
  pub fresh : Option ℕ

-- A call of `inspectRecoveredRun`; `guarded` inside the `try` that marks the run as recovering.
pub record Inspection : Type 0 where
  pub key : String
  pub run : String
  pub guarded : Bool

pub record Adapter : Type 0 where
  pub scheduler : Scheduler
  pub releases : List HeldPermit
  pub runs : List (String × String)
  pub launches : List (String × ℕ)
  pub recovered : List (String × ℕ)
  pub recovering : List String
  pub terminal : List String
  pub launching : List (String × ℕ)
  pub lookups : List Lookup
  pub inspections : List Inspection

pub data RunStatus : Type 0 where
  queued running succeeded failed cancelled : RunStatus

unfoldable pub is_terminal : RunStatus → Bool
is_terminal RunStatus.succeeded = true
is_terminal RunStatus.failed = true
is_terminal RunStatus.cancelled = true
is_terminal _ = false

-- The errors: of the scheduler, of the provider, and the adapter's own.
pub data Fault : Type 0 where
  unadmitted : Refusal → Fault
  overloaded provider elsewhere mismatched unreserved : Fault

-- How a call stands after an event; `ignored` where no call waits for the event.
pub data Response : Type 0 where
  ignored waits : Response
  handle : Option String → Response
  state : RunStatus → Response
  result : Bool → Response
  thrown : Fault → Response

-- What the provider answers to `findByIdempotencyKey`.
pub data Found : Type 0 where
  threw absent : Found
  present : String → Found

unfoldable pub is_run : String → HeldPermit → Bool
is_run run h = h.run == run

unfoldable pub remove_run : String → List HeldPermit → List HeldPermit
unfolding is_run
remove_run run [] = []
remove_run run (h ∷ hs) = let rest = remove_run run hs in if is_run run h then hs else h ∷ rest

abbrev pub is_none {ℓ} : {A : Type ℓ} → Option A → Bool
is_none none = true
is_none (some a) = false

abbrev pub or_else {ℓ} : {A : Type ℓ} → Option A → Option A → Option A
or_else none b = b
or_else (some a) b = some a

-- `recoveryRelease`
abbrev pub reserved : Lookup → Option ℕ
reserved l = or_else l.fresh l.retained

unfoldable pub include : String → List String → List String
include a runs = if any (λ b. b == a) runs then runs else a ∷ runs

unfoldable pub exclude : String → List String → List String
exclude a runs = select (λ b. not (b == a)) runs

abbrev pub is_entry : ℕ → String → String × ℕ → Bool
is_entry t key e = e.1 == t && e.0 == key

unfoldable pub remove_launching : ℕ → String → List (String × ℕ) → List (String × ℕ)
remove_launching t key [] = []
remove_launching t key (l ∷ ls) =
    let rest = remove_launching t key ls in if is_entry t key l then ls else l ∷ rest

abbrev pub is_lookup : String → Lookup → Bool
is_lookup key l = l.key == key

unfoldable pub remove_lookup : String → List Lookup → List Lookup
remove_lookup key [] = []
remove_lookup key (l ∷ ls) =
    let rest = remove_lookup key ls in if is_lookup key l then ls else l ∷ rest

unfoldable pub mark_terminal : String → Adapter → Adapter
unfolding include
mark_terminal run st =
    if any (λ r. r == run) st.recovering
    then record st { terminal = include run st.terminal }
    else st

-- The `finally` of `recover`.
unfoldable pub unmark : String → Adapter → Adapter
unfolding exclude
unmark run st = record st {
  recovering = exclude run st.recovering;
  terminal = exclude run st.terminal;
}

abbrev pub grants : ℕ → String → ℕ × String → Bool
grants t key h = h.0 == t && h.1 == key

unfoldable pub bind_run : String → String → ℕ → Adapter → Adapter
unfolding assign
bind_run run key t st = record st {
  releases = record { run = run; key = key; ticket = t } ∷ st.releases;
  runs = assign key run st.runs;
}

unfoldable pub keep_launch : String → ℕ → Adapter → Adapter
unfolding assign
keep_launch key t st = record st { launches = assign key t st.launches }

unfoldable pub inspect : String → String → Bool → Adapter → Adapter
inspect key run guarded st = record st {
  inspections = record { key = key; run = run; guarded = guarded } ∷ st.inspections;
}

unfoldable pub is_recovering : String → Adapter → Bool
is_recovering key st =
    any (is_lookup key) st.lookups || any (λ (i : Inspection). i.key == key) st.inspections

-- What `acquire` has answered: a promise of the permit, or an error.
unfoldable pub enter_launch : String → Reply × Scheduler → Adapter → Response × Adapter
enter_launch key (refused why, sch) st = (thrown (unadmitted why), record st { scheduler = sch })
enter_launch key (issued t, sch) st =
    (waits, record st { scheduler = sch; launching = (key, t) ∷ st.launching })

module _ (p : Policy) (hooked : Bool) where
  -- The call of a release closure.
  unfoldable pub free : ℕ → ℕ → Adapter → Adapter
  free t now st = record st { scheduler = release p hooked t now st.scheduler }

  -- `unresolvedRelease?.()`
  unfoldable pub free_some : Option ℕ → ℕ → Scheduler → Scheduler
  free_some none now sch = sch
  free_some (some t) now sch = release p hooked t now sch

  -- `release`
  unfoldable pub release_run : String → ℕ → Adapter → Adapter
  unfolding free remove_run
  release_run run now st = elim (find (is_run run) st.releases) [
    | none ↦ st
    | some h ↦ record (free h.ticket now st) {
      runs = delete h.key st.runs;
      releases = remove_run run st.releases;
    }
  ]

  -- `launch`, up to its wait for the permit and the provider.
  unfoldable pub launch : String → Request → ℕ → Adapter → Response × Adapter
  unfolding enter_launch
  launch key scope now st =
      enter_launch key (acquire p hooked (record scope { id = key }) false false now st.scheduler)
        st

  -- The rest of `launch`, when the provider has launched a run or thrown.
  unfoldable pub settle_launch : String → ℕ → Option String → ℕ → Adapter → Response × Adapter
  unfolding keep_launch bind_run free
  settle_launch key t none now st = (thrown provider, keep_launch key t st)
  settle_launch key t (some run) now st = elim (find (is_run run) st.releases) [
    | none ↦ (handle (some run), bind_run run key t st)
    | some h ↦
        if h.key == key
        then (handle (some run), free t now st)
        else (thrown elsewhere, keep_launch key t st)
  ]

  -- The answer of the provider comes only after the permit; a request that the scheduler gave up has
  -- been rejected.
  unfoldable pub launched : String → ℕ → Option String → ℕ → Adapter → Response × Adapter
  unfolding settle_launch remove_launching
  launched key t answer now st =
      let gone = record st { launching = remove_launching t key st.launching } in
      if not (any (is_entry t key) st.launching)
      then (ignored, st)
      else if any (grants t key) st.scheduler.permits
      then settle_launch key t answer now gone
      else if any (λ (q : Pending). q.ticket == t) st.scheduler.waiting
      then (ignored, st)
      else (thrown overloaded, gone)

  unfoldable pub status : String → Option (String × RunStatus) → ℕ → Adapter → Response × Adapter
  unfolding release_run mark_terminal is_terminal
  status run none now st = (thrown provider, st)
  status run (some (r, s)) now st =
      if not (r == run)
      then (thrown mismatched, st)
      else if is_terminal s
      then (state s, release_run run now (mark_terminal run st))
      else (state s, st)

  unfoldable pub collect : String → Option Bool → ℕ → Adapter → Response × Adapter
  unfolding release_run mark_terminal
  collect run none now st = (thrown provider, st)
  collect run (some ended) now st =
      if ended
      then (result true, release_run run now (mark_terminal run st))
      else (result false, st)

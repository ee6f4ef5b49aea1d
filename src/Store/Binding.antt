-- ===== src/Store/Binding.antt =====
-- src/store.ts: a launch request is reserved once and bound to one run.
use superset_agent_orchestra.Base.{
  ℕ, ◌≤◌, String, ◌≡◌, refl, sym, ap, ◌∙◌, Bool, true, false, ◌&&◌, not, Option, some, List, [],
  ◌∷◌, ◌++◌, find, update, inl, inr, ◌==◌, if◌then◌else◌, string_eq, option_string_eq, arith,
  eq_iff, Bool-cases, Option-cases,
}
use superset_agent_orchestra.Store.Launch.{
  LaunchStatus, reserved, dispatching, unknown_outcome, bound, LaunchIntent, Launches, is_bound,
  valid_intent, agrees, intent_by_key, replace_intent, reserve_launch, may_become, updated_intent,
  change_intent, update_launch,
}

unfoldable pub rank : LaunchStatus → ℕ
rank reserved = 0
rank dispatching = 1
rank unknown_outcome = 2
rank bound = 3

-- What later calls leave of an intent: its request and identities; the status only advances; a
-- bound intent keeps its run.
pub record Follows (i j : LaunchIntent) : Type 0 where
  pub key : j.idempotency_key ≡ i.idempotency_key
  pub request : j.request_hash ≡ i.request_hash
  pub worker : j.worker_id ≡ i.worker_id
  pub session : j.session_id ≡ i.session_id
  pub created : j.created_at ≡ i.created_at
  pub advances : rank i.status ≤ rank j.status
  pub run : is_bound i.status ≡ true → (is_bound j.status ≡ true) × (j.run_id ≡ i.run_id)

Follows-refl : (i : LaunchIntent) → Follows i i
Follows-refl i = record {
  key = refl;
  request = refl;
  worker = refl;
  session = refl;
  created = refl;
  advances = ground arith;
  run = λ b. (b, refl);
}

Follows-trans : (i j k : LaunchIntent) → Follows i j → Follows j k → Follows i k
Follows-trans i j k p q = record {
  key = q.key ∙ p.key;
  request = q.request ∙ p.request;
  worker = q.worker ∙ p.worker;
  session = q.session ∙ p.session;
  created = q.created ∙ p.created;
  advances = ground (arith, p.advances, q.advances);
  run = λ b. let (c, r) = p.run b in let (d, s) = q.run c in (d, s ∙ r);
}

may_become-rank : (s t : LaunchStatus) → may_become s t ≡ true → rank s ≤ rank t
unfolding may_become rank
may_become-rank s t e = ground (arith, e)

may_become-bound :
    (s t : LaunchStatus) → may_become s t ≡ true → is_bound s ≡ true → is_bound t ≡ true
unfolding may_become
may_become-bound s t e b = ground (arith, e, b)

-- The intents of a state, and those of a later one.
abbrev Later : List LaunchIntent → List LaunchIntent → Type 0
Later is js =
    (key : String) (i : LaunchIntent)
    → intent_by_key key is ≡ some i
    → (j : LaunchIntent) × (intent_by_key key js ≡ some j) × Follows i j

by_key-append :
    (key : String) (is js : List LaunchIntent) (i : LaunchIntent)
    → intent_by_key key is ≡ some i
    → intent_by_key key (is ++ js) ≡ some i
unfolding intent_by_key find
by_key-append key [] js i e = absurd (ground (arith, e))
by_key-append key (x ∷ is) js i e = ground (arith, e, by_key-append key is js i)

by_key-key :
    (key : String) (is : List LaunchIntent) (i : LaunchIntent)
    → intent_by_key key is ≡ some i
    → i.idempotency_key ≡ key
unfolding intent_by_key find
by_key-key key [] i e = absurd (ground (arith, e))
by_key-key key (x ∷ is) i e = ground (arith, e, by_key-key key is i, eq_iff x.idempotency_key key)

by_key-replace :
    (key : String) (new : LaunchIntent) (is : List LaunchIntent) (i : LaunchIntent)
    → intent_by_key key is ≡ some i
    → intent_by_key key (replace_intent new is)
      ≡ some (if i.idempotency_key == new.idempotency_key then new else i)
unfolding intent_by_key find replace_intent update
by_key-replace key new [] i e = absurd (ground (arith, e))
by_key-replace key new (x ∷ is) i e = ground (
  arith,
  e,
  by_key-replace key new is i,
  eq_iff x.idempotency_key key,
  eq_iff x.idempotency_key new.idempotency_key,
  eq_iff new.idempotency_key key,
)

replaced-Later :
    (key : String) (old new : LaunchIntent) (is : List LaunchIntent)
    → intent_by_key key is ≡ some old
    → Follows old new
    → Later is (replace_intent new is)
replaced-Later key old new is o f k i e =
    elim (Bool-cases (i.idempotency_key == new.idempotency_key)) [
      | inr n ↦ (i, rw (by_key-replace k new is i e, n) refl, Follows-refl i)
      | inl n ↦
          let same : some i ≡ some old =
            sym e
            ∙ (ap (λ x. intent_by_key x is)
                  (sym (by_key-key k is i e)
                    ∙ (eq_iff i.idempotency_key new.idempotency_key).0 n
                    ∙ f.key
                    ∙ by_key-key key is old o)
                ∙ o) in
          let p : old ≡ i = ground (arith, same) in
          (new, rw (by_key-replace k new is i e, n) refl, rw (← p) f)
    ]

Later-refl : (is : List LaunchIntent) → Later is is
Later-refl is key i e = (i, e, Follows-refl i)

Later-trans : (is js ks : List LaunchIntent) → Later is js → Later js ks → Later is ks
Later-trans is js ks p q key i e =
    let (j, e', f) = p key i e in let (k, e'', g) = q key j e' in (k, e'', Follows-trans i j k f g)

module _ (redact : String → String) where
  updated-Follows :
      (status : LaunchStatus) (run_id diagnostic : Option String) (now : ℕ) (old : LaunchIntent)
      → let new = updated_intent redact status run_id diagnostic now old in
        may_become old.status new.status ≡ true
        → (is_bound old.status && not (new.run_id == old.run_id)) ≡ false
        → Follows old new
  unfolding updated_intent
  updated-Follows status run_id diagnostic now old m r =
      let new = updated_intent redact status run_id diagnostic now old in
      record {
        key = refl;
        request = refl;
        worker = refl;
        session = refl;
        created = refl;
        advances = may_become-rank old.status status m;
        run = λ b. (
          may_become-bound old.status status m b,
          (option_string_eq.equals_iff new.run_id old.run_id).0 (ground (arith, r, b)),
        );
      }

  change-Later :
      (key : String) (status : LaunchStatus) (run_id diagnostic : Option String) (audited : Bool)
      (now : ℕ) (old : LaunchIntent) (st : Launches)
      → intent_by_key key st.intents ≡ some old
      → Later st.intents
          (change_intent old
            (updated_intent redact status run_id diagnostic now old)
            audited
            st).1.intents
  unfolding change_intent
  change-Later key status run_id diagnostic audited now old st e =
      let new = updated_intent redact status run_id diagnostic now old in
      elim (Bool-cases (may_become old.status new.status)) [
        | inr m ↦ rw (m, change_intent) (Later-refl st.intents)
        | inl m ↦ elim (Bool-cases (valid_intent new)) [
          | inr v ↦ rw (m, v, change_intent) (Later-refl st.intents)
          | inl v ↦ elim (Bool-cases (is_bound old.status && not (new.run_id == old.run_id))) [
            | inl r ↦ rw (m, v, r, change_intent) (Later-refl st.intents)
            | inr r ↦ elim (Bool-cases (audited && agrees new st)) [
              | inr a ↦ rw (m, v, r, a, change_intent) (Later-refl st.intents)
              | inl a ↦
                  rw (m, v, r, a, change_intent)
                    (replaced-Later key old new st.intents e
                      (updated-Follows status run_id diagnostic now old m r))
            ]
          ]
        ]
      ]

  update-Later :
      (key : String) (status : LaunchStatus) (run_id diagnostic : Option String) (audited : Bool)
      (now : ℕ) (st : Launches)
      → Later st.intents
          (update_launch redact key status run_id diagnostic audited now st).1.intents
  unfolding update_launch
  update-Later key status run_id diagnostic audited now st =
      elim (Option-cases (intent_by_key key st.intents)) [
        | inl n ↦ rw (n, update_launch) (Later-refl st.intents)
        | inr (old, n) ↦
            rw (n, update_launch) (change-Later key status run_id diagnostic audited now old st n)
      ]

reserve-Later :
    (input : LaunchIntent) (now : ℕ) (st : Launches)
    → Later st.intents (reserve_launch input now st).1.intents
unfolding reserve_launch
reserve-Later input now st =
    let new : LaunchIntent = record input {
      status = reserved;
      created_at = now;
      updated_at = now;
    } in
    elim (Option-cases (intent_by_key input.idempotency_key st.intents)) [
      | inr (old, n) ↦ elim (Bool-cases (old.request_hash == input.request_hash)) [
        | inl h ↦ rw (n, h, reserve_launch) (Later-refl st.intents)
        | inr h ↦ rw (n, h, reserve_launch) (Later-refl st.intents)
      ]
      | inl n ↦ elim (Bool-cases (valid_intent new && agrees new st)) [
        | inl v ↦
            rw (n, v, reserve_launch)
              (λ key i e. (i, by_key-append key st.intents (new ∷ []) i e, Follows-refl i))
        | inr v ↦ rw (n, v, reserve_launch) (Later-refl st.intents)
      ]
    ]

-- The launch calls, with their arguments.
pub data LaunchCall : Type 0 where
  reserves : LaunchIntent → ℕ → LaunchCall
  updates : String → LaunchStatus → Option String → Option String → Bool → ℕ → LaunchCall

unfoldable pub launch_all : (String → String) → List LaunchCall → Launches → Launches
launch_all redact [] st = st
launch_all redact (reserves input now ∷ cs) st =
    launch_all redact cs (reserve_launch input now st).1
launch_all redact (updates key status run_id diagnostic audited now ∷ cs) st =
    launch_all redact cs (update_launch redact key status run_id diagnostic audited now st).1

launch_all-Later :
    (redact : String → String) (cs : List LaunchCall) (st : Launches)
    → Later st.intents (launch_all redact cs st).intents
unfolding launch_all
launch_all-Later redact [] st = Later-refl st.intents
launch_all-Later redact (reserves input now ∷ cs) st =
    let next = (reserve_launch input now st).1 in
    Later-trans st.intents next.intents (launch_all redact cs next).intents
      (reserve-Later input now st) (launch_all-Later redact cs next)
launch_all-Later redact (updates key status run_id diagnostic audited now ∷ cs) st =
    let next = (update_launch redact key status run_id diagnostic audited now st).1 in
    Later-trans st.intents next.intents (launch_all redact cs next).intents
      (update-Later redact key status run_id diagnostic audited now st)
      (launch_all-Later redact cs next)

-- A launch intent is never lost and never goes back: after every sequence of launch calls the key
-- still has its intent, of the same request, session and worker, at the same status or a later one;
-- and once it is bound to a run it stays bound to that run.
pub launch_all-Follows :
    (redact : String → String) (cs : List LaunchCall) (st : Launches) (key : String)
    (i : LaunchIntent)
    → intent_by_key key st.intents ≡ some i
    → (j : LaunchIntent) × (intent_by_key key (launch_all redact cs st).intents ≡ some j)
      × Follows i j
launch_all-Follows redact cs st key i e = launch_all-Later redact cs st key i e

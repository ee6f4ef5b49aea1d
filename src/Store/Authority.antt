-- ===== src/Store/Authority.antt =====
-- src/store.ts: the first result of an attempt is the authoritative one.
use superset_agent_orchestra.Base.{
  String, ◌⊎◌, ◌≡◌, sym, ap, ◌∙◌, true, false, ◌||◌, not, none, some, List, [], ◌∷◌, ◌++◌, find,
  inl, inr, ◌==◌, nat_eq, string_eq, option_string_eq, option_nat_eq, arith, eq_iff, Bool-cases,
  Option-cases, All, Pairs, All-append,
}
use superset_agent_orchestra.Store.State.{Worker, is_some, is_terminal, valid_worker}
use superset_agent_orchestra.Store.Calls.{worker_by_id, replace_worker}
use superset_agent_orchestra.Store.Lookup.{by_id-replace_self, by_id-replace_ne, by_id-id}
use superset_agent_orchestra.Store.Results.{
  CapturedResult, Ledger, CaptureError, assignment_by_id, same_identity, is_launched,
  settle_by_result, result_by_delivery, result_by_attempt, store_result, repeat_result,
  admit_result, capture_result, delivery_conflict, attempt_conflict,
}

-- How a capture can change the ledger: not at all, or by a result that has a new delivery and a new
-- attempt, of which the worker that it names takes note.
pub data Change (as_json : CapturedResult → String) (st : Ledger) : Ledger → Type 0 where
  same : Change as_json st st
  added :
      (r : CapturedResult) (w : Worker)
      → worker_by_id r.session_id st.workers ≡ some w
      → result_by_delivery r.delivery_id st.results ≡ none
      → result_by_attempt r.attempt_id st.results ≡ none
      → Change as_json st (record st {
        results = st.results ++ r ∷ [];
        workers = replace_worker (settle_by_result as_json r w) st.workers;
      })

module _ (as_json : CapturedResult → String) (r : CapturedResult) (st : Ledger) where
  store-Change :
      result_by_delivery r.delivery_id st.results ≡ none
      → result_by_attempt r.attempt_id st.results ≡ none
      → Change as_json st (store_result as_json r st).1
  unfolding store_result
  store-Change d a = elim (Option-cases (worker_by_id r.session_id st.workers)) [
    | inl n ↦ rw (n, store_result) same
    | inr (w, n) ↦ elim (Bool-cases (valid_worker (settle_by_result as_json r w))) [
      | inr v ↦ rw (n, v, store_result) same
      | inl v ↦ rw (n, v, store_result) (added r w n d a)
    ]
  ]

  repeat_same : (e : CaptureError) (old : CapturedResult) → (repeat_result e old r st).1 ≡ st
  unfolding repeat_result
  repeat_same e old = ground arith

  admit-Change : Change as_json st (admit_result as_json r st).1
  unfolding admit_result
  admit-Change = elim (Option-cases (result_by_delivery r.delivery_id st.results)) [
    | inr (old, d) ↦ rw (d, admit_result) (rw (repeat_same delivery_conflict old) same)
    | inl d ↦ elim (Option-cases (result_by_attempt r.attempt_id st.results)) [
      | inr (old, a) ↦ rw (d, a, admit_result) (rw (repeat_same attempt_conflict old) same)
      | inl a ↦ rw (d, a, admit_result) (store-Change d a)
    ]
  ]

  pub capture-Change : Change as_json st (capture_result as_json r st).1
  unfolding capture_result
  capture-Change = elim (Option-cases (assignment_by_id r.assignment_id st.assignments)) [
    | inl n ↦ rw (n, capture_result) same
    | inr (a, n) ↦
        elim (Bool-cases (
          not (is_some a.workspace_id)
          || (not (is_some a.attempt_id) || not (is_some a.attempt)))) [
            | inl l ↦ rw (n, l, capture_result) same
            | inr l ↦ elim (Bool-cases (same_identity a r)) [
              | inr i ↦ rw (n, l, i, capture_result) same
              | inl i ↦ elim (Bool-cases (is_launched a.status)) [
                | inr s ↦ rw (n, l, i, s, capture_result) same
                | inl s ↦ rw (n, l, i, s, capture_result) admit-Change
              ]
            ]
          ]
  ]

-- A result of a delivery, or of an attempt, that was captured before.
module _ (as_json : CapturedResult → String) (q : CapturedResult) (st : Ledger) where
  abbrev IsKnown : Type 0
  IsKnown =
      ((r : CapturedResult) × (result_by_delivery q.delivery_id st.results ≡ some r))
      ⊎ ((r : CapturedResult) × (result_by_attempt q.attempt_id st.results ≡ some r))

unfoldable pub capture_all : (CapturedResult → String) → List CapturedResult → Ledger → Ledger
capture_all as_json [] st = st
capture_all as_json (r ∷ rs) st = capture_all as_json rs (capture_result as_json r st).1

-- Two results are of different deliveries and of different attempts.
abbrev pub Apart : CapturedResult → CapturedResult → Type 0
Apart a b = ((a.delivery_id == b.delivery_id) ≡ false) × ((a.attempt_id == b.attempt_id) ≡ false)

Apart-of_none :
    (r : CapturedResult) (rs : List CapturedResult)
    → result_by_delivery r.delivery_id rs ≡ none
    → result_by_attempt r.attempt_id rs ≡ none
    → All (λ (a : CapturedResult). Apart a r) rs
unfolding result_by_delivery result_by_attempt find
Apart-of_none r [] d a = tt
Apart-of_none r (x ∷ rs) d a = (
  (ground (arith, d), ground (arith, a)),
  Apart-of_none r rs (ground (arith, d)) (ground (arith, a)),
)

Apart-append :
    (r : CapturedResult) (rs : List CapturedResult)
    → Pairs Apart rs
    → All (λ (a : CapturedResult). Apart a r) rs
    → Pairs Apart (rs ++ r ∷ [])
Apart-append r [] p h = (tt, tt)
Apart-append r (x ∷ rs) p h =
    (All-append (Apart x) rs (r ∷ []) p.0 (h.0, tt), Apart-append r rs p.1 h.1)

module _ (as_json : CapturedResult → String) (st : Ledger) where
  Change-Apart :
      {after : Ledger}
      → Change as_json st after
      → Pairs Apart st.results
      → Pairs Apart after.results
  Change-Apart same p = p
  Change-Apart (added r w n d a) p = Apart-append r st.results p (Apart-of_none r st.results d a)

  Change-worker :
      {after : Ledger} (id : String) (x : Worker)
      → Change as_json st after
      → worker_by_id id st.workers ≡ some x
      → is_terminal x.status ≡ true
      → worker_by_id id after.workers ≡ some x
  Change-worker id x same e t = e
  Change-worker id x (added r w n d a) e t =
      let w' = settle_by_result as_json r w in
      let i : w'.id ≡ w.id = unfold settle_by_result in ground arith in
      elim (Bool-cases (w'.id == id)) [
        | inr o ↦ by_id-replace_ne id w' st.workers o ∙ e
        | inl o ↦
            let q : w'.id ≡ id = (eq_iff w'.id id).0 o in
            let s : r.session_id ≡ id = sym (by_id-id r.session_id st.workers w n) ∙ (sym i ∙ q) in
            let f : some w ≡ some x = sym n ∙ (ap (λ k. worker_by_id k st.workers) s ∙ e) in
            let g : w ≡ x = ground (arith, f) in
            let u : w' ≡ x = unfold settle_by_result in ground (arith, g, t) in
            let l : worker_by_id w'.id st.workers ≡ some x = rw q e in
            ap (λ k. worker_by_id k (replace_worker w' st.workers)) (sym q)
            ∙ by_id-replace_self w' st.workers x l
            ∙ ap some u
      ]

module _ (as_json : CapturedResult → String) where
  -- No delivery and no attempt ever has two results.
  pub capture_all-Apart :
      (rs : List CapturedResult) (st : Ledger)
      → Pairs Apart st.results
      → Pairs Apart (capture_all as_json rs st).results
  unfolding capture_all
  capture_all-Apart [] st p = p
  capture_all-Apart (x ∷ xs) st p =
      capture_all-Apart xs (capture_result as_json x st).1
        (Change-Apart as_json st (capture-Change as_json x st) p)

  -- A worker that has a terminal outcome is left as it is by every result that is captured.
  pub capture_all-terminal :
      (rs : List CapturedResult) (st : Ledger) (id : String) (w : Worker)
      → worker_by_id id st.workers ≡ some w
      → is_terminal w.status ≡ true
      → worker_by_id id (capture_all as_json rs st).workers ≡ some w
  unfolding capture_all
  capture_all-terminal [] st id w e t = e
  capture_all-terminal (x ∷ xs) st id w e t =
      capture_all-terminal xs (capture_result as_json x st).1 id w
        (Change-worker as_json st id w (capture-Change as_json x st) e t) t

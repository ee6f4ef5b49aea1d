-- ===== src/Store/Reservation.antt =====
-- src/store.ts: the reservation of a launch request is idempotent.
use superset_agent_orchestra.Base.{
  ℕ, ◌≡◌, sym, ap, ◌∙◌, Bool, false, ◌&&◌, none, some, List, [], ◌∷◌, ◌++◌, find, inl, inr, ◌==◌,
  if◌then◌else◌, string_eq, option_string_eq, arith, eq_iff, Bool-cases, Option-cases,
}
use superset_agent_orchestra.Store.Launch.{
  reserved, LaunchIntent, Launches, accepted, failed, conflict, valid_intent, agrees, intent_by_key,
  reserve_launch,
}

by_key-last :
    (new : LaunchIntent) (is : List LaunchIntent)
    → intent_by_key new.idempotency_key is ≡ none
    → intent_by_key new.idempotency_key (is ++ new ∷ []) ≡ some new
unfolding intent_by_key find
by_key-last new [] e = ground (arith, eq_iff new.idempotency_key new.idempotency_key)
by_key-last new (x ∷ is) e = ground (arith, e, by_key-last new is)

reserve-found :
    (input : LaunchIntent) (now : ℕ) (st after : Launches) (i : LaunchIntent) (new : Bool)
    → reserve_launch input now st ≡ (accepted i new, after)
    → (intent_by_key input.idempotency_key after.intents ≡ some i)
      × (i.request_hash ≡ input.request_hash)
reserve-found input now st after i new e =
    let made : LaunchIntent = record input {
      status = reserved;
      created_at = now;
      updated_at = now;
    } in
    elim (Option-cases (intent_by_key input.idempotency_key st.intents)) [
      | inr (old, n) ↦ elim (Bool-cases (old.request_hash == input.request_hash)) [
        | inl h ↦
            let p : old ≡ i = unfold reserve_launch in ground (arith, e, n, h) in
            let q : st ≡ after = unfold reserve_launch in ground (arith, e, n, h) in
            (
              ap (λ (x : Launches). intent_by_key input.idempotency_key x.intents) (sym q)
                  ∙ n
                  ∙ ap some p,
              ap (λ (x : LaunchIntent). x.request_hash) (sym p)
                  ∙ (eq_iff old.request_hash input.request_hash).0 h,
            )
        | inr h ↦ absurd (unfold reserve_launch in ground (arith, e, n, h))
      ]
      | inl n ↦ elim (Bool-cases (valid_intent made && agrees made st)) [
        | inr v ↦ absurd (unfold reserve_launch in ground (arith, e, n, v))
        | inl v ↦
            let grown : Launches = record st { intents = st.intents ++ made ∷ [] } in
            let p : made ≡ i = unfold reserve_launch in ground (arith, e, n, v) in
            let q : grown ≡ after = unfold reserve_launch in ground (arith, e, n, v) in
            (
              ap (λ (x : Launches). intent_by_key input.idempotency_key x.intents) (sym q)
                  ∙ by_key-last made st.intents n
                  ∙ ap some p,
              ap (λ (x : LaunchIntent). x.request_hash) (sym p),
            )
      ]
    ]

-- A reservation is idempotent: a request that was reserved, or that had been, gets the same intent
-- again whenever it is repeated, as one that is not new, and nothing changes; a request with the
-- same key and another hash is refused.
pub reserve-again :
    (input other : LaunchIntent) (now later : ℕ) (st after : Launches) (i : LaunchIntent)
    (new : Bool)
    → reserve_launch input now st ≡ (accepted i new, after)
    → other.idempotency_key ≡ input.idempotency_key
    → reserve_launch other later after ≡ (
        if other.request_hash == input.request_hash
        then (accepted i false, after)
        else (failed conflict, after))
reserve-again input other now later st after i new e k =
    let (f, h) = reserve-found input now st after i new e in
    let g : intent_by_key other.idempotency_key after.intents ≡ some i = rw k f in
    unfold reserve_launch in
    ground (
      arith,
      g,
      h,
      eq_iff i.request_hash other.request_hash,
      eq_iff other.request_hash input.request_hash,
    )

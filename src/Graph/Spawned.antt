-- ===== src/Graph/Spawned.antt =====
-- src/call-executor.ts: what the promise of `spawnBounded` resolves with.
use superset_agent_orchestra.Base.{
  ℕ, ◌+◌, ◌≤◌, String, ◌≡◌, refl, sym, subst, ap, ◌∙◌, Bool, true, false, Option, none, some, List,
  [], ◌∷◌, ◌++◌, inl, inr, length, ltb, ◌==◌, if◌then◌else◌, string_eq, nat_eq, arith, Bool-cases,
}
use superset_agent_orchestra.Graph.Spawn.{
  Signal, stderr, stdout, timeout, error, exit, stdin_error, Settlement, resolved, exited, failed,
  exit_text, is_zero, Child, started, concat, settle, take_errors, take_output, expire, verdict,
  leave, hear, spawn_bounded,
}
use superset_agent_orchestra.Graph.Settled.{resolution, run-settled, run-Lost, Lost}
use superset_agent_orchestra.Graph.Pipes.{
  heard, IsCounted, take_output-Counted, take_errors-Counted, hear-Counted,
}

abbrev pub if_exited : Option ℕ → List ℕ → Option (List ℕ)
if_exited none out = none
if_exited (some code) out = if code == 0 then some out else none

-- What a run of the child gives, said from its signals alone: where nothing but data, and an EPIPE of
-- its standard input, comes before its exit, with code 0, all that it has written to its standard
-- output before, if that is within the limit.
unfoldable pub completed : ℕ → List Signal → List ℕ → Option (List ℕ)
completed max_bytes [] out = none
completed max_bytes (stdout chunk ∷ ss) out = completed max_bytes ss (out ++ chunk)
completed max_bytes (stderr chunk ∷ ss) out = completed max_bytes ss out
completed max_bytes (timeout killed ∷ ss) out = none
completed max_bytes (error message ∷ ss) out = none
completed max_bytes (exit code signal ∷ ss) out =
    if ltb max_bytes (length out) then none else if_exited code out
completed max_bytes (stdin_error code ∷ ss) out =
    let rest = completed max_bytes ss out in if code == "EPIPE" then rest else none

is_zero-resolution :
    (code : Option ℕ) (signal : String) (out errors : List ℕ)
    → resolution
        (some (if is_zero code then resolved out else exited (exit_text code signal) errors))
      ≡ if_exited code out
is_zero-resolution none signal out errors = refl
is_zero-resolution (some code) signal out errors = ground (arith)

module _ (max_bytes : ℕ) where
  -- Nothing has gone wrong yet.
  record Waiting (c : Child) : Type 0 where
    pub settled : c.settled ≡ none
    pub in_time : c.timed_out ≡ false
    pub armed : c.armed ≡ true
    pub listening : c.listening ≡ true

  output-Waiting :
      (chunk : List ℕ) (c : Child) → Waiting c → Waiting (take_output max_bytes chunk c)
  unfolding take_output
  output-Waiting chunk c w = elim (Bool-cases (ltb max_bytes (c.output_bytes + length chunk))) [
    | inl y ↦
        rw (y, take_output)
          (record {
            settled = w.settled;
            in_time = w.in_time;
            armed = w.armed;
            listening = w.listening;
          })
    | inr n ↦
        rw (n, take_output)
          (record {
            settled = w.settled;
            in_time = w.in_time;
            armed = w.armed;
            listening = w.listening;
          })
  ]

  errors-Waiting :
      (chunk : List ℕ) (c : Child) → Waiting c → Waiting (take_errors max_bytes chunk c)
  unfolding take_errors
  errors-Waiting chunk c w = record {
    settled = w.settled;
    in_time = w.in_time;
    armed = w.armed;
    listening = w.listening;
  }

  expire-Lost : (killed : Bool) (c : Child) → Waiting c → Lost max_bytes (expire killed c)
  unfolding expire settle
  expire-Lost true c w =
      rw (w.armed, expire) (record { late = refl; unresolved = ap resolution w.settled })
  expire-Lost false c w =
      rw (w.armed, expire) (record { late = refl; unresolved = rw (w.settled) refl })

  settle_first : (x : Settlement) (c : Child) → c.settled ≡ none → (settle x c).settled ≡ some x
  unfolding settle
  settle_first x c e = rw e refl

  leave-settled :
      (code : Option ℕ) (signal : String) (c : Child)
      → Waiting c
      → (leave code signal c).settled ≡ some (verdict code signal c)
  unfolding leave settle
  leave-settled code signal c w = rw (w.listening, leave, w.settled) refl

  verdict-resolution :
      (code : Option ℕ) (signal : String) (out : List ℕ) (c : Child)
      → Waiting c
      → IsCounted max_bytes out c
      → resolution (some (verdict code signal c))
        ≡ (if ltb max_bytes (length out) then none else if_exited code out)
  unfolding verdict
  verdict-resolution code signal out c w k = elim (Bool-cases (ltb max_bytes (length out))) [
    | inl y ↦ rw (verdict, w.in_time, k.exceeds, y) refl
    | inr n ↦
        rw (verdict, w.in_time, k.exceeds, n, k.whole (k.exceeds ∙ n))
          (is_zero-resolution code signal out (concat c.errors))
  ]

  run-fixed :
      (ss : List Signal) (c : Child) (x : Settlement)
      → c.settled ≡ some x
      → resolution (spawn_bounded max_bytes ss c).settled ≡ resolution (some x)
  run-fixed ss c x e = ap resolution (run-settled max_bytes ss c x e)

  run-completed :
      (ss : List Signal) (out : List ℕ) (c : Child)
      → Waiting c
      → IsCounted max_bytes out c
      → resolution (spawn_bounded max_bytes ss c).settled ≡ completed max_bytes ss out
  unfolding spawn_bounded completed hear
  run-completed [] out c w k = ground (arith, w.settled)
  run-completed (stdout chunk ∷ ss) out c w k =
      run-completed ss (out ++ chunk) (take_output max_bytes chunk c) (output-Waiting chunk c w)
        (take_output-Counted max_bytes chunk out c k)
  run-completed (stderr chunk ∷ ss) out c w k =
      run-completed ss out (take_errors max_bytes chunk c) (errors-Waiting chunk c w)
        (take_errors-Counted max_bytes chunk out c k)
  run-completed (timeout killed ∷ ss) out c w k =
      run-Lost max_bytes ss (expire killed c) (expire-Lost killed c w)
  run-completed (error message ∷ ss) out c w k =
      run-fixed ss (settle (failed message) c) (failed message)
        (settle_first (failed message) c w.settled)
  run-completed (exit code signal ∷ ss) out c w k =
      run-fixed ss (leave code signal c) (verdict code signal c) (leave-settled code signal c w)
      ∙ verdict-resolution code signal out c w k
  run-completed (stdin_error code ∷ ss) out c w k = elim (Bool-cases (code == "EPIPE")) [
    | inl y ↦ rw (spawn_bounded, hear, y) (run-completed ss out c w k)
    | inr n ↦
        rw (spawn_bounded, hear, n)
          (run-fixed ss (settle (failed code) c) (failed code)
            (settle_first (failed code) c w.settled))
  ]

  started-Waiting : Waiting started
  started-Waiting = record { settled = refl; in_time = refl; armed = refl; listening = refl }

  started-Counted : IsCounted max_bytes [] started
  unfolding concat
  started-Counted = record {
    bytes = refl;
    exceeds = ground (arith);
    whole = λ h. refl;
    errors_fit = (refl, ground (arith));
  }

  run-Counted :
      (ss : List Signal) (out : List ℕ) (c : Child)
      → IsCounted max_bytes out c
      → length (concat (spawn_bounded max_bytes ss c).errors) ≤ max_bytes
  unfolding spawn_bounded
  run-Counted [] out c k = subst (λ n. n ≤ max_bytes) (sym k.errors_fit.0) k.errors_fit.1
  run-Counted (s ∷ ss) out c k =
      run-Counted ss (out ++ heard s) (hear max_bytes s c) (hear-Counted max_bytes s out c k)

  -- Whatever is heard of the child, and in whatever order, the run resolves with exactly what the
  -- reference definition gives, so never with an output over the limit, after a timeout or with
  -- another code than 0; and the error text that it keeps is within the limit.
  pub spawn_bounded-completed :
      (ss : List Signal)
      → (resolution (spawn_bounded max_bytes ss started).settled ≡ completed max_bytes ss [])
        × (length (concat (spawn_bounded max_bytes ss started).errors) ≤ max_bytes)
  spawn_bounded-completed ss = (
    run-completed ss [] started started-Waiting started-Counted,
    run-Counted ss [] started started-Counted,
  )

-- ===== src/Graph/Settled.antt =====
-- src/call-executor.ts: the promise of `spawnBounded` keeps its first settlement.
use superset_agent_orchestra.Base.{
  ℕ, ◌+◌, ◌≡◌, refl, true, Option, none, some, List, [], ◌∷◌, inl, inr, length, ltb, ◌==◌,
  string_eq, nat_eq, arith, Bool-cases,
}
use superset_agent_orchestra.Graph.Spawn.{
  Signal, stderr, stdout, timeout, error, exit, stdin_error, Settlement, resolved, timed_out,
  unterminated, failed, Child, first, settle, take_errors, take_output, expire, verdict, leave,
  hear, spawn_bounded,
}

abbrev pub resolution : Option Settlement → Option (List ℕ)
resolution (some (resolved out)) = some out
resolution _ = none

first-unresolved :
    (s : Option Settlement) (x : Settlement)
    → resolution s ≡ none
    → resolution (some x) ≡ none
    → resolution (first s x) ≡ none
first-unresolved none x e f = f
first-unresolved (some old) x e f = e

module _ (max_bytes : ℕ) where
  settled_stays :
      (s : Signal) (c : Child) (x : Settlement)
      → c.settled ≡ some x
      → (hear max_bytes s c).settled ≡ some x
  unfolding hear settle expire leave take_errors take_output
  settled_stays (stdout chunk) c x e =
      elim (Bool-cases (ltb max_bytes (c.output_bytes + length chunk))) [
        | inl y ↦ rw (y, take_output) e
        | inr n ↦ rw (n, take_output) e
      ]
  settled_stays (stderr chunk) c x e = e
  settled_stays (timeout killed) c x e = ground (arith, e)
  settled_stays (error message) c x e = ground (arith, e)
  settled_stays (exit code signal) c x e = ground (arith, e)
  settled_stays (stdin_error code) c x e = ground (arith, e)

  pub run-settled :
      (ss : List Signal) (c : Child) (x : Settlement)
      → c.settled ≡ some x
      → (spawn_bounded max_bytes ss c).settled ≡ some x
  unfolding spawn_bounded
  run-settled [] c x e = e
  run-settled (s ∷ ss) c x e = run-settled ss (hear max_bytes s c) x (settled_stays s c x e)

  -- A child that was timed out, and a promise that did not resolve, never resolve any more.
  pub record Lost (c : Child) : Type 0 where
    pub late : c.timed_out ≡ true
    pub unresolved : resolution c.settled ≡ none

  hear-Lost : (s : Signal) (c : Child) → Lost c → Lost (hear max_bytes s c)
  unfolding hear settle expire leave take_errors take_output verdict
  hear-Lost (stdout chunk) c l = elim (Bool-cases (ltb max_bytes (c.output_bytes + length chunk))) [
    | inl y ↦ rw (y, take_output) (record { late = l.late; unresolved = l.unresolved })
    | inr n ↦ rw (n, take_output) (record { late = l.late; unresolved = l.unresolved })
  ]
  hear-Lost (stderr chunk) c l = record { late = l.late; unresolved = l.unresolved }
  hear-Lost (timeout killed) c l = elim (Bool-cases c.armed) [
    | inr n ↦ rw (n, expire) (record { late = l.late; unresolved = l.unresolved })
    | inl y ↦ elim (Bool-cases killed) [
      | inl d ↦ rw (y, d, expire) (record { late = refl; unresolved = l.unresolved })
      | inr d ↦
          rw (y, d, expire)
            (record {
              late = refl;
              unresolved = first-unresolved c.settled unterminated l.unresolved refl;
            })
    ]
  ]
  hear-Lost (error message) c l = record {
    late = l.late;
    unresolved = first-unresolved c.settled (failed message) l.unresolved refl;
  }
  hear-Lost (exit code signal) c l = elim (Bool-cases c.listening) [
    | inr n ↦ rw (n, leave) (record { late = l.late; unresolved = l.unresolved })
    | inl y ↦
        rw (y, leave, verdict, l.late)
          (record {
            late = refl;
            unresolved = first-unresolved c.settled timed_out l.unresolved refl;
          })
  ]
  hear-Lost (stdin_error code) c l = elim (Bool-cases (code == "EPIPE")) [
    | inl y ↦ rw y l
    | inr n ↦ rw n (record {
      late = l.late;
      unresolved = first-unresolved c.settled (failed code) l.unresolved refl;
    })
  ]

  pub run-Lost :
      (ss : List Signal) (c : Child)
      → Lost c
      → resolution (spawn_bounded max_bytes ss c).settled ≡ none
  unfolding spawn_bounded
  run-Lost [] c l = l.unresolved
  run-Lost (s ∷ ss) c l = run-Lost ss (hear max_bytes s c) (hear-Lost s c l)

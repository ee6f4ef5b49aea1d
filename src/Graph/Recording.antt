-- ===== src/Graph/Recording.antt =====
-- src/call-executor.ts: the policies of a recording and of its replay, and lemmas on outcomes.
use superset_agent_orchestra.Base.{
  ℕ, String, Bool, true, false, not, List, [], ◌∷◌, ◌≡◌, refl, arith, eq_iff, ◌==◌, if◌then◌else◌,
  string_eq, nat_eq,
}
use superset_agent_orchestra.Graph.Json.{Value}
use superset_agent_orchestra.Graph.Policy.{
  ReplayMode, recording, ExecutionPolicy, Failure, AuditEntry, same_bytes,
}
use superset_agent_orchestra.Graph.Records.{Progress, Execution, completed, refused, produced}

-- The policy of the run that is recorded, and that of its replay.
abbrev pub to_record : ExecutionPolicy → ExecutionPolicy
to_record p = record p { replay_mode = recording }

abbrev pub to_replay : ExecutionPolicy → ExecutionPolicy
to_replay p = record p { replay_mode = ReplayMode.replay }

pub same_bytes_refl : (xs : List ℕ) → same_bytes xs xs ≡ true
unfolding same_bytes
same_bytes_refl [] = refl
same_bytes_refl (x ∷ xs) = ground (arith, same_bytes_refl xs)

pub nat_eq_refl : (n : ℕ) → (n == n) ≡ true
nat_eq_refl n = ground arith

pub string_eq_refl : (s : String) → (s == s) ≡ true
string_eq_refl s = (eq_iff s s).1 refl

pub produced_injective : {a b : Value} → produced a ≡ produced b → a ≡ b
produced_injective e = cc

-- The test failed, since the other branch gives no output.
pub completed_injective : {a b : Progress} → completed a ≡ completed b → a ≡ b
completed_injective e = cc

-- A refusal is no completion.
pub passed :
    (b : Bool) (why : Failure) (audit : List AuditEntry) (rest : Execution) {r : Progress}
    → (if b then refused why audit else rest) ≡ completed r
    → (b ≡ false) × (rest ≡ completed r)
passed true why audit rest h = absurd (cc)
passed false why audit rest h = (refl, h)

pub held :
    (b : Bool) (why : Failure) (audit : List AuditEntry) (rest : Execution) {r : Progress}
    → (if b then rest else refused why audit) ≡ completed r
    → (b ≡ true) × (rest ≡ completed r)
held true why audit rest h = (refl, h)
held false why audit rest h = absurd (cc)

pub not-false : (b : Bool) → not b ≡ false → b ≡ true
not-false b h = ground arith

-- ===== src/Graph/Reproduced.antt =====
-- src/call-executor.ts: what was recorded of one run of a tool passes its checks on replay.
use superset_agent_orchestra.Base.{
  ℕ, ◌≡◌, subst, ap, ◌∙◌, inl, inr, Bool-cases, ltb, string_eq, nat_eq,
}
use superset_agent_orchestra.Graph.Json.{Value}
use superset_agent_orchestra.Graph.Schema.{CallNode}
use superset_agent_orchestra.Graph.Canonical.{IsAsymmetric, clone_json-twice}
use superset_agent_orchestra.Graph.Policy.{
  ExecutableTool, ExecutionPolicy, Failure, Runtime, clone, authenticate, authenticated,
  output_limit,
}
use superset_agent_orchestra.Graph.Execute.{live_output, replayed_output, clone_record}
use superset_agent_orchestra.Graph.Records.{
  Attempt, produced, failed_with, run_sandboxed, check_output, make_replay, then_check,
  validate_output, verify_replay,
}
use superset_agent_orchestra.Graph.Cloned.{IsSnapshot}
use superset_agent_orchestra.Graph.Revalidated.{validate_output-clone}
use superset_agent_orchestra.Graph.Recording.{
  to_record, to_replay, nat_eq_refl, produced_injective, same_bytes_refl, string_eq_refl,
}

module _ (rt : Runtime) (asymmetric : IsAsymmetric rt.before) (p : ExecutionPolicy) where
  pub clone-twice : (v : Value) → clone rt (clone rt v) ≡ clone rt v
  clone-twice v = clone_json-twice rt.before asymmetric v

  -- A record proves itself, also after it was cloned.
  verify_replay-make :
      (sequence : ℕ) (n : CallNode) (tool : ExecutableTool) (input output : Value)
      → verify_replay rt
          (to_replay p)
          (clone_record rt (make_replay rt (to_record p) sequence n tool input output))
          sequence
          n
          tool
          input
        ≡ produced (clone rt output)
  unfolding verify_replay make_replay clone_record authenticated authenticate
  verify_replay-make sequence n tool input output =
      simp (clone-twice, same_bytes_refl, nat_eq_refl, string_eq_refl)

  -- An output that passes its checks passes them again after it was cloned.
  check_output-clone :
      (n : CallNode) (tool : ExecutableTool) (v output : Value)
      → IsSnapshot rt.before tool.output
      → check_output rt (to_record p) n tool v ≡ produced output
      → check_output rt (to_replay p) n tool (clone rt output) ≡ produced (clone rt output)
  unfolding check_output
  check_output-clone n tool v output snap e = elim (Bool-cases (validate_output rt n tool v)) [
    | inr bad ↦
        let no : failed_with Failure.invalid_output v ≡ produced output =
          rw (bad, check_output) at e in
        absurd (cc)
    | inl good ↦ elim (Bool-cases (ltb (output_limit p) (rt.byte_length (clone rt v)))) [
      | inl long ↦
          let no : failed_with Failure.output_too_long v ≡ produced output =
            rw (good, long, check_output) at e in
          absurd (cc)
      | inr short ↦
          let same : v ≡ output = produced_injective (rw (good, short, check_output) at e) in
          subst (λ x. check_output rt (to_replay p) n tool (clone rt x) ≡ produced (clone rt x))
            same
            (rw (
              check_output,
              validate_output-clone rt asymmetric n tool snap v good,
              clone-twice v,
              short,
            ))
    ]
  ]

  pub live_output-produced :
      (sequence : ℕ) (n : CallNode) (tool : ExecutableTool) (input output : Value)
      → IsSnapshot rt.before tool.output
      → live_output rt (to_record p) sequence n tool input ≡ produced output
      → check_output rt (to_replay p) n tool (clone rt output) ≡ produced (clone rt output)
  unfolding live_output
  live_output-produced sequence n tool input output snap e =
      go (run_sandboxed rt (to_record p) sequence tool input) e
    where
      go :
          (a : Attempt)
          → then_check (check_output rt (to_record p) n tool) a ≡ produced output
          → check_output rt (to_replay p) n tool (clone rt output) ≡ produced (clone rt output)
      go (failed_with why seen) h = absurd (cc)
      go (produced v) h = check_output-clone n tool v output snap h

  pub replayed_output-make :
      (sequence : ℕ) (n : CallNode) (tool : ExecutableTool) (input output : Value)
      → check_output rt (to_replay p) n tool (clone rt output) ≡ produced (clone rt output)
      → replayed_output rt
          (to_replay p)
          (clone_record rt
            (make_replay rt (to_record p) sequence n tool input (clone rt (clone rt output))))
          sequence
          n
          tool
          input
        ≡ produced (clone rt output)
  unfolding replayed_output
  replayed_output-make sequence n tool input output checks =
      ap (then_check (check_output rt (to_replay p) n tool)) (
        verify_replay-make sequence n tool input (clone rt (clone rt output))
        ∙ ap produced (clone-twice (clone rt output) ∙ clone-twice output))
      ∙ checks

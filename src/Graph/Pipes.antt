-- ===== src/Graph/Pipes.antt =====
-- src/call-executor.ts: what `spawnBounded` keeps of the output and of the errors of the child.
use superset_agent_orchestra.Base.{
  ℕ, ◌+◌, ◌-◌, ◌≤◌, ◌≡◌, sym, subst, ap, ◌∙◌, Bool, false, List, [], ◌∷◌, ◌++◌, inl, inr, length,
  length-append, ltb, ◌==◌, string_eq, nat_eq, arith, Bool-cases,
}
use mathlib.Core.List.{append-nil, append_assoc}
use superset_agent_orchestra.Graph.Spawn.{
  Signal, stderr, stdout, timeout, error, exit, stdin_error, Child, concat, settle, trim,
  take_errors, take_output, expire, leave, hear,
}

abbrev pub heard : Signal → List ℕ
heard (stdout chunk) = chunk
heard _ = []

concat-append : (cs : List (List ℕ)) (c : List ℕ) → concat (cs ++ c ∷ []) ≡ concat cs ++ c
unfolding concat
concat-append [] c = append-nil c
concat-append (d ∷ cs) c =
    ap (λ r. d ++ r) (concat-append cs c) ∙ sym (append_assoc d (concat cs) c)

trim-length :
    (limit bytes : ℕ) (cs : List (List ℕ))
    → length (concat cs) ≡ bytes
    → let (left, kept) = trim limit bytes cs in (length (concat kept) ≡ left) × (left ≤ limit)
unfolding trim concat
trim-length limit bytes [] e = (e, ground (arith, e))
trim-length limit bytes (c ∷ cs) e = elim (Bool-cases (ltb limit bytes)) [
  | inr n ↦ rw (n, trim) (e, ground (arith, n))
  | inl y ↦
      rw (y, trim)
        (trim-length limit (bytes - length c) cs (omega (arith, length-append c (concat cs), e)))
]

-- What is kept of the output and of the errors, after the output so far.
pub record Counted (max_bytes : ℕ) (out : List ℕ) (output_bytes : ℕ) (exceeded : Bool)
    (output : List (List ℕ)) (error_bytes : ℕ) (errors : List (List ℕ)) : Type 0 where
  pub bytes : output_bytes ≡ length out
  pub exceeds : exceeded ≡ ltb max_bytes (length out)
  pub whole : exceeded ≡ false → concat output ≡ out
  pub errors_fit : (length (concat errors) ≡ error_bytes) × (error_bytes ≤ max_bytes)

module _ (max_bytes : ℕ) where
  abbrev pub IsCounted : List ℕ → Child → Type 0
  IsCounted out c =
      Counted max_bytes out c.output_bytes c.output_exceeded c.output c.error_bytes c.errors

  quiet : (out : List ℕ) (c : Child) → IsCounted out c → IsCounted (out ++ []) c
  quiet out c k = subst (λ o. IsCounted o c) (sym (append-nil out)) k

  pub take_output-Counted :
      (chunk out : List ℕ) (c : Child)
      → IsCounted out c
      → IsCounted (out ++ chunk) (take_output max_bytes chunk c)
  unfolding take_output
  take_output-Counted chunk out c k =
      let longer = length-append out chunk in
      elim (Bool-cases (ltb max_bytes (c.output_bytes + length chunk))) [
        | inl y ↦
            rw (y, take_output)
              (record {
                bytes = ground (arith, k.bytes, longer);
                exceeds = ground (arith, k.bytes, longer, y);
                whole = λ n. absurd (ground (arith, n));
                errors_fit = k.errors_fit;
              })
        | inr n ↦
            rw (n, take_output)
              (record {
                bytes = ground (arith, k.bytes, longer);
                exceeds = ground (arith, k.bytes, k.exceeds, longer, n);
                whole = λ h. concat-append c.output chunk ∙ ap (λ o. o ++ chunk) (k.whole h);
                errors_fit = k.errors_fit;
              })
      ]

  pub take_errors-Counted :
      (chunk out : List ℕ) (c : Child)
      → IsCounted out c
      → IsCounted out (take_errors max_bytes chunk c)
  unfolding take_errors
  take_errors-Counted chunk out c k = record {
    bytes = k.bytes;
    exceeds = k.exceeds;
    whole = k.whole;
    errors_fit = trim-length max_bytes (c.error_bytes + length chunk) (c.errors ++ chunk ∷ []) (
        ap length (concat-append c.errors chunk)
        ∙ length-append (concat c.errors) chunk
        ∙ ap (λ n. n + length chunk) k.errors_fit.0);
  }

  pub hear-Counted :
      (s : Signal) (out : List ℕ) (c : Child)
      → IsCounted out c
      → IsCounted (out ++ heard s) (hear max_bytes s c)
  unfolding hear settle expire leave
  hear-Counted (stdout chunk) out c k = take_output-Counted chunk out c k
  hear-Counted (stderr chunk) out c k =
      quiet out (take_errors max_bytes chunk c) (take_errors-Counted chunk out c k)
  hear-Counted (timeout killed) out c k = elim (Bool-cases c.armed) [
    | inr n ↦ rw (n, expire) (quiet out c k)
    | inl y ↦ elim (Bool-cases killed) [
      | inl d ↦ rw (y, d, expire) (quiet out c k)
      | inr d ↦ rw (y, d, expire) (quiet out c k)
    ]
  ]
  hear-Counted (error message) out c k = quiet out c k
  hear-Counted (exit code signal) out c k = elim (Bool-cases c.listening) [
    | inl y ↦ rw (y, leave) (quiet out c k)
    | inr n ↦ rw (n, leave) (quiet out c k)
  ]
  hear-Counted (stdin_error code) out c k = elim (Bool-cases (code == "EPIPE")) [
    | inl y ↦ rw y (quiet out c k)
    | inr n ↦ rw n (quiet out c k)
  ]

-- ===== src/Store/Links.antt =====
-- src/store.ts: the links of the chain of the security audit.
use superset_agent_orchestra.Base.{
  ℕ, ◌+◌, String, ◌≡◌, refl, sym, subst, ◌∙◌, ◌⊎◌, true, Option, none, some, List, [], ◌∷◌, length,
  inl, inr, ◌==◌, nat_eq, string_eq, arith, eq_iff, Bool-cases,
}
use superset_agent_orchestra.Store.Fields.{
  Collision, fields_eq, fields_eq_refl, fields_eq_sound, canonical_injective,
}
use superset_agent_orchestra.Store.Audit.{
  AuditBody, AuditEvent, AuditHead, AuditLog, Field, canonical, genesis_audit_hash, Walk, broken,
  reached, security_audit_event_hash, walk, head_matches, verify_security_audit_chain,
}

module _ (digest : List Field → String) where
  -- Two events with one hash: they are the same, or a collision was found.
  same_event :
      (a b : AuditBody)
      → security_audit_event_hash digest a ≡ security_audit_event_hash digest b
      → Collision digest ⊎ (a ≡ b)
  unfolding security_audit_event_hash
  same_event a b e = elim (Bool-cases (fields_eq (canonical a) (canonical b))) [
    | inl f ↦ inr (canonical_injective a b (fields_eq_sound (canonical a) (canonical b) f))
    | inr f ↦ inl (record {
      left = canonical a;
      right = canonical b;
      differ = λ p.
          let same : fields_eq (canonical a) (canonical b) ≡ true =
            subst (λ ys. fields_eq (canonical a) ys ≡ true) p (fields_eq_refl (canonical a)) in
          absurd (ground (arith, same, f));
      same = e;
    })
  ]

  -- A link of a chain that holds.
  abbrev pub Linked : String → ℕ → AuditEvent → Type 0
  Linked h n e =
      (e.body.sequence ≡ n + 1)
      × (e.body.previous_event_hash ≡ h)
      × (security_audit_event_hash digest e.body ≡ e.event_hash)

  pub walk-Linked :
      (h : String) (n : ℕ) (e : AuditEvent) (es : List AuditEvent) (g : String)
      → walk digest h n (e ∷ es) ≡ reached g
      → Linked h n e × (walk digest e.event_hash (n + 1) es ≡ reached g)
  unfolding walk
  walk-Linked h n e es g w =
      let s : e.body.sequence ≡ n + 1 = ground (arith, w) in
      let p : (e.body.previous_event_hash == h) ≡ true = ground (arith, w) in
      let q : (security_audit_event_hash digest e.body == e.event_hash) ≡ true =
        ground (arith, w) in
      (
        (
          s,
          (eq_iff e.body.previous_event_hash h).0 p,
          (eq_iff (security_audit_event_hash digest e.body) e.event_hash).0 q,
        ),
        ground (arith, w),
      )

  pub Linked-walk :
      (h : String) (n : ℕ) (e : AuditEvent) (es : List AuditEvent)
      → Linked h n e
      → walk digest h n (e ∷ es) ≡ walk digest e.event_hash (n + 1) es
  unfolding walk
  Linked-walk h n e es l = ground (
    arith,
    l.0,
    eq_iff e.body.previous_event_hash h,
    l.1,
    l.2,
    eq_iff (security_audit_event_hash digest e.body) e.event_hash,
  )

  pub chains_agree :
      (h k g : String) (n : ℕ) (es fs : List AuditEvent)
      → length es ≡ length fs
      → walk digest h n es ≡ reached g
      → walk digest k n fs ≡ reached g
      → Collision digest ⊎ ((h ≡ k) × (es ≡ fs))
  chains_agree h k g n [] [] l u v = unfold walk in inr (ground (arith, u, v), refl)
  chains_agree h k g n [] (f ∷ fs) l u v = absurd (ground (arith, l))
  chains_agree h k g n (e ∷ es) [] l u v = absurd (ground (arith, l))
  chains_agree h k g n (e ∷ es) (f ∷ fs) l u v =
      let (a, u') = walk-Linked h n e es g u in
      let (b, v') = walk-Linked k n f fs g v in
      elim (chains_agree e.event_hash f.event_hash g (n + 1) es fs (ground (arith, l)) u' v') [
        | inl c ↦ inl c
        | inr (p, q) ↦ elim (same_event e.body f.body (a.2 ∙ (p ∙ sym b.2))) [
          | inl c ↦ inl c
          | inr r ↦ inr (ground (arith, a.1, b.1, r, p, q))
        ]
      ]

  walk_cases : (w : Walk) → ((i : ℕ) × (w ≡ broken i)) ⊎ ((h : String) × (w ≡ reached h))
  walk_cases (broken i) = inl (i, refl)
  walk_cases (reached h) = inr (h, refl)

  abbrev pub IsValid : AuditLog → Type 0
  IsValid log = (verify_security_audit_chain digest log).valid ≡ true

  -- What a chain that verifies comes to: its last hash, which the head holds.
  pub valid_walk :
      (log : AuditLog)
      → IsValid log
      → (h : String) × (walk digest genesis_audit_hash 0 log.events ≡ reached h)
        × (head_matches log.head (length log.events) h ≡ true)
  unfolding verify_security_audit_chain
  valid_walk log v = elim (walk_cases (walk digest genesis_audit_hash 0 log.events)) [
    | inl (i, w) ↦ absurd (ground (arith, v, w))
    | inr (h, w) ↦ (h, w, ground (arith, v, w))
  ]

  pub heads_agree :
      (a b : Option AuditHead) (m n : ℕ) (g h : String)
      → head_matches a m g ≡ true
      → head_matches b n h ≡ true
      → a ≡ b
      → (m ≡ n) × ((m ≡ 0) ⊎ (g ≡ h))
  heads_agree none none m n g h u v e = (ground (arith, u, v), inl (ground (arith, u)))
  heads_agree none (some b) m n g h u v e = absurd (ground (arith, e))
  heads_agree (some a) none m n g h u v e = absurd (ground (arith, e))
  heads_agree (some a) (some b) m n g h u v e = (
    ground (arith, u, v, e),
    inr (ground (arith, u, v, e, eq_iff a.event_hash g, eq_iff b.event_hash h)),
  )

  pub empty_chains : (es fs : List AuditEvent) → length es ≡ length fs → length es ≡ 0 → es ≡ fs
  empty_chains [] [] l z = refl
  empty_chains [] (f ∷ fs) l z = absurd (ground (arith, l))
  empty_chains (e ∷ es) fs l z = absurd (ground (arith, z))

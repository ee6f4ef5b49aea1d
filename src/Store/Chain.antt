-- ===== src/Store/Chain.antt =====
-- src/store.ts: what the chain of the security audit guarantees.
use superset_agent_orchestra.Base.{
  ℕ, ◌+◌, String, ◌≡◌, refl, sym, ap, subst, ◌∙◌, ◌⊎◌, true, false, Option, none, some, List, [],
  ◌∷◌, ◌++◌, length, length-append, inl, inr, ◌==◌, nat_eq, string_eq, arith, eq_iff, Bool-cases,
}
use superset_agent_orchestra.Store.Fields.{Collision}
use superset_agent_orchestra.Store.Audit.{
  AuditEvent, AuditInput, AuditLog, Field, canonical, genesis_audit_hash, reached, last_sequence,
  last_hash, appended, security_audit_event_hash, walk, head_matches, verify_security_audit_chain,
  next_event, append_event_to, append_security_audit, valid_event, is_digest, present?, map?,
}
use superset_agent_orchestra.Store.Links.{
  Linked, walk-Linked, Linked-walk, chains_agree, IsValid, valid_walk, heads_agree, empty_chains,
}

module _ (digest : List Field → String) where
  -- The audit is tamper-evident: of two logs with the same head that both verify, the events are the
  -- same, event by event and field by field, or two different canonical arrays with the same digest
  -- are at hand. So no edit, deletion, insertion or reordering of the events can keep the head and
  -- still verify without a collision of the hash.
  pub verify-tamper :
      (log other : AuditLog)
      → IsValid digest log
      → IsValid digest other
      → log.head ≡ other.head
      → Collision digest ⊎ (log.events ≡ other.events)
  verify-tamper log other u v e =
      let (g, w, m) = valid_walk digest log u in
      let (h, x, n) = valid_walk digest other v in
      let (l, c) =
        heads_agree digest log.head other.head (length log.events) (length other.events) g h m n
          e in
      elim c [
        | inl z ↦ inr (empty_chains digest log.events other.events l z)
        | inr s ↦
            elim (chains_agree digest genesis_audit_hash genesis_audit_hash h 0 log.events
              other.events l (w ∙ ap reached s) x) [ inl k ↦ inl k | inr (p, q) ↦ inr q ]
      ]

  last_walk :
      (h g : String) (n : ℕ) (es : List AuditEvent)
      → walk digest h n es ≡ reached g
      → (last_hash h es ≡ g) × (last_sequence n es ≡ n + length es)
  unfolding last_hash last_sequence
  last_walk h g n [] w = unfold walk in (ground (arith, w), ground arith)
  last_walk h g n (e ∷ es) w =
      let (l, w') = walk-Linked digest h n e es g w in
      let (p, q) = last_walk e.event_hash g (n + 1) es w' in (p, rw (l.0) (ground (arith, q)))

  walk-append :
      (h g : String) (n : ℕ) (es : List AuditEvent) (e : AuditEvent)
      → walk digest h n es ≡ reached g
      → Linked digest g (n + length es) e
      → walk digest h n (es ++ e ∷ []) ≡ reached e.event_hash
  walk-append h g n [] e w l =
      let p : h ≡ g = unfold walk in ground (arith, w) in
      let done : walk digest e.event_hash (n + 1) [] ≡ reached e.event_hash = unfold walk in refl in
      Linked-walk digest h n e [] (ground (arith, l.0), l.1 ∙ sym p, l.2) ∙ done
  walk-append h g n (f ∷ es) e w l =
      let (k, w') = walk-Linked digest h n f es g w in
      Linked-walk digest h n f (es ++ e ∷ []) k
      ∙ walk-append f.event_hash g (n + 1) es e w' (ground (arith, l.0), l.1, l.2)

  walk-IsValid :
      (log : AuditLog) (h : String)
      → walk digest genesis_audit_hash 0 log.events ≡ reached h
      → head_matches log.head (length log.events) h ≡ true
      → IsValid digest log
  unfolding verify_security_audit_chain
  walk-IsValid log h w m = ground (arith, w, m)

  module _ (normalize : String → String) (id : String) (now : ℕ) (input : AuditInput)
      (log : AuditLog) where
    abbrev next : AuditEvent
    next = next_event digest normalize id now input log.events

    next-Linked :
        (h : String)
        → walk digest genesis_audit_hash 0 log.events ≡ reached h
        → Linked digest h (0 + length log.events) next
    unfolding next_event
    next-Linked h w =
        let (p, q) = last_walk genesis_audit_hash h 0 log.events w in (ground (arith, q), p, refl)

    next-Valid : IsValid digest log → IsValid digest (append_event_to digest next log)
    unfolding append_event_to
    next-Valid v =
        let (h, w, m) = valid_walk digest log v in
        let l = next-Linked h w in
        walk-IsValid (append_event_to digest next log) next.event_hash
          (walk-append genesis_audit_hash h 0 log.events next w l)
          (ground (
            arith,
            l.0,
            length-append log.events (next ∷ []),
            eq_iff next.event_hash next.event_hash,
          ))

    append_next :
        IsValid digest log
        → valid_event next ≡ true
        → append_security_audit digest normalize id now input log
          ≡ (appended next, append_event_to digest next log)
    unfolding append_security_audit
    append_next v f = ground (arith, v, f)

    -- An event that was appended leaves a log that verifies, with that event as its last; and only a
    -- log that verifies is appended to.
    pub append-Valid :
        (e : AuditEvent)
        → let (reply, after) = append_security_audit digest normalize id now input log in
          reply ≡ appended e
          → IsValid digest log × IsValid digest after × (after.events ≡ log.events ++ e ∷ [])
    append-Valid e r = elim (Bool-cases (verify_security_audit_chain digest log).valid) [
      | inr v ↦ absurd (unfold append_security_audit in ground (arith, r, v))
      | inl v ↦ elim (Bool-cases (valid_event next)) [
        | inr f ↦ absurd (unfold append_security_audit in ground (arith, r, v, f))
        | inl f ↦
            let same : next ≡ e = ground (arith, r, append_next v f) in
            rw (append_next v f)
              (v, next-Valid v, unfold append_event_to in ap (λ x. log.events ++ x ∷ []) same)
      ]
    ]

module _ (digest : List Field → String) where
  last_digest :
      (h g : String) (n : ℕ) (es : List AuditEvent)
      → ((fs : List Field) → is_digest (digest fs) ≡ true)
      → is_digest h ≡ true
      → walk digest h n es ≡ reached g
      → is_digest (last_hash h es) ≡ true
  unfolding last_hash
  last_digest h g n [] d i w = i
  last_digest h g n (e ∷ es) d i w =
      let (l, w') = walk-Linked digest h n e es g w in
      let s : is_digest e.event_hash ≡ true =
        subst (λ x. is_digest x ≡ true) l.2
          (unfold security_audit_event_hash in d (canonical e.body)) in
      last_digest e.event_hash g (n + 1) es d s w'

  present_map :
      (normalize : String → String)
      → ((s : String) → (normalize s == "") ≡ false)
      → (o : Option String) → present? (map? normalize o) ≡ true
  present_map normalize z none = refl
  present_map normalize z (some s) = ground (arith, z s)

  next_accepted :
      (normalize : String → String) (id : String) (now : ℕ) (input : AuditInput) (log : AuditLog)
      → ((fs : List Field) → is_digest (digest fs) ≡ true)
      → ((s : String) → (normalize s == "") ≡ false)
      → (id == "") ≡ false
      → is_digest (last_hash genesis_audit_hash log.events) ≡ true
      → valid_event (next_event digest normalize id now input log.events) ≡ true
  unfolding valid_event next_event security_audit_event_hash
  next_accepted normalize id now input log d z i p =
      let body = (next_event digest normalize id now input log.events).body in
      ground (
        arith,
        p,
        i,
        z input.requester_id,
        z input.operation,
        z input.reason_code,
        z input.correlation_id,
        present_map normalize z input.workspace_id,
        present_map normalize z input.project_id,
        present_map normalize z input.assignment_id,
        d (canonical body),
      )

  -- An audit of a log that verifies is never refused: where digests are 64 hexadecimal digits and a
  -- normalized text is not empty, the event that describes the input is appended.
  pub append-succeeds :
      (normalize : String → String) (id : String) (now : ℕ) (input : AuditInput) (log : AuditLog)
      → ((fs : List Field) → is_digest (digest fs) ≡ true)
      → ((s : String) → (normalize s == "") ≡ false)
      → (id == "") ≡ false
      → (verify_security_audit_chain digest log).valid ≡ true
      → append_security_audit digest normalize id now input log ≡ (
        appended (next_event digest normalize id now input log.events),
        append_event_to digest (next_event digest normalize id now input log.events) log,
      )
  append-succeeds normalize id now input log d z i v =
      let (h, w, m) = valid_walk digest log v in
      let g : is_digest genesis_audit_hash ≡ true = unfold is_digest in refl in
      append_next digest normalize id now input log v (
        next_accepted normalize id now input log d z i
          (last_digest genesis_audit_hash h 0 log.events d g w))

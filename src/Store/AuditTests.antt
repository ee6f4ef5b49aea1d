-- ===== src/Store/AuditTests.antt =====
-- src/store.ts: the security audit on a small log.
use superset_agent_orchestra.Base.{
  String, ◌≡◌, refl, ◌⊎◌, Bool, true, false, none, some, List, [], ◌∷◌, if◌then◌else◌, ◌==◌,
  string_eq, nat_eq, inl, inr, Bool-cases,
}
use superset_agent_orchestra.Store.Audit.{
  AuditEvent, AuditInput, AuditLog, Field, number, appended, denied, append_security_audit,
  verify_security_audit_chain, next_event, append_event_to, is_digest, valid_event,
}
use superset_agent_orchestra.Store.Fields.{Collision}
use superset_agent_orchestra.Store.Chain.{verify-tamper, append-Valid, append-succeeds}

abbrev first_hash : String
first_hash = "1000000000000000000000000000000000000000000000000000000000000000"

abbrev other_hash : String
other_hash = "2000000000000000000000000000000000000000000000000000000000000000"

abbrev is_first : List Field → Bool
is_first (f ∷ number n ∷ fs) = n == 1
is_first _ = false

-- A digest that looks at the sequence number only.
abbrev digest : List Field → String
digest fs = if is_first fs then first_hash else other_hash

abbrev normalize : String → String
normalize s = if s == "" then "[NORMALIZED:empty]" else s

abbrev input : AuditInput
input = record {
  requester_id = "client";
  operation = "launch";
  decision = denied;
  reason_code = "POLICY_DENIED";
  correlation_id = "c1";
  workspace_id = none;
  project_id = some "p1";
  assignment_id = none;
}

abbrev empty : AuditLog
empty = record { events = []; head = none }

abbrev first : AuditEvent
first = next_event digest normalize "e1" 10 input []

abbrev log : AuditLog
log = append_event_to digest first empty

digest-is_digest : (fs : List Field) → is_digest (digest fs) ≡ true
unfolding is_digest
digest-is_digest fs = elim (Bool-cases (is_first fs)) [ inl e ↦ rw e refl | inr e ↦ rw e refl ]

normalize_present : (s : String) → (normalize s == "") ≡ false
normalize_present s = elim (Bool-cases (s == "")) [ inl e ↦ rw e refl | inr e ↦ rw e e ]

verify-tamper_example : Collision digest ⊎ (log.events ≡ log.events)
verify-tamper_example =
    verify-tamper digest log log
      (unfold verify_security_audit_chain append_event_to next_event in refl)
      (unfold verify_security_audit_chain append_event_to next_event in refl) refl

append-Valid_example :
    ((verify_security_audit_chain digest empty).valid ≡ true)
    × ((verify_security_audit_chain digest
          (append_security_audit digest normalize "e1" 10 input empty).1).valid
        ≡ true)
    × ((append_security_audit digest normalize "e1" 10 input empty).1.events ≡ first ∷ [])
append-Valid_example = append-Valid digest normalize "e1" 10 input empty first (
    unfold append_security_audit verify_security_audit_chain valid_event next_event is_digest in
    refl)

append-succeeds_example : append_security_audit digest normalize "e2" 20 input log ≡ (
  appended (next_event digest normalize "e2" 20 input log.events),
  append_event_to digest (next_event digest normalize "e2" 20 input log.events) log,
)
append-succeeds_example =
    append-succeeds digest normalize "e2" 20 input log digest-is_digest normalize_present refl
      (unfold verify_security_audit_chain append_event_to next_event in refl)

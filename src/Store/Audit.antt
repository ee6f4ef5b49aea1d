-- ===== src/Store/Audit.antt =====
-- src/store.ts: the security audit, a chain of events in which each holds the hash of the one before.
-- The hash of the canonical fields, SHA-256 over JSON.stringify, is the parameter `digest`, and the
-- normalization of a text, auditField of src/security.ts with the configured canaries, is the
-- parameter `normalize`. The fields of an event other than its hash are its `body`.
use Prim.Native.Char.{code}
use superset_agent_orchestra.Base.{
  ℕ, ◌+◌, String, Bool, true, false, ◌&&◌, ◌||◌, not, Option, none, some, List, [], ◌∷◌, ◌++◌,
  length, ltb, leb, ◌==◌, if◌then◌else◌, nat_eq, string_eq,
}
use superset_agent_orchestra.Store.State.{get_or}

pub data AuditDecision : Type 0 where
  allowed denied failed : AuditDecision

pub record AuditBody : Type 0 where
  pub id : String
  pub sequence : ℕ
  pub occurred_at : ℕ
  pub requester_id : String
  pub operation : String
  pub decision : AuditDecision
  pub reason_code : String
  pub correlation_id : String
  pub policy_version : String
  pub workspace_id : Option String
  pub project_id : Option String
  pub assignment_id : Option String
  pub previous_event_hash : String

pub record AuditEvent : Type 0 where
  pub body : AuditBody
  pub event_hash : String

-- `SecurityAuditInput`
pub record AuditInput : Type 0 where
  pub requester_id : String
  pub operation : String
  pub decision : AuditDecision
  pub reason_code : String
  pub correlation_id : String
  pub workspace_id : Option String
  pub project_id : Option String
  pub assignment_id : Option String

pub record AuditHead : Type 0 where
  pub sequence : ℕ
  pub event_hash : String

pub record AuditLog : Type 0 where
  pub events : List AuditEvent
  pub head : Option AuditHead

-- A value of the canonical array: an instant stands for its ISO text.
pub data Field : Type 0 where
  text : String → Field
  number : ℕ → Field
  instant : ℕ → Field
  null : Field

abbrev pub field? : Option String → Field
field? none = null
field? (some s) = text s

abbrev pub decision_text : AuditDecision → String
decision_text allowed = "allowed"
decision_text denied = "denied"
decision_text failed = "failed"

-- The fields in the order of SECURITY_AUDIT_HASH_FIELDS.
unfoldable pub canonical : AuditBody → List Field
canonical b =
    text b.id
    ∷ number b.sequence
    ∷ instant b.occurred_at
    ∷ text b.requester_id
    ∷ text b.operation
    ∷ text (decision_text b.decision)
    ∷ text b.reason_code
    ∷ text b.correlation_id
    ∷ text b.policy_version
    ∷ field? b.workspace_id
    ∷ field? b.project_id
    ∷ field? b.assignment_id
    ∷ text b.previous_event_hash
    ∷ []

abbrev pub genesis_audit_hash : String
genesis_audit_hash = "0000000000000000000000000000000000000000000000000000000000000000"

abbrev pub security_policy_version : String
security_policy_version = "2026-07-24"

-- What the loop over the chain comes to: the place where it is broken, or the last hash.
pub data Walk : Type 0 where
  broken : ℕ → Walk
  reached : String → Walk

pub record Verification : Type 0 where
  pub valid : Bool
  pub length : ℕ
  pub broken_at : Option ℕ

abbrev is_hex : ℕ → Bool
is_hex c = (leb 48 c && leb c 57) || (leb 97 c && leb c 102)

-- `/^[a-f0-9]{64}$/` from a number of characters on.
unfoldable pub is_digest_from : ℕ → String → Bool
is_digest_from n String.[] = n == 64
is_digest_from n (String.◌∷◌ c s) = is_hex (code c) && is_digest_from (n + 1) s

unfoldable pub is_digest : String → Bool
unfolding is_digest_from
is_digest s = is_digest_from 0 s

abbrev pub present : String → Bool
present s = not (s == "")

abbrev pub present? : Option String → Bool
present? none = true
present? (some s) = present s

-- `securityAuditEventSchema`
unfoldable pub valid_event : AuditEvent → Bool
unfolding is_digest
valid_event e =
    let b = e.body in
    present b.id
    && (ltb 0 b.sequence
        && (present b.requester_id
            && (present b.operation
                && (present b.reason_code
                    && (present b.correlation_id
                        && (present b.policy_version
                            && (present? b.workspace_id
                                && (present? b.project_id
                                    && (present? b.assignment_id
                                        && (is_digest b.previous_event_hash
                                            && is_digest e.event_hash))))))))))

-- `audit.at(-1)`: its sequence number and its hash, or what stands in where there is none.
unfoldable pub last_sequence : ℕ → List AuditEvent → ℕ
last_sequence n [] = n
last_sequence n (e ∷ es) = last_sequence e.body.sequence es

unfoldable pub last_hash : String → List AuditEvent → String
last_hash h [] = h
last_hash h (e ∷ es) = last_hash e.event_hash es

pub data AuditReply : Type 0 where
  appended : AuditEvent → AuditReply
  integrity_failure : ℕ → AuditReply
  invalid_event : AuditReply

abbrev pub map? : (String → String) → Option String → Option String
map? f none = none
map? f (some s) = some (f s)

abbrev pub head_matches : Option AuditHead → ℕ → String → Bool
head_matches none n h = n == 0
head_matches (some head) n h = head.sequence == n && head.event_hash == h

module _ (digest : List Field → String) where
  unfoldable pub security_audit_event_hash : AuditBody → String
  unfolding canonical
  security_audit_event_hash b = digest (canonical b)

  -- The loop of `verifySecurityAuditChain`, after `index` events.
  unfoldable pub walk : String → ℕ → List AuditEvent → Walk
  unfolding security_audit_event_hash
  walk previous index [] = reached previous
  walk previous index (e ∷ es) =
      let rest = walk e.event_hash (index + 1) es in
      if not (e.body.sequence == index + 1)
        || (not (e.body.previous_event_hash == previous)
            || not (security_audit_event_hash e.body == e.event_hash))
      then broken (index + 1)
      else rest

  unfoldable pub verify_security_audit_chain : AuditLog → Verification
  unfolding walk
  verify_security_audit_chain log =
      let n = length log.events in
      elim (walk genesis_audit_hash 0 log.events) [
        | broken i ↦ record { valid = false; length = n; broken_at = some i }
        | reached h ↦
            if head_matches log.head n h
            then record { valid = true; length = n; broken_at = none }
            else record { valid = false; length = n; broken_at = some (n + 1) }
      ]

  -- The event that is appended; `id` is the fresh UUID.
  unfoldable pub next_event :
      (String → String) → String → ℕ → AuditInput → List AuditEvent → AuditEvent
  unfolding last_sequence last_hash security_audit_event_hash
  next_event normalize id now input es =
      let body : AuditBody = record {
        id = id;
        sequence = last_sequence 0 es + 1;
        occurred_at = now;
        requester_id = normalize input.requester_id;
        operation = normalize input.operation;
        decision = input.decision;
        reason_code = normalize input.reason_code;
        correlation_id = normalize input.correlation_id;
        policy_version = security_policy_version;
        workspace_id = map? normalize input.workspace_id;
        project_id = map? normalize input.project_id;
        assignment_id = map? normalize input.assignment_id;
        previous_event_hash = last_hash genesis_audit_hash es;
      } in
      record { body = body; event_hash = security_audit_event_hash body }

  unfoldable pub append_event_to : AuditEvent → AuditLog → AuditLog
  append_event_to e log = record {
    events = log.events ++ e ∷ [];
    head = some (record { sequence = e.body.sequence; event_hash = e.event_hash });
  }

  -- `appendSecurityAuditToState`
  unfoldable pub append_security_audit :
      (String → String) → String → ℕ → AuditInput → AuditLog → AuditReply × AuditLog
  unfolding verify_security_audit_chain next_event append_event_to valid_event
  append_security_audit normalize id now input log =
      let verification = verify_security_audit_chain log in
      let e = next_event normalize id now input log.events in
      if not verification.valid
      then (integrity_failure (get_or verification.broken_at 0), log)
      else if valid_event e
      then (appended e, append_event_to e log)
      else (invalid_event, log)

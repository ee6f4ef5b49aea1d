-- ===== src/Graph/Policy.antt =====
-- src/call-executor.ts: the policy of an execution, what is recorded of it, and `assertPolicy`. SHA-256,
-- HMAC, the length of a canonical text and the sandboxed process are parameters.
use superset_agent_orchestra.Base.{
  ℕ, ◌+◌, ◌*◌, ◌-◌, String, Bool, true, false, ◌&&◌, ◌||◌, not, Option, none, some, List, [], ◌∷◌,
  ltb, leb, ◌==◌, if◌then◌else◌, string_eq, nat_eq,
}
use superset_agent_orchestra.Graph.Json.{Number, Value, is_integer}
use superset_agent_orchestra.Graph.Schema.{Schema, Tools}
use superset_agent_orchestra.Graph.Checker.{Platform}
use superset_agent_orchestra.Graph.Canonical.{Before, clone_json}
use superset_agent_orchestra.Graph.Formats.{codes}

pub record ExecutableTool : Type 0 where
  pub input : Schema
  pub output : Schema
  pub capability : String
  pub source : String

abbrev pub ExecutableTools : Type 0
ExecutableTools = List (String × ExecutableTool)

unfoldable pub executable_named : String → ExecutableTools → Option ExecutableTool
executable_named name [] = none
executable_named name ((n, t) ∷ rest) = if n == name then some t else executable_named name rest

-- The schemas that the graph is validated against.
unfoldable pub schemas : ExecutableTools → Tools
schemas [] = []
schemas ((n, t) ∷ rest) = (n, record { input = t.input; output = some t.output }) ∷ schemas rest

pub data ReplayMode : Type 0 where
  disabled recording replay : ReplayMode

pub record ExecutionPolicy : Type 0 where
  pub allowed_capabilities : List String
  pub timeout_ms : Number
  pub max_input_bytes : Option Number
  pub max_output_bytes : Number
  pub max_memory_mb : Option Number
  pub max_nodes : Option Number
  pub replay_mode : ReplayMode
  pub replay_key : Option String

pub data AuditDecision : Type 0 where
  validation_denied capability_denied attempted executed failed replayed : AuditDecision

-- The errors that are thrown, in place of their texts.
pub data Failure : Type 0 where
  bad_policy too_many_nodes invalid_graph unexpected_replay replay_count no_order missing_output
        unsupported_platform source_too_long input_too_long invalid_output output_too_long
        replay_mismatch :
      Failure
  denied : String → Failure
  process_failed : String → Failure

pub record AuditEntry : Type 0 where
  pub sequence : ℕ
  pub node_id : Option String
  pub tool : Option String
  pub capability : Option String
  pub decision : AuditDecision
  pub input : Value
  pub output : Value
  pub error : Option Failure

pub record ReplayCore : Type 0 where
  pub sequence : ℕ
  pub node_id : String
  pub tool : String
  pub input_hash : String
  pub output : Value
  pub tool_hash : String

pub record ReplayRecord : Type 0 where
  pub core : ReplayCore
  pub record_hash : String

pub data Spawned : Type 0 where
  printed : Value → Spawned
  crashed : String → Spawned

-- What the program finds around it. What the sandboxed process of a node gives may depend on the
-- place of the node in the order, so a tool may answer one input differently each time. A digest is of the canonical text of its argument, so it is
-- applied to clones only.
pub record Runtime : Type 0 where
  pub platform : Platform
  pub before : Before
  pub digest : Value → String
  pub tool_digest : ExecutableTool → String
  pub hmac : String → ReplayCore → String
  pub byte_length : Value → ℕ
  pub is_darwin : Bool
  pub spawn : ℕ → ExecutableTool → Value → Spawned

abbrev pub clone : Runtime → Value → Value
clone rt v = clone_json rt.before v

unfoldable pub hash_json : Runtime → Value → String
hash_json rt v = rt.digest (clone rt v)

unfoldable pub authenticate : Runtime → String → ReplayCore → String
authenticate rt key core = rt.hmac key (record core { output = clone rt core.output })

abbrev hex_value : ℕ → Option ℕ
hex_value c =
    if leb b'0' c && leb c b'9'
    then some (c - b'0')
    else if leb b'a' c && leb c b'f'
    then some (c - b'a' + 10)
    else if leb b'A' c && leb c b'F'
    then some (c - b'A' + 10)
    else none

abbrev both_digits : Option ℕ → Option ℕ → List ℕ → List ℕ
both_digits (some high) (some low) rest = (high * 16 + low) ∷ rest
both_digits _ _ rest = []

-- `Buffer.from(text, "hex")`: it stops at the first pair that is not two digits.
unfoldable pub hex_bytes : List ℕ → List ℕ
hex_bytes (a ∷ b ∷ rest) = both_digits (hex_value a) (hex_value b) (hex_bytes rest)
hex_bytes _ = []

unfoldable pub same_bytes : List ℕ → List ℕ → Bool
same_bytes [] [] = true
same_bytes (a ∷ xs) (b ∷ ys) = a == b && same_bytes xs ys
same_bytes _ _ = false

-- `authenticated`: the signatures are compared as bytes.
unfoldable pub authenticated : Runtime → ReplayCore → String → String → Bool
authenticated rt core signature key =
    same_bytes (hex_bytes (codes signature)) (hex_bytes (codes (authenticate rt key core)))

abbrev default_number : ℕ → Option Number → Number
default_number d none = record { negative = false; significand = d; halvings = 0 }
default_number d (some n) = n

-- A positive safe integer, at most the bound.
abbrev within : ℕ → Number → Bool
within bound n = is_integer n && not n.negative && ltb 0 n.significand && leb n.significand bound

abbrev max_safe_integer : ℕ
max_safe_integer = 9007199254740991

abbrev mebibyte : ℕ
mebibyte = 1048576

abbrev has_key : Option String → Bool
has_key none = false
has_key (some key) = leb 32 (code_units (codes key))
  where
    code_units : List ℕ → ℕ
    code_units [] = 0
    code_units (c ∷ cs) = (if ltb 65535 c then 2 else 1) + code_units cs

abbrev is_disabled : ReplayMode → Bool
is_disabled disabled = true
is_disabled _ = false

unfoldable pub assert_policy : ExecutionPolicy → Bool
assert_policy p =
    within 300000 p.timeout_ms
    && within (16 * mebibyte) (default_number mebibyte p.max_input_bytes)
    && within (16 * mebibyte) p.max_output_bytes
    && within 1024 (default_number 128 p.max_memory_mb)
    && leb 16 (default_number 128 p.max_memory_mb).significand
    && within 10000 (default_number 100 p.max_nodes)
    && (is_disabled p.replay_mode || has_key p.replay_key)

-- The numbers of the policy once `assert_policy` has passed.
abbrev pub node_limit : ExecutionPolicy → ℕ
node_limit p = (default_number 100 p.max_nodes).significand

abbrev pub input_limit : ExecutionPolicy → ℕ
input_limit p = (default_number mebibyte p.max_input_bytes).significand

abbrev pub output_limit : ExecutionPolicy → ℕ
output_limit p = p.max_output_bytes.significand

abbrev pub key_of : ExecutionPolicy → String
key_of p = elim p.replay_key [ none ↦ "" | some key ↦ key ]

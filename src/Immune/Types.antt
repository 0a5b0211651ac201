-- ===== src/Immune/Types.antt =====
-- kernel/immune/src/types.ts. A detection's random id and its time are left out: no decision reads
-- them. Trust levels of origins are left out for the same reason.
use chat_ai.Base.{
  ℕ, ◌+◌, ◌*◌, String, Bool, true, false, List, Option, none, some, length, leb, if◌then◌else◌,
}

-- `ImmunityLevel`.
pub data ImmunityLevel : Type 0 where
  green yellow orange red black : ImmunityLevel

-- `IMMUNITY_ORDER`.
unfoldable pub immunity_order : ImmunityLevel → ℕ
immunity_order green = 0
immunity_order yellow = 1
immunity_order orange = 2
immunity_order red = 3
immunity_order black = 4

-- `RiskSeverity`.
pub data RiskSeverity : Type 0 where
  low medium high critical : RiskSeverity

-- `RiskReasonKind`.
pub data RiskReasonKind : Type 0 where
  normal_tool_call unusual_tool_sequence permission_escalation credential_misuse : RiskReasonKind
  secret_access_anomaly ledger_tampering_attempt kernel_integrity_failure : RiskReasonKind
  artifact_tampering prompt_injection tool_poisoning memory_poisoning : RiskReasonKind
  dependency_anomaly resource_exhaustion repeated_failure unexpected_transition : RiskReasonKind
  runaway_loop usage_velocity blast_radius_exceeded : RiskReasonKind

-- `SIGNAL_WEIGHTS`.
unfoldable pub signal_weight : RiskReasonKind → ℕ
signal_weight normal_tool_call = 5
signal_weight unusual_tool_sequence = 30
signal_weight permission_escalation = 60
signal_weight credential_misuse = 80
signal_weight secret_access_anomaly = 85
signal_weight ledger_tampering_attempt = 95
signal_weight kernel_integrity_failure = 100
signal_weight artifact_tampering = 85
signal_weight prompt_injection = 80
signal_weight tool_poisoning = 75
signal_weight memory_poisoning = 70
signal_weight dependency_anomaly = 75
signal_weight resource_exhaustion = 50
signal_weight repeated_failure = 45
signal_weight unexpected_transition = 55
signal_weight runaway_loop = 90
signal_weight usage_velocity = 90
signal_weight blast_radius_exceeded = 70

-- `RiskReason`.
pub record RiskReason : Type 0 where
  pub kind : RiskReasonKind
  pub detail : String
  pub weight : ℕ

-- `RiskScore`; the confidence in hundredths.
pub record RiskScore : Type 0 where
  pub score : ℕ
  pub confidence : ℕ
  pub reasons : List RiskReason
  pub severity : RiskSeverity

-- `PrincipalType`.
pub data PrincipalType : Type 0 where
  user agent runner plugin tool model service : PrincipalType

-- `TrustState`.
pub data TrustState : Type 0 where
  unknown suspicious verified trusted quarantined revoked : TrustState

-- `Principal`.
pub record Principal : Type 0 where
  pub id : String
  pub kind : PrincipalType
  pub trust : TrustState
  pub credentials : List String

-- `InputSource`.
pub data InputSource : Type 0 where
  system user tool repository web memory model : InputSource

-- `UNTRUSTED_SOURCES.includes(source)`.
unfoldable pub is_untrusted : InputSource → Bool
is_untrusted InputSource.system = false
is_untrusted InputSource.user = false
is_untrusted _ = true

-- `BlastRadius`.
pub record BlastRadius : Type 0 where
  pub repositories : List String
  pub paths : List String
  pub tools : List String
  pub networks : List String
  pub secrets : List String
  pub environments : List String

-- `Math.min`.
abbrev pub min : ℕ → ℕ → ℕ
min a b = if leb a b then a else b

-- `blastRadiusScore`.
unfoldable pub blast_radius_score : Option BlastRadius → ℕ
blast_radius_score none = 0
blast_radius_score (some r) = min 100 (
    length r.repositories * 10
    + length r.paths * 10
    + length r.tools * 10
    + length r.networks * 10
    + length r.secrets * 10
    + length r.environments * 10)

-- `ImmuneAction`.
pub data ImmuneAction : Type 0 where
  allow monitor restrict quarantine kill block approval_required : ImmuneAction

-- `ImmuneDecision`.
pub record ImmuneDecision : Type 0 where
  pub allowed : Bool
  pub action : ImmuneAction
  pub level : ImmunityLevel
  pub risk : RiskScore
  pub reasons : List String
  pub approval_required : Bool
  pub evidence_required : Bool

-- `DependencyDrift`.
pub data DependencyDrift : Type 0 where
  new_transitive version_drift install_script known_vulnerability license_change : DependencyDrift
  maintainer_change network_dependency : DependencyDrift

pub record Content : Type 0 where
  pub source : InputSource
  pub text : String
  pub by : String

pub record Hashes : Type 0 where
  pub subject : String
  pub expected : String
  pub actual : String

pub record Dependency : Type 0 where
  pub name : String
  pub drift : Option DependencyDrift
  pub known_vulnerability : Bool
  pub has_install_script : Bool

pub record Usage : Type 0 where
  pub tool_calls : ℕ
  pub model_calls : ℕ
  pub window_ms : ℕ

pub record RunStats : Type 0 where
  pub depth : ℕ
  pub children : ℕ
  pub retries : ℕ

-- `Observation`. `by` of a content is the tool's id or the actor that writes to memory.
pub record Observation : Type 0 where
  pub principal : Option Principal
  pub capability : Option String
  pub input : Option Content
  pub tool_result : Option Content
  pub memory_write : Option Content
  pub artifact : Option Hashes
  pub dependency : Option Dependency
  pub usage : Option Usage
  pub run_stats : Option RunStats
  pub integrity : Option Hashes
  pub repeated_failures : Option ℕ
  pub tool_sequence : Option (List String)
  pub unexpected_transition : Option (String × String)

-- `Detection`.
pub record Detection : Type 0 where
  pub kind : RiskReasonKind
  pub detail : String
  pub weight : ℕ
  pub actor_id : Option String

-- `CascadeConfig`.
pub record CascadeConfig : Type 0 where
  pub max_agent_depth : ℕ
  pub max_children : ℕ
  pub max_retry : ℕ
  pub blast_radius_approval_threshold : ℕ
  pub max_tool_calls_per_second : ℕ
  pub max_model_calls_per_second : ℕ

-- `DEFAULT_CASCADE`.
unfoldable pub default_cascade : CascadeConfig
default_cascade = record {
  max_agent_depth = 5;
  max_children = 10;
  max_retry = 3;
  blast_radius_approval_threshold = 1200;
  max_tool_calls_per_second = 10;
  max_model_calls_per_second = 2;
}

-- `ImmuneRequest`.
pub record ImmuneRequest : Type 0 where
  pub principal : Principal
  pub capability : String
  pub blast_radius : Option BlastRadius
  pub observation : Option Observation

-- ===== src/Orchestrator/Types.antt =====
-- runtime/orchestrator/src/types.ts: the workflow contract, as far as the executor reads it.
use chat_ai.Base.{ℕ, String, Bool, false, List, [], Option}
use chat_ai.Orchestrator.Json.{Json}

pub data NodeStatus : Type 0 where
  planned ready running waiting verifying completed failed retrying compensating rolled_back
        quarantined cancelled skipped :
      NodeStatus

pub data WorkflowRunStatus : Type 0 where
  completed failed cancelled quarantined : WorkflowRunStatus

pub data WorkflowNodeKind : Type 0 where
  action conditional approval : WorkflowNodeKind

pub data Backoff : Type 0 where
  fixed exponential : Backoff

pub record RetryPolicy : Type 0 where
  pub max_attempts : ℕ
  pub backoff : Backoff
  pub retryable_errors : List String
  pub jitter : Bool

pub data CompensationSpec : Type 0 where
  undo : String → Option Json → CompensationSpec
  irreversible : CompensationSpec

pub data NodeResultStatus : Type 0 where
  success failure : NodeResultStatus

-- `when` of a condition: a verdict, or a path and the value expected there.
pub data ConditionWhen : Type 0 where
  on_verdict : String → NodeResultStatus → ConditionWhen
  at_path : String → String → Json → ConditionWhen

pub record ConditionSpec : Type 0 where
  pub when : ConditionWhen
  pub on_then : List String
  pub on_else : Option (List String)

pub record ApprovalSpec : Type 0 where
  pub action : String
  pub reason : String

pub record WorkflowNode : Type 0 where
  pub id : String
  pub kind : WorkflowNodeKind
  pub action : Option String
  pub input : Option Json
  pub deps : List String
  pub agent_id : Option String
  pub tenant_id : Option String
  pub tool_id : Option String
  pub retry : Option RetryPolicy
  pub timeout_ms : Option ℕ
  pub compensation : Option CompensationSpec
  pub condition : Option ConditionSpec
  pub approval : Option ApprovalSpec

-- `EvidenceRef` of kernel/contracts/src/events.ts.
pub record EvidenceRef : Type 0 where
  pub evidence_id : String
  pub kind : String

pub record NodeResult : Type 0 where
  pub status : NodeResultStatus
  pub output : Json
  pub evidence : List EvidenceRef

pub record NodeSnapshot : Type 0 where
  pub node_id : String
  pub status : NodeStatus
  pub attempt : ℕ
  pub result : Option NodeResult
  pub error : Option String
  pub skipped_reason : Option String

pub record WorkflowJob : Type 0 where
  pub id : String
  pub node_id : String
  pub run_id : String
  pub operation_id : String
  pub idempotency_key : String
  pub attempt : ℕ

pub record BulkheadLimits : Type 0 where
  pub max_concurrent_jobs : ℕ
  pub max_concurrent_per_agent : ℕ
  pub max_concurrent_per_tenant : ℕ
  pub max_concurrent_per_tool : ℕ

abbrev pub default_bulkhead : BulkheadLimits
default_bulkhead = record {
  max_concurrent_jobs = 8;
  max_concurrent_per_agent = 4;
  max_concurrent_per_tenant = 4;
  max_concurrent_per_tool = 4;
}

abbrev pub default_retry : RetryPolicy
default_retry = record {
  max_attempts = 1;
  backoff = Backoff.fixed;
  retryable_errors = [];
  jitter = false;
}

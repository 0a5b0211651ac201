-- ===== src/Storage/Projections.antt =====
-- storage/store/src/projections.ts, with kernel/events/src/projection.ts: views that are folded out
-- of the events.
use chat_ai.Base.{ℕ, ◌+◌, List, [], ◌∷◌, if◌then◌else◌, str_eq}
use chat_ai.Ledger.{LedgerEvent}

-- `fold`, and `Projection.fold`: `events.reduce(reducer, initial)`.
unfoldable pub fold : {S E : Type 0} → List E → (S → E → S) → S → S
fold [] reducer s = s
fold (e ∷ es) reducer s = fold es reducer (reducer s e)

-- `RunProjection`.
pub record RunProjection : Type 0 where
  pub runs : ℕ
  pub completed : ℕ
  pub failed : ℕ
  pub blocked : ℕ

-- `ApprovalProjection`.
pub record ApprovalProjection : Type 0 where
  pub required : ℕ
  pub granted : ℕ
  pub denied : ℕ

-- `UsageProjection`.
pub record UsageProjection : Type 0 where
  pub runs : ℕ
  pub model_calls : ℕ
  pub tool_calls : ℕ

-- `initialRunProjection`.
unfoldable pub initial_run : RunProjection
initial_run = record { runs = 0; completed = 0; failed = 0; blocked = 0 }

-- `initialApprovalProjection`.
unfoldable pub initial_approval : ApprovalProjection
initial_approval = record { required = 0; granted = 0; denied = 0 }

-- `initialUsageProjection`.
unfoldable pub initial_usage : UsageProjection
initial_usage = record { runs = 0; model_calls = 0; tool_calls = 0 }

-- `runProjectionReducer`.
unfoldable pub run_reducer : RunProjection → LedgerEvent → RunProjection
run_reducer s e =
    if str_eq e.draft.kind "RunCreated"
    then record s { runs = s.runs + 1 }
    else if str_eq e.draft.kind "TaskCompleted"
    then record s { completed = s.completed + 1 }
    else if str_eq e.draft.kind "TaskFailed"
    then record s { failed = s.failed + 1 }
    else if str_eq e.draft.kind "ImmuneBlocked"
    then record s { blocked = s.blocked + 1 }
    else s

-- `approvalProjectionReducer`.
unfoldable pub approval_reducer : ApprovalProjection → LedgerEvent → ApprovalProjection
approval_reducer s e =
    if str_eq e.draft.kind "ApprovalRequired"
    then record s { required = s.required + 1 }
    else if str_eq e.draft.kind "ApprovalGranted"
    then record s { granted = s.granted + 1 }
    else if str_eq e.draft.kind "ApprovalDenied"
    then record s { denied = s.denied + 1 }
    else s

-- `usageProjectionReducer`.
unfoldable pub usage_reducer : UsageProjection → LedgerEvent → UsageProjection
usage_reducer s e =
    if str_eq e.draft.kind "RunCreated"
    then record s { runs = s.runs + 1 }
    else if str_eq e.draft.kind "PlanGenerated"
    then record s { model_calls = s.model_calls + 1 }
    else if str_eq e.draft.kind "execution.completed"
    then record s { tool_calls = s.tool_calls + 1 }
    else s

-- `SystemProjection`.
pub record SystemProjection : Type 0 where
  pub runs : RunProjection
  pub approvals : ApprovalProjection
  pub usage : UsageProjection

-- `projectSystem`.
unfoldable pub project_system : List LedgerEvent → SystemProjection
project_system events = record {
  runs = fold events run_reducer initial_run;
  approvals = fold events approval_reducer initial_approval;
  usage = fold events usage_reducer initial_usage;
}

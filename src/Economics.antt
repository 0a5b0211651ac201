-- ===== src/Economics.antt =====
-- kernel/economics/src/index.ts, with the types of kernel/contracts/src/economics.ts. Amounts are
-- natural numbers; the time and the note of a usage event are left out, since nothing reads them.
pub mod Quota
use chat_ai.Base.{
  ℕ, ◌+◌, String, Bool, true, false, List, [], ◌∷◌, ◌++◌, Option, none, some, Result, ok, err, ◌<>◌,
  if◌then◌else◌, ltb, find, get_or, show, length,
}
use chat_ai.Base.Maps
use chat_ai.Base.Maps.{Map}

-- `UsageResource`.
pub data UsageResource : Type 0 where
  execution_seconds tool_calls model_calls network_requests tokens runs : UsageResource

-- `Usage`: the record `total`.
pub record Usage : Type 0 where
  pub execution_seconds : ℕ
  pub tool_calls : ℕ
  pub model_calls : ℕ
  pub network_requests : ℕ
  pub tokens : ℕ
  pub runs : ℕ

-- `UsageEvent`.
pub record UsageEvent : Type 0 where
  pub resource : UsageResource
  pub amount : ℕ
  pub actor_id : String
  pub run_id : String

-- `BudgetPolicy`.
pub record BudgetPolicy : Type 0 where
  pub max_execution_seconds : ℕ
  pub max_tool_calls : ℕ
  pub max_model_calls : ℕ
  pub max_network_requests : ℕ
  pub max_tokens : Option ℕ
  pub max_runs : Option ℕ

-- `PlanId`.
pub data PlanId : Type 0 where
  free byok : PlanId

-- `UsagePlan`.
pub record UsagePlan : Type 0 where
  pub id : PlanId
  pub budget : BudgetPolicy
  pub billing_required : Bool

-- `QuotaSubject`.
pub record QuotaSubject : Type 0 where
  pub tenant_id : String
  pub user_id : Option String

-- `QuotaDecision`.
pub record QuotaDecision : Type 0 where
  pub allowed : Bool
  pub reason : String

-- `EMPTY`.
abbrev pub empty_usage : Usage
empty_usage = record {
  execution_seconds = 0;
  tool_calls = 0;
  model_calls = 0;
  network_requests = 0;
  tokens = 0;
  runs = 0;
}

resource_name : UsageResource → String
resource_name UsageResource.execution_seconds = "execution_seconds"
resource_name UsageResource.tool_calls = "tool_calls"
resource_name UsageResource.model_calls = "model_calls"
resource_name UsageResource.network_requests = "network_requests"
resource_name UsageResource.tokens = "tokens"
resource_name UsageResource.runs = "runs"

-- `total[resource]`.
unfoldable pub amount_of : UsageResource → Usage → ℕ
amount_of UsageResource.execution_seconds u = u.execution_seconds
amount_of UsageResource.tool_calls u = u.tool_calls
amount_of UsageResource.model_calls u = u.model_calls
amount_of UsageResource.network_requests u = u.network_requests
amount_of UsageResource.tokens u = u.tokens
amount_of UsageResource.runs u = u.runs

-- `total[resource] += amount`.
unfoldable pub add_to : UsageResource → ℕ → Usage → Usage
add_to UsageResource.execution_seconds n u = record u {
  execution_seconds = u.execution_seconds + n;
}
add_to UsageResource.tool_calls n u = record u { tool_calls = u.tool_calls + n }
add_to UsageResource.model_calls n u = record u { model_calls = u.model_calls + n }
add_to UsageResource.network_requests n u = record u { network_requests = u.network_requests + n }
add_to UsageResource.tokens n u = record u { tokens = u.tokens + n }
add_to UsageResource.runs n u = record u { runs = u.runs + n }

-- The fields of `InMemoryUsageMeter`.
pub record UsageMeter : Type 0 where
  pub total : Usage
  pub events : List UsageEvent

unfoldable pub new_meter : UsageMeter
new_meter = record { total = empty_usage; events = [] }

-- `InMemoryUsageMeter.record`.
unfoldable pub record_usage : UsageEvent → UsageMeter → UsageMeter
record_usage e m = record {
  total = add_to e.resource e.amount m.total;
  events = m.events ++ e ∷ [];
}

-- `limitFor`.
unfoldable pub limit_for : BudgetPolicy → UsageResource → Option ℕ
limit_for b UsageResource.execution_seconds = some b.max_execution_seconds
limit_for b UsageResource.tool_calls = some b.max_tool_calls
limit_for b UsageResource.model_calls = some b.max_model_calls
limit_for b UsageResource.network_requests = some b.max_network_requests
limit_for b UsageResource.tokens = b.max_tokens
limit_for b UsageResource.runs = b.max_runs

unfoldable pub within : Option ℕ → UsageResource → ℕ → QuotaDecision
unfolding resource_name
within none resource next = record { allowed = true; reason = "unmetered resource" }
within (some limit) resource next =
    if ltb limit next
    then record {
      allowed = false;
      reason =
          resource_name resource <> " quota exceeded (" <> show next <> " > " <> show limit <> ")";
    }
    else record { allowed = true; reason = "within budget" }

-- `BudgetQuota.allows`.
unfoldable pub budget_allows : BudgetPolicy → Usage → UsageResource → ℕ → QuotaDecision
unfolding within
budget_allows b current resource amount =
    within (limit_for b resource) resource (amount_of resource current + amount)

-- `FREE_PLAN`.
unfoldable pub free_plan : UsagePlan
free_plan = record {
  id = free;
  billing_required = false;
  budget = record {
    max_execution_seconds = 300;
    max_tool_calls = 100;
    max_model_calls = 20;
    max_network_requests = 20;
    max_tokens = none;
    max_runs = some 10;
  };
}

-- `BYOK_PLAN`.
unfoldable pub byok_plan : UsagePlan
byok_plan = record {
  id = byok;
  billing_required = false;
  budget = record {
    max_execution_seconds = 3_600;
    max_tool_calls = 1_000;
    max_model_calls = 200;
    max_network_requests = 200;
    max_tokens = none;
    max_runs = some 100;
  };
}

abbrev is_plan : PlanId → PlanId → Bool
is_plan free free = true
is_plan byok byok = true
is_plan _ _ = false

plan_name : PlanId → String
plan_name free = "free"
plan_name byok = "byok"

-- `PlanCatalog.get`.
unfoldable pub get_plan : List UsagePlan → PlanId → Result String UsagePlan
unfolding plan_name
get_plan plans id = elim (find (λ p. is_plan p.id id) plans) [
  | none ↦ err ("unknown usage plan: " <> plan_name id)
  | some p ↦ ok p
]

-- `TenantQuota.usage`.
unfoldable pub tenant_usage : QuotaSubject → Map Usage → Usage
tenant_usage s m = get_or (Maps.get s.tenant_id m) empty_usage

-- `TenantQuota.allows`, for a plan of the catalog.
unfoldable pub tenant_allows :
    List UsagePlan
    → QuotaSubject
    → PlanId
    → UsageResource
    → ℕ
    → Map Usage
    → Result String QuotaDecision
unfolding tenant_usage
tenant_allows plans s id resource amount m = elim (get_plan plans id) [
  | err e ↦ err e
  | ok p ↦ ok (budget_allows p.budget (tenant_usage s m) resource amount)
]

-- `TenantQuota.record`.
unfoldable pub tenant_record : QuotaSubject → UsageEvent → Map Usage → Map Usage
unfolding tenant_usage
tenant_record s e m = Maps.set s.tenant_id (add_to e.resource e.amount (tenant_usage s m)) m

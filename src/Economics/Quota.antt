-- ===== src/Economics/Quota.antt =====
-- Usage is what was recorded, and checked spending stays within the plan's budget.
use mathlib.Core.List.{append-nil, append_assoc}
use chat_ai.Base.{
  ℕ, ◌+◌, ◌≤◌, subst, String, Bool, true, false, List, [], ◌∷◌, ◌++◌, some, ok, err, ◌≡◌, sym, ◌∙◌,
  ap, arith, if◌then◌else◌,
}
use chat_ai.Base.Maps
use chat_ai.Base.Maps.{Map, set}
use chat_ai.Economics.{
  UsageResource, Usage, UsageEvent, BudgetPolicy, PlanId, UsagePlan, QuotaSubject, UsageMeter,
  amount_of, add_to, new_meter, record_usage, limit_for, within, budget_allows, get_plan,
  tenant_usage, tenant_allows, tenant_record,
}

abbrev pub same_resource : UsageResource → UsageResource → Bool
same_resource UsageResource.execution_seconds UsageResource.execution_seconds = true
same_resource UsageResource.tool_calls UsageResource.tool_calls = true
same_resource UsageResource.model_calls UsageResource.model_calls = true
same_resource UsageResource.network_requests UsageResource.network_requests = true
same_resource UsageResource.tokens UsageResource.tokens = true
same_resource UsageResource.runs UsageResource.runs = true
same_resource _ _ = false

amount_of-add_to :
    (r s : UsageResource) (n : ℕ) (u : Usage)
    → amount_of s (add_to r n u) ≡ amount_of s u + (if same_resource r s then n else 0)
unfolding amount_of add_to
amount_of-add_to r s n u = ground arith

-- The amounts of a resource in a history.
abbrev pub spent : UsageResource → List UsageEvent → ℕ
spent r [] = 0
spent r (e ∷ es) = (if same_resource e.resource r then e.amount else 0) + spent r es

spent-append :
    (r : UsageResource) (es fs : List UsageEvent) → spent r (es ++ fs) ≡ spent r es + spent r fs
spent-append r [] fs = omega arith
spent-append r (e ∷ es) fs = omega (arith, spent-append r es fs)

-- A meter after the events.
unfoldable pub metered : List UsageEvent → UsageMeter → UsageMeter
metered [] m = m
metered (e ∷ es) m = metered es (record_usage e m)

metered-events : (es : List UsageEvent) (m : UsageMeter) → (metered es m).events ≡ m.events ++ es
unfolding metered record_usage
metered-events [] m = sym (append-nil m.events)
metered-events (e ∷ es) m = metered-events es (record_usage e m) ∙ append_assoc m.events (e ∷ []) es

abbrev Balanced : UsageMeter → Type 0
Balanced m = (r : UsageResource) → amount_of r m.total ≡ spent r m.events

metered-Balanced : (es : List UsageEvent) (m : UsageMeter) → Balanced m → Balanced (metered es m)
unfolding metered record_usage
metered-Balanced [] m h = h
metered-Balanced (e ∷ es) m h = metered-Balanced es (record_usage e m) λ r.
    omega
      (arith, h r, amount_of-add_to e.resource r e.amount m.total, spent-append r m.events (e ∷ []))

new-Balanced : Balanced new_meter
unfolding new_meter amount_of
new-Balanced r = ground arith

-- A new meter that is given events has them as its history, in their order, and its total of each
-- resource is the sum of the amounts that the events have of it.
pub metered-spent :
    (es : List UsageEvent)
    → ((metered es new_meter).events ≡ es)
      × ((r : UsageResource) → amount_of r (metered es new_meter).total ≡ spent r es)
unfolding new_meter
metered-spent es =
    let history : (metered es new_meter).events ≡ es = metered-events es new_meter in
    (history, λ r. metered-Balanced es new_meter new-Balanced r ∙ ap (spent r) history)

pub allowed-limit :
    (b : BudgetPolicy) (u : Usage) (r : UsageResource) (amount limit : ℕ)
    → (budget_allows b u r amount).allowed ≡ true
    → limit_for b r ≡ some limit
    → amount_of r u + amount ≤ limit
unfolding budget_allows within
allowed-limit b u r amount limit h bound =
    let allowed = subst (λ o. (within o r (amount_of r u + amount)).allowed ≡ true) bound h in
    ground (arith, allowed)

module _ (plans : List UsagePlan) (plan_of : String → PlanId) where
  -- A client that asks before it records, as `TenantQuota` wants of its callers.
  unfoldable pub spend : QuotaSubject → UsageEvent → Map Usage → Map Usage
  spend s e m = elim (tenant_allows plans s (plan_of s.tenant_id) e.resource e.amount m) [
    | err _ ↦ m
    | ok d ↦ if d.allowed then tenant_record s e m else m
  ]

  unfoldable pub spend_all : List (QuotaSubject × UsageEvent) → Map Usage → Map Usage
  spend_all [] m = m
  spend_all ((s, e) ∷ rest) m = spend_all rest (spend s e m)

  -- No tenant is above a limit of its plan.
  abbrev Affordable : Map Usage → Type 0
  Affordable m =
      (s : QuotaSubject) (p : UsagePlan) (r : UsageResource) (limit : ℕ)
      → get_plan plans (plan_of s.tenant_id) ≡ ok p
      → limit_for p.budget r ≡ some limit
      → amount_of r (tenant_usage s m) ≤ limit

-- ===== src/Orchestrator/Bulkhead.antt =====
-- runtime/orchestrator/src/bulkhead.ts: the concurrency limiter.
pub mod Bounds
pub mod Slots
use chat_ai.Base.{
  ℕ, ◌+◌, ◌-◌, String, Bool, true, false, List, [], Option, none, some, ◌||◌, leb, get_or, truthy,
  if◌then◌else◌, length,
}
use chat_ai.Base.Maps.{Map, get, set, add, remove}
use chat_ai.Orchestrator.Types.{BulkheadLimits}

pub record BulkheadSlot : Type 0 where
  pub id : String
  pub agent_id : Option String
  pub tenant_id : Option String
  pub tool_id : Option String

pub record ConcurrencyLimiter : Type 0 where
  pub limits : BulkheadLimits
  pub open limits use *
  pub running : List String
  pub by_agent : Map ℕ
  pub by_tenant : Map ℕ
  pub by_tool : Map ℕ

unfoldable pub new_limiter : BulkheadLimits → ConcurrencyLimiter
new_limiter limits = record {
  limits = limits;
  running = [];
  by_agent = [];
  by_tenant = [];
  by_tool = [];
}

-- `active`.
unfoldable pub active : ConcurrencyLimiter → ℕ
active l = length l.running

-- `map.get(k) ?? 0`.
abbrev pub count : Map ℕ → String → ℕ
count m k = get_or (get k m) 0

-- `id && (map.get(id) ?? 0) >= limit`, for an id that is truthy.
unfoldable pub is_full : Option String → Map ℕ → ℕ → Bool
is_full none m limit = false
is_full (some k) m limit = leb limit (count m k)

-- `if (id) map.set(id, (map.get(id) ?? 0) + 1)`.
pub bump : Option String → Map ℕ → Map ℕ
bump none m = m
bump (some k) m = set k (count m k + 1) m

-- `if (id) map.set(id, Math.max(0, (map.get(id) ?? 1) - 1))`; `-` stops at 0, as `max` makes it.
pub drop : Option String → Map ℕ → Map ℕ
drop none m = m
drop (some k) m = set k (get_or (get k m) 1 - 1) m

unfoldable pub refuses : ConcurrencyLimiter → BulkheadSlot → Bool
unfolding is_full
refuses l s =
    leb l.max_concurrent_jobs (length l.running)
    || (is_full (truthy s.agent_id) l.by_agent l.max_concurrent_per_agent
        || (is_full (truthy s.tenant_id) l.by_tenant l.max_concurrent_per_tenant
            || is_full (truthy s.tool_id) l.by_tool l.max_concurrent_per_tool))

pub admit : ConcurrencyLimiter → BulkheadSlot → ConcurrencyLimiter
admit l s = record l {
  running = add s.id l.running;
  by_agent = bump (truthy s.agent_id) l.by_agent;
  by_tenant = bump (truthy s.tenant_id) l.by_tenant;
  by_tool = bump (truthy s.tool_id) l.by_tool;
}

pub try_acquire : ConcurrencyLimiter → BulkheadSlot → ConcurrencyLimiter × Bool
try_acquire l s = if refuses l s then (l, false) else (admit l s, true)

pub release : ConcurrencyLimiter → BulkheadSlot → ConcurrencyLimiter
release l s = record l {
  running = remove s.id l.running;
  by_agent = drop (truthy s.agent_id) l.by_agent;
  by_tenant = drop (truthy s.tenant_id) l.by_tenant;
  by_tool = drop (truthy s.tool_id) l.by_tool;
}

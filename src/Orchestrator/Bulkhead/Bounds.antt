-- ===== src/Orchestrator/Bulkhead/Bounds.antt =====
-- The limiter never passes its limits.
use chat_ai.Base.{
  ℕ, ◌+◌, ◌-◌, ◌≤◌, ◌<◌, ◌≡◌, refl, String, Bool, true, false, List, [], ◌∷◌, Option, none, some,
  inl, inr, leb, get_or, truthy, length, arith, eq_iff, Bool-cases, ◌||◌,
}
use chat_ai.Base.Maps.{Map, get, get-set, length-add, length-remove}
use chat_ai.Orchestrator.Types.{BulkheadLimits}
use chat_ai.Orchestrator.Bulkhead.{
  BulkheadSlot, ConcurrencyLimiter, new_limiter, count, is_full, bump, drop, refuses, admit,
  try_acquire, release,
}

abbrev pub Under : ℕ → Map ℕ → Type 0
Under limit m = (k : String) → count m k ≤ limit

bump-Under :
    (o : Option String) (limit : ℕ) (m : Map ℕ)
    → is_full o m limit ≡ false
    → Under limit m
    → Under limit (bump o m)
unfolding is_full bump
bump-Under none limit m h u j = u j
bump-Under (some k) limit m h u j = ground (arith, get-set k j (count m k + 1) m, eq_iff k j, u j)

drop-Under : (o : Option String) (limit : ℕ) (m : Map ℕ) → Under limit m → Under limit (drop o m)
unfolding drop
drop-Under none limit m u j = u j
drop-Under (some k) limit m u j =
    ground (arith, get-set k j (get_or (get k m) 1 - 1) m, eq_iff k j, u j, u k)

pub record IsBounded (l : ConcurrencyLimiter) : Type 0 where
  pub jobs : length l.running ≤ l.max_concurrent_jobs
  pub agents : Under l.max_concurrent_per_agent l.by_agent
  pub tenants : Under l.max_concurrent_per_tenant l.by_tenant
  pub tools : Under l.max_concurrent_per_tool l.by_tool

pub new_limiter-IsBounded : (limits : BulkheadLimits) → IsBounded (new_limiter limits)
unfolding new_limiter get
new_limiter-IsBounded limits = record {
  jobs = omega arith;
  agents = λ k. omega arith;
  tenants = λ k. omega arith;
  tools = λ k. omega arith;
}

-- What a slot that is not refused has shown.
pub record HasRoom (l : ConcurrencyLimiter) (s : BulkheadSlot) : Type 0 where
  pub jobs : length l.running < l.max_concurrent_jobs
  pub agent : is_full (truthy s.agent_id) l.by_agent l.max_concurrent_per_agent ≡ false
  pub tenant : is_full (truthy s.tenant_id) l.by_tenant l.max_concurrent_per_tenant ≡ false
  pub tool : is_full (truthy s.tool_id) l.by_tool l.max_concurrent_per_tool ≡ false

or_false : (a b : Bool) → (a || b) ≡ false → (a ≡ false) × (b ≡ false)
or_false true b h = ground arith
or_false false b h = (refl, h)

not_leb : (a b : ℕ) → leb a b ≡ false → b < a
not_leb a b h = ground arith

pub refuses-HasRoom :
    (l : ConcurrencyLimiter) (s : BulkheadSlot) → refuses l s ≡ false → HasRoom l s
unfolding refuses
refuses-HasRoom l s h =
    let (jobs, rest) = or_false _ _ h in
    let (agent, rest') = or_false _ _ rest in
    let (tenant, tool) = or_false _ _ rest' in
    record { jobs = not_leb _ _ jobs; agent = agent; tenant = tenant; tool = tool }

admit-IsBounded :
    (l : ConcurrencyLimiter) (s : BulkheadSlot) → HasRoom l s → IsBounded l → IsBounded (admit l s)
unfolding admit
admit-IsBounded l s r b = record {
  jobs = omega (arith, length-add s.id l.running, r.jobs);
  agents = bump-Under (truthy s.agent_id) _ l.by_agent r.agent b.agents;
  tenants = bump-Under (truthy s.tenant_id) _ l.by_tenant r.tenant b.tenants;
  tools = bump-Under (truthy s.tool_id) _ l.by_tool r.tool b.tools;
}

pub try_acquire-IsBounded :
    (l : ConcurrencyLimiter) (s : BulkheadSlot) → IsBounded l → IsBounded (try_acquire l s).0
unfolding try_acquire
try_acquire-IsBounded l s b = elim (Bool-cases (refuses l s)) [
  | inl full ↦ rw full b
  | inr room ↦ rw room (admit-IsBounded l s (refuses-HasRoom l s room) b)
]

pub release-IsBounded :
    (l : ConcurrencyLimiter) (s : BulkheadSlot) → IsBounded l → IsBounded (release l s)
unfolding release
release-IsBounded l s b = record {
  jobs = omega (arith, length-remove s.id l.running, b.jobs);
  agents = drop-Under (truthy s.agent_id) _ l.by_agent b.agents;
  tenants = drop-Under (truthy s.tenant_id) _ l.by_tenant b.tenants;
  tools = drop-Under (truthy s.tool_id) _ l.by_tool b.tools;
}

pub data Call : Type 0 where
  acquires releases : BulkheadSlot → Call

abbrev pub step : ConcurrencyLimiter → Call → ConcurrencyLimiter
step l (acquires s) = (try_acquire l s).0
step l (releases s) = release l s

unfoldable pub calls : ConcurrencyLimiter → List Call → ConcurrencyLimiter
calls l [] = l
calls l (c ∷ cs) = calls (step l c) cs

step-IsBounded : (l : ConcurrencyLimiter) (c : Call) → IsBounded l → IsBounded (step l c)
step-IsBounded l (acquires s) b = try_acquire-IsBounded l s b
step-IsBounded l (releases s) b = release-IsBounded l s b

calls-IsBounded : (l : ConcurrencyLimiter) (cs : List Call) → IsBounded l → IsBounded (calls l cs)
unfolding calls
calls-IsBounded l [] b = b
calls-IsBounded l (c ∷ cs) b = calls-IsBounded (step l c) cs (step-IsBounded l c b)

-- After any calls of `tryAcquire` and `release` on a new limiter, in any order, also releases of
-- slots that were never acquired, the running jobs and the counts of each agent, tenant and tool
-- are within the limits.
pub calls_new-IsBounded :
    (limits : BulkheadLimits) (cs : List Call) → IsBounded (calls (new_limiter limits) cs)
calls_new-IsBounded limits cs = calls-IsBounded _ cs (new_limiter-IsBounded limits)

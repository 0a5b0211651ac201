-- ===== src/Orchestrator/Retry.antt =====
-- runtime/orchestrator/src/retry.ts, compensation.ts and scheduler.ts.
use chat_ai.Base.{
  ℕ, ◌+◌, ◌-◌, ◌*◌, ◌/◌, ◌^◌, String, Bool, true, false, ◌||◌, List, [], ◌∷◌, ◌++◌, Option, none,
  some, str_eq, if◌then◌else◌, any, includes, contains_text, truthy, keep, find,
}
use chat_ai.Base.Maps.{Map, get, set}
use chat_ai.Orchestrator.Types.{
  RetryPolicy, Backoff, fixed, exponential, CompensationSpec, undo, irreversible, WorkflowNode,
  WorkflowJob,
}

unfoldable pub is_retryable : RetryPolicy → String → Bool
is_retryable policy error =
    if includes "*" policy.retryable_errors
    then true
    else any (λ r. contains_text error r || str_eq error r) policy.retryable_errors

-- A value of the random generator, `num / den`.
pub record Fraction : Type 0 where
  pub num : ℕ
  pub den : ℕ

base_delay : Backoff → ℕ → ℕ
base_delay exponential attempt = 1000 * 2 ^ (attempt - 1)
base_delay fixed attempt = 1000

-- `Math.round(delay * (0.5 + r * 0.5))` in exact arithmetic.
jittered : ℕ → Fraction → ℕ
jittered delay r = (delay * (r.den + r.num) + r.den) / (2 * r.den)

unfoldable pub backoff_ms : RetryPolicy → ℕ → Fraction → ℕ
unfolding base_delay jittered
backoff_ms policy attempt r =
    if policy.jitter
    then jittered (base_delay policy.backoff attempt) r
    else base_delay policy.backoff attempt

-- `CompensationRegistry`.
abbrev pub CompensationRegistry : Type 0
CompensationRegistry = Map CompensationSpec

unfoldable pub register : String → CompensationSpec → CompensationRegistry → CompensationRegistry
register action spec registry = set action spec registry

unfoldable pub resolve : String → CompensationRegistry → Option CompensationSpec
resolve action registry = get action registry

by_action : Option String → CompensationRegistry → Option CompensationSpec
by_action none registry = none
by_action (some action) registry = get action registry

or_by_action :
    Option CompensationSpec → Option String → CompensationRegistry → Option CompensationSpec
unfolding by_action
or_by_action (some spec) action registry = some spec
or_by_action none action registry = by_action (truthy action) registry

unfoldable pub compensation_for : WorkflowNode → CompensationRegistry → Option CompensationSpec
unfolding or_by_action
compensation_for node registry = or_by_action node.compensation node.action registry

unfoldable pub is_irreversible : WorkflowNode → CompensationRegistry → Bool
unfolding compensation_for
is_irreversible node registry = elim (compensation_for node registry) [
  | none ↦ false
  | some spec ↦ elim spec [ undo action input ↦ false | irreversible ↦ true ]
]

-- `InProcessScheduler`, oldest job first.
abbrev pub JobQueue : Type 0
JobQueue = List WorkflowJob

unfoldable pub enqueue : WorkflowJob → JobQueue → JobQueue
enqueue job queue = queue ++ job ∷ []

not_id : String → WorkflowJob → Bool
not_id job_id j = if str_eq j.id job_id then false else true

unfoldable pub cancel_job : String → JobQueue → JobQueue
unfolding not_id
cancel_job job_id queue = keep (not_id job_id) queue

again : Option WorkflowJob → JobQueue → JobQueue
again none queue = queue
again (some job) queue = queue ++ record job { attempt = job.attempt + 1 } ∷ []

unfoldable pub retry_job : String → JobQueue → JobQueue
unfolding again
retry_job job_id queue = again (find (λ j. str_eq j.id job_id) queue) queue

unfoldable pub dequeue : JobQueue → Option WorkflowJob × JobQueue
dequeue [] = (none, [])
dequeue (job ∷ queue) = (some job, queue)

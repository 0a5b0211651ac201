-- ===== src/Immune/Breaker.antt =====
-- kernel/immune/src/circuit-breaker.ts: one breaker for each external resource. `now` is the clock's
-- answer at the call.
pub mod Trips
use chat_ai.Base.{
  ℕ, suc, ◌+◌, String, Bool, true, false, List, [], ◌∷◌, Option, none, some, Result, ok, err,
  if◌then◌else◌, ltb, leb, get_or,
}
use chat_ai.Base.Maps
use chat_ai.Base.Maps.{Map}
use chat_ai.Transition
use chat_ai.Transition.{StateMachine, IllegalTransition}

-- `CircuitBreakerState`.
pub data BreakerState : Type 0 where
  closed opened half_open : BreakerState

-- The events of `BREAKER_MACHINE`.
pub data BreakerEvent : Type 0 where
  trip cooldown success failure : BreakerEvent

-- `BREAKER_MACHINE`.
unfoldable pub breaker_machine : StateMachine BreakerState BreakerEvent
breaker_machine = record {
  transitions = λ from event. elim from [
    | closed ↦ elim event [ trip ↦ some opened | _ ↦ none ]
    | opened ↦ elim event [ cooldown ↦ some half_open | _ ↦ none ]
    | half_open ↦ elim event [ success ↦ some closed | failure ↦ some opened | _ ↦ none ]
  ];
}

-- `CircuitBreakerConfig`.
pub record CircuitBreakerConfig : Type 0 where
  pub failure_threshold : ℕ
  pub cooldown_ms : ℕ
  pub max_half_open_trials : ℕ

-- `CircuitState`.
pub record CircuitState : Type 0 where
  pub resource : String
  pub state : BreakerState
  pub failures : ℕ
  pub opened_at : Option ℕ
  pub half_open_trials : ℕ

-- The constructor of `CircuitBreaker`.
unfoldable pub new_breaker : String → CircuitState
new_breaker resource = record {
  resource = resource;
  state = closed;
  failures = 0;
  opened_at = none;
  half_open_trials = 0;
}

-- `BREAKER_MACHINE.transition`, at the calls of the code, none of which throws.
next : BreakerState → BreakerEvent → BreakerState
unfolding breaker_machine Transition.transition
next from event = elim (Transition.transition breaker_machine from event) [
  | ok s ↦ s
  | err e ↦ from
]

-- `now - (openedAt ?? now) >= cooldownMs`.
unfoldable pub has_cooled : ℕ → Option ℕ → ℕ → Bool
has_cooled now none wait = leb wait 0
has_cooled now (some at) wait = leb (at + wait) now

allow_in : BreakerState → CircuitBreakerConfig → ℕ → CircuitState → Bool × CircuitState
unfolding next has_cooled
allow_in closed c now b = (true, b)
allow_in opened c now b =
    if has_cooled now b.opened_at c.cooldown_ms
    then (true, record b { state = next opened cooldown; half_open_trials = 0 })
    else (false, b)
allow_in half_open c now b = (ltb b.half_open_trials c.max_half_open_trials, b)

-- `allow`.
unfoldable pub allow : CircuitBreakerConfig → ℕ → CircuitState → Bool × CircuitState
unfolding allow_in
allow c now b = allow_in b.state c now b

success_in : BreakerState → CircuitState → CircuitState
unfolding next
success_in half_open b = record b {
  state = next half_open success;
  failures = 0;
  opened_at = none;
  half_open_trials = 0;
}
success_in closed b = record b { failures = 0 }
success_in opened b = b

-- `recordSuccess`.
unfoldable pub record_success : CircuitState → CircuitState
unfolding success_in
record_success b = success_in b.state b

count_failure : CircuitBreakerConfig → ℕ → CircuitState → CircuitState
unfolding next
count_failure c now b =
    if leb c.failure_threshold (suc b.failures)
    then record b { state = next closed trip; failures = suc b.failures; opened_at = some now }
    else record b { failures = suc b.failures }

failure_in : BreakerState → CircuitBreakerConfig → ℕ → CircuitState → CircuitState
unfolding next count_failure
failure_in half_open c now b = record b {
  state = next half_open failure;
  opened_at = some now;
  half_open_trials = 0;
}
failure_in closed c now b = count_failure c now b
failure_in opened c now b = count_failure c now b

-- `recordFailure`.
unfoldable pub record_failure : CircuitBreakerConfig → ℕ → CircuitState → CircuitState
unfolding failure_in
record_failure c now b = failure_in b.state c now b

-- `DEFAULT` of `CircuitBreakers.for`.
unfoldable pub default_config : CircuitBreakerConfig
default_config = record { failure_threshold = 5; cooldown_ms = 60000; max_half_open_trials = 1 }

-- A breaker with the configuration that it was made with.
pub record Breaker : Type 0 where
  pub config : CircuitBreakerConfig
  pub state : CircuitState

-- `CircuitBreakers.for`: the configuration counts only at the first call for a resource.
unfoldable pub breaker_for :
    String → Option CircuitBreakerConfig → Map Breaker → Breaker × Map Breaker
unfolding new_breaker
breaker_for resource config m =
    let fresh : Breaker = record {
      config = get_or config default_config;
      state = new_breaker resource;
    } in
    elim (Maps.get resource m) [ some b ↦ (b, m) | none ↦ (fresh, Maps.set resource fresh m) ]

-- A call of a method of the breaker, with the time it is made at.
pub data Call : Type 0 where
  ask : ℕ → Call
  succeeded : Call
  failed : ℕ → Call

-- The answers of `allow`, and the state after the calls.
unfoldable pub run : CircuitBreakerConfig → List Call → CircuitState → List Bool × CircuitState
run c [] b = ([], b)
run c (ask now ∷ calls) b =
    let (answers, last) = run c calls (allow c now b).1 in ((allow c now b).0 ∷ answers, last)
run c (succeeded ∷ calls) b = run c calls (record_success b)
run c (failed now ∷ calls) b = run c calls (record_failure c now b)

-- ===== src/Immune/Breaker/Trips.antt =====
-- When a breaker refuses calls.
use chat_ai.Base.{
  ℕ, ◌+◌, ◌≤◌, ◌<◌, Bool, true, false, not, List, [], ◌∷◌, none, some, ◌≡◌, refl, arith, all, ltb,
  leb, is_some, ◌&&◌,
}
use chat_ai.Immune.Breaker.{
  closed, opened, half_open, breaker_machine, CircuitBreakerConfig, CircuitState, next, has_cooled,
  allow_in, allow, success_in, record_success, count_failure, failure_in, record_failure, Call, ask,
  succeeded, failed, run,
}

-- The call is made before the cooldown of a breaker opened at `start` is over, and not before it.
abbrev pub is_early : CircuitBreakerConfig → ℕ → Call → Bool
is_early c start (ask now) = leb start now && ltb now (start + c.cooldown_ms)
is_early c start succeeded = true
is_early c start (failed now) = leb start now && ltb now (start + c.cooldown_ms)

-- A breaker that is opened since a time from `start` on.
abbrev pub open_since : ℕ → CircuitState → Bool
open_since start b = elim b.state [
  | opened ↦ elim b.opened_at [ none ↦ false | some at ↦ leb start at ]
  | _ ↦ false
]

allow_open :
    (c : CircuitBreakerConfig) (start now : ℕ) (b : CircuitState)
    → open_since start b ≡ true
    → now < start + c.cooldown_ms
    → ((allow c now b).0 ≡ false) × ((allow c now b).1 ≡ b)
unfolding allow allow_in has_cooled
allow_open c start now b o early = (ground arith, ground arith)

failure_open :
    (c : CircuitBreakerConfig) (start now : ℕ) (b : CircuitState)
    → open_since start b ≡ true
    → start ≤ now
    → open_since start (record_failure c now b) ≡ true
unfolding record_failure failure_in count_failure next breaker_machine
failure_open c start now b o late = ground arith

success_open :
    (start : ℕ) (b : CircuitState)
    → open_since start b ≡ true
    → open_since start (record_success b) ≡ true
unfolding record_success success_in
success_open start b o = ground arith

-- From an open breaker on, calls that come before its cooldown is over are all refused, whatever
-- else is reported to it meanwhile, and it stays open.
pub opened-refuses :
    (c : CircuitBreakerConfig) (start : ℕ) (calls : List Call) (b : CircuitState)
    → open_since start b ≡ true
    → all (is_early c start) calls ≡ true
    → (all not (run c calls b).0 ≡ true) × (open_since start (run c calls b).1 ≡ true)
unfolding run
opened-refuses c start [] b o early = (refl, o)
opened-refuses c start (ask now ∷ calls) b o early =
    let (refused, same) = allow_open c start now b o (ground arith) in
    rw (refused, same) (opened-refuses c start calls b o (ground arith))
opened-refuses c start (succeeded ∷ calls) b o early =
    opened-refuses c start calls (record_success b) (success_open start b o) early
opened-refuses c start (failed now ∷ calls) b o early =
    opened-refuses c start calls (record_failure c now b)
      (failure_open c start now b o (ground arith)) (ground arith)

-- A closed breaker has counted fewer failures than the threshold; any other knows when it opened.
abbrev pub is_valid : CircuitBreakerConfig → CircuitState → Bool
is_valid c b = elim b.state [
  | closed ↦ ltb b.failures c.failure_threshold
  | opened ↦ is_some b.opened_at
  | half_open ↦ is_some b.opened_at
]

step_valid :
    (c : CircuitBreakerConfig) (now : ℕ) (b : CircuitState)
    → 0 < c.failure_threshold
    → is_valid c b ≡ true
    → (is_valid c (allow c now b).1 ≡ true)
      × (is_valid c (record_success b) ≡ true)
      × (is_valid c (record_failure c now b) ≡ true)
unfolding allow allow_in has_cooled record_success success_in record_failure failure_in
    count_failure next breaker_machine
step_valid c now b pos v = (ground arith, ground arith, ground arith)

-- From a new breaker on, with a positive threshold, every sequence of calls keeps it valid.
pub run-valid :
    (c : CircuitBreakerConfig) (calls : List Call) (b : CircuitState)
    → 0 < c.failure_threshold
    → is_valid c b ≡ true
    → is_valid c (run c calls b).1 ≡ true
unfolding run
run-valid c [] b pos v = v
run-valid c (ask now ∷ calls) b pos v = run-valid c calls _ pos (step_valid c now b pos v).0
run-valid c (succeeded ∷ calls) b pos v = run-valid c calls _ pos (step_valid c 0 b pos v).1
run-valid c (failed now ∷ calls) b pos v = run-valid c calls _ pos (step_valid c now b pos v).2

abbrev is_ask : Call → Bool
is_ask (ask now) = true
is_ask _ = false

allow_half :
    (c : CircuitBreakerConfig) (now : ℕ) (b : CircuitState)
    → b.state ≡ half_open
    → b.half_open_trials < c.max_half_open_trials
    → ((allow c now b).0 ≡ true) × ((allow c now b).1 ≡ b)
unfolding allow allow_in
allow_half c now b h t = (ground arith, ground arith)

-- A half-open breaker that allows one trial allows every later one until an outcome is reported:
-- no trial is counted, so that the bound on trials is never reached.
pub half_open-allows :
    (c : CircuitBreakerConfig) (calls : List Call) (b : CircuitState)
    → b.state ≡ half_open
    → b.half_open_trials < c.max_half_open_trials
    → all is_ask calls ≡ true
    → (all (λ a. a) (run c calls b).0 ≡ true) × ((run c calls b).1 ≡ b)
unfolding run
half_open-allows c [] b h t asks = (refl, refl)
half_open-allows c (ask now ∷ calls) b h t asks =
    let (granted, same) = allow_half c now b h t in
    let (all_granted, kept) = half_open-allows c calls b h t asks in
    rw (granted, same) (all_granted, kept)
half_open-allows c (succeeded ∷ calls) b h t asks = cc
half_open-allows c (failed now ∷ calls) b h t asks = cc

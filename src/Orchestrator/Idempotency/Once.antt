-- ===== src/Orchestrator/Idempotency/Once.antt =====
-- Deliveries, settled executions and seeds in any order: each key is executed once at most.
use chat_ai.Base.{
  ℕ, ◌+◌, ◌≤◌, ◌≡◌, refl, ◌∙◌, String, Bool, true, false, ◌||◌, List, [], ◌∷◌, Option, none, some,
  ◌⊎◌, inl, inr, arith, str_eq, eq_iff, eq_refl, if◌then◌else◌, is_some, Bool-cases,
}
use chat_ai.Base.Maps.{get, get-set, get-delete}
use chat_ai.Orchestrator.Types.{NodeResult}
use chat_ai.Orchestrator.Errors.{Error}
use chat_ai.Orchestrator.Idempotency.{
  Flight, pending, rejected, IdempotencyStore, Delivery, joined, executes, begin, fulfil, reject,
  seed_completed,
}

-- What happens to a store: a delivery, the end of an execution in flight, a seed.
pub data Happening : Type 0 where
  deliver : String → Happening
  succeed : String → NodeResult → Happening
  fail : String → Error → Happening
  seed : String → NodeResult → Happening

-- Only an execution in flight ends.
abbrev is_pending : Option Flight → Bool
is_pending (some pending) = true
is_pending _ = false

unfoldable pub after : Happening → IdempotencyStore → IdempotencyStore
after (deliver key) s = (begin key s).1
after (succeed key r) s = if is_pending (get key s.in_flight) then fulfil key r s else s
after (fail key e) s = if is_pending (get key s.in_flight) then reject key e s else s
after (seed key r) s = seed_completed key r s

abbrev is_execution : Delivery → ℕ
is_execution executes = 1
is_execution _ = 0

-- 1 if the happening calls `fn` for the key.
pub calls_fn : String → Happening → IdempotencyStore → ℕ
calls_fn key (deliver j) s = if str_eq j key then is_execution (begin j s).0 else 0
calls_fn key _ s = 0

unfoldable pub history : IdempotencyStore → List Happening → IdempotencyStore
history s [] = s
history s (h ∷ hs) = history (after h s) hs

-- How often a history executes a key.
unfoldable pub executions : String → IdempotencyStore → List Happening → ℕ
executions key s [] = 0
executions key s (h ∷ hs) = calls_fn key h s + executions key (after h s) hs

-- The key has been seen: it is completed or in flight.
abbrev pub knows : String → IdempotencyStore → Bool
knows key s = is_some (get key s.completed) || is_some (get key s.in_flight)

begin-knows :
    (key j : String) (s : IdempotencyStore) → knows key s ≡ true → knows key (begin j s).1 ≡ true
unfolding begin
begin-knows key j s h = ground (arith, get-set j key pending s.in_flight)

after-knows :
    (key : String) (h : Happening) (s : IdempotencyStore)
    → knows key s ≡ true
    → knows key (after h s) ≡ true
unfolding after fulfil reject seed_completed
after-knows key (deliver j) s k = begin-knows key j s k
after-knows key (succeed j r) s k =
    ground (arith, eq_iff j key, get-set j key r s.completed, get-delete j key s.in_flight)
after-knows key (fail j e) s k = ground (arith, get-set j key (rejected e) s.in_flight)
after-knows key (seed j r) s k = ground (arith, get-set j key r s.completed)

begin-known :
    (key : String) (s : IdempotencyStore) → knows key s ≡ true → is_execution (begin key s).0 ≡ 0
unfolding begin
begin-known key s k = ground arith

calls_fn-known :
    (key : String) (h : Happening) (s : IdempotencyStore)
    → knows key s ≡ true
    → calls_fn key h s ≡ 0
unfolding calls_fn
calls_fn-known key (deliver j) s k = elim (Bool-cases (str_eq j key)) [
  | inl e ↦ rw (e, (eq_iff j key).0 e) (begin-known key s k)
  | inr e ↦ rw e refl
]
calls_fn-known key (succeed j r) s k = refl
calls_fn-known key _ s k = refl

executions-known :
    (key : String) (s : IdempotencyStore) (hs : List Happening)
    → knows key s ≡ true
    → executions key s hs ≡ 0
unfolding executions
executions-known key s [] k = refl
executions-known key s (h ∷ hs) k =
    omega
      (arith, calls_fn-known key h s k, executions-known key (after h s) hs (after-knows key h s k))

abbrev Executes : String → IdempotencyStore → ℕ → Type 0
Executes key after n = (n ≡ 0) ⊎ ((n ≡ 1) × (knows key after ≡ true))

begin-Executes :
    (key : String) (s : IdempotencyStore)
    → Executes key (begin key s).1 (is_execution (begin key s).0)
unfolding begin
begin-Executes key s = ground (arith, get-set key key pending s.in_flight, eq_refl key)

calls_fn-Executes :
    (key : String) (h : Happening) (s : IdempotencyStore)
    → Executes key (after h s) (calls_fn key h s)
unfolding calls_fn after
calls_fn-Executes key (deliver j) s = elim (Bool-cases (str_eq j key)) [
  | inl e ↦ rw (e, (eq_iff j key).0 e) (begin-Executes key s)
  | inr e ↦ rw e (inl refl)
]
calls_fn-Executes key (succeed j r) s = inl refl
calls_fn-Executes key _ s = inl refl

-- Whatever the deliveries, the ends of executions and the seeds, and in whatever order they come,
-- the function of a key is called once at most.
pub executions-le-one :
    (key : String) (s : IdempotencyStore) (hs : List Happening) → executions key s hs ≤ 1
unfolding executions
executions-le-one key s [] = omega arith
executions-le-one key s (h ∷ hs) = elim (calls_fn-Executes key h s) [
  | inl zero_calls ↦ omega (arith, executions-le-one key (after h s) hs)
  | inr (one, k) ↦ omega (arith, executions-known key (after h s) hs k)
]

-- No happening but a seed settles a key whose execution has thrown.
unfoldable pub is_seed_of : String → Happening → Bool
is_seed_of key (seed j r) = str_eq j key
is_seed_of key _ = false

pub record IsSpoilt (key : String) (error : Error) (s : IdempotencyStore) : Type 0 where
  pub flight : get key s.in_flight ≡ some (rejected error)
  pub result : get key s.completed ≡ none

after-IsSpoilt :
    (key : String) (error : Error) (h : Happening) (s : IdempotencyStore)
    → is_seed_of key h ≡ false
    → IsSpoilt key error s
    → IsSpoilt key error (after h s)
unfolding after begin fulfil reject seed_completed is_seed_of
after-IsSpoilt key error (deliver j) s n p = elim (Bool-cases (str_eq j key)) [
  | inl same ↦ rw ((eq_iff j key).0 same) (ground arith)
  | inr other ↦ ground (arith, get-set j key pending s.in_flight)
]
after-IsSpoilt key error (succeed j r) s n p = elim (Bool-cases (str_eq j key)) [
  | inl same ↦ rw ((eq_iff j key).0 same) (ground arith)
  | inr other ↦ ground (arith, get-set j key r s.completed, get-delete j key s.in_flight)
]
after-IsSpoilt key error (fail j e) s n p = elim (Bool-cases (str_eq j key)) [
  | inl same ↦ rw ((eq_iff j key).0 same) (ground arith)
  | inr other ↦ ground (arith, get-set j key (rejected e) s.in_flight)
]
after-IsSpoilt key error (seed j r) s n p = ground (arith, get-set j key r s.completed)

begin-IsSpoilt :
    (key : String) (error : Error) (s : IdempotencyStore)
    → IsSpoilt key error s
    → (begin key s).0 ≡ joined (rejected error)
unfolding begin
begin-IsSpoilt key error s p = ground arith

-- A history that seeds no result for the key.
abbrev pub NoSeed : String → List Happening → Type 0
NoSeed key [] = Unit {0}
NoSeed key (h ∷ hs) = (is_seed_of key h ≡ false) × NoSeed key hs

history-IsSpoilt :
    (key : String) (error : Error) (s : IdempotencyStore) (hs : List Happening)
    → NoSeed key hs
    → IsSpoilt key error s
    → IsSpoilt key error (history s hs)
unfolding history
history-IsSpoilt key error s [] n p = p
history-IsSpoilt key error s (h ∷ hs) n p =
    history-IsSpoilt key error (after h s) hs n.1 (after-IsSpoilt key error h s n.0 p)

reject-IsSpoilt :
    (key : String) (error : Error) (s : IdempotencyStore)
    → get key s.completed ≡ none
    → IsSpoilt key error (reject key error s)
unfolding reject
reject-IsSpoilt key error s c = record {
  flight = get-set key key (rejected error) s.in_flight ∙ ground (arith, eq_refl key);
  result = c;
}

-- Once the execution of a key has thrown, every later delivery of the key gets that same error and
-- calls nothing, whatever else happens to the store, unless a result is seeded for the key.
pub begin_after_reject :
    (key : String) (error : Error) (s : IdempotencyStore) (hs : List Happening)
    → get key s.completed ≡ none
    → NoSeed key hs
    → (begin key (history (reject key error s) hs)).0 ≡ joined (rejected error)
begin_after_reject key error s hs c n =
    begin-IsSpoilt key error _
      (history-IsSpoilt key error (reject key error s) hs n (reject-IsSpoilt key error s c))

-- ===== src/Orchestrator/Idempotency.antt =====
-- runtime/orchestrator/src/idempotency.ts: one execution for each key.
pub mod Once
use chat_ai.Base.{String, List, [], ◌∷◌, Option, none, some, Bool}
use chat_ai.Base.Maps.{Map, get, set, has, delete}
use chat_ai.Orchestrator.Types.{NodeResult}
use chat_ai.Orchestrator.Errors.{Error}

-- What a promise in `inFlight` stands at. A rejected one stays in the map: the only handler that
-- deletes it is the one for success.
pub data Flight : Type 0 where
  pending : Flight
  rejected : Error → Flight

pub record IdempotencyStore : Type 0 where
  pub completed : Map NodeResult
  pub in_flight : Map Flight

abbrev pub new_store : IdempotencyStore
new_store = record { completed = []; in_flight = [] }

unfoldable pub has_completed : String → IdempotencyStore → Bool
has_completed key s = has key s.completed

-- What `run` does before its first wait: hand back a stored result, hand back the promise in
-- flight, or call `fn`.
pub data Delivery : Type 0 where
  reused : NodeResult → Delivery
  joined : Flight → Delivery
  executes : Delivery

start : String → Option NodeResult → Option Flight → IdempotencyStore → Delivery × IdempotencyStore
start key (some done) flight s = (reused done, s)
start key none (some flight) s = (joined flight, s)
start key none none s = (executes, record s { in_flight = set key pending s.in_flight })

-- `run(key, fn)`.
unfoldable pub begin : String → IdempotencyStore → Delivery × IdempotencyStore
unfolding start
begin key s = start key (get key s.completed) (get key s.in_flight) s

-- The `then` of the promise.
unfoldable pub fulfil : String → NodeResult → IdempotencyStore → IdempotencyStore
fulfil key r s = record s { completed = set key r s.completed; in_flight = delete key s.in_flight }

-- `fn` threw: the stored promise is rejected.
unfoldable pub reject : String → Error → IdempotencyStore → IdempotencyStore
reject key error s = record s { in_flight = set key (rejected error) s.in_flight }

unfoldable pub seed_completed : String → NodeResult → IdempotencyStore → IdempotencyStore
seed_completed key r s = record s { completed = set key r s.completed }

-- `get` and `entries`.
unfoldable pub get_result : String → IdempotencyStore → Option NodeResult
get_result key s = get key s.completed

unfoldable pub entries : IdempotencyStore → List (String × NodeResult)
entries s = s.completed

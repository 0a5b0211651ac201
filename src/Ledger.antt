-- ===== src/Ledger.antt =====
-- kernel/events/src/ledger.ts and canonicalize.ts: the append-only chain of events. `sha256` is the
-- digest of a text in hexadecimal; ids and times are given.
pub mod Chain
use Prim.Native.Char.{nul}
use Prim.Native.String
use chat_ai.Base.{
  ℕ, suc, String, Bool, true, false, List, [], ◌∷◌, ◌++◌, Option, none, some, ◌<>◌, if◌then◌else◌,
  length, str_eq, get_or,
}
use chat_ai.Orchestrator.Types.{EvidenceRef}
use chat_ai.Orchestrator.Json.{Json, stable_stringify}

pub data ActorType : Type 0 where
  user system agent tool : ActorType

-- `Actor`.
pub record Actor : Type 0 where
  pub kind : ActorType
  pub id : String

-- `LedgerEventDraft`.
pub record Draft : Type 0 where
  pub actor : Actor
  pub kind : String
  pub task_id : String
  pub run_id : String
  pub payload : Json
  pub evidence : Option (List EvidenceRef)

-- `LedgerEvent`.
pub record LedgerEvent : Type 0 where
  pub id : String
  pub seq : ℕ
  pub timestamp : String
  pub draft : Draft
  pub prev_hash : Option String
  pub hash : String

-- `ChainVerification`; `broken` has the index, the expected and the actual hash.
pub data ChainVerification : Type 0 where
  valid : ChainVerification
  broken : ℕ → String → String → ChainVerification

-- `canonicalize`, on JSON values: their keys sorted, as `stableStringify` writes them too.
unfoldable pub canonicalize : Json → String
canonicalize value = stable_stringify value

separator : String
separator = String.◌∷◌ nul String.[]

-- The text that `eventHash` feeds to the digest.
unfoldable pub hashed_text : Json → Option String → String
unfolding canonicalize separator
hashed_text payload prev = canonicalize payload <> separator <> get_or prev ""

unfoldable pub same_prev : Option String → Option String → Bool
same_prev none none = true
same_prev (some a) (some b) = str_eq a b
same_prev _ _ = false

module _ (sha256 : String → String) where
  -- `eventHash`.
  unfoldable pub event_hash : Json → Option String → String
  event_hash payload prev = sha256 (hashed_text payload prev)

  -- The loop of `verifyChain`, from an index on, after the hash before it.
  unfoldable pub verify_from : ℕ → Option String → List LedgerEvent → ChainVerification
  unfolding same_prev
  verify_from i prev [] = valid
  verify_from i prev (ev ∷ events) =
      let rest = verify_from (suc i) (some ev.hash) events in
      let expected : String = event_hash ev.draft.payload prev in
      if str_eq ev.hash expected
      then (if same_prev ev.prev_hash prev
          then rest
          else broken i (get_or prev "(null)") (get_or ev.prev_hash "(null)"))
      else broken i expected ev.hash

  -- `verifyChain`.
  unfoldable pub verify_chain : List LedgerEvent → ChainVerification
  verify_chain events = verify_from 0 none events

  -- The hash of the last event.
  unfoldable pub last_hash : Option String → List LedgerEvent → Option String
  last_hash prev [] = prev
  last_hash prev (ev ∷ events) = last_hash (some ev.hash) events

  -- `Ledger.append`, which returns the event and adds it to the list.
  unfoldable pub append :
      String → String → Draft → List LedgerEvent → LedgerEvent × List LedgerEvent
  unfolding last_hash
  append id timestamp draft events =
      let prev : Option String = last_hash none events in
      let event : LedgerEvent = record {
        id = id;
        seq = length events;
        timestamp = timestamp;
        draft = draft;
        prev_hash = prev;
        hash = event_hash draft.payload prev;
      } in
      (event, events ++ event ∷ [])

-- ===== src/Storage/Durable.antt =====
-- storage/store/src/durable-ledger.ts: a ledger whose events wait in `pending` until `flush` puts
-- them into a store. A fresh ledger reads them again by `hydrate`.
use chat_ai.Base.{
  ℕ, suc, String, List, [], ◌∷◌, ◌++◌, Option, none, Result, ok, err, ◌>>=◌, ◌<>◌, if◌then◌else◌,
  str_eq, show,
}
use chat_ai.Ledger
use chat_ai.Ledger.{Draft, LedgerEvent, ChainVerification, valid, broken, verify_chain}
use chat_ai.Storage.{EventStore}

-- The fields of `DurableLedger`: those of `Ledger`, and `pending`.
pub record DurableLedger : Type 0 where
  pub events : List LedgerEvent
  pub pending : List LedgerEvent

unfoldable pub new_ledger : DurableLedger
new_ledger = record { events = []; pending = [] }

-- `randomUUID` and `toISOString`, at each number of an event.
pub record Stamps : Type 0 where
  pub id : ℕ → String
  pub timestamp : ℕ → String

module _ (sha256 : String → String) where
  unfoldable pub check_chain : ChainVerification → Result String (Unit {0})
  check_chain valid = ok tt
  check_chain (broken index expected actual) =
      err ("durable ledger: stored chain is invalid at seq " <> show index)

  -- The loop of `hydrate`, from a number of an event on.
  unfoldable pub rebuild :
      Stamps → ℕ → List LedgerEvent → List LedgerEvent → Result String (List LedgerEvent)
  rebuild stamps n [] events = ok events
  rebuild stamps n (e ∷ rest) events =
      let (rebuilt, longer) =
        Ledger.append sha256 (stamps.id n) (stamps.timestamp n) e.draft events in
      let more = rebuild stamps (suc n) rest longer in
      if str_eq rebuilt.hash e.hash
      then more
      else err ("durable ledger: hash mismatch at seq " <> (show e.seq <> " (tamper detected)"))

  -- `append`.
  unfoldable pub append : String → String → Draft → DurableLedger → LedgerEvent × DurableLedger
  append id timestamp draft l =
      let (ev, events) = Ledger.append sha256 id timestamp draft l.events in
      (ev, record { events = events; pending = l.pending ++ ev ∷ [] })

  module _ {S : Type 0} (store : EventStore S) where
    -- `hydrate`, on a ledger with no events.
    unfoldable pub hydrate : Stamps → S → Result String DurableLedger
    hydrate stamps s = do
      events ← store.all s
      _ ← check_chain (verify_chain sha256 events)
      rebuilt ← rebuild stamps 0 events []
      ok (record { events = rebuilt; pending = [] })

    unfoldable pub flush_batch : List LedgerEvent → S → S × Option String
    flush_batch [] s = (s, none)
    flush_batch (e ∷ es) s = store.append (e ∷ es) s

    -- `flush`: the batch is taken off before the store is called, and is gone if that throws.
    unfoldable pub flush : DurableLedger → S → DurableLedger × S × Option String
    unfolding flush_batch
    flush l s =
        let (t, error) = flush_batch l.pending s in
        (record { events = l.events; pending = [] }, t, error)

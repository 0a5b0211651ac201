-- ===== src/Storage.antt =====
-- storage/store/src: the contract of an event store (contracts.ts), which a durable ledger keeps
-- its events in and which the stores on databases fulfil.
pub mod Sqlite
pub mod SqliteLaws
pub mod Durable
pub mod Rebuild
pub mod Restart
pub mod Lost
pub mod Projections
pub mod Counts
use chat_ai.Base.{
  ◌≤◌, ℕ, suc, String, List, [], ◌∷◌, ◌++◌, Option, none, some, Result, ok, err, ◌≡◌,
}
use chat_ai.Ledger.{LedgerEvent}

-- Events whose numbers go up by one, from a number on.
abbrev pub Numbered : ℕ → List LedgerEvent → Type 0
Numbered n [] = Unit
Numbered n (e ∷ es) = (e.seq ≡ n) × Numbered (suc n) es

-- Events whose numbers go up, from a number at least.
abbrev pub Rising : ℕ → List LedgerEvent → Type 0
Rising n [] = Unit
Rising n (e ∷ es) = (n ≤ e.seq) × Rising (suc e.seq) es

-- `EventStore`: `append` leaves a store and may throw, and `all` reads it. The laws are what the
-- contract's comments say: an append is atomic, and the events come back in the order of insertion,
-- which is asked for where their numbers rise.
pub record EventStore (S : Type 0) : Type 0 where
  pub append : List LedgerEvent → S → S × Option String
  pub all : S → Result String (List LedgerEvent)
  pub appended :
      (events stored : List LedgerEvent) (s t : S)
      → all s ≡ ok stored
      → Rising 0 (stored ++ events)
      → append events s ≡ (t, none)
      → all t ≡ ok (stored ++ events)
  pub refused :
      (events : List LedgerEvent) (message : String) (s t : S)
      → append events s ≡ (t, some message)
      → all t ≡ all s

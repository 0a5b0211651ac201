-- ===== src/Storage/Lost.antt =====
-- A flush that throws loses its batch: what a later flush stores no longer makes a chain.
use chat_ai.Base.{
  ◌≤◌, map, length, length-append, ok_injective, arith, ℕ, suc, String, List, [], ◌∷◌, ◌++◌, Option,
  none, some, ok, err, ◌≡◌, ◌≢◌, refl, sym, ◌∙◌, ap, ◌<>◌, show, ◌⊎◌, inl, inr,
}
use chat_ai.Ledger
use chat_ai.Ledger.{
  Draft, LedgerEvent, ChainVerification, valid, broken, verify_from, verify_chain, last_hash,
}
use chat_ai.Ledger.Chain.{Fits, valid-head}
use chat_ai.Storage.{Numbered, Rising, EventStore}
use chat_ai.Storage.Rebuild.{stripped, Numbered-prefix, Rising-past}
use chat_ai.Storage.Restart.{Call, Kept, play, play-Kept, new-Kept, whole-Numbered}
use chat_ai.Storage.Durable
use chat_ai.Storage.Durable.{
  DurableLedger, Stamps, new_ledger, check_chain, hydrate, flush_batch, flush,
}

verification_cases :
    (v : ChainVerification)
    → (v ≡ valid) ⊎ ((i : ℕ) × (a : String) × (b : String) × (v ≡ broken i a b))
verification_cases valid = inl refl
verification_cases (broken i a b) = inr (i, a, b, refl)

length-stripped : (xs : List LedgerEvent) → length (map stripped xs) ≡ length xs
length-stripped [] = refl
length-stripped (x ∷ xs) = omega (arith, length-stripped xs)

module _ (sha256 : String → String) where
  valid-last :
      (i : ℕ) (prev : Option String) (xs : List LedgerEvent) (ev : LedgerEvent)
      → verify_from sha256 i prev (xs ++ ev ∷ []) ≡ valid
      → Fits sha256 (last_hash sha256 prev xs) ev
  unfolding last_hash
  valid-last i prev [] ev h = (valid-head sha256 i prev ev [] h).0
  valid-last i prev (x ∷ xs) ev h =
      valid-last (suc i) (some x.hash) xs ev (valid-head sha256 i prev x (xs ++ ev ∷ []) h).1

  valid-chain-last :
      (xs : List LedgerEvent) (ev : LedgerEvent)
      → verify_chain sha256 (xs ++ ev ∷ []) ≡ valid
      → ev.prev_hash ≡ last_hash sha256 none xs
  unfolding verify_chain
  valid-chain-last xs ev h = (valid-last 0 none xs ev h).1

  append-prev :
      (id timestamp : String) (draft : Draft) (l : DurableLedger)
      → (Durable.append sha256 id timestamp draft l).0.prev_hash ≡ last_hash sha256 none l.events
  unfolding Durable.append Ledger.append
  append-prev id timestamp draft l = refl

  append_seq :
      (id timestamp : String) (draft : Draft) (l : DurableLedger)
      → (Durable.append sha256 id timestamp draft l).0.seq ≡ length l.events
  unfolding Durable.append Ledger.append
  append_seq id timestamp draft l = refl

  append-pending :
      (id timestamp : String) (draft : Draft) (l : DurableLedger)
      → l.pending ≡ []
      → (Durable.append sha256 id timestamp draft l).1.pending
        ≡ (Durable.append sha256 id timestamp draft l).0 ∷ []
  unfolding Durable.append
  append-pending id timestamp draft l idle =
      ap (λ (es : List LedgerEvent). es ++ (Durable.append sha256 id timestamp draft l).0 ∷ []) idle

  module _ {S : Type 0} (store : EventStore S) where
    flush_batch-refused :
        (pending : List LedgerEvent) (why : String) (s t : S)
        → flush_batch sha256 store pending s ≡ (t, some why)
        → store.all t ≡ store.all s
    unfolding flush_batch
    flush_batch-refused [] why s t h = ground (arith, h)
    flush_batch-refused (e ∷ es) why s t h = store.refused (e ∷ es) why s t h

    -- A flush that throws leaves the events, and nothing is pending or stored.
    flush_thrown :
        (l m : DurableLedger) (s t : S) (why : String)
        → flush sha256 store l s ≡ (m, t, some why)
        → (m.events ≡ l.events) × (m.pending ≡ []) × (store.all t ≡ store.all s)
    unfolding flush
    flush_thrown l m s t why h = (
      sym (λ i. (h i).0.events),
      sym (λ i. (h i).0.pending),
      flush_batch-refused l.pending why s t (λ i. ((h i).1, (h i).2)),
    )

    -- A flush that returns, where one event is all that is pending.
    flush-one :
        (l n : DurableLedger) (t u : S) (ev : LedgerEvent) (stored : List LedgerEvent)
        → l.pending ≡ ev ∷ []
        → store.all t ≡ ok stored
        → Rising 0 (stored ++ ev ∷ [])
        → flush sha256 store l t ≡ (n, u, none)
        → store.all u ≡ ok (stored ++ ev ∷ [])
    unfolding flush flush_batch
    flush-one l n t u ev stored one read rising h =
        let batch : flush_batch sha256 store l.pending t ≡ (u, none) = λ i. ((h i).1, (h i).2) in
        store.appended (ev ∷ []) stored t u read rising
          (sym (ap (λ (es : List LedgerEvent). flush_batch sha256 store es t) one) ∙ batch)

    hydrate-broken :
        (stamps : Stamps) (s : S) (stored : List LedgerEvent)
        → store.all s ≡ ok stored
        → verify_chain sha256 stored ≢ valid
        → (message : String) × (hydrate sha256 store stamps s ≡ err message)
    unfolding hydrate check_chain
    hydrate-broken stamps s stored read bad =
        elim (verification_cases (verify_chain sha256 stored)) [
          | inl good ↦ elim (bad good) [ ]
          | inr (i, a, b, e) ↦
              ("durable ledger: stored chain is invalid at seq " <> show i, rw (read, e) refl)
        ]

    ledger_length :
        (l : DurableLedger) (s : S) (k : Kept sha256 store l s) → length k.stored ≤ length l.events
    ledger_length l s k =
        let same : length l.events ≡ length (k.stored ++ l.pending) =
          sym (length-stripped l.events)
          ∙ ap length k.same
          ∙ length-stripped (k.stored ++ l.pending) in
        omega (arith, same, length-append k.stored l.pending)

    -- A ledger has been appended to, flushed and started on a store that was empty, and no flush
    -- has thrown. Now one throws, whose batch has changed the ledger's last hash from the last one
    -- stored. Then, when one more event is appended and the next flush returns, no start succeeds
    -- on the store.
    pub lost-hydrate :
        (cs : List Call) (l m n : DurableLedger) (r s t u : S) (stored : List LedgerEvent)
        (why id timestamp : String) (draft : Draft) (stamps : Stamps)
        → store.all r ≡ ok []
        → play sha256 store cs new_ledger r ≡ ok (l, s)
        → store.all s ≡ ok stored
        → last_hash sha256 none l.events ≢ last_hash sha256 none stored
        → flush sha256 store l s ≡ (m, t, some why)
        → flush sha256 store (Durable.append sha256 id timestamp draft m).1 t ≡ (n, u, none)
        → (message : String) × (hydrate sha256 store stamps u ≡ err message)
    lost-hydrate cs l m n r s t u stored why id timestamp draft stamps empty played read gap failed
          returned =
        let k = play-Kept sha256 store cs new_ledger l r s (new-Kept sha256 store r empty) played in
        let known : k.stored ≡ stored = ok_injective k.stored stored (sym k.read ∙ read) in
        let (events, idle, unchanged) = flush_thrown l m s t why failed in
        let ev = (Durable.append sha256 id timestamp draft m).0 in
        let numbered : Numbered 0 k.stored =
          Numbered-prefix 0 k.stored l.pending (whole-Numbered sha256 store l s k) in
        let past : length k.stored ≤ ev.seq =
          rw (append_seq id timestamp draft m, events) (ledger_length l s k) in
        let rising : Rising 0 (k.stored ++ ev ∷ []) =
          Rising-past 0 0 k.stored ev (omega arith) numbered (omega (arith, past)) in
        let after : store.all u ≡ ok (k.stored ++ ev ∷ []) =
          flush-one (Durable.append sha256 id timestamp draft m).1 n t u ev k.stored
            (append-pending id timestamp draft m idle) (unchanged ∙ k.read) rising returned in
        let chained : ev.prev_hash ≡ last_hash sha256 none l.events =
          append-prev id timestamp draft m ∙ ap (last_hash sha256 none) events in
        hydrate-broken stamps u (k.stored ++ ev ∷ []) after (λ good.
          gap (sym chained ∙ valid-chain-last k.stored ev good ∙ ap (last_hash sha256 none) known))

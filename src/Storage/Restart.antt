-- ===== src/Storage/Restart.antt =====
-- A durable ledger that is appended to, flushed and started again.
use mathlib.Core.List.{append-nil, append_assoc}
use chat_ai.Base.{
  map-append, String, List, [], ◌∷◌, ◌++◌, map, Option, none, some, Result, ok, err, ◌>>=◌, ◌≡◌,
  refl, sym, ◌∙◌, ap, subst, arith, length, returns_bind, ok_injective,
}
use chat_ai.Ledger
use chat_ai.Ledger.{Draft, LedgerEvent, valid, verify_chain, verify_from, last_hash}
use chat_ai.Ledger.Chain.{valid-prefix, append-valid}
use chat_ai.Storage.{Numbered, EventStore}
use chat_ai.Storage.Durable
use chat_ai.Storage.Durable.{
  DurableLedger, Stamps, new_ledger, check_chain, rebuild, hydrate, flush_batch, flush,
}
use chat_ai.Storage.Rebuild.{
  stripped, Numbered-stripped, Numbered-prefix, Numbered-last, Numbered-Rising, verify-stripped,
  Rebuilt, rebuild-Rebuilt,
}

-- A call on the ledger, or a start of a new one on the same store.
pub data Call : Type 0 where
  add : String → String → Draft → Call
  save : Call
  start : Stamps → Call

module _ (sha256 : String → String) {S : Type 0} (store : EventStore S) where
  unfoldable pub saved : DurableLedger × S × Option String → Result String (DurableLedger × S)
  saved (l, s, none) = ok (l, s)
  saved (l, s, some message) = err message

  saved_result :
      (p : DurableLedger × S × Option String) (m : DurableLedger) (t : S)
      → saved p ≡ ok (m, t)
      → p ≡ (m, t, none)
  unfolding saved
  saved_result (l, s, none) m t h =
      let same : (l, s) ≡ (m, t) = ok_injective _ _ h in λ i. ((same i).0, (same i).1, none)
  saved_result (l, s, some message) m t h = ground arith

  -- One call, where an error ends the run.
  unfoldable pub play_call : Call → DurableLedger → S → Result String (DurableLedger × S)
  unfolding saved
  play_call (add id timestamp draft) l s = ok ((Durable.append sha256 id timestamp draft l).1, s)
  play_call save l s = saved (flush sha256 store l s)
  play_call (start stamps) l s = do m ← hydrate sha256 store stamps s; ok (m, s)

  unfoldable pub play : List Call → DurableLedger → S → Result String (DurableLedger × S)
  play [] l s = ok (l, s)
  play (c ∷ cs) l s = do (m, t) ← play_call c l s; play cs m t

  -- The store and the pending events make up the ledger.
  pub record Kept (l : DurableLedger) (s : S) : Type 0 where
    pub stored : List LedgerEvent
    pub read : store.all s ≡ ok stored
    pub accepted : verify_chain sha256 l.events ≡ valid
    pub numbered : Numbered 0 l.events
    pub same : map stripped l.events ≡ map stripped (stored ++ l.pending)

  whole-valid :
      (l : DurableLedger) (s : S) (k : Kept l s)
      → verify_chain sha256 (k.stored ++ l.pending) ≡ valid
  whole-valid l s k =
      sym (verify-stripped sha256 (k.stored ++ l.pending))
      ∙ ap (verify_chain sha256) (sym k.same)
      ∙ verify-stripped sha256 l.events
      ∙ k.accepted

  pub whole-Numbered :
      (l : DurableLedger) (s : S) (k : Kept l s) → Numbered 0 (k.stored ++ l.pending)
  whole-Numbered l s k = Numbered-stripped 0 l.events (k.stored ++ l.pending) k.same k.numbered

  prefix-valid :
      (xs ys : List LedgerEvent)
      → verify_chain sha256 (xs ++ ys) ≡ valid
      → verify_chain sha256 xs ≡ valid
  unfolding verify_chain
  prefix-valid xs ys h = valid-prefix sha256 0 none xs ys h

  add-Kept :
      (id timestamp : String) (draft : Draft) (l : DurableLedger) (s : S)
      → Kept l s
      → Kept (Durable.append sha256 id timestamp draft l).1 s
  unfolding Durable.append
  add-Kept id timestamp draft l s k =
      let ev = (Ledger.append sha256 id timestamp draft l.events).0 in
      let grown : (Ledger.append sha256 id timestamp draft l.events).1 ≡ l.events ++ ev ∷ [] =
        unfold Ledger.append in refl in
      let place : ev.seq ≡ length l.events = unfold Ledger.append in refl in
      record {
        stored = k.stored;
        read = k.read;
        accepted = append-valid sha256 id timestamp draft l.events k.accepted;
        numbered = rw grown (Numbered-last 0 l.events ev k.numbered (omega (arith, place)));
        same =
            ap (map stripped) grown
            ∙ map-append stripped l.events (ev ∷ [])
            ∙ ap (λ (xs : List LedgerEvent). xs ++ stripped ev ∷ []) k.same
            ∙ sym (map-append stripped (k.stored ++ l.pending) (ev ∷ []))
            ∙ ap (map stripped) (append_assoc k.stored l.pending (ev ∷ []));
      }

  flush_batch-all :
      (pending stored : List LedgerEvent) (s t : S)
      → store.all s ≡ ok stored
      → Numbered 0 (stored ++ pending)
      → flush_batch sha256 store pending s ≡ (t, none)
      → store.all t ≡ ok (stored ++ pending)
  unfolding flush_batch
  flush_batch-all [] stored s t r g h =
      let same : s ≡ t = ap (λ (p : S × Option String). p.0) h in
      rw (append-nil stored) (rw (← same) r)
  flush_batch-all (e ∷ es) stored s t r g h =
      store.appended (e ∷ es) stored s t r (Numbered-Rising 0 0 (stored ++ e ∷ es) (omega arith) g)
        h

  flush-Kept :
      (l m : DurableLedger) (s t : S) → Kept l s → flush sha256 store l s ≡ (m, t, none) → Kept m t
  unfolding flush
  flush-Kept l m s t k h =
      let batch = flush_batch sha256 store l.pending s in
      let emptied : record { events = l.events; pending = [] } ≡ m =
        ap (λ (p : DurableLedger × S × Option String). p.0) h in
      let result : batch ≡ (t, none) = λ i. ((h i).1, (h i).2) in
      subst (λ n. Kept n t) emptied
        record {
          stored = k.stored ++ l.pending;
          read = flush_batch-all l.pending k.stored s t k.read (whole-Numbered l s k) result;
          accepted = k.accepted;
          numbered = k.numbered;
          same = k.same ∙ ap (map stripped) (sym (append-nil (k.stored ++ l.pending)));
        }

  -- What a start makes of a store.
  pub record Started (stamps : Stamps) (s : S) (stored : List LedgerEvent) : Type 0 where
    pub ledger : DurableLedger
    pub returns : hydrate sha256 store stamps s ≡ ok ledger
    pub same : map stripped ledger.events ≡ map stripped stored
    pub idle : ledger.pending ≡ []

  rebuild_stored :
      (stamps : Stamps) (es : List LedgerEvent)
      → verify_chain sha256 es ≡ valid
      → Numbered 0 es
      → Rebuilt sha256 stamps 0 es []
  unfolding verify_chain last_hash
  rebuild_stored stamps es v h = rebuild-Rebuilt sha256 stamps 0 0 es [] v h

  hydrate-Started :
      (stamps : Stamps) (l : DurableLedger) (s : S) (k : Kept l s) → Started stamps s k.stored
  unfolding hydrate check_chain
  hydrate-Started stamps l s k =
      let accepted : verify_chain sha256 k.stored ≡ valid =
        prefix-valid k.stored l.pending (whole-valid l s k) in
      let numbered = Numbered-prefix 0 k.stored l.pending (whole-Numbered l s k) in
      let again : Rebuilt sha256 stamps 0 k.stored [] =
        rebuild_stored stamps k.stored accepted numbered in
      record {
        ledger = record { events = again.more; pending = [] };
        returns = rw (k.read, accepted, again.returns) refl;
        same = again.same;
        idle = refl;
      }

  start-Kept :
      (stamps : Stamps) (l m : DurableLedger) (s : S)
      → Kept l s
      → hydrate sha256 store stamps s ≡ ok m
      → Kept m s
  start-Kept stamps l m s k h =
      let started = hydrate-Started stamps l s k in
      let made : started.ledger ≡ m = ok_injective started.ledger m (sym started.returns ∙ h) in
      let accepted : verify_chain sha256 k.stored ≡ valid =
        prefix-valid k.stored l.pending (whole-valid l s k) in
      let numbered = Numbered-prefix 0 k.stored l.pending (whole-Numbered l s k) in
      subst (λ n. Kept n s) made
        record {
          stored = k.stored;
          read = k.read;
          accepted =
              sym (verify-stripped sha256 started.ledger.events)
              ∙ ap (verify_chain sha256) started.same
              ∙ verify-stripped sha256 k.stored
              ∙ accepted;
          numbered = Numbered-stripped 0 k.stored started.ledger.events (sym started.same) numbered;
          same =
              started.same
              ∙ ap (map stripped) (
                  sym (
                    ap (λ (xs : List LedgerEvent). k.stored ++ xs) started.idle
                    ∙ append-nil k.stored));
        }

  play_call-Kept :
      (c : Call) (l m : DurableLedger) (s t : S) → Kept l s → play_call c l s ≡ ok (m, t) → Kept m t
  unfolding play_call saved
  play_call-Kept (add id timestamp draft) l m s t k h =
      let made : ((Durable.append sha256 id timestamp draft l).1, s) ≡ (m, t) =
        ok_injective _ _ h in
      subst (λ (p : DurableLedger × S). Kept p.0 p.1) made (add-Kept id timestamp draft l s k)
  play_call-Kept save l m s t k h =
      flush-Kept l m s t k (saved_result (flush sha256 store l s) m t h)
  play_call-Kept (start stamps) l m s t k h =
      let (n, e, made) = returns_bind (hydrate sha256 store stamps s) _ (m, t) h in
      let same : (n, s) ≡ (m, t) = ok_injective _ _ made in
      subst (λ (p : DurableLedger × S). Kept p.0 p.1) same (start-Kept stamps l n s k e)

  pub play-Kept :
      (cs : List Call) (l m : DurableLedger) (s t : S)
      → Kept l s
      → play cs l s ≡ ok (m, t)
      → Kept m t
  unfolding play
  play-Kept [] l m s t k h =
      let same : (l, s) ≡ (m, t) = ok_injective _ _ h in
      subst (λ (p : DurableLedger × S). Kept p.0 p.1) same k
  play-Kept (c ∷ cs) l m s t k h =
      let ((n, u), e, rest) = returns_bind (play_call c l s) _ (m, t) h in
      play-Kept cs n m u t (play_call-Kept c l n s u k e) rest

  pub new-Kept : (s : S) → store.all s ≡ ok [] → Kept new_ledger s
  unfolding new_ledger verify_chain verify_from
  new-Kept s h = record { stored = []; read = h; accepted = refl; numbered = tt; same = refl }

  flush_parts :
      (l m : DurableLedger) (s t : S)
      → flush sha256 store l s ≡ (m, t, none)
      → (m.events ≡ l.events) × (m.pending ≡ [])
  unfolding flush
  flush_parts l m s t h = (sym (λ i. (h i).0.events), sym (λ i. (h i).0.pending))

  -- After any appends, flushes and starts on a store that was empty, in which no flush threw, a
  -- start succeeds, and after one more flush that returns, a start gives back the whole ledger: the
  -- same events in the same order, with their drafts, numbers and hashes, but for their ids and
  -- times, and with nothing pending.
  pub flush-hydrate :
      (cs : List Call) (l m : DurableLedger) (r s t : S) (stamps : Stamps)
      → store.all r ≡ ok []
      → play cs new_ledger r ≡ ok (l, s)
      → flush sha256 store l s ≡ (m, t, none)
      → ((n : DurableLedger) × (hydrate sha256 store stamps s ≡ ok n))
        × ((n : DurableLedger) × (hydrate sha256 store stamps t ≡ ok n)
            × (map stripped n.events ≡ map stripped l.events)
            × (n.pending ≡ []))
  flush-hydrate cs l m r s t stamps empty played flushed =
      let before = play-Kept cs new_ledger l r s (new-Kept r empty) played in
      let after = flush-Kept l m s t before flushed in
      let early = hydrate-Started stamps l s before in
      let late = hydrate-Started stamps m t after in
      let (events, pending) = flush_parts l m s t flushed in
      let whole : after.stored ++ m.pending ≡ after.stored =
        ap (λ (xs : List LedgerEvent). after.stored ++ xs) pending ∙ append-nil after.stored in
      (
        (early.ledger, early.returns),
        (
          late.ledger,
          late.returns,
          late.same ∙ sym (ap (map stripped) whole) ∙ sym after.same ∙ ap (map stripped) events,
          late.idle,
        ),
      )

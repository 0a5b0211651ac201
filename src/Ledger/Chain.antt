-- ===== src/Ledger/Chain.antt =====
-- What `verifyChain` promises of a ledger.
use chat_ai.Base.{
  ℕ, suc, String, true, List, [], ◌∷◌, ◌++◌, Option, none, some, ◌≡◌, refl, sym, ◌∙◌, arith, eq_iff,
  eq_refl, map, ◌≢◌, ◌⊎◌, inl, inr, Bool-cases, str_eq,
}
use text.Mathlib.TextLemmas.{append_cancel_right}
use chat_ai.Ledger.{
  canonicalize, Draft, LedgerEvent, valid, hashed_text, same_prev, event_hash, verify_from,
  verify_chain, last_hash, append,
}

same_prev_refl : (o : Option String) → same_prev o o ≡ true
unfolding same_prev
same_prev_refl none = refl
same_prev_refl (some s) = eq_refl s

same_prev_eq : (a b : Option String) → same_prev a b ≡ true → a ≡ b
unfolding same_prev
same_prev_eq none none h = refl
same_prev_eq none (some b) h = ground arith
same_prev_eq (some a) none h = ground arith
same_prev_eq (some a) (some b) h = ground (arith, eq_iff a b)

-- The canonical text of an event's payload.
abbrev pub payload_text : LedgerEvent → String
payload_text ev = canonicalize ev.draft.payload

module _ (sha256 : String → String) where
  -- An event fits behind a hash.
  abbrev pub Fits : Option String → LedgerEvent → Type 0
  Fits prev ev = (ev.hash ≡ event_hash sha256 ev.draft.payload prev) × (ev.prev_hash ≡ prev)

  pub valid-head :
      (i : ℕ) (prev : Option String) (ev : LedgerEvent) (events : List LedgerEvent)
      → verify_from sha256 i prev (ev ∷ events) ≡ valid
      → Fits prev ev × (verify_from sha256 (suc i) (some ev.hash) events ≡ valid)
  unfolding verify_from
  valid-head i prev ev events h = ground (
    arith,
    eq_iff ev.hash (event_hash sha256 ev.draft.payload prev),
    same_prev_eq ev.prev_hash prev,
  )

  pub valid-cons :
      (i : ℕ) (prev : Option String) (ev : LedgerEvent) (events : List LedgerEvent)
      → Fits prev ev
      → verify_from sha256 (suc i) (some ev.hash) events ≡ valid
      → verify_from sha256 i prev (ev ∷ events) ≡ valid
  unfolding verify_from
  valid-cons i prev ev events f h =
      rw (f.0, eq_refl (event_hash sha256 ev.draft.payload prev), f.1, same_prev_refl prev)
        (rw (← f.0) h)

  pub empty_valid : (i : ℕ) (prev : Option String) → verify_from sha256 i prev [] ≡ valid
  unfolding verify_from
  empty_valid i prev = refl

  valid-append :
      (i : ℕ) (prev : Option String) (events : List LedgerEvent) (ev : LedgerEvent)
      → verify_from sha256 i prev events ≡ valid
      → Fits (last_hash sha256 prev events) ev
      → verify_from sha256 i prev (events ++ ev ∷ []) ≡ valid
  unfolding last_hash
  valid-append i prev [] ev h f = valid-cons i prev ev [] f (empty_valid (suc i) (some ev.hash))
  valid-append i prev (e ∷ events) ev h f =
      let (fits, rest) = valid-head i prev e events h in
      valid-cons i prev e (events ++ ev ∷ []) fits
        (valid-append (suc i) (some e.hash) events ev rest f)

  -- What comes first in an acceptable chain is acceptable.
  pub valid-prefix :
      (i : ℕ) (prev : Option String) (events more : List LedgerEvent)
      → verify_from sha256 i prev (events ++ more) ≡ valid
      → verify_from sha256 i prev events ≡ valid
  valid-prefix i prev [] more h = empty_valid i prev
  valid-prefix i prev (ev ∷ events) more h =
      let (fits, rest) = valid-head i prev ev (events ++ more) h in
      valid-cons i prev ev events fits (valid-prefix (suc i) (some ev.hash) events more rest)

  pub last_hash-append :
      (prev : Option String) (events more : List LedgerEvent)
      → last_hash sha256 prev (events ++ more)
        ≡ last_hash sha256 (last_hash sha256 prev events) more
  unfolding last_hash
  last_hash-append prev [] more = refl
  last_hash-append prev (ev ∷ events) more = last_hash-append (some ev.hash) events more

  -- `append` keeps a ledger that `verifyChain` accepts acceptable.
  pub append-valid :
      (id timestamp : String) (draft : Draft) (events : List LedgerEvent)
      → verify_chain sha256 events ≡ valid
      → verify_chain sha256 (append sha256 id timestamp draft events).1 ≡ valid
  unfolding verify_chain append
  append-valid id timestamp draft events h = valid-append 0 none events _ h (refl, refl)

  unfoldable pub hashes : List LedgerEvent → List String
  hashes [] = []
  hashes (ev ∷ events) = ev.hash ∷ hashes events

  -- At one place of two chains, two different texts have been hashed, and have one digest.
  unfoldable pub Collides : Option String → List LedgerEvent → List LedgerEvent → Type 0
  Collides prev [] others = ⊥
  Collides prev (e ∷ es) [] = ⊥
  Collides prev (e ∷ es) (o ∷ os) =
      ((hashed_text e.draft.payload prev ≢ hashed_text o.draft.payload prev)
        × (sha256 (hashed_text e.draft.payload prev) ≡ sha256 (hashed_text o.draft.payload prev)))
      ⊎ Collides (some e.hash) es os

  -- The events at one place of two chains, behind the same hash.
  same_head :
      (prev : Option String) (ev other : LedgerEvent)
      → Fits prev ev
      → Fits prev other
      → ev.hash ≡ other.hash
      → (payload_text ev ≡ payload_text other)
        ⊎ ((hashed_text ev.draft.payload prev ≢ hashed_text other.draft.payload prev)
            × (sha256 (hashed_text ev.draft.payload prev)
                ≡ sha256 (hashed_text other.draft.payload prev)))
  unfolding event_hash hashed_text
  same_head prev ev other f g same =
      let a = hashed_text ev.draft.payload prev in
      let b = hashed_text other.draft.payload prev in
      elim (Bool-cases (str_eq a b)) [
        | inl agree ↦ inl (append_cancel_right _ _ _ ((eq_iff a b).0 agree))
        | inr differ ↦ inr ((λ e. ground (arith, differ, e, eq_iff a b)), sym f.0 ∙ same ∙ g.0)
      ]

  same_payloads-from :
      (i : ℕ) (prev : Option String) (events others : List LedgerEvent)
      → verify_from sha256 i prev events ≡ valid
      → verify_from sha256 i prev others ≡ valid
      → hashes events ≡ hashes others
      → (map payload_text events ≡ map payload_text others) ⊎ Collides prev events others
  unfolding hashes Collides
  same_payloads-from i prev [] [] v w same = inl refl
  same_payloads-from i prev [] (o ∷ os) v w same = ground (arith, same)
  same_payloads-from i prev (e ∷ es) [] v w same = ground (arith, same)
  same_payloads-from i prev (e ∷ es) (o ∷ os) v w same =
      let (fits, later) = valid-head i prev e es v in
      let (suits, after) = valid-head i prev o os w in
      let heads : e.hash ≡ o.hash = ground (arith, same) in
      let tails : hashes es ≡ hashes os = ground (arith, same) in
      elim (same_head prev e o fits suits heads) [
        | inr clash ↦ inr (inl clash)
        | inl text ↦
            elim (same_payloads-from (suc i) (some e.hash) es os later (rw heads after) tails) [
              | inr clash ↦ inr (inr clash)
              | inl rest ↦ inl (λ i. text i ∷ rest i)
            ]
      ]

  -- Two ledgers that `verifyChain` accepts and that have the same hashes have the same canonical
  -- payloads, event for event, unless at some place the digest gives one result for the two
  -- different texts that have been hashed there.
  pub same_hashes-payloads :
      (events others : List LedgerEvent)
      → verify_chain sha256 events ≡ valid
      → verify_chain sha256 others ≡ valid
      → hashes events ≡ hashes others
      → (map payload_text events ≡ map payload_text others) ⊎ Collides none events others
  unfolding verify_chain
  same_hashes-payloads events others v w same = same_payloads-from 0 none events others v w same

  relabelled-from :
      (g : LedgerEvent → LedgerEvent) (i : ℕ) (prev : Option String) (events : List LedgerEvent)
      → ((ev : LedgerEvent) → (g ev).draft.payload ≡ ev.draft.payload)
      → ((ev : LedgerEvent) → (g ev).prev_hash ≡ ev.prev_hash)
      → ((ev : LedgerEvent) → (g ev).hash ≡ ev.hash)
      → verify_from sha256 i prev (map g events) ≡ verify_from sha256 i prev events
  unfolding verify_from
  relabelled-from g i prev [] p q r = refl
  relabelled-from g i prev (ev ∷ events) p q r =
      rw (p ev, q ev, r ev, relabelled-from g (suc i) (some ev.hash) events p q r) refl

  -- `verifyChain` reads the payloads and the hashes only: events whose actor, type, task, run, id,
  -- number, time or evidence is rewritten verify as before.
  pub relabelled-verify_chain :
      (g : LedgerEvent → LedgerEvent) (events : List LedgerEvent)
      → ((ev : LedgerEvent) → (g ev).draft.payload ≡ ev.draft.payload)
      → ((ev : LedgerEvent) → (g ev).prev_hash ≡ ev.prev_hash)
      → ((ev : LedgerEvent) → (g ev).hash ≡ ev.hash)
      → verify_chain sha256 (map g events) ≡ verify_chain sha256 events
  unfolding verify_chain
  relabelled-verify_chain g events p q r = relabelled-from g 0 none events p q r

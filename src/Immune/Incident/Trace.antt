-- ===== src/Immune/Incident/Trace.antt =====
-- Every incident has one timeline entry, and one event of the ledger, for each phase.
use chat_ai.Base.{
  map, map-append, ◌<>◌, sym, ap, ◌∙◌, String, List, [], ◌∷◌, ◌++◌, Option, none, some, ◌≡◌, refl,
  All, All-append, length,
}
use chat_ai.Base.Maps.{get}
use chat_ai.Orchestrator.Json.{Fields}
use chat_ai.Ledger
use chat_ai.Ledger.{LedgerEvent, Draft}
use chat_ai.Immune.Incident.{
  IncidentState, detected, classified, contained, recovering, verified, closed, IncidentRecord,
  IncidentEngine, Stamp, phase_draft, record_phase,
}

-- The phases that lead to a state, in their order.
unfoldable pub phases_to : IncidentState → List String
phases_to detected = "detected" ∷ []
phases_to classified = "detected" ∷ "classify" ∷ []
phases_to contained = "detected" ∷ "classify" ∷ "contain" ∷ []
phases_to recovering = "detected" ∷ "classify" ∷ "contain" ∷ "recover" ∷ []
phases_to verified = "detected" ∷ "classify" ∷ "contain" ∷ "recover" ∷ "verify" ∷ []
phases_to closed = "detected" ∷ "classify" ∷ "contain" ∷ "recover" ∷ "verify" ∷ "close" ∷ []

-- Some of the events of a ledger, each taken once and in their order; both grow at the end.
pub data Sublist : List LedgerEvent → List LedgerEvent → Type 0 where
  none_taken : (ys : List LedgerEvent) → Sublist [] ys
  left_out :
      {xs ys : List LedgerEvent} (y : LedgerEvent) → Sublist xs ys → Sublist xs (ys ++ y ∷ [])
  taken :
      {xs ys : List LedgerEvent} (y : LedgerEvent)
      → Sublist xs ys
      → Sublist (xs ++ y ∷ []) (ys ++ y ∷ [])

-- The ledger has one event for each phase, in this order: of the incident's run, of the phase's
-- type, and with the incident's hashes.
pub record Told (events : List LedgerEvent) (id : String) (hashes phases : List String)
    : Type 0 where
  pub told : List LedgerEvent
  pub among : Sublist told events
  pub same_hashes : map (λ (ev : LedgerEvent). ev.hash) told ≡ hashes
  pub same_kinds :
      map (λ (ev : LedgerEvent). ev.draft.kind) told
      ≡ map (λ (phase : String). "immune.incident." <> phase) phases
  pub same_run : All (λ (ev : LedgerEvent). ev.draft.run_id ≡ id) told

abbrev pub Evidence : Option (List LedgerEvent) → String → List String → List String → Type 0
Evidence none id hashes phases = ◌≡◌ {A = List String} hashes []
Evidence (some events) id hashes phases = Told events id hashes phases

pub record IsTraced (ledger : Option (List LedgerEvent)) (id : String) (r : IncidentRecord)
    : Type 0 where
  pub same_id : r.id ≡ id
  pub entries : length r.timeline ≡ length (phases_to r.state)
  pub evidence : Evidence ledger r.id r.evidence_hashes (phases_to r.state)

unfoldable pub AllTraced : IncidentEngine → Type 0
AllTraced e =
    (id : String) (r : IncidentRecord) → get id e.incidents ≡ some r → IsTraced e.ledger id r

Told-more :
    (events : List LedgerEvent) (ev : LedgerEvent) (id : String) (hashes phases : List String)
    → Told events id hashes phases
    → Told (events ++ ev ∷ []) id hashes phases
Told-more events ev id hashes phases h = record {
  told = h.told;
  among = left_out ev h.among;
  same_hashes = h.same_hashes;
  same_kinds = h.same_kinds;
  same_run = h.same_run;
}

Told-next :
    (events : List LedgerEvent) (ev : LedgerEvent) (phase : String) (hashes phases : List String)
    → ev.draft.kind ≡ "immune.incident." <> phase
    → Told events ev.draft.run_id hashes phases
    → Told (events ++ ev ∷ []) ev.draft.run_id (hashes ++ ev.hash ∷ []) (phases ++ phase ∷ [])
Told-next events ev phase hashes phases kind h = record {
  told = h.told ++ ev ∷ [];
  among = taken ev h.among;
  same_hashes =
      map-append (λ (e : LedgerEvent). e.hash) h.told (ev ∷ [])
      ∙ ap (λ (hs : List String). hs ++ ev.hash ∷ []) h.same_hashes;
  same_kinds =
      map-append (λ (e : LedgerEvent). e.draft.kind) h.told (ev ∷ [])
      ∙ ap (λ (ks : List String). ks ++ ev.draft.kind ∷ []) h.same_kinds
      ∙ ap (λ (k : String). map (λ (p : String). "immune.incident." <> p) phases ++ k ∷ []) kind
      ∙ sym (map-append (λ (p : String). "immune.incident." <> p) phases (phase ∷ []));
  same_run = All-append _ h.told (ev ∷ []) h.same_run (refl, tt);
}

module _ (sha256 : String → String) where
  -- A ledger after an append, where there is a ledger.
  unfoldable pub more_ledger :
      String → String → Draft → Option (List LedgerEvent) → Option (List LedgerEvent)
  more_ledger id timestamp draft none = none
  more_ledger id timestamp draft (some events) =
      some (Ledger.append sha256 id timestamp draft events).1

  pub Evidence-more :
      (id timestamp : String) (draft : Draft) (ledger : Option (List LedgerEvent)) (who : String)
      (hashes phases : List String)
      → Evidence ledger who hashes phases
      → Evidence (more_ledger id timestamp draft ledger) who hashes phases
  unfolding more_ledger Ledger.append
  Evidence-more id timestamp draft none who hashes phases h = h
  Evidence-more id timestamp draft (some events) who hashes phases h =
      Told-more events _ who hashes phases h

  pub record_phase-ledger :
      (stamp : Stamp) (r : IncidentRecord) (phase : String) (payload : Fields)
      (ledger : Option (List LedgerEvent))
      → (record_phase sha256 stamp r phase payload ledger).1
        ≡ more_ledger stamp.event_id stamp.event_time (phase_draft r phase payload) ledger
  unfolding record_phase more_ledger
  record_phase-ledger stamp r phase payload none = refl
  record_phase-ledger stamp r phase payload (some events) = refl

  pub record_phase-IsTraced :
      (stamp : Stamp) (r : IncidentRecord) (phase : String) (payload : Fields)
      (ledger : Option (List LedgerEvent)) (before : List String)
      → length r.timeline ≡ length (phases_to r.state)
      → phases_to r.state ≡ before ++ phase ∷ []
      → Evidence ledger r.id r.evidence_hashes before
      → IsTraced
          (record_phase sha256 stamp r phase payload ledger).1
          r.id
          (record_phase sha256 stamp r phase payload ledger).0
  unfolding record_phase phase_draft Ledger.append
  record_phase-IsTraced stamp r phase payload none before size grown h = record {
    same_id = refl;
    entries = size;
    evidence = h;
  }
  record_phase-IsTraced stamp r phase payload (some events) before size grown h = record {
    same_id = refl;
    entries = size;
    evidence = rw grown (Told-next events _ phase r.evidence_hashes before refl h);
  }

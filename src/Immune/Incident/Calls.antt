-- ===== src/Immune/Incident/Calls.antt =====
-- The incident engine under any calls, with other events put into its ledger in between.
use chat_ai.Base.{
  ◌++◌, ap, String, List, [], ◌∷◌, Option, none, some, Result, ok, err, ◌<>◌, ◌≡◌, refl, sym, ◌∙◌,
  subst, arith, inl, inr, str_eq, eq_iff, length, length-append, Bool-cases, Result-cases,
  Option-cases, ok_injective, returns_bind,
}
use chat_ai.Base.Maps.{Map, get, set, get-set}
use chat_ai.Transition.{transition, IllegalTransition}
use chat_ai.Orchestrator.Json.{Fields}
use chat_ai.Ledger.{LedgerEvent, Draft}
use chat_ai.Immune.Types.{RiskSeverity}
use chat_ai.Immune.Incident.{
  IncidentState, IncidentEvent, classify, incident_machine, IncidentRecord, IncidentEngine,
  IncidentError, unknown_incident, illegal, Stamp, phase_draft, record_phase, put_phase,
  new_incident, detection_fields, moved_incident, note_fields, event_name, severity_name, detect,
  step_to, step_at, step, with_severity, classify_incident,
}
use chat_ai.Immune.Incident.Trace.{
  phases_to, none_taken, Evidence, IsTraced, AllTraced, more_ledger, Evidence-more,
  record_phase-ledger, record_phase-IsTraced,
}

transition-phases :
    (from to : IncidentState) (event : IncidentEvent)
    → transition incident_machine from event ≡ ok to
    → phases_to to ≡ phases_to from ++ event_name event ∷ []
unfolding transition incident_machine phases_to event_name
transition-phases from to event h = ground arith

-- A call of the engine, or an event that something else puts into its ledger.
pub data IncidentCall : Type 0 where
  detecting : Stamp → String → String → RiskSeverity → List String → IncidentCall
  classifying : Stamp → String → RiskSeverity → IncidentCall
  moving : Stamp → String → IncidentEvent → String → IncidentCall
  elsewhere : String → String → Draft → IncidentCall

module _ (sha256 : String → String) where
  -- The engine after a call: one that throws has changed nothing.
  unfoldable pub engine_after :
      IncidentEngine → Result IncidentError (IncidentRecord × IncidentEngine) → IncidentEngine
  engine_after e (ok (r, f)) = f
  engine_after e (err why) = e

  unfoldable pub call : IncidentCall → IncidentEngine → IncidentEngine
  unfolding engine_after
  call (detecting stamp id title severity detections) e =
      (detect sha256 stamp id title severity detections e).1
  call (classifying stamp id severity) e =
      engine_after e (classify_incident sha256 stamp id severity e)
  call (moving stamp id event text) e = engine_after e (step sha256 stamp id event text e)
  call (elsewhere id timestamp draft) e = record {
    incidents = e.incidents;
    ledger = more_ledger sha256 id timestamp draft e.ledger;
  }

  unfoldable pub calls : List IncidentCall → IncidentEngine → IncidentEngine
  calls [] e = e
  calls (c ∷ cs) e = calls cs (call c e)

  IsTraced-more :
      (id timestamp : String) (draft : Draft) (ledger : Option (List LedgerEvent)) (who : String)
      (r : IncidentRecord)
      → IsTraced ledger who r
      → IsTraced (more_ledger sha256 id timestamp draft ledger) who r
  IsTraced-more id timestamp draft ledger who r h = record {
    same_id = h.same_id;
    entries = h.entries;
    evidence =
        Evidence-more sha256 id timestamp draft ledger r.id r.evidence_hashes (phases_to r.state)
          h.evidence;
  }

  put-AllTraced :
      (incidents : Map IncidentRecord) (ledger : Option (List LedgerEvent)) (key : String)
      (r : IncidentRecord)
      → AllTraced (record { incidents = incidents; ledger = ledger })
      → IsTraced ledger key r
      → AllTraced (record { incidents = set key r incidents; ledger = ledger })
  unfolding AllTraced
  put-AllTraced incidents ledger key r all new id q h = elim (Bool-cases (str_eq key id)) [
    | inl same ↦
        let found : some r ≡ some q = sym (rw (get-set key id r incidents, same) refl) ∙ h in
        let record_same : r ≡ q = ground (arith, found) in
        subst (λ x. IsTraced ledger x q) ((eq_iff key id).0 same)
          (subst (IsTraced ledger key) record_same new)
    | inr other ↦ all id q (sym (rw (get-set key id r incidents, other) refl) ∙ h)
  ]

  more-AllTraced :
      (id timestamp : String) (draft : Draft) (e : IncidentEngine)
      → AllTraced e
      → AllTraced (record {
        incidents = e.incidents;
        ledger = more_ledger sha256 id timestamp draft e.ledger;
      })
  unfolding AllTraced
  more-AllTraced id timestamp draft e all key r h =
      IsTraced-more id timestamp draft e.ledger key r (all key r h)

  put_phase-AllTraced :
      (stamp : Stamp) (r : IncidentRecord) (phase : String) (payload : Fields) (e : IncidentEngine)
      (before : List String)
      → AllTraced e
      → length r.timeline ≡ length (phases_to r.state)
      → phases_to r.state ≡ before ++ phase ∷ []
      → Evidence e.ledger r.id r.evidence_hashes before
      → AllTraced (put_phase sha256 stamp r phase payload e).1
        × IsTraced
            (put_phase sha256 stamp r phase payload e).1.ledger
            r.id
            (put_phase sha256 stamp r phase payload e).0
  unfolding put_phase
  put_phase-AllTraced stamp r phase payload e before all size grown_by h =
      let traced =
        record_phase-IsTraced sha256 stamp r phase payload e.ledger before size grown_by h in
      let grown : AllTraced (record {
        incidents = e.incidents;
        ledger = (record_phase sha256 stamp r phase payload e.ledger).1;
      }) =
        rw (record_phase-ledger sha256 stamp r phase payload e.ledger)
          (more-AllTraced stamp.event_id stamp.event_time (phase_draft r phase payload) e all) in
      (put-AllTraced e.incidents _ r.id _ grown traced, traced)

  Evidence-none : (ledger : Option (List LedgerEvent)) (id : String) → Evidence ledger id [] []
  Evidence-none none id = refl
  Evidence-none (some events) id = record {
    told = [];
    among = none_taken events;
    same_hashes = refl;
    same_kinds = refl;
    same_run = tt;
  }

  detect-AllTraced :
      (stamp : Stamp) (id title : String) (severity : RiskSeverity) (detections : List String)
      (e : IncidentEngine)
      → AllTraced e
      → AllTraced (detect sha256 stamp id title severity detections e).1
  unfolding detect phases_to new_incident
  detect-AllTraced stamp id title severity detections e all =
      (put_phase-AllTraced stamp (new_incident stamp id title severity detections) "detected"
        (detection_fields title severity detections) e [] all refl refl
        (Evidence-none e.ledger id)).0

  -- What a step that returns leaves.
  abbrev Stepped : String → IncidentRecord × IncidentEngine → Type 0
  Stepped id out = AllTraced out.1 × IsTraced out.1.ledger id out.0

  module _ (stamp : Stamp) (id : String) (event : IncidentEvent) (text : String)
      (e : IncidentEngine) where
    unknown_step :
        get id e.incidents ≡ none → step sha256 stamp id event text e ≡ err (unknown_incident id)
    unfolding step step_at
    unknown_step missing = rw (missing, step, step_at) refl

    illegal_step :
        (r : IncidentRecord) (why : IllegalTransition IncidentState IncidentEvent)
        → get id e.incidents ≡ some r
        → transition incident_machine r.state event ≡ err why
        → step sha256 stamp id event text e ≡ err (illegal why)
    unfolding step step_at step_to
    illegal_step r why found bad = rw (found, step, step_at, bad, step_to) refl

    pub legal_step :
        (r : IncidentRecord) (state : IncidentState)
        → get id e.incidents ≡ some r
        → transition incident_machine r.state event ≡ ok state
        → step sha256 stamp id event text e
          ≡ ok (
              put_phase sha256 stamp
                (moved_incident stamp r state text)
                (event_name event)
                (note_fields text)
                e)
    unfolding step step_at step_to
    legal_step r state found good = rw (found, step, step_at, good, step_to) refl

  step-AllTraced :
      (stamp : Stamp) (id : String) (event : IncidentEvent) (text : String) (e : IncidentEngine)
      (out : IncidentRecord × IncidentEngine)
      → AllTraced e
      → step sha256 stamp id event text e ≡ ok out
      → Stepped id out
  unfolding AllTraced moved_incident
  step-AllTraced stamp id event text e out all h = elim (Option-cases (get id e.incidents)) [
    | inl missing ↦ ground (arith, sym (unknown_step stamp id event text e missing) ∙ h)
    | inr (r, found) ↦ elim (Result-cases (transition incident_machine r.state event)) [
      | inr (why, bad) ↦
          ground (arith, sym (illegal_step stamp id event text e r why found bad) ∙ h)
      | inl (state, good) ↦
          let traced = all id r found in
          let next = moved_incident stamp r state text in
          let made : put_phase sha256 stamp next (event_name event) (note_fields text) e ≡ out =
            ok_injective _ _ (sym (legal_step stamp id event text e r state found good) ∙ h) in
          subst (Stepped id) made (
            subst
              (λ x. Stepped x (put_phase sha256 stamp next (event_name event) (note_fields text) e))
              traced.same_id
              (put_phase-AllTraced stamp next (event_name event) (note_fields text) e
                (phases_to r.state) all
                (omega (
                  arith,
                  length-append r.timeline (_ ∷ []),
                  length-append (phases_to r.state) (event_name event ∷ []),
                  traced.entries,
                  ap length (transition-phases r.state state event good),
                ))
                (transition-phases r.state state event good) traced.evidence))
    ]
  ]

  classify-AllTraced :
      (stamp : Stamp) (id : String) (severity : RiskSeverity) (e : IncidentEngine)
      (out : IncidentRecord × IncidentEngine)
      → AllTraced e
      → classify_incident sha256 stamp id severity e ≡ ok out
      → AllTraced out.1
  unfolding classify_incident with_severity
  classify-AllTraced stamp id severity e out all h =
      let text : String = "classified as " <> severity_name severity in
      let (p, stepped, made) = returns_bind (step sha256 stamp id classify text e) _ out h in
      let (more, traced) = step-AllTraced stamp id classify text e p all stepped in
      let same : with_severity id severity p ≡ out = ok_injective _ _ made in
      subst (λ (o : IncidentRecord × IncidentEngine). AllTraced o.1) same
        (put-AllTraced p.1.incidents p.1.ledger id (record (p.0) { severity = severity }) more
          (record {
            same_id = traced.same_id;
            entries = traced.entries;
            evidence = traced.evidence;
          }))

  after-AllTraced :
      (e : IncidentEngine) (r : Result IncidentError (IncidentRecord × IncidentEngine))
      → AllTraced e
      → ((out : IncidentRecord × IncidentEngine) → r ≡ ok out → AllTraced out.1)
      → AllTraced (engine_after e r)
  unfolding engine_after
  after-AllTraced e (ok (r, f)) all h = h (r, f) refl
  after-AllTraced e (err why) all h = all

  call-AllTraced : (c : IncidentCall) (e : IncidentEngine) → AllTraced e → AllTraced (call c e)
  unfolding call
  call-AllTraced (detecting stamp id title severity detections) e all =
      detect-AllTraced stamp id title severity detections e all
  call-AllTraced (classifying stamp id severity) e all =
      after-AllTraced e (classify_incident sha256 stamp id severity e) all
        (λ out h. classify-AllTraced stamp id severity e out all h)
  call-AllTraced (moving stamp id event text) e all =
      after-AllTraced e (step sha256 stamp id event text e) all
        (λ out h. (step-AllTraced stamp id event text e out all h).0)
  call-AllTraced (elsewhere id timestamp draft) e all = more-AllTraced id timestamp draft e all

  calls-keep : (cs : List IncidentCall) (e : IncidentEngine) → AllTraced e → AllTraced (calls cs e)
  unfolding calls
  calls-keep [] e all = all
  calls-keep (c ∷ cs) e all = calls-keep cs (call c e) (call-AllTraced c e all)

  new-AllTraced :
      (ledger : Option (List LedgerEvent)) → AllTraced (record { incidents = []; ledger = ledger })
  unfolding AllTraced get
  new-AllTraced ledger id r h = ground (arith, h)

  -- After any calls of a new engine, whatever else is put into its ledger in between, each incident
  -- has one timeline entry for each phase that leads to its state. Where there is a ledger, it has
  -- one event for each of these phases, in their order and each a different one, whose type is the
  -- phase's and whose run is the incident, and the hashes of evidence are those of these events.
  pub calls-AllTraced :
      (cs : List IncidentCall) (ledger : Option (List LedgerEvent))
      → AllTraced (calls cs (record { incidents = []; ledger = ledger }))
  calls-AllTraced cs ledger = calls-keep cs _ (new-AllTraced ledger)

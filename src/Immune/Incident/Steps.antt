-- ===== src/Immune/Incident/Steps.antt =====
-- Where the steps of an incident lead.
use chat_ai.Base.{
  String, List, Option, none, some, Result, ok, ◌<>◌, ◌≡◌, refl, ◌∙◌, subst, arith, eq_refl,
}
use chat_ai.Base.Maps.{get, get-set}
use chat_ai.Transition.{transition}
use chat_ai.Orchestrator.Json.{Fields}
use chat_ai.Ledger.{LedgerEvent}
use chat_ai.Immune.Types.{RiskSeverity}
use chat_ai.Immune.Incident.{
  IncidentState, detected, classified, contained, IncidentEvent, classify, contain,
  incident_machine, IncidentRecord, IncidentEngine, IncidentError, Stamp, severity_name, event_name,
  new_incident, detection_fields, moved_incident, note_fields, record_phase, put_phase, detect,
  step, with_severity, classify_incident, contain_incident,
}
use chat_ai.Immune.Incident.Calls.{legal_step}

first_move : transition incident_machine detected classify ≡ ok classified
unfolding transition incident_machine
first_move = refl

second_move : transition incident_machine classified contain ≡ ok contained
unfolding transition incident_machine
second_move = refl

module _ (sha256 : String → String) where
  record_phase_keeps :
      (stamp : Stamp) (r : IncidentRecord) (phase : String) (payload : Fields)
      (ledger : Option (List LedgerEvent))
      → ((record_phase sha256 stamp r phase payload ledger).0.state ≡ r.state)
        × ((record_phase sha256 stamp r phase payload ledger).0.id ≡ r.id)
  unfolding record_phase
  record_phase_keeps stamp r phase payload none = (refl, refl)
  record_phase_keeps stamp r phase payload (some events) = (refl, refl)

  put_phase_keeps :
      (stamp : Stamp) (r : IncidentRecord) (phase : String) (payload : Fields) (e : IncidentEngine)
      → ((put_phase sha256 stamp r phase payload e).0.state ≡ r.state)
        × ((put_phase sha256 stamp r phase payload e).0.id ≡ r.id)
  unfolding put_phase
  put_phase_keeps stamp r phase payload e = record_phase_keeps stamp r phase payload e.ledger

  -- An engine has an incident in a state.
  pub record Reached (id : String) (state : IncidentState) (e : IncidentEngine) : Type 0 where
    pub incident : IncidentRecord
    pub found : get id e.incidents ≡ some incident
    pub same_state : incident.state ≡ state
    pub same_id : incident.id ≡ id

  put_phase-Reached :
      (stamp : Stamp) (r : IncidentRecord) (phase : String) (payload : Fields) (e : IncidentEngine)
      → Reached r.id r.state (put_phase sha256 stamp r phase payload e).1
  unfolding put_phase
  put_phase-Reached stamp r phase payload e =
      let (states, ids) = record_phase_keeps stamp r phase payload e.ledger in
      record {
        incident = (record_phase sha256 stamp r phase payload e.ledger).0;
        found = get-set r.id r.id _ e.incidents ∙ ground (arith, eq_refl r.id);
        same_state = states;
        same_id = ids;
      }

  pub detect-Reached :
      (stamp : Stamp) (id title : String) (severity : RiskSeverity) (detections : List String)
      (e : IncidentEngine)
      → Reached id detected (detect sha256 stamp id title severity detections e).1
  unfolding detect new_incident
  detect-Reached stamp id title severity detections e =
      put_phase-Reached stamp (new_incident stamp id title severity detections) "detected"
        (detection_fields title severity detections) e

  -- A step that returned, and where it led.
  pub record Moved (id : String) (state : IncidentState)
      (answer : Result IncidentError (IncidentRecord × IncidentEngine)) : Type 0 where
    pub out : IncidentRecord × IncidentEngine
    pub returns : answer ≡ ok out
    pub reached : Reached id state out.1
    pub own_id : out.0.id ≡ id
    pub own_state : out.0.state ≡ state

  step-Moved :
      (stamp : Stamp) (id : String) (event : IncidentEvent) (text : String) (e : IncidentEngine)
      (from to : IncidentState)
      → Reached id from e
      → transition incident_machine from event ≡ ok to
      → Moved id to (step sha256 stamp id event text e)
  unfolding moved_incident
  step-Moved stamp id event text e from to h move =
      let next = moved_incident stamp h.incident to text in
      let out = put_phase sha256 stamp next (event_name event) (note_fields text) e in
      let legal =
        legal_step sha256 stamp id event text e h.incident to h.found (rw h.same_state move) in
      let there = put_phase-Reached stamp next (event_name event) (note_fields text) e in
      let (states, ids) = put_phase_keeps stamp next (event_name event) (note_fields text) e in
      record {
        out = out;
        returns = legal;
        reached = subst (λ i. Reached i to out.1) h.same_id there;
        own_id = ids ∙ h.same_id;
        own_state = states;
      }

  pub classify-Moved :
      (stamp : Stamp) (id : String) (severity : RiskSeverity) (e : IncidentEngine)
      → Reached id detected e
      → Moved id classified (classify_incident sha256 stamp id severity e)
  unfolding classify_incident with_severity
  classify-Moved stamp id severity e h =
      let text : String = "classified as " <> severity_name severity in
      let moved = step-Moved stamp id classify text e detected classified h first_move in
      let next : IncidentRecord = record (moved.out.0) { severity = severity } in
      record {
        out = with_severity id severity moved.out;
        returns = rw moved.returns refl;
        reached = record {
          incident = next;
          found = get-set id id next moved.out.1.incidents ∙ ground (arith, eq_refl id);
          same_state = moved.own_state;
          same_id = moved.own_id;
        };
        own_id = moved.own_id;
        own_state = moved.own_state;
      }

  pub contain-Moved :
      (stamp : Stamp) (id text : String) (e : IncidentEngine)
      → Reached id classified e
      → Moved id contained (contain_incident sha256 stamp id text e)
  unfolding contain_incident
  contain-Moved stamp id text e h =
      step-Moved stamp id contain text e classified contained h second_move

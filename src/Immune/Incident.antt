-- ===== src/Immune/Incident.antt =====
-- kernel/immune/src/incident.ts: incidents, and the ledger that each of their phases is put into.
-- Ids and times are given. A ledger is shared with the rest of the program: it is passed in and out.
pub mod Trace
pub mod Calls
pub mod Steps
use chat_ai.Base.{
  ℕ, suc, String, List, [], ◌∷◌, ◌++◌, Option, none, some, Result, ok, err, ◌<>◌, ◌>>=◌,
}
use chat_ai.Base.Maps
use chat_ai.Base.Maps.{Map}
use chat_ai.Transition
use chat_ai.Transition.{StateMachine, IllegalTransition}
use chat_ai.Orchestrator.Json.{Json, str, arr, obj, Items, nil, cons, Fields, end, field}
use chat_ai.Ledger
use chat_ai.Ledger.{ActorType, LedgerEvent, Draft}
use chat_ai.Immune.Types.{RiskSeverity, low, medium, high, critical}

-- `IncidentState`.
pub data IncidentState : Type 0 where
  detected classified contained recovering verified closed : IncidentState

-- The events of `INCIDENT_MACHINE`.
pub data IncidentEvent : Type 0 where
  classify contain recover verify close : IncidentEvent

-- `INCIDENT_MACHINE`.
unfoldable pub incident_machine : StateMachine IncidentState IncidentEvent
incident_machine = record {
  transitions = λ from event. elim from [
    | detected ↦ elim event [ classify ↦ some classified | _ ↦ none ]
    | classified ↦ elim event [ contain ↦ some contained | _ ↦ none ]
    | contained ↦ elim event [ recover ↦ some recovering | _ ↦ none ]
    | recovering ↦ elim event [ verify ↦ some verified | _ ↦ none ]
    | verified ↦ elim event [ close ↦ some closed | _ ↦ none ]
    | closed ↦ none
  ];
}

-- An entry of `timeline`.
pub record TimelineEntry : Type 0 where
  pub at : String
  pub text : String

-- `IncidentRecord`.
pub record IncidentRecord : Type 0 where
  pub id : String
  pub state : IncidentState
  pub severity : RiskSeverity
  pub title : String
  pub detections : List String
  pub evidence_hashes : List String
  pub timeline : List TimelineEntry

-- The fields of `IncidentEngine`.
pub record IncidentEngine : Type 0 where
  pub incidents : Map IncidentRecord
  pub ledger : Option (List LedgerEvent)

pub data IncidentError : Type 0 where
  unknown_incident : String → IncidentError
  illegal : IllegalTransition IncidentState IncidentEvent → IncidentError

-- The times and the ids of one call.
pub record Stamp : Type 0 where
  pub now : String
  pub event_id : String
  pub event_time : String

unfoldable pub severity_name : RiskSeverity → String
severity_name low = "low"
severity_name medium = "medium"
severity_name high = "high"
severity_name critical = "critical"

unfoldable pub event_name : IncidentEvent → String
event_name classify = "classify"
event_name contain = "contain"
event_name recover = "recover"
event_name verify = "verify"
event_name close = "close"

unfoldable pub texts_json : List String → Items
texts_json [] = nil
texts_json (t ∷ ts) = cons (str t) (texts_json ts)

-- The record that `detect` makes, and what it puts into the ledger.
unfoldable pub new_incident : Stamp → String → String → RiskSeverity → List String → IncidentRecord
new_incident stamp id title severity detections = record {
  id = id;
  state = detected;
  severity = severity;
  title = title;
  detections = detections;
  evidence_hashes = [];
  timeline = record { at = stamp.now; text = "detected: " <> title } ∷ [];
}

unfoldable pub detection_fields : String → RiskSeverity → List String → Fields
unfolding texts_json severity_name
detection_fields title severity detections = field "title" (str title) (
    field "severity" (str (severity_name severity))
      (field "detections" (arr (texts_json detections)) end))

-- The record that `step` makes, and what it puts into the ledger.
unfoldable pub moved_incident : Stamp → IncidentRecord → IncidentState → String → IncidentRecord
moved_incident stamp current state text = record current {
  state = state;
  timeline = current.timeline ++ record { at = stamp.now; text = text } ∷ [];
}

unfoldable pub note_fields : String → Fields
note_fields text = field "note" (str text) end

-- The draft of the private method `record`.
unfoldable pub phase_draft : IncidentRecord → String → Fields → Draft
phase_draft incident phase payload = record {
  actor = record { kind = ActorType.system; id = "kernel" };
  kind = "immune.incident." <> phase;
  task_id = "immune";
  run_id = incident.id;
  payload = obj (field "incidentId" (str incident.id) (field "phase" (str phase) payload));
  evidence = none;
}

-- The severity that `classify` writes after the step.
unfoldable pub with_severity :
    String → RiskSeverity → IncidentRecord × IncidentEngine → IncidentRecord × IncidentEngine
with_severity id severity (r, e) =
    let next : IncidentRecord = record r { severity = severity } in
    (next, record e { incidents = Maps.set id next e.incidents })

module _ (sha256 : String → String) where
  -- The private method `record`: the incident has the hash of its event.
  unfoldable pub record_phase :
      Stamp
      → IncidentRecord
      → String
      → Fields
      → Option (List LedgerEvent)
      → IncidentRecord × Option (List LedgerEvent)
  unfolding phase_draft
  record_phase stamp incident phase payload none = (incident, none)
  record_phase stamp incident phase payload (some events) =
      let (ev, longer) =
        Ledger.append sha256 stamp.event_id stamp.event_time (phase_draft incident phase payload)
          events in
      (record incident { evidence_hashes = incident.evidence_hashes ++ ev.hash ∷ [] }, some longer)

  -- `this.incidents.set(id, record)`, with the record's phase: the object in the map is the one
  -- that gets the hash.
  unfoldable pub put_phase :
      Stamp → IncidentRecord → String → Fields → IncidentEngine → IncidentRecord × IncidentEngine
  unfolding record_phase
  put_phase stamp incident phase payload e =
      let (told, ledger) = record_phase stamp incident phase payload e.ledger in
      (told, record { incidents = Maps.set incident.id told e.incidents; ledger = ledger })

  -- `detect`.
  unfoldable pub detect :
      Stamp
      → String
      → String
      → RiskSeverity
      → List String
      → IncidentEngine
      → IncidentRecord × IncidentEngine
  unfolding put_phase
  detect stamp id title severity detections e =
      put_phase stamp (new_incident stamp id title severity detections) "detected"
        (detection_fields title severity detections) e

  unfoldable pub step_to :
      Stamp
      → IncidentRecord
      → IncidentEvent
      → String
      → IncidentEngine
      → Result (IllegalTransition IncidentState IncidentEvent) IncidentState
      → Result IncidentError (IncidentRecord × IncidentEngine)
  unfolding put_phase event_name
  step_to stamp current event text e (err illegal_move) = err (illegal illegal_move)
  step_to stamp current event text e (ok state) = ok (
      put_phase stamp (moved_incident stamp current state text) (event_name event)
        (note_fields text) e)

  unfoldable pub step_at :
      Stamp
      → String
      → IncidentEvent
      → String
      → IncidentEngine
      → Option IncidentRecord
      → Result IncidentError (IncidentRecord × IncidentEngine)
  unfolding step_to
  step_at stamp id event text e none = err (unknown_incident id)
  step_at stamp id event text e (some current) =
      step_to stamp current event text e
        (Transition.transition incident_machine current.state event)

  -- The private method `step`.
  unfoldable pub step :
      Stamp
      → String
      → IncidentEvent
      → String
      → IncidentEngine
      → Result IncidentError (IncidentRecord × IncidentEngine)
  unfolding step_at
  step stamp id event text e = step_at stamp id event text e (Maps.get id e.incidents)

  -- `classify`.
  unfoldable pub classify_incident :
      Stamp
      → String
      → RiskSeverity
      → IncidentEngine
      → Result IncidentError (IncidentRecord × IncidentEngine)
  unfolding step with_severity severity_name
  classify_incident stamp id severity e =
      step stamp id classify ("classified as " <> severity_name severity) e >>= λ out.
      ok (with_severity id severity out)

  -- `contain`.
  unfoldable pub contain_incident :
      Stamp
      → String
      → String
      → IncidentEngine
      → Result IncidentError (IncidentRecord × IncidentEngine)
  unfolding step
  contain_incident stamp id text e = step stamp id contain text e

  -- `recover`.
  unfoldable pub recover_incident :
      Stamp
      → String
      → String
      → IncidentEngine
      → Result IncidentError (IncidentRecord × IncidentEngine)
  unfolding step
  recover_incident stamp id text e = step stamp id recover text e

  -- `verify`.
  unfoldable pub verify_incident :
      Stamp
      → String
      → String
      → IncidentEngine
      → Result IncidentError (IncidentRecord × IncidentEngine)
  unfolding step
  verify_incident stamp id text e = step stamp id verify text e

  -- `close`.
  unfoldable pub close_incident :
      Stamp
      → String
      → String
      → IncidentEngine
      → Result IncidentError (IncidentRecord × IncidentEngine)
  unfolding step
  close_incident stamp id text e = step stamp id close text e

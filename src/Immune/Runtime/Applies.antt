-- ===== src/Immune/Runtime/Applies.antt =====
-- What an isolating decision leaves behind.
use chat_ai.Base.{
  ◌≤◌, String, Bool, true, false, not, List, Option, none, some, ok, err, ◌≡◌, refl, ◌∙◌, ap, arith,
  if◌then◌else◌, ◌&&◌, ◌<>◌, eq_refl, inl, inr, Bool-cases, Result-cases,
}
use chat_ai.Base.Maps.{get, set, get-set}
use chat_ai.Immune.Types.{
  ImmunityLevel, immunity_order, PrincipalType, ImmuneAction, ImmuneDecision, ImmuneRequest,
}
use chat_ai.Immune.Gate.{max_level}
use chat_ai.Immune.Quarantine.{
  quarantined, QuarantineRecord, Records, full_quarantine, quarantine_entity, quarantine_at,
  put_new, is_quarantined, quarantined_at,
}
use chat_ai.Policy.{PolicyEngine}
use chat_ai.Immune.Quarantine.Gaps.{quarantine-again}
use chat_ai.Immune.KillSwitch
use chat_ai.Immune.KillSwitch.{KillTargetType, KillRequest}
use chat_ai.Immune.KillSwitch.Requests.{may_kill, request_kills}
use chat_ai.Immune.Health.{record_quarantine}
use chat_ai.Immune.Incident.{detected, contained, classify_incident}
use chat_ai.Immune.Incident.Steps.{Reached, detect-Reached, classify-Moved, contain-Moved}
use chat_ai.Immune.Runtime.{
  ImmuneRuntime, CallStamp, RuntimeError, of_quarantine, kill_target_for, is_killed, is_passing,
  is_restrict, is_kill, is_severe, detail_of, details, action_name, raise_level, contain_at,
  classify_at, open_incident, apply_kill, isolated, apply_decision,
}

-- The decisions that `apply` isolates on.
abbrev pub isolates : ImmuneDecision → Bool
isolates d = not (is_passing d.action) && (not (is_restrict d.action) && is_severe d)

max_level_above : (a b : ImmunityLevel) → immunity_order b ≤ immunity_order (max_level a b)
unfolding max_level
max_level_above a b = ground arith

module _ (sha256 : String → String) where
  -- A state after an incident was opened in another.
  pub record Opened (d : ImmuneDecision) (stamp : CallStamp) (s t : ImmuneRuntime) : Type 0 where
    pub incident : Reached sha256 stamp.incident_id contained t.incidents
    pub raised : t.current_level ≡ max_level s.current_level d.level
    pub same_quarantine : t.quarantine ≡ s.quarantine
    pub same_switch : t.kill_switch ≡ s.kill_switch

  classify_at-Opened :
      (d : ImmuneDecision) (stamp : CallStamp) (detail : String) (s : ImmuneRuntime)
      → Reached sha256 stamp.incident_id detected s.incidents
      → (t : ImmuneRuntime) × (classify_at sha256 d stamp detail s (
            classify_incident sha256 stamp.classifying stamp.incident_id d.risk.severity
              s.incidents)
          ≡ (ok tt, t))
        × Opened d stamp s t
  unfolding classify_at contain_at raise_level
  classify_at-Opened d stamp detail s h =
      let first =
        classify-Moved sha256 stamp.classifying stamp.incident_id d.risk.severity s.incidents h in
      let second =
        contain-Moved sha256 stamp.containing stamp.incident_id detail first.out.1 first.reached in
      (
        raise_level sha256 d.level stamp (record s { incidents = second.out.1 }),
        rw (first.returns, classify_at, second.returns, contain_at) refl,
        record {
          incident = second.reached;
          raised = refl;
          same_quarantine = refl;
          same_switch = refl;
        },
      )

  open_incident-Opened :
      (d : ImmuneDecision) (stamp : CallStamp) (id detail : String) (s : ImmuneRuntime)
      → (t : ImmuneRuntime) × (open_incident sha256 d stamp id detail s ≡ (ok tt, t))
        × Opened d stamp s t
  unfolding open_incident
  open_incident-Opened d stamp id detail s =
      let found =
        detect-Reached sha256 stamp.detecting stamp.incident_id
          ("immune " <> (action_name d.action <> (" on '" <> (id <> "'")))) d.risk.severity
          (details d.risk.reasons) s.incidents in
      let (t, returns, opened) = classify_at-Opened d stamp detail _ found in
      (
        t,
        returns,
        record {
          incident = opened.incident;
          raised = opened.raised;
          same_quarantine = opened.same_quarantine;
          same_switch = opened.same_switch;
        },
      )

  fresh_quarantine :
      (id reason : String) (evidence : List String) (now : String) (m : Records)
      → get id m ≡ none
      → (r : QuarantineRecord) × (quarantine_entity id reason evidence now m ≡ ok (r, set id r m))
        × (r.state ≡ quarantined)
  unfolding quarantine_entity quarantine_at put_new
  fresh_quarantine id reason evidence now m h =
      let r : QuarantineRecord = record {
        entity_id = id;
        state = quarantined;
        reason = reason;
        restrictions = full_quarantine;
        entered_at = now;
        evidence = evidence;
      } in
      (r, rw (h, quarantine_entity, quarantine_at) refl, refl)

  set_quarantined :
      (id : String) (r : QuarantineRecord) (m : Records)
      → r.state ≡ quarantined
      → is_quarantined id (set id r m) ≡ true
  unfolding is_quarantined quarantined_at
  set_quarantined id r m h =
      let found : get id (set id r m) ≡ some r = get-set id id r m ∙ ground (arith, eq_refl id) in
      rw (found, is_quarantined, quarantined_at, h) refl

  apply_isolates :
      (stamp : CallStamp) (d : ImmuneDecision) (q : ImmuneRequest) (s : ImmuneRuntime)
      → isolates d ≡ true
      → apply_decision sha256 stamp d q s
        ≡ isolated sha256 d stamp q.principal.kind q.principal.id
            (detail_of d)
            (quarantine_entity q.principal.id
              (detail_of d)
              (details d.risk.reasons)
              stamp.now
              s.quarantine)
            s
  unfolding apply_decision
  apply_isolates stamp d q s h =
      let going : is_passing d.action ≡ false = ground (arith, h) in
      let strict : is_restrict d.action ≡ false = ground (arith, h) in
      let severe : is_severe d ≡ true = ground (arith, h) in
      rw (apply_decision, going, strict, severe) refl

  immune_may :
      (policy : Option PolicyEngine) (type : KillTargetType) (id reason : String)
      → may_kill policy
          (record { target_type = type; target_id = id; reason = reason; requester = "immune" })
        ≡ true
  immune_may policy type id reason = refl

  apply_kill_parts :
      (action : ImmuneAction) (type : PrincipalType) (id detail : String) (s : ImmuneRuntime)
      → ((apply_kill sha256 action type id detail s).quarantine ≡ s.quarantine)
        × ((apply_kill sha256 action type id detail s).current_level ≡ s.current_level)
        × ((if is_kill action
              then is_killed (kill_target_for type) id (apply_kill sha256 action type id detail s)
              else true)
            ≡ true)
  unfolding apply_kill is_killed
  apply_kill_parts action type id detail s = elim (Bool-cases (is_kill action)) [
    | inr other ↦ rw (other, apply_kill) (refl, refl, refl)
    | inl fatal ↦
        rw (fatal, apply_kill)
          (
            refl,
            refl,
            request_kills s.policy
                (record {
                  target_type = kill_target_for type;
                  target_id = id;
                  reason = detail;
                  requester = "immune";
                })
                s.kill_switch (immune_may s.policy (kill_target_for type) id detail),
          )
  ]

  -- What is left of a principal that a decision isolates.
  pub record Contained (stamp : CallStamp) (d : ImmuneDecision) (q : ImmuneRequest)
      (s t : ImmuneRuntime) : Type 0 where
    pub quarantined : is_quarantined q.principal.id t.quarantine ≡ true
    pub killed :
        (if is_kill d.action
          then is_killed (kill_target_for q.principal.kind) q.principal.id t
          else true)
        ≡ true
    pub incident : Reached sha256 stamp.incident_id contained t.incidents
    pub raised : t.current_level ≡ max_level s.current_level d.level

  -- For a principal with no record in quarantine, a decision to quarantine or to kill, or to block
  -- at level RED or BLACK, returns and leaves the principal in quarantine, killed if the decision is
  -- to kill, with an incident that is contained, and the level raised to that of the decision if it
  -- was below.
  pub apply_decision-Contained :
      (stamp : CallStamp) (d : ImmuneDecision) (q : ImmuneRequest) (s : ImmuneRuntime)
      → isolates d ≡ true
      → get q.principal.id s.quarantine ≡ none
      → (t : ImmuneRuntime) × (apply_decision sha256 stamp d q s ≡ (ok tt, t))
        × Contained stamp d q s t
  unfolding isolated is_killed
  apply_decision-Contained stamp d q s h absent =
      let (r, entered, state) =
        fresh_quarantine q.principal.id (detail_of d) (details d.risk.reasons) stamp.now
          s.quarantine absent in
      let moved : ImmuneRuntime = record s {
        quarantine = set q.principal.id r s.quarantine;
        metrics = record_quarantine s.metrics;
      } in
      let after = apply_kill sha256 d.action q.principal.kind q.principal.id (detail_of d) moved in
      let (same_records, same_level, dead) =
        apply_kill_parts d.action q.principal.kind q.principal.id (detail_of d) moved in
      let (t, returns, opened) = open_incident-Opened d stamp q.principal.id (detail_of d) after in
      (
        t,
        apply_isolates stamp d q s h ∙ rw (entered, isolated) returns,
        record {
          quarantined =
              ap (is_quarantined q.principal.id) (opened.same_quarantine ∙ same_records)
              ∙ set_quarantined q.principal.id r s.quarantine state;
          killed =
              ap
                (λ k.
                  if is_kill d.action
                  then KillSwitch.is_killed (kill_target_for q.principal.kind) q.principal.id k
                  else true)
                opened.same_switch
              ∙ dead;
          incident = opened.incident;
          raised = opened.raised ∙ ap (λ (l : ImmunityLevel). max_level l d.level) same_level;
        },
      )

  -- For a principal that is in quarantine already, the same decisions throw and do nothing at all:
  -- a decision to kill does not reach the kill switch, and no incident is opened.
  pub apply_decision-quarantined :
      (stamp : CallStamp) (d : ImmuneDecision) (q : ImmuneRequest) (s : ImmuneRuntime)
      → isolates d ≡ true
      → is_quarantined q.principal.id s.quarantine ≡ true
      → (e : RuntimeError) × (apply_decision sha256 stamp d q s ≡ (err e, s))
  unfolding isolated
  apply_decision-quarantined stamp d q s h inside =
      elim (Result-cases (
        quarantine_entity q.principal.id (detail_of d) (details d.risk.reasons) stamp.now
          s.quarantine)) [
            | inl (out, e) ↦
                elim (quarantine-again q.principal.id (detail_of d) (details d.risk.reasons)
                  stamp.now s.quarantine inside out e) [ ]
            | inr (why, e) ↦
                (of_quarantine why, apply_isolates stamp d q s h ∙ rw (e, isolated) refl)
          ]

-- ===== src/Immune/Runtime/Level.antt =====
-- The level of immunity over the calls of the runtime.
use chat_ai.Base.{
  ℕ, ◌≤◌, String, Bool, List, [], ◌∷◌, Result, ok, err, ◌≡◌, refl, subst, arith, inl, inr,
  Bool-cases,
}
use chat_ai.Immune.Types.{
  ImmunityLevel, immunity_order, PrincipalType, ImmuneAction, ImmuneDecision, ImmuneRequest,
}
use chat_ai.Immune.Gate
use chat_ai.Immune.Gate.{max_level}
use chat_ai.Immune.Quarantine.{QuarantineRecord, Records, QuarantineError}
use chat_ai.Immune.KillSwitch
use chat_ai.Immune.KillSwitch.{KillTargetType, KillOutcome}
use chat_ai.Immune.Incident.{IncidentRecord, IncidentEngine, IncidentError}
use chat_ai.Immune.Integrity.{Unique, own-breaches}
use chat_ai.Immune.Health.{record_quarantine, PartStatus, Runners, snapshot}
use chat_ai.Immune.Runtime.{
  ImmuneRuntime, CallStamp, Answer, is_passing, is_restrict, is_kill, is_severe, killed,
  request_kill, raise_level, contain_at, classify_at, open_incident, apply_kill, isolated,
  apply_decision, with_decision, evaluate_and_apply, health_snapshot,
}

max_level-le : (a b : ImmunityLevel) → immunity_order a ≤ immunity_order (max_level a b)
unfolding max_level
max_level-le a b = ground arith

-- The level of a state is not below that of another.
abbrev Above : ImmuneRuntime → ImmuneRuntime → Type 0
Above s t = immunity_order s.current_level ≤ immunity_order t.current_level

module _ (sha256 : String → String) where
  contain_at-Above :
      (d : ImmuneDecision) (stamp : CallStamp) (s : ImmuneRuntime)
      (answer : Result IncidentError (IncidentRecord × IncidentEngine))
      → Above s (contain_at sha256 d stamp s answer).1
  unfolding contain_at raise_level
  contain_at-Above d stamp s (err e) = omega arith
  contain_at-Above d stamp s (ok (r, e)) = max_level-le s.current_level d.level

  classify_at-Above :
      (d : ImmuneDecision) (stamp : CallStamp) (detail : String) (s : ImmuneRuntime)
      (answer : Result IncidentError (IncidentRecord × IncidentEngine))
      → Above s (classify_at sha256 d stamp detail s answer).1
  unfolding classify_at
  classify_at-Above d stamp detail s (err e) = omega arith
  classify_at-Above d stamp detail s (ok (r, e)) =
      contain_at-Above d stamp (record s { incidents = e }) _

  apply_kill-level :
      (action : ImmuneAction) (type : PrincipalType) (id detail : String) (s : ImmuneRuntime)
      → (apply_kill sha256 action type id detail s).current_level ≡ s.current_level
  unfolding apply_kill
  apply_kill-level action type id detail s = elim (Bool-cases (is_kill action)) [
    | inl fatal ↦ rw (fatal, apply_kill) refl
    | inr other ↦ rw (other, apply_kill) refl
  ]

  open_incident-Above :
      (d : ImmuneDecision) (stamp : CallStamp) (id detail : String) (s : ImmuneRuntime)
      → Above s (open_incident sha256 d stamp id detail s).1
  unfolding open_incident
  open_incident-Above d stamp id detail s = classify_at-Above d stamp detail _ _

  isolated-Above :
      (d : ImmuneDecision) (stamp : CallStamp) (type : PrincipalType) (id detail : String)
      (answer : Result QuarantineError (QuarantineRecord × Records)) (s : ImmuneRuntime)
      → Above s (isolated sha256 d stamp type id detail answer s).1
  unfolding isolated
  isolated-Above d stamp type id detail (err e) s = omega arith
  isolated-Above d stamp type id detail (ok (r, records)) s =
      let moved : ImmuneRuntime = record s {
        quarantine = records;
        metrics = record_quarantine s.metrics;
      } in
      let after = apply_kill sha256 d.action type id detail moved in
      subst
        (λ l.
          immunity_order l
          ≤ immunity_order (open_incident sha256 d stamp id detail after).1.current_level)
        (apply_kill-level d.action type id detail moved)
        (open_incident-Above d stamp id detail after)

  apply_decision-Above :
      (stamp : CallStamp) (d : ImmuneDecision) (q : ImmuneRequest) (s : ImmuneRuntime)
      → Above s (apply_decision sha256 stamp d q s).1
  unfolding apply_decision
  apply_decision-Above stamp d q s = elim (Bool-cases (is_passing d.action)) [
    | inl passing ↦ rw (passing, apply_decision) (omega arith)
    | inr going ↦ elim (Bool-cases (is_restrict d.action)) [
      | inl restricted ↦ rw (going, restricted, apply_decision) (omega arith)
      | inr strict ↦ elim (Bool-cases (is_severe d)) [
        | inl severe ↦ rw (going, strict, severe, apply_decision) (isolated-Above d stamp _ _ _ _ s)
        | inr light ↦ rw (going, strict, light, apply_decision) (omega arith)
      ]
    ]
  ]

  with_decision_state :
      (d : ImmuneDecision) (answer : Answer (Unit {0}))
      → (with_decision sha256 d answer).1 ≡ answer.1
  unfolding with_decision
  with_decision_state d (err e, s) = refl
  with_decision_state d (ok _, s) = refl

  killed-level :
      (outcome : KillOutcome) (answer : Result QuarantineError (QuarantineRecord × Records))
      (s : ImmuneRuntime)
      → (killed outcome answer s).1.current_level ≡ s.current_level
  unfolding killed
  killed-level outcome (err e) s = refl
  killed-level outcome (ok (r, records)) s = refl

  request_kill-level :
      (now requester : String) (type : KillTargetType) (id reason : String) (s : ImmuneRuntime)
      → (request_kill now requester type id reason s).1.current_level ≡ s.current_level
  unfolding request_kill
  request_kill-level now requester type id reason s =
      let out =
        KillSwitch.request s.policy
          (record { target_type = type; target_id = id; reason = reason; requester = requester })
          s.kill_switch in
      elim (Bool-cases out.0.applied) [
        | inl applied ↦ rw (applied, request_kill) (killed-level _ _ _)
        | inr refused ↦ rw (refused, request_kill) refl
      ]

  module _ (matches : String → String → Bool) (to_fixed : ℕ → ℕ → String) where
    -- A call of the runtime that changes it; `kill` is a request of "immune".
    pub data RuntimeCall : Type 0 where
      deciding : CallStamp → ImmuneRequest → RuntimeCall
      killing : String → String → KillTargetType → String → String → RuntimeCall

    unfoldable pub runtime_call : RuntimeCall → ImmuneRuntime → ImmuneRuntime
    runtime_call (deciding stamp q) s = (evaluate_and_apply sha256 matches to_fixed stamp q s).1
    runtime_call (killing now requester type id reason) s =
        (request_kill now requester type id reason s).1

    unfoldable pub runtime_calls : List RuntimeCall → ImmuneRuntime → ImmuneRuntime
    runtime_calls [] s = s
    runtime_calls (c ∷ cs) s = runtime_calls cs (runtime_call c s)

    runtime_call-Above : (c : RuntimeCall) (s : ImmuneRuntime) → Above s (runtime_call c s)
    unfolding runtime_call evaluate_and_apply
    runtime_call-Above (deciding stamp q) s =
        let d = Gate.evaluate matches to_fixed s.gate q in
        rw (with_decision_state d (apply_decision sha256 stamp d q s))
          (apply_decision-Above stamp d q s)
    runtime_call-Above (killing now requester type id reason) s =
        rw (request_kill-level now requester type id reason s) (omega arith)

    -- No calls of the runtime, whether they return or throw, lower its level of immunity.
    pub runtime_calls_mono :
        (cs : List RuntimeCall) (s : ImmuneRuntime)
        → immunity_order s.current_level ≤ immunity_order (runtime_calls cs s).current_level
    unfolding runtime_calls
    runtime_calls_mono [] s = omega arith
    runtime_calls_mono (c ∷ cs) s =
        omega (arith, runtime_call-Above c s, runtime_calls_mono cs (runtime_call c s))

  -- Whatever runs, the snapshot of the health says that the kernel is healthy: the expected hashes
  -- are checked against themselves.
  pub health_snapshot-kernel :
      (runners : Runners) (s : ImmuneRuntime)
      → Unique s.integrity
      → (health_snapshot sha256 runners s).kernel ≡ PartStatus.healthy
  unfolding health_snapshot snapshot
  health_snapshot-kernel runners s u = rw (own-breaches s.integrity u) refl

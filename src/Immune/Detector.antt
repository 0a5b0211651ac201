-- ===== src/Immune/Detector.antt =====
-- kernel/immune/src/detector.ts. `matches` is the regular expression engine: the test of a pattern
-- on a text. `to_fixed a b` is `(a / b).toFixed(1)`.
use Prim.Native.String.{slice}
use chat_ai.Base.{
  ℕ, suc, ◌*◌, String, Bool, true, false, List, [], ◌∷◌, ◌++◌, Option, none, some, ◌<>◌,
  if◌then◌else◌, any, keep, length, includes, str_eq, starts_with, ltb, leb, not, show, ◌&&◌, ◌||◌,
}
use chat_ai.Immune.Types.{
  RiskReasonKind, permission_escalation, secret_access_anomaly, kernel_integrity_failure,
  artifact_tampering, prompt_injection, tool_poisoning, memory_poisoning, dependency_anomaly,
  repeated_failure, unexpected_transition, unusual_tool_sequence, runaway_loop, usage_velocity,
  signal_weight, Principal, TrustState, unknown, suspicious, verified, trusted, quarantined,
  revoked, InputSource, tool, repository, web, memory, model, is_untrusted, DependencyDrift,
  new_transitive, version_drift, install_script, license_change, maintainer_change,
  network_dependency, Content, Dependency, Usage, RunStats, Observation, Detection,
}

-- `INJECTION_PATTERNS`, each the source of a regular expression with the flag `i`.
unfoldable pub injection_patterns : List String
injection_patterns =
    "\\bignore\\s+(all\\s+)?(previous|prior|above)\\s+instructions\\b"
    ∷ "\\bdisregard\\s+(all\\s+)?(previous|prior|above)\\s+instructions\\b"
    ∷ "\\bforget\\s+(everything|all)\\s+(you\\s+)?(know|were\\s+told)\\b"
    ∷ "\\byou\\s+are\\s+now\\s+(the\\s+)?(system|root|admin|sudo|operator)\\b"
    ∷ "\\bsystem\\s*prompt\\s*[:=]" ∷ "\\bdeveloper\\s*mode\\b" ∷ "\\bjailbreak\\b"
    ∷ "\\bbypass\\s+(the\\s+)?(policy|polic(y|ies)|permissions?|capabilit(y|ies)|immune|safety|security)\\b"
    ∷ "\\bgrant\\s+(yourself|me|the\\s+user)\\s+(admin|root|unrestricted|full|sudo)\\s+access\\b"
    ∷ "\\bdisable\\s+(your\\s+)?(safety|security|policy|immune)\\b"
    ∷ "\\bprint\\s+(the\\s+)?(system\\s+prompt|instructions|memory)\\b"
    ∷ "\\bdo\\s+anything\\s+(the\\s+user\\s+asks|i\\s+say)\\b" ∷ []

abbrev always_want : String
always_want = "\\b(always|never)\\s+want[s]?\\s+unrestricted\\b"

abbrev always_grant : String
always_grant = "\\b(always|never)\\s+grant[s]?\\s+(me|the\\s+user)\\b"

privileged_capabilities : List String
privileged_capabilities = "secret.read" ∷ "shell.execute" ∷ "git.push" ∷ "db.query" ∷ []

privileged_prefixes : List String
privileged_prefixes = "deployment." ∷ "deploy." ∷ "admin." ∷ "sudo." ∷ "privileged." ∷ []

-- `isPrivileged`.
unfoldable pub is_privileged : String → Bool
unfolding privileged_capabilities privileged_prefixes
is_privileged capability =
    includes capability privileged_capabilities
    || any (λ p. starts_with capability p) privileged_prefixes

source_name : InputSource → String
source_name InputSource.system = "system"
source_name InputSource.user = "user"
source_name tool = "tool"
source_name repository = "repository"
source_name web = "web"
source_name memory = "memory"
source_name model = "model"

unfoldable pub trust_name : TrustState → String
trust_name unknown = "UNKNOWN"
trust_name suspicious = "SUSPICIOUS"
trust_name verified = "VERIFIED"
trust_name trusted = "TRUSTED"
trust_name quarantined = "QUARANTINED"
trust_name revoked = "REVOKED"

drift_name : DependencyDrift → String
drift_name new_transitive = "new_transitive"
drift_name version_drift = "version_drift"
drift_name install_script = "install_script"
drift_name DependencyDrift.known_vulnerability = "known_vulnerability"
drift_name license_change = "license_change"
drift_name maintainer_change = "maintainer_change"
drift_name network_dependency = "network_dependency"

-- `detection`.
unfoldable pub detection : RiskReasonKind → String → String → Detection
detection kind detail actor_id = record {
  kind = kind;
  detail = detail;
  weight = signal_weight kind;
  actor_id = some actor_id;
}

unfoldable pub when : Bool → Detection → List Detection
when true d = d ∷ []
when false d = []

abbrev pub is_distrusted : TrustState → Bool
is_distrusted unknown = true
is_distrusted suspicious = true
is_distrusted revoked = true
is_distrusted _ = false

abbrev pub is_vetted : TrustState → Bool
is_vetted trusted = true
is_vetted verified = true
is_vetted _ = false

-- `checkPrivilegeEscalation`, with no element for `null`.
unfoldable pub check_privilege_escalation : Principal → String → List Detection
unfolding when detection trust_name
check_privilege_escalation p capability = when (is_privileged capability && is_distrusted p.trust) (
    detection permission_escalation
      ("'"
        <> p.id
        <> "' (trust="
        <> trust_name p.trust
        <> ") requested privileged '"
        <> capability
        <> "'")
      p.id)

-- `checkRunaway`.
unfoldable pub check_runaway : RunStats → List Detection
unfolding when detection
check_runaway r =
    when (ltb 5 r.depth)
      (detection runaway_loop ("agent depth " <> show r.depth <> " exceeds max 5") "")
    ++ when (ltb 10 r.children)
        (detection runaway_loop ("fan-out " <> show r.children <> " exceeds max 10") "")
    ++ when (ltb 3 r.retries)
        (detection runaway_loop ("retry budget " <> show r.retries <> " exceeds max 3") "")

anomaly : String → ℕ → List Detection
anomaly detail weight =
    record { kind = dependency_anomaly; detail = detail; weight = weight; actor_id = some "" } ∷ []

drifted : String → DependencyDrift → List Detection
unfolding anomaly drift_name
drifted name DependencyDrift.known_vulnerability =
    anomaly ("dependency '" <> name <> "' has a known vulnerability") 95
drifted name install_script = anomaly ("dependency '" <> name <> "' declares an install script") 90
drifted name license_change = anomaly ("dependency '" <> name <> "' drifted: license_change") 60
drifted name maintainer_change =
    anomaly ("dependency '" <> name <> "' drifted: maintainer_change") 60
drifted name drift = anomaly ("dependency '" <> name <> "' drifted: " <> drift_name drift) 40

drift_of : String → Option DependencyDrift → List Detection
unfolding drifted
drift_of name none = []
drift_of name (some drift) = drifted name drift

is_vulnerability : Option DependencyDrift → Bool
is_vulnerability none = false
is_vulnerability (some drift) = elim drift [
  | DependencyDrift.known_vulnerability ↦ true
  | _ ↦ false
]

-- `checkDependency`.
unfoldable pub check_dependency : Dependency → List Detection
unfolding anomaly drift_of is_vulnerability
check_dependency d =
    if d.known_vulnerability || is_vulnerability d.drift
    then anomaly ("dependency '" <> d.name <> "' has a known vulnerability") 95
    else if d.has_install_script
    then anomaly ("dependency '" <> d.name <> "' declares an install script") 90
    else drift_of d.name d.drift

-- `findIndex`, with the element.
find_index : (String → Bool) → List String → Option (ℕ × String)
find_index p [] = none
find_index p (x ∷ xs) =
    let rest = find_index p xs in
    if p x then some (0, x) else elim rest [ none ↦ none | some r ↦ some (suc r.0, r.1) ]

repeated : List String → List Detection
unfolding when detection
repeated [] = []
repeated (a ∷ acts) =
    let same : ℕ = length (keep (λ b. str_eq b a) (a ∷ acts)) in
    when (leb (length (a ∷ acts) * 8) (same * 10)) (
      detection unusual_tool_sequence
        ("unusual repetition of '"
          <> a
          <> "' ("
          <> show same
          <> "/"
          <> show (length (a ∷ acts))
          <> ")")
        "")

sequence_after : List String → Option (ℕ × String) → List Detection
unfolding repeated detection
sequence_after acts none = repeated acts
sequence_after acts (some (idx, a)) =
    if leb 3 idx
    then detection unusual_tool_sequence
        ("privileged '" <> a <> "' after " <> show idx <> " preceding actions") ""
      ∷ []
    else repeated acts

-- `checkToolSequence`, for a sequence that is not empty.
unfoldable pub check_tool_sequence : List String → List Detection
unfolding sequence_after find_index
check_tool_sequence acts = sequence_after acts (find_index is_privileged acts)

module _ (matches : String → String → Bool) (to_fixed : ℕ → ℕ → String) where
  -- `detectPromptInjection`, with no element for `null`.
  unfoldable pub detect_prompt_injection : InputSource → String → List Detection
  unfolding when detection source_name
  detect_prompt_injection source text =
      when (is_untrusted source && any (λ p. matches p text) injection_patterns) (
        detection prompt_injection
          ("untrusted " <> source_name source <> " content contains override instructions") "")

  unfoldable pub poisoned : Content → Option String → List Detection → List Detection
  poisoned c actor [] = []
  poisoned c actor (d ∷ ds) =
      record {
        kind = tool_poisoning;
        detail = "tool '" <> c.by <> "' returned content that attempts to control the agent";
        weight = signal_weight tool_poisoning;
        actor_id = actor;
      }
      ∷ []

  -- `checkMemoryWrite`.
  unfoldable pub check_memory_write : Content → List Detection
  unfolding when detection source_name
  check_memory_write c =
      if is_untrusted c.source
      then detection memory_poisoning
          ("memory write by '" <> c.by <> "' from untrusted " <> source_name c.source <> " source")
          c.by
        ∷ []
      else when (matches always_want c.text || matches always_grant c.text) (
          detection memory_poisoning
            ("memory write asserts durable privilege: '" <> slice c.text 0 80 <> "…'") c.by)

  -- `checkUsageVelocity`; a number of calls over `max(1, windowMs / 1000)` seconds.
  unfoldable pub check_usage_velocity : Usage → List Detection
  unfolding detection
  check_usage_velocity u =
      let ms : ℕ = if leb 1000 u.window_ms then u.window_ms else 1000 in
      if ltb (10 * ms) (u.tool_calls * 1000)
      then detection usage_velocity
          ("tool-call velocity " <> to_fixed (u.tool_calls * 1000) ms <> "/s exceeds 10/s") ""
        ∷ []
      else if ltb (2 * ms) (u.model_calls * 1000)
      then detection usage_velocity
          ("model-call velocity " <> to_fixed (u.model_calls * 1000) ms <> "/s exceeds 2/s") ""
        ∷ []
      else []

  unfoldable pub on_some : {A : Type 0} → Option A → (A → List Detection) → List Detection
  on_some none f = []
  on_some (some a) f = f a

  unfoldable pub both :
      Option Principal → Option String → (Principal → String → List Detection) → List Detection
  both none c f = []
  both (some p) none f = []
  both (some p) (some c) f = if str_eq c "" then [] else f p c

  unfoldable pub actor_of : Option Principal → String
  actor_of none = ""
  actor_of (some p) = p.id

  unfoldable pub flat : List (List Detection) → List Detection
  flat [] = []
  flat (ds ∷ rest) = ds ++ flat rest

  -- What each check of `Detector.detect` pushes.
  unfoldable pub checks : Observation → List (List Detection)
  unfolding on_some both actor_of poisoned when detection trust_name
  checks o =
      let actor : String = actor_of o.principal in
      on_some o.input (λ c. detect_prompt_injection c.source c.text)
      ∷ on_some o.tool_result (λ c.
        poisoned c (elim o.principal [ none ↦ none | some p ↦ some p.id ])
          (detect_prompt_injection c.source c.text))
      ∷ on_some o.memory_write check_memory_write
      ∷ both o.principal o.capability check_privilege_escalation
      ∷ both o.principal o.capability (λ p c.
        when (str_eq c "secret.read" && not (is_vetted p.trust)) (
          detection secret_access_anomaly
            ("'" <> p.id <> "' (" <> trust_name p.trust <> ") requested secret.read") p.id))
      ∷ on_some o.artifact (λ h. when (not (str_eq h.expected h.actual)) (
          detection artifact_tampering
            ("artifact '"
              <> h.subject
              <> "' hash mismatch (expected "
              <> slice h.expected 0 8
              <> "…, got "
              <> slice h.actual 0 8
              <> "…)")
            actor))
      ∷ on_some o.integrity (λ h.
        when (not (str_eq h.expected h.actual))
          (detection kernel_integrity_failure ("integrity breach on '" <> h.subject <> "'") actor))
      ∷ on_some o.dependency check_dependency
      ∷ on_some o.run_stats check_runaway
      ∷ on_some o.usage check_usage_velocity
      ∷ on_some o.repeated_failures (λ n.
        when (leb 3 n) (detection repeated_failure (show n <> " consecutive failures") actor))
      ∷ on_some o.tool_sequence
          (λ acts. if leb 4 (length acts) then check_tool_sequence acts else [])
      ∷ on_some o.unexpected_transition (λ t.
        detection unexpected_transition ("illegal transition '" <> t.1 <> "' from '" <> t.0 <> "'")
          actor
        ∷ [])
      ∷ []

  -- `Detector.detect`.
  unfoldable pub detect : Observation → List Detection
  unfolding flat checks
  detect o = flat (checks o)

-- ===== src/Tests/Isolation.antt =====
-- A breaker, a quarantined entity and a kill at concrete inputs.
use chat_ai.Base.{
  true, not, [], ◌∷◌, none, some, ok, ◌≡◌, refl, arith, all, if◌then◌else◌, str_eq, eq_iff,
}
use chat_ai.Base.Maps.{get, set}
use chat_ai.Immune.Breaker.{
  opened, CircuitBreakerConfig, CircuitState, new_breaker, ask, succeeded, failed, run,
}
use chat_ai.Immune.Breaker.Trips.{open_since, is_valid, opened-refuses, run-valid}
use chat_ai.Immune.Quarantine.{
  QuarantineState, quarantined, revoked, QuarantineRecord, Records, full_quarantine,
  normal_restrictions, quarantine_entity, flag_entity, is_quarantined, restrictions_of,
  quarantine_at, flag_at, put_new, move, move_to, restrictions_after, quarantine_machine,
}
use chat_ai.Immune.Quarantine.Ways.{
  to_analyze, to_flag, IsKeyed, state_at, step, next_state, event_of, step-state_at,
}
use chat_ai.Immune.Quarantine.Runs.{steps, revoked-steps}
use chat_ai.Immune.Quarantine.Gaps.{flagged-unrestricted}
use chat_ai.Transition
use chat_ai.Immune.KillSwitch.{KillTargetType, KillRequest, new_switch, request}
use chat_ai.Immune.KillSwitch.Requests.{Applies, may_kill, request-Applies}

abbrev config : CircuitBreakerConfig
config = record { failure_threshold = 2; cooldown_ms = 100; max_half_open_trials = 1 }

abbrev tripped : CircuitState
tripped = record (new_breaker "github") { state = opened; failures = 2; opened_at = some 1000 }

opened-refuses_example :
    (all not (run config (ask 1001 ∷ failed 1050 ∷ ask 1099 ∷ []) tripped).0 ≡ true)
    × (open_since 1000 (run config (ask 1001 ∷ failed 1050 ∷ ask 1099 ∷ []) tripped).1 ≡ true)
opened-refuses_example =
    opened-refuses config 1000 (ask 1001 ∷ failed 1050 ∷ ask 1099 ∷ []) tripped refl refl

new_valid : is_valid config (new_breaker "github") ≡ true
unfolding new_breaker
new_valid = refl

run-valid_example :
    is_valid config
      (run config (failed 1 ∷ failed 2 ∷ ask 200 ∷ succeeded ∷ []) (new_breaker "github")).1
    ≡ true
run-valid_example =
    run-valid config (failed 1 ∷ failed 2 ∷ ask 200 ∷ succeeded ∷ []) (new_breaker "github")
      (omega arith) new_valid

abbrev kept : QuarantineState → QuarantineRecord
kept s = record {
  entity_id = "tool";
  state = s;
  reason = "poisoned";
  restrictions = full_quarantine;
  entered_at = "now";
  evidence = [];
}

abbrev store : QuarantineState → Records
store s = ("tool", kept s) ∷ []

store-IsKeyed : (s : QuarantineState) → IsKeyed (store s)
unfolding get
store-IsKeyed s = record { at = λ id r g. ground (arith, eq_iff "tool" id) }

step-state_at_example : state_at "tool" (step "tool" to_analyze (store quarantined)) ≡ (
    if str_eq "tool" "tool"
    then next_state (event_of to_analyze) (state_at "tool" (store quarantined))
    else state_at "tool" (store quarantined))
step-state_at_example =
    step-state_at "tool" "tool" to_analyze (store quarantined) (store-IsKeyed quarantined)

revoked_there : state_at "tool" (store revoked) ≡ some revoked
unfolding get
revoked_there = refl

revoked-steps_example :
    state_at "tool"
      (steps (("tool", to_analyze) ∷ ("agent", to_flag "odd" "now") ∷ []) (store revoked))
    ≡ some revoked
revoked-steps_example =
    revoked-steps "tool" (("tool", to_analyze) ∷ ("agent", to_flag "odd" "now") ∷ [])
      (store revoked) (store-IsKeyed revoked) revoked_there

abbrev flagged_record : QuarantineRecord
flagged_record = record (kept QuarantineState.suspicious) { restrictions = normal_restrictions }

abbrev flagged : QuarantineRecord × Records
flagged = (flagged_record, ("tool", flagged_record) ∷ [])

abbrev moved_record : QuarantineRecord
moved_record = record flagged_record { state = quarantined; reason = "sure" }

abbrev moved : QuarantineRecord × Records
moved = (moved_record, ("tool", moved_record) ∷ [])

abbrev empty_store : Records
empty_store = []

flagged_first : flag_entity "tool" "poisoned" "now" empty_store ≡ ok flagged
unfolding flag_entity flag_at put_new get set
flagged_first = refl

quarantined_next : quarantine_entity "tool" "sure" [] "later" flagged.1 ≡ ok moved
unfolding quarantine_entity quarantine_at move move_to restrictions_after quarantine_machine
    Transition.transition get set
quarantined_next = refl

absent : get "tool" empty_store ≡ none
unfolding get
absent = refl

flagged-unrestricted_example :
    (is_quarantined "tool" moved.1 ≡ true) × (restrictions_of "tool" moved.1 ≡ normal_restrictions)
flagged-unrestricted_example =
    flagged-unrestricted "tool" "poisoned" "sure" [] "now" "later" empty_store flagged moved absent
      flagged_first quarantined_next

abbrev kill_request : KillRequest
kill_request = record {
  target_type = KillTargetType.run;
  target_id = "r1";
  reason = "loop";
  requester = "agent:coder";
}

request-Applies_example :
    Applies
      (may_kill none kill_request)
      kill_request
      new_switch
      (request none kill_request new_switch)
request-Applies_example = request-Applies none kill_request new_switch

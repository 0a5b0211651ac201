-- ===== src/Orchestrator/NodeMachine.antt =====
-- runtime/orchestrator/src/node-machine.ts: the machine of a workflow node.
use chat_ai.Base.{Option, none, some, Bool, true, false, List, ◌≡◌, refl, ◌⊎◌, ok, arith, ◌↔◌, ◌≢◌}
use chat_ai.Orchestrator.Types.{
  NodeStatus, planned, ready, running, waiting, verifying, retrying, compensating, rolled_back,
  skipped,
}
use chat_ai.Transition.{StateMachine}
use chat_ai.Transition.Traces.{run, Visits, run-Visits}

pub data NodeEvent : Type 0 where
  prepare start wait approve deny verify complete fail retry resume compensate rollback quarantine
        cancel skip :
      NodeEvent

node_table : NodeStatus → NodeEvent → Option NodeStatus
node_table planned prepare = some ready
node_table planned cancel = some NodeStatus.cancelled
node_table planned skip = some skipped
node_table ready start = some running
node_table ready cancel = some NodeStatus.cancelled
node_table running wait = some waiting
node_table running verify = some verifying
node_table running fail = some NodeStatus.failed
node_table running cancel = some NodeStatus.cancelled
node_table waiting approve = some running
node_table waiting deny = some NodeStatus.failed
node_table waiting cancel = some NodeStatus.cancelled
node_table verifying complete = some NodeStatus.completed
node_table verifying fail = some NodeStatus.failed
node_table NodeStatus.failed retry = some retrying
node_table NodeStatus.failed compensate = some compensating
node_table NodeStatus.failed quarantine = some NodeStatus.quarantined
node_table NodeStatus.failed cancel = some NodeStatus.cancelled
node_table retrying resume = some running
node_table compensating rollback = some rolled_back
node_table _ _ = none

unfoldable pub node_state_machine : StateMachine NodeStatus NodeEvent
unfolding node_table
node_state_machine = record { transitions = node_table }

unfoldable pub is_terminal : NodeStatus → Bool
is_terminal NodeStatus.completed = true
is_terminal NodeStatus.failed = true
is_terminal rolled_back = true
is_terminal NodeStatus.quarantined = true
is_terminal NodeStatus.cancelled = true
is_terminal skipped = true
is_terminal _ = false

-- A status that no event leaves: all terminal ones but FAILED.
abbrev pub IsDead : NodeStatus → Type 0
IsDead s = (e : NodeEvent) → node_state_machine.transitions s e ≡ none

terminal-IsDead : (s : NodeStatus) → is_terminal s ≡ true → s ≢ NodeStatus.failed → IsDead s
unfolding node_state_machine is_terminal
terminal-IsDead s h f e = ground arith

IsDead-is_terminal : (s : NodeStatus) → IsDead s → (is_terminal s ≡ true) × (s ≢ NodeStatus.failed)
unfolding node_state_machine is_terminal
IsDead-is_terminal planned d = cc (d prepare)
IsDead-is_terminal ready d = cc (d start)
IsDead-is_terminal running d = cc (d wait)
IsDead-is_terminal waiting d = cc (d approve)
IsDead-is_terminal verifying d = cc (d complete)
IsDead-is_terminal NodeStatus.failed d = cc (d retry)
IsDead-is_terminal retrying d = cc (d resume)
IsDead-is_terminal compensating d = cc (d rollback)
IsDead-is_terminal NodeStatus.completed d = (refl, λ e. cc)
IsDead-is_terminal rolled_back d = (refl, λ e. cc)
IsDead-is_terminal NodeStatus.quarantined d = (refl, λ e. cc)
IsDead-is_terminal NodeStatus.cancelled d = (refl, λ e. cc)
IsDead-is_terminal skipped d = (refl, λ e. cc)

-- The statuses that no event leaves are exactly the terminal ones other than FAILED: a failed node
-- is terminal for the executor, and the table still lets it be retried, compensated, quarantined
-- or cancelled.
pub terminal-IsDead_iff :
    (s : NodeStatus) → ((is_terminal s ≡ true) × (s ≢ NodeStatus.failed)) ↔ IsDead s
terminal-IsDead_iff s = ((λ h. terminal-IsDead s h.0 h.1), IsDead-is_terminal s)

abbrev is_completed : NodeStatus → Bool
is_completed NodeStatus.completed = true
is_completed _ = false

verified_step :
    (s : NodeStatus) (e : NodeEvent) (t : NodeStatus)
    → node_state_machine.transitions s e ≡ some t
    → is_completed s ≡ false
    → (s ≡ verifying) ⊎ (is_completed t ≡ false)
unfolding node_state_machine
verified_step s e t p h = ground arith

-- Statuses of a node that has not been started.
abbrev pub is_started : NodeStatus → Bool
is_started planned = false
is_started ready = false
is_started NodeStatus.cancelled = false
is_started skipped = false
is_started _ = true

started_step :
    (s : NodeStatus) (e : NodeEvent) (t : NodeStatus)
    → node_state_machine.transitions s e ≡ some t
    → is_started s ≡ false
    → (s ≡ ready) ⊎ (is_started t ≡ false)
unfolding node_state_machine
started_step s e t p h = ground arith

-- A planned node that the events bring to COMPLETED has been READY and VERIFYING on the way.
pub completed-Visits :
    (es : List NodeEvent)
    → run node_state_machine planned es ≡ ok NodeStatus.completed
    → Visits node_state_machine ready planned es × Visits node_state_machine verifying planned es
completed-Visits es r = (
  run-Visits node_state_machine ready is_started started_step planned es _ refl r refl,
  run-Visits node_state_machine verifying is_completed verified_step planned es _ refl r refl,
)

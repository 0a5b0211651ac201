-- ===== src/Transition/Task.antt =====
-- kernel/transition/src/task-state-machine.ts: the machines of tasks and of plan nodes.
use chat_ai.Base.{
  Option, none, some, Bool, true, false, List, [], ◌∷◌, ◌≡◌, refl, ◌⊎◌, ok, arith, ◌↔◌,
}
use chat_ai.Transition.{StateMachine, transition}
use chat_ai.Transition.Traces.{run, Visits, run-Visits, run_dead_end}

pub data TaskState : Type 0 where
  planned running waiting_approval verifying paused completed failed cancelled : TaskState

pub data TaskEvent : Type 0 where
  start require_approval approve reject pause resume start_verify verify_pass verify_fail complete
        fail cancel :
      TaskEvent

task_table : TaskState → TaskEvent → Option TaskState
task_table planned start = some running
task_table planned cancel = some cancelled
task_table running require_approval = some waiting_approval
task_table running start_verify = some verifying
task_table running pause = some paused
task_table running complete = some completed
task_table running fail = some failed
task_table waiting_approval approve = some running
task_table waiting_approval reject = some cancelled
task_table waiting_approval fail = some failed
task_table verifying verify_pass = some completed
task_table verifying verify_fail = some failed
task_table paused resume = some running
task_table paused cancel = some cancelled
task_table _ _ = none

unfoldable pub task_state_machine : StateMachine TaskState TaskEvent
unfolding task_table
task_state_machine = record { transitions = task_table }

-- States that a task reaches only by way of `running`.
abbrev pub is_beyond : TaskState → Bool
is_beyond planned = false
is_beyond running = false
is_beyond cancelled = false
is_beyond _ = true

beyond_step :
    (s : TaskState) (e : TaskEvent) (t : TaskState)
    → task_state_machine.transitions s e ≡ some t
    → is_beyond s ≡ false
    → (s ≡ running) ⊎ (is_beyond t ≡ false)
unfolding task_state_machine
beyond_step s e t p h = ground arith

-- A planned task that the events bring to any state but planned, running and cancelled, COMPLETED
-- among them, has been RUNNING on the way.
pub task_run-Visits_running :
    (es : List TaskEvent) (u : TaskState)
    → run task_state_machine planned es ≡ ok u
    → is_beyond u ≡ true
    → Visits task_state_machine running planned es
task_run-Visits_running es u r q =
    run-Visits task_state_machine running is_beyond beyond_step planned es u refl r q

-- The states from which no event leads.
abbrev pub is_final : TaskState → Bool
is_final completed = true
is_final failed = true
is_final cancelled = true
is_final _ = false

task_final_dead :
    (s : TaskState)
    → is_final s ≡ true
    → (e : TaskEvent) → task_state_machine.transitions s e ≡ none
unfolding task_state_machine
task_final_dead s h e = ground arith

final_of_stuck :
    (s : TaskState)
    → ((es : List TaskEvent) (u : TaskState) → run task_state_machine s es ≡ ok u → u ≡ s)
    → is_final s ≡ true
unfolding task_state_machine run transition
final_of_stuck planned stuck = cc (stuck (start ∷ []) running refl)
final_of_stuck running stuck = cc (stuck (complete ∷ []) completed refl)
final_of_stuck waiting_approval stuck = cc (stuck (approve ∷ []) running refl)
final_of_stuck verifying stuck = cc (stuck (verify_pass ∷ []) completed refl)
final_of_stuck paused stuck = cc (stuck (resume ∷ []) running refl)
final_of_stuck _ stuck = refl

-- The completed, failed and cancelled tasks are exactly those that no sequence of accepted events
-- takes to another state.
pub task_final_iff :
    (s : TaskState)
    → (is_final s ≡ true)
      ↔ ((es : List TaskEvent) (u : TaskState) → run task_state_machine s es ≡ ok u → u ≡ s)
task_final_iff s = (
  (λ h es u r. (run_dead_end task_state_machine s (task_final_dead s h) es u r).1),
  final_of_stuck s,
)

pub data NodeState : Type 0 where
  pending scheduled running waiting_approval succeeded failed skipped : NodeState

pub data NodeEvent : Type 0 where
  schedule start require_approval approve succeed fail retry skip : NodeEvent

node_table : NodeState → NodeEvent → Option NodeState
node_table pending schedule = some scheduled
node_table pending skip = some skipped
node_table scheduled start = some running
node_table running require_approval = some waiting_approval
node_table running succeed = some succeeded
node_table running fail = some failed
node_table waiting_approval approve = some running
node_table waiting_approval fail = some failed
node_table failed retry = some scheduled
node_table _ _ = none

unfoldable pub node_state_machine : StateMachine NodeState NodeEvent
unfolding node_table
node_state_machine = record { transitions = node_table }

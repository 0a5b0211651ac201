-- ===== src/Transition.antt =====
-- kernel/transition/src/state-machine.ts: the table is the only source of legal transitions.
pub mod Traces
pub mod Task
pub mod Dag
use chat_ai.Base.{Option, none, some, Bool, Result, ok, err, is_some}

-- `TransitionTable`: a state or an event that the table lacks gives `none`.
pub record StateMachine (S E : Type 0) : Type 0 where
  pub transitions : S → E → Option S

-- `IllegalTransitionError`.
pub record IllegalTransition (S E : Type 0) : Type 0 where
  pub from : S
  pub event : E

module _ {S E : Type 0} where
  unfoldable pub can_transition : StateMachine S E → S → E → Bool
  can_transition m from event = is_some (m.transitions from event)

  unfoldable pub transition : StateMachine S E → S → E → Result (IllegalTransition S E) S
  transition m from event = elim (m.transitions from event) [
    | none ↦ err (record { from = from; event = event })
    | some next ↦ ok next
  ]

-- ===== src/Orchestrator/Errors.antt =====
-- What the methods of runtime/orchestrator/src throw.
use chat_ai.Base.{String}
use chat_ai.Transition.{IllegalTransition}
use chat_ai.Transition.Dag.{DagError}
use chat_ai.Orchestrator.Types.{NodeStatus}
use chat_ai.Orchestrator.NodeMachine.{NodeEvent}

-- `NodeFailureError` and the other errors that carry a message are `node_failure`.
pub data Error : Type 0 where
  illegal : IllegalTransition NodeStatus NodeEvent → Error
  node_failure : String → Error
  dag_error : DagError → Error
  crash_injected : Error
  waits_forever : Error  -- no exception: the code does not go on
  out_of_fuel : Error  -- no exception: the model stopped

-- ===== src/Orchestrator/Executor/Work.antt =====
-- The work on one node in executor.ts: `runNodeAction`, `runConditional`, `requestApproval`,
-- `failNode`, `executeWithRetry`. One job is worked on at a time.
use chat_ai.Base.{
  ℕ, String, Bool, true, false, List, [], ◌∷◌, ◌++◌, Option, none, some, Result, err, ◌<>◌,
  if◌then◌else◌, get_or, ltb, ◌==◌, str_eq, show, truthy, ◌||◌,
}
use chat_ai.Base.Maps
use chat_ai.Orchestrator.Json.{
  Json, null, bool, str, obj, end, field, stable_stringify, get_path, input_ref,
}
use chat_ai.Orchestrator.Types.{
  NodeResult, NodeResultStatus, success, failure, WorkflowNode, WorkflowNodeKind, conditional,
  approval, ConditionSpec, ConditionWhen, on_verdict, at_path, ApprovalSpec,
}
use chat_ai.Orchestrator.NodeMachine.{wait, approve, deny}
use chat_ai.Orchestrator.Errors.{Error, node_failure}
use chat_ai.Orchestrator.Executor.{
  InternalNode, approval_required, approval_granted, approval_denied, Action, ◌>>=◌, ◌>>◌, pure,
  throw, read, emit, put_node, transition,
}
use chat_ai.Orchestrator.Executor.Skips.{skip_node}
use chat_ai.Orchestrator.Executor.Env.{Env, Settled, result_json, status_json, external, persist}

-- `x ?? {}`.
abbrev pub or_empty : Option Json → Json
or_empty none = obj end
or_empty (some null) = obj end
or_empty (some v) = v

-- A write to fields of the node object of the id.
unfoldable pub update_at :
    (InternalNode → InternalNode) → String → Option InternalNode → Action (Unit {0})
unfolding put_node
update_at f id none = pure tt
update_at f id (some n) = put_node id (f n)

unfoldable pub update_node : (InternalNode → InternalNode) → String → Action (Unit {0})
unfolding update_at
update_node f id = read (λ x. update_at f id (Maps.get id x.nodes))

has_timeout : Option ℕ → ℕ → Option ℕ
has_timeout none after = none
has_timeout (some ms) after = if ms == 0 || ltb after ms then none else some ms

timed : Option ℕ → Settled → Result Error NodeResult
timed none s = s.outcome
timed (some ms) s = err (node_failure ("timeout after " <> show ms <> "ms"))

is_status : NodeResultStatus → NodeResultStatus → Bool
is_status success success = true
is_status failure failure = true
is_status _ _ = false

verdict_text : NodeResultStatus → String
verdict_text success = "success"
verdict_text failure = "failure"

branch_text : Bool → String
branch_text true = "then"
branch_text false = "else"

shown : Option Json → String
shown none = "undefined"
shown (some v) = stable_stringify v

same_text : Option Json → Json → Bool
same_text none v = false
same_text (some a) v = str_eq (stable_stringify a) (stable_stringify v)

-- `matchCondition`: whether the condition holds, and the detail.
match_when : ConditionWhen → NodeResult → Bool × String
unfolding is_status shown same_text verdict_text
match_when (on_verdict id expected) source = (
  is_status source.status expected,
  "verdict is " <> verdict_text source.status <> " (expected " <> verdict_text expected <> ")",
)
match_when (at_path id path value) source = (
  same_text (get_path (result_json source) path) value,
  "'"
      <> path
      <> "' === "
      <> stable_stringify value
      <> " (got "
      <> shown (get_path (result_json source) path)
      <> ")",
)

unfoldable pub match_condition : ConditionSpec → NodeResult → Bool × String
unfolding match_when
match_condition cond source = match_when cond.when source

when_node : ConditionWhen → String
when_node (on_verdict id expected) = id
when_node (at_path id path value) = id

unfoldable pub skip_each : String → List String → Action (Unit {0})
skip_each reason [] = pure tt
skip_each reason (id ∷ ids) = skip_node id reason >> skip_each reason ids

unfoldable pub or_throw : {A : Type 0} → Option A → Error → Action A
or_throw none e = throw e
or_throw (some a) e = pure a

error_text : Option Json → String
error_text (some (str s)) = s
error_text _ = "node failed"

-- The result of a node's action, which throws if the handler reports a failure.
unfoldable pub unless_failed : NodeResultStatus → NodeResult → Action NodeResult
unfolding error_text
unless_failed success r = pure r
unless_failed failure r = throw (node_failure (error_text (get_path r.output "error")))

unfoldable pub unless_failure : NodeResult → Action NodeResult
unless_failure r = unless_failed r.status r

unfoldable pub resolved : Option (String × String) → Option Json → Action (Option Json)
unfolding or_throw
resolved none input = pure (some (or_empty input))
resolved (some (id, path)) input = read λ x.
    or_throw (Maps.get id x.results)
      (node_failure ("cannot resolve $ref to '" <> id <> "' (no result)"))
    >>= λ r. pure (get_path (result_json r) path)

ref_in : Option Json → Option (String × String)
ref_in none = none
ref_in (some v) = input_ref v

-- `resolveInput`.
unfoldable pub resolve_input : WorkflowNode → Action (Option Json)
unfolding resolved ref_in
resolve_input def = resolved (ref_in def.input) def.input

module _ (env : Env) where
  -- `runWithTimeout`; of a promise and a timer of the same millisecond, the timer is first.
  unfoldable pub run_with_timeout : String → Option Json → WorkflowNode → Action NodeResult
  unfolding timed has_timeout
  run_with_timeout action input def =
      external env
        λ n. let s = env.run n action input def in timed (has_timeout def.timeout_ms s.after_ms) s

  unfoldable pub ask :
      Option (ℕ → ApprovalSpec → String → Result Error Bool) → ApprovalSpec → String → Action Bool
  ask none req id = pure false
  ask (some f) req id = external env (λ n. f n req id)

  unfoldable pub answer : String → ApprovalSpec → Bool → Action (Unit {0})
  answer id req true = transition id approve >> emit (approval_granted id req)
  answer id req false = transition id deny >> emit (approval_denied id req)

  approval_reason : Option ApprovalSpec → String → String
  approval_reason none action = "approval required for '" <> action <> "'"
  approval_reason (some a) action = a.reason

  -- `requestApproval`.
  unfoldable pub request_approval : WorkflowNode → String → Action Bool
  unfolding ask answer approval_reason
  request_approval def action = do
    let req : ApprovalSpec = record {
      action = action;
      reason = approval_reason def.approval action;
    }
    transition def.id wait
    emit (approval_required def.id req)
    persist env
    approved ← ask env.request_approval req def.id
    answer def.id req approved
    persist env
    pure approved

  approval_action : Option ApprovalSpec → Option String → String
  approval_action none none = "approval"
  approval_action none (some a) = a
  approval_action (some s) a = s.action

  -- `runApproval`.
  unfoldable pub run_approval : WorkflowNode → Action NodeResult
  unfolding approval_action
  run_approval def = do
    let action : String = approval_action def.approval def.action
    approved ← request_approval def action
    if approved
        then pure (record {
          status = success;
          output = obj (field "approved" (bool true) (field "action" (str action) end));
          evidence = record { evidence_id = "approval:" <> def.id; kind = "approval" } ∷ [];
        })
        else throw (node_failure ("approval '" <> action <> "' denied"))

  -- The source of a condition: the node's own action, or the result of another node.
  unfoldable pub condition_source : Option String → ConditionSpec → WorkflowNode → Action NodeResult
  unfolding or_throw when_node
  condition_source (some action) cond def =
      resolve_input def >>= λ input. run_with_timeout action input def
  condition_source none cond def = read λ x.
      or_throw (Maps.get (when_node cond.when) x.results)
        (node_failure ("condition references missing result of '" <> when_node cond.when <> "'"))

  -- `runConditional`; an action that is the empty text counts as none.
  unfoldable pub run_conditional : WorkflowNode → Action NodeResult
  unfolding condition_source skip_each or_throw branch_text
  run_conditional def = do
    cond ←
        or_throw def.condition
          (node_failure ("conditional node '" <> def.id <> "' has no condition"))
    source ← condition_source (truthy def.action) cond def
    let matched : Bool × String = match_condition cond source
    skip_each ("conditional '" <> def.id <> "' chose the '" <> branch_text matched.0 <> "' branch")
        (if matched.0 then get_or cond.on_else [] else cond.on_then)
    pure (record {
      status = success;
      output = obj (
          field "branch" (str (branch_text matched.0))
            (field "verdict" (status_json source.status) (field "detail" (str matched.1) end)));
      evidence =
          source.evidence
          ++ record { evidence_id = "condition:" <> def.id; kind = "verification" } ∷ [];
    })

  needs_approval : Option (String → Bool) → String → Bool
  needs_approval none action = false
  needs_approval (some f) action = f action

  unfoldable pub approved_first : Bool → WorkflowNode → String → Action (Unit {0})
  approved_first false def action = pure tt
  approved_first true def action = do
    approved ← request_approval def action
    if approved
        then pure tt
        else throw (node_failure ("'" <> action <> "' requires approval and was denied"))

  unfoldable pub run_action : WorkflowNode → Action NodeResult
  unfolding needs_approval approved_first unless_failure
  run_action def = do
    let action : String = get_or def.action ""
    approved_first (needs_approval env.requires_approval action) def action
    input ← resolve_input def
    r ← run_with_timeout action input def
    unless_failure r

  unfoldable pub run_kind : WorkflowNodeKind → WorkflowNode → Action NodeResult
  unfolding run_action
  run_kind conditional def = run_conditional def
  run_kind approval def = run_approval def
  run_kind WorkflowNodeKind.action def = run_action def

  -- `runNodeAction`.
  unfoldable pub run_node_action : WorkflowNode → Action NodeResult
  unfolding run_kind
  run_node_action def = run_kind def.kind def

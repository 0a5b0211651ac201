-- ===== src/Orchestrator/Executor/OrderRun.antt =====
-- A run keeps the order of dependencies.
use chat_ai.Base.{
  ℕ, zero, suc, String, Bool, true, false, List, [], ◌∷◌, Option, none, some, Result, ok, err, ◌≡◌,
  refl, subst, if◌then◌else◌, str_eq, inl, inr, Bool-cases, arith,
}
use chat_ai.Base.Maps.{Map, get, set, get-set}
use chat_ai.Transition.Dag.{DagError}
use chat_ai.Orchestrator.Types.{NodeResult, WorkflowNode, WorkflowJob}
use chat_ai.Orchestrator.Errors.{Error, out_of_fuel, waits_forever}
use chat_ai.Orchestrator.Idempotency.{Delivery, reused, joined, executes, pending, rejected}
use chat_ai.Orchestrator.Bulkhead
use chat_ai.Orchestrator.Executor.{InternalNode, make_node, Exec, Action, throw, modify}
use chat_ai.Orchestrator.Executor.Env.{Env}
use chat_ai.Orchestrator.Executor.Drive.{
  slot_of, from_dag, execute, run_once, deliver, recover, give_back, finally, work_on, job_at,
  run_job, take_job, dispatch_to, dispatch, enqueue_each, round, drive_rounds, drive, reset,
  nodes_from, nodes_of, launch, run,
}
use chat_ai.Orchestrator.Executor.Keeps.{
  Keeps, Keeps-modify, Keeps-reads, Keeps-pure, Keeps-throw, Keeps-emit, Keeps-bind, Keeps-if,
  Keeps-catch, keeps_rules,
}
use chat_ai.Orchestrator.Executor.Order.{InOrder, is_active}
use chat_ai.Orchestrator.Executor.OrderNodes.{
  Keeps-promote_ready, Keeps-complete_node, Keeps-cancel_all, Keeps-finalize,
}
use chat_ai.Orchestrator.Executor.OrderWork.{Keeps-persist}
use chat_ai.Orchestrator.Executor.OrderJobs.{Keeps-fail_node, Keeps-execute_with_retry}

Keeps-from_dag : (r : Result DagError (Unit {0})) → Keeps InOrder (from_dag r)
unfolding from_dag
Keeps-from_dag (ok u) = Keeps-pure InOrder tt
Keeps-from_dag (err e) = Keeps-throw InOrder _

Keeps-skipping :
    (b : Bool) (f : Exec → Exec)
    → ((x : Exec) → (f x).nodes ≡ x.nodes)
    → (x : Exec) → (if b then f x else x).nodes ≡ x.nodes
Keeps-skipping true f h x = h x
Keeps-skipping false f h x = refl

module _ (env : Env) where
  Keeps-execute :
      (key : String) (fn : Action NodeResult) (d : Delivery)
      → Keeps InOrder fn
      → Keeps InOrder (execute env key fn d)
  unfolding execute
  Keeps-execute key fn (reused r) k = Keeps-pure InOrder r
  Keeps-execute key fn (joined (rejected e)) k = Keeps-throw InOrder e
  Keeps-execute key fn (joined pending) k = Keeps-throw InOrder _
  Keeps-execute key fn executes k =
      Keeps-bind InOrder _ _
        (Keeps-catch InOrder _ _ k λ e.
          Keeps-bind InOrder _ _ (Keeps-modify InOrder _ (λ x. refl)) (λ _. Keeps-throw InOrder e))
        λ r. Keeps-bind InOrder _ _ (Keeps-modify InOrder _ (λ x. refl)) (λ _. Keeps-pure InOrder r)

  Keeps-run_once :
      (key : String) (fn : Action NodeResult)
      → Keeps InOrder fn
      → Keeps InOrder (run_once env key fn)
  unfolding run_once
  Keeps-run_once key fn k = Keeps-reads InOrder _ λ x.
      Keeps-bind InOrder _ _ (Keeps-modify InOrder _ (λ y. refl)) (λ _. Keeps-execute key fn _ k)

  Keeps-deliver : (job : WorkflowJob) (def : WorkflowNode) → Keeps InOrder (deliver env job def)
  unfolding deliver
  Keeps-deliver job def =
      Keeps-bind InOrder _ _ (Keeps-reads InOrder _ (λ x. Keeps-pure InOrder _)) λ deduped.
        Keeps-bind InOrder _ _ (Keeps-run_once _ _ (Keeps-execute_with_retry env def job.attempt))
          λ r.
            Keeps-bind InOrder _ _ (Keeps-modify InOrder _ (Keeps-skipping deduped _ (λ x. refl)))
              (λ _. search (keeps_rules, Keeps-complete_node))

  Keeps-recover : (def : WorkflowNode) (e : Error) → Keeps InOrder (recover env def e)
  unfolding recover
  Keeps-recover def e = search (keeps_rules, Keeps-fail_node)

  Keeps-finally :
      (m : Action (Unit {0})) (f : Exec → Exec)
      → Keeps InOrder m
      → ((x : Exec) → (f x).nodes ≡ x.nodes)
      → Keeps InOrder (finally env m f)
  unfolding finally
  Keeps-finally m f k h = record { at = λ x o. rw (h (m x).1) (k.at x o) }

  Keeps-admitted :
      (admitted : Bool) (m : Action (Unit {0})) (e : Error)
      → Keeps InOrder m
      → Keeps InOrder (if admitted then m else throw e)
  Keeps-admitted admitted m e k = Keeps-if InOrder _ _ _ k (Keeps-throw InOrder e)

  Keeps-work_on : (job : WorkflowJob) (def : WorkflowNode) → Keeps InOrder (work_on env job def)
  unfolding work_on give_back
  Keeps-work_on job def = Keeps-reads InOrder _ λ x.
      Keeps-admitted (Bulkhead.try_acquire x.limiter (slot_of job def)).1 _ waits_forever (
        Keeps-bind InOrder
          (modify
            (λ y. record y { limiter = (Bulkhead.try_acquire x.limiter (slot_of job def)).0 }))
          _ (Keeps-modify InOrder _ (λ y. refl))
          λ _.
            Keeps-finally _ (give_back env job def)
              (Keeps-catch InOrder _ _ (Keeps-deliver job def) (Keeps-recover def)) (λ y. refl))

  Keeps-job_at : (job : WorkflowJob) (o : Option InternalNode) → Keeps InOrder (job_at env job o)
  unfolding job_at
  Keeps-job_at job none = Keeps-pure InOrder tt
  Keeps-job_at job (some n) = Keeps-work_on job n.definition

  Keeps-take_job :
      (o : Option WorkflowJob) (again : Action (Unit {0}))
      → Keeps InOrder again
      → Keeps InOrder (take_job env o again)
  unfolding take_job run_job
  Keeps-take_job none again k = Keeps-pure InOrder tt
  Keeps-take_job (some job) again k =
      Keeps-bind InOrder _ _ (search (keeps_rules, Keeps-job_at)) (λ _. k)

  Keeps-dispatch_to : (rounds : ℕ) → Keeps InOrder (dispatch_to env rounds)
  unfolding dispatch_to
  Keeps-dispatch_to zero = Keeps-pure InOrder tt
  Keeps-dispatch_to (suc rounds) = Keeps-reads InOrder _ λ x.
      Keeps-if InOrder _ _ _ (Keeps-pure InOrder tt) (
        Keeps-bind InOrder _ _ (Keeps-modify InOrder _ (λ y. refl))
          (λ _. Keeps-take_job _ _ (Keeps-dispatch_to rounds)))

  Keeps-enqueue_each : (defs : List WorkflowNode) → Keeps InOrder (enqueue_each env defs)
  unfolding enqueue_each
  Keeps-enqueue_each [] = Keeps-pure InOrder tt
  Keeps-enqueue_each (def ∷ defs) = Keeps-bind InOrder _ _ (Keeps-modify InOrder _ (λ y. refl)) λ _.
      Keeps-bind InOrder _ _ (Keeps-reads InOrder _ (λ x. Keeps-emit InOrder _))
        (λ _. Keeps-enqueue_each defs)

  Keeps-round :
      (again : Action (Unit {0})) (defs : List WorkflowNode)
      → Keeps InOrder again
      → Keeps InOrder (round env again defs)
  unfolding round dispatch
  Keeps-round again [] k = Keeps-pure InOrder tt
  Keeps-round again (def ∷ defs) k =
      search (keeps_rules, Keeps-enqueue_each, Keeps-persist, Keeps-dispatch_to) depth 9

  Keeps-drive_rounds : (rounds : ℕ) → Keeps InOrder (drive_rounds env rounds)
  unfolding drive_rounds
  Keeps-drive_rounds zero = Keeps-throw InOrder out_of_fuel
  Keeps-drive_rounds (suc rounds) =
      Keeps-reads InOrder _ λ x.
        Keeps-if InOrder _ _ _ (Keeps-cancel_all _) (Keeps-round _ _ (Keeps-drive_rounds rounds))

  pub Keeps-drive : Keeps InOrder (drive env)
  unfolding drive
  Keeps-drive =
      search (keeps_rules, Keeps-promote_ready, Keeps-drive_rounds, Keeps-finalize, Keeps-persist)
        depth 9

-- A node of a fresh map is PLANNED.
AllPlanned : Map InternalNode → Type 0
AllPlanned m = (id : String) (n : InternalNode) → get id m ≡ some n → is_active n.status ≡ false

nodes_from-AllPlanned :
    (m : Map InternalNode) (ns : List WorkflowNode) → AllPlanned m → AllPlanned (nodes_from m ns)
unfolding nodes_from AllPlanned make_node
nodes_from-AllPlanned m [] h = h
nodes_from-AllPlanned m (d ∷ ds) h = nodes_from-AllPlanned (set d.id (make_node d) m) ds λ id n e.
    elim (Bool-cases (str_eq d.id id)) [
      | inl same ↦
          let p : make_node d ≡ n = ground (arith, get-set d.id id (make_node d) m) in
          subst (λ k. is_active k.status ≡ false) p refl
      | inr other ↦ h id n (ground (arith, get-set d.id id (make_node d) m))
    ]

nodes_of-InOrder : (graph : List WorkflowNode) → InOrder (nodes_of graph)
unfolding nodes_of AllPlanned get
nodes_of-InOrder graph = record {
  deps_done =
      λ id n e active. absurd (ground (arith, nodes_from-AllPlanned [] graph (λ j k g. cc) id n e));
}

Keeps-reset :
    (env : Env) (graph : List WorkflowNode) (task_id run_id : String)
    → Keeps InOrder (modify (reset env graph task_id run_id))
unfolding modify reset
Keeps-reset env graph task_id run_id = record { at = λ x o. nodes_of-InOrder graph }

Keeps-launch :
    (env : Env) (graph : List WorkflowNode) (task_id run_id : String)
    → Keeps InOrder (launch env graph task_id run_id)
unfolding launch
Keeps-launch env graph task_id run_id =
    search (keeps_rules, Keeps-reset, Keeps-persist, Keeps-drive) depth 9

-- Whatever the injected code answers: after a run, also one that throws, every node whose status is
-- not PLANNED, SKIPPED or CANCELLED has all its dependencies COMPLETED, if that holds before.
pub run-InOrder :
    (env : Env) (graph : List WorkflowNode) (task_id run_id : String) (x : Exec)
    → InOrder x.nodes
    → InOrder (run env graph task_id run_id x).1.nodes
unfolding run
run-InOrder env graph task_id run_id x o =
    (Keeps-bind InOrder _ _ (Keeps-from_dag _) (λ _. Keeps-launch env graph task_id run_id)).at x o

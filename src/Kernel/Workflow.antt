-- ===== src/Kernel/Workflow.antt =====
-- comcmd/kernel/workflow.py, the runner: `start`, `resume` and `_drive`.
pub mod Gates
use company_command.Prelude.{
  String, Bool, true, false, not, ◌&&◌, Option, none, some, List, [], ◌∷◌, ◌==◌, Dict, lookup,
  insert, contains, add, is_some, if◌then◌else◌,
}
use company_command.Json.{str, obj, bool, Fields, end, field}
use company_command.Ids.{Platform, content_id}
use company_command.Spec.{WorkflowStep, StepType, work, human_gate, fanout, verify}
use company_command.Kernel.Records.{
  TaskState, ready, waiting_for_human, succeeded, failed_retryable, task_created, step_started,
  step_succeeded, artifact_written, performed, Waiting, verification_failed, worker_deferred,
  approval_open, effect_blocked,
}
use company_command.Kernel.Order.{Traversal, visited, cycle, missing, in_dependency_order}
use company_command.Kernel.Executor.{ExecutionOutcome, execute}
use company_command.Kernel.Runtime.{
  WorkerResult, M, Result, ok, raised, Error, pure, throw, or_throw, on_world, ◌>>=◌, ◌>>◌,
  unknown_workflow, worker_failed, unknown_status, not_a_gate, cycle_at_runtime, key_error, no_fuel,
  gateway_raised, executor_raised,
}
use company_command.Kernel.Replay.{
  TaskHandle, completed_steps, recorded_artifacts, recorded_inputs, task_exists, emit, set_state,
}
use company_command.Kernel.Steps.{
  GateResult, Runner, run_work_step, run_fanout, run_verify, Verification, verification_fields,
  gate_intent, run_human_gate,
}
use company_command.Gateway.Intents.{ActionIntent}
use company_command.Gateway.Receipts.{
  GateDecision, authorized, auto, require_approval, deny, GateOutcome,
}
use company_command.Gateway.Gate.{submit_approval}
use company_command.Gateway.Verifier.{Assertion}

-- After one step: on to the next one with the steps done so far, or parked.
pub data Progress : Type 0 where
  going : List String → TaskHandle → Progress
  parked : TaskHandle → Progress

abbrev pub with_state : TaskHandle → TaskState → Option Waiting → TaskHandle
with_state h state waiting_on = record h { state = state; waiting_on = waiting_on }

-- `handle.artifacts.setdefault(sid, recorded.get(sid))`
abbrev pub set_default : String → Option Fields → Dict (Option Fields) → Dict (Option Fields)
set_default sid recorded artifacts =
    if is_some (lookup sid artifacts) then artifacts else insert sid recorded artifacts

-- The recorded artifacts, each of which is there.
abbrev pub present : Dict Fields → Dict (Option Fields)
present [] = []
present ((sid, a) ∷ d) = (sid, some a) ∷ present d

abbrev artifact_or_empty : Option Fields → Fields
artifact_or_empty none = end
artifact_or_empty (some a) = a

abbrev ordered_steps : Traversal → Result (List WorkflowStep)
ordered_steps (visited v) = ok v.ordered
ordered_steps (cycle id) = raised cycle_at_runtime
ordered_steps (missing id) = raised key_error
ordered_steps Traversal.no_fuel = raised no_fuel

module _ (p : Platform) (r : Runner) where
  -- A step has succeeded: the event, the artifact and the set of steps done.
  unfoldable pub succeed : TaskHandle → List String → String → Fields → M Progress
  succeed h done sid artifact = do
    emit p r.company_name h.task_id (step_succeeded sid artifact)
    pure (going (add sid done) (record h { artifacts = insert sid (some artifact) h.artifacts }))

  unfoldable pub park : TaskHandle → TaskState → Option Waiting → M Progress
  park h state waiting_on =
      let h' = with_state h state waiting_on in do set_state p r.company_name h'; pure (parked h')

  unfoldable pub fail : TaskHandle → Error → M Progress
  fail h e = do set_state p r.company_name (with_state h failed_retryable h.waiting_on); throw e

  -- A worker that has deferred: its artifact is written, and the task is parked.
  unfoldable pub defer_work : TaskHandle → String → WorkerResult → M Progress
  defer_work h sid result = do
    elim result.artifact [
      | none ↦ pure tt
      | some a ↦ emit p r.company_name h.task_id (artifact_written sid "deferred" a)
    ]
    park h failed_retryable (some (worker_deferred sid result.usage result.artifact))

  -- What follows a worker's answer to a work step, by its status.
  unfoldable pub settle_work : TaskHandle → List String → String → WorkerResult → M Progress
  settle_work h done sid result =
      if result.status == "error"
      then fail h worker_failed
      else if result.status == "deferred"
      then defer_work h sid result
      else if not (result.status == "ok")
      then fail h unknown_status
      else succeed h done sid (artifact_or_empty result.artifact)

  unfoldable pub settle_verify : TaskHandle → List String → String → Verification → M Progress
  settle_verify h done sid v =
      if not v.verified
      then park h waiting_for_human (some (verification_failed sid v.approvals v.verifiers))
      else succeed h done sid (verification_fields v)

  -- What follows a human gate, by the state that it returns: parked, or done.
  unfoldable pub settle_gate : TaskHandle → List String → String → GateResult → M Progress
  settle_gate h done sid outcome = elim outcome.state [
    | waiting_for_human ↦ park h waiting_for_human outcome.waiting_on
    | _ ↦ pure (going (add sid done) h)
  ]

  -- A step that is not done yet, by its type.
  unfoldable pub run_new : StepType → TaskHandle → List String → WorkflowStep → Fields → M Progress
  run_new human_gate h done step inputs = do
    outcome ← run_human_gate p r h step
    settle_gate h done step.id outcome
  run_new fanout h done step inputs = do
    emit p r.company_name h.task_id (step_started step.id)
    artifact ← run_fanout p r h step inputs
    succeed h done step.id artifact
  run_new verify h done step inputs = do
    emit p r.company_name h.task_id (step_started step.id)
    v ← run_verify p r h step inputs
    settle_verify h done step.id v
  run_new work h done step inputs = do
    emit p r.company_name h.task_id (step_started step.id)
    result ← run_work_step p r h step inputs
    settle_work h done step.id result

  -- A step that the log has as succeeded: only its artifact is taken over.
  unfoldable pub replay : TaskHandle → List String → String → M Progress
  replay h done sid = do
    recorded ← recorded_artifacts p r.company_name h.task_id
    pure (going done (record h { artifacts = set_default sid (lookup sid recorded) h.artifacts }))

  unfoldable pub run_step : TaskHandle → List String → WorkflowStep → Fields → M Progress
  run_step h done step inputs =
      if contains step.id done then replay h done step.id else run_new step.type h done step inputs

  -- The loop of `_drive`, and the success behind it.
  unfoldable pub drive_steps : List WorkflowStep → Fields → List String → TaskHandle → M TaskHandle
  drive_steps [] inputs done h =
      let h' = with_state h succeeded h.waiting_on in do set_state p r.company_name h'; pure h'
  drive_steps (step ∷ steps) inputs done h = run_step h done step inputs >>= λ progress.
      elim progress [ parked h' ↦ pure h' | going done' h' ↦ drive_steps steps inputs done' h' ]

  unfoldable pub drive : TaskHandle → Fields → M TaskHandle
  drive h inputs = do
    wf ← or_throw (lookup h.workflow_id r.workflows) key_error
    done ← completed_steps p r.company_name h.task_id
    steps ← (λ t. (ordered_steps (in_dependency_order wf.steps), t))
    drive_steps steps inputs done h

  abbrev new_handle : String → String → TaskHandle
  new_handle task_id workflow_id = record {
    company = r.company_name;
    task_id = task_id;
    workflow_id = workflow_id;
    state = ready;
    artifacts = [];
    waiting_on = none;
  }

  -- `content_id("task", {"rev": ..., "wf": ..., "inputs": ...})`
  unfoldable pub task_id_of : String → Fields → String
  task_id_of workflow_id inputs = content_id p "task" (
      obj (
        field "rev" (str r.revision_id)
          (field "wf" (str workflow_id) (field "inputs" (obj inputs) end))))

  unfoldable pub start : String → Fields → M TaskHandle
  start workflow_id inputs = elim (lookup workflow_id r.workflows) [
    | none ↦ throw unknown_workflow
    | some wf ↦ do
      let task_id = task_id_of workflow_id inputs
      done ← completed_steps p r.company_name task_id
      exists ← task_exists p r.company_name task_id
      elim done [
        | [] ↦
            (if exists
              then pure tt
              else emit p r.company_name task_id (task_created workflow_id inputs))
        | d ∷ ds ↦ pure tt
      ]
      drive (new_handle task_id workflow_id) inputs
  ]

  unfoldable pub resume : String → String → Option Fields → M TaskHandle
  resume task_id workflow_id inputs = do
    artifacts ← recorded_artifacts p r.company_name task_id
    given ← elim inputs [ none ↦ recorded_inputs p r.company_name task_id | some i ↦ pure i ]
    drive (record (new_handle task_id workflow_id) { artifacts = present artifacts }) given

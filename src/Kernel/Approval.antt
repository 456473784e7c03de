-- ===== src/Kernel/Approval.antt =====
-- comcmd/kernel/workflow.py, `approve_step`: a gate passed by an approval, its effect, and the rest of the
-- task.
use company_command.Prelude.{
  String, Bool, true, false, not, ◌&&◌, Option, none, some, List, [], ◌∷◌, ◌==◌, lookup,
  if◌then◌else◌,
}
use company_command.Json.{bool, end, field}
use company_command.Ids.{Platform}
use company_command.Spec.{WorkflowStep, human_gate}
use company_command.Kernel.Records.{
  waiting_for_human, failed_retryable, step_succeeded, performed, approval_open, effect_blocked,
}
use company_command.Kernel.Executor.{ExecutionOutcome, execute}
use company_command.Kernel.Runtime.{
  M, pure, or_throw, on_world, ◌>>=◌, ◌>>◌, not_a_gate, key_error, gateway_raised, executor_raised,
}
use company_command.Kernel.Replay.{TaskHandle, emit, set_state}
use company_command.Kernel.Steps.{Runner, gate_intent}
use company_command.Gateway.Intents.{ActionIntent}
use company_command.Gateway.Receipts.{
  GateDecision, authorized, auto, require_approval, deny, GateOutcome,
}
use company_command.Gateway.Gate.{submit_approval}
use company_command.Gateway.Verifier.{Assertion}
use company_command.Kernel.Workflow.{with_state, resume}

-- The step that has this id first.
unfoldable pub find_step : String → List WorkflowStep → Option WorkflowStep
find_step id [] = none
find_step id (s ∷ ss) = if s.id == id then some s else find_step id ss

abbrev is_authorized : GateDecision → Bool
is_authorized auto = false
is_authorized require_approval = false
is_authorized authorized = true
is_authorized deny = false

module _ (p : Platform) (r : Runner) where
  -- `approve_step`, from where the effect has been performed or there is none: drive the rest.
  unfoldable pub pass_gate : TaskHandle → String → M TaskHandle
  pass_gate h step_id = do
    emit p r.company_name h.task_id (step_succeeded step_id (field "authorized" (bool true) end))
    resume p r h.task_id h.workflow_id none

  abbrev block : TaskHandle → String → String → M TaskHandle
  block h step_id reason =
      let h' = with_state h failed_retryable (some (effect_blocked step_id reason)) in
      do set_state p r.company_name h'; pure h'

  unfoldable pub after_effect : TaskHandle → String → ExecutionOutcome → M TaskHandle
  after_effect h step_id result = do
    emit p r.company_name h.task_id (performed step_id result.executed result.duplicate)
    if not result.executed && not result.duplicate
        then block h step_id "effect refused"
        else pass_gate h step_id

  -- What follows the gateway's answer: the effect, through the executor, on an authorization.
  unfoldable pub act_on : TaskHandle → String → ActionIntent → GateOutcome → M TaskHandle
  act_on h step_id intent out =
      if not (is_authorized out.decision)
      then pure (
          with_state h waiting_for_human
            (some (approval_open step_id out.reason out.approval_request)))
      else elim out.capability [
        | none ↦ pass_gate h step_id
        | some capability ↦ elim r.executor [
          | none ↦ block h step_id "no executor configured"
          | some handlers ↦
              on_world (execute p true handlers capability intent) executor_raised
              >>= after_effect h step_id
        ]
      ]

  unfoldable pub approve_gate : TaskHandle → WorkflowStep → Assertion → M TaskHandle
  approve_gate h step assertion = do
    intent ← gate_intent p r h step
    out ← on_world (submit_approval p r.gateway intent assertion) gateway_raised
    act_on h step.id intent out

  -- The gate that `approve_step` is given, if the workflow has it.
  unfoldable pub gate_named : String → List WorkflowStep → Option WorkflowStep
  gate_named step_id steps = elim (find_step step_id steps) [
    | none ↦ none
    | some step ↦ elim step.type [ human_gate ↦ some step | _ ↦ none ]
  ]

  unfoldable pub approve_step : String → String → String → Assertion → M TaskHandle
  approve_step task_id workflow_id step_id assertion = do
    h ← resume p r task_id workflow_id none
    wf ← or_throw (lookup workflow_id r.workflows) key_error
    step ← or_throw (gate_named step_id wf.steps) not_a_gate
    approve_gate h step assertion

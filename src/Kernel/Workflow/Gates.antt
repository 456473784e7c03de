-- ===== src/Kernel/Workflow/Gates.antt =====
-- What the runner's loop does at a step that is done, and at a human gate.
use company_command.Prelude.{
  String, ◌≡◌, refl, sym, ◌∙◌, subst, true, false, Bool, Option, none, some, List, [], ◌∷◌, ◌||◌,
  ◌==◌, All, any, add, contains, contains-append, eq_iff, arith, Dict, lookup,
}
use company_command.Json.{Fields}
use company_command.Ids.{Platform}
use company_command.Spec.{Workflow, WorkflowStep, human_gate}
use company_command.Kernel.Records.{
  succeeded, waiting_for_human, Event, Payload, task_created, task_state_changed, step_started,
  step_succeeded, artifact_written, approval_requested, approval_resolved, receipt, performed,
}
use company_command.Kernel.Ledger.{SealedEvent, read}
use company_command.Kernel.Order.{Visited, visited, in_dependency_order}
use company_command.Kernel.Runtime.{
  Runtime, Result, ok, raised, M, on_world, gateway_raised, and_then,
}
use company_command.Kernel.Replay.{
  TaskHandle, task_events, completed_in, artifacts_in, completed_steps, recorded_artifacts, events,
  emit, set_state,
}
use company_command.Kernel.Steps.{GateResult, Runner, gate_intent, run_human_gate}
use company_command.Kernel.Workflow.{
  set_default, Progress, going, parked, with_state, replay, park, settle_gate, run_new, run_step,
  drive_steps, drive,
}
use company_command.Gateway.Gate.{decide}

-- The next step is not reached: the task waits for a human, unless there is an exception.
abbrev pub IsHeld : Result Progress → Type 0
IsHeld (ok (going done h)) = ⊥
IsHeld (ok (parked h)) = h.state ≡ waiting_for_human
IsHeld (raised e) = Unit

-- The gate asks its task to wait.
abbrev IsWaiting : Result GateResult → Type 0
IsWaiting (ok outcome) = outcome.state ≡ waiting_for_human
IsWaiting (raised e) = Unit

and_then-IsWaiting :
    {A : Type 0} (o : Result A) (f : A → M GateResult) (t : Runtime)
    → ((a : A) (u : Runtime) → IsWaiting (f a u).0)
    → IsWaiting (and_then o f t).0
and_then-IsWaiting (ok a) f t h = h a t
and_then-IsWaiting (raised e) f t h = tt

-- The event says that this step has succeeded.
abbrev pub reports_success : String → Event → Bool
reports_success sid e = elim e.payload [ step_succeeded step artifact ↦ step == sid | _ ↦ false ]

contains-add : (k a : String) (xs : List String) → contains k (add a xs) ≡ (contains k xs || a == k)
contains-add k a xs = ground (arith, contains-append k xs (a ∷ []), eq_iff a k)

-- The steps that the log has as completed are those that some event reports as succeeded.
completed_in-reported :
    (sid : String) (es : List Event) (done : List String)
    → contains sid (completed_in es done) ≡ (contains sid done || any (reports_success sid) es)
unfolding completed_in
completed_in-reported sid [] done = ground arith
completed_in-reported sid (e ∷ es) done = go e.payload refl (λ d. completed_in-reported sid es d)
  where
    go :
        (payload : Payload)
        → e.payload ≡ payload
        → ((d : List String)
            → contains sid (completed_in es d) ≡ (contains sid d || any (reports_success sid) es))
        → contains sid (completed_in (e ∷ es) done)
          ≡ (contains sid done || any (reports_success sid) (e ∷ es))
    go (step_succeeded step artifact) is rest =
        rw is (ground (arith, rest (add step done), contains-add sid step done))
    go (task_created _ _) is rest = rw is (ground (arith, rest done))
    go (task_state_changed _ _) is rest = rw is (ground (arith, rest done))
    go (step_started _) is rest = rw is (ground (arith, rest done))
    go (artifact_written _ _ _) is rest = rw is (ground (arith, rest done))
    go (approval_requested _) is rest = rw is (ground (arith, rest done))
    go (approval_resolved _ _ _) is rest = rw is (ground (arith, rest done))
    go (receipt _) is rest = rw is (ground (arith, rest done))
    go (performed _ _ _) is rest = rw is (ground (arith, rest done))

module _ (p : Platform) (r : Runner) where
  run_step-replayed :
      (h : TaskHandle) (done : List String) (step : WorkflowStep) (inputs : Fields) (t : Runtime)
      (ses : List SealedEvent)
      → read p r.company_name t.world.ledger ≡ some ses
      → contains step.id done ≡ true
      → (artifacts : Dict (Option Fields)) × (run_step p r h done step inputs t
          ≡ (ok (going done (record h { artifacts = artifacts })), t))
  unfolding run_step replay recorded_artifacts events
  run_step-replayed h done step inputs t ses fine seen = (
    set_default step.id (lookup step.id (artifacts_in (task_events h.task_id ses) [])) h.artifacts,
    rw (seen, fine) refl,
  )

  drive_steps-replayed :
      (steps : List WorkflowStep) (inputs : Fields) (done : List String) (h : TaskHandle)
      (t : Runtime) (ses : List SealedEvent)
      → read p r.company_name t.world.ledger ≡ some ses
      → All (λ step. contains step.id done ≡ true) steps
      → (drive_steps p r steps inputs done h t).1
        ≡ (set_state p r.company_name (with_state h succeeded h.waiting_on) t).1
  unfolding drive_steps emit
  drive_steps-replayed [] inputs done h t ses fine seen = refl
  drive_steps-replayed (step ∷ steps) inputs done h t ses fine (seen, others) =
      let (artifacts, replayed) = run_step-replayed h done step inputs t ses fine seen in
      rw replayed (
        drive_steps-replayed steps inputs done (record h { artifacts = artifacts }) t ses fine
          others)

  All-completed :
      (es : List Event) (steps : List WorkflowStep)
      → All (λ step. any (reports_success step.id) es ≡ true) steps
      → All (λ step. contains step.id (completed_in es []) ≡ true) steps
  All-completed es [] reported = tt
  All-completed es (step ∷ steps) (reported, others) =
      (completed_in-reported step.id es [] ∙ reported, All-completed es steps others)

  -- A task of whose steps the log reports every one as succeeded is not worked on again: whatever the types
  -- of the steps, driving it calls no worker, gateway or executor, and all it changes is to record the state
  -- `SUCCEEDED` once.
  pub drive-replayed :
      (h : TaskHandle) (inputs : Fields) (t : Runtime) (wf : Workflow) (ses : List SealedEvent)
      (v : Visited)
      → lookup h.workflow_id r.workflows ≡ some wf
      → read p r.company_name t.world.ledger ≡ some ses
      → in_dependency_order wf.steps ≡ visited v
      → All (λ step. any (reports_success step.id) (task_events h.task_id ses) ≡ true) v.ordered
      → (drive p r h inputs t).1
        ≡ (set_state p r.company_name (with_state h succeeded h.waiting_on) t).1
  unfolding drive completed_steps events
  drive-replayed h inputs t wf ses v known fine ordered reported =
      rw (known, drive)
        (rw (fine, drive)
          (rw (ordered, drive)
            (drive_steps-replayed v.ordered inputs (completed_in (task_events h.task_id ses) []) h t
              ses fine (All-completed (task_events h.task_id ses) v.ordered reported))))

  run_human_gate-IsWaiting :
      (h : TaskHandle) (step : WorkflowStep) (t : Runtime)
      → IsWaiting (run_human_gate p r h step t).0
  unfolding run_human_gate
  run_human_gate-IsWaiting h step t =
      and_then-IsWaiting (gate_intent p r h step t).0 _ _ (λ intent u.
        and_then-IsWaiting (on_world (decide p r.gateway intent none) gateway_raised u).0 _ _
          (λ out v. refl))

  settle_gate-IsHeld :
      (h : TaskHandle) (done : List String) (sid : String) (o : Result GateResult) (t : Runtime)
      → IsWaiting o
      → IsHeld (and_then o (λ outcome. settle_gate p r h done sid outcome) t).0
  unfolding settle_gate park emit
  settle_gate-IsHeld h done sid (ok outcome) t waits = rw waits refl
  settle_gate-IsHeld h done sid (raised e) t waits = tt

  run_new-IsHeld :
      (h : TaskHandle) (done : List String) (step : WorkflowStep) (inputs : Fields) (t : Runtime)
      → IsHeld (run_new p r human_gate h done step inputs t).0
  unfolding run_new
  run_new-IsHeld h done step inputs t =
      settle_gate-IsHeld h done step.id _ _ (run_human_gate-IsWaiting h step t)

  -- A human gate that is not done holds its task: the loop parks there with the task waiting for a human, or
  -- raises, and goes no further; opening the gate never counts as passing it.
  pub run_step-IsHeld :
      (h : TaskHandle) (done : List String) (step : WorkflowStep) (inputs : Fields) (t : Runtime)
      → contains step.id done ≡ false
      → step.type ≡ human_gate
      → IsHeld (run_step p r h done step inputs t).0
  unfolding run_step
  run_step-IsHeld h done step inputs t new gate = rw new (
      subst (λ type. IsHeld (run_new p r type h done step inputs t).0) (sym gate)
        (run_new-IsHeld h done step inputs t))

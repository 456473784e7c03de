-- ===== src/Workers/Native/Offline.antt =====
-- About the native worker where no skill is registered for a step and no backend is bound.
use company_command.Prelude.{
  ℕ, ◌≡◌, refl, sym, ap, subst, ◌∙◌, String, false, Option, none, some, List, ◌∷◌, lookup, length,
  contains,
}
use company_command.Json.{Fields, str, field, end}
use company_command.Ids.{Platform}
use company_command.Spec.{WorkflowStep, work}
use company_command.Kernel.Records.{
  failed_retryable, worker_deferred, step_started, task_state_changed,
}
use company_command.Kernel.Ledger.{append}
use company_command.Kernel.Runtime.{Runtime, Result, ok, TaskEnvelope}
use company_command.Kernel.Replay.{TaskHandle, emit}
use company_command.Kernel.Steps.{
  Runner, envelope, work_envelope, call_worker, decide_all, run_work_step,
}
use company_command.Kernel.Workflow.{
  Progress, parked, run_step, run_new, settle_work, defer_work, park, with_state,
}
use company_command.Workers.CliAgents.{result_of}
use company_command.Workers.Models.{new_registry, offline_defer, backend_for}
use company_command.Workers.Native.{
  NativeWorker, skill_for, profile_or_default, ask_model, answered, run,
}

backend_for-unbound :
    (profile : Option String) → backend_for profile (new_registry none) ≡ offline_defer
unfolding backend_for offline_defer lookup
backend_for-unbound none = refl
backend_for-unbound (some profile) = refl

-- What the offline backend leaves in the result.
abbrev pub offline_usage : TaskEnvelope → Fields
offline_usage env =
    field "profile" (str (profile_or_default env.model_profile))
      (field "reason" (str "offline-defer backend (Phase 0)") end)

run-offline :
    (w : NativeWorker) (n : ℕ) (env : TaskEnvelope)
    → skill_for env w.skills ≡ none
    → w.profiles ≡ new_registry none
    → run w n env ≡ some (result_of "deferred" none (offline_usage env))
unfolding run ask_model answered offline_defer
run-offline w n env unskilled unbound =
    rw (run, unskilled) (rw (unbound, backend_for-unbound env.model_profile) refl)

module _ (p : Platform) (r : Runner) where
  -- The worker's answer to a step, whichever call it is, reaches the runner when it brings no intents.
  run_work_step-answered :
      (h : TaskHandle) (step : WorkflowStep) (inputs : Fields) (t : Runtime) (status : String)
      (artifact : Option Fields) (usage : Fields)
      → ((n : ℕ)
          → r.worker n (work_envelope p r h step inputs) ≡ some (result_of status artifact usage))
      → run_work_step p r h step inputs t
        ≡ (ok (result_of status artifact usage), record t { runs = (h.task_id, step.id) ∷ t.runs })
  unfolding run_work_step call_worker decide_all work_envelope envelope
  run_work_step-answered h step inputs t status artifact usage answer =
      rw (call_worker, answer (length t.runs)) refl

  -- What a step that starts and is deferred without an artifact leaves behind.
  abbrev pub deferred : TaskHandle → WorkflowStep → Fields → Runtime → Result Progress × Runtime
  deferred h step usage t =
      let waiting = worker_deferred step.id usage none in
      let started =
        append p
          (record { company = r.company_name; task_id = h.task_id; payload = step_started step.id })
          t.world.ledger in
      (
        ok (parked (with_state h failed_retryable (some waiting))),
        record {
          world = record t.world {
            ledger =
                append p
                  (record {
                    company = r.company_name;
                    task_id = h.task_id;
                    payload = task_state_changed failed_retryable (some waiting);
                  })
                  started;
          };
          runs = (h.task_id, step.id) ∷ t.runs;
        },
      )

  -- In a workflow run by the native worker, a new work step with neither a skill nor a bound backend parks
  -- the task as `FAILED_RETRYABLE`. All that is recorded is that the step was started and the state with the
  -- deferral, so no artifact and no success stand in for the answer.
  pub run_step-offline :
      (w : NativeWorker) (h : TaskHandle) (done : List String) (step : WorkflowStep)
      (inputs : Fields) (t : Runtime)
      → r.worker ≡ run w
      → skill_for (work_envelope p r h step inputs) w.skills ≡ none
      → w.profiles ≡ new_registry none
      → step.type ≡ work
      → contains step.id done ≡ false
      → run_step p r h done step inputs t
        ≡ deferred h step (offline_usage (work_envelope p r h step inputs)) t
  unfolding run_step run_new emit settle_work defer_work park
  run_step-offline w h done step inputs t native unskilled unbound kind new =
      let env = work_envelope p r h step inputs in
      let answer : (n : ℕ) → r.worker n env ≡ some (result_of "deferred" none (offline_usage env)) =
        λ n. ap (λ f. f n env) native ∙ run-offline w n env unskilled unbound in
      rw new (
        subst
          (λ type. run_new p r type h done step inputs t ≡ deferred h step (offline_usage env) t)
          (sym kind)
          (rw (run_work_step-answered h step inputs _ "deferred" none (offline_usage env) answer)
            refl))

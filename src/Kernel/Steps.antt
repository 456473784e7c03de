-- ===== src/Kernel/Steps.antt =====
-- comcmd/kernel/workflow.py, how one step of a workflow runs: work steps, fan-outs, verifications and
-- human gates. Work steps run in process; the optional DBOS engine is not modelled. The calls of a
-- fan-out's or verification's workers are made in the order of their indices, and their results are
-- taken in that order, as the program takes them.
use Prim.Native.String.{◌++◌ as concat}
use company_command.Prelude.{
  ℕ, zero, suc, String, Bool, false, Option, none, some, List, [], ◌∷◌, Dict, lookup, length, leb,
  if◌then◌else◌,
}
use company_command.Json.{
  Json, null, bool, num, str, obj, Fields, end, field, get, put, merge, truthy,
}
use company_command.Ids.{Platform}
use company_command.Spec.{WorkflowStep, Workflow, Role, Action, majority}
use company_command.Kernel.Records.{TaskState, waiting_for_human, Waiting, gate}
use company_command.Kernel.Aggregate.{aggregate}
use company_command.Kernel.Executor.{ToolHandler}
use company_command.Kernel.Runtime.{
  TaskEnvelope, WorkerResult, Worker, M, ok, raised, pure, or_throw, on_world, ◌>>=◌, ◌>>◌,
  key_error, type_error, worker_raised, gateway_raised,
}
use company_command.Kernel.Replay.{TaskHandle, recorded_inputs}
use company_command.Gateway.Intents.{ActionIntent, action_digest}
use company_command.Gateway.Receipts.{Gateway}
use company_command.Gateway.Gate.{decide}

-- What `WorkflowRunner.__init__` is given: the compiled revision by its indexes, the worker, the
-- gateway, and the executor's handlers if there is an executor.
pub record Runner : Type 0 where
  pub revision_id : String
  pub company_name : String
  pub workflows : Dict Workflow
  pub roles : Dict Role
  pub actions : Dict Action
  pub worker : Worker
  pub gateway : Gateway
  pub executor : Option (Dict ToolHandler)

-- `_GateResult`
pub record GateResult : Type 0 where
  pub state : TaskState
  pub waiting_on : Option Waiting

abbrev text_or : String → Option String → String
text_or d none = d
text_or d (some s) = s

-- `handle.artifacts.get(target, {})`
abbrev target_of : Option (Option Fields) → Json
target_of none = obj end
target_of (some none) = null
target_of (some (some fs)) = obj fs

abbrev fields_or_empty : Option Fields → Fields
fields_or_empty none = end
fields_or_empty (some fs) = fs

-- `handle.artifacts.get(n)`; a step without a recorded artifact has `None` there.
abbrev artifact_of : Option (Option Fields) → Json
artifact_of none = null
artifact_of (some none) = null
artifact_of (some (some a)) = obj a

-- `{n: handle.artifacts.get(n) for n in needs}`
unfoldable pub upstream : Dict (Option Fields) → List String → Fields → Fields
upstream artifacts [] found = found
upstream artifacts (n ∷ ns) found =
    upstream artifacts ns (put n (artifact_of (lookup n artifacts)) found)

-- The artifact of `_run_verify`.
pub record Verification : Type 0 where
  pub verified : Bool
  pub approvals : ℕ
  pub verifiers : ℕ
  pub quorum : ℕ
  pub target : String

abbrev pub verification_fields : Verification → Fields
verification_fields v = field "verified" (bool v.verified) (
    field "approvals" (num v.approvals) (
      field "verifiers" (num v.verifiers)
        (field "quorum" (num v.quorum) (field "target" (str v.target) end))))

-- `int(step.get("verifyQuorum") or 1)`
abbrev pub quorum_of : WorkflowStep → ℕ
quorum_of step = elim step.verify_quorum [
  | none ↦ 1
  | some n ↦ (elim n [ zero ↦ 1 | suc k ↦ suc k ])
]

-- `bool((artifact or {}).get("approve"))`
abbrev pub approves : Fields → Bool
approves artifact = elim (get "approve" artifact) [ none ↦ false | some v ↦ truthy v ]

-- `sum(approvals)`
unfoldable pub count_approvals : List Fields → ℕ
count_approvals [] = 0
count_approvals (a ∷ rest) = if approves a then suc (count_approvals rest) else count_approvals rest

-- `step["needs"][0]`
abbrev first_need : List String → Option String
first_need [] = none
first_need (n ∷ ns) = some n

module _ (p : Platform) (r : Runner) where
  abbrev role_of : WorkflowStep → Option Role
  role_of step = elim step.run_as [ none ↦ none | some id ↦ lookup id r.roles ]

  -- `_envelope`
  unfoldable pub envelope : TaskHandle → WorkflowStep → Fields → Fields → TaskEnvelope
  envelope handle step inputs extra = record {
    company = handle.company;
    task_id = handle.task_id;
    step_id = step.id;
    role = text_or "" step.run_as;
    model_profile = elim (role_of step) [ none ↦ none | some role ↦ role.model_profile ];
    inputs = put "_upstream" (obj (upstream handle.artifacts step.needs end)) (merge inputs extra);
    allowed_tools = elim (role_of step) [ none ↦ [] | some role ↦ role.tools.allow ];
  }

  -- The envelope that `_run_work_step` builds: the same one, with no extra inputs.
  unfoldable pub work_envelope : TaskHandle → WorkflowStep → Fields → TaskEnvelope
  work_envelope handle step inputs = envelope handle step inputs end

  -- `self._worker.run(env)`
  unfoldable pub call_worker : TaskEnvelope → M WorkerResult
  call_worker env t =
      let t' = record t { runs = (env.task_id, env.step_id) ∷ t.runs } in
      elim (r.worker (length t.runs) env) [
        | none ↦ (raised worker_raised, t')
        | some result ↦ (ok result, t')
      ]

  -- `for intent in result.intents: self._gateway.decide(intent)`
  unfoldable pub decide_all : List ActionIntent → M (Unit {0})
  decide_all [] = pure tt
  decide_all (i ∷ is) = on_world (decide p r.gateway i none) gateway_raised >>= λ out. decide_all is

  unfoldable pub run_work_step : TaskHandle → WorkflowStep → Fields → M WorkerResult
  run_work_step handle step inputs = do
    result ← call_worker (work_envelope handle step inputs)
    decide_all result.intents
    pure result

  -- `pool.map(one, range(n))`: the artifacts of the candidates from index `i` on.
  unfoldable pub candidates : (ℕ → TaskEnvelope) → (remaining i : ℕ) → M (List Fields)
  candidates env zero i = pure []
  candidates env (suc remaining) i = do
    result ← call_worker (env i)
    rest ← candidates env remaining (suc i)
    pure (fields_or_empty result.artifact ∷ rest)

  unfoldable pub run_fanout : TaskHandle → WorkflowStep → Fields → M Fields
  run_fanout handle step inputs = do
    n ← or_throw step.fanout key_error
    found ←
        candidates
          (λ i. envelope handle step inputs (field "_candidate" (num i) (field "_of" (num n) end)))
          n 0
    or_throw
        (aggregate p (elim step.aggregate [ none ↦ majority | some how ↦ how ]) step.aggregate_key
          step.score_key found)
        type_error

  abbrev lens : TaskHandle → WorkflowStep → Fields → ℕ → String → ℕ → TaskEnvelope
  lens handle step inputs m target i = envelope handle step inputs (
      field "_verifier" (num i) (
        field "_of" (num m)
          (field "_verify_target" (target_of (lookup target handle.artifacts)) end)))

  unfoldable pub run_verify : TaskHandle → WorkflowStep → Fields → M Verification
  run_verify handle step inputs = do
    m ← or_throw step.verifiers key_error
    target ← or_throw (first_need step.needs) key_error
    found ← candidates (lens handle step inputs m target) m 0
    pure (record {
      verified = leb (quorum_of step) (count_approvals found);
      approvals = count_approvals found;
      verifiers = m;
      quorum = quorum_of step;
      target = target;
    })

  -- `self._actions.get(policy, {}).get("tool", "")`
  abbrev tool_of : String → String
  tool_of policy = elim (lookup policy r.actions) [ none ↦ "" | some action ↦ action.tool ]

  -- The intent that a human gate authorizes: its operation is the task's recorded inputs with the
  -- upstream artifacts. A gate with no policy makes no valid intent.
  unfoldable pub gate_intent : TaskHandle → WorkflowStep → M ActionIntent
  gate_intent handle step = do
    inputs ← recorded_inputs p r.company_name handle.task_id
    policy ← or_throw step.policy type_error
    pure (record {
      company = handle.company;
      task_id = handle.task_id;
      step_id = step.id;
      requested_by = concat "workflow:" handle.workflow_id;
      action_id = policy;
      tool = tool_of policy;
      args = field "gate" (str step.id) (
          field "operation"
            (obj (
              field "inputs" (obj inputs)
                (field "upstream" (obj (upstream handle.artifacts step.needs end)) end)))
            end);
      target = some handle.task_id;
      amount = none;
      environment = none;
      audience = none;
    })

  -- `_run_human_gate`
  unfoldable pub run_human_gate : TaskHandle → WorkflowStep → M GateResult
  run_human_gate handle step = do
    intent ← gate_intent handle step
    out ← on_world (decide p r.gateway intent none) gateway_raised
    pure (record {
      state = waiting_for_human;
      waiting_on = some (gate step.id step.policy (action_digest p intent) out.approval_request);
    })

-- ===== src/Workers/Loop.antt =====
-- comcmd/workers/loop.py: bounded repository engineering in a workspace of its own.
-- `Evidence` has what a run reports of the repository, `Actions` what the code runs on.
pub mod Actions
pub mod Policy
pub mod Evidence
pub mod Workspace
pub mod Verdict
pub mod Rerun
pub mod Bounds
use Prim.Native.String.{◌++◌ as concat}
use company_command.Prelude.{
  ℕ, String, Bool, true, false, Option, none, some, List, [], ◌∷◌, ◌++◌, ◌==◌, ◌&&◌, Dict, contains,
  if◌then◌else◌,
}
use company_command.Json.{
  Json, null, bool, num, str, arr, obj, Items, nil, cons, Fields, end, field, get, merge, truthy,
  texts,
}
use company_command.Kernel.Runtime.{TaskEnvelope, WorkerResult}
use company_command.Workers.Texts.{Host, joined, join, tools_text}
use company_command.Workers.CliAgents.{result_of}
use company_command.Workers.Loop.Actions.{
  Failure, loop_worker_error, other_error, Attempt, done, raised, Read, content, not_found,
  unreadable, Process, RunnerState, dictionary, dataclass, attributes, opaque, Action, Machine,
  pure, throw, and_then, ◌>>=◌, ◌>>◌,
}
use company_command.Workers.Loop.Policy.{LoopPolicy}
use company_command.Workers.Loop.Evidence.{state_dir, repository_evidence, path_in}
use company_command.Workers.Loop.Workspace.{prepare_workspace}

-- The configuration, the workspace, the environment and whether to resume.
abbrev pub LoopRun : Type 0 → Type 0
LoopRun D = Fields → String → Dict String → Bool → Action D RunnerState

pub record LoopWorker (D : Type 0) : Type 0 where
  pub source_repository : String
  pub workspace_root : String
  pub policy : LoopPolicy
  pub environment_allowlist : List String
  pub runner : LoopRun D

-- `_state_dict`
unfoldable pub state_dict : {D : Type 0} → RunnerState → Action D Fields
state_dict (dictionary d) = pure d
state_dict (dataclass d) = pure d
state_dict (attributes d) = pure d
state_dict opaque = throw (loop_worker_error "Loop runner returned an unsupported state object")

-- `status in {...}`, which raises on a list or a dictionary.
unfoldable pub status_in : {D : Type 0} → Fields → List String → Action D Bool
status_in state words = elim (get "status" state) [
  | some (str s) ↦ pure (contains s words)
  | some (arr xs) ↦ throw (other_error "unhashable type: 'list'")
  | some (obj d) ↦ throw (other_error "unhashable type: 'dict'")
  | _ ↦ pure false
]

-- A worker's status for a Loop's.
unfoldable pub status_of : String → String
status_of loop_status =
    if loop_status == "PASSED"
    then "ok"
    else if contains loop_status ("EXHAUSTED" ∷ "STOPPED" ∷ "DRY_RUN" ∷ [])
    then "deferred"
    else "error"

-- The two `except` clauses of `run`.
abbrev pub settled : Attempt WorkerResult → WorkerResult
settled (done r) = r
settled (raised (loop_worker_error reason)) =
    result_of "deferred" none (field "worker" (str "loop") (field "reason" (str reason) end))
settled (raised (other_error error)) =
    result_of "error" none (field "worker" (str "loop") (field "error" (str error) end))

abbrev get_with : String → Fields → Json → Json
get_with k d default = elim (get k d) [ none ↦ default | some v ↦ v ]

module _ (h : Host) where
  unfoldable pub goal : TaskEnvelope → String
  unfolding join
  goal env =
      let upstream = get_with "_upstream" env.inputs (obj end) in
      let role = if env.role == "" then "(unspecified)" else env.role in
      let requested = get_with "goal" env.inputs null in
      let acceptance = get_with "acceptance" env.inputs null in
      let criteria : List String =
        if truthy acceptance
        then concat "Acceptance criteria:\n" (h.py_str acceptance) ∷ []
        else [] in
      let given = field "inputs" (obj env.inputs) (field "upstream" upstream end) in
      join "\n\n" (
        joined ("Complete Acme task " ∷ env.task_id ∷ ", step " ∷ env.step_id ∷ "." ∷ [])
          ∷ joined ("Act as role: " ∷ role ∷ "." ∷ [])
          ∷ (if truthy requested
              then concat "Goal:\n" (h.py_str requested)
              else "Goal:\nProduce the repository change required by the task inputs below.")
          ∷ criteria
        ++ concat "Allowed Acme tools (informational; do not perform external effects): "
            (tools_text env.allowed_tools)
          ∷ concat "Task inputs and upstream artifacts:\n" (h.dumps_indent (obj given))
          ∷ joined (
              "Modify only this isolated repository. Do not merge, deploy, publish, "
              ∷ "message, purchase, or perform any other external effect. Describe any "
              ∷ "needed external effect in the result for Acme to authorize separately." ∷ [])
          ∷ [])

  unfoldable pub config : LoopPolicy → TaskEnvelope → Fields
  unfolding goal
  config policy env =
      let loop = field "goal" (str (goal env)) (
        field "max_iterations" (num policy.max_iterations) (
          field "max_minutes" (num policy.max_minutes) (
            field "step_timeout_seconds" (num policy.step_timeout_seconds)
              (field "state_dir" (str state_dir) end)))) in
      let verifier =
        field "provider" (str policy.verifier_provider)
          (field "pass_marker" (str policy.pass_marker) end) in
      field "loop" (obj loop) (
        field "executor" (obj (field "provider" (str policy.executor_provider) end))
          (field "verifier" (obj verifier) end))

  -- `str(state.get("status", "FAILED"))`
  abbrev pub loop_status : Fields → String
  loop_status state = elim (get "status" state) [ none ↦ "FAILED" | some v ↦ h.py_str v ]

  -- What `_result` returns, with the evidence in hand.
  unfoldable pub report : TaskEnvelope → String → Fields → (evidence : Fields) → WorkerResult
  unfolding status_of
  report env workspace state evidence =
      let artifact = field "worker" (str "loop") (
        field "company" (str env.company) (
          field "task_id" (str env.task_id) (
            field "step_id" (str env.step_id)
              (field "loop" (obj state) (field "workspace" (str workspace) end))))) in
      let usage = field "worker" (str "loop") (
        field "loop_run_id" (get_with "run_id" state null) (
          field "loop_status" (str (loop_status state)) (
            field "iterations" (get_with "iteration" state (num 0))
              (field "reason" (get_with "reason" state (str "")) end)))) in
      result_of (status_of (loop_status state)) (some (merge artifact evidence)) usage

module _ {D : Type 0} (h : Host) (m : Machine D) where
  -- `_load_state`
  unfoldable pub load_state : String → Action D (Option Fields)
  load_state workspace d =
      let path = path_in workspace "state.json" in
      if m.exists d path
      then elim (m.read_text d path) [
        | not_found ↦ (raised (other_error "No such file or directory"), d)
        | unreadable error ↦ (raised (other_error error), d)
        | content text ↦ elim (m.loads text) [
          | none ↦ (raised (loop_worker_error (concat "invalid Loop state: " path)), d)
          | some (obj state) ↦ (done (some state), d)
          | some _ ↦ (done none, d)
        ]
      ]
      else (done none, d)

  -- `_result`
  unfoldable pub result : TaskEnvelope → String → Fields → Action D WorkerResult
  unfolding report
  result env workspace state = do
    evidence ← repository_evidence h m workspace
    pure (report h env workspace state evidence)

  -- `{name: os.environ[name] for name in allowlist if name in os.environ}`
  unfoldable pub environment : List String → Dict String
  environment [] = []
  environment (name ∷ names) =
      let rest = environment names in
      elim (m.environ name) [ none ↦ rest | some v ↦ (name, v) ∷ rest ]

  -- The body of `run`, behind a state that has not ended the Loop.
  unfoldable pub run_loop : LoopWorker D → TaskEnvelope → String → Bool → Action D WorkerResult
  unfolding config environment state_dict result
  run_loop w env workspace resume = do
    found ← w.runner (config h w.policy env) workspace (environment w.environment_allowlist) resume
    state ← state_dict found
    result env workspace state

  -- The body of `run`, behind `_load_state`; a state that is missing or empty counts as none.
  unfoldable pub run_from :
      LoopWorker D → TaskEnvelope → (workspace : String) → Option Fields → Action D WorkerResult
  run_from w env workspace none = run_loop w env workspace false
  run_from w env workspace (some end) = run_loop w env workspace false
  run_from w env workspace (some (field k v state)) = do
    over ← status_in (field k v state) ("PASSED" ∷ "EXHAUSTED" ∷ "FAILED" ∷ [])
    (if over
        then result env workspace (field k v state)
        else status_in (field k v state) ("RUNNING" ∷ "STOPPED" ∷ []) >>= run_loop w env workspace)

  unfoldable pub run_body : LoopWorker D → TaskEnvelope → Action D WorkerResult
  unfolding load_state run_from
  run_body w env = do
    workspace ← prepare_workspace h m w.source_repository w.workspace_root env
    loaded ← load_state workspace
    run_from w env workspace loaded

  -- `LoopWorker.run`
  unfoldable pub run : LoopWorker D → TaskEnvelope → D → WorkerResult × D
  unfolding run_body
  run w env d = let (attempt, d') = run_body w env d in (settled attempt, d')

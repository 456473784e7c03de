-- ===== src/Workers/Native.antt =====
-- comcmd/workers/native.py: the native worker, which runs registered skills and asks a model for the rest.
pub mod Offline
use Prim.Native.String.{◌++◌ as concat}
use company_command.Prelude.{
  ℕ, String, Option, none, some, List, [], ◌∷◌, ◌==◌, Dict, lookup, if◌then◌else◌,
}
use company_command.Json.{Json, str, obj, nil, cons, Fields, end, field}
use company_command.Kernel.Runtime.{TaskEnvelope, WorkerResult, Worker}
use company_command.Workers.CliAgents.{result_of}
use company_command.Workers.Models.{ModelResult, ModelBackend, ProfileRegistry, backend_for}

-- A skill is called like a worker.
pub record NativeWorker : Type 0 where
  pub skills : Dict Worker
  pub profiles : ProfileRegistry

-- `skills.get(step_id) or skills.get(role)`
unfoldable pub skill_for : TaskEnvelope → Dict Worker → Option Worker
skill_for env skills = elim (lookup env.step_id skills) [
  | some skill ↦ some skill
  | none ↦ lookup env.role skills
]

-- `envelope.model_profile or "default"`
abbrev profile_or_default : Option String → String
profile_or_default none = "default"
profile_or_default (some profile) = if profile == "" then "default" else profile

-- What a model's answer is to the workflow.
unfoldable pub answered : Option ModelResult → Option WorkerResult
answered none = none
answered (some r) = some (
    if r.status == "ok"
    then result_of "ok" (some (field "text" r.text end)) r.meta
    else result_of "deferred" none r.meta)

unfoldable pub ask_model : NativeWorker → Worker
unfolding answered
ask_model w n env =
    let content = concat "step " env.step_id in
    let message = obj (field "role" (str "user") (field "content" (str content) end)) in
    answered (
      backend_for env.model_profile w.profiles n (profile_or_default env.model_profile)
        (cons message nil) nil)

-- `NativeWorker.run`
unfoldable pub run : NativeWorker → Worker
unfolding ask_model
run w n env = elim (skill_for env w.skills) [ some skill ↦ skill n env | none ↦ ask_model w n env ]

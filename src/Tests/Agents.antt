-- ===== src/Tests/Agents.antt =====
-- The adapters of the agents at short outputs and sessions, and the native worker without a model.
use company_command.Prelude.{
  ◌≡◌, refl, String, true, none, some, List, [], ◌∷◌, ◌++◌, ◌==◌, if◌then◌else◌, lookup,
}
use company_command.Json.{Json, str, obj, Fields, end, field, get}
use company_command.Kernel.Runtime.{TaskEnvelope}
use company_command.Kernel.Steps.{Runner, work_envelope}
use company_command.Kernel.Workflow.{run_step}
use company_command.Workers.Texts.{Host, returned, failed, rfind}
use company_command.Workers.Extract.{extract_json, extract_from, candidate}
use company_command.Workers.Extract.Last.{IsExtracted, extract_json-IsExtracted}
use company_command.Workers.CliAgents.{CliAgentWorker}
use company_command.Workers.CliAgents as Cli
use company_command.Workers.CliAgents.Outputs.{IsOutput, run-IsOutput}
use company_command.Workers.OpenWorker.Frames.{Frame, run_session, effect_of, effect_on}
use company_command.Workers.OpenWorker.Listening.{said}
use company_command.Workers.OpenWorker.Turns.{IsTurn, run_session-completes, run_session-refuses}
use company_command.Workers.Models.{new_registry}
use company_command.Workers.Native.{NativeWorker, skill_for}
use company_command.Workers.Native as Native
use company_command.Workers.Native.Offline.{deferred, offline_usage, run_step-offline}
use company_command.Tests.Sample.{sample_platform}
use company_command.Tests.Orders.{step_with}
use company_command.Tests.Runs.{runner, handle, runtime}

abbrev text_of : Json → String
text_of (str s) = s
text_of _ = ""

-- One text loads.
abbrev pub host : Host
host = record {
  dumps_indent = text_of;
  load_object = λ s. if s == "{a:{}}" then some (field "a" (obj end) end) else none;
  py_repr = text_of;
  str_number = λ n. "";
  strip = λ s. s;
  py_str = text_of;
  sha256_hex = λ s. s;
}

-- The inner object does not load up to the last brace.
nested : extract_json host "so {a:{}} it is" ≡ some (field "a" (obj end) end)
unfolding extract_json extract_from rfind candidate
nested = refl

extract_json-IsExtracted_example :
    IsExtracted host "so {a:{}} it is" (extract_json host "so {a:{}} it is")
extract_json-IsExtracted_example = extract_json-IsExtracted host "so {a:{}} it is"

abbrev pub envelope : TaskEnvelope
envelope = record {
  company = "acme";
  task_id = "t1";
  step_id = "draft";
  role = "writer";
  model_profile = none;
  inputs = end;
  allowed_tools = [];
}

abbrev agent : CliAgentWorker
agent = record {
  name = "codex";
  command = "codex" ∷ "exec" ∷ [];
  runner = λ n argv prompt. returned "{a:{}}";
  available = true;
}

run-IsOutput_example : IsOutput host agent 0 envelope (Cli.run host agent 0 envelope)
run-IsOutput_example = run-IsOutput host agent 0 envelope

abbrev event : String → Fields → Frame
event kind d = returned (obj (field "type" (str kind) (field "data" (obj d) end)))

abbrev ready : Fields
ready = field "type" (str "ready") end

abbrev before : List Frame
before = event "tool_call" end ∷ event "assistant_message" (field "text" (str "done") end) ∷ []

abbrev frames : List Frame
frames = returned (obj ready) ∷ (before ++ event "turn_done" end ∷ [])

frames-IsTurn : IsTurn host frames "done"
unfolding effect_of effect_on said get
frames-IsTurn = record {
  ready = ready;
  before = before;
  last = event "turn_done" end;
  after = [];
  split = refl;
  opened = refl;
  harmless = (tt, (tt, tt));
  ended = refl;
  spoken = refl;
}

run_session-completes_example : (run_session host "write" "lost" frames).outcome ≡ returned "done"
run_session-completes_example =
    run_session-completes host "write" "lost" frames "done" frames-IsTurn

plan_refused :
    (run_session host "write" "lost"
      (returned (obj ready) ∷ (before ++ event "plan_proposed" end ∷ []))).outcome
    ≡ failed "OpenWorker requested interaction in read-only worker mode: plan_proposed"
unfolding effect_of effect_on get
plan_refused =
    run_session-refuses host "write" "lost" ready
      (field "type" (str "plan_proposed") (field "data" (obj end) end)) before [] "plan_proposed"
      refl (tt, (tt, tt)) refl refl

abbrev native : NativeWorker
native = record { skills = []; profiles = new_registry none }

abbrev offline_runner : Runner
offline_runner = record runner { worker = Native.run native }

unskilled : (env : TaskEnvelope) → skill_for env native.skills ≡ none
unfolding skill_for lookup
unskilled env = refl

run_step-offline_example :
    run_step sample_platform offline_runner handle [] (step_with "draft" []) end runtime
    ≡ deferred sample_platform offline_runner handle
        (step_with "draft" [])
        (offline_usage
          (work_envelope sample_platform offline_runner handle (step_with "draft" []) end))
        runtime
run_step-offline_example =
    run_step-offline sample_platform offline_runner native handle [] (step_with "draft" []) end
      runtime refl (unskilled _) refl refl refl

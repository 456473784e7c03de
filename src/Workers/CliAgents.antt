-- ===== src/Workers/CliAgents.antt =====
-- comcmd/workers/cli_agents.py: the adapters of Codex and OpenHands, which are command-line agents.
-- An agent may answer each call differently, so it is given the number of earlier calls too.
pub mod Outputs
use Prim.Native.String.{◌++◌ as concat}
use company_command.Prelude.{
  ℕ, String, Bool, true, false, Option, none, some, List, [], ◌∷◌, if◌then◌else◌,
}
use company_command.Json.{Json, str, obj, Fields, end, field, get}
use company_command.Kernel.Runtime.{TaskEnvelope, WorkerResult, Worker}
use company_command.Workers.Texts.{Host, Outcome, returned, failed, joined, join, tools_text}
use company_command.Workers.Extract.{extract_json}

-- `argv -> stdout`, or the exception that the call raises.
abbrev pub CliRunner : Type 0
CliRunner = ℕ → List String → String → Outcome String

pub record CliAgentWorker : Type 0 where
  pub name : String
  pub command : List String
  pub runner : CliRunner
  pub available : Bool

-- A result without intents and questions.
abbrev pub result_of : (status : String) → Option Fields → (usage : Fields) → WorkerResult
result_of status artifact usage = record {
  status = status;
  artifact = artifact;
  intents = [];
  questions = [];
  usage = usage;
}

-- `command or default`
abbrev or_default : List String → List String → List String
or_default [] default = default
or_default (c ∷ cs) default = c ∷ cs

-- `available if available is not None else bool(command) and shutil.which(command[0]) is not None`
abbrev is_available : (which : String → Bool) → Option Bool → List String → Bool
is_available which (some available) command = available
is_available which none [] = false
is_available which none (c ∷ cs) = which c

module _ (which : String → Bool) (runner : CliRunner) where
  unfoldable pub new_cli_agent : String → List String → Option Bool → CliAgentWorker
  new_cli_agent name command available = record {
    name = name;
    command = command;
    runner = runner;
    available = is_available which available command;
  }

  unfoldable pub codex : List String → Option Bool → CliAgentWorker
  unfolding new_cli_agent
  codex command available =
      new_cli_agent "codex" (or_default command ("codex" ∷ "exec" ∷ [])) available

  unfoldable pub open_hands : List String → Option Bool → CliAgentWorker
  unfolding new_cli_agent
  open_hands command available =
      new_cli_agent "openhands" (or_default command ("openhands" ∷ "run" ∷ "-t" ∷ [])) available

module _ (h : Host) where
  unfoldable pub build_prompt : TaskEnvelope → String
  unfolding join
  build_prompt env =
      let upstream : Json = elim (get "_upstream" env.inputs) [ none ↦ obj end | some v ↦ v ] in
      join "\n" (
        joined ("You are the '" ∷ env.role ∷ "' role in company '" ∷ env.company ∷ "'." ∷ [])
        ∷ joined ("Task step: " ∷ env.step_id ∷ "." ∷ [])
        ∷ joined ("Allowed tools: " ∷ tools_text env.allowed_tools ∷ "." ∷ [])
        ∷ "Upstream artifacts (JSON):"
        ∷ h.dumps_indent upstream
        ∷ ""
        ∷ concat "Produce the step's output artifact as a single JSON object. "
            "Do not perform side effects; if an effect is needed, describe it."
        ∷ [])

  -- The artifact of an output: its object, or the text itself.
  unfoldable pub artifact_of : String → Fields
  artifact_of output = elim (extract_json h output) [
    | some d ↦ d
    | none ↦ field "text" (str (h.strip output)) end
  ]

  -- `CliAgentWorker.run`
  unfoldable pub run : CliAgentWorker → Worker
  unfolding artifact_of
  run w n env =
      if w.available
      then (elim (w.runner n w.command (build_prompt env)) [
        | failed error ↦
            some
              (result_of "error" none (field "error" (str error) (field "worker" (str w.name) end)))
        | returned output ↦
            some (result_of "ok" (some (artifact_of output)) (field "worker" (str w.name) end))
      ])
      else some
          (result_of "deferred" none (field "reason" (str (concat w.name " not available")) end))

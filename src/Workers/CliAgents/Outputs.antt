-- ===== src/Workers/CliAgents/Outputs.antt =====
-- About where the artifact of a command-line agent comes from.
use company_command.Prelude.{ℕ, ◌≡◌, refl, String, true, Option, none, some, if_ind}
use company_command.Json.{str, field, end}
use company_command.Kernel.Runtime.{TaskEnvelope, WorkerResult}
use company_command.Workers.Texts.{Host, Outcome, returned, failed}
use company_command.Workers.CliAgents.{CliAgentWorker, build_prompt, artifact_of, result_of, run}

module _ (h : Host) (w : CliAgentWorker) (n : ℕ) (env : TaskEnvelope) where
  -- The artifact is read off what the agent's program has printed.
  abbrev pub IsOutput : Option WorkerResult → Type 0
  IsOutput none = Unit
  IsOutput (some r) =
      r.status ≡ "ok"
      → (output : String) × (w.available ≡ true)
        × (w.runner n w.command (build_prompt h env) ≡ returned output)
        × (r.artifact ≡ some (artifact_of h output))

  called :
      (o : Outcome String)
      → w.available ≡ true
      → w.runner n w.command (build_prompt h env) ≡ o
      → IsOutput (elim o [
        | failed error ↦
            some
              (result_of "error" none (field "error" (str error) (field "worker" (str w.name) end)))
        | returned output ↦
            some (result_of "ok" (some (artifact_of h output)) (field "worker" (str w.name) end))
      ])
  called (failed error) there e = λ ok. absurd cc
  called (returned output) there e = λ ok. (output, there, e, refl)

  -- An agent that is not installed, or whose program raises, never leaves an `ok` result: whatever is `ok`
  -- has the artifact that the output of the agent's own call holds.
  pub run-IsOutput : IsOutput (run h w n env)
  unfolding run
  run-IsOutput = if_ind IsOutput w.available (λ there. called _ there refl) (λ _ ok. absurd cc)

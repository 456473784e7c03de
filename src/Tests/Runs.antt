-- ===== src/Tests/Runs.antt =====
-- The runner's theorems at a task whose draft is written and whose gate is next.
use company_command.Ids.{Platform}
use company_command.Spec.{Workflow}
use company_command.Kernel.Ledger.{SealedEvent, read, append}
use company_command.Kernel.Order.{Visited, visited, index, visit, visit_each, in_dependency_order}
use company_command.Prelude.{true, List, any, insert, lookup, ◌≡◌, refl, none, some, [], ◌∷◌}
use company_command.Json.{end}
use company_command.Kernel.Records.{ready, succeeded, Event, step_succeeded}
use company_command.Kernel.Runtime.{Runtime, Worker}
use company_command.Kernel.Replay.{TaskHandle, task_events, set_state}
use company_command.Kernel.Steps.{Runner}
use company_command.Kernel.Workflow.{with_state, drive, run_step}
use company_command.Kernel.Workflow.Gates.{IsHeld, reports_success, drive-replayed, run_step-IsHeld}
use company_command.Gateway.State.{new_world}
use company_command.Tests.Sample.{sample_platform}
use company_command.Tests.Authorization.{gateway}
use company_command.Tests.Declarations.{letter, writer, send, gate_step}
use company_command.Tests.Orders.{step_with}

abbrev answers : Worker
answers n env =
    some (record { status = "ok"; artifact = none; intents = []; questions = []; usage = end })

abbrev pub runner : Runner
runner = record {
  revision_id = "rev";
  company_name = "acme-1";
  workflows = ("letter", letter) ∷ [];
  roles = ("writer", writer) ∷ [];
  actions = ("send", send) ∷ [];
  worker = answers;
  gateway = record gateway { actions = ("send", send) ∷ [] };
  executor = none;
}

abbrev pub handle : TaskHandle
handle = record {
  company = "acme-1";
  task_id = "task_1";
  workflow_id = "letter";
  state = ready;
  artifacts = ("draft", some end) ∷ [];
  waiting_on = none;
}

abbrev pub runtime : Runtime
runtime = record { world = new_world; runs = ("task_1", "draft") ∷ [] }

-- A platform on which every event that is written reads back as the success of the draft.
abbrev replaying : Platform
replaying = record sample_platform {
  load_event = λ body.
      some
        (record { company = "acme-1"; task_id = "task_1"; payload = step_succeeded "draft" end });
}

abbrev draft_only : Workflow
draft_only = record letter { steps = step_with "draft" [] ∷ [] }

abbrev draft_runner : Runner
draft_runner = record runner { workflows = ("letter", draft_only) ∷ [] }

abbrev drafted : Event
drafted = record { company = "acme-1"; task_id = "task_1"; payload = step_succeeded "draft" end }

abbrev written : Runtime
written = record runtime { world = record new_world { ledger = append replaying drafted [] } }

abbrev sealed : List SealedEvent
sealed = elim (read replaying "acme-1" written.world.ledger) [ none ↦ [] | some ses ↦ ses ]

is_read : read replaying "acme-1" written.world.ledger ≡ some sealed
unfolding read append
is_read = refl

is_reported : any (reports_success "draft") (task_events "task_1" sealed) ≡ true
unfolding read append
is_reported = refl

abbrev order : Visited
order = elim (in_dependency_order draft_only.steps) [
  | visited v ↦ v
  | _ ↦ record { ordered = []; seen = [] }
]

is_ordered : in_dependency_order draft_only.steps ≡ visited order
unfolding in_dependency_order visit_each visit index insert lookup
is_ordered = refl

drive-replayed_example :
    (drive replaying draft_runner handle end written).1
    ≡ (set_state replaying "acme-1" (with_state handle succeeded none) written).1
unfolding in_dependency_order visit_each visit index insert lookup
drive-replayed_example =
    drive-replayed replaying draft_runner handle end written draft_only sealed order refl is_read
      is_ordered (is_reported, tt)

run_step-IsHeld_example :
    IsHeld (run_step sample_platform runner handle ("draft" ∷ []) gate_step end runtime).0
run_step-IsHeld_example =
    run_step-IsHeld sample_platform runner handle ("draft" ∷ []) gate_step end runtime refl refl

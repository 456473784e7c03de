-- ===== src/Kernel/Replay.antt =====
-- comcmd/kernel/workflow.py, the reconstruction of a task from the ledger: `_events`, `_task_exists`,
-- `_completed_steps`, `_recorded_artifacts`, `_recorded_inputs`; and `_emit` and `_set_state`.
use company_command.Prelude.{
  String, Bool, true, false, Option, List, [], ◌∷◌, ◌==◌, map, keep, any, add, Dict, insert,
}
use company_command.Json.{Fields, end}
use company_command.Ids.{Platform}
use company_command.Kernel.Records.{
  TaskState, Event, Payload, task_created, task_state_changed, step_succeeded, Waiting,
}
use company_command.Kernel.Ledger.{SealedEvent, read, append}
use company_command.Kernel.Runtime.{M, or_throw, world, pure, ◌>>=◌, unreadable_ledger, ok}

pub record TaskHandle : Type 0 where
  pub company : String
  pub task_id : String
  pub workflow_id : String
  pub state : TaskState
  pub artifacts : Dict (Option Fields)
  pub waiting_on : Option Waiting

-- The steps that have succeeded, as a set.
unfoldable pub completed_in : List Event → List String → List String
completed_in [] done = done
completed_in (e ∷ es) done =
    completed_in es (elim e.payload [ step_succeeded step artifact ↦ add step done | _ ↦ done ])

-- The artifact of each such step, a later one over an earlier one.
unfoldable pub artifacts_in : List Event → Dict Fields → Dict Fields
artifacts_in [] found = found
artifacts_in (e ∷ es) found =
    artifacts_in es
      (elim e.payload [ step_succeeded step artifact ↦ insert step artifact found | _ ↦ found ])

-- The inputs of the first `task_created` event.
unfoldable pub inputs_in : List Event → Fields
inputs_in [] = end
inputs_in (e ∷ es) = elim e.payload [ task_created workflow inputs ↦ inputs | _ ↦ inputs_in es ]

abbrev is_created : Event → Bool
is_created e = elim e.payload [ task_created workflow inputs ↦ true | _ ↦ false ]

unfoldable pub created_in : List Event → Bool
created_in es = any is_created es

-- The events of one task among those of its company.
abbrev pub task_events : String → List SealedEvent → List Event
task_events task_id ses = keep (λ e. e.task_id == task_id) (map (λ se. se.event) ses)

module _ (p : Platform) (company : String) where
  unfoldable pub events : String → M (List Event)
  events task_id = do
    w ← world
    ses ← or_throw (read p company w.ledger) unreadable_ledger
    pure (task_events task_id ses)

  unfoldable pub completed_steps : String → M (List String)
  unfolding events
  completed_steps task_id = do es ← events task_id; pure (completed_in es [])

  unfoldable pub recorded_artifacts : String → M (Dict Fields)
  unfolding events
  recorded_artifacts task_id = do es ← events task_id; pure (artifacts_in es [])

  unfoldable pub recorded_inputs : String → M Fields
  unfolding events
  recorded_inputs task_id = do es ← events task_id; pure (inputs_in es)

  unfoldable pub task_exists : String → M Bool
  unfolding events
  task_exists task_id = do es ← events task_id; pure (created_in es)

  unfoldable pub emit : String → Payload → M (Unit {0})
  emit task_id payload t = (
    ok tt,
    record t {
      world = record t.world {
        ledger =
            append p (record { company = company; task_id = task_id; payload = payload })
              t.world.ledger;
      };
    },
  )

  -- `_set_state`, for a handle that holds the new state.
  abbrev pub set_state : TaskHandle → M (Unit {0})
  set_state h = emit h.task_id (task_state_changed h.state h.waiting_on)

-- ===== src/Kernel/Records.antt =====
-- comcmd/kernel/records.py: the durable records, and the payload that each event is emitted with.
-- A payload is a dictionary in the program; here each shape that some line emits is a constructor.
use company_command.Prelude.{ℕ, String, Bool, Option, List}
use company_command.Json.{Json, Fields}

pub data TaskState : Type 0 where
  draft ready running waiting_for_human committing succeeded : TaskState
  failed_retryable failed_final compensating cancelled : TaskState

pub data EventType : Type 0 where
  company_compiled task_created task_state_changed step_started step_succeeded : EventType
  artifact_written action_intent policy_decision approval_requested : EventType
  approval_resolved execution_receipt : EventType

-- Evidence that a gated action was authorized and executed, or refused.
pub record ExecutionReceipt : Type 0 where
  pub intent_digest : String
  pub decision : String
  pub tier : String
  pub capability_id : Option String
  pub reason : String

-- The operator's view of a pending approval.
pub record ApprovalView : Type 0 where
  pub intent_digest : String
  pub tier : String
  pub required : String
  pub quorum : ℕ
  pub approvers : List String
  pub eligible : List String
  pub challenge_b64 : String
  pub significant : Option Json

-- What a parked or failed task waits for.
pub data Waiting : Type 0 where
  gate :
      (step : String) (policy : Option String) (intent_digest : String)
      → (approval : Option ApprovalView) → Waiting
  verification_failed : (step : String) (approvals verifiers : ℕ) → Waiting
  worker_deferred : (step : String) (usage : Fields) (artifact : Option Fields) → Waiting
  approval_open : (step reason : String) (approval : Option ApprovalView) → Waiting
  effect_blocked : (step reason : String) → Waiting

pub data Payload : Type 0 where
  task_created : (workflow : String) (inputs : Fields) → Payload
  task_state_changed : (state : TaskState) (waiting_on : Option Waiting) → Payload
  step_started : (step : String) → Payload
  step_succeeded : (step : String) (artifact : Fields) → Payload
  artifact_written : (step status : String) (artifact : Fields) → Payload
  approval_requested : (request : ApprovalView) → Payload
  approval_resolved : (approved : Bool) (principal : Option String) (reason : String) → Payload
  -- `execution_receipt` as the gateway and the executor write it, and as the runner does.
  receipt : ExecutionReceipt → Payload
  performed : (step : String) (executed duplicate : Bool) → Payload

-- The type that the program emits each payload under.
pub type_of : Payload → EventType
type_of (task_created _ _) = EventType.task_created
type_of (task_state_changed _ _) = EventType.task_state_changed
type_of (step_started _) = EventType.step_started
type_of (step_succeeded _ _) = EventType.step_succeeded
type_of (artifact_written _ _ _) = EventType.artifact_written
type_of (approval_requested _) = EventType.approval_requested
type_of (approval_resolved _ _ _) = EventType.approval_resolved
type_of (receipt _) = EventType.execution_receipt
type_of (performed _ _ _) = EventType.execution_receipt

pub record Event : Type 0 where
  pub company : String
  pub task_id : String
  pub payload : Payload

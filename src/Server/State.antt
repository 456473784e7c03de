-- ===== src/Server/State.antt =====
-- comcmd/server/service.py, the state of the service and what its methods answer.
use company_command.Prelude.{ℕ, String, Bool, Option, List, Dict, insert}
use company_command.Json.{Json, Fields}
use company_command.Kernel.Records.{TaskState, ApprovalView, Waiting}
use company_command.Kernel.Ledger.{Ledger}
use company_command.Kernel.Runtime.{Runtime, Error}
use company_command.Kernel.Replay.{TaskHandle}
use company_command.Kernel.Steps.{Runner}
use company_command.Gateway.State.{World}
use company_command.Gateway.Approvals.{ApprovalStore}
use company_command.Gateway.Credentials.{CredentialStore}
use company_command.Packs.{CompanyPack}

-- What the service holds for one company.
pub record Context : Type 0 where
  pub pack : CompanyPack
  pub runner : Runner
  pub calls : Dict ℕ
  pub significant : Dict Json

-- `registrations` counts the challenges that `webauthn` has drawn for enrollments. The clock is read anew
-- at each call; `runs` and `effects` are the ones of `Runtime` and `World`.
pub record Service : Type 0 where
  pub contexts : Dict Context
  pub enroll_challenges : Dict String
  pub registrations : ℕ
  pub ledger : Ledger
  pub approvals : ApprovalStore
  pub credentials : CredentialStore
  pub now : ℕ
  pub effects : List String
  pub runs : List (String × String)

pub data ServiceError : Type 0 where
  unknown_company : ServiceError
  unknown_digest : ServiceError
  no_enrollment : ServiceError
  registration_refused : ServiceError
  unreadable : ServiceError
  runner_error : Error → ServiceError

pub data Answer (A : Type 0) : Type 0 where
  answer : A → Answer A
  refuse : ServiceError → Answer A

-- `_handle_view`
pub record HandleView : Type 0 where
  pub task_id : String
  pub workflow : String
  pub state : TaskState
  pub artifacts : Dict (Option Fields)
  pub waiting_on : Option Waiting

abbrev pub handle_view : TaskHandle → HandleView
handle_view h = record {
  task_id = h.task_id;
  workflow = h.workflow_id;
  state = h.state;
  artifacts = h.artifacts;
  waiting_on = h.waiting_on;
}

pub record TaskStatus : Type 0 where
  pub task_id : String
  pub workflow : Option String
  pub state : TaskState
  pub artifacts : Dict (Option Fields)
  pub waiting_on : Option ApprovalView
  pub chain_valid : Bool

-- The shared objects as one company's gateway sees them, and back.
abbrev pub world_of : Context → Service → World
world_of c s = record {
  ledger = s.ledger;
  approvals = s.approvals;
  calls = c.calls;
  significant = c.significant;
  credentials = s.credentials;
  now = s.now;
  effects = s.effects;
}

abbrev pub put_world : String → Context → Runtime → Service → Service
put_world company c t s = record s {
  contexts =
      insert company (record c { calls = t.world.calls; significant = t.world.significant })
        s.contexts;
  ledger = t.world.ledger;
  approvals = t.world.approvals;
  credentials = t.world.credentials;
  now = t.world.now;
  effects = t.world.effects;
  runs = t.runs;
}

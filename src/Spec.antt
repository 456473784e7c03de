-- ===== src/Spec.antt =====
-- comcmd/spec/models.py: the declared shape of a company.
-- A field with a default holds that default when the manifest leaves it out. Money and rates that
-- the program only stores (budgets, KPIs, escalation, memory, evaluations) are left out.
use company_command.Prelude.{ℕ, String, Bool, Option, List, Dict}

pub data Risk : Type 0 where
  observe bounded_internal external_reversible consequential prohibited : Risk

pub data StepType : Type 0 where
  work human_gate fanout verify : StepType

pub data Aggregate : Type 0 where
  majority best first : Aggregate

pub record ModelProfile : Type 0 where
  pub capability : String
  pub fallback : String
  pub worker_preference : List String

pub record ToolGrant : Type 0 where
  pub allow : List String

pub record Role : Type 0 where
  pub id : String
  pub purpose : String
  pub skills : List String
  pub model_profile : Option String
  pub tools : ToolGrant
  pub data_scopes : List String
  pub may_delegate_to : List String
  pub write_authority : Bool

pub record WorkflowStep : Type 0 where
  pub id : String
  pub type : StepType
  pub run_as : Option String
  pub needs : List String
  pub output_schema : Option String
  pub policy : Option String
  pub loop_bound : Option ℕ
  pub fanout : Option ℕ
  pub aggregate : Option Aggregate
  pub aggregate_key : String
  pub score_key : String
  pub verifiers : Option ℕ
  pub verify_quorum : Option ℕ

pub record Workflow : Type 0 where
  pub id : String
  pub version : ℕ
  pub input_schema : Option String
  pub steps : List WorkflowStep

pub record Approval : Type 0 where
  pub require : String
  pub roles : List String
  pub quorum : ℕ
  pub ttl : String

pub record Action : Type 0 where
  pub id : String
  pub tool : String
  pub risk : Risk
  pub idempotency : Option String
  pub approval : Option Approval

pub record Metadata : Type 0 where
  pub name : String
  pub revision : ℕ

pub record CompanySpec : Type 0 where
  pub api_version : String
  pub kind : String
  pub metadata : Metadata
  pub model_profiles : Dict ModelProfile
  pub roles : List Role
  pub workflows : List Workflow
  pub actions : List Action
  pub tools : List String
  pub schemas : List String

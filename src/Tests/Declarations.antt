-- ===== src/Tests/Declarations.antt =====
-- The compiler's theorems at a declaration of one workflow, in which a draft waits for approval.
use company_command.Prelude.{
  String, ◌≡◌, ◌≢◌, refl, true, none, some, List, [], ◌∷◌, All, lookup, insert,
}
use company_command.Spec.{
  Role, Action, Workflow, WorkflowStep, CompanySpec, human_gate, external_reversible,
}
use company_command.Kernel.Order.{missing, in_dependency_order}
use company_command.Compile.Codes.{Code, each, starts_with}
use company_command.Compile.Steps.{step_errors, typed_errors}
use company_command.Compile.Actions.{
  action_errors, approval_errors, locked_errors, role_errors, authority_errors,
}
use company_command.Compile.Cycles.{
  check_cycles, search_all, visit_step, each_dep, graph_of, bounds_of,
}
use company_command.Compile.Cycles.Fuel.{check_cycles-ends}
use company_command.Compile.{workflow_errors, workflows_errors, company_errors, compile_company}
use company_command.Compile.Accepted.{compile_company-steps_found}
use company_command.Compile.Accepted.Governed.{IsGoverned, compile_company-IsGoverned}
use company_command.Tests.Orders.{step_with}

abbrev pub writer : Role
writer = record {
  id = "writer";
  purpose = "writes";
  skills = [];
  model_profile = none;
  tools = record { allow = "mail" ∷ [] };
  data_scopes = [];
  may_delegate_to = [];
  write_authority = true;
}

abbrev pub send : Action
send = record {
  id = "send";
  tool = "mail";
  risk = external_reversible;
  idempotency = some "by digest";
  approval =
      some (record { require = "passkey"; roles = "human:ada" ∷ []; quorum = 1; ttl = "10m" });
}

abbrev pub gate_step : WorkflowStep
gate_step = record (step_with "gate" ("draft" ∷ [])) {
  type = human_gate;
  run_as = none;
  policy = some "send";
}

abbrev pub letter : Workflow
letter = record {
  id = "letter";
  version = 1;
  input_schema = none;
  steps = gate_step ∷ step_with "draft" [] ∷ [];
}

abbrev pub acme : CompanySpec
acme = record {
  api_version = "comcmd.dev/v1alpha1";
  kind = "Company";
  metadata = record { name = "acme-1"; revision = 1 };
  model_profiles = [];
  roles = writer ∷ [];
  workflows = letter ∷ [];
  actions = send ∷ [];
  tools = "mail" ∷ [];
  schemas = [];
}

acme_compiles : compile_company acme ≡ some []
unfolding compile_company company_errors workflows_errors workflow_errors step_errors typed_errors
    action_errors approval_errors locked_errors role_errors authority_errors check_cycles search_all
    visit_step each_dep graph_of bounds_of each starts_with lookup insert
acme_compiles = refl

compile_company-steps_found_example :
    All (λ wf. (id : String) → in_dependency_order wf.steps ≢ missing id) (letter ∷ [])
compile_company-steps_found_example = compile_company-steps_found acme acme_compiles

compile_company-IsGoverned_example : All IsGoverned (send ∷ [])
compile_company-IsGoverned_example = compile_company-IsGoverned acme acme_compiles

-- A cycle of two steps, neither of them bounded.
abbrev circle : List WorkflowStep
circle = step_with "a" ("b" ∷ []) ∷ step_with "b" ("a" ∷ []) ∷ []

check_cycles-ends_example : check_cycles circle ≢ none
check_cycles-ends_example = check_cycles-ends circle

circle_reported : check_cycles circle ≡ some (Code.e_cycle_unbounded ∷ [])
unfolding check_cycles search_all visit_step each_dep graph_of bounds_of lookup insert
circle_reported = refl

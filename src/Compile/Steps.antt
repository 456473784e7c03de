-- ===== src/Compile/Steps.antt =====
-- comcmd/compile/compiler.py, the checks of one workflow step.
use company_command.Prelude.{
  ℕ, String, Bool, true, false, not, ◌&&◌, Option, none, some, List, [], ◌∷◌, ◌++◌, contains, ltb,
  leb, is_some, if◌then◌else◌,
}
use company_command.Spec.{WorkflowStep, StepType, work, human_gate, fanout, verify}
use company_command.Compile.Codes.{
  Code, e_ref_role, e_fanout, e_verify, e_ref_workflow, e_ref_schema, when, each, has_text,
  dangling,
}

abbrev pub max_fanout : ℕ
max_fanout = 32

abbrev pub max_verifiers : ℕ
max_verifiers = 32

-- The closed-world reference sets that steps refer to.
pub record References : Type 0 where
  pub role_ids : List String
  pub action_ids : List String
  pub schema_ids : List String

-- The role that runs a step.
abbrev runner_errors : References → Option String → List Code
runner_errors refs none = e_ref_role ∷ []
runner_errors refs (some role) = when (not (contains role refs.role_ids)) e_ref_role

abbrev fanout_errors : WorkflowStep → List Code
fanout_errors step =
    (elim step.fanout [
      | none ↦ e_fanout ∷ []
      | some n ↦ if ltb n 2 then e_fanout ∷ [] else when (ltb max_fanout n) e_fanout
    ])
    ++ when (not (is_some step.aggregate)) e_fanout

-- `step.verify_quorum if step.verify_quorum is not None else 1`
abbrev asked_quorum : WorkflowStep → ℕ
asked_quorum step = elim step.verify_quorum [ none ↦ 1 | some q ↦ q ]

abbrev is_empty : List String → Bool
is_empty [] = true
is_empty (n ∷ ns) = false

abbrev verify_errors : WorkflowStep → List Code
verify_errors step = elim step.verifiers [
  | none ↦ e_verify ∷ when (is_empty step.needs) e_verify
  | some n ↦
      (if ltb n 1 then e_verify ∷ [] else when (ltb max_verifiers n) e_verify)
      ++ when (is_empty step.needs) e_verify
      ++ when (ltb 0 n && not (leb 1 (asked_quorum step) && leb (asked_quorum step) n)) e_verify
]

-- `policy is None or policy not in action_ids`
abbrev gate_errors : References → Option String → List Code
gate_errors refs none = e_ref_workflow ∷ []
gate_errors refs (some policy) = when (not (contains policy refs.action_ids)) e_ref_workflow

-- What is checked by the step's type.
unfoldable pub typed_errors : References → WorkflowStep → StepType → List Code
typed_errors refs step work = runner_errors refs step.run_as
typed_errors refs step fanout = runner_errors refs step.run_as ++ fanout_errors step
typed_errors refs step verify = runner_errors refs step.run_as ++ verify_errors step
typed_errors refs step human_gate = gate_errors refs step.policy

unfoldable pub step_errors : References → (step_ids : List String) → WorkflowStep → List Code
step_errors refs step_ids step =
    typed_errors refs step step.type
    ++ when (has_text step.output_schema && dangling step.output_schema refs.schema_ids)
        e_ref_schema
    ++ each (λ n. when (not (contains n step_ids)) e_ref_workflow) step.needs

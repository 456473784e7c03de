-- ===== src/Compile.antt =====
-- comcmd/compile/compiler.py: the static checks of a company's declaration.
-- A check returns the codes of the errors that it reports, in the order of the reports; messages and
-- places are left out, and so are the normalised body and the revision that a clean result carries.
-- Sets of ids are lists.
pub mod Codes
pub mod Steps
pub mod Actions
pub mod Cycles
pub mod Accepted
use Prim.Native.Char.{Char, code}
use company_command.Prelude.{
  ℕ, suc, ◌+◌, String, Bool, true, false, not, ◌&&◌, ◌||◌, Option, none, some, List, [], ◌∷◌, ◌++◌,
  ◌==◌, map, contains, leb, eq_ℕ, if◌then◌else◌,
}
use company_command.Spec.{Workflow, CompanySpec}
use company_command.Compile.Codes.{
  Code, e_version, e_slug, e_ref_schema, when, each, has_text, dangling,
}
use company_command.Compile.Steps.{References, step_errors}
use company_command.Compile.Actions.{action_errors, role_errors, authority_errors}
use company_command.Compile.Cycles.{keys_of, check_cycles}

abbrev pub supported_api_versions : List String
supported_api_versions = "comcmd.dev/v1alpha1" ∷ []

-- `[a-z0-9]`
abbrev is_alphanumeric : Char → Bool
is_alphanumeric c =
    (leb b'a' (code c) && leb (code c) b'z') || (leb b'0' (code c) && leb (code c) b'9')

-- `[a-z0-9-]{0,n}` to the end of the text
abbrev is_slug_tail : ℕ → String → Bool
is_slug_tail n String.[] = true
is_slug_tail ℕ.zero (String.◌∷◌ c s) = false
is_slug_tail (suc n) (String.◌∷◌ c s) =
    (is_alphanumeric c || eq_ℕ (code c) b'-') && is_slug_tail n s

-- `SLUG_RE.match(name)`
abbrev pub is_slug : String → Bool
is_slug String.[] = false
is_slug (String.◌∷◌ c s) = is_alphanumeric c && is_slug_tail 63 s

abbrev pub references : CompanySpec → References
references spec = record {
  role_ids = map (λ r. r.id) spec.roles;
  action_ids = map (λ a. a.id) spec.actions;
  schema_ids = spec.schemas;
}

-- The checks of one workflow; `none` is a search for cycles without enough fuel.
unfoldable pub workflow_errors : References → Workflow → Option (List Code)
workflow_errors refs wf = elim (check_cycles wf.steps) [
  | none ↦ none
  | some cycles ↦ some (
      each (step_errors refs (map (λ s. s.id) wf.steps)) wf.steps
      ++ when (has_text wf.input_schema && dangling wf.input_schema refs.schema_ids) e_ref_schema
      ++ cycles)
]

unfoldable pub workflows_errors : References → List Workflow → Option (List Code)
workflows_errors refs [] = some []
workflows_errors refs (wf ∷ wfs) = elim (workflow_errors refs wf) [
  | none ↦ none
  | some errors ↦ elim (workflows_errors refs wfs) [
    | none ↦ none
    | some rest ↦ some (errors ++ rest)
  ]
]

-- The checks that come before those of the workflows.
unfoldable pub company_errors : CompanySpec → List Code
company_errors spec =
    let role_ids = map (λ r. r.id) spec.roles in
    when (not (contains spec.api_version supported_api_versions)) e_version
    ++ when (not (is_slug spec.metadata.name)) e_slug
    ++ each (role_errors role_ids (keys_of spec.model_profiles) spec.tools) spec.roles
    ++ each (action_errors role_ids spec.tools) spec.actions
    ++ each (authority_errors spec.actions) spec.roles

-- The errors of `compile_company`, which accepts a declaration that has none.
unfoldable pub compile_company : CompanySpec → Option (List Code)
compile_company spec = elim (workflows_errors (references spec) spec.workflows) [
  | none ↦ none
  | some errors ↦ some (company_errors spec ++ errors)
]

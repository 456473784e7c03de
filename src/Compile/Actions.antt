-- ===== src/Compile/Actions.antt =====
-- comcmd/compile/compiler.py, the checks of actions and of roles.
use company_command.Prelude.{
  ℕ, String, Bool, true, false, not, ◌&&◌, Option, none, some, List, [], ◌∷◌, ◌++◌, any, contains,
  ltb, Dict, is_some, lookup, if◌then◌else◌,
}
use company_command.Spec.{
  Risk, observe, bounded_internal, external_reversible, consequential, prohibited, Role, Action,
  Approval,
}
use company_command.Compile.Codes.{
  Code, e_ref_tool, e_ref_schema, e_ref_role, e_meta_locked, e_tier_lowered, e_idempotency,
  e_approver, e_cap_defaultallow, e_auth_nopolicy, when, each, starts_with, has_text, dangling,
}

-- `RISK_RANK`
abbrev pub risk_rank : Risk → ℕ
risk_rank observe = 0
risk_rank bounded_internal = 1
risk_rank external_reversible = 2
risk_rank consequential = 3
risk_rank prohibited = 4

abbrev pub reserved_prefix : String
reserved_prefix = "comcmd."

abbrev pub locked_actions : Dict Risk
locked_actions =
    ("comcmd.mandate.set", prohibited)
    ∷ ("comcmd.policy.set", prohibited)
    ∷ ("comcmd.registry.set", prohibited)
    ∷ ("comcmd.audit.disable", prohibited)
    ∷ ("comcmd.grant.self", prohibited)
    ∷ []

-- `risk in SIDE_EFFECTING`, which is the same set as `NEEDS_APPROVER`
abbrev pub is_side_effecting : Risk → Bool
is_side_effecting external_reversible = true
is_side_effecting consequential = true
is_side_effecting _ = false

abbrev pub is_prohibited : Risk → Bool
is_prohibited prohibited = true
is_prohibited _ = false

-- `REQUIRED_APPROVAL.get(risk, set())`
abbrev pub required_approval : Risk → List String
required_approval external_reversible = "passkey" ∷ "hardware_passkey" ∷ []
required_approval consequential = "hardware_passkey" ∷ []
required_approval _ = []

-- The engine-locked namespace.
unfoldable pub locked_errors : Action → List Code
locked_errors action =
    if starts_with reserved_prefix action.id
    then (elim (lookup action.id locked_actions) [
      | none ↦ e_meta_locked ∷ []
      | some locked ↦ when (ltb (risk_rank action.risk) (risk_rank locked)) e_tier_lowered
    ])
    else []

-- An approver is a human principal or a role.
abbrev pub approver_errors : List String → String → List Code
approver_errors role_ids r =
    when (not (starts_with "human:" r) && not (contains r role_ids)) e_ref_role

unfoldable pub approval_errors : List String → Risk → Option Approval → List Code
approval_errors role_ids risk none = e_approver ∷ []
approval_errors role_ids risk (some appr) = elim appr.roles [
  | [] ↦ e_approver ∷ []
  | r ∷ rs ↦
      each (approver_errors role_ids) (r ∷ rs)
      ++ when (not (contains appr.require (required_approval risk))) e_cap_defaultallow
]

unfoldable pub action_errors : (role_ids tool_ids : List String) → Action → List Code
action_errors role_ids tool_ids action =
    when (not (contains action.tool tool_ids)) e_ref_tool
    ++ locked_errors action
    ++ when (is_side_effecting action.risk && not (has_text action.idempotency)) e_idempotency
    ++ (if is_side_effecting action.risk
        then approval_errors role_ids action.risk action.approval
        else [])
    ++ when (is_prohibited action.risk && is_some action.approval) e_cap_defaultallow

-- A role's tools, profile and delegation targets.
unfoldable pub role_errors : (role_ids profile_ids tool_ids : List String) → Role → List Code
role_errors role_ids profile_ids tool_ids role =
    each (λ t. when (not (contains t tool_ids)) e_ref_tool) role.tools.allow
    ++ when (dangling role.model_profile profile_ids) e_ref_schema
    ++ each (λ d. when (not (contains d role_ids)) e_ref_role) role.may_delegate_to

-- A role with write authority holds a tool that some action governs.
unfoldable pub authority_errors : List Action → Role → List Code
authority_errors actions role =
    when (role.write_authority && not (any (λ a. contains a.tool role.tools.allow) actions))
      e_auth_nopolicy

-- ===== src/Compile/Accepted/Governed.antt =====
-- About the actions of a declaration that comcmd/compile/compiler.py accepts.
use company_command.Prelude.{
  String, ◌≡◌, ◌≢◌, refl, true, not, ◌&&◌, Option, none, some, List, [], ◌∷◌, ◌++◌, map, contains,
  All, is_some, if◌then◌else◌,
}
use company_command.Spec.{Risk, prohibited, Action, Approval, CompanySpec}
use company_command.Compile.Codes.{
  Code, e_version, e_slug, e_ref_tool, e_idempotency, e_cap_defaultallow, when, each, has_text,
}
use company_command.Compile.Actions.{
  is_side_effecting, is_prohibited, required_approval, approver_errors, approval_errors,
  locked_errors, action_errors, role_errors, authority_errors,
}
use company_command.Compile.Cycles.{keys_of}
use company_command.Compile.{supported_api_versions, is_slug, company_errors, compile_company}
use company_command.Compile.Accepted.{
  both_empty, each-empty, when-empty, All-mono, compile_company-parts,
}

-- A side-effecting action has idempotency semantics, eligible approvers, and an approval as strong as
-- its risk demands; a prohibited one has no approval path.
pub record IsGoverned (a : Action) : Type 0 where
  pub approvable :
      is_side_effecting a.risk ≡ true
      → (appr : Approval) × (a.approval ≡ some appr)
        × (appr.roles ≢ [])
        × (contains appr.require (required_approval a.risk) ≡ true)
  pub idempotent : is_side_effecting a.risk ≡ true → has_text a.idempotency ≡ true
  pub forbidden : a.risk ≡ prohibited → a.approval ≡ none

approval_errors-empty :
    (role_ids : List String) (risk : Risk) (o : Option Approval)
    → approval_errors role_ids risk o ≡ []
    → (appr : Approval) × (o ≡ some appr)
      × (appr.roles ≢ [])
      × (contains appr.require (required_approval risk) ≡ true)
unfolding approval_errors
approval_errors-empty role_ids risk none e = absurd cc
approval_errors-empty role_ids risk (some appr) e = go appr.roles refl
  where
    go :
        (rs : List String)
        → appr.roles ≡ rs
        → (a : Approval) × (some appr ≡ some a)
          × (a.roles ≢ [])
          × (contains a.require (required_approval risk) ≡ true)
    go [] same = absurd (cc (rw (same, approval_errors) at e))
    go (r ∷ rs) same =
        let strong : when (not (contains appr.require (required_approval risk))) e_cap_defaultallow
            ≡ [] =
          (both_empty (each (approver_errors role_ids) (r ∷ rs)) _
            (rw (same, approval_errors) at e)).1 in
        (
          appr,
          refl,
          λ none_left. absurd (cc (same, none_left)),
          when-empty (contains appr.require (required_approval risk)) e_cap_defaultallow strong,
        )

action_errors-IsGoverned :
    (role_ids tool_ids : List String) (a : Action)
    → action_errors role_ids tool_ids a ≡ []
    → IsGoverned a
unfolding action_errors
action_errors-IsGoverned role_ids tool_ids a e =
    let (most, banned) = both_empty (((tool ++ locked) ++ idem) ++ approval) ban e in
    let (some_of, approved) = both_empty ((tool ++ locked) ++ idem) approval most in
    let (first_two, idempotency) = both_empty (tool ++ locked) idem some_of in
    record {
      approvable =
          λ effects. approval_errors-empty role_ids a.risk a.approval (rw effects at approved);
      idempotent =
          λ effects. when-empty (has_text a.idempotency) e_idempotency (rw effects at idempotency);
      forbidden = λ never. absent a.approval (rw never at banned);
    }
  where
    absent : (o : Option Approval) → when (is_some o) e_cap_defaultallow ≡ [] → o ≡ none
    absent none none_reported = refl
    absent (some appr) reported = absurd cc

    tool : List Code
    tool = when (not (contains a.tool tool_ids)) e_ref_tool

    locked : List Code
    locked = locked_errors a

    idem : List Code
    idem = when (is_side_effecting a.risk && not (has_text a.idempotency)) e_idempotency

    approval : List Code
    approval = if is_side_effecting a.risk then approval_errors role_ids a.risk a.approval else []

    ban : List Code
    ban = when (is_prohibited a.risk && is_some a.approval) e_cap_defaultallow

-- Every action of a declaration that compiles without errors is governed: if it has side effects it
-- declares idempotency, approvers and an approval as strong as its risk demands, and if it is
-- prohibited it has no approval path.
pub compile_company-IsGoverned :
    (spec : CompanySpec) → compile_company spec ≡ some [] → All IsGoverned spec.actions
unfolding company_errors
compile_company-IsGoverned spec e =
    let (most, authority) =
      both_empty (front ++ of_actions) ends (compile_company-parts spec e).0 in
    let (others, actions) = both_empty front of_actions most in
    All-mono (λ a. action_errors role_ids spec.tools a ≡ []) IsGoverned spec.actions
      (action_errors-IsGoverned role_ids spec.tools)
      (each-empty (action_errors role_ids spec.tools) spec.actions actions)
  where
    role_ids : List String
    role_ids = map (λ r. r.id) spec.roles

    front : List Code
    front =
        (when (not (contains spec.api_version supported_api_versions)) e_version
          ++ when (not (is_slug spec.metadata.name)) e_slug)
        ++ each (role_errors role_ids (keys_of spec.model_profiles) spec.tools) spec.roles

    of_actions : List Code
    of_actions = each (action_errors role_ids spec.tools) spec.actions

    ends : List Code
    ends = each (authority_errors spec.actions) spec.roles

-- ===== src/Gateway/Opening.antt =====
-- comcmd/gateway/gate.py, the tier handlers `_open_approval` and `_auto`.
use Prim.Native.String.{◌++◌ as concat}
use company_command.Prelude.{
  ℕ, ◌+◌, String, Bool, true, false, not, ◌&&◌, Option, none, some, List, [], ◌∷◌, ◌==◌, ltb,
  lookup, insert, if◌then◌else◌,
}
use company_command.Ids.{Float, Platform}
use company_command.Spec.{Action, Approval}
use company_command.Kernel.Records.{approval_requested}
use company_command.Gateway.Policy.{Tier, a1, a2, a3, tier_value, tier_requires, Bounds, within}
use company_command.Gateway.Intents.{ActionIntent, canonical, action_digest}
use company_command.Gateway.Approvals.{parse_ttl, open_approval}
use company_command.Gateway.State.{World}
use company_command.Gateway.Receipts.{
  auto, require_approval, Reply, Gateway, outcome, emit, give_receipt, approval_view, deny_intent,
  mint,
}

abbrev pub quorum_of : Option Approval → ℕ
quorum_of none = 1
quorum_of (some appr) = appr.quorum

abbrev pub roles_of : Option Approval → List String
roles_of none = []
roles_of (some appr) = appr.roles

abbrev pub ttl_of : Option Approval → String
ttl_of none = "10m"
ttl_of (some appr) = appr.ttl

abbrev pub is_a3 : Tier → Bool
is_a3 a3 = true
is_a3 _ = false

abbrev pub is_empty : List String → Bool
is_empty [] = true
is_empty (_ ∷ _) = false

abbrev pub calls_so_far : Action → World → ℕ
calls_so_far action w = elim (lookup action.id w.calls) [ none ↦ 0 | some n ↦ n ]

-- `b is not None and not b.within(...)`
abbrev pub outside : Option Bounds → Option ℕ → ℕ → Bool
outside none amount count = false
outside (some b) amount count = not (within b amount count)

module _ (p : Platform) where
  -- The part of `_open_approval` behind its guards, with the TTL parsed.
  unfoldable pub open_with_ttl : ActionIntent → Action → Tier → String → Float → World → Reply
  open_with_ttl intent action tier escalated ttl w =
      let (pa, store) =
        open_approval p
          (record {
            action_digest = action_digest p intent;
            tier = tier_value tier;
            required = tier_requires tier;
            quorum = quorum_of action.approval;
            eligible = roles_of action.approval;
            ttl_seconds = ttl;
          })
          w.now w.approvals in
      let view = approval_view p pa (some (canonical intent)) in
      let opened : World = record w {
        approvals = store;
        significant = insert (action_digest p intent) (canonical intent) w.significant;
      } in
      let reason =
        if escalated == ""
        then "human approval required"
        else concat "human approval required (" (concat escalated ")") in
      (
        some (record (outcome require_approval tier reason) { approval_request = some view }),
        give_receipt p intent "require_approval" tier none reason
            (emit p (approval_requested view) intent opened),
      )

  -- `_open_approval`
  unfoldable pub open_for : ActionIntent → Action → Tier → String → World → Reply
  open_for intent action tier escalated w =
      if is_a3 tier && ltb (quorum_of action.approval) 2
      then deny_intent p intent tier
          "A3 consequential action requires distinct-person dual control (quorum >= 2)" w
      else if is_empty (roles_of action.approval)
      then deny_intent p intent tier "no eligible approver configured" w
      else elim (parse_ttl p (ttl_of action.approval)) [
        | none ↦ (none, w)
        | some ttl ↦ open_with_ttl intent action tier escalated ttl w
      ]

  -- `authorized` receipt and capability of an auto tier
  abbrev pub authorize_auto : ActionIntent → Action → Tier → World → Reply
  authorize_auto intent action tier w =
      let cap = mint p action intent tier in
      (
        some (record (outcome auto tier "auto-authorized") { capability = some cap }),
        give_receipt p intent "authorized" tier (some cap.capability_id) "auto" w,
      )

  -- `_auto`
  unfoldable pub auto_for : Gateway → ActionIntent → Action → Tier → World → Reply
  auto_for g intent action a1 w =
      if outside (lookup action.id g.bounds) intent.amount (calls_so_far action w)
      then open_for intent action a2 "bounded-auto envelope exceeded" w
      else authorize_auto intent action a1
          (record w { calls = insert action.id (calls_so_far action w + 1) w.calls })
  auto_for g intent action tier w = authorize_auto intent action tier w

-- ===== src/Gateway/Gate.antt =====
-- comcmd/gateway/gate.py, the public methods of the default-deny gateway: `decide`,
-- `submit_approval`, `pending_approvals` and `challenge_for`.
pub mod Denial
pub mod Soundness
pub mod Quorum
pub mod Met
pub mod Control
pub mod History
use Prim.Native.String.{◌++◌ as concat}
use company_command.Prelude.{
  ℕ, suc, ◌+◌, ◌-◌, String, Bool, true, false, not, ◌&&◌, Option, none, some, List, [], ◌∷◌, ◌==◌,
  length, ltb, contains, Dict, lookup, insert, map, if◌then◌else◌,
}
use company_command.Json.{Json, str, obj, field, end}
use company_command.Ids.{Platform, content_id}
use company_command.Spec.{Action, Approval}
use company_command.Kernel.Records.{
  Event, Payload, approval_requested, approval_resolved, receipt, ExecutionReceipt, ApprovalView,
}
use company_command.Kernel.Ledger.{append}
use company_command.Gateway.Policy.{
  Tier, a0, a1, a2, a3, a4, tier_value, classify, is_auto, is_approval, is_deny, tier_requires,
  Bounds, within,
}
use company_command.Gateway.Intents.{ActionIntent, canonical, action_digest}
use company_command.Gateway.Approvals.{
  PendingApproval, is_expired, satisfied, parse_ttl, Opening, open_approval, get_approval,
  add_approver, pending, retire,
}
use company_command.Gateway.Verifier.{Decision, ApprovalVerifier, ApprovalRequest, Assertion}
use company_command.Gateway.State.{World}
use company_command.Gateway.Receipts.{
  Capability, GateDecision, auto, require_approval, authorized, deny, GateOutcome, Reply, Gateway,
  outcome, emit, give_receipt, public_request, approval_view, request_view, deny_intent,
  still_waiting, mint,
}
use company_command.Gateway.Opening.{open_for, auto_for}

abbrev pub is_denied : GateOutcome → Bool
is_denied out = elim out.decision [ GateDecision.deny ↦ true | _ ↦ false ]

abbrev pub is_waiting : GateOutcome → Bool
is_waiting out = elim out.decision [ require_approval ↦ true | _ ↦ false ]

module _ (p : Platform) where
  -- The end of `submit_approval`: below the quorum the approval waits on, at the quorum it is retired
  -- and the capability is minted.
  unfoldable pub settle : ActionIntent → Action → Tier → PendingApproval → World → Reply
  settle intent action tier pa w =
      if not (satisfied pa)
      then (some (still_waiting p tier "more distinct approver(s) required" pa), w)
      else let cap = mint p action intent tier in
        (
          some (record (outcome authorized tier "approved") {
            capability = some cap;
            approval_request = some (public_request p pa);
          }),
          give_receipt p intent "authorized" tier (some cap.capability_id) "approved by"
              (record w { approvals = retire (action_digest p intent) w.approvals }),
        )

  -- The branches behind an approved decision of the verifier.
  unfoldable pub count_approver :
      ActionIntent → Action → Tier → Option String → PendingApproval → World → Reply
  count_approver intent action tier none pa w =
      (some (still_waiting p tier "approver is not eligible" pa), w)
  count_approver intent action tier (some principal) pa w =
      if not (contains principal pa.eligible)
      then (some (still_waiting p tier "approver is not eligible" pa), w)
      else if contains principal pa.approvers
      then (some (still_waiting p tier "already approved; more required" pa), w)
      else let (found, store) = add_approver (action_digest p intent) principal w.approvals in
        let pa' : PendingApproval = elim found [ none ↦ pa | some added ↦ added ] in
        settle intent action tier pa' (record w { approvals = store })

  -- What `submit_approval` does with the verifier's decision.
  unfoldable pub judge : ActionIntent → Action → Tier → PendingApproval → Decision → World → Reply
  judge intent action tier pa decision w =
      let w' =
        emit p (approval_resolved decision.approved decision.principal decision.reason) intent w in
      if not decision.approved
      then (some (still_waiting p tier "approval attempt rejected" pa), w')
      else count_approver intent action tier decision.principal pa w'

  -- The part of `submit_approval` behind the look-up of the pending approval.
  unfoldable pub submit_to :
      Gateway → ActionIntent → Action → Tier → Assertion → PendingApproval → World → Reply
  submit_to g intent action tier assertion pa w =
      if pa.used
      then deny_intent p intent tier "no open approval for this action" w
      else if is_expired pa w.now
      then deny_intent p intent tier "approval expired"
          (record w { approvals = retire (action_digest p intent) w.approvals })
      else let (decision, creds) =
          g.verify (request_view p intent pa) (some assertion) w.credentials in
        judge intent action tier pa decision (record w { credentials = creds })

  -- No approval was pending: what `_open_approval` left behind decides how it goes on.
  unfoldable pub submit_opened : Gateway → ActionIntent → Action → Tier → Assertion → Reply → Reply
  submit_opened g intent action tier assertion (none, w) = (none, w)
  submit_opened g intent action tier assertion (some out, w) =
      if is_denied out
      then (some out, w)
      else elim (get_approval (action_digest p intent) w.approvals) [
        | none ↦ deny_intent p intent tier "no open approval for this action" w
        | some pa ↦ submit_to g intent action tier assertion pa w
      ]

  unfoldable pub submit_for : Gateway → ActionIntent → Action → Assertion → World → Reply
  submit_for g intent action assertion w =
      let tier = classify action.risk in
      if not (is_approval tier)
      then deny_intent p intent tier "action does not use approval" w
      else elim (get_approval (action_digest p intent) w.approvals) [
        | none ↦ submit_opened g intent action tier assertion (open_for p intent action tier "" w)
        | some pa ↦ submit_to g intent action tier assertion pa w
      ]

  -- Verifies one approver's assertion; authorizes once the quorum is reached.
  unfoldable pub submit_approval : Gateway → ActionIntent → Assertion → World → Reply
  submit_approval g intent assertion w = elim (lookup intent.action_id g.actions) [
    | none ↦ deny_intent p intent a4 "unknown action policy" w
    | some action ↦ submit_for g intent action assertion w
  ]

  -- `decide` behind its opening of an approval: a given assertion is submitted at once.
  unfoldable pub decide_opened : Gateway → ActionIntent → Option Assertion → Reply → Reply
  decide_opened g intent none reply = reply
  decide_opened g intent (some assertion) (none, w) = (none, w)
  decide_opened g intent (some assertion) (some out, w) =
      if is_waiting out then submit_approval g intent assertion w else (some out, w)

  unfoldable pub decide_for : Gateway → ActionIntent → Action → Option Assertion → World → Reply
  decide_for g intent action assertion w =
      let tier = classify action.risk in
      if not (action.tool == intent.tool)
      then deny_intent p intent tier "intent tool != policy tool" w
      else if is_deny tier
      then deny_intent p intent tier "prohibited action (A4)" w
      else if is_auto tier
      then auto_for p g intent action tier w
      else if is_approval tier
      then decide_opened g intent assertion (open_for p intent action tier "" w)
      else deny_intent p intent tier "unclassified tier" w

  -- Classifies an intent: authorizes the auto tiers, opens an approval for A2 and A3.
  unfoldable pub decide : Gateway → ActionIntent → Option Assertion → World → Reply
  decide g intent assertion w = elim (lookup intent.action_id g.actions) [
    | none ↦ deny_intent p intent a4 "unknown action policy" w
    | some action ↦ decide_for g intent action assertion w
  ]

  -- `pending_approvals`: the operators' inbox of this gateway.
  unfoldable pub pending_approvals : World → List ApprovalView
  pending_approvals w =
      map (λ pa. approval_view p pa (lookup pa.action_digest w.significant))
        (pending w.now w.approvals)

  pub challenge_for : String → World → Option String
  challenge_for digest w = elim (get_approval digest w.approvals) [
    | none ↦ none
    | some pa ↦ some pa.challenge
  ]

-- ===== src/Gateway/Receipts.antt =====
-- comcmd/gateway/gate.py, the parts that every method of the gateway uses: capabilities, outcomes,
-- the views of an approval, receipts and `_mint`.
-- A method takes the shared state and returns its outcome with the new state; `none` is a Python
-- exception, which only a TTL that does not parse can raise. Reasons keep the fixed words of the
-- program's messages. Logging and telemetry are left out. Sets are shown in the order in which they
-- are held, where the program sorts them.
use company_command.Prelude.{String, Bool, true, Option, none, some, Dict}
use company_command.Json.{Json, str, obj, field, end}
use company_command.Ids.{Platform, content_id}
use company_command.Spec.{Action, Approval}
use company_command.Kernel.Records.{Payload, receipt, ApprovalView}
use company_command.Kernel.Ledger.{append}
use company_command.Gateway.Policy.{Tier, tier_value, Bounds}
use company_command.Gateway.Intents.{ActionIntent, canonical, action_digest}
use company_command.Gateway.Approvals.{PendingApproval}
use company_command.Gateway.Verifier.{ApprovalVerifier, ApprovalRequest}
use company_command.Gateway.State.{World}

-- `scope` holds the tool, the target and the task.
pub record Capability : Type 0 where
  pub capability_id : String
  pub intent_digest : String
  pub tool : String
  pub target : Option String
  pub task_id : String
  pub ttl : String
  pub single_use : Bool

pub data GateDecision : Type 0 where
  auto require_approval authorized deny : GateDecision

pub record GateOutcome : Type 0 where
  pub decision : GateDecision
  pub tier : Tier
  pub reason : String
  pub capability : Option Capability
  pub approval_request : Option ApprovalView

abbrev pub Reply : Type 0
Reply = Option GateOutcome × World

-- What `Gateway.__init__` is given.
pub record Gateway : Type 0 where
  pub actions : Dict Action
  pub bounds : Dict Bounds
  pub verify : ApprovalVerifier

abbrev pub outcome : GateDecision → Tier → String → GateOutcome
outcome decision tier reason = record {
  decision = decision;
  tier = tier;
  reason = reason;
  capability = none;
  approval_request = none;
}

module _ (p : Platform) where
  -- `_emit`
  abbrev pub emit : Payload → ActionIntent → World → World
  emit payload intent w = record w {
    ledger =
        append p (record { company = intent.company; task_id = intent.task_id; payload = payload })
          w.ledger;
  }

  -- `_receipt`
  abbrev pub give_receipt : ActionIntent → String → Tier → Option String → String → World → World
  give_receipt intent decision tier cap_id reason =
      emit
        (receipt (record {
          intent_digest = action_digest p intent;
          decision = decision;
          tier = tier_value tier;
          capability_id = cap_id;
          reason = reason;
        }))
        intent

  -- `_public_request`, with no `significant` field
  abbrev pub public_request : PendingApproval → ApprovalView
  public_request pa = record {
    intent_digest = pa.action_digest;
    tier = pa.tier;
    required = pa.required;
    quorum = pa.quorum;
    approvers = pa.approvers;
    eligible = pa.eligible;
    challenge_b64 = p.b64url pa.challenge;
    significant = none;
  }

  abbrev pub approval_view : PendingApproval → Option Json → ApprovalView
  approval_view pa significant = record (public_request pa) { significant = significant }

  abbrev pub request_view : ActionIntent → PendingApproval → ApprovalRequest
  request_view intent pa = record {
    intent_digest = action_digest p intent;
    tier = pa.tier;
    required = pa.required;
    quorum = pa.quorum;
    significant = canonical intent;
    challenge = pa.challenge;
  }

  -- `_deny`
  abbrev pub deny_intent : ActionIntent → Tier → String → World → Reply
  deny_intent intent tier reason w =
      (some (outcome deny tier reason), give_receipt intent "deny" tier none reason w)

  -- The outcome that keeps an approval waiting.
  abbrev pub still_waiting : Tier → String → PendingApproval → GateOutcome
  still_waiting tier reason pa = record (outcome require_approval tier reason) {
    approval_request = some (public_request pa);
  }

  -- `appr.ttl if appr else "0s"`
  abbrev capability_ttl : Option Approval → String
  capability_ttl none = "0s"
  capability_ttl (some appr) = appr.ttl

  -- `_mint`, for the action that the intent names
  abbrev pub mint : Action → ActionIntent → Tier → Capability
  mint action intent tier = record {
    capability_id = content_id p "cap" (
        obj (
          field "digest" (str (action_digest p intent))
            (field "tier" (str (tier_value tier)) end)));
    intent_digest = action_digest p intent;
    tool = intent.tool;
    target = intent.target;
    task_id = intent.task_id;
    ttl = capability_ttl action.approval;
    single_use = true;
  }

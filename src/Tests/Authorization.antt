-- ===== src/Tests/Authorization.antt =====
-- The gateway's theorems at a company whose wire transfers two of its officers must approve, and
-- whose refunds are bounded.
use company_command.Ids.{above}
use company_command.Prelude.{
  ℕ, String, ◌≡◌, ◌≢◌, refl, ap, true, false, Option, none, some, List, [], ◌∷◌, lookup, insert,
}
use company_command.Ids.{digest}
use company_command.Json.{end}
use company_command.Spec.{Action, Approval, consequential, bounded_internal}
use company_command.Gateway.Policy.{Tier, a1, a4, classify, is_auto, is_approval, Bounds, within}
use company_command.Gateway.Intents.{ActionIntent, action_digest}
use company_command.Gateway.Approvals.{
  is_expired, satisfied, open_approval, parse_ttl, add_approver, retire,
}
use company_command.Gateway.Verifier.{Assertion, always_approve}
use company_command.Gateway.State.{World, new_world}
use company_command.Gateway.Receipts.{
  GateOutcome, authorized, deny, require_approval, outcome, deny_intent, Gateway,
}
use company_command.Gateway.Opening.{open_with_ttl, open_for, auto_for, calls_so_far}
use company_command.Gateway.Gate.{
  settle, count_approver, judge, submit_to, submit_opened, submit_for, submit_approval, decide_for,
  decide,
}
use company_command.Gateway.Gate.Control.{IsApproved, submit_approval-once, resubmit}
use company_command.Gateway.Gate.History.{Call, submits, waits, call, run, authorized-IsApproved}
use company_command.Gateway.Gate.Denial.{
  decide-capability, submit_approval-capability, escalation-never_granted,
}
use company_command.Tests.Encoding.{json_code}
use company_command.Tests.Sorting.{sorted}
use company_command.Tests.Sample.{sample_platform, sample_platform-DigestPins}

abbrev pub wire : Action
wire = record {
  id = "wire";
  tool = "bank";
  risk = consequential;
  idempotency = some "by digest";
  approval = some (record {
    require = "hardware_passkey";
    roles = "human:ada" ∷ "human:ben" ∷ [];
    quorum = 2;
    ttl = "10m";
  });
}

abbrev refund : Action
refund = record {
  id = "refund";
  tool = "bank";
  risk = bounded_internal;
  idempotency = none;
  approval =
      some (record { require = "passkey"; roles = "human:ada" ∷ []; quorum = 1; ttl = "10m" });
}

abbrev refund_bounds : Bounds
refund_bounds = record { max_amount = some 50; max_calls = none }

abbrev pub gateway : Gateway
gateway = record {
  actions = ("wire", wire) ∷ ("refund", refund) ∷ [];
  bounds = ("refund", refund_bounds) ∷ [];
  verify = always_approve;
}

abbrev pub intent_of : String → ℕ → ActionIntent
intent_of action amount = record {
  company = "acme";
  task_id = "t";
  step_id = "s";
  requested_by = "w";
  action_id = action;
  tool = "bank";
  args = end;
  target = none;
  amount = some amount;
  environment = none;
  audience = none;
}

abbrev pub by : String → Assertion
by name = record { raw_id = none; principal = some name; response = "" }

abbrev history : List Call
history = submits (intent_of "wire" 7) (by "human:ada") ∷ waits 60 ∷ []

abbrev before : World
before = run sample_platform gateway history new_world

abbrev after : World
after = (submit_approval sample_platform gateway (intent_of "wire" 7) (by "human:ben") before).1

-- The outcome, if the call returns one.
abbrev pub answer : Option GateOutcome → GateOutcome
answer none = outcome deny a4 ""
answer (some out) = out

abbrev granted : GateOutcome
granted =
    answer (submit_approval sample_platform gateway (intent_of "wire" 7) (by "human:ben") before).0

granted-by_ben :
    (submit_approval sample_platform gateway (intent_of "wire" 7) (by "human:ben") before
      ≡ (some granted, after))
    × (granted.decision ≡ authorized)
    × (granted.capability ≢ none)
unfolding submit_approval submit_for submit_opened submit_to judge count_approver settle open_for
    open_with_ttl open_approval parse_ttl add_approver retire satisfied is_expired always_approve
    run call lookup insert action_digest digest json_code sorted
granted-by_ben = (refl, refl, λ e. absurd cc)

authorized-IsApproved_example : IsApproved sample_platform gateway (intent_of "wire" 7) after
authorized-IsApproved_example =
    authorized-IsApproved sample_platform sample_platform-DigestPins gateway history
      (intent_of "wire" 7) (by "human:ben") granted after granted-by_ben.0 granted-by_ben.1

-- Tried once more, and again ten units of time later.
abbrev retries : List (ℕ × Assertion)
retries = (0, by "human:ben") ∷ (10, by "human:ada") ∷ []

submit_approval-once_example :
    (t : Tier) × (submit_approval sample_platform gateway
        (intent_of "wire" 7)
        (by "human:ada")
        (resubmit sample_platform gateway (intent_of "wire" 7) retries after)
      ≡ deny_intent sample_platform
          (intent_of "wire" 7)
          t
          "no open approval for this action"
          (resubmit sample_platform gateway (intent_of "wire" 7) retries after))
submit_approval-once_example =
    submit_approval-once sample_platform gateway (intent_of "wire" 7) (by "human:ben")
      (by "human:ada") retries before after granted granted-by_ben.0 granted-by_ben.1

submit_approval-capability_example :
    (a : Action) × (lookup "wire" gateway.actions ≡ some a)
    × (is_approval (classify a.risk) ≡ true)
    × (granted.decision ≡ authorized)
submit_approval-capability_example =
    submit_approval-capability sample_platform gateway (intent_of "wire" 7) (by "human:ben") before
      granted (ap (λ r. r.0) granted-by_ben.0) granted-by_ben.2

-- A refund inside its bounds, and one outside.
abbrev automatic : GateOutcome
automatic = answer (decide sample_platform gateway (intent_of "refund" 20) none new_world).0

automatic_refund :
    ((decide sample_platform gateway (intent_of "refund" 20) none new_world).0 ≡ some automatic)
    × (automatic.capability ≢ none)
unfolding decide decide_for auto_for within lookup insert
automatic_refund = (refl, λ e. absurd cc)

decide-capability_example :
    (a : Action) × (lookup "refund" gateway.actions ≡ some a)
    × (a.tool ≡ "bank")
    × (is_auto (classify a.risk) ≡ true)
decide-capability_example =
    decide-capability sample_platform gateway (intent_of "refund" 20) new_world automatic
      automatic_refund.0 automatic_refund.1

abbrev refund_approval : Approval
refund_approval = record { require = "passkey"; roles = "human:ada" ∷ []; quorum = 1; ttl = "10m" }

refund_is_bounded :
    (lookup "refund" gateway.actions ≡ some refund)
    × (lookup "refund" gateway.bounds ≡ some refund_bounds)
    × (within refund_bounds (some 80) (calls_so_far refund new_world) ≡ false)
    × (refund_approval.roles ≢ [])
    × (parse_ttl sample_platform "10m" ≡ some (above 600))
unfolding lookup within parse_ttl
refund_is_bounded = (refl, refl, refl, λ e. absurd cc, refl)

escalation-never_granted_example :
    (out : GateOutcome) × ((decide sample_platform gateway (intent_of "refund" 80) none new_world).0
      ≡ some out)
    × (out.decision ≡ require_approval)
    × ((x : Assertion) (later : World)
        → (submit_approval sample_platform gateway (intent_of "refund" 80) x later).0
          ≡ some (outcome deny a1 "action does not use approval"))
escalation-never_granted_example =
    escalation-never_granted sample_platform gateway (intent_of "refund" 80) refund refund_bounds
      refund_approval (above 600) new_world refund_is_bounded.0 refl refl refund_is_bounded.1
      refund_is_bounded.2 refl refund_is_bounded.3 refund_is_bounded.4

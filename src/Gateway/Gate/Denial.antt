-- ===== src/Gateway/Gate/Denial.antt =====
-- About when the methods of comcmd/gateway/gate.py give a capability.
use company_command.Prelude.{
  [], String, ◌≡◌, refl, ◌≢◌, inl, inr, true, false, Option, none, some, arith, lookup,
  Option-cases, eq_iff,
}
use company_command.Ids.{Float, Platform}
use company_command.Spec.{Action, Approval, bounded_internal}
use company_command.Gateway.Policy.{
  Tier, Bounds, within, a1, a2, a2, classify, is_auto, is_approval,
}
use company_command.Gateway.Intents.{ActionIntent}
use company_command.Gateway.Verifier.{Assertion}
use company_command.Gateway.State.{World}
use company_command.Gateway.Receipts.{
  require_approval, authorized, deny, GateOutcome, Reply, Gateway, deny_intent, outcome,
}
use company_command.Gateway.Opening.{open_for, open_with_ttl, auto_for, calls_so_far}
use company_command.Gateway.Approvals.{PendingApproval}
use company_command.Kernel.Records.{approval_resolved}
use company_command.Gateway.Approvals.{get_approval, parse_ttl}
use company_command.Gateway.Intents.{action_digest}
use company_command.Gateway.Receipts.{request_view, emit}
use company_command.Gateway.Gate.{
  settle, count_approver, judge, submit_to, submit_opened, submit_for, submit_approval,
  decide_opened, decide_for, decide,
}

-- The reply carries no capability.
abbrev IsBare : Option GateOutcome → Type 0
IsBare none = Unit
IsBare (some out) = out.capability ≡ none

module _ (p : Platform) where
  open_for-IsBare :
      (i : ActionIntent) (a : Action) (t : Tier) (e : String) (w : World)
      → IsBare (open_for p i a t e w).0
  unfolding open_for open_with_ttl
  open_for-IsBare i a t e w = ground arith

  submit_for-needs_approval_tier :
      (g : Gateway) (i : ActionIntent) (a : Action) (x : Assertion) (w : World)
      → is_approval (classify a.risk) ≡ false
      → submit_for p g i a x w ≡ deny_intent p i (classify a.risk) "action does not use approval" w
  unfolding submit_for
  submit_for-needs_approval_tier g i a x w h = rw h refl

  decide_for-capability :
      (g : Gateway) (i : ActionIntent) (a : Action) (w : World) (out : GateOutcome)
      → (decide_for p g i a none w).0 ≡ some out
      → out.capability ≢ none
      → (a.tool ≡ i.tool) × (is_auto (classify a.risk) ≡ true)
  unfolding decide_for decide_opened
  decide_for-capability g i a w out e c =
      ground (arith, eq_iff a.tool i.tool, open_for-IsBare i a (classify a.risk) "" w)

  -- Without an assertion, `decide` gives a capability only for a known action of an auto tier
  -- (A0 or A1) whose policy names the intent's own tool.
  pub decide-capability :
      (g : Gateway) (i : ActionIntent) (w : World) (out : GateOutcome)
      → (decide p g i none w).0 ≡ some out
      → out.capability ≢ none
      → (a : Action) × (lookup i.action_id g.actions ≡ some a)
        × (a.tool ≡ i.tool)
        × (is_auto (classify a.risk) ≡ true)
  unfolding decide
  decide-capability g i w out e c = elim (Option-cases (lookup i.action_id g.actions)) [
    | inl unknown ↦ ground arith
    | inr (a, known) ↦
        let (tool, tier) = decide_for-capability g i a w out (rw (known, decide) at e) c in
        (a, known, tool, tier)
  ]

  count_approver-capability :
      (i : ActionIntent) (a : Action) (t : Tier) (o : Option String) (pa : PendingApproval)
      → (w : World) (out : GateOutcome) → (count_approver p i a t o pa w).0 ≡ some out
      → out.capability ≢ none
      → out.decision ≡ authorized
  unfolding count_approver settle
  count_approver-capability i a t none pa w out e c = ground arith
  count_approver-capability i a t (some x) pa w out e c = ground arith

  submit_to-capability :
      (g : Gateway) (i : ActionIntent) (a : Action) (t : Tier) (x : Assertion)
      (pa : PendingApproval)
      → (w : World) (out : GateOutcome) → (submit_to p g i a t x pa w).0 ≡ some out
      → out.capability ≢ none
      → out.decision ≡ authorized
  unfolding submit_to judge
  submit_to-capability g i a t x pa w out e c =
      let (d, creds) = g.verify (request_view p i pa) (some x) w.credentials in
      ground (
        arith,
        count_approver-capability i a t d.principal pa
            (emit p (approval_resolved d.approved d.principal d.reason) i
              (record w { credentials = creds }))
            out,
      )

  submit_opened-capability :
      (g : Gateway) (i : ActionIntent) (a : Action) (t : Tier) (x : Assertion) (r : Reply)
      → (out : GateOutcome) → IsBare r.0
      → (submit_opened p g i a t x r).0 ≡ some out
      → out.capability ≢ none
      → out.decision ≡ authorized
  unfolding submit_opened
  submit_opened-capability g i a t x (none, w) out b e c = ground arith
  submit_opened-capability g i a t x (some o, w) out b e c =
      elim (Option-cases (get_approval (action_digest p i) w.approvals)) [
        | inl missing ↦ ground arith
        | inr (pa, found) ↦ ground (arith, submit_to-capability g i a t x pa w out)
      ]

  submit_for-capability :
      (g : Gateway) (i : ActionIntent) (a : Action) (x : Assertion) (w : World) (out : GateOutcome)
      → (submit_for p g i a x w).0 ≡ some out
      → out.capability ≢ none
      → (is_approval (classify a.risk) ≡ true) × (out.decision ≡ authorized)
  unfolding submit_for
  submit_for-capability g i a x w out e c =
      elim (Option-cases (get_approval (action_digest p i) w.approvals)) [
        | inl missing ↦ ground (
          arith,
          submit_opened-capability g i a (classify a.risk) x (open_for p i a (classify a.risk) "" w)
              out (open_for-IsBare i a (classify a.risk) "" w),
        )
        | inr (pa, found) ↦ ground (arith, submit_to-capability g i a (classify a.risk) x pa w out)
      ]

  -- `submit_approval` gives a capability only with the decision `authorized`, for a known action of
  -- an approval tier (A2 or A3): never for a prohibited or an unknown one.
  pub submit_approval-capability :
      (g : Gateway) (i : ActionIntent) (x : Assertion) (w : World) (out : GateOutcome)
      → (submit_approval p g i x w).0 ≡ some out
      → out.capability ≢ none
      → (a : Action) × (lookup i.action_id g.actions ≡ some a)
        × (is_approval (classify a.risk) ≡ true)
        × (out.decision ≡ authorized)
  unfolding submit_approval
  submit_approval-capability g i x w out e c = elim (Option-cases (lookup i.action_id g.actions)) [
    | inl unknown ↦ ground arith
    | inr (a, known) ↦
        let (tier, granted) =
          submit_for-capability g i a x w out (rw (known, submit_approval) at e) c in
        (a, known, tier, granted)
  ]

  open_for-opens :
      (i : ActionIntent) (a : Action) (e : String) (appr : Approval) (ttl : Float) (w : World)
      → a.approval ≡ some appr
      → appr.roles ≢ []
      → parse_ttl p appr.ttl ≡ some ttl
      → open_for p i a a2 e w ≡ open_with_ttl p i a a2 e ttl w
  unfolding open_for
  open_for-opens i a e appr ttl w policy named parsed = ground arith

  auto_for-escalates :
      (g : Gateway) (i : ActionIntent) (a : Action) (b : Bounds) (w : World)
      → lookup a.id g.bounds ≡ some b
      → within b i.amount (calls_so_far a w) ≡ false
      → auto_for p g i a a1 w ≡ open_for p i a a2 "bounded-auto envelope exceeded" w
  unfolding auto_for
  auto_for-escalates g i a b w bound beyond = ground arith

  open_with_ttl-waits :
      (i : ActionIntent) (a : Action) (t : Tier) (e : String) (ttl : Float) (w : World)
      → (out : GateOutcome) × ((open_with_ttl p i a t e ttl w).0 ≡ some out)
        × (out.decision ≡ require_approval)
  unfolding open_with_ttl
  open_with_ttl-waits i a t e ttl w = (_, refl, refl)

  -- When an intent of an A1 action lies outside the action's bounds, `decide` opens a human approval
  -- for it; and in every state each assertion submitted for that intent is denied, since the action
  -- itself is of an auto tier. So the escalated approval can never be granted.
  pub escalation-never_granted :
      (g : Gateway) (i : ActionIntent) (a : Action) (b : Bounds) (appr : Approval) (ttl : Float)
      → (w : World) → lookup i.action_id g.actions ≡ some a
      → a.risk ≡ bounded_internal
      → a.tool ≡ i.tool
      → lookup a.id g.bounds ≡ some b
      → within b i.amount (calls_so_far a w) ≡ false
      → a.approval ≡ some appr
      → appr.roles ≢ []
      → parse_ttl p appr.ttl ≡ some ttl
      → (out : GateOutcome) × ((decide p g i none w).0 ≡ some out)
        × (out.decision ≡ require_approval)
        × ((x : Assertion) (later : World)
            → (submit_approval p g i x later).0
              ≡ some (outcome deny a1 "action does not use approval"))
  unfolding decide decide_for submit_approval
  escalation-never_granted g i a b appr ttl w known risk tool bound beyond policy named parsed =
      let (out, opened, waits) =
        open_with_ttl-waits i a a2 "bounded-auto envelope exceeded" ttl w in
      (
        out,
        rw (known, decide)
            (ground (
              arith,
              eq_iff a.tool i.tool,
              auto_for-escalates g i a b w bound beyond,
              open_for-opens i a "bounded-auto envelope exceeded" appr ttl w policy named parsed,
            )),
        waits,
        λ x later.
            rw (known, submit_approval)
              (ground (arith, submit_for-needs_approval_tier g i a x later)),
      )

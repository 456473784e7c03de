-- ===== src/Gateway/Gate/Control.antt =====
-- About what an authorization by `submit_approval` (comcmd/gateway/gate.py) rests on, and its reuse.
use native.Mathlib.Nat.{le_trans}
use company_command.Prelude.{
  ℕ, ◌+◌, ◌≤◌, ◌≡◌, refl, ap, ◌∙◌, subst, true, some, List, [], ◌∷◌, contains, All, IsDistinct,
  length, lookup,
}
use company_command.Ids.{Platform}
use company_command.Spec.{Action}
use company_command.Gateway.Intents.Pins.{DigestPins}
use company_command.Gateway.Policy.{Tier, a3, classify}
use company_command.Gateway.Intents.{ActionIntent, action_digest}
use company_command.Gateway.Approvals.{PendingApproval, get_approval}
use company_command.Gateway.Verifier.{Assertion}
use company_command.Gateway.State.{World}
use company_command.Gateway.Receipts.{authorized, GateOutcome, Gateway, deny_intent}
use company_command.Gateway.Opening.{quorum_of, roles_of}
use company_command.Gateway.Policy.{is_approval}
use company_command.Gateway.Gate.{submit_to, submit_for, submit_approval}
use company_command.Gateway.Gate.Quorum.{submit_approval-IsSound}
use company_command.Gateway.Gate.Soundness.{IsSoundWorld}
use company_command.Gateway.Gate.Met.{submit_approval-IsMet}

-- What an authorization of `i` leaves behind.
pub record IsApproved (p : Platform) (g : Gateway) (i : ActionIntent) (w : World) : Type 0 where
  pub action : Action
  pub known : lookup i.action_id g.actions ≡ some action
  pub tier : is_approval (classify action.risk) ≡ true
  pub approval : PendingApproval
  pub found : get_approval (action_digest p i) w.approvals ≡ some approval
  pub retired : approval.used ≡ true
  pub distinct : IsDistinct approval.approvers
  pub eligible : All (λ a. contains a (roles_of action.approval) ≡ true) approval.approvers
  pub enough : quorum_of action.approval ≤ length approval.approvers
  pub dual : classify action.risk ≡ a3 → 2 ≤ length approval.approvers

module _ (p : Platform) where
  pub submit_approval-IsApproved :
      (pins : DigestPins p) (g : Gateway) (i : ActionIntent) (x : Assertion) (w w' : World)
      → (out : GateOutcome) → IsSoundWorld p g w
      → submit_approval p g i x w ≡ (some out, w')
      → out.decision ≡ authorized
      → IsApproved p g i w'
  submit_approval-IsApproved pins g i x w w' out h e granted =
      let (a, known, tier, met) = submit_approval-IsMet p g i x w w' out e granted in
      let sound : IsSoundWorld p g w' =
        subst (λ r. IsSoundWorld p g r.1) e (submit_approval-IsSound p pins g i x w h) in
      let found = sound (action_digest p i) met.approval met.found in
      let (quorum, roles, dual) = found.governed i a refl known in
      record {
        action = a;
        known = known;
        tier = tier;
        approval = met.approval;
        found = met.found;
        retired = met.retired;
        distinct = found.counted.distinct;
        eligible =
            subst (λ named. All (λ b. contains b named ≡ true) met.approval.approvers) roles
              found.counted.eligible;
        enough = subst (λ n. n ≤ length met.approval.approvers) quorum met.met;
        dual = λ third. le_trans (dual third) met.met;
      }

  -- Further submissions for an intent, each some time behind the one before.
  unfoldable pub resubmit : Gateway → ActionIntent → List (ℕ × Assertion) → World → World
  resubmit g i [] w = w
  resubmit g i ((seconds, x) ∷ rest) w =
      resubmit g i rest (submit_approval p g i x (record w { now = w.now + seconds })).1

  -- A submission for a used approval is denied, and no approval changes.
  submit_approval-used :
      (g : Gateway) (i : ActionIntent) (a : Action) (pa : PendingApproval) (x : Assertion)
      (w : World)
      → lookup i.action_id g.actions ≡ some a
      → is_approval (classify a.risk) ≡ true
      → get_approval (action_digest p i) w.approvals ≡ some pa
      → pa.used ≡ true
      → submit_approval p g i x w
        ≡ deny_intent p i (classify a.risk) "no open approval for this action" w
  unfolding submit_approval submit_for submit_to
  submit_approval-used g i a pa x w known tier found used =
      rw (known, submit_approval) (rw (tier, submit_for) (rw found (rw (used, submit_to))))

  resubmit-denied :
      (g : Gateway) (i : ActionIntent) (a : Action) (pa : PendingApproval) (y : Assertion)
      (xs : List (ℕ × Assertion)) (w : World)
      → lookup i.action_id g.actions ≡ some a
      → is_approval (classify a.risk) ≡ true
      → get_approval (action_digest p i) w.approvals ≡ some pa
      → pa.used ≡ true
      → submit_approval p g i y (resubmit g i xs w)
        ≡ deny_intent p i (classify a.risk) "no open approval for this action" (resubmit g i xs w)
  unfolding resubmit
  resubmit-denied g i a pa y [] w known tier found used =
      submit_approval-used g i a pa y w known tier found used
  resubmit-denied g i a pa y ((seconds, x) ∷ xs) w known tier found used =
      let later = record w { now = w.now + seconds } in
      let denied = submit_approval-used g i a pa x later known tier found used in
      resubmit-denied g i a pa y xs _ known tier
        (ap (λ r. get_approval (action_digest p i) r.1.approvals) denied ∙ found) used

  -- Once a submission has been answered `authorized`, every further one for the same intent is denied, after
  -- whatever time, with whatever assertion and behind however many others for it, as long as `decide` does
  -- not open an approval anew: an opened approval is good for one authorization.
  pub submit_approval-once :
      (g : Gateway) (i : ActionIntent) (x y : Assertion) (xs : List (ℕ × Assertion)) (w w' : World)
      (out : GateOutcome)
      → submit_approval p g i x w ≡ (some out, w')
      → out.decision ≡ authorized
      → (t : Tier) × (submit_approval p g i y (resubmit g i xs w')
          ≡ deny_intent p i t "no open approval for this action" (resubmit g i xs w'))
  submit_approval-once g i x y xs w w' out e granted =
      let (a, known, tier, met) = submit_approval-IsMet p g i x w w' out e granted in
      (classify a.risk, resubmit-denied g i a met.approval y xs w' known tier met.found met.retired)

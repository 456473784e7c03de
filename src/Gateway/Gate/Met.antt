-- ===== src/Gateway/Gate/Met.antt =====
-- About the quorum behind an authorization by `submit_approval` (comcmd/gateway/gate.py).
use company_command.Prelude.{
  ◌≤◌, String, ◌≡◌, ◌≢◌, refl, subst, inl, inr, true, not, Option, none, some, arith, contains, add,
  length, lookup, Option-cases, Bool-cases, if_ind, Option_ind,
}
use company_command.Ids.{Platform}
use company_command.Spec.{Action}
use company_command.Gateway.Policy.{Tier, classify}
use company_command.Gateway.Intents.{ActionIntent, action_digest}
use company_command.Gateway.Approvals.{PendingApproval, satisfied, get_approval, add_approver}
use company_command.Gateway.Approvals.Quorum.{retire-found, add_approver-found, satisfied-le}
use company_command.Gateway.Verifier.{Assertion, Decision}
use company_command.Gateway.State.{World}
use company_command.Gateway.Receipts.{authorized, GateOutcome, Reply, Gateway, deny_intent}
use company_command.Gateway.Opening.{open_for, open_with_ttl}
use company_command.Kernel.Records.{approval_resolved}
use company_command.Gateway.Receipts.{emit, request_view}
use company_command.Gateway.Policy.{is_approval}
use company_command.Gateway.Approvals.{is_expired}
use company_command.Gateway.Gate.{
  is_denied, settle, count_approver, judge, submit_to, submit_opened, submit_for, submit_approval,
}

-- The approval at a digest is retired, and has as many approvers as its quorum asks for.
pub record IsMet (k : String) (w : World) : Type 0 where
  pub approval : PendingApproval
  pub found : get_approval k w.approvals ≡ some approval
  pub retired : approval.used ≡ true
  pub met : approval.quorum ≤ length approval.approvers

abbrev MetWhenAuthorized : String → Reply → Type 0
MetWhenAuthorized k (none, w) = Unit
MetWhenAuthorized k (some out, w) = out.decision ≡ authorized → IsMet k w

abbrev NotAuthorized : Option GateOutcome → Type 0
NotAuthorized none = Unit
NotAuthorized (some out) = out.decision ≢ authorized

module _ (p : Platform) where
  settle-IsMet :
      (i : ActionIntent) (a : Action) (t : Tier) (pa : PendingApproval) (w : World)
      → get_approval (action_digest p i) w.approvals ≡ some pa
      → MetWhenAuthorized (action_digest p i) (settle p i a t pa w)
  unfolding settle
  settle-IsMet i a t pa w here =
      if_ind (MetWhenAuthorized (action_digest p i)) (not (satisfied pa)) (λ below granted. cc)
        λ enough granted. record {
          approval = record pa { used = true };
          found = retire-found (action_digest p i) pa w.approvals here;
          retired = refl;
          met = satisfied-le pa (ground arith);
        }

  count_approver-IsMet :
      (i : ActionIntent) (a : Action) (t : Tier) (o : Option String) (pa : PendingApproval)
      (w : World)
      → get_approval (action_digest p i) w.approvals ≡ some pa
      → MetWhenAuthorized (action_digest p i) (count_approver p i a t o pa w)
  unfolding count_approver
  count_approver-IsMet i a t none pa w here = λ granted. cc
  count_approver-IsMet i a t (some principal) pa w here =
      if_ind (MetWhenAuthorized k) (not (contains principal pa.eligible)) (λ stranger granted. cc)
        λ named.
          if_ind (MetWhenAuthorized k) (contains principal pa.approvers) (λ again granted. cc)
            λ new.
              let (counted, stored) = add_approver-found k principal pa w.approvals here in
              rw counted (
                settle-IsMet i a t (record pa { approvers = add principal pa.approvers })
                  (record w { approvals = (add_approver k principal w.approvals).1 }) stored)
    where
      k : String
      k = action_digest p i

  judge-IsMet :
      (i : ActionIntent) (a : Action) (t : Tier) (pa : PendingApproval) (d : Decision) (w : World)
      → get_approval (action_digest p i) w.approvals ≡ some pa
      → MetWhenAuthorized (action_digest p i) (judge p i a t pa d w)
  unfolding judge
  judge-IsMet i a t pa d w here =
      if_ind (MetWhenAuthorized (action_digest p i)) (not d.approved) (λ no_consent granted. cc)
        λ consent.
          count_approver-IsMet i a t d.principal pa
            (emit p (approval_resolved d.approved d.principal d.reason) i w) here

  submit_to-IsMet :
      (g : Gateway) (i : ActionIntent) (a : Action) (t : Tier) (x : Assertion)
      (pa : PendingApproval)
      → (w : World) → get_approval (action_digest p i) w.approvals ≡ some pa
      → MetWhenAuthorized (action_digest p i) (submit_to p g i a t x pa w)
  unfolding submit_to
  submit_to-IsMet g i a t x pa w here =
      if_ind (MetWhenAuthorized (action_digest p i)) pa.used (λ used granted. cc)
        λ unused.
          if_ind (MetWhenAuthorized (action_digest p i)) (is_expired pa w.now) (λ late granted. cc)
            λ timely.
              let (d, creds) = g.verify (request_view p i pa) (some x) w.credentials in
              judge-IsMet i a t pa d (record w { credentials = creds }) here

  submit_opened-IsMet :
      (g : Gateway) (i : ActionIntent) (a : Action) (t : Tier) (x : Assertion) (r : Reply)
      → NotAuthorized r.0
      → MetWhenAuthorized (action_digest p i) (submit_opened p g i a t x r)
  unfolding submit_opened
  submit_opened-IsMet g i a t x (none, w) h = tt
  submit_opened-IsMet g i a t x (some out, w) h =
      if_ind (MetWhenAuthorized (action_digest p i)) (is_denied out)
        (λ denied granted. absurd (h granted))
        λ waits.
          Option_ind (MetWhenAuthorized (action_digest p i))
            (get_approval (action_digest p i) w.approvals) (λ missing granted. cc)
            (λ pa here. submit_to-IsMet g i a t x pa w here)

  open_for-NotAuthorized :
      (i : ActionIntent) (a : Action) (t : Tier) (e : String) (w : World)
      → NotAuthorized (open_for p i a t e w).0
  unfolding open_for open_with_ttl
  open_for-NotAuthorized i a t e w = ground arith

  submit_for-IsMet :
      (g : Gateway) (i : ActionIntent) (a : Action) (x : Assertion) (w : World)
      → MetWhenAuthorized (action_digest p i) (submit_for p g i a x w)
  unfolding submit_for
  submit_for-IsMet g i a x w =
      if_ind (MetWhenAuthorized (action_digest p i)) (not (is_approval (classify a.risk)))
        (λ other granted. cc)
        λ tier.
          Option_ind (MetWhenAuthorized (action_digest p i))
            (get_approval (action_digest p i) w.approvals)
            (λ missing.
              submit_opened-IsMet g i a (classify a.risk) x (open_for p i a (classify a.risk) "" w)
                (open_for-NotAuthorized i a (classify a.risk) "" w))
            (λ pa here. submit_to-IsMet g i a (classify a.risk) x pa w here)

  submit_for-approval_tier :
      (g : Gateway) (i : ActionIntent) (a : Action) (x : Assertion) (w w' : World)
      (out : GateOutcome)
      → submit_for p g i a x w ≡ (some out, w')
      → out.decision ≡ authorized
      → is_approval (classify a.risk) ≡ true
  unfolding submit_for
  submit_for-approval_tier g i a x w w' out e granted =
      elim (Bool-cases (is_approval (classify a.risk))) [
        | inl approval ↦ approval
        | inr other ↦
            let denied : deny_intent p i (classify a.risk) "action does not use approval" w
                ≡ (some out, w') =
              rw (other, submit_for) at e in
            ground arith
      ]

  -- A submission that is answered stands for a known action of an approval tier, if it authorizes.
  pub submit_approval-IsMet :
      (g : Gateway) (i : ActionIntent) (x : Assertion) (w w' : World) (out : GateOutcome)
      → submit_approval p g i x w ≡ (some out, w')
      → out.decision ≡ authorized
      → (a : Action) × (lookup i.action_id g.actions ≡ some a)
        × (is_approval (classify a.risk) ≡ true)
        × IsMet (action_digest p i) w'
  unfolding submit_approval
  submit_approval-IsMet g i x w w' out e granted =
      elim (Option-cases (lookup i.action_id g.actions)) [
        | inl unknown ↦ ground arith
        | inr (a, known) ↦
            let answered : submit_for p g i a x w ≡ (some out, w') =
              rw (known, submit_approval) at e in
            (
              a,
              known,
              submit_for-approval_tier g i a x w w' out answered granted,
              subst (MetWhenAuthorized (action_digest p i)) answered (submit_for-IsMet g i a x w)
                  granted,
            )
      ]

-- ===== src/Gateway/Gate/Quorum.antt =====
-- About the pending approvals under the methods of comcmd/gateway/gate.py: their approvers, and the
-- policy that each stands for.
use company_command.Prelude.{
  String, ◌≡◌, refl, sym, ◌∙◌, inl, inr, not, Option, none, some, arith, ◌==◌, contains, lookup,
  if◌then◌else◌, Option-cases, Bool-cases, if_ind,
}
use company_command.Ids.{Platform}
use company_command.Spec.{Action}
use company_command.Kernel.Records.{approval_resolved}
use company_command.Gateway.Intents.Pins.{DigestPins}
use company_command.Gateway.Policy.{
  Tier, a0, a1, a2, a3, a4, classify, is_auto, is_approval, is_deny,
}
use company_command.Gateway.Intents.{ActionIntent, action_digest}
use company_command.Gateway.Approvals.{
  PendingApproval, is_expired, satisfied, get_approval, add_approver,
}
use company_command.Gateway.Approvals.Quorum.{retire-Holds, add_approver-Holds}
use company_command.Gateway.Verifier.{Assertion, Decision}
use company_command.Gateway.State.{World}
use company_command.Gateway.Receipts.{deny_intent, Reply, Gateway, emit, request_view}
use company_command.Gateway.Opening.{open_for, auto_for}
use company_command.Gateway.Gate.{
  is_denied, is_waiting, settle, count_approver, judge, submit_to, submit_opened, submit_for,
  submit_approval, decide_opened, decide_for, decide,
}
use company_command.Gateway.Gate.Soundness.{
  IsSound, IsSoundWorld, SoundReply, open_for-IsSound, auto_for-IsSound, closed-IsSound,
  added-IsSound,
}

module _ (p : Platform) (pins : DigestPins p) (g : Gateway) where
  settle-IsSound :
      (i : ActionIntent) (a : Action) (t : Tier) (pa : PendingApproval) (w : World)
      → IsSoundWorld p g w
      → IsSoundWorld p g (settle p i a t pa w).1
  unfolding settle
  settle-IsSound i a t pa w h = elim (Bool-cases (satisfied pa)) [
    | inr below ↦ rw (below, settle) h
    | inl met ↦
        rw (met, settle)
          (retire-Holds (IsSound p g) (action_digest p i) w.approvals
            (closed-IsSound p pins g (action_digest p i)) h)
  ]

  count_approver-IsSound :
      (i : ActionIntent) (a : Action) (t : Tier) (o : Option String) (pa : PendingApproval)
      (w : World)
      → lookup (action_digest p i) w.approvals.by_digest ≡ some pa
      → IsSoundWorld p g w
      → IsSoundWorld p g (count_approver p i a t o pa w).1
  unfolding count_approver
  count_approver-IsSound i a t none pa w here h = h
  count_approver-IsSound i a t (some principal) pa w here h =
      if_ind (SoundReply p g) (not (contains principal pa.eligible)) (λ stranger. h)
        λ named.
          if_ind (SoundReply p g) (contains principal pa.approvers) (λ again. h)
            λ new.
              settle-IsSound i a t _
                (record w { approvals = (add_approver k principal w.approvals).1 })
                (add_approver-Holds (IsSound p g) k principal w.approvals
                  (λ pb found.
                    added-IsSound p pins g k principal pb (ground (arith, sym here ∙ found))
                      (h k pb found))
                  h)
    where
      k : String
      k = action_digest p i

  judge-IsSound :
      (i : ActionIntent) (a : Action) (t : Tier) (pa : PendingApproval) (d : Decision) (w : World)
      → lookup (action_digest p i) w.approvals.by_digest ≡ some pa
      → IsSoundWorld p g w
      → IsSoundWorld p g (judge p i a t pa d w).1
  unfolding judge
  judge-IsSound i a t pa d w here h =
      if_ind (SoundReply p g) (not d.approved) (λ no_consent. h)
        λ consent.
          count_approver-IsSound i a t d.principal pa
            (emit p (approval_resolved d.approved d.principal d.reason) i w) here h

  submit_to-IsSound :
      (i : ActionIntent) (a : Action) (t : Tier) (x : Assertion) (pa : PendingApproval) (w : World)
      → lookup (action_digest p i) w.approvals.by_digest ≡ some pa
      → IsSoundWorld p g w
      → IsSoundWorld p g (submit_to p g i a t x pa w).1
  unfolding submit_to
  submit_to-IsSound i a t x pa w here h =
      if_ind (SoundReply p g) pa.used (λ used. h)
        λ unused.
          if_ind (SoundReply p g) (is_expired pa w.now)
            (λ late.
              retire-Holds (IsSound p g) (action_digest p i) w.approvals
                (closed-IsSound p pins g (action_digest p i)) h)
            λ timely.
              let (d, creds) = g.verify (request_view p i pa) (some x) w.credentials in
              judge-IsSound i a t pa d (record w { credentials = creds }) here h

  submit_opened-IsSound :
      (i : ActionIntent) (a : Action) (t : Tier) (x : Assertion) (r : Reply)
      → IsSoundWorld p g r.1
      → IsSoundWorld p g (submit_opened p g i a t x r).1
  unfolding submit_opened
  submit_opened-IsSound i a t x (none, w) h = h
  submit_opened-IsSound i a t x (some out, w) h = elim (Bool-cases (is_denied out)) [
    | inl denied ↦ rw (denied, submit_opened) h
    | inr waits ↦
        rw (waits, submit_opened)
          (elim (Option-cases (get_approval (action_digest p i) w.approvals)) [
            | inl missing ↦ rw missing h
            | inr (pa, here) ↦ rw here (submit_to-IsSound i a t x pa w here h)
          ])
  ]

  submit_for-IsSound :
      (i : ActionIntent) (a : Action) (x : Assertion) (w : World)
      → lookup i.action_id g.actions ≡ some a
      → IsSoundWorld p g w
      → IsSoundWorld p g (submit_for p g i a x w).1
  unfolding submit_for
  submit_for-IsSound i a x w known h = elim (Bool-cases (is_approval (classify a.risk))) [
    | inr other ↦ rw (other, submit_for) h
    | inl approval ↦
        rw (approval, submit_for)
          (elim (Option-cases (get_approval (action_digest p i) w.approvals)) [
            | inl missing ↦ rw missing (
                submit_opened-IsSound i a (classify a.risk) x
                  (open_for p i a (classify a.risk) "" w)
                  (open_for-IsSound p pins g i a (classify a.risk) "" w known (λ third. third) h))
            | inr (pa, here) ↦ rw here (submit_to-IsSound i a (classify a.risk) x pa w here h)
          ])
  ]

  -- `submit_approval` keeps every pending approval sound, whatever it answers.
  pub submit_approval-IsSound :
      (i : ActionIntent) (x : Assertion) (w : World)
      → IsSoundWorld p g w
      → IsSoundWorld p g (submit_approval p g i x w).1
  unfolding submit_approval
  submit_approval-IsSound i x w h = elim (Option-cases (lookup i.action_id g.actions)) [
    | inl unknown ↦ rw (unknown, submit_approval) h
    | inr (a, known) ↦ rw (known, submit_approval) (submit_for-IsSound i a x w known h)
  ]

  decide_opened-IsSound :
      (i : ActionIntent) (o : Option Assertion) (r : Reply)
      → IsSoundWorld p g r.1
      → IsSoundWorld p g (decide_opened p g i o r).1
  unfolding decide_opened
  decide_opened-IsSound i none r h = h
  decide_opened-IsSound i (some x) (none, w) h = h
  decide_opened-IsSound i (some x) (some out, w) h = elim (Bool-cases (is_waiting out)) [
    | inr settled ↦ rw (settled, decide_opened) h
    | inl waits ↦ rw (waits, decide_opened) (submit_approval-IsSound i x w h)
  ]

  decide_for-IsSound :
      (i : ActionIntent) (a : Action) (o : Option Assertion) (w : World)
      → lookup i.action_id g.actions ≡ some a
      → IsSoundWorld p g w
      → IsSoundWorld p g (decide_for p g i a o w).1
  unfolding decide_for
  decide_for-IsSound i a o w known h = elim (Bool-cases (a.tool == i.tool)) [
    | inr mismatch ↦ rw (mismatch, decide_for) h
    | inl same ↦ rw (same, decide_for) (by_tier (classify a.risk) refl)
  ]
    where
      by_tier :
          (t : Tier)
          → classify a.risk ≡ t
          → IsSoundWorld p g
              (if is_deny t
                then deny_intent p i t "prohibited action (A4)" w
                else if is_auto t
                then auto_for p g i a t w
                else if is_approval t
                then decide_opened p g i o (open_for p i a t "" w)
                else deny_intent p i t "unclassified tier" w).1
      by_tier a0 e = auto_for-IsSound p pins g i a a0 w known e h
      by_tier a1 e = auto_for-IsSound p pins g i a a1 w known e h
      by_tier a2 e =
          decide_opened-IsSound i o (open_for p i a a2 "" w)
            (open_for-IsSound p pins g i a a2 "" w known (λ third. cc) h)
      by_tier a3 e =
          decide_opened-IsSound i o (open_for p i a a3 "" w)
            (open_for-IsSound p pins g i a a3 "" w known (λ third. refl) h)
      by_tier a4 e = h

  -- `decide` keeps every pending approval sound, whatever it answers.
  pub decide-IsSound :
      (i : ActionIntent) (o : Option Assertion) (w : World)
      → IsSoundWorld p g w
      → IsSoundWorld p g (decide p g i o w).1
  unfolding decide
  decide-IsSound i o w h = elim (Option-cases (lookup i.action_id g.actions)) [
    | inl unknown ↦ rw (unknown, decide) h
    | inr (a, known) ↦ rw (known, decide) (decide_for-IsSound i a o w known h)
  ]

-- ===== src/Gateway/Gate/Soundness.antt =====
-- About the policy that each pending approval of a gateway (comcmd/gateway/gate.py) stands for, and the
-- opening of approvals.
use company_command.Prelude.{
  ◌≤◌, String, ◌≡◌, refl, inl, inr, true, some, arith, ◌&&◌, contains, add, lookup, ltb,
  Option-cases, Bool-cases,
}
use company_command.Ids.{Float, Platform}
use company_command.Spec.{Action}
use company_command.Gateway.Policy.{Tier, a1, a2, a3, classify}
use company_command.Gateway.Intents.{ActionIntent, action_digest}
use company_command.Gateway.Intents.Pins.{DigestPins, action_digest-pins}
use company_command.Gateway.Approvals.{PendingApproval, parse_ttl}
use company_command.Gateway.Approvals.Quorum.{IsCounted, Holds, open_approval-Holds, add-IsCounted}
use company_command.Gateway.State.{World}
use company_command.Gateway.Receipts.{Reply, Gateway}
use company_command.Gateway.Opening.{
  quorum_of, roles_of, ttl_of, is_a3, is_empty, outside, calls_so_far, open_with_ttl, open_for,
  auto_for,
}

pub record IsSound (p : Platform) (g : Gateway) (k : String) (pa : PendingApproval) : Type 0 where
  pub counted : IsCounted pa
  pub governed :
      (i : ActionIntent) (a : Action)
      → action_digest p i ≡ k
      → lookup i.action_id g.actions ≡ some a
      → (pa.quorum ≡ quorum_of a.approval)
        × (pa.eligible ≡ roles_of a.approval)
        × (classify a.risk ≡ a3 → 2 ≤ pa.quorum)

abbrev pub IsSoundWorld : Platform → Gateway → World → Type 0
IsSoundWorld p g w = Holds (IsSound p g) w.approvals

abbrev pub SoundReply : Platform → Gateway → Reply → Type 0
SoundReply p g r = IsSoundWorld p g r.1

module _ (p : Platform) (pins : DigestPins p) (g : Gateway) where
  open_with_ttl-IsSound :
      (i : ActionIntent) (a : Action) (t : Tier) (e : String) (ttl : Float) (w : World)
      → lookup i.action_id g.actions ≡ some a
      → (classify a.risk ≡ a3 → 2 ≤ quorum_of a.approval)
      → IsSoundWorld p g w
      → IsSoundWorld p g (open_with_ttl p i a t e ttl w).1
  unfolding open_with_ttl
  open_with_ttl-IsSound i a t e ttl w known dual h =
      open_approval-Holds (IsSound p g) p _ w.now w.approvals
        (record {
          counted = record { distinct = tt; eligible = tt };
          governed = λ j b pinned found.
              let same : b ≡ a = cc ((action_digest-pins p pins j i pinned).0) in
              rw same (refl, refl, dual);
        })
        h

  pub open_for-IsSound :
      (i : ActionIntent) (a : Action) (t : Tier) (e : String) (w : World)
      → lookup i.action_id g.actions ≡ some a
      → (classify a.risk ≡ a3 → t ≡ a3)
      → IsSoundWorld p g w
      → IsSoundWorld p g (open_for p i a t e w).1
  unfolding open_for
  open_for-IsSound i a t e w known same_tier h =
      elim (Bool-cases (is_a3 t && ltb (quorum_of a.approval) 2)) [
        | inl refused ↦ rw (refused, open_for) h
        | inr fine ↦
            rw (fine, open_for)
              (elim (Bool-cases (is_empty (roles_of a.approval))) [
                | inl nobody ↦ rw nobody h
                | inr somebody ↦
                    rw somebody (elim (Option-cases (parse_ttl p (ttl_of a.approval))) [
                      | inl bad ↦ rw bad h
                      | inr (ttl, parsed) ↦ rw parsed (
                          open_with_ttl-IsSound i a t e ttl w known
                            (λ third. ground (arith, same_tier third)) h)
                    ])
              ])
      ]

  pub auto_for-IsSound :
      (i : ActionIntent) (a : Action) (t : Tier) (w : World)
      → lookup i.action_id g.actions ≡ some a
      → classify a.risk ≡ t
      → IsSoundWorld p g w
      → IsSoundWorld p g (auto_for p g i a t w).1
  unfolding auto_for
  auto_for-IsSound i a a1 w known tier h =
      elim (Bool-cases (outside (lookup a.id g.bounds) i.amount (calls_so_far a w))) [
        | inl beyond ↦
            rw (beyond, auto_for)
              (open_for-IsSound i a a2 "bounded-auto envelope exceeded" w known (λ third. cc) h)
        | inr within ↦ rw (within, auto_for) h
      ]
  auto_for-IsSound i a t w known tier h = h

  pub closed-IsSound :
      (k : String) (pa : PendingApproval)
      → IsSound p g k pa
      → IsSound p g k (record pa { used = true })
  closed-IsSound k pa s = record {
    counted = record { distinct = s.counted.distinct; eligible = s.counted.eligible };
    governed = s.governed;
  }

  pub added-IsSound :
      (k principal : String) (pa : PendingApproval)
      → contains principal pa.eligible ≡ true
      → IsSound p g k pa
      → IsSound p g k (record pa { approvers = add principal pa.approvers })
  added-IsSound k principal pa named s = record {
    counted = add-IsCounted principal pa named s.counted;
    governed = s.governed;
  }

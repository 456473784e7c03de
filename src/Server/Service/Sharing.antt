-- ===== src/Server/Service/Sharing.antt =====
-- About the approval store that all companies share.
use company_command.Prelude.{
  ◌≡◌, refl, sym, ap, subst, ◌∙◌, String, List, [], ◌∷◌, map, Dict, lookup, Option_ind,
}
use company_command.Json.{Json}
use company_command.Ids.{Platform}
use company_command.Kernel.Records.{ApprovalView}
use company_command.Gateway.Approvals.{PendingApproval}
use company_command.Gateway.Receipts.{approval_view}
use company_command.Gateway.Gate.{pending_approvals}
use company_command.Gateway.Approvals as Approvals
use company_command.Server.Service.{Ceremony, pending}
use company_command.Server.State.{Service, answer}

answer_inj : {A : Type 0} {a b : A} → answer a ≡ answer b → a ≡ b
answer_inj e = cc

module _ (p : Platform) (cer : Ceremony) where
  views-digests :
      (significant : Dict Json) (pas : List PendingApproval)
      → map
          (λ v. v.intent_digest)
          (map (λ pa. approval_view p pa (lookup pa.action_digest significant)) pas)
        ≡ map (λ pa. pa.action_digest) pas
  views-digests significant [] = refl
  views-digests significant (pa ∷ pas) =
      ap (λ ds. pa.action_digest ∷ ds) (views-digests significant pas)

  pending-digests :
      (company : String) (s : Service) (views : List ApprovalView)
      → pending p cer company s ≡ answer views
      → map (λ v. v.intent_digest) views
        ≡ map (λ pa. pa.action_digest) (Approvals.pending s.now s.approvals)
  unfolding pending pending_approvals
  pending-digests company s views =
      Option_ind (λ a. a ≡ answer views → listed views) (lookup company s.contexts)
        (λ _ e. absurd cc) (λ c _ e. subst listed (answer_inj e) (views-digests c.significant _))
    where
      listed : List ApprovalView → Type 0
      listed vs =
          map (λ v. v.intent_digest) vs
          ≡ map (λ pa. pa.action_digest) (Approvals.pending s.now s.approvals)

  -- Two registered companies list the same pending approvals: an operator of one is shown every other
  -- company's.
  pub pending-shared :
      (x y : String) (s : Service) (xs ys : List ApprovalView)
      → pending p cer x s ≡ answer xs
      → pending p cer y s ≡ answer ys
      → map (λ v. v.intent_digest) xs ≡ map (λ v. v.intent_digest) ys
  pending-shared x y s xs ys hx hy = pending-digests x s xs hx ∙ sym (pending-digests y s ys hy)

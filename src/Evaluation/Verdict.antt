-- ===== src/Evaluation/Verdict.antt =====
-- About what a promotion rests on.
use mathlib.Core.Option.{some_inj}
use company_command.Prelude.{
  ℕ, zero, suc, ◌+◌, ◌*◌, ◌≤◌, ◌<◌, ◌≡◌, refl, ap, ◌∙◌, subst, String, Bool, true, if◌then◌else◌,
  Option, none, some, List, [], ◌∷◌, length, arith, ltb, Bool-cases, inl, inr, if_ind, Option_ind,
}
use company_command.Json.{Json}
use company_command.Ids.{Platform}
use company_command.Spec.{CompanySpec}
use company_command.Kernel.Steps.{Runner}
use company_command.Packs.{Scenario, CompanyPack, build_runner}
use company_command.Evaluation.{
  VariantMetrics, EvalReport, Trial, matches, success_rate, run_one, count_trial, measure_from,
  unmeasured, measure, within_cost, verdict, evaluate,
}

-- `round(a / n, 3)` does not fall when `a` rises.
abbrev pub RisingRatio : Platform → Type 0
RisingRatio p = (a b n : ℕ) → a ≤ b → p.round_ratio a n ≤ p.round_ratio b n

module _ (p : Platform) (equal : Json → Json → Bool) where
  -- What the runs of a workflow on these scenarios come to, each on its own.
  abbrev summed : Runner → (workflow : String) → (Scenario → Trial → ℕ) → List Scenario → ℕ
  summed runner workflow f [] = 0
  summed runner workflow f (sc ∷ scs) =
      elim (run_one p runner workflow sc.inputs) [ none ↦ 0 | some trial ↦ f sc trial ]
      + summed runner workflow f scs

  abbrev wins : Runner → (workflow : String) → List Scenario → ℕ
  wins runner workflow =
      summed runner workflow
        (λ sc trial. if matches equal trial.artifacts sc.expected then 1 else 0)

  abbrev calls : Runner → (workflow : String) → List Scenario → ℕ
  calls runner workflow = summed runner workflow (λ sc trial. trial.calls)

  abbrev denies : Runner → (workflow : String) → List Scenario → ℕ
  denies runner workflow = summed runner workflow (λ sc trial. trial.denies)

  wins-length :
      (runner : Runner) (workflow : String) (scs : List Scenario)
      → wins runner workflow scs ≤ length scs
  wins-length runner workflow [] = omega arith
  wins-length runner workflow (sc ∷ scs) =
      Option_ind (λ k. k + wins runner workflow scs ≤ suc (length scs))
        (run_one p runner workflow sc.inputs) (λ _. omega (arith, wins-length runner workflow scs))
        (λ trial _.
          if_ind (λ k. k + wins runner workflow scs ≤ suc (length scs))
            (matches equal trial.artifacts sc.expected)
            (λ _. omega (arith, wins-length runner workflow scs))
            (λ _. omega (arith, wins-length runner workflow scs)))

  -- Every outcome of a measurement, from these metrics on, over these scenarios.
  abbrev IsMeasured :
      Runner → String → List Scenario → VariantMetrics → Option VariantMetrics → Type 0
  IsMeasured runner workflow scs from none = Unit
  IsMeasured runner workflow scs from (some m) =
      (m.scenarios ≡ from.scenarios)
      × (m.successes ≡ from.successes + wins runner workflow scs)
      × (m.cost ≡ from.cost + calls runner workflow scs)
      × (m.policy_denies ≡ from.policy_denies + denies runner workflow scs)

  counted-IsMeasured :
      (runner : Runner) (workflow : String) (sc : Scenario) (scs : List Scenario) (trial : Trial)
      (from : VariantMetrics) (o : Option VariantMetrics)
      → run_one p runner workflow sc.inputs ≡ some trial
      → IsMeasured runner workflow scs (count_trial equal trial sc.expected from) o
      → IsMeasured runner workflow (sc ∷ scs) from o
  unfolding count_trial
  counted-IsMeasured runner workflow sc scs trial from none ran h = tt
  counted-IsMeasured runner workflow sc scs trial from (some m) ran (n, s, c, d) =
      rw ran (n, omega (arith, s), omega (arith, c), omega (arith, d))

  measure_from-IsMeasured :
      (runner : Runner) (workflow : String) (scs : List Scenario) (from : VariantMetrics)
      → IsMeasured runner workflow scs from (measure_from p equal runner workflow scs from)
  unfolding measure_from
  measure_from-IsMeasured runner workflow [] from = (refl, omega arith, omega arith, omega arith)
  measure_from-IsMeasured runner workflow (sc ∷ scs) from =
      Option_ind (IsMeasured runner workflow (sc ∷ scs) from) (run_one p runner workflow sc.inputs)
        (λ _. tt)
        (λ trial ran.
          counted-IsMeasured runner workflow sc scs trial from _ ran
            (measure_from-IsMeasured runner workflow scs _))

  -- What the runs of a promoted variant have done, beside those of the baseline.
  abbrev pub IsEarned : Runner → (baseline variant : String) → List Scenario → ℕ → Type 0
  IsEarned runner baseline variant scs max_cost_ratio =
      (wins runner baseline scs < wins runner variant scs)
      × (wins runner variant scs ≤ length scs)
      × (denies runner variant scs ≤ denies runner baseline scs)
      × (0 < calls runner baseline scs)
      × (calls runner variant scs * 100 ≤ max_cost_ratio * calls runner baseline scs)

  success_rate-suc :
      (m : VariantMetrics) (n : ℕ)
      → m.scenarios ≡ suc n
      → success_rate p m ≡ p.round_ratio m.successes (suc n)
  unfolding success_rate
  success_rate-suc m n e = rw (success_rate, e) (ap (p.round_ratio m.successes) e)

  success_rate-zero : (m : VariantMetrics) → m.scenarios ≡ 0 → success_rate p m ≡ 0
  unfolding success_rate
  success_rate-zero m e = rw (success_rate, e) refl

  success_rate-rising :
      (base var : VariantMetrics) (n : ℕ)
      → RisingRatio p
      → base.scenarios ≡ n
      → var.scenarios ≡ n
      → ltb (success_rate p base) (success_rate p var) ≡ true
      → base.successes < var.successes
  unfolding success_rate
  success_rate-rising base var zero rising b v less =
      let rate = success_rate-zero var v in absurd (ground arith)
  success_rate-rising base var (suc n) rising b v less =
      elim (Bool-cases (ltb base.successes var.successes)) [
        | inl more ↦ ground arith
        | inr no_more ↦
            let falls = rising var.successes base.successes (suc n) (ground arith) in
            let rate = success_rate-suc var n v in
            let base_rate = success_rate-suc base n b in
            absurd (ground (arith, less, falls, rate, base_rate))
      ]

  verdict-IsEarned :
      (runner : Runner) (baseline variant : String) (scs : List Scenario) (max_cost_ratio : ℕ)
      (base var : VariantMetrics)
      → RisingRatio p
      → IsMeasured runner baseline scs (unmeasured baseline scs) (some base)
      → IsMeasured runner variant scs (unmeasured variant scs) (some var)
      → (verdict p max_cost_ratio base var).promote ≡ true
      → IsEarned runner baseline variant scs max_cost_ratio
  unfolding verdict within_cost
  verdict-IsEarned runner baseline variant scs ratio base var rising (n, s, c, d) (m, t, e, f) ok =
      let beats : ltb (success_rate p base) (success_rate p var) ≡ true = ground arith in
      let more = success_rate-rising base var (length scs) rising n m beats in
      let fewer : var.policy_denies ≤ base.policy_denies = ground arith in
      let cost : 0 < base.cost = ground arith in
      let bounded : var.cost * 100 ≤ ratio * base.cost = ground arith in
      let same_cost : base.cost ≡ calls runner baseline scs = omega (arith, c) in
      let same_var : var.cost ≡ calls runner variant scs = omega (arith, e) in
      (
        omega (arith, s, t, more),
        wins-length runner variant scs,
        omega (arith, d, f, fewer),
        omega (arith, c, cost),
        subst (λ k. k * 100 ≤ ratio * calls runner baseline scs) same_var
            (subst (λ k. var.cost * 100 ≤ ratio * k) same_cost bounded),
      )

  -- What `evaluate` promotes has, in the runs of both workflows on the scenarios: succeeded in more of them
  -- than the baseline, been denied by policy no more often in all, and called workers within the cost ratio
  -- of a baseline that has called one; this when rounding a rate does not fall as the successes rise.
  pub evaluate-IsEarned :
      (revision_id : CompanySpec → String) (pack : CompanyPack) (baseline variant : String)
      (scenarios : List Scenario) (max_cost_ratio : ℕ) (runner : Runner) (report : EvalReport)
      → RisingRatio p
      → build_runner revision_id pack none none ≡ some runner
      → evaluate p equal revision_id pack baseline variant scenarios max_cost_ratio ≡ some report
      → report.promote ≡ true
      → IsEarned runner baseline variant scenarios max_cost_ratio
  unfolding evaluate measure
  evaluate-IsEarned revision_id pack baseline variant scenarios ratio runner report rising built =
      rw (evaluate, built)
        (Option_ind Q (measure p equal runner baseline scenarios) (λ _ e. absurd cc)
          (λ base b.
            Option_ind Q (measure p equal runner variant scenarios) (λ _ e. absurd cc)
              (λ var v e promoted.
                verdict-IsEarned runner baseline variant scenarios ratio base var rising
                  (subst (IsMeasured runner baseline scenarios (unmeasured baseline scenarios)) b
                    (measure_from-IsMeasured runner baseline scenarios _))
                  (subst (IsMeasured runner variant scenarios (unmeasured variant scenarios)) v
                    (measure_from-IsMeasured runner variant scenarios _))
                  (ap (λ r. r.promote) (some_inj.0 e) ∙ promoted))))
    where
      Q : Option EvalReport → Type 0
      Q o =
          o ≡ some report → report.promote ≡ true → IsEarned runner baseline variant scenarios ratio

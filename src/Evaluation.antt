-- ===== src/Evaluation.antt =====
-- comcmd/eval/harness.py: the gate that promotes a variant of a workflow only when it beats a baseline.
-- The wall-clock latency, which no verdict reads, and the texts of the reasons are left out.
pub mod Verdict
use company_command.Prelude.{
  ℕ, zero, suc, ◌+◌, ◌*◌, String, Bool, true, false, ◌&&◌, Option, none, some, List, [], ◌∷◌, ◌==◌,
  Dict, length, keep, any, ltb, leb, eq_ℕ, if◌then◌else◌,
}
use company_command.Json.{Json, null, Fields, end, field, get}
use company_command.Ids.{Platform}
use company_command.Spec.{CompanySpec}
use company_command.Kernel.Records.{Payload, receipt}
use company_command.Kernel.Ledger.{SealedEvent, read}
use company_command.Kernel.Runtime.{Runtime, Result, ok, raised}
use company_command.Kernel.Steps.{Runner}
use company_command.Kernel.Workflow.{start}
use company_command.Gateway.State.{new_world}
use company_command.Packs.{Scenario, CompanyPack, build_runner}

-- Python's `==` on JSON values.
module _ (equal : Json → Json → Bool) where
  -- `all(art.get(k) == v for k, v in expected.items())`
  unfoldable pub satisfies : Fields → (expected : Fields) → Bool
  satisfies art end = true
  satisfies art (field k v rest) =
      let others = satisfies art rest in
      equal (elim (get k art) [ none ↦ null | some w ↦ w ]) v && others

  -- `isinstance(art, dict)`, and the same.
  abbrev satisfied_by : Option Fields → (expected : Fields) → Bool
  satisfied_by none expected = false
  satisfied_by (some art) expected = satisfies art expected

  -- `_matches`
  unfoldable pub matches : Dict (Option Fields) → (expected : Fields) → Bool
  unfolding satisfies
  matches artifacts expected = any (λ (sid, art). satisfied_by art expected) artifacts

pub record VariantMetrics : Type 0 where
  pub workflow : String
  pub scenarios : ℕ
  pub successes : ℕ
  pub cost : ℕ
  pub policy_denies : ℕ

pub record EvalReport : Type 0 where
  pub baseline : VariantMetrics
  pub variant : VariantMetrics
  pub promote : Bool

-- The metrics that `_measure` starts from.
abbrev pub unmeasured : String → List Scenario → VariantMetrics
unmeasured workflow scenarios = record {
  workflow = workflow;
  scenarios = length scenarios;
  successes = 0;
  cost = 0;
  policy_denies = 0;
}

-- The result of `_run_one`.
pub record Trial : Type 0 where
  pub artifacts : Dict (Option Fields)
  pub calls : ℕ
  pub denies : ℕ

abbrev is_denial : SealedEvent → Bool
is_denial se = elim se.event.payload [ receipt r ↦ r.decision == "deny" | _ ↦ false ]

-- `variant.cost / baseline.cost <= max_cost_ratio`, where the ratio to nothing is infinite; the
-- allowed ratio is in hundredths.
unfoldable pub within_cost : (max_cost_ratio : ℕ) → (base var : VariantMetrics) → Bool
within_cost max_cost_ratio base var =
    if eq_ℕ base.cost 0 then false else leb (var.cost * 100) (max_cost_ratio * base.cost)

-- What a trial adds to the metrics.
unfoldable pub count_trial :
    (equal : Json → Json → Bool) → Trial → (expected : Fields) → VariantMetrics → VariantMetrics
unfolding matches
count_trial equal trial expected m = record m {
  cost = m.cost + trial.calls;
  policy_denies = m.policy_denies + trial.denies;
  successes = m.successes + (if matches equal trial.artifacts expected then 1 else 0);
}

module _ (p : Platform) where
  -- In thousandths.
  unfoldable pub success_rate : VariantMetrics → ℕ
  success_rate m = elim m.scenarios [ zero ↦ 0 | suc n ↦ p.round_ratio m.successes m.scenarios ]

  -- `_run_one` on a fresh ledger; `runs` has each call that the counting worker counts. `none` is an
  -- exception of the runner.
  unfoldable pub run_one : Runner → (workflow : String) → (inputs : Fields) → Option Trial
  run_one runner workflow inputs =
      let (r, t) = start p runner workflow inputs (record { world = new_world; runs = [] }) in
      elim r [
        | raised e ↦ none
        | ok handle ↦ elim (read p runner.company_name t.world.ledger) [
          | none ↦ none
          | some ses ↦ some (record {
            artifacts = handle.artifacts;
            calls = length t.runs;
            denies = length (keep is_denial ses);
          })
        ]
      ]

  -- The verdict of `evaluate`.
  unfoldable pub verdict : (max_cost_ratio : ℕ) → (base var : VariantMetrics) → EvalReport
  unfolding success_rate within_cost
  verdict max_cost_ratio base var = record {
    baseline = base;
    variant = var;
    promote =
        ltb (success_rate base) (success_rate var)
        && leb var.policy_denies base.policy_denies
        && within_cost max_cost_ratio base var;
  }

module _ (p : Platform) (equal : Json → Json → Bool) where
  -- The loop of `_measure`.
  unfoldable pub measure_from :
      Runner → (workflow : String) → List Scenario → VariantMetrics → Option VariantMetrics
  measure_from runner workflow [] m = some m
  measure_from runner workflow (sc ∷ scs) m = elim (run_one p runner workflow sc.inputs) [
    | none ↦ none
    | some trial ↦ measure_from runner workflow scs (count_trial equal trial sc.expected m)
  ]

  -- `_measure`
  unfoldable pub measure : Runner → (workflow : String) → List Scenario → Option VariantMetrics
  unfolding measure_from
  measure runner workflow scenarios =
      measure_from runner workflow scenarios (unmeasured workflow scenarios)

  -- `evaluate`; `none` is an exception, from the compiler or from a run.
  unfoldable pub evaluate :
      (revision_id : CompanySpec → String)
      → CompanyPack
      → (baseline variant : String) → List Scenario
      → (max_cost_ratio : ℕ) → Option EvalReport
  unfolding measure verdict
  evaluate revision_id pack baseline variant scenarios max_cost_ratio =
      elim (build_runner revision_id pack none none) [
        | none ↦ none
        | some runner ↦ elim (measure runner baseline scenarios) [
          | none ↦ none
          | some base ↦ elim (measure runner variant scenarios) [
            | none ↦ none
            | some var ↦ some (verdict p max_cost_ratio base var)
          ]
        ]
      ]

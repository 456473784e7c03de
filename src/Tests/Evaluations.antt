-- ===== src/Tests/Evaluations.antt =====
-- The evaluation gate at one scenario, which the variant's step answers and the baseline's does not.
use company_command.Prelude.{
  ℕ, ◌≡◌, refl, String, Bool, true, none, some, [], ◌∷◌, ◌==◌, lookup, insert,
}
use company_command.Json.{Json, bool, Fields, end, field, get, put, merge}
use company_command.Ids.{Platform, content_id, canonical_json, digest}
use company_command.Spec.{Workflow}
use company_command.Kernel.Records.{step_started}
use company_command.Kernel.Runtime.{Worker}
use company_command.Packs.{CompanyPack, build_runner}
use company_command.Evaluation.{
  VariantMetrics, EvalReport, Trial, satisfies, matches, success_rate, within_cost, run_one,
  count_trial, verdict, measure_from, measure, evaluate,
}
use company_command.Evaluation.Verdict.{IsEarned, RisingRatio, evaluate-IsEarned}
use company_command.Compile.Codes.{each, starts_with}
use company_command.Compile.Steps.{step_errors, typed_errors}
use company_command.Compile.Actions.{
  action_errors, approval_errors, locked_errors, role_errors, authority_errors,
}
use company_command.Compile.Cycles.{
  check_cycles, search_all, visit_step, each_dep, graph_of, bounds_of,
}
use company_command.Compile.{workflow_errors, workflows_errors, company_errors, compile_company}
use company_command.Kernel.Steps.{
  Runner, envelope, work_envelope, call_worker, decide_all, run_work_step, upstream,
}
use company_command.Kernel.Workflow.{
  start, task_id_of, drive, drive_steps, run_step, run_new, settle_work, succeed,
}
use company_command.Kernel.Replay.{
  emit, completed_steps, events, completed_in, task_exists, created_in,
}
use company_command.Kernel.Ledger.{append, sealed_row, head_seal, link_seal, read}
use company_command.Kernel.Order.{in_dependency_order, visit, visit_each, index}
use company_command.Gateway.Verifier.{deny_by_default}
use company_command.Workers.Models.{new_registry}
use company_command.Workers.Native as Native
use company_command.Workers.Native.{skill_for}
use company_command.Tests.Encoding.{json_code}
use company_command.Tests.Sample.{sample_platform}
use company_command.Tests.Orders.{step_with}
use company_command.Tests.Declarations.{acme, writer, send}

-- Every event reads back as one that no reader counts.
abbrev platform : Platform
platform = record sample_platform {
  dumps = λ v. "";
  sha256_hex = λ text. "0123456789abcdef";
  dump_event = λ e. "";
  load_event =
      λ body. some (record { company = "acme-1"; task_id = ""; payload = step_started "" });
}

abbrev flow : String → Workflow
flow id = record { id = id; version = 1; input_schema = none; steps = step_with id [] ∷ [] }

abbrev answer : Fields → Worker
answer artifact n env =
    some (record {
      status = "ok";
      artifact = some artifact;
      intents = [];
      questions = [];
      usage = end;
    })

abbrev pub pack : CompanyPack
pack = record {
  spec = record acme { workflows = flow "solo" ∷ flow "team" ∷ [] };
  skills = ("solo", answer end) ∷ ("team", answer (field "found" (bool true) end)) ∷ [];
  handlers = [];
  scenarios = record { inputs = end; expected = field "found" (bool true) end } ∷ [];
}

abbrev equal : Json → Json → Bool
equal v w = json_code v "" == json_code w ""

abbrev metrics : String → ℕ → VariantMetrics
metrics workflow successes = record {
  workflow = workflow;
  scenarios = 1;
  successes = successes;
  cost = 1;
  policy_denies = 0;
}

abbrev report : EvalReport
report = record { baseline = metrics "solo" 0; variant = metrics "team" 1; promote = true }

compiles : compile_company pack.spec ≡ some []
unfolding compile_company company_errors workflows_errors workflow_errors step_errors typed_errors
    action_errors approval_errors locked_errors role_errors authority_errors check_cycles search_all
    visit_step each_dep graph_of bounds_of each starts_with lookup insert
compiles = refl

abbrev pub team_runner : Runner
team_runner = record {
  revision_id = "rev";
  company_name = "acme-1";
  workflows = ("solo", flow "solo") ∷ ("team", flow "team") ∷ [];
  roles = ("writer", writer) ∷ [];
  actions = ("send", send) ∷ [];
  worker = Native.run (record { skills = pack.skills; profiles = new_registry none });
  gateway = record { actions = ("send", send) ∷ []; bounds = []; verify = deny_by_default };
  executor = some [];
}

built : build_runner (λ spec. "rev") pack none none ≡ some team_runner
unfolding build_runner insert
built = rw (build_runner, compiles) refl

abbrev trial : String → Fields → Trial
trial id artifact = record { artifacts = (id, some artifact) ∷ []; calls = 1; denies = 0 }

solo_run : run_one platform team_runner "solo" end ≡ some (trial "solo" end)
unfolding run_one start drive drive_steps lookup completed_steps read task_exists completed_in
    created_in emit append in_dependency_order visit_each visit index insert run_step task_id_of
    content_id canonical_json head_seal link_seal sealed_row digest events call_worker decide_all
    envelope run_work_step upstream work_envelope run_new settle_work succeed Native.run skill_for
    merge put get
solo_run = refl

team_run :
    run_one platform team_runner "team" end ≡ some (trial "team" (field "found" (bool true) end))
unfolding run_one start drive drive_steps lookup completed_steps read task_exists completed_in
    created_in emit append in_dependency_order visit_each visit index insert run_step task_id_of
    content_id canonical_json head_seal link_seal sealed_row digest events call_worker decide_all
    envelope run_work_step upstream work_envelope run_new settle_work succeed Native.run skill_for
    merge put get
team_run = refl

evaluated :
    evaluate platform equal (λ spec. "rev") pack "solo" "team" pack.scenarios 600 ≡ some report
unfolding evaluate measure measure_from count_trial matches satisfies verdict success_rate
    within_cost get json_code
evaluated = rw (evaluate, built) (rw (measure, measure_from, solo_run, team_run) refl)

rising : RisingRatio platform
rising a b n le = le

evaluate-IsEarned_example : IsEarned platform equal team_runner "solo" "team" pack.scenarios 600
evaluate-IsEarned_example =
    evaluate-IsEarned platform equal (λ spec. "rev") pack "solo" "team" pack.scenarios 600
      team_runner report rising built evaluated refl

-- ===== src/Tests/Loops.antt =====
-- The Loop worker on a machine whose workspaces exist and whose Loops have passed.
use Prim.Native.String.{◌++◌ as concat}
use company_command.Prelude.{◌⊎◌, ℕ, ◌≡◌, refl, String, Bool, true, false, none, some, [], ◌∷◌}
use company_command.Json.{null, str, obj, Fields, end, field, get}
use company_command.Workers.CliAgents.{result_of}
use company_command.Workers.Loop.Actions.{done, content, Machine, opaque, dictionary}
use company_command.Workers.Loop.Policy.{LoopPolicy}
use company_command.Workers.Loop.Evidence.{
  is_git_repository, repository_evidence, recorded_base, evidence_since, evidence_fields, git,
  base_text, status_names,
}
use company_command.Workers.Loop.Workspace.{
  identity_of, workspace_of, source_commit, existing_workspace, prepare_workspace,
}
use company_command.Workers.Loop.{
  LoopRun, LoopWorker, load_state, run, run_body, run_from, result, report, status_of, status_in,
}
use company_command.Workers.Loop.Verdict.{IsStored, IsReturned, NamesPass, run-ok_passed}
use company_command.Workers.Loop.Rerun.{run-mismatch, run-ended}
use company_command.Tests.Agents.{host, envelope}

abbrev passed : Fields
passed = field "status" (str "PASSED") end

-- Every file holds a state that has passed; whether it is an envelope's identity is the argument.
abbrev machine : (own : Bool) → Machine ℕ
machine own = record {
  exists = λ d path. true;
  read_text = λ d path. content path;
  write_text = λ path text d. (done tt, d);
  make_dirs = λ path d. (done tt, d);
  copy_tree = λ source target ignored d. (done tt, d);
  run_process = λ argv cwd d. (done (record { returncode = 128; stdout = ""; stderr = "" }), d);
  environ = λ name. none;
  loads = λ text. some (obj passed);
  dumps_sorted = λ v. "identity";
  equal = λ v w. own;
  splitlines = λ text. text ∷ [];
}

abbrev policy : LoopPolicy
policy = record {
  executor_provider = "codex";
  verifier_provider = "claude";
  max_iterations = 8;
  max_minutes = 60;
  step_timeout_seconds = 900;
  pass_marker = "LOOP_VERDICT: PASS";
}

abbrev worker : LoopWorker ℕ
worker = record {
  source_repository = "/src";
  workspace_root = "/work";
  policy = policy;
  environment_allowlist = [];
  runner = λ config workspace environment resume d. (done opaque, d);
}

abbrev other_runner : LoopRun ℕ
other_runner config workspace environment resume d = (done (dictionary passed), d)

untracked : source_commit host (machine false) "/src" 0 ≡ (done null, 0)
unfolding source_commit is_git_repository
untracked = refl

prepared :
    prepare_workspace host (machine true) "/src" "/work" envelope 0 ≡ (done "/work/identity", 0)
unfolding prepare_workspace source_commit is_git_repository existing_workspace workspace_of
prepared = refl

loaded : load_state host (machine true) "/work/identity" 0 ≡ (done (some passed), 0)
unfolding load_state
loaded = refl

ran_ok : (run host (machine true) worker envelope 0).0.status ≡ "ok"
unfolding run run_body run_from status_in result report status_of prepare_workspace load_state
    source_commit is_git_repository existing_workspace repository_evidence get
ran_ok = refl

run-ok_passed_example :
    (workspace : String) × (state : Fields) × (evidence : Fields) × (IsStored host
        (machine true)
        worker
        envelope
        workspace
        state
      ⊎ IsReturned host (machine true) worker envelope workspace state)
    × NamesPass host (machine true) worker envelope state
    × ((run host (machine true) worker envelope 0).0
        ≡ report host envelope workspace state evidence)
run-ok_passed_example = run-ok_passed host (machine true) worker envelope 0 ran_ok

abbrev workspace : String
workspace = workspace_of host (machine false) "/work" (identity_of "/src" null envelope)

mismatch_deferred : run host (machine false) worker envelope 0 ≡ (
  result_of "deferred" none (
      field "worker"
        (str "loop")
        (field "reason" (str (concat "workspace identity mismatch: " workspace)) end)),
  0,
)
mismatch_deferred =
    run-mismatch host (machine false) worker envelope 0 0 null (obj passed) _ untracked refl refl
      refl refl

ended_not_run :
    run host (machine true) worker envelope 0
    ≡ run host (machine true) (record worker { runner = other_runner }) envelope 0
unfolding get
ended_not_run =
    run-ended host (machine true) worker envelope 0 0 "/work/identity" "status" "PASSED"
      (str "PASSED") end other_runner prepared loaded refl refl

-- A machine whose workspaces are git repositories, where every process prints `true`.
abbrev repository : Machine ℕ
repository = record (machine true) {
  run_process = λ argv cwd d. (done (record { returncode = 0; stdout = "true"; stderr = "" }), d);
  loads = λ text. some (obj (field "base_commit" (str "c0") end));
}

-- The evidence is complete there, and its diff is what git printed.
diff_reported :
    (repository_evidence host repository "/work/identity" 0).0
    ≡ done (evidence_fields (str "c0") "true" ("true" ∷ "e" ∷ []) "true")
unfolding repository_evidence is_git_repository recorded_base evidence_since git base_text
    status_names get
diff_reported = refl

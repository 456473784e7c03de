-- ===== src/Workers/Loop/Policy.antt =====
-- comcmd/workers/loop.py, `LoopPolicy` and what `LoopWorker.__init__` refuses.
use Prim.Native.Char.{Char}
use company_command.Prelude.{
  ℕ, String, Bool, List, [], ◌∷◌, ◌==◌, ◌||◌, not, contains, ltb, leb, if◌then◌else◌, is_some,
}
use company_command.Workers.Texts.{Outcome, returned, failed, rfind, text_length}

-- `max_minutes` is in a unit that divides every limit that is given.
pub record LoopPolicy : Type 0 where
  pub executor_provider : String
  pub verifier_provider : String
  pub max_iterations : ℕ
  pub max_minutes : ℕ
  pub step_timeout_seconds : ℕ
  pub pass_marker : String

abbrev newline : Char
newline = "\n"

abbrev providers : List String
providers = "codex" ∷ "claude" ∷ []

-- `__post_init__`; `failed` is the `ValueError`.
unfoldable pub check_policy : (strip : String → String) → LoopPolicy → Outcome LoopPolicy
unfolding rfind
check_policy strip p =
    if not (contains p.executor_provider providers)
    then failed "executor_provider must be 'codex' or 'claude'"
    else if not (contains p.verifier_provider providers)
    then failed "verifier_provider must be 'codex' or 'claude'"
    else if ltb p.max_iterations 1 || leb p.max_minutes 0
    then failed "Loop limits must be positive"
    else if ltb p.step_timeout_seconds 1
    then failed "step_timeout_seconds must be positive"
    else if strip p.pass_marker == ""
        || is_some (rfind newline p.pass_marker (text_length p.pass_marker))
    then failed "pass_marker must be one non-empty line"
    else returned p

-- The checks of `LoopWorker.__init__` on the two resolved directories.
unfoldable pub check_roots :
    (is_dir : String → Bool)
    → (is_inside : String → String → Bool) → (source_repository workspace_root : String)
    → Outcome (Unit {0})
check_roots is_dir is_inside source_repository workspace_root =
    if not (is_dir source_repository)
    then failed "source repository does not exist"
    else if workspace_root == source_repository
    then failed "workspace_root must differ from source_repository"
    else if is_inside workspace_root source_repository
    then failed "workspace_root must not be inside source_repository"
    else returned tt

-- ===== src/Workers/Loop/Evidence.antt =====
-- comcmd/workers/loop.py: git, and what `_repository_evidence` reports of a workspace.
-- The texts of the exceptions that Python raises itself are shortened.
use Prim.Native.String.{◌++◌ as concat}
use company_command.Prelude.{
  ℕ, ◌-◌, String, Bool, none, some, List, [], ◌∷◌, ◌++◌, ◌==◌, ◌&&◌, not, eq_ℕ, ltb, add,
  if◌then◌else◌,
}
use company_command.Json.{Json, null, bool, str, arr, obj, nil, Fields, end, field, get, texts}
use company_command.Workers.Texts.{Host, joined, join, text_length, text_take, text_drop}
use company_command.Workers.Loop.Actions.{
  loop_worker_error, other_error, done, raised, content, not_found, unreadable, Action, Machine,
  pure, throw, ◌>>=◌,
}

abbrev pub state_dir : String
state_dir = ".acme-loop"

-- `workspace / ".acme-loop" / name`
abbrev pub path_in : String → String → String
path_in workspace name = joined (workspace ∷ "/" ∷ state_dir ∷ "/" ∷ name ∷ [])

abbrev pub identity_file : String
identity_file = "envelope.json"

-- `text[-50_000:]`
abbrev pub diff_limit : ℕ
diff_limit = 50000

unfoldable pub text_tail : ℕ → String → String
text_tail n text = text_drop (text_length text - n) text

-- `text.startswith(start)`
abbrev starts_with : (start text : String) → Bool
starts_with start text = text_take (text_length start) text == start

-- The names of `git status --short` outside the state directory.
unfoldable pub status_names : List String → List String
status_names [] = []
status_names (line ∷ lines) =
    let rest = status_names lines in
    let name = text_drop 3 line in
    if ltb 3 (text_length line) && not (starts_with (concat state_dir "/") name)
    then name ∷ rest
    else rest

-- `list(dict.fromkeys(names))`, behind the names so far.
unfoldable pub distinct : (found names : List String) → List String
distinct found [] = found
distinct found (n ∷ ns) = distinct (add n found) ns

-- A base that is no text cannot be an argument of a process.
unfoldable pub base_text : {D : Type 0} → Json → Action D String
base_text (str base) = pure base
base_text v = throw (other_error "expected str, bytes or os.PathLike object")

unfoldable pub evidence_fields : Json → (head : String) → List String → (diff : String) → Fields
unfolding distinct text_tail
evidence_fields base head names diff = field "base_commit" base (
    field "head_commit" (str head) (
      field "changed_files" (arr (texts (distinct [] names))) (
        field "diff" (str (text_tail diff_limit diff))
          (field "diff_truncated" (bool (ltb diff_limit (text_length diff))) end))))

module _ {D : Type 0} (h : Host) (m : Machine D) where
  -- `_is_git_repository`
  unfoldable pub is_git_repository : String → Action D Bool
  is_git_repository path = do
    proc ← m.run_process ("git" ∷ "-C" ∷ path ∷ "rev-parse" ∷ "--is-inside-work-tree" ∷ []) none
    pure (eq_ℕ proc.returncode 0 && h.strip proc.stdout == "true")

  -- `_git`
  unfoldable pub git : List String → (cwd : String) → Action D String
  git args cwd = do
    proc ← m.run_process ("git" ∷ args) (some cwd)
    let error = text_take 400 (h.strip proc.stderr)
    (if eq_ℕ proc.returncode 0
        then pure proc.stdout
        else throw (loop_worker_error (joined ("git " ∷ join " " args ∷ " failed: " ∷ error ∷ []))))

  -- `json.loads(identity_path.read_text())["base_commit"]`
  unfoldable pub recorded_base : String → Action D Json
  recorded_base workspace d = elim (m.read_text d (path_in workspace identity_file)) [
    | not_found ↦ (raised (other_error "No such file or directory"), d)
    | unreadable error ↦ (raised (other_error error), d)
    | content text ↦ elim (m.loads text) [
      | some (obj identity) ↦ elim (get "base_commit" identity) [
        | none ↦ (raised (other_error "'base_commit'"), d)
        | some base ↦ (done base, d)
      ]
      | some _ ↦ (raised (other_error "indices must be integers"), d)
      | none ↦ (raised (other_error "invalid JSON"), d)
    ]
  ]

  -- What is reported of a git repository, from its base on.
  unfoldable pub evidence_since : String → Json → Action D Fields
  unfolding git base_text status_names evidence_fields
  evidence_since workspace recorded = do
    head ← git ("rev-parse" ∷ "HEAD" ∷ []) workspace
    status ← git ("status" ∷ "--short" ∷ []) workspace
    base ← base_text recorded
    committed ← git ("diff" ∷ "--name-only" ∷ base ∷ []) workspace
    diff ← git ("diff" ∷ "--no-ext-diff" ∷ "--binary" ∷ base ∷ []) workspace
    let names = m.splitlines committed ++ status_names (m.splitlines status)
    pure (evidence_fields recorded (h.strip head) names diff)

  -- `_repository_evidence`
  unfoldable pub repository_evidence : String → Action D Fields
  unfolding is_git_repository recorded_base evidence_since
  repository_evidence workspace = do
    tracked ← is_git_repository workspace
    (if tracked
        then recorded_base workspace >>= evidence_since workspace
        else pure (
            field "base_commit" null
              (field "head_commit" null (field "changed_files" (arr nil) end))))

-- ===== src/Workers/Loop/Workspace.antt =====
-- comcmd/workers/loop.py, `_prepare_workspace`: one directory for each company, task, step and source.
use Prim.Native.String.{◌++◌ as concat}
use company_command.Prelude.{String, none, some, [], ◌∷◌, if◌then◌else◌}
use company_command.Json.{Json, null, str, obj, end, field}
use company_command.Kernel.Runtime.{TaskEnvelope}
use company_command.Workers.Texts.{Host, joined, text_take}
use company_command.Workers.Loop.Actions.{
  loop_worker_error, other_error, done, raised, content, not_found, unreadable, Action, Machine,
  pure, ◌>>=◌, ◌>>◌,
}
use company_command.Workers.Loop.Evidence.{
  state_dir, path_in, identity_file, is_git_repository, git,
}

unfoldable pub identity_of : (source : String) → (source_commit : Json) → TaskEnvelope → Json
identity_of source source_commit env = obj (
    field "company" (str env.company) (
      field "task_id" (str env.task_id) (
        field "step_id" (str env.step_id)
          (field "source" (str source) (field "base_commit" source_commit end)))))

module _ {D : Type 0} (h : Host) (m : Machine D) where
  -- The directory's name under the workspace root.
  unfoldable pub workspace_of : (root : String) → (identity : Json) → String
  workspace_of root identity =
      joined (root ∷ "/" ∷ text_take 20 (h.sha256_hex (m.dumps_sorted identity)) ∷ [])

  -- A workspace that exists is taken only with the identity that it was made for.
  unfoldable pub existing_workspace : String → (identity : Json) → Action D String
  existing_workspace workspace identity d =
      let refused =
        loop_worker_error (concat "refusing unrecognized existing workspace: " workspace) in
      elim (m.read_text d (path_in workspace identity_file)) [
        | not_found ↦ (raised refused, d)
        | unreadable error ↦ (raised (other_error error), d)
        | content text ↦ elim (m.loads text) [
          | none ↦ (raised refused, d)
          | some existing ↦ if m.equal existing identity then (done workspace, d) else (
            raised (loop_worker_error (concat "workspace identity mismatch: " workspace)),
            d,
          )
        ]
      ]

  abbrev clone : (source workspace root : String) → Action D (Unit {0})
  clone source workspace root = do
    git h m ("clone" ∷ "--local" ∷ "--no-hardlinks" ∷ "--quiet" ∷ source ∷ workspace ∷ []) root
    pure tt

  -- A clone of a repository, or a copy of another directory, with the identity beside it.
  unfoldable pub make_workspace :
      (source root workspace : String) → (identity : Json) → Action D String
  make_workspace source root workspace identity = do
    m.make_dirs root
    tracked ← is_git_repository h m source
    (if tracked
        then clone source workspace root
        else m.copy_tree source workspace (state_dir ∷ ".loop" ∷ "__pycache__" ∷ "*.pyc" ∷ []))
    m.make_dirs (joined (workspace ∷ "/" ∷ state_dir ∷ []))
    m.write_text (path_in workspace identity_file) (concat (h.dumps_indent identity) "\n")
    pure workspace

  abbrev head_commit : String → Action D Json
  head_commit source = do
    head ← git h m ("rev-parse" ∷ "HEAD" ∷ []) source
    pure (str (h.strip head))

  -- `_git("rev-parse", "HEAD").strip()` of a repository, else `None`
  unfoldable pub source_commit : (source : String) → Action D Json
  source_commit source = do
    tracked ← is_git_repository h m source
    (if tracked then head_commit source else pure null)

  unfoldable pub prepare_workspace : (source root : String) → TaskEnvelope → Action D String
  unfolding source_commit existing_workspace make_workspace
  prepare_workspace source root env = do
    commit ← source_commit source
    let identity = identity_of source commit env
    let workspace = workspace_of root identity
    (λ d.
        if m.exists d workspace
        then existing_workspace workspace identity d
        else make_workspace source root workspace identity d)

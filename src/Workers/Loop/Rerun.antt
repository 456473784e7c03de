-- ===== src/Workers/Loop/Rerun.antt =====
-- About when the runner of a Loop is called, and whose workspace it works in (comcmd/workers/loop.py).
use Prim.Native.String.{◌++◌ as concat}
use company_command.Prelude.{◌≡◌, refl, String, true, false, none, some, List, [], ◌∷◌, contains}
use company_command.Json.{Json, Fields, str, get, field, end}
use company_command.Kernel.Runtime.{TaskEnvelope}
use company_command.Workers.Texts.{Host}
use company_command.Workers.CliAgents.{result_of}
use company_command.Workers.Loop.Actions.{loop_worker_error, done, raised, content, Machine}
use company_command.Workers.Loop.Evidence.{path_in, identity_file}
use company_command.Workers.Loop.Workspace.{
  identity_of, workspace_of, source_commit, existing_workspace, prepare_workspace,
}
use company_command.Workers.Loop.{
  LoopRun, LoopWorker, status_in, load_state, run_from, run_body, run,
}

status_in-known :
    {D : Type 0} (state : Fields) (s : String) (words : List String) (d : D)
    → get "status" state ≡ some (str s)
    → status_in state words d ≡ (done (contains s words), d)
unfolding status_in
status_in-known state s words d e = rw (status_in, e) refl

module _ {D : Type 0} (h : Host) (m : Machine D) (w : LoopWorker D) (env : TaskEnvelope) where
  existing-mismatch :
      (workspace : String) (identity : Json) (d : D) (existing : Json) (text : String)
      → m.read_text d (path_in workspace identity_file) ≡ content text
      → m.loads text ≡ some existing
      → m.equal existing identity ≡ false
      → existing_workspace h m workspace identity d
        ≡ (raised (loop_worker_error (concat "workspace identity mismatch: " workspace)), d)
  unfolding existing_workspace
  existing-mismatch workspace identity d existing text read loads other =
      rw (existing_workspace, read, loads, other) refl

  -- A workspace that exists with another envelope's identity is not entered: the run is deferred with the
  -- mismatch, its runner is not called, and nothing on the machine changes behind the look at the source.
  pub run-mismatch :
      (d d' : D) (commit existing : Json) (text : String)
      → source_commit h m w.source_repository d ≡ (done commit, d')
      → m.exists d' (workspace_of h m w.workspace_root (identity_of w.source_repository commit env))
        ≡ true
      → m.read_text d' (
          path_in
            (workspace_of h m w.workspace_root (identity_of w.source_repository commit env))
            identity_file)
        ≡ content text
      → m.loads text ≡ some existing
      → m.equal existing (identity_of w.source_repository commit env) ≡ false
      → run h m w env d ≡ (
        result_of "deferred" none (
            field "worker" (str "loop") (
              field "reason"
                (str (
                  concat "workspace identity mismatch: " (
                    workspace_of h m w.workspace_root
                      (identity_of w.source_repository commit env))))
                end)),
        d',
      )
  unfolding run run_body prepare_workspace
  run-mismatch d d' commit existing text looked there read loads other =
      let workspace =
        workspace_of h m w.workspace_root (identity_of w.source_repository commit env) in
      rw (looked, there, existing-mismatch workspace _ d' existing text read loads other) refl

  -- A Loop that has ended is not run again: behind its terminal state the runner makes no difference.
  pub run-ended :
      (d d' : D) (workspace k s : String) (v : Json) (state : Fields) (other : LoopRun D)
      → prepare_workspace h m w.source_repository w.workspace_root env d ≡ (done workspace, d')
      → load_state h m workspace d' ≡ (done (some (field k v state)), d')
      → get "status" (field k v state) ≡ some (str s)
      → contains s ("PASSED" ∷ "EXHAUSTED" ∷ "FAILED" ∷ []) ≡ true
      → run h m w env d ≡ run h m (record w { runner = other }) env d
  unfolding run run_body run_from
  run-ended d d' workspace k s v state other prepared loaded status ended =
      rw (prepared, loaded, status_in-known (field k v state) s _ d' status, ended) refl

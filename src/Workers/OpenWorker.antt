-- ===== src/Workers/OpenWorker.antt =====
-- comcmd/workers/openworker.py: a running OpenWorker server as a read-only worker.
pub mod Frames
pub mod Listening
pub mod Turns
pub mod Quiet
use Prim.Native.String.{◌++◌ as concat}
use company_command.Prelude.{
  ℕ, suc, String, Bool, true, false, Option, none, some, List, [], ◌∷◌, ◌++◌, ◌==◌, ◌&&◌, not, leb,
  contains, if◌then◌else◌,
}
use company_command.Json.{Json, null, str, arr, obj, Fields, end, field, get, truthy}
use company_command.Kernel.Runtime.{TaskEnvelope, WorkerResult, Worker}
use company_command.Workers.Texts.{
  Host, Outcome, returned, failed, joined, join, tools_text, no_get, text_take,
}
use company_command.Workers.CliAgents.{artifact_of, result_of}
use company_command.Workers.OpenWorker.Frames.{Frame, run_session}

-- `urllib.parse`, and `rstrip("/")`.
pub record Urls : Type 0 where
  pub scheme : String → String
  pub netloc : String → String
  pub path : String → String
  pub rstrip_slash : String → String
  pub quote : String → String
  pub urlencode : (workspace agent : String) → String
  pub urlunsplit : (scheme netloc path query : String) → String

abbrev ws_scheme : String → String
ws_scheme scheme = if scheme == "http" then "ws" else if scheme == "https" then "wss" else scheme

module _ (u : Urls) where
  -- `_websocket_url`; `failed` is the `ValueError`.
  unfoldable pub websocket_url : (base_url session_id workspace agent : String) → Outcome String
  websocket_url base_url session_id workspace agent =
      let scheme = u.scheme base_url in
      let netloc = u.netloc base_url in
      if contains scheme ("http" ∷ "https" ∷ "ws" ∷ "wss" ∷ []) && not (netloc == "")
      then (let path =
            joined (u.rstrip_slash (u.path base_url) ∷ "/ws/session/" ∷ u.quote session_id ∷ []) in
          returned (u.urlunsplit (ws_scheme scheme) netloc path (u.urlencode workspace agent)))
      else failed "OpenWorker URL must be an http(s) or ws(s) URL"

-- Base URL, session id, workspace, agent, prompt and timeout, to the artifact's text.
abbrev pub OpenWorkerRunner : Type 0
OpenWorkerRunner =
    ℕ → (base_url session_id workspace agent prompt : String) → (timeout : ℕ) → Outcome String

module _ (h : Host) (u : Urls) where
  -- `_websocket_runner`; `connect` is `websocket.create_connection`, which may raise.
  unfoldable pub websocket_runner :
      (connect : ℕ → (url : String) → (timeout : ℕ) → Outcome (List Frame))
      → (lost : String) → OpenWorkerRunner
  unfolding websocket_url run_session
  websocket_runner connect lost n base_url session_id workspace agent prompt timeout =
      elim (websocket_url u base_url session_id workspace agent) [
        | failed error ↦ failed error
        | returned url ↦ elim (connect n url timeout) [
          | failed error ↦ failed error
          | returned frames ↦ (run_session h prompt lost frames).outcome
        ]
      ]

pub record OpenWorker : Type 0 where
  pub base_url : String
  pub workspace : String
  pub agent : String
  pub timeout_seconds : ℕ
  pub runner : OpenWorkerRunner

-- `OpenWorker.__init__`, which raises on a timeout or a URL that it refuses.
unfoldable pub new_open_worker :
    Urls
    → (base_url workspace agent : String) → (timeout_seconds : ℕ) → OpenWorkerRunner
    → Outcome OpenWorker
unfolding websocket_url
new_open_worker u base_url workspace agent timeout_seconds runner =
    if leb timeout_seconds 0
    then failed "timeout_seconds must be positive"
    else (let url = u.rstrip_slash base_url in
        elim (websocket_url u url "validation" workspace agent) [
          | failed error ↦ failed error
          | returned _ ↦ returned (record {
            base_url = url;
            workspace = workspace;
            agent = agent;
            timeout_seconds = timeout_seconds;
            runner = runner;
          })
        ])

module _ (h : Host) where
  unfoldable pub build_prompt : TaskEnvelope → String
  unfolding join
  build_prompt env = join "\n" (
      joined ("You are the '" ∷ env.role ∷ "' role in company '" ∷ env.company ∷ "'." ∷ [])
      ∷ joined ("Complete task " ∷ env.task_id ∷ ", step " ∷ env.step_id ∷ "." ∷ [])
      ∷ "You are operating as a read-only research and artifact worker."
      ∷ joined (
          "Do not write files, run commands, send messages, change external systems, "
          ∷ "or request approval. Describe any needed effect in the artifact for Company "
          ∷ "Command to authorize separately." ∷ [])
      ∷ joined ("Available read-tool scope: " ∷ tools_text env.allowed_tools ∷ "." ∷ [])
      ∷ "Task inputs and upstream artifacts (JSON):"
      ∷ h.dumps_indent (obj env.inputs)
      ∷ ""
      ∷ "Return the completed artifact as a single JSON object."
      ∷ [])

  abbrev session_of : TaskEnvelope → String
  session_of env =
      let identity = join "\0" (env.company ∷ env.task_id ∷ env.step_id ∷ []) in
      concat "comcmd-" (text_take 20 (h.sha256_hex identity))

  -- `OpenWorker.run`
  unfoldable pub run : OpenWorker → Worker
  unfolding artifact_of
  run w n env =
      let session_id = session_of env in
      elim (w.runner n w.base_url session_id w.workspace w.agent (build_prompt env)
        w.timeout_seconds) [
          | failed error ↦ some (
              result_of "deferred" none
                (field "worker" (str "openworker") (field "reason" (str error) end)))
          | returned output ↦ some (
              result_of "ok" (some (artifact_of h output)) (
                field "worker" (str "openworker")
                  (field "session_id" (str session_id) (field "mode" (str "plan") end))))
        ]

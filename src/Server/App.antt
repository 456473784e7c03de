-- ===== src/Server/App.antt =====
-- comcmd/server/app.py: who is let in, and how the service's answers become HTTP responses. FastAPI chooses
-- the route and reads the bodies; the events of a task are dictionaries there and records here. `events`
-- raises on a ledger that cannot be read, which like any other exception is the server's error 500. The
-- stores are the ones in memory, so `health` always says that nothing is durable, which is left out.
pub mod Access
use Prim.Native.String.{◌++◌ as concat}
use company_command.Prelude.{
  ℕ, String, Bool, true, false, Option, none, some, List, ◌==◌, ◌&&◌, not, map, if◌then◌else◌,
}
use company_command.Json.{Json, Fields}
use company_command.Ids.{Platform}
use company_command.Kernel.Records.{ApprovalView}
use company_command.Kernel.Runtime.{key_error}
use company_command.Gateway.Verifier.{Assertion}
use company_command.Workers.Texts.{text_take, text_drop}
use company_command.Server.State.{
  Service, Answer, answer, refuse, ServiceError, unknown_company, unknown_digest, no_enrollment,
  runner_error, HandleView, TaskStatus,
}
use company_command.Server.Service.{
  Ceremony, CompanyView, EventView, ApprovalOptions, companies, start_task, task_status, pending,
  enroll_options, enroll_verify, approval_options, submit_approval, events,
}

pub data Route : Type 0 where
  health : Route
  list_companies : Route
  post_task : (company workflow : String) → (inputs : Fields) → Route
  get_task : (company task_id : String) → Route
  get_approvals : (company : String) → Route
  post_enrollment : (company principal : String) → Route
  post_credential : (company principal : String) → (credential : Fields) → Route
  post_options : (company digest : String) → Route
  post_approval : (company task_id workflow step : String) → Assertion → Route
  get_events : (company : String) → (limit : ℕ) → Route

pub data Body : Type 0 where
  healthy : (companies : List String) → Body
  company_list : List CompanyView → Body
  task : HandleView → Body
  status : TaskStatus → Body
  approvals : List ApprovalView → Body
  public_key : Json → Body
  enrolled : (principal : String) → Body
  challenge : ApprovalOptions → Body
  event_list : List EventView → Body
  detail : String → Body

pub record Request : Type 0 where
  pub path : String
  pub authorization : Option String
  pub route : Route

pub record Response : Type 0 where
  pub code : ℕ
  pub body : Body

abbrev pub error : ℕ → String → Response
error code text = record { code = code; body = detail text }

abbrev server_error : Response
server_error = error 500 "Internal Server Error"

-- `except KeyError: raise HTTPException(404, ...)`; what is no `KeyError` is not caught.
abbrev not_found : (text : String) → ServiceError → Response
not_found text unknown_company = error 404 text
not_found text unknown_digest = error 404 text
not_found text (runner_error key_error) = error 404 text
not_found text _ = server_error

-- `except (KeyError, ValueError)`; the library's own refusal of a registration is neither.
abbrev bad_request : (company : String) → ServiceError → Response
bad_request company unknown_company = error 400 (concat "'" (concat company "'"))
bad_request company no_enrollment = error 400 "no enrollment in progress for this principal"
bad_request company _ = server_error

abbrev respond : {A : Type 0} → (ServiceError → Response) → (A → Body) → Answer A → Response
respond refused body (answer a) = record { code = 200; body = body a }
respond refused body (refuse e) = refused e

abbrev task_response : Answer (Option TaskStatus) → Response
task_response (answer none) = error 404 "unknown task"
task_response (answer (some st)) = record { code = 200; body = status st }
task_response (refuse e) = server_error

module _ (p : Platform) (cer : Ceremony) where
  -- The route's handler.
  unfoldable pub dispatch : Route → Service → Response × Service
  dispatch health s =
      (record { code = 200; body = healthy (map (λ c. c.name) (companies p cer s)) }, s)
  dispatch list_companies s = (record { code = 200; body = company_list (companies p cer s) }, s)
  dispatch (post_task company workflow inputs) s =
      let (a, s') = start_task p cer company workflow inputs s in
      (respond (not_found (concat "unknown company or workflow: " company)) task a, s')
  dispatch (get_task company task_id) s = (task_response (task_status p cer company task_id s), s)
  dispatch (get_approvals company) s = (
    respond (not_found (concat "unknown company: " company)) approvals (pending p cer company s),
    s,
  )
  dispatch (post_enrollment company principal) s =
      let (a, s') = enroll_options p cer company principal s in
      (respond (not_found (concat "unknown company: " company)) public_key a, s')
  dispatch (post_credential company principal credential) s =
      let (a, s') = enroll_verify p cer company principal credential s in
      (respond (bad_request company) enrolled a, s')
  dispatch (post_options company digest) s = (
    respond (not_found "unknown company or pending approval") challenge
        (approval_options p cer company digest s),
    s,
  )
  dispatch (post_approval company task_id workflow step assertion) s =
      let (a, s') = submit_approval p cer company task_id workflow step assertion s in
      (respond (not_found (concat "unknown company: " company)) task a, s')
  dispatch (get_events company limit) s = (
    respond (not_found (concat "unknown company: " company)) event_list
        (events p cer company limit s),
    s,
  )

-- The token of a header `Bearer <token>`.
unfoldable pub supplied_token : (lower : String → String) → Option String → String
supplied_token lower none = ""
supplied_token lower (some auth) =
    if text_take 7 (lower auth) == "bearer " then text_drop 7 auth else ""

module _ (p : Platform) (cer : Ceremony) (lower : String → String)
    (compare_digest : String → String → Option Bool) where
  -- The middleware `authenticate`. `secrets.compare_digest` raises on texts that are not ASCII.
  unfoldable pub serve : (api_token : Option String) → Request → Service → Response × Service
  unfolding dispatch supplied_token
  serve none r s = dispatch p cer r.route s
  serve (some token) r s =
      if not (token == "") && not (r.path == "/health")
      then elim (compare_digest (supplied_token lower r.authorization) token) [
        | none ↦ (server_error, s)
        | some true ↦ dispatch p cer r.route s
        | some false ↦ (error 401 "authentication required", s)
      ]
      else dispatch p cer r.route s

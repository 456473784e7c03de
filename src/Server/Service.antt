-- ===== src/Server/Service.antt =====
-- comcmd/server/service.py: the engine behind the HTTP API. One ledger, one approval store and one store of
-- credentials serve all companies; each company has a runner, and a gateway with counters of its own.
-- Only the stores in memory are wired here; loading packs from a directory and logging are left out.
pub mod Sharing
pub mod Enrollment
use Prim.Native.String.{◌++◌ as concat}
use company_command.Prelude.{
  ℕ, suc, ◌-◌, String, Bool, true, false, Option, none, some, List, [], ◌∷◌, ◌++◌, ◌==◌, map, keep,
  length, Dict, lookup, insert, if◌then◌else◌,
}
use company_command.Json.{Json, Fields}
use company_command.Ids.{Platform}
use company_command.Spec.{CompanySpec}
use company_command.Kernel.Records.{
  TaskState, ready, waiting_for_human, EventType, Event, Payload, task_created, task_state_changed,
  step_succeeded, approval_requested, type_of, ApprovalView, Waiting,
}
use company_command.Kernel.Ledger.{Ledger, SealedEvent, read, verify_chain}
use company_command.Kernel.Runtime.{Runtime, Result, ok, raised, Error, M}
use company_command.Kernel.Replay.{TaskHandle, task_events}
use company_command.Kernel.Steps.{Runner}
use company_command.Kernel.Workflow.{start}
use company_command.Kernel.Approval.{approve_step}
use company_command.Gateway.State.{World}
use company_command.Gateway.Approvals.{ApprovalStore}
use company_command.Gateway.Credentials.{
  CredentialStore, no_credentials, EnrolledCredential, VerifiedRegistration, enroll_registration,
}
use company_command.Gateway.Gate.{pending_approvals, challenge_for}
use company_command.Gateway.Verifier.{Assertion, WebAuthn, webauthn_verify}
use company_command.Packs.{CompanyPack, build_runner}
use company_command.Server.State.{
  Answer, Context, HandleView, Service, ServiceError, TaskStatus, answer, handle_view,
  no_enrollment, put_world, refuse, registration_refused, runner_error, unknown_company,
  unknown_digest, unreadable, world_of,
}

-- `_require`
abbrev pub require :
    {A : Type 0} → String → Service → (Context → Answer A × Service) → Answer A × Service
require company s f = elim (lookup company s.contexts) [
  | none ↦ (refuse unknown_company, s)
  | some c ↦ f c
]

-- `d.pop(k, None)`
unfoldable pub pop : {A : Type 0} → String → Dict A → Option A × Dict A
pop k [] = (none, [])
pop k ((j, a) ∷ d) =
    let rest = pop k d in if j == k then (some a, rest.1) else (rest.0, (j, a) ∷ rest.1)

-- `xs[n:]`
abbrev dropped : {A : Type 0} → ℕ → List A → List A
dropped ℕ.zero xs = xs
dropped (suc n) [] = []
dropped (suc n) (x ∷ xs) = dropped n xs

-- `out[-limit:]`, which is all of it for a limit of 0
unfoldable pub last_items : {A : Type 0} → (limit : ℕ) → List A → List A
last_items ℕ.zero xs = xs
last_items (suc n) xs = dropped (length xs - suc n) xs

-- `f"{company}:{principal}"`
abbrev pub enrollment_key : String → String → String
enrollment_key company principal = concat company (concat ":" principal)

-- The loop of `task_status`, over the task's events.
unfoldable pub read_status : List Event → TaskStatus → TaskStatus
read_status [] st = st
read_status (e ∷ es) st = read_status es (elim e.payload [
  | task_created workflow inputs ↦ record st { workflow = some workflow }
  | task_state_changed state waiting_on ↦ record st { state = state }
  | step_succeeded step artifact ↦ record st {
    artifacts = insert step (some artifact) st.artifacts;
  }
  | approval_requested request ↦ record st { waiting_on = some request }
  | _ ↦ st
])

-- `waiting_on if state == "WAITING_FOR_HUMAN" else None`
abbrev waiting_only : TaskStatus → TaskStatus
waiting_only st = elim st.state [ waiting_for_human ↦ st | _ ↦ record st { waiting_on = none } ]

-- `Settings`, and the calls of the webauthn library.
pub record Ceremony : Type 0 where
  pub rp_id : String
  pub rp_origin : String
  pub webauthn : WebAuthn
  pub challenge : ℕ → String
  pub registration_options : (rp_id user_name challenge : String) → Json
  pub verify_registration_response : Fields → String → String → String → Option VerifiedRegistration

-- `_b64url(challenge)` with the relying party.
pub record ApprovalOptions : Type 0 where
  pub rp_id : String
  pub challenge : String
  pub user_verification : String

pub record EventView : Type 0 where
  pub seq : ℕ
  pub type : EventType
  pub task_id : String
  pub payload : Payload

pub record CompanyView : Type 0 where
  pub name : String
  pub workflows : List String
  pub roles : List String

module _ (p : Platform) (cer : Ceremony) where
  -- `_register`; `none` is a `CompileError`.
  unfoldable pub register :
      (revision_id : CompanySpec → String) → CompanyPack → Service → Option Service
  register revision_id pack s =
      elim (build_runner revision_id pack (some (webauthn_verify cer.webauthn)) none) [
        | none ↦ none
        | some runner ↦ some (record s {
          contexts =
              insert pack.spec.metadata.name
                (record { pack = pack; runner = runner; calls = []; significant = [] }) s.contexts;
        })
      ]

  unfoldable pub companies : Service → List CompanyView
  companies s =
      map
        (λ (name, c). record {
          name = name;
          workflows = map (λ w. w.id) c.pack.spec.workflows;
          roles = map (λ r. r.id) c.pack.spec.roles;
        })
        s.contexts

  -- A method of the company's runner; what it wrote before an exception stays written.
  unfoldable pub with_runner :
      String → (Runner → M TaskHandle) → Service → Answer HandleView × Service
  with_runner company f s = require company s (λ c.
      let (r, t) = f c.runner (record { world = world_of c s; runs = s.runs }) in
      let s' = put_world company c t s in
      elim r [ raised e ↦ (refuse (runner_error e), s') | ok h ↦ (answer (handle_view h), s') ])

  unfoldable pub start_task :
      (company workflow : String) → (inputs : Fields) → Service → Answer HandleView × Service
  unfolding with_runner
  start_task company workflow inputs =
      with_runner company (λ runner. start p runner workflow inputs)

  unfoldable pub submit_approval :
      (company task_id workflow step : String) → Assertion → Service → Answer HandleView × Service
  unfolding with_runner
  submit_approval company task_id workflow step assertion =
      with_runner company (λ runner. approve_step p runner task_id workflow step assertion)

  -- `none` when the task has no events; the outer refusal is a ledger that cannot be read.
  unfoldable pub task_status : (company task_id : String) → Service → Answer (Option TaskStatus)
  unfolding read_status
  task_status company task_id s = elim (read p company s.ledger) [
    | none ↦ refuse unreadable
    | some ses ↦ elim (task_events task_id ses) [
      | [] ↦ answer none
      | e ∷ es ↦ answer (
          some (
            waiting_only (
              read_status (e ∷ es) (record {
                task_id = task_id;
                workflow = none;
                state = ready;
                artifacts = [];
                waiting_on = none;
                chain_valid = verify_chain p company s.ledger;
              }))))
    ]
  ]

  unfoldable pub pending : (company : String) → Service → Answer (List ApprovalView)
  pending company s = elim (lookup company s.contexts) [
    | none ↦ refuse unknown_company
    | some c ↦ answer (pending_approvals p (world_of c s))
  ]

  unfoldable pub enroll_options : (company principal : String) → Service → Answer Json × Service
  enroll_options company principal s = require company s (λ c.
      let challenge = cer.challenge s.registrations in
      (
        answer (cer.registration_options cer.rp_id principal challenge),
        record s {
          registrations = suc s.registrations;
          enroll_challenges =
              insert (enrollment_key company principal) challenge s.enroll_challenges;
        },
      ))

  -- `enroll_verify`, with the challenge that was popped.
  unfoldable pub enroll_with :
      (principal : String)
      → (credential : Fields) → (challenge : Option String) → Service
      → Answer String × Service
  enroll_with principal credential none s = (refuse no_enrollment, s)
  enroll_with principal credential (some challenge) s =
      let (enrolled, credentials) =
        enroll_registration cer.verify_registration_response principal credential challenge
          cer.rp_id cer.rp_origin s.credentials in
      (
        elim enrolled [ none ↦ refuse registration_refused | some cred ↦ answer principal ],
        record s { credentials = credentials },
      )

  unfoldable pub enroll_verify :
      (company principal : String) → (credential : Fields) → Service → Answer String × Service
  unfolding enroll_with
  enroll_verify company principal credential s = require company s (λ c.
      let (challenge, rest) = pop (enrollment_key company principal) s.enroll_challenges in
      enroll_with principal credential challenge (record s { enroll_challenges = rest }))

  unfoldable pub approval_options : (company digest : String) → Service → Answer ApprovalOptions
  approval_options company digest s = elim (lookup company s.contexts) [
    | none ↦ refuse unknown_company
    | some c ↦ elim (challenge_for p digest (world_of c s)) [
      | none ↦ refuse unknown_digest
      | some challenge ↦ answer (record {
        rp_id = cer.rp_id;
        challenge = p.b64url challenge;
        user_verification = "required";
      })
    ]
  ]

  unfoldable pub events : (company : String) → (limit : ℕ) → Service → Answer (List EventView)
  unfolding last_items
  events company limit s = elim (lookup company s.contexts) [
    | none ↦ refuse unknown_company
    | some c ↦ elim (read p company s.ledger) [
      | none ↦ refuse unreadable
      | some ses ↦ answer (
          last_items limit (
            map
              (λ se. record {
                seq = se.seq;
                type = type_of se.event.payload;
                task_id = se.event.task_id;
                payload = se.event.payload;
              })
              ses))
    ]
  ]

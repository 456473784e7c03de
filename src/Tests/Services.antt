-- ===== src/Tests/Services.antt =====
-- The service with two companies, an approval that waits and an enrollment under way.
use company_command.Prelude.{
  ◌≡◌, refl, ap, eq_iff, ◌==◌, String, Bool, Option, if◌then◌else◌, ◌⊎◌, true, false, none, some,
  [], ◌∷◌, map, lookup, insert,
}
use company_command.Config.{
  Settings, split_once, split, read_pairs, model_map, from_env, effective_ledger_url,
}
use company_command.Ids.{above}
use company_command.Json.{null, str, Fields, end, field, get}
use company_command.Telemetry.{scrub, event, events_named}
use company_command.Telemetry.Scrub.{get-scrub}
use company_command.Server.App.{Request, list_companies, error, serve, supplied_token}
use company_command.Server.App.Access.{serve-IsTurnedAway, IsTurnedAway}
use company_command.Kernel.Records.{ApprovalView}
use company_command.Gateway.Approvals.{PendingApproval, pending_in, is_expired}
use company_command.Gateway.Approvals as Approvals
use company_command.Gateway.Credentials.{no_credentials}
use company_command.Gateway.Gate.{pending_approvals}
use company_command.Gateway.Verifier.{invalid}
use company_command.Server.Service.{Ceremony, enroll_verify, pending}
use company_command.Server.State.{Context, Service, answer, refuse, no_enrollment}
use company_command.Server.Service.Sharing.{pending-shared}
use company_command.Server.Service.Enrollment.{enroll_verify-once}
use company_command.Tests.Sample.{sample_platform}
use company_command.Tests.Evaluations.{pack, team_runner}

abbrev context : Context
context = record { pack = pack; runner = team_runner; calls = []; significant = [] }

abbrev waiting : PendingApproval
waiting = record {
  action_digest = "d1";
  challenge = "c";
  tier = "A2";
  required = "webauthn-uv";
  quorum = 1;
  eligible = "human:ada" ∷ [];
  created_at = 0;
  ttl_seconds = above 600;
  approvers = [];
  used = false;
}

abbrev service : Service
service = record {
  contexts = ("acme", context) ∷ ("globex", context) ∷ [];
  enroll_challenges = ("acme:human:ada", "challenge-0") ∷ [];
  registrations = 1;
  ledger = [];
  approvals = record { by_digest = ("d1", waiting) ∷ []; draws = 1 };
  credentials = no_credentials;
  now = 0;
  effects = [];
  runs = [];
}

abbrev ceremony : Ceremony
ceremony = record {
  rp_id = "localhost";
  rp_origin = "http://localhost";
  webauthn = record {
    rp_id = "localhost";
    origin = "http://localhost";
    require_uv = true;
    b64url_decode = λ s. some s;
    verify_authentication_response = λ check. invalid;
  };
  challenge = λ n. "challenge";
  registration_options = λ rp user challenge. null;
  verify_registration_response = λ credential challenge rp origin.
      some (record { credential_id = "key-1"; credential_public_key = "pk"; sign_count = 0 });
}

abbrev view : ApprovalView
view = record {
  intent_digest = "d1";
  tier = "A2";
  required = "webauthn-uv";
  quorum = 1;
  approvers = [];
  eligible = "human:ada" ∷ [];
  challenge_b64 = sample_platform.b64url "c";
  significant = none;
}

acme_listed : pending sample_platform ceremony "acme" service ≡ answer (view ∷ [])
unfolding pending pending_approvals Approvals.pending pending_in is_expired lookup
acme_listed = refl

globex_listed : pending sample_platform ceremony "globex" service ≡ answer (view ∷ [])
unfolding pending pending_approvals Approvals.pending pending_in is_expired lookup
globex_listed = refl

pending-shared_example :
    map (λ v. v.intent_digest) (view ∷ []) ≡ map (λ v. v.intent_digest) (view ∷ [])
pending-shared_example =
    pending-shared sample_platform ceremony "acme" "globex" service (view ∷ []) (view ∷ [])
      acme_listed globex_listed

acme_found : lookup "acme" service.contexts ≡ some context
unfolding lookup
acme_found = refl

enroll_verify-once_example :
    ((enroll_verify sample_platform ceremony "acme" "human:ada" end
        (enroll_verify sample_platform ceremony "acme" "human:ada" end service).1).0
      ≡ refuse no_enrollment)
    × ((enroll_verify sample_platform ceremony "acme" "human:ada" end
          (enroll_verify sample_platform ceremony "acme" "human:ada" end service).1).1.credentials
        ≡ (enroll_verify sample_platform ceremony "acme" "human:ada" end service).1.credentials)
enroll_verify-once_example =
    enroll_verify-once sample_platform ceremony "acme" "human:ada" end end service context
      acme_found

two_models :
    model_map (λ s. s) (some "planner=m1,code=m2,bad") ≡ ("planner", "m1") ∷ ("code", "m2") ∷ []
unfolding model_map read_pairs split split_once insert
two_models = refl

-- An empty variable is no token, and the ledger falls back on the database.
abbrev local_settings : Settings
local_settings = from_env (λ s. s) (("COMCMD_API_TOKEN", "") ∷ ("COMCMD_DATABASE_URL", "pg") ∷ [])

no_token : local_settings.api_token ≡ none
unfolding from_env lookup
no_token = refl

same_database : effective_ledger_url local_settings ≡ some "pg"
unfolding effective_ledger_url from_env lookup
same_database = refl

abbrev secrets : Fields
secrets = field "Token" (str "t") (field "task" (str "t1") end)

abbrev lower_case : String → String
lower_case s = if s == "Token" then "token" else s

get-scrub_example : get "Token" (scrub lower_case secrets) ≡ none
get-scrub_example = get-scrub lower_case "Token" secrets

task_kept : get "task" (scrub lower_case secrets) ≡ some (str "t1")
unfolding scrub get
task_kept = refl

step_listed :
    events_named "step" (event "step" secrets (record { events = []; spans = [] })) ≡ secrets ∷ []
unfolding event events_named
step_listed = refl

abbrev by_equality : String → String → Option Bool
by_equality a b = some (a == b)

by_equality_sound : (a b : String) → by_equality a b ≡ some true → a ≡ b
by_equality_sound a b e = (eq_iff a b).0 (ap (λ o. elim o [ none ↦ false | some x ↦ x ]) e)

abbrev unsigned : Request
unsigned = record { path = "/companies"; authorization = none; route = list_companies }

abbrev signed : Request
signed = record unsigned { authorization = some "Bearer key" }

turned_away :
    serve sample_platform ceremony (λ s. s) by_equality (some "key") unsigned service
    ≡ (error 401 "authentication required", service)
unfolding serve supplied_token
turned_away = refl

serve-IsTurnedAway_example :
    (supplied_token (λ s. s) none ≡ "key")
    ⊎ IsTurnedAway sample_platform ceremony
        (λ s. s)
        by_equality
        (serve sample_platform ceremony (λ s. s) by_equality (some "key") unsigned service)
        service
serve-IsTurnedAway_example =
    serve-IsTurnedAway sample_platform ceremony (λ s. s) by_equality "key" unsigned service
      by_equality_sound refl refl

-- ===== src/Gateway/Verifier.antt =====
-- comcmd/gateway/verifier.py and comcmd/gateway/webauthn_verifier.py: who decides on an assertion.
-- A verifier reads the approval request with its raw challenge, and may change the credentials.
pub mod Bound
use company_command.Prelude.{ℕ, String, Bool, true, false, Option, none, some}
use company_command.Json.{Json}
use company_command.Gateway.Credentials.{
  CredentialStore, EnrolledCredential, get_credential, update_sign_count,
}

pub record Decision : Type 0 where
  pub approved : Bool
  pub reason : String
  pub principal : Option String

-- The fields of an assertion that this program reads, and the rest as one text.
pub record Assertion : Type 0 where
  pub raw_id : Option String
  pub principal : Option String
  pub response : String

-- `Gateway._request_view`
pub record ApprovalRequest : Type 0 where
  pub intent_digest : String
  pub tier : String
  pub required : String
  pub quorum : ℕ
  pub significant : Json
  pub challenge : String

abbrev pub ApprovalVerifier : Type 0
ApprovalVerifier = ApprovalRequest → Option Assertion → CredentialStore → Decision × CredentialStore

abbrev pub refused : String → Decision
refused reason = record { approved = false; reason = reason; principal = none }

-- The safe default.
unfoldable pub deny_by_default : ApprovalVerifier
deny_by_default request assertion creds =
    (refused "no approval verifier configured (deny-by-default)", creds)

-- `(assertion or {}).get("principal", "human:test")`
abbrev asserted_principal : Option Assertion → String
asserted_principal none = "human:test"
asserted_principal (some a) = elim a.principal [ none ↦ "human:test" | some name ↦ name ]

-- For tests only.
unfoldable pub always_approve : ApprovalVerifier
always_approve request assertion creds = (
  record {
    approved = true;
    reason = "test verifier";
    principal = some (asserted_principal assertion);
  },
  creds,
)

-- How `webauthn.verify_authentication_response` ends: with the new sign count, by
-- `InvalidAuthenticationResponse`, or by another exception.
pub data Authentication : Type 0 where
  verified : (new_sign_count : ℕ) → Authentication
  invalid failed : Authentication

-- The arguments of `webauthn.verify_authentication_response`.
pub record AuthenticationCheck : Type 0 where
  pub credential : Assertion
  pub expected_challenge : String
  pub expected_rp_id : String
  pub expected_origin : String
  pub credential_public_key : String
  pub credential_current_sign_count : ℕ
  pub require_user_verification : Bool

-- The verifier's settings, and the two library calls that it makes. `none` is a malformed id.
pub record WebAuthn : Type 0 where
  pub rp_id : String
  pub origin : String
  pub require_uv : Bool
  pub b64url_decode : String → Option String
  pub verify_authentication_response : AuthenticationCheck → Authentication

-- `_b64url_decode(assertion["rawId"])`, where a missing key raises too.
abbrev pub raw_id_of : WebAuthn → Assertion → Option String
raw_id_of wa a = elim a.raw_id [ none ↦ none | some s ↦ wa.b64url_decode s ]

abbrev pub check_of :
    WebAuthn → ApprovalRequest → Assertion → EnrolledCredential → AuthenticationCheck
check_of wa request a cred = record {
  credential = a;
  expected_challenge = request.challenge;
  expected_rp_id = wa.rp_id;
  expected_origin = wa.origin;
  credential_public_key = cred.public_key;
  credential_current_sign_count = cred.sign_count;
  require_user_verification = wa.require_uv;
}

abbrev pub conclude :
    Authentication → String → EnrolledCredential → CredentialStore → Decision × CredentialStore
conclude (verified new_sign_count) raw_id cred creds = (
  record { approved = true; reason = "webauthn verified"; principal = some cred.principal },
  update_sign_count raw_id new_sign_count creds,
)
conclude invalid raw_id cred creds = (refused "assertion rejected", creds)
conclude failed raw_id cred creds = (refused "verification error", creds)

-- Here the request always carries a challenge, so the program's test for one passes.
unfoldable pub webauthn_verify : WebAuthn → ApprovalVerifier
webauthn_verify wa request none creds = (refused "no assertion presented", creds)
webauthn_verify wa request (some a) creds = elim (raw_id_of wa a) [
  | none ↦ (refused "malformed assertion", creds)
  | some raw_id ↦ elim (get_credential raw_id creds) [
    | none ↦ (refused "unknown credential (not enrolled)", creds)
    | some cred ↦
        conclude (wa.verify_authentication_response (check_of wa request a cred)) raw_id cred creds
  ]
]

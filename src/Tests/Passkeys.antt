-- ===== src/Tests/Passkeys.antt =====
-- The WebAuthn verifier at an enrolled passkey.
use company_command.Prelude.{◌≡◌, refl, true, some, [], ◌∷◌, lookup}
use company_command.Json.{null}
use company_command.Gateway.Credentials.{CredentialStore, get_credential}
use company_command.Gateway.Verifier.{
  ApprovalRequest, Assertion, verified, WebAuthn, webauthn_verify,
}
use company_command.Gateway.Verifier.Bound.{IsBound, webauthn_verify-IsBound}

abbrev passkeys : WebAuthn
passkeys = record {
  rp_id = "localhost";
  origin = "http://localhost";
  require_uv = true;
  b64url_decode = λ s. some s;
  verify_authentication_response = λ check. verified 8;
}

abbrev request : ApprovalRequest
request = record {
  intent_digest = "d1";
  tier = "A2";
  required = "webauthn-uv";
  quorum = 1;
  significant = null;
  challenge = "c1";
}

abbrev credentials : CredentialStore
credentials = record {
  by_id =
      (
        "key-1",
        record {
          principal = "human:ada";
          credential_id = "key-1";
          public_key = "pk";
          sign_count = 7;
        },
      )
      ∷ [];
  by_principal = ("human:ada", "key-1" ∷ []) ∷ [];
}

-- It claims another principal than the credential's.
abbrev presented : Assertion
presented = record { raw_id = some "key-1"; principal = some "human:eve"; response = "signed" }

accepted : (webauthn_verify passkeys request (some presented) credentials).0.approved ≡ true
unfolding webauthn_verify get_credential lookup
accepted = refl

webauthn_verify-IsBound_example :
    IsBound passkeys request
      (some presented)
      credentials
      (webauthn_verify passkeys request (some presented) credentials).0
      (webauthn_verify passkeys request (some presented) credentials).1
webauthn_verify-IsBound_example =
    webauthn_verify-IsBound passkeys request (some presented) credentials accepted

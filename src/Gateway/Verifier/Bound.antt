-- ===== src/Gateway/Verifier/Bound.antt =====
-- About what an approval by comcmd/gateway/webauthn_verifier.py rests on.
use company_command.Prelude.{ℕ, ◌≡◌, refl, String, true, Option, none, some, Option_ind}
use company_command.Gateway.Credentials.{
  CredentialStore, EnrolledCredential, get_credential, update_sign_count,
}
use company_command.Gateway.Verifier.{
  Assertion, ApprovalRequest, Authentication, verified, invalid, failed, AuthenticationCheck,
  WebAuthn, raw_id_of, check_of, conclude, webauthn_verify, Decision,
}

-- An assertion whose credential is enrolled, and which the library verifies for this request's challenge,
-- under the credential's own key and counter.
pub record IsBound (wa : WebAuthn) (request : ApprovalRequest) (o : Option Assertion)
    (creds : CredentialStore) (decision : Decision) (after : CredentialStore) : Type 0 where
  pub assertion : Assertion
  pub raw_id : String
  pub credential : EnrolledCredential
  pub sign_count : ℕ
  pub check : AuthenticationCheck
  pub presented : o ≡ some assertion
  pub decoded : raw_id_of wa assertion ≡ some raw_id
  pub enrolled : get_credential raw_id creds ≡ some credential
  pub passed : wa.verify_authentication_response check ≡ verified sign_count
  pub signed : check.credential ≡ assertion
  pub challenge : check.expected_challenge ≡ request.challenge
  pub party : check.expected_rp_id ≡ wa.rp_id
  pub origin : check.expected_origin ≡ wa.origin
  pub key : check.credential_public_key ≡ credential.public_key
  pub counter : check.credential_current_sign_count ≡ credential.sign_count
  pub principal : decision.principal ≡ some credential.principal
  pub counted : after ≡ update_sign_count raw_id sign_count creds

-- An approval by the WebAuthn verifier rests on a presented assertion with the raw id of an enrolled
-- credential, which the library has verified against the challenge of this very request, the verifier's
-- relying party and origin, and the credential's key and sign count; it stands for the credential's
-- principal, whatever principal the assertion claims, and the sign count that was verified is stored.
pub webauthn_verify-IsBound :
    (wa : WebAuthn) (request : ApprovalRequest) (o : Option Assertion) (creds : CredentialStore)
    → (webauthn_verify wa request o creds).0.approved ≡ true
    → IsBound wa request o creds
        (webauthn_verify wa request o creds).0
        (webauthn_verify wa request o creds).1
unfolding webauthn_verify
webauthn_verify-IsBound wa request none creds = λ approved. absurd cc
webauthn_verify-IsBound wa request (some a) creds =
    Option_ind Q (raw_id_of wa a) (λ _ approved. absurd cc)
      (λ raw decoded.
        Option_ind Q (get_credential raw creds) (λ _ approved. absurd cc)
          (λ cred enrolled. concluded raw cred decoded enrolled _ refl))
  where
    Q : Decision × CredentialStore → Type 0
    Q r = r.0.approved ≡ true → IsBound wa request (some a) creds r.0 r.1

    concluded :
        (raw : String) (cred : EnrolledCredential)
        → raw_id_of wa a ≡ some raw
        → get_credential raw creds ≡ some cred
        → (x : Authentication) → wa.verify_authentication_response (check_of wa request a cred) ≡ x
        → Q (conclude x raw cred creds)
    concluded raw cred decoded enrolled (verified n) passed = λ approved. record {
      assertion = a;
      raw_id = raw;
      credential = cred;
      sign_count = n;
      check = check_of wa request a cred;
      presented = refl;
      decoded = decoded;
      enrolled = enrolled;
      passed = passed;
      signed = refl;
      challenge = refl;
      party = refl;
      origin = refl;
      key = refl;
      counter = refl;
      principal = refl;
      counted = refl;
    }
    concluded raw cred decoded enrolled invalid passed = λ approved. absurd cc
    concluded raw cred decoded enrolled failed passed = λ approved. absurd cc

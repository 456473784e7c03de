-- ===== src/Gateway/Credentials.antt =====
-- comcmd/gateway/enrollment.py: who may approve, and with which passkey.
-- The two indexes of the store share their credential objects; here the second one holds the ids.
pub mod Postgres
use company_command.Prelude.{
  ℕ, String, Option, none, some, List, [], ◌∷◌, ◌++◌, map, Dict, lookup, insert,
}
use company_command.Json.{Fields}

pub record EnrolledCredential : Type 0 where
  pub principal : String
  pub credential_id : String
  pub public_key : String
  pub sign_count : ℕ

pub record CredentialStore : Type 0 where
  pub by_id : Dict EnrolledCredential
  pub by_principal : Dict (List String)

abbrev pub no_credentials : CredentialStore
no_credentials = record { by_id = []; by_principal = [] }

-- `d.setdefault(k, []).append(v)`
abbrev append_to : String → String → Dict (List String) → Dict (List String)
append_to k v d = insert k (elim (lookup k d) [ none ↦ v ∷ [] | some vs ↦ vs ++ v ∷ [] ]) d

unfoldable pub enroll_verified : EnrolledCredential → CredentialStore → CredentialStore
enroll_verified cred s = record {
  by_id = insert cred.credential_id cred s.by_id;
  by_principal = append_to cred.principal cred.credential_id s.by_principal;
}

-- What `webauthn.verify_registration_response` returns.
pub record VerifiedRegistration : Type 0 where
  pub credential_id : String
  pub credential_public_key : String
  pub sign_count : ℕ

-- `none` where the registration is refused, which raises and stores nothing.
unfoldable pub enroll_registration :
    (verify_registration_response : Fields → String → String → String → Option VerifiedRegistration)
    → (principal : String) (credential : Fields) (expected_challenge rp_id origin : String)
    → CredentialStore
    → Option EnrolledCredential × CredentialStore
unfolding enroll_verified
enroll_registration verify_registration_response principal credential challenge rp_id origin s =
    elim (verify_registration_response credential challenge rp_id origin) [
      | none ↦ (none, s)
      | some vr ↦
          let cred : EnrolledCredential = record {
            principal = principal;
            credential_id = vr.credential_id;
            public_key = vr.credential_public_key;
            sign_count = vr.sign_count;
          } in
          (some cred, enroll_verified cred s)
    ]

unfoldable pub get_credential : String → CredentialStore → Option EnrolledCredential
get_credential credential_id s = lookup credential_id s.by_id

pub principals : CredentialStore → List String
principals s = map (λ e. e.0) s.by_principal

unfoldable pub update_sign_count : String → ℕ → CredentialStore → CredentialStore
update_sign_count credential_id new_count s = elim (lookup credential_id s.by_id) [
  | none ↦ s
  | some cred ↦ record s {
    by_id = insert credential_id (record cred { sign_count = new_count }) s.by_id;
  }
]

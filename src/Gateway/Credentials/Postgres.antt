-- ===== src/Gateway/Credentials/Postgres.antt =====
-- comcmd/gateway/stores_pg.py, `PgCredentialStore`: the credentials in a table with one row for each id.
use company_command.Prelude.{
  ℕ, String, ◌≡◌, refl, ap, ◌∙◌, Option, none, some, List, [], ◌∷◌, add, arith, Dict, lookup,
  insert, Option-cases, inl, inr,
}
use company_command.Json.{Fields}
use company_command.Gateway.Credentials.{
  EnrolledCredential, CredentialStore, VerifiedRegistration, enroll_verified, get_credential,
  update_sign_count,
}

-- The rows by `credential_id`.
abbrev pub CredentialTable : Type 0
CredentialTable = Dict EnrolledCredential

-- `INSERT ... ON CONFLICT (credential_id) DO UPDATE SET` of every other column
unfoldable pub enroll_row : EnrolledCredential → CredentialTable → CredentialTable
enroll_row cred table = insert cred.credential_id cred table

-- `PgCredentialStore.enroll_registration`
unfoldable pub register_row :
    (verify_registration_response : Fields → String → String → String → Option VerifiedRegistration)
    → (principal : String) (credential : Fields) (expected_challenge rp_id origin : String)
    → CredentialTable
    → Option EnrolledCredential × CredentialTable
unfolding enroll_row
register_row verify_registration_response principal credential challenge rp_id origin table =
    elim (verify_registration_response credential challenge rp_id origin) [
      | none ↦ (none, table)
      | some vr ↦
          let cred : EnrolledCredential = record {
            principal = principal;
            credential_id = vr.credential_id;
            public_key = vr.credential_public_key;
            sign_count = vr.sign_count;
          } in
          (some cred, enroll_row cred table)
    ]

-- `SELECT ... WHERE credential_id=%s`
unfoldable pub get_row : String → CredentialTable → Option EnrolledCredential
get_row credential_id table = lookup credential_id table

-- `SELECT DISTINCT principal`
unfoldable pub row_principals : CredentialTable → List String
row_principals [] = []
row_principals ((k, cred) ∷ table) = add cred.principal (row_principals table)

-- `UPDATE ... SET sign_count=%s WHERE credential_id=%s`
unfoldable pub update_row_count : String → ℕ → CredentialTable → CredentialTable
update_row_count credential_id new_count table = elim (lookup credential_id table) [
  | none ↦ table
  | some cred ↦ insert credential_id (record cred { sign_count = new_count }) table
]

-- A write to a store of credentials.
pub data Write : Type 0 where
  enrolls : EnrolledCredential → Write
  counts : (credential_id : String) (new_count : ℕ) → Write

unfoldable pub write_rows : List Write → CredentialTable → CredentialTable
write_rows [] table = table
write_rows (enrolls cred ∷ ws) table = write_rows ws (enroll_row cred table)
write_rows (counts id n ∷ ws) table = write_rows ws (update_row_count id n table)

unfoldable pub write_all : List Write → CredentialStore → CredentialStore
write_all [] s = s
write_all (enrolls cred ∷ ws) s = write_all ws (enroll_verified cred s)
write_all (counts id n ∷ ws) s = write_all ws (update_sign_count id n s)

write_rows-by_id :
    (ws : List Write) (s : CredentialStore) → write_rows ws s.by_id ≡ (write_all ws s).by_id
unfolding write_rows write_all enroll_row enroll_verified update_row_count update_sign_count
write_rows-by_id [] s = refl
write_rows-by_id (enrolls cred ∷ ws) s = write_rows-by_id ws (enroll_verified cred s)
write_rows-by_id (counts id n ∷ ws) s =
    ap (write_rows ws) updated ∙ write_rows-by_id ws (update_sign_count id n s)
  where
    updated : update_row_count id n s.by_id ≡ (update_sign_count id n s).by_id
    updated = elim (Option-cases (lookup id s.by_id)) [
      | inl absent ↦ ground arith
      | inr (cred, found) ↦ ground arith
    ]

-- After the same writes, in any order, the table and the in-memory store answer every look-up of a
-- credential alike, when they started with the same credentials.
pub write_rows-refines :
    (ws : List Write) (s : CredentialStore) (credential_id : String)
    → get_row credential_id (write_rows ws s.by_id) ≡ get_credential credential_id (write_all ws s)
unfolding get_row get_credential
write_rows-refines ws s credential_id = ap (lookup credential_id) (write_rows-by_id ws s)

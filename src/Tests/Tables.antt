-- ===== src/Tests/Tables.antt =====
-- The theorems on the table of approvals, at an approval that has been used and is opened again.
use company_command.Ids.{above}
use company_command.Prelude.{
  List, ◌++◌, keep, keep-append, length-append, arith, ℕ, ◌≡◌, refl, true, false, some, [], ◌∷◌,
  lookup,
}
use company_command.Gateway.Approvals.{
  PendingApproval, ApprovalStore, Opening, is_expired, is_live, open_approval, add_approver,
  pending,
}
use company_command.Gateway.Approvals.Postgres.{
  IsReordering, HasPolicy, open_row, open_row-refines, open_row-keeps_policy, add_row_approver,
  add_row_approver-refines, pending_rows, pending_rows-refines,
}
use company_command.Gateway.Credentials.{EnrolledCredential, no_credentials, get_credential}
use company_command.Gateway.Credentials.Postgres.{
  get_row, enrolls, counts, write_rows, write_all, write_rows-refines,
}
use company_command.Tests.Sample.{sample_platform}

abbrev spent : PendingApproval
spent = record {
  action_digest = "d";
  challenge = "c";
  tier = "A2";
  required = "passkey";
  quorum = 1;
  eligible = "human:ada" ∷ [];
  created_at = 0;
  ttl_seconds = above 600;
  approvers = "human:ada" ∷ [];
  used = true;
}

abbrev table : ApprovalStore
table = record { by_digest = ("d", spent) ∷ []; draws = 1 }

abbrev opening_with : ℕ → Opening
opening_with quorum = record {
  action_digest = "d";
  tier = "A2";
  required = "passkey";
  quorum = quorum;
  eligible = "human:ada" ∷ [];
  ttl_seconds = above 600;
}

is_there : lookup "d" table.by_digest ≡ some spent
unfolding lookup
is_there = refl

spent-HasPolicy :
    (pa : PendingApproval) → lookup "d" table.by_digest ≡ some pa → HasPolicy (opening_with 1) pa
unfolding lookup
spent-HasPolicy pa e = record {
  action_digest = cc;
  tier = cc;
  required = cc;
  quorum = cc;
  eligible = cc;
}

open_row-refines_example :
    open_row sample_platform (opening_with 1) 30 table
    ≡ open_approval sample_platform (opening_with 1) 30 table
open_row-refines_example =
    open_row-refines sample_platform (opening_with 1) 30 table spent-HasPolicy

not_live : is_live spent 30 ≡ false
unfolding is_expired
not_live = refl

open_row-keeps_policy_example :
    ((open_row sample_platform (opening_with 2) 30 table).0.quorum ≡ 1)
    × ((open_row sample_platform (opening_with 2) 30 table).0.eligible ≡ "human:ada" ∷ [])
    × ((open_approval sample_platform (opening_with 2) 30 table).0.quorum ≡ 2)
    × ((open_approval sample_platform (opening_with 2) 30 table).0.eligible ≡ "human:ada" ∷ [])
open_row-keeps_policy_example =
    open_row-keeps_policy sample_platform (opening_with 2) 30 table spent is_there not_live

approver_added : add_row_approver "d" "human:ben" table ≡ add_approver "d" "human:ben" table
approver_added = add_row_approver-refines "d" "human:ben" table

-- The server sends the last row first.
abbrev backwards : List PendingApproval → List PendingApproval
backwards [] = []
backwards (pa ∷ rows) = backwards rows ++ pa ∷ []

backwards_reorders : (xs : List PendingApproval) → IsReordering (backwards xs) xs
backwards_reorders [] q = refl
backwards_reorders (pa ∷ xs) q = ground (
  arith,
  keep-append q (backwards xs) (pa ∷ []),
  length-append (keep q (backwards xs)) (keep q (pa ∷ [])),
  backwards_reorders xs q,
)

pending_rows-refines_example : IsReordering (pending_rows backwards 30 table) (pending 30 table)
pending_rows-refines_example = pending_rows-refines backwards 30 table backwards_reorders

abbrev key : EnrolledCredential
key = record { principal = "human:ada"; credential_id = "k"; public_key = "pk"; sign_count = 0 }

write_rows-refines_example :
    get_row "k" (write_rows (enrolls key ∷ counts "k" 5 ∷ []) [])
    ≡ get_credential "k" (write_all (enrolls key ∷ counts "k" 5 ∷ []) no_credentials)
write_rows-refines_example = write_rows-refines (enrolls key ∷ counts "k" 5 ∷ []) no_credentials "k"

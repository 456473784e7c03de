-- ===== src/Gateway/State.antt =====
-- The mutable objects that the runner, the gateway and the executor of one company share: the ledger,
-- the gateway's stores and counters, the clock, and, as a record for the proofs, the digests of the
-- intents whose handler has completed, newest first.
use company_command.Prelude.{ℕ, String, List, [], Dict}
use company_command.Json.{Json}
use company_command.Kernel.Ledger.{Ledger}
use company_command.Gateway.Approvals.{ApprovalStore}
use company_command.Gateway.Credentials.{CredentialStore, no_credentials}

pub record World : Type 0 where
  pub ledger : Ledger
  pub approvals : ApprovalStore
  pub calls : Dict ℕ
  pub significant : Dict Json
  pub credentials : CredentialStore
  pub now : ℕ
  pub effects : List String

abbrev pub new_world : World
new_world = record {
  ledger = [];
  approvals = record { by_digest = []; draws = 0 };
  calls = [];
  significant = [];
  credentials = no_credentials;
  now = 0;
  effects = [];
}

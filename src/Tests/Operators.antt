-- ===== src/Tests/Operators.antt =====
-- The operator's inbox, behind an approval that was granted and is asked for again.
use company_command.Prelude.{◌≡◌, refl, String, true, none, some, List, [], ◌∷◌, lookup, insert}
use company_command.Json.{str, field, end, put}
use company_command.Kernel.Records.{ApprovalView, Payload, approval_requested, receipt}
use company_command.Kernel.Ledger.{SealedEvent}
use company_command.Cli.{scan_payload, scan, inbox, run_inputs, serve_refused}
use company_command.Cli.Inbox.{lookup-inbox}

abbrev sealed : Payload → SealedEvent
sealed payload = record {
  seq = 1;
  company = "acme";
  seal = "s";
  prev_seal = "";
  event = record { company = "acme"; task_id = "t1"; payload = payload };
}

abbrev request : String → ApprovalView
request digest = record {
  intent_digest = digest;
  tier = "A2";
  required = "webauthn-uv";
  quorum = 1;
  approvers = [];
  eligible = "human:ada" ∷ [];
  challenge_b64 = "c";
  significant = none;
}

abbrev grant : String → Payload
grant digest = receipt (record {
  intent_digest = digest;
  decision = "authorized";
  tier = "A2";
  capability_id = some "cap";
  reason = "approved by";
})

abbrev again : List SealedEvent
again =
    sealed (approval_requested (request "d1"))
    ∷ sealed (grant "d1")
    ∷ sealed (approval_requested (request "d2"))
    ∷ sealed (approval_requested (request "d1"))
    ∷ []

lookup-inbox_example : lookup "d1" (inbox again) ≡ none
lookup-inbox_example = lookup-inbox "d1" again refl

other_listed : inbox again ≡ ("d2", request "d2") ∷ []
unfolding inbox scan scan_payload insert
other_listed = refl

goal_only : run_inputs (some "fix") (some "") ≡ field "goal" (str "fix") end
unfolding run_inputs put
goal_only = refl

open_host_refused : serve_refused (some "") "0.0.0.0" ≡ true
unfolding serve_refused
open_host_refused = refl

-- ===== src/Cli.antt =====
-- comcmd/cli.py: the operator's inbox, the inputs of a run and the guard of the server. The parser of the
-- arguments and everything that is printed are left out.
pub mod Inbox
use company_command.Prelude.{
  String, Bool, not, ◌&&◌, Option, none, some, List, [], ◌∷◌, ◌==◌, keep, contains, add, Dict,
  insert, if◌then◌else◌,
}
use company_command.Json.{Fields, end, put, str}
use company_command.Kernel.Records.{
  ApprovalView, ExecutionReceipt, Payload, approval_requested, receipt,
}
use company_command.Kernel.Ledger.{SealedEvent}

-- What the loop of `cmd_approvals` gathers.
pub record Scan : Type 0 where
  pub requested : Dict ApprovalView
  pub authorized : List String

unfoldable pub scan_payload : Payload → Scan → Scan
scan_payload (approval_requested view) s =
    let d = view.intent_digest in
    if d == "" then s else record s { requested = insert d view s.requested }
scan_payload (receipt r) s =
    let d = r.intent_digest in
    if r.decision == "authorized" && not (d == "")
    then record s { authorized = add d s.authorized }
    else s
scan_payload _ s = s

unfoldable pub scan : List SealedEvent → Scan → Scan
scan [] s = s
scan (se ∷ rest) s = scan rest (scan_payload se.event.payload s)

-- The list `pending` of `cmd_approvals`.
unfoldable pub inbox : List SealedEvent → Dict ApprovalView
unfolding scan
inbox events =
    let s = scan events (record { requested = []; authorized = [] }) in
    keep (λ r. not (contains r.0 s.authorized)) s.requested

-- The inputs that `cmd_run` starts a workflow with.
unfoldable pub run_inputs : (goal acceptance : Option String) → Fields
run_inputs goal acceptance = with_text "acceptance" acceptance (with_text "goal" goal end)
  where
    with_text : String → Option String → Fields → Fields
    with_text k none inputs = inputs
    with_text k (some v) inputs = if v == "" then inputs else put k (str v) inputs

-- Whether `cmd_serve` gives up: no token, and a host that others reach.
unfoldable pub serve_refused : (api_token : Option String) → (host : String) → Bool
serve_refused api_token host =
    not (elim api_token [ none ↦ Bool.false | some token ↦ not (token == "") ])
    && not (contains host ("127.0.0.1" ∷ "localhost" ∷ "::1" ∷ []))

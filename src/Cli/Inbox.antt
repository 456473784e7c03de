-- ===== src/Cli/Inbox.antt =====
-- About the operator's inbox.
use company_command.Prelude.{
  ◌≡◌, refl, String, Bool, false, not, ◌&&◌, ◌||◌, Option, none, some, List, [], ◌∷◌, ◌==◌, any,
  keep, contains, contains-append, add, Dict, lookup, lookup-insert, eq_iff, arith, if◌then◌else◌,
  ◌∙◌, ap,
}
use company_command.Kernel.Records.{
  ApprovalView, Payload, task_created, task_state_changed, step_started, step_succeeded,
  artifact_written, approval_requested, approval_resolved, receipt, performed,
}
use company_command.Kernel.Ledger.{SealedEvent}
use company_command.Cli.{Scan, scan_payload, scan, inbox}

-- Whether a payload is a receipt that authorizes the digest.
abbrev pub authorizes : String → Payload → Bool
authorizes k (receipt r) = r.decision == "authorized" && r.intent_digest == k
authorizes k _ = false

-- The request for the digest, if a payload is one; else what there was.
abbrev pub request_or : String → Payload → Option ApprovalView → Option ApprovalView
request_or k (approval_requested v) before = if v.intent_digest == k then some v else before
request_or k _ before = before

abbrev pub latest_request : String → List SealedEvent → Option ApprovalView → Option ApprovalView
latest_request k [] before = before
latest_request k (se ∷ rest) before = latest_request k rest (request_or k se.event.payload before)

lookup-keep_absent :
    {V : Type 0} (k : String) (xs : List String) (d : Dict V)
    → lookup k (keep (λ r. not (contains r.0 xs)) d) ≡ (if contains k xs then none else lookup k d)
unfolding lookup
lookup-keep_absent k xs [] = ground arith
lookup-keep_absent k xs ((j, v) ∷ d) = ground (arith, lookup-keep_absent k xs d, eq_iff j k)

contains-add : (k a : String) (xs : List String) → contains k (add a xs) ≡ (contains k xs || a == k)
contains-add k a xs = ground (arith, contains-append k xs (a ∷ []), eq_iff a k)

requested-scan_payload :
    (k : String) (p : Payload) (s : Scan)
    → (k == "") ≡ false
    → lookup k (scan_payload p s).requested ≡ request_or k p (lookup k s.requested)
unfolding scan_payload
requested-scan_payload k (approval_requested v) s named = ground (
  arith,
  lookup-insert v.intent_digest k v s.requested,
  eq_iff v.intent_digest k,
  eq_iff v.intent_digest "",
  eq_iff k "",
)
requested-scan_payload k (receipt r) s named = ground arith
requested-scan_payload k (task_created _ _) s named = refl
requested-scan_payload k (task_state_changed _ _) s named = refl
requested-scan_payload k (step_started _) s named = refl
requested-scan_payload k (step_succeeded _ _) s named = refl
requested-scan_payload k (artifact_written _ _ _) s named = refl
requested-scan_payload k (approval_resolved _ _ _) s named = refl
requested-scan_payload k (performed _ _ _) s named = refl

authorized-scan_payload :
    (k : String) (p : Payload) (s : Scan)
    → (k == "") ≡ false
    → contains k (scan_payload p s).authorized ≡ (contains k s.authorized || authorizes k p)
unfolding scan_payload
authorized-scan_payload k (approval_requested v) s named = ground arith
authorized-scan_payload k (receipt r) s named = ground (
  arith,
  contains-add k r.intent_digest s.authorized,
  eq_iff r.intent_digest k,
  eq_iff r.intent_digest "",
  eq_iff k "",
)
authorized-scan_payload k (task_created _ _) s named = ground arith
authorized-scan_payload k (task_state_changed _ _) s named = ground arith
authorized-scan_payload k (step_started _) s named = ground arith
authorized-scan_payload k (step_succeeded _ _) s named = ground arith
authorized-scan_payload k (artifact_written _ _ _) s named = ground arith
authorized-scan_payload k (approval_resolved _ _ _) s named = ground arith
authorized-scan_payload k (performed _ _ _) s named = ground arith

requested-scan :
    (k : String) (es : List SealedEvent) (s : Scan)
    → (k == "") ≡ false
    → lookup k (scan es s).requested ≡ latest_request k es (lookup k s.requested)
unfolding scan
requested-scan k [] s named = refl
requested-scan k (se ∷ es) s named =
    requested-scan k es (scan_payload se.event.payload s) named
    ∙ ap (latest_request k es) (requested-scan_payload k se.event.payload s named)

authorized-scan :
    (k : String) (es : List SealedEvent) (s : Scan)
    → (k == "") ≡ false
    → contains k (scan es s).authorized
      ≡ (contains k s.authorized || any (λ se. authorizes k se.event.payload) es)
unfolding scan
authorized-scan k [] s named = ground arith
authorized-scan k (se ∷ es) s named = ground (
  arith,
  authorized-scan k es (scan_payload se.event.payload s) named,
  authorized-scan_payload k se.event.payload s named,
)

-- The inbox has the latest request of every digest that no receipt authorizes, and nothing else. The order
-- of receipts and requests makes no difference: a digest that was authorized once is not listed when it is
-- requested again.
pub lookup-inbox :
    (k : String) (events : List SealedEvent)
    → (k == "") ≡ false
    → lookup k (inbox events) ≡ (
        if any (λ se. authorizes k se.event.payload) events
        then none
        else latest_request k events none)
unfolding inbox lookup
lookup-inbox k events named =
    let start : Scan = record { requested = []; authorized = [] } in
    lookup-keep_absent k (scan events start).authorized (scan events start).requested
    ∙ rw (authorized-scan k events start named, requested-scan k events start named) refl

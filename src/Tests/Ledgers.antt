-- ===== src/Tests/Ledgers.antt =====
-- The ledger's and the executor's theorems at ledgers of a few receipts.
use company_command.Prelude.{
  Bool, Option, String, ◌≡◌, refl, true, false, none, some, List, [], ◌∷◌, ◌++◌, lookup, Dict,
}
use company_command.Json.{field, end, num}
use company_command.Ids.{digest}
use company_command.Kernel.Records.{Event, receipt}
use company_command.Kernel.Ledger.{
  Ledger, rows_of, append, appended, head_seal, read, verify_from, verify_chain, sealed_row,
}
use company_command.Kernel.Ledger.Integrity.{append-verify_chain, read-append}
use company_command.Kernel.Ledger.Tamper.{bodies, head_seal-fixes-history, verify_chain-truncated}
use company_command.Kernel.Executor.{
  Request, execute_all, executed_outcome, duplicate_of, ToolHandler, ExecutionOutcome, execute,
  execute_bound, execute_new, perform, find_execution,
}
use company_command.Kernel.Executor.Once.{IsOnce, losses, occurrences, execute_all-IsOnce}
use company_command.Kernel.Executor.Again.{execute-again}
use company_command.Gateway.Intents.{action_digest}
use company_command.Gateway.Receipts.{Capability, mint}
use company_command.Gateway.Policy.{a2}
use company_command.Gateway.State.{World, new_world}
use company_command.Tests.Authorization.{wire, intent_of}
use company_command.Tests.Encoding.{json_code, texts_of}
use company_command.Ids.{content_id}
use company_command.Tests.Sorting.{sorted}
use company_command.Tests.Sample.{
  sample_platform, sample_platform-CollisionFree, sample_platform-DigestPins,
  sample_platform-LoadsBack,
}

abbrev pub receipt_of : String → String → Event
receipt_of company digest = record {
  company = company;
  task_id = "t";
  payload = receipt (record {
    intent_digest = digest;
    decision = "executed";
    tier = "";
    capability_id = none;
    reason = "executed";
  });
}

abbrev two_companies : Ledger
two_companies = append sample_platform (receipt_of "acme" "d2") (
    append sample_platform (receipt_of "globex" "d1")
      (append sample_platform (receipt_of "acme" "d1") []))

start_valid : verify_chain sample_platform "acme" [] ≡ true
unfolding verify_chain verify_from
start_valid = refl

two_companies_valid : verify_chain sample_platform "acme" two_companies ≡ true
two_companies_valid = append-verify_chain sample_platform "acme" (receipt_of "acme" "d2") _ (
    append-verify_chain sample_platform "acme" (receipt_of "globex" "d1") _
      (append-verify_chain sample_platform "acme" (receipt_of "acme" "d1") [] start_valid))

append-verify_chain_example :
    verify_chain sample_platform "acme"
      (append sample_platform (receipt_of "acme" "d3") two_companies)
    ≡ true
append-verify_chain_example =
    append-verify_chain sample_platform "acme" (receipt_of "acme" "d3") two_companies
      two_companies_valid

nothing_read : read sample_platform "acme" [] ≡ some []
unfolding read
nothing_read = refl

read-append_example :
    read sample_platform "acme" (append sample_platform (receipt_of "acme" "d1") [])
    ≡ some (appended sample_platform (receipt_of "acme" "d1") [] ∷ [])
read-append_example =
    read-append sample_platform "acme" (receipt_of "acme" "d1") [] []
      (sample_platform-LoadsBack "acme" "t" (record {
        intent_digest = "d1";
        decision = "executed";
        tier = "";
        capability_id = none;
        reason = "executed";
      }))
      nothing_read

-- The same events of one company, with and without those of the other between them.
abbrev one_company : Ledger
one_company =
    append sample_platform (receipt_of "acme" "d2")
      (append sample_platform (receipt_of "acme" "d1") [])

one_company_valid : verify_chain sample_platform "acme" one_company ≡ true
one_company_valid =
    append-verify_chain sample_platform "acme" (receipt_of "acme" "d2") _
      (append-verify_chain sample_platform "acme" (receipt_of "acme" "d1") [] start_valid)

same_heads : head_seal "acme" two_companies ≡ head_seal "acme" one_company
unfolding append sealed_row head_seal
same_heads = refl

head_seal-fixes-history_example :
    bodies (rows_of "acme" two_companies) ≡ bodies (rows_of "acme" one_company)
head_seal-fixes-history_example =
    head_seal-fixes-history sample_platform sample_platform-CollisionFree "acme" two_companies
      one_company two_companies_valid one_company_valid same_heads

split_valid :
    verify_chain sample_platform "acme" (
      append sample_platform (receipt_of "acme" "d1") []
      ++ sealed_row sample_platform
          (receipt_of "acme" "d2")
          (append sample_platform (receipt_of "acme" "d1") [])
        ∷ [])
    ≡ true
unfolding append
split_valid = one_company_valid

verify_chain-truncated_example :
    verify_chain sample_platform "acme" (append sample_platform (receipt_of "acme" "d1") []) ≡ true
verify_chain-truncated_example =
    verify_chain-truncated sample_platform "acme"
      (append sample_platform (receipt_of "acme" "d1") [])
      (sealed_row sample_platform (receipt_of "acme" "d2")
          (append sample_platform (receipt_of "acme" "d1") [])
        ∷ [])
      split_valid

-- An executor whose bank moves the money.
abbrev bank : ToolHandler
bank i = some (field "moved" (num 7) end)

abbrev handlers : Dict ToolHandler
handlers = ("bank", bank) ∷ []

abbrev transfer : Capability
transfer = mint sample_platform wire (intent_of "wire" 7) a2

abbrev asks : Bool → Request
asks stored = record { stored = stored; capability = transfer; intent = intent_of "wire" 7 }

-- The first receipt is lost, so the effect happens again.
abbrev requests : List Request
requests = asks false ∷ asks true ∷ asks true ∷ []

execute_all-IsOnce_example :
    IsOnce sample_platform
      (intent_of "wire" 7)
      (losses sample_platform (action_digest sample_platform (intent_of "wire" 7)) requests)
      (execute_all sample_platform handlers requests new_world)
execute_all-IsOnce_example =
    execute_all-IsOnce sample_platform sample_platform-DigestPins sample_platform-LoadsBack
      (intent_of "wire" 7) handlers requests

moved_twice :
    occurrences
      (action_digest sample_platform (intent_of "wire" 7))
      (execute_all sample_platform handlers requests new_world).effects
    ≡ 2
unfolding execute_all execute execute_bound execute_new perform find_execution lookup action_digest
    digest json_code sorted append texts_of content_id
moved_twice = refl

abbrev moved : Option ExecutionOutcome × World
moved = execute sample_platform true handlers transfer (intent_of "wire" 7) new_world

abbrev outcome : ExecutionOutcome
outcome = executed_outcome sample_platform transfer (intent_of "wire" 7) (field "moved" (num 7) end)

has_moved : moved ≡ (some outcome, moved.1)
unfolding execute execute_bound execute_new perform find_execution lookup action_digest digest
    json_code sorted
has_moved = refl

execute-again_example :
    execute sample_platform true handlers transfer
      (intent_of "wire" 7)
      (execute_all sample_platform handlers requests moved.1)
    ≡ (some (duplicate_of outcome.receipt), execute_all sample_platform handlers requests moved.1)
execute-again_example =
    execute-again sample_platform sample_platform-LoadsBack handlers true true transfer transfer
      (intent_of "wire" 7) new_world moved.1 outcome requests has_moved refl refl refl

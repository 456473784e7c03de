-- ===== src/Kernel/Executor.antt =====
-- comcmd/kernel/executor.py: the only place where an authorized effect happens.
-- A handler returns its result, or `none` where it raises; `none` as an outcome is that exception, the one
-- of a ledger row that does not validate, or the one of a receipt that the ledger does not store: whether
-- SQLite or PostgreSQL commits the receipt of a call is the argument `stored`. Each completed call of a
-- handler is noted in `effects`, which the program does not read.
pub mod Recorded
pub mod Once
pub mod Again
use company_command.Prelude.{
  String, Bool, true, false, not, ◌&&◌, Option, none, some, List, [], ◌∷◌, ◌==◌, Dict, lookup,
  insert, if◌then◌else◌,
}
use company_command.Json.{Json, Fields, null, str, field, end}
use company_command.Ids.{Platform}
use company_command.Kernel.Records.{Event, Payload, receipt, ExecutionReceipt}
use company_command.Kernel.Ledger.{Row, Ledger, rows_of, append}
use company_command.Gateway.Intents.{ActionIntent, action_digest}
use company_command.Gateway.Receipts.{Capability}
use company_command.Gateway.State.{World}

abbrev pub ToolHandler : Type 0
ToolHandler = ActionIntent → Option Fields

pub record ExecutionOutcome : Type 0 where
  pub executed : Bool
  pub duplicate : Bool
  pub receipt : ExecutionReceipt
  pub result : Fields

-- `Executor.register`
pub register : String → ToolHandler → Dict ToolHandler → Dict ToolHandler
register tool handler handlers = insert tool handler handlers

abbrev nullable : Option String → Json
nullable none = null
nullable (some s) = str s

-- `receipt.model_dump(mode="json")`
abbrev receipt_fields : ExecutionReceipt → Fields
receipt_fields r = field "intent_digest" (str r.intent_digest) (
    field "decision" (str r.decision) (
      field "tier" (str r.tier)
        (field "capability_id" (nullable r.capability_id) (field "reason" (str r.reason) end))))

-- An `execution_receipt` event whose payload says that this very action was executed.
abbrev pub executed_receipt : String → Payload → Option ExecutionReceipt
executed_receipt digest (receipt r) =
    if r.decision == "executed" && r.intent_digest == digest then some r else none
executed_receipt digest _ = none

abbrev pub duplicate_of : ExecutionReceipt → ExecutionOutcome
duplicate_of prior = record {
  executed = false;
  duplicate = true;
  receipt = prior;
  result = receipt_fields prior;
}

module _ (p : Platform) where
  -- The loop of `_prior_execution` over the rows of the company.
  unfoldable pub find_execution : String → List Row → Option (Option ExecutionReceipt)
  find_execution digest [] = some none
  find_execution digest (r ∷ rs) =
      let rest = find_execution digest rs in
      elim (p.load_event r.body) [
        | none ↦ none
        | some event ↦ elim (executed_receipt digest event.payload) [
          | none ↦ rest
          | some prior ↦ some (some prior)
        ]
      ]

  abbrev pub prior_execution : ActionIntent → Ledger → Option (Option ExecutionReceipt)
  prior_execution intent rows =
      find_execution (action_digest p intent) (rows_of intent.company rows)

  -- `_emit`
  abbrev pub emit_receipt : ActionIntent → ExecutionReceipt → Ledger → Ledger
  emit_receipt intent r =
      append p (record { company = intent.company; task_id = intent.task_id; payload = receipt r })

  abbrev pub refused_receipt : ActionIntent → String → ExecutionReceipt
  refused_receipt intent reason = record {
    intent_digest = action_digest p intent;
    decision = "refused";
    tier = "";
    capability_id = none;
    reason = reason;
  }

  abbrev pub executed_by : Capability → ActionIntent → ExecutionReceipt
  executed_by capability intent = record {
    intent_digest = action_digest p intent;
    decision = "executed";
    tier = "";
    capability_id = some capability.capability_id;
    reason = "executed";
  }

  -- `_emit` of a receipt, and what is returned behind it; an exception when it is not stored.
  abbrev pub emitted :
      (stored : Bool) → ActionIntent → ExecutionOutcome → World → Option ExecutionOutcome × World
  emitted false intent outcome w = (none, w)
  emitted true intent outcome w =
      (some outcome, record w { ledger = emit_receipt intent outcome.receipt w.ledger })

  -- `_refuse`
  abbrev pub refuse :
      (stored : Bool) → ActionIntent → String → World → Option ExecutionOutcome × World
  refuse stored intent reason w =
      emitted stored intent
        (record {
          executed = false;
          duplicate = false;
          receipt = refused_receipt intent reason;
          result = end;
        })
        w

  -- A completed call of the handler. It has had its effect, whatever follows.
  abbrev pub noted : ActionIntent → World → World
  noted intent w = record w { effects = action_digest p intent ∷ w.effects }

  abbrev pub executed_outcome : Capability → ActionIntent → Fields → ExecutionOutcome
  executed_outcome capability intent result = record {
    executed = true;
    duplicate = false;
    receipt = executed_by capability intent;
    result = result;
  }

  -- A registered handler is called, and its receipt is written behind it.
  unfoldable pub perform :
      (stored : Bool)
      → ToolHandler
      → Capability
      → ActionIntent
      → World
      → Option ExecutionOutcome × World
  perform stored handler capability intent w = elim (handler intent) [
    | none ↦ (none, w)
    | some result ↦
        emitted stored intent (executed_outcome capability intent result) (noted intent w)
  ]

  -- What follows when no prior execution was found.
  unfoldable pub execute_new :
      (stored : Bool)
      → Dict ToolHandler
      → Capability
      → ActionIntent
      → World
      → Option ExecutionOutcome × World
  execute_new stored handlers capability intent w = elim (lookup intent.tool handlers) [
    | none ↦ refuse stored intent "no handler registered" w
    | some handler ↦ perform stored handler capability intent w
  ]

  -- Behind the binding of the capability to the intent.
  unfoldable pub execute_bound :
      (stored : Bool)
      → Dict ToolHandler
      → Capability
      → ActionIntent
      → World
      → Option ExecutionOutcome × World
  execute_bound stored handlers capability intent w = elim (prior_execution intent w.ledger) [
    | none ↦ (none, w)
    | some none ↦ execute_new stored handlers capability intent w
    | some (some prior) ↦ (some (duplicate_of prior), w)
  ]

  unfoldable pub execute :
      (stored : Bool)
      → Dict ToolHandler
      → Capability
      → ActionIntent
      → World
      → Option ExecutionOutcome × World
  execute stored handlers capability intent w =
      if not (capability.intent_digest == action_digest p intent)
      then refuse stored intent "capability does not match action digest" w
      else if not (capability.tool == intent.tool)
      then refuse stored intent "capability tool mismatch" w
      else execute_bound stored handlers capability intent w

-- One request to an executor, with whether its receipt is stored.
pub record Request : Type 0 where
  pub stored : Bool
  pub capability : Capability
  pub intent : ActionIntent

-- Requests to one executor, in any order.
unfoldable pub execute_all : Platform → Dict ToolHandler → List Request → World → World
execute_all p hs [] w = w
execute_all p hs (q ∷ qs) w = execute_all p hs qs (execute p q.stored hs q.capability q.intent w).1

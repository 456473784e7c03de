-- ===== src/Kernel/Executor/Recorded.antt =====
-- About the receipts of performed effects in the ledger, as comcmd/kernel/executor.py looks them up.
use company_command.Prelude.{
  String, ◌≡◌, none, some, List, [], ◌∷◌, ◌++◌, arith, ◌==◌, eq_refl, if_ind, Option-cases, inl,
  inr,
}
use company_command.Ids.{Platform}
use company_command.Kernel.Records.{Event, receipt, ExecutionReceipt}
use company_command.Kernel.Ledger.{Row, Ledger, rows_of, append, sealed_row}
use company_command.Kernel.Ledger.Integrity.{rows_of-append}
use company_command.Gateway.Intents.{ActionIntent, action_digest}
use company_command.Gateway.Receipts.{Capability}
use company_command.Kernel.Executor.{
  emit_receipt, executed_by, executed_receipt, find_execution, prior_execution,
}

-- What JSON text and pydantic promise: a receipt that is written can be read back.
abbrev pub LoadsBack : Platform → Type 0
LoadsBack p =
    (company task_id : String) (r : ExecutionReceipt)
    → p.load_event
        (p.dump_event (record { company = company; task_id = task_id; payload = receipt r }))
      ≡ some (record { company = company; task_id = task_id; payload = receipt r })

module _ (p : Platform) where
  -- Once found, an execution stays found behind whatever is appended.
  find_execution-append :
      (k : String) (rs more : List Row) (r : ExecutionReceipt)
      → find_execution p k rs ≡ some (some r)
      → find_execution p k (rs ++ more) ≡ some (some r)
  unfolding find_execution
  find_execution-append k [] more r e = cc
  find_execution-append k (x ∷ rs) more r e = elim (Option-cases (p.load_event x.body)) [
    | inl bad ↦ ground arith
    | inr (event, loads) ↦ elim (Option-cases (executed_receipt k event.payload)) [
      | inl other ↦ ground (arith, find_execution-append k rs more r)
      | inr (prior, hit) ↦ ground arith
    ]
  ]

  -- A row that records the execution is found behind rows that do not.
  pub find_execution-snoc :
      (k : String) (rs : List Row) (x : Row) (event : Event) (r : ExecutionReceipt)
      → find_execution p k rs ≡ some none
      → p.load_event x.body ≡ some event
      → executed_receipt k event.payload ≡ some r
      → find_execution p k (rs ++ x ∷ []) ≡ some (some r)
  unfolding find_execution
  find_execution-snoc k [] x event r e loads hit = ground arith
  find_execution-snoc k (y ∷ rs) x event r e loads hit = elim (Option-cases (p.load_event y.body)) [
    | inl bad ↦ ground arith
    | inr (event', loads') ↦ elim (Option-cases (executed_receipt k event'.payload)) [
      | inl other ↦ ground (arith, find_execution-snoc k rs x event r)
      | inr (prior, hit') ↦ ground arith
    ]
  ]

  pub prior_execution-append :
      (i : ActionIntent) (event : Event) (rows : Ledger) (r : ExecutionReceipt)
      → prior_execution p i rows ≡ some (some r)
      → prior_execution p i (append p event rows) ≡ some (some r)
  prior_execution-append i event rows r e = rw (rows_of-append p i.company event rows) (
      if_ind (λ rs. find_execution p (action_digest p i) rs ≡ some (some r))
        (event.company == i.company)
        (λ own.
          find_execution-append (action_digest p i) (rows_of i.company rows)
            (sealed_row p event rows ∷ []) r e)
        (λ other. e))

-- Once its receipt is written, an execution is found.
module _ (p : Platform) (back : LoadsBack p) where
  pub executed-found :
      (c : Capability) (i : ActionIntent) (rows : Ledger)
      → prior_execution p i rows ≡ some none
      → prior_execution p i (emit_receipt p i (executed_by p c i) rows)
        ≡ some (some (executed_by p c i))
  unfolding sealed_row
  executed-found c i rows e =
      rw (rows_of-append p i.company (event_of c) rows, eq_refl)
        (find_execution-snoc p (action_digest p i) (rows_of i.company rows)
          (sealed_row p (event_of c) rows) (event_of c) (executed_by p c i) e
          (back i.company i.task_id (executed_by p c i)) (rw eq_refl))
    where
      event_of : Capability → Event
      event_of d = record {
        company = i.company;
        task_id = i.task_id;
        payload = receipt (executed_by p d i);
      }

-- ===== src/Kernel/Executor/Again.antt =====
-- About a repeated request to the executor (comcmd/kernel/executor.py).
use company_command.Prelude.{
  Bool, ◌≡◌, refl, subst, true, false, not, Option, none, some, List, [], ◌∷◌, arith, ◌==◌, eq_iff,
  Dict, lookup, if_ind, Option-cases, inl, inr,
}
use company_command.Json.{Fields}
use company_command.Ids.{Platform}
use company_command.Kernel.Records.{ExecutionReceipt}
use company_command.Gateway.Intents.{ActionIntent, action_digest}
use company_command.Gateway.Receipts.{Capability}
use company_command.Gateway.State.{World}
use company_command.Kernel.Executor.{
  ToolHandler, ExecutionOutcome, Request, prior_execution, duplicate_of, executed_outcome, emitted,
  noted, perform, execute_new, execute_bound, execute, execute_all,
}
use company_command.Kernel.Executor.Recorded.{LoadsBack, executed-found, prior_execution-append}

module _ (p : Platform) (i : ActionIntent) (r : ExecutionReceipt) where
  -- The ledger has this execution.
  abbrev IsRecorded : World → Type 0
  IsRecorded w = prior_execution p i w.ledger ≡ some (some r)

  emitted-IsRecorded :
      (stored : Bool) (j : ActionIntent) (out : ExecutionOutcome) (w : World)
      → IsRecorded w
      → IsRecorded (emitted p stored j out w).1
  emitted-IsRecorded false j out w found = found
  emitted-IsRecorded true j out w found = prior_execution-append p i _ w.ledger r found

  perform-IsRecorded :
      (stored : Bool) (h : ToolHandler) (c : Capability) (j : ActionIntent) (w : World)
      → IsRecorded w
      → IsRecorded (perform p stored h c j w).1
  unfolding perform
  perform-IsRecorded stored h c j w found = elim (Option-cases (h j)) [
    | inl raises ↦ rw (raises, perform) found
    | inr (result, returns) ↦
        rw (returns, perform) (emitted-IsRecorded stored j _ (noted p j w) found)
  ]

  execute_new-IsRecorded :
      (stored : Bool) (hs : Dict ToolHandler) (c : Capability) (j : ActionIntent) (w : World)
      → IsRecorded w
      → IsRecorded (execute_new p stored hs c j w).1
  unfolding execute_new
  execute_new-IsRecorded stored hs c j w found = elim (Option-cases (lookup j.tool hs)) [
    | inl missing ↦ rw (missing, execute_new) (emitted-IsRecorded stored j _ w found)
    | inr (h, registered) ↦ rw (registered, execute_new) (perform-IsRecorded stored h c j w found)
  ]

  execute_bound-IsRecorded :
      (stored : Bool) (hs : Dict ToolHandler) (c : Capability) (j : ActionIntent) (w : World)
      → IsRecorded w
      → IsRecorded (execute_bound p stored hs c j w).1
  unfolding execute_bound
  execute_bound-IsRecorded stored hs c j w found =
      elim (Option-cases (prior_execution p j w.ledger)) [
        | inl bad ↦ rw (bad, execute_bound) found
        | inr (none, new) ↦ rw (new, execute_bound) (execute_new-IsRecorded stored hs c j w found)
        | inr (some prior, old) ↦ rw (old, execute_bound) found
      ]

  execute-IsRecorded :
      (stored : Bool) (hs : Dict ToolHandler) (c : Capability) (j : ActionIntent) (w : World)
      → IsRecorded w
      → IsRecorded (execute p stored hs c j w).1
  unfolding execute
  execute-IsRecorded stored hs c j w found =
      if_ind kept (not (c.intent_digest == action_digest p j))
        (λ unbound. emitted-IsRecorded stored j _ w found)
        λ bound.
          if_ind kept (not (c.tool == j.tool)) (λ mismatch. emitted-IsRecorded stored j _ w found)
            (λ same. execute_bound-IsRecorded stored hs c j w found)
    where
      kept : Option ExecutionOutcome × World → Type 0
      kept o = IsRecorded o.1

  execute_all-IsRecorded :
      (hs : Dict ToolHandler) (qs : List Request) (w : World)
      → IsRecorded w
      → IsRecorded (execute_all p hs qs w)
  unfolding execute_all
  execute_all-IsRecorded hs [] w found = found
  execute_all-IsRecorded hs (q ∷ qs) w found =
      execute_all-IsRecorded hs qs _ (execute-IsRecorded q.stored hs q.capability q.intent w found)

module _ (p : Platform) (back : LoadsBack p) (hs : Dict ToolHandler) where
  -- An outcome that reports the effect of `i` as executed has its receipt in the ledger.
  abbrev IsKept : ActionIntent → Option ExecutionOutcome × World → Type 0
  IsKept i (none, w) = Unit
  IsKept i (some out, w) =
      out.executed ≡ true → prior_execution p i w.ledger ≡ some (some out.receipt)

  unexecuted-IsKept :
      (stored : Bool) (i : ActionIntent) (out : ExecutionOutcome) (w : World)
      → out.executed ≡ false
      → IsKept i (emitted p stored i out w)
  unexecuted-IsKept false i out w idle = tt
  unexecuted-IsKept true i out w idle = λ ran. absurd cc

  perform-IsKept :
      (stored : Bool) (h : ToolHandler) (c : Capability) (i : ActionIntent) (w : World)
      → prior_execution p i w.ledger ≡ some none
      → IsKept i (perform p stored h c i w)
  unfolding perform
  perform-IsKept stored h c i w unseen = elim (Option-cases (h i)) [
    | inl raises ↦ rw (raises, perform) tt
    | inr (result, returns) ↦ rw (returns, perform) (written stored result)
  ]
    where
      written :
          (st : Bool) (result : Fields)
          → IsKept i (emitted p st i (executed_outcome p c i result) (noted p i w))
      written false result = tt
      written true result = λ ran. executed-found p back c i w.ledger unseen

  execute_bound-IsKept :
      (stored : Bool) (c : Capability) (i : ActionIntent) (w : World)
      → IsKept i (execute_bound p stored hs c i w)
  unfolding execute_bound execute_new
  execute_bound-IsKept stored c i w = elim (Option-cases (prior_execution p i w.ledger)) [
    | inl bad ↦ rw (bad, execute_bound) tt
    | inr (some prior, old) ↦ rw (old, execute_bound) (λ ran. absurd cc)
    | inr (none, new) ↦
        rw (new, execute_bound)
          (elim (Option-cases (lookup i.tool hs)) [
            | inl missing ↦ rw (missing, execute_new) (unexecuted-IsKept stored i _ w refl)
            | inr (h, registered) ↦ rw (registered, execute_new) (perform-IsKept stored h c i w new)
          ])
  ]

  execute-IsKept :
      (stored : Bool) (c : Capability) (i : ActionIntent) (w : World)
      → IsKept i (execute p stored hs c i w)
  unfolding execute
  execute-IsKept stored c i w =
      if_ind (IsKept i) (not (c.intent_digest == action_digest p i))
        (λ unbound. unexecuted-IsKept stored i _ w refl)
        λ bound.
          if_ind (IsKept i) (not (c.tool == i.tool))
            (λ mismatch. unexecuted-IsKept stored i _ w refl)
            (λ same. execute_bound-IsKept stored c i w)

  execute-seen :
      (stored : Bool) (c : Capability) (i : ActionIntent) (w : World) (r : ExecutionReceipt)
      → c.intent_digest ≡ action_digest p i
      → c.tool ≡ i.tool
      → prior_execution p i w.ledger ≡ some (some r)
      → execute p stored hs c i w ≡ (some (duplicate_of r), w)
  unfolding execute execute_bound
  execute-seen stored c i w r bound same found =
      ground (arith, eq_iff c.intent_digest (action_digest p i), eq_iff c.tool i.tool, seen)
    where
      seen : execute_bound p stored hs c i w ≡ (some (duplicate_of r), w)
      seen = rw (found, execute_bound)

  -- When written receipts can be read back: a request that is answered as executed is answered with the same
  -- receipt, as a duplicate and without any change, by each later request for it with a capability that is
  -- bound to it, whatever the executor is asked in between.
  pub execute-again :
      (stored later : Bool) (c d : Capability) (i : ActionIntent) (w w' : World)
      (out : ExecutionOutcome) (qs : List Request)
      → execute p stored hs c i w ≡ (some out, w')
      → out.executed ≡ true
      → d.intent_digest ≡ action_digest p i
      → d.tool ≡ i.tool
      → execute p later hs d i (execute_all p hs qs w')
        ≡ (some (duplicate_of out.receipt), execute_all p hs qs w')
  execute-again stored later c d i w w' out qs e ran bound same =
      let found = subst (IsKept i) e (execute-IsKept stored c i w) ran in
      execute-seen later d i (execute_all p hs qs w') out.receipt bound same
        (execute_all-IsRecorded p i out.receipt hs qs w' found)

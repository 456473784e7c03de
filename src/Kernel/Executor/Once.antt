-- ===== src/Kernel/Executor/Once.antt =====
-- About how often the executor (comcmd/kernel/executor.py) performs an effect.
use company_command.Prelude.{
  ℕ, suc, ◌+◌, ◌≤◌, String, Bool, ◌≡◌, ◌⊎◌, refl, sym, ◌∙◌, subst, true, false, not, ◌&&◌, Option,
  none, some, List, [], ◌∷◌, arith, ◌==◌, eq_iff, Dict, lookup, if_ind, Bool-cases, Option-cases,
  inl, inr, if◌then◌else◌,
}
use company_command.Json.{Fields}
use company_command.Ids.{Platform}
use company_command.Kernel.Records.{ExecutionReceipt}
use company_command.Kernel.Ledger.{Ledger}
use company_command.Gateway.Intents.{ActionIntent, action_digest}
use company_command.Gateway.Intents.Pins.{DigestPins, action_digest-pins}
use company_command.Gateway.Receipts.{Capability}
use company_command.Gateway.State.{World, new_world}
use company_command.Kernel.Executor.{
  ToolHandler, ExecutionOutcome, Request, prior_execution, executed_by, executed_outcome, emitted,
  noted, perform, execute_new, execute_bound, execute, execute_all,
}
use company_command.Kernel.Executor.Recorded.{LoadsBack, executed-found, prior_execution-append}

-- How often an effect has happened.
abbrev pub occurrences : String → List String → ℕ
occurrences k [] = 0
occurrences k (x ∷ xs) = let rest = occurrences k xs in if x == k then suc rest else rest

-- Whether a request is for this digest and its receipt is not stored.
abbrev pub lost : Platform → String → (stored : Bool) → ActionIntent → ℕ
lost p k stored i = if not stored && action_digest p i == k then 1 else 0

abbrev pub losses : Platform → String → List Request → ℕ
losses p k [] = 0
losses p k (q ∷ qs) = lost p k q.stored q.intent + losses p k qs

-- The effect of `i` has happened at most `n` times, or once more and the ledger has its receipt.
abbrev pub IsOnce : Platform → ActionIntent → ℕ → World → Type 0
IsOnce p i n w =
    (occurrences (action_digest p i) w.effects ≤ n)
    ⊎ ((occurrences (action_digest p i) w.effects ≤ suc n)
        × ((r : ExecutionReceipt) × (prior_execution p i w.ledger ≡ some (some r))))

module _ (p : Platform) (pins : DigestPins p) (back : LoadsBack p) (i : ActionIntent) where
  more-IsOnce : (m n : ℕ) (w : World) → IsOnce p i n w → IsOnce p i (m + n) w
  more-IsOnce m n w (inl few) = inl (omega (arith, few))
  more-IsOnce m n w (inr (few, recorded)) = inr (omega (arith, few), recorded)

  -- What is written without an effect keeps this, whether it is stored or not.
  emitted-IsOnce :
      (stored : Bool) (j : ActionIntent) (out : ExecutionOutcome) (n : ℕ) (w : World)
      → IsOnce p i n w
      → IsOnce p i n (emitted p stored j out w).1
  emitted-IsOnce false j out n w once = once
  emitted-IsOnce true j out n w (inl few) = inl few
  emitted-IsOnce true j out n w (inr (few, (r, found))) =
      inr (few, (r, prior_execution-append p i _ w.ledger r found))

  -- An execution is looked up by its digest and company alone.
  prior_execution-same :
      (j : ActionIntent) (rows : Ledger)
      → action_digest p j ≡ action_digest p i
      → prior_execution p j rows ≡ prior_execution p i rows
  prior_execution-same j rows same =
      let (action, company) = action_digest-pins p pins j i same in rw (same, company) refl

  perform-IsOnce :
      (stored : Bool) (h : ToolHandler) (c : Capability) (j : ActionIntent) (n : ℕ) (w : World)
      → prior_execution p j w.ledger ≡ some none
      → IsOnce p i n w
      → IsOnce p i (lost p (action_digest p i) stored j + n) (perform p stored h c j w).1
  unfolding perform
  perform-IsOnce stored h c j n w unseen once = elim (Option-cases (h j)) [
    | inl raises ↦ rw (raises, perform) (more-IsOnce _ n w once)
    | inr (result, returns) ↦
        rw (returns, perform)
          (elim (Bool-cases (action_digest p j == action_digest p i)) [
            | inr other ↦
                emitted-IsOnce stored j _ _ (noted p j w)
                  (more-IsOnce _ n (noted p j w) (noted_other other once))
            | inl same ↦ completed stored same once result
          ])
  ]
    where
      noted_other :
          (action_digest p j == action_digest p i) ≡ false
          → IsOnce p i n w
          → IsOnce p i n (noted p j w)
      noted_other other o = rw other o

      completed :
          (st : Bool)
          → (action_digest p j == action_digest p i) ≡ true
          → IsOnce p i n w
          → (result : Fields)
          → IsOnce p i
              (lost p (action_digest p i) st j + n)
              (emitted p st j (executed_outcome p c j result) (noted p j w)).1
      completed false hit (inl few) result = inl (rw hit (omega (arith, few)))
      completed false hit (inr (few, recorded)) result = inr (rw hit (omega (arith, few)), recorded)
      completed true hit (inl few) result = inr (
        rw hit (omega (arith, few)),
        (
          executed_by p c j,
          sym (prior_execution-same j _ ((eq_iff _ _).0 hit))
              ∙ executed-found p back c j w.ledger unseen,
        ),
      )
      completed true hit (inr (few, (r, found))) result =
          let seen =
            sym found ∙ sym (prior_execution-same j w.ledger ((eq_iff _ _).0 hit)) ∙ unseen in
          absurd cc

  execute_bound-IsOnce :
      (stored : Bool) (hs : Dict ToolHandler) (c : Capability) (j : ActionIntent) (n : ℕ)
      (w : World)
      → IsOnce p i n w
      → IsOnce p i (lost p (action_digest p i) stored j + n) (execute_bound p stored hs c j w).1
  unfolding execute_bound execute_new
  execute_bound-IsOnce stored hs c j n w once = go (prior_execution p j w.ledger) refl
    where
      go :
          (o : Option (Option ExecutionReceipt))
          → prior_execution p j w.ledger ≡ o
          → IsOnce p i (lost p (action_digest p i) stored j + n) (execute_bound p stored hs c j w).1
      go none e = rw (e, execute_bound) (more-IsOnce _ n w once)
      go (some (some prior)) e = rw (e, execute_bound) (more-IsOnce _ n w once)
      go (some none) e =
          rw (e, execute_bound)
            (elim (Option-cases (lookup j.tool hs)) [
              | inl missing ↦
                  rw (missing, execute_new) (emitted-IsOnce stored j _ _ w (more-IsOnce _ n w once))
              | inr (h, registered) ↦
                  rw (registered, execute_new) (perform-IsOnce stored h c j n w e once)
            ])

  execute-IsOnce :
      (stored : Bool) (hs : Dict ToolHandler) (c : Capability) (j : ActionIntent) (n : ℕ)
      (w : World)
      → IsOnce p i n w
      → IsOnce p i (lost p (action_digest p i) stored j + n) (execute p stored hs c j w).1
  unfolding execute
  execute-IsOnce stored hs c j n w once =
      if_ind kept (not (c.intent_digest == action_digest p j)) (λ unbound. refused _)
        λ bound.
          if_ind kept (not (c.tool == j.tool)) (λ mismatch. refused _)
            (λ same. execute_bound-IsOnce stored hs c j n w once)
    where
      kept : Option ExecutionOutcome × World → Type 0
      kept r = IsOnce p i (lost p (action_digest p i) stored j + n) r.1

      refused : (out : ExecutionOutcome) → kept (emitted p stored j out w)
      refused out = emitted-IsOnce stored j out _ w (more-IsOnce _ n w once)

  execute_all-IsOnce_from :
      (hs : Dict ToolHandler) (qs : List Request) (n : ℕ) (w : World)
      → IsOnce p i n w
      → IsOnce p i (losses p (action_digest p i) qs + n) (execute_all p hs qs w)
  unfolding execute_all
  execute_all-IsOnce_from hs [] n w once = more-IsOnce 0 n w once
  execute_all-IsOnce_from hs (q ∷ qs) n w once =
      subst (λ m. IsOnce p i m (execute_all p hs (q ∷ qs) w)) (omega arith)
        (execute_all-IsOnce_from hs qs (lost p (action_digest p i) q.stored q.intent + n)
          (execute p q.stored hs q.capability q.intent w).1
          (execute-IsOnce q.stored hs q.capability q.intent n w once))

  -- When digests pin their intents and written receipts can be read back: whatever an executor is asked on
  -- a new ledger, in whatever order and however often, an action's effect happens at most as often as
  -- receipts for it could not be stored, or once more, and then the ledger has an `executed` receipt for it.
  -- Where every receipt is stored, it so happens at most once.
  pub execute_all-IsOnce :
      (hs : Dict ToolHandler) (qs : List Request)
      → IsOnce p i (losses p (action_digest p i) qs) (execute_all p hs qs new_world)
  execute_all-IsOnce hs qs =
      subst (λ m. IsOnce p i m (execute_all p hs qs new_world)) (omega arith)
        (execute_all-IsOnce_from hs qs 0 new_world (inl (omega arith)))

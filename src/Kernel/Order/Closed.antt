-- ===== src/Kernel/Order/Closed.antt =====
-- About `_in_dependency_order` (comcmd/kernel/workflow.py) where all needs name steps of the workflow.
use company_command.Prelude.{
  ℕ, zero, suc, String, ◌≡◌, ◌≢◌, subst, true, some, List, [], ◌∷◌, Dict, lookup, contains, length,
  All, is_some, if_ind, Option_ind,
}
use company_command.Spec.{WorkflowStep}
use company_command.Kernel.Order.{
  Visited, Traversal, visited, cycle, missing, no_fuel, and_then, visit_each, index, finish, visit,
  ids, unvisited, in_dependency_order,
}
use company_command.Kernel.Order.Acyclic.{index-All, index-known, All-contains}

-- Every need of the step is a known id.
abbrev pub IsClosed : List String → WorkflowStep → Type 0
IsClosed known s = All (λ n. contains n known ≡ true) s.needs

abbrev Finds : Traversal → Type 0
Finds (visited v) = Unit
Finds (cycle id) = Unit
Finds (missing id) = ⊥
Finds no_fuel = Unit

and_then-Finds :
    (r : Traversal) (f : Visited → Traversal)
    → Finds r
    → ((v : Visited) → Finds (f v))
    → Finds (and_then r f)
and_then-Finds (visited v) f h k = k v
and_then-Finds (cycle id) f h k = tt
and_then-Finds (missing id) f h k = h
and_then-Finds no_fuel f h k = tt

visit_each-Finds :
    (known : List String) (f : String → Visited → Traversal)
    → ((sid : String) (v : Visited) → contains sid known ≡ true → Finds (f sid v))
    → (sids : List String) (v : Visited) → All (λ n. contains n known ≡ true) sids
    → Finds (visit_each f sids v)
unfolding visit_each
visit_each-Finds known f one [] v all = tt
visit_each-Finds known f one (d ∷ ds) v all =
    and_then-Finds (f d v) (visit_each f ds) (one d v all.0)
      (λ w. visit_each-Finds known f one ds w all.1)

module _ (by_id : Dict WorkflowStep) (known : List String)
    (filed : (k : String) (s : WorkflowStep)
      → lookup k by_id ≡ some s
      → IsClosed known s × (s.id ≡ k))
    (all_filed : (k : String) → contains k known ≡ true → is_some (lookup k by_id) ≡ true) where
  visit-Finds :
      (fuel : ℕ) (stack : List String) (sid : String) (v : Visited)
      → contains sid known ≡ true
      → Finds (visit fuel by_id stack sid v)
  unfolding visit
  visit-Finds zero stack sid v k = tt
  visit-Finds (suc fuel) stack sid v k =
      if_ind Finds (contains sid v.seen) (λ seen. tt)
        λ new.
          if_ind Finds (contains sid stack) (λ loops. tt)
            λ off.
              Option_ind Finds (lookup sid by_id) (λ unknown. cc (all_filed sid k))
                λ step found.
                  and_then-Finds (visit_each (visit fuel by_id (sid ∷ stack)) step.needs v)
                    (λ after. visited (finish sid step after))
                    (visit_each-Finds known (visit fuel by_id (sid ∷ stack))
                      (λ d w. visit-Finds fuel (sid ∷ stack) d w) step.needs v
                      (filed sid step found).0)
                    λ w. tt

-- The order of a workflow whose needs all name steps of it is never cut short by a `KeyError`.
pub in_dependency_order-closed :
    (steps : List WorkflowStep)
    → All (IsClosed (ids steps)) steps
    → (id : String) → in_dependency_order steps ≢ missing id
unfolding in_dependency_order lookup
in_dependency_order-closed steps closed id e = subst Finds e (
    visit_each-Finds (ids steps) (visit (suc (length (index steps []))) (index steps []) [])
      (λ d v.
        visit-Finds (index steps []) (ids steps)
          (index-All (IsClosed (ids steps)) steps [] closed (λ j s f. cc))
          (λ j known. index-known j steps [] (rw known)) (suc (length (index steps []))) [] d v)
      (ids steps) unvisited (All-contains [] (ids steps)))

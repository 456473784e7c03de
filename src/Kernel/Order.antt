-- ===== src/Kernel/Order.antt =====
-- comcmd/kernel/workflow.py, `_in_dependency_order`: the depth-first order of a workflow's steps.
-- The recursion of `visit` takes fuel, one more than the number of steps (Kernel/Order/Fuel).
pub mod Sorted
pub mod Fuel
pub mod Acyclic
pub mod Closed
use company_command.Prelude.{
  ℕ, zero, suc, String, Option, none, some, List, [], ◌∷◌, ◌++◌, Dict, lookup, insert, contains,
  add, length, if◌then◌else◌,
}
use company_command.Spec.{WorkflowStep}

pub record Visited : Type 0 where
  pub seen : List String
  pub ordered : List WorkflowStep

-- How the traversal ends: `WorkflowError`, the `KeyError` of a step that is not there, or no fuel.
pub data Traversal : Type 0 where
  visited : Visited → Traversal
  cycle : (id : String) → Traversal
  missing : (id : String) → Traversal
  no_fuel : Traversal

abbrev pub and_then : Traversal → (Visited → Traversal) → Traversal
and_then (visited v) f = f v
and_then (cycle id) f = cycle id
and_then (missing id) f = missing id
and_then no_fuel f = no_fuel

-- `for dep in deps: visit(dep, ...)`
unfoldable pub visit_each : (String → Visited → Traversal) → List String → Visited → Traversal
visit_each visit [] v = visited v
visit_each visit (d ∷ ds) v = and_then (visit d v) (visit_each visit ds)

-- `{s["id"]: s for s in steps}`
unfoldable pub index : List WorkflowStep → Dict WorkflowStep → Dict WorkflowStep
index [] by_id = by_id
index (s ∷ ss) by_id = index ss (insert s.id s by_id)

-- `seen.add(sid); ordered.append(by_id[sid])`
abbrev pub finish : String → WorkflowStep → Visited → Visited
finish sid step v = record { seen = add sid v.seen; ordered = v.ordered ++ step ∷ [] }

unfoldable pub visit : ℕ → Dict WorkflowStep → List String → String → Visited → Traversal
visit zero by_id stack sid v = no_fuel
visit (suc fuel) by_id stack sid v =
    let below = visit fuel by_id (sid ∷ stack) in
    if contains sid v.seen
    then visited v
    else if contains sid stack
    then cycle sid
    else elim (lookup sid by_id) [
      | none ↦ missing sid
      | some step ↦
          and_then (visit_each below step.needs v) (λ after. visited (finish sid step after))
    ]

abbrev pub ids : List WorkflowStep → List String
ids [] = []
ids (s ∷ ss) = s.id ∷ ids ss

abbrev pub unvisited : Visited
unvisited = record { seen = []; ordered = [] }

unfoldable pub in_dependency_order : List WorkflowStep → Traversal
in_dependency_order steps =
    let by_id = index steps [] in
    visit_each (visit (suc (length by_id)) by_id []) (ids steps) unvisited

-- ===== src/Kernel/Order/Fuel.antt =====
-- About the fuel of the traversal of `_in_dependency_order` (comcmd/kernel/workflow.py).
use company_command.Prelude.{
  ℕ, zero, suc, ◌+◌, ◌≤◌, String, ◌≡◌, refl, subst, ◌≢◌, true, false, some, List, [], ◌∷◌, arith,
  ◌==◌, eq_iff, Dict, lookup, contains, length, All, IsDistinct, if_ind, Option_ind, if◌then◌else◌,
}
use company_command.Spec.{WorkflowStep}
use company_command.Kernel.Order.{
  Visited, Traversal, visited, cycle, missing, no_fuel, and_then, visit_each, index, visit, ids,
  unvisited, in_dependency_order,
}

pub keys : Dict WorkflowStep → List String
keys [] = []
keys ((k, s) ∷ d) = k ∷ keys d

length-keys : (d : Dict WorkflowStep) → length (keys d) ≡ length d
unfolding keys
length-keys [] = refl
length-keys ((k, s) ∷ d) = omega (arith, length-keys d)

contains-keys :
    (k : String) (d : Dict WorkflowStep) {s : WorkflowStep}
    → lookup k d ≡ some s
    → contains k (keys d) ≡ true
unfolding keys lookup
contains-keys k [] e = cc
contains-keys k ((j, t) ∷ d) {s} e = ground (arith, contains-keys k d {s = s})

without : String → List String → List String
without a [] = []
without a (x ∷ xs) = if x == a then xs else x ∷ without a xs

length-without :
    (a : String) (xs : List String) → contains a xs ≡ true → length (without a xs) + 1 ≡ length xs
unfolding without
length-without a [] h = cc
length-without a (x ∷ xs) h = ground (arith, length-without a xs)

contains-without :
    (a x : String) (xs : List String)
    → (a == x) ≡ false
    → contains x xs ≡ true
    → contains x (without a xs) ≡ true
unfolding without
contains-without a x [] ne h = cc
contains-without a x (y ∷ xs) ne h =
    ground (arith, contains-without a x xs, eq_iff y a, eq_iff y x, eq_iff a x)

All-without :
    (a : String) (xs ys : List String)
    → contains a xs ≡ false
    → All (λ x. contains x ys ≡ true) xs
    → All (λ x. contains x (without a ys) ≡ true) xs
All-without a [] ys h all = tt
All-without a (x ∷ xs) ys h all = (
  contains-without a x ys (ground (arith, eq_iff a x, eq_iff x a)) all.0,
  All-without a xs ys (ground arith) all.1,
)

-- Distinct members of a list are no more than its length.
length-le_of_distinct :
    (xs ys : List String)
    → IsDistinct xs
    → All (λ x. contains x ys ≡ true) xs
    → length xs ≤ length ys
length-le_of_distinct [] ys d all = omega arith
length-le_of_distinct (x ∷ xs) ys d all = omega (
  arith,
  length-without x ys all.0,
  length-le_of_distinct xs (without x ys) d.1 (All-without x xs ys d.0 all.1),
)

-- The stack holds distinct steps of the workflow, and the fuel covers those that are not on it.
pub record HasFuel (fuel : ℕ) (by_id : Dict WorkflowStep) (stack : List String) : Type 0 where
  pub distinct : IsDistinct stack
  pub known : All (λ x. contains x (keys by_id) ≡ true) stack
  pub enough : suc (length by_id) ≤ fuel + length stack

pub HasFuel-nonzero : (by_id : Dict WorkflowStep) (stack : List String) → ¬ HasFuel zero by_id stack
HasFuel-nonzero by_id stack h = absurd (
    omega (
      arith,
      length-keys by_id,
      length-le_of_distinct stack (keys by_id) h.distinct h.known,
      h.enough,
    ))

pub HasFuel-push :
    (fuel : ℕ) (by_id : Dict WorkflowStep) (stack : List String) (sid : String) {s : WorkflowStep}
    → HasFuel (suc fuel) by_id stack
    → contains sid stack ≡ false
    → lookup sid by_id ≡ some s
    → HasFuel fuel by_id (sid ∷ stack)
HasFuel-push fuel by_id stack sid h off found = record {
  distinct = (off, h.distinct);
  known = (contains-keys sid by_id found, h.known);
  enough = omega (arith, h.enough);
}

abbrev HasEnded : Traversal → Type 0
HasEnded (visited v) = Unit
HasEnded (cycle id) = Unit
HasEnded (missing id) = Unit
HasEnded no_fuel = ⊥

and_then-HasEnded :
    (r : Traversal) (f : Visited → Traversal)
    → HasEnded r
    → ((v : Visited) → HasEnded (f v))
    → HasEnded (and_then r f)
and_then-HasEnded (visited v) f h k = k v
and_then-HasEnded (cycle id) f h k = tt
and_then-HasEnded (missing id) f h k = tt
and_then-HasEnded no_fuel f h k = h

visit_each-HasEnded :
    (f : String → Visited → Traversal)
    → ((sid : String) (v : Visited) → HasEnded (f sid v))
    → (sids : List String) (v : Visited) → HasEnded (visit_each f sids v)
unfolding visit_each
visit_each-HasEnded f one [] v = tt
visit_each-HasEnded f one (d ∷ ds) v =
    and_then-HasEnded (f d v) (visit_each f ds) (one d v) (visit_each-HasEnded f one ds)

visit-HasEnded :
    (fuel : ℕ) (by_id : Dict WorkflowStep) (stack : List String) (sid : String) (v : Visited)
    → HasFuel fuel by_id stack
    → HasEnded (visit fuel by_id stack sid v)
unfolding visit
visit-HasEnded zero by_id stack sid v h = absurd (HasFuel-nonzero by_id stack h)
visit-HasEnded (suc fuel) by_id stack sid v h =
    if_ind HasEnded (contains sid v.seen) (λ seen. tt)
      λ new.
        if_ind HasEnded (contains sid stack) (λ loops. tt)
          λ off.
            Option_ind HasEnded (lookup sid by_id) (λ unknown. tt)
              λ step found.
                and_then-HasEnded (visit_each (visit fuel by_id (sid ∷ stack)) step.needs v) _
                  (visit_each-HasEnded (visit fuel by_id (sid ∷ stack))
                    (λ d w.
                      visit-HasEnded fuel by_id (sid ∷ stack) d w
                        (HasFuel-push fuel by_id stack sid h off found))
                    step.needs v)
                  λ w. tt

pub HasFuel-start : (by_id : Dict WorkflowStep) → HasFuel (suc (length by_id)) by_id []
HasFuel-start by_id = record { distinct = tt; known = tt; enough = omega arith }

-- The fuel suffices for every list of steps: the traversal returns an order or one of its errors.
pub in_dependency_order-ends : (steps : List WorkflowStep) → in_dependency_order steps ≢ no_fuel
unfolding in_dependency_order
in_dependency_order-ends steps e = subst HasEnded e (
    visit_each-HasEnded (visit (suc (length (index steps []))) (index steps []) [])
      (λ d w.
        visit-HasEnded (suc (length (index steps []))) (index steps []) [] d w
          (HasFuel-start (index steps [])))
      (ids steps) unvisited)

-- ===== src/Tests/Orders.antt =====
-- The theorems on the order of a workflow's steps, and on majorities, at small inputs.
use company_command.Prelude.{
  ℕ, String, ◌≡◌, ◌≢◌, refl, true, none, some, List, [], ◌∷◌, ◌==◌, All, IsDistinct, contains,
  lookup, insert, if◌then◌else◌, arith,
}
use company_command.Json.{field, end, str}
use company_command.Spec.{WorkflowStep, work}
use company_command.Kernel.Order.{
  Visited, visited, Traversal, in_dependency_order, visit_each, visit, index, ids,
}
use company_command.Kernel.Order.Sorted.{IsSorted, in_dependency_order-IsSorted}
use company_command.Kernel.Order.Fuel.{in_dependency_order-ends}
use company_command.Kernel.Order.Acyclic.{IsRanked, in_dependency_order-acyclic}
use company_command.Kernel.Aggregate.{Ballot, text, leader}
use company_command.Kernel.Aggregate.Majority.{IsLeader, leader-IsLeader}

abbrev pub step_with : String → List String → WorkflowStep
step_with id needs = record {
  id = id;
  type = work;
  run_as = some "writer";
  needs = needs;
  output_schema = none;
  policy = none;
  loop_bound = none;
  fanout = none;
  aggregate = none;
  aggregate_key = "answer";
  score_key = "score";
  verifiers = none;
  verify_quorum = none;
}

-- The report stands first and needs what follows it.
abbrev steps : List WorkflowStep
steps =
    step_with "report" ("draft" ∷ "figures" ∷ [])
    ∷ step_with "draft" ("figures" ∷ [])
    ∷ step_with "figures" []
    ∷ []

abbrev order : Visited
order = record {
  seen = "figures" ∷ "draft" ∷ "report" ∷ [];
  ordered =
      step_with "figures" []
      ∷ step_with "draft" ("figures" ∷ [])
      ∷ step_with "report" ("draft" ∷ "figures" ∷ [])
      ∷ [];
}

is_ordered : in_dependency_order steps ≡ visited order
unfolding in_dependency_order visit_each visit index lookup insert
is_ordered = refl

in_dependency_order-IsSorted_example :
    IsSorted [] order.ordered
    × IsDistinct (ids order.ordered)
    × All (λ n. contains n (ids order.ordered) ≡ true) (ids steps)
in_dependency_order-IsSorted_example = in_dependency_order-IsSorted steps order is_ordered

in_dependency_order-ends_example : in_dependency_order steps ≢ Traversal.no_fuel
in_dependency_order-ends_example = in_dependency_order-ends steps

abbrev rank : String → ℕ
rank id = if id == "figures" then 0 else if id == "draft" then 1 else 2

steps-IsRanked : All (IsRanked rank (ids steps)) steps
steps-IsRanked =
    (((omega arith, refl), ((omega arith, refl), tt)), (((omega arith, refl), tt), (tt, tt)))

in_dependency_order-acyclic_example : (v : Visited) × (in_dependency_order steps ≡ visited v)
in_dependency_order-acyclic_example = in_dependency_order-acyclic rank steps steps-IsRanked

abbrev ballot : String → Ballot
ballot answer = record { candidate = field "answer" (str answer) end; vote = text answer }

abbrev others : List Ballot
others = ballot "no" ∷ ballot "no" ∷ []

leader-IsLeader_example :
    IsLeader
      (ballot "yes" ∷ others)
      (leader (ballot "yes" ∷ others) (ballot "yes") others)
      (ballot "yes" ∷ others)
leader-IsLeader_example = leader-IsLeader (ballot "yes") others

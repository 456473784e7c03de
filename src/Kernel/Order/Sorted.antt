-- ===== src/Kernel/Order/Sorted.antt =====
-- About the order that `_in_dependency_order` (comcmd/kernel/workflow.py) returns.
use mathlib.Core.List.{append-nil, append_assoc}
use company_command.Prelude.{
  ℕ, zero, suc, String, ◌≡◌, refl, ◌∙◌, ap, subst, true, false, some, List, [], ◌∷◌, ◌++◌, arith,
  eq_iff, eq_refl, Dict, lookup, insert, lookup-insert, contains, contains-append,
  contains-add_self, length, All, IsDistinct, snoc-IsDistinct, if_ind, Option_ind,
}
use company_command.Spec.{WorkflowStep}
use company_command.Kernel.Order.{
  Visited, Traversal, visited, cycle, missing, no_fuel, and_then, visit_each, index, finish, visit,
  ids, unvisited, in_dependency_order,
}

-- Every need of a step is among `before` and the steps that stand ahead of it.
abbrev pub IsSorted : List String → List WorkflowStep → Type 0
IsSorted before [] = Unit
IsSorted before (s ∷ ss) =
    All (λ n. contains n before ≡ true) s.needs × IsSorted (before ++ s.id ∷ []) ss

-- Each step is filed under its own id.
abbrev pub IsIndex : Dict WorkflowStep → Type 0
IsIndex d = (k : String) (s : WorkflowStep) → lookup k d ≡ some s → s.id ≡ k

insert-IsIndex : (s : WorkflowStep) (d : Dict WorkflowStep) → IsIndex d → IsIndex (insert s.id s d)
insert-IsIndex s d h k t e = ground (arith, lookup-insert s.id k s d, eq_iff s.id k, h k t)

index-IsIndex : (ss : List WorkflowStep) (d : Dict WorkflowStep) → IsIndex d → IsIndex (index ss d)
unfolding index
index-IsIndex [] d h = h
index-IsIndex (s ∷ ss) d h = index-IsIndex ss (insert s.id s d) (insert-IsIndex s d h)

record IsGood (v : Visited) : Type 0 where
  listed : ids v.ordered ≡ v.seen
  distinct : IsDistinct v.seen
  sorted : IsSorted [] v.ordered

-- What a call with the stack `stack` leaves behind: nothing is forgotten, and nothing on the stack
-- is added.
record Grows (stack : List String) (v w : Visited) : Type 0 where
  good : IsGood w
  keeps : (x : String) → contains x v.seen ≡ true → contains x w.seen ≡ true
  spares : (x : String) → contains x stack ≡ true → contains x w.seen ≡ contains x v.seen

abbrev Ensures : (Visited → Type 0) → Traversal → Type 0
Ensures P (visited v) = P v
Ensures P (cycle id) = Unit
Ensures P (missing id) = Unit
Ensures P no_fuel = Unit

ids-append : (xs ys : List WorkflowStep) → ids (xs ++ ys) ≡ ids xs ++ ids ys
ids-append [] ys = refl
ids-append (x ∷ xs) ys = ap (λ l. x.id ∷ l) (ids-append xs ys)

IsSorted-snoc :
    (before : List String) (ss : List WorkflowStep) (s : WorkflowStep)
    → IsSorted before ss
    → All (λ n. contains n (before ++ ids ss) ≡ true) s.needs
    → IsSorted before (ss ++ s ∷ [])
IsSorted-snoc before [] s h needs = (rw append-nil at needs, tt)
IsSorted-snoc before (x ∷ ss) s h needs =
    (h.0, IsSorted-snoc (before ++ x.id ∷ []) ss s h.1 rw append_assoc needs)

finish-Grows :
    (stack : List String) (sid : String) (step : WorkflowStep) (v w : Visited)
    → step.id ≡ sid
    → contains sid v.seen ≡ false
    → contains sid stack ≡ false
    → Grows (sid ∷ stack) v w
    → All (λ n. contains n w.seen ≡ true) step.needs
    → Grows stack v (finish sid step w)
finish-Grows stack sid step v w named new off g needs = rw absent (record {
  good = record {
    listed = cc (ids-append w.ordered (step ∷ []), g.good.listed, named);
    distinct = snoc-IsDistinct sid w.seen g.good.distinct absent;
    sorted = IsSorted-snoc [] w.ordered step g.good.sorted (rw g.good.listed needs);
  };
  keeps = λ x h. ground (arith, contains-append x w.seen (sid ∷ []), g.keeps x);
  spares = λ x h. ground (arith, contains-append x w.seen (sid ∷ []), g.spares x, eq_iff sid x);
})
  where
    absent : contains sid w.seen ≡ false
    absent = g.spares sid (rw eq_refl) ∙ new

-- Growing in two steps.
Grows-trans :
    (stack : List String) (u v w : Visited) → Grows stack u v → Grows stack v w → Grows stack u w
Grows-trans stack u v w g h = record {
  good = h.good;
  keeps = λ x e. h.keeps x (g.keeps x e);
  spares = λ x e. h.spares x e ∙ g.spares x e;
}

-- One visit: it grows, and the step itself has been seen.
abbrev Done : List String → Visited → String → Visited → Type 0
Done stack v sid w = Grows stack v w × (contains sid w.seen ≡ true)

abbrev AllDone : List String → Visited → List String → Visited → Type 0
AllDone stack v sids w = Grows stack v w × All (λ n. contains n w.seen ≡ true) sids

Ensures-and_then :
    (P Q : Visited → Type 0) (r : Traversal) (f : Visited → Traversal)
    → Ensures P r
    → ((v : Visited) → P v → Ensures Q (f v))
    → Ensures Q (and_then r f)
Ensures-and_then P Q (visited v) f h k = k v h
Ensures-and_then P Q (cycle id) f h k = tt
Ensures-and_then P Q (missing id) f h k = tt
Ensures-and_then P Q no_fuel f h k = tt

Ensures-mono :
    (P Q : Visited → Type 0) (r : Traversal)
    → ((v : Visited) → P v → Q v)
    → Ensures P r
    → Ensures Q r
Ensures-mono P Q (visited v) k h = k v h
Ensures-mono P Q (cycle id) k h = tt
Ensures-mono P Q (missing id) k h = tt
Ensures-mono P Q no_fuel k h = tt

visit_each-AllDone :
    (stack : List String) (f : String → Visited → Traversal)
    → ((sid : String) (v : Visited) → IsGood v → Ensures (Done stack v sid) (f sid v))
    → (sids : List String) (v : Visited) → IsGood v
    → Ensures (AllDone stack v sids) (visit_each f sids v)
unfolding visit_each
visit_each-AllDone stack f one [] v good =
    (record { good = good; keeps = λ x e. e; spares = λ x e. refl }, tt)
visit_each-AllDone stack f one (d ∷ ds) v good =
    Ensures-and_then (Done stack v d) (AllDone stack v (d ∷ ds)) (f d v) (visit_each f ds)
      (one d v good)
      λ w (g, seen).
        Ensures-mono (AllDone stack w ds) (AllDone stack v (d ∷ ds)) (visit_each f ds w)
          (λ u (h, all). (Grows-trans stack v w u g h, (h.keeps d seen, all)))
          (visit_each-AllDone stack f one ds w g.good)

visit-Done :
    (fuel : ℕ) (by_id : Dict WorkflowStep) (stack : List String) (sid : String) (v : Visited)
    → IsIndex by_id
    → IsGood v
    → Ensures (Done stack v sid) (visit fuel by_id stack sid v)
unfolding visit
visit-Done zero by_id stack sid v indexed good = tt
visit-Done (suc fuel) by_id stack sid v indexed good =
    if_ind (Ensures (Done stack v sid)) (contains sid v.seen)
      (λ seen. (record { good = good; keeps = λ x e. e; spares = λ x e. refl }, seen))
      λ new.
        if_ind (Ensures (Done stack v sid)) (contains sid stack) (λ loops. tt)
          λ off.
            Option_ind (Ensures (Done stack v sid)) (lookup sid by_id) (λ unknown. tt)
              λ step found.
                Ensures-and_then (AllDone (sid ∷ stack) v step.needs) (Done stack v sid)
                  (visit_each (visit fuel by_id (sid ∷ stack)) step.needs v)
                  (λ after. visited (finish sid step after))
                  (visit_each-AllDone (sid ∷ stack) (visit fuel by_id (sid ∷ stack))
                    (λ d w g. visit-Done fuel by_id (sid ∷ stack) d w indexed g) step.needs v good)
                  λ w (g, needs). (
                    finish-Grows stack sid step v w (indexed sid step found) new off g needs,
                    contains-add_self sid w.seen,
                  )

-- When the steps can be ordered, the order has distinct ids, stands every step behind the steps that
-- it needs, and has every step of the workflow.
pub in_dependency_order-IsSorted :
    (steps : List WorkflowStep) (v : Visited)
    → in_dependency_order steps ≡ visited v
    → IsSorted [] v.ordered
      × IsDistinct (ids v.ordered)
      × All (λ n. contains n (ids v.ordered) ≡ true) (ids steps)
unfolding in_dependency_order lookup
in_dependency_order-IsSorted steps v e =
    let (g, all) = subst (Ensures (AllDone [] unvisited (ids steps))) e (
      visit_each-AllDone [] (visit (suc (length (index steps []))) (index steps []) [])
        (λ d w good.
          visit-Done (suc (length (index steps []))) (index steps []) [] d w
            (index-IsIndex steps [] (λ k s found. cc)) good)
        (ids steps) unvisited (record { listed = refl; distinct = tt; sorted = tt })) in
    (g.good.sorted, rw g.good.listed g.good.distinct, rw g.good.listed all)

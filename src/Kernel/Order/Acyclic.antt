-- ===== src/Kernel/Order/Acyclic.antt =====
-- About `_in_dependency_order` (comcmd/kernel/workflow.py) where the needs are acyclic.
use mathlib.Core.List.{append_assoc}
use company_command.Prelude.{
  ℕ, zero, suc, ◌<◌, String, ◌≡◌, refl, subst, ap, true, false, ◌||◌, some, List, [], ◌∷◌, ◌++◌,
  arith, ◌==◌, eq_iff, Dict, lookup, insert, lookup-insert, contains, contains-append, length, All,
  is_some, Bool-cases, inl, inr, if_ind, Option_ind,
}
use company_command.Spec.{WorkflowStep}
use company_command.Kernel.Order.{
  Visited, Traversal, visited, and_then, visit_each, index, finish, visit, ids, unvisited,
  in_dependency_order,
}
use company_command.Kernel.Order.Fuel.{HasFuel, HasFuel-nonzero, HasFuel-push, HasFuel-start}

-- Every need of the step is a known id with a smaller rank.
abbrev pub IsRanked : (String → ℕ) → List String → WorkflowStep → Type 0
IsRanked rank known s = All (λ n. (rank n < rank s.id) × (contains n known ≡ true)) s.needs

-- What holds of every step listed holds of every step filed.
pub index-All :
    (P : WorkflowStep → Type 0) (ss : List WorkflowStep) (d : Dict WorkflowStep)
    → All P ss
    → ((k : String) (s : WorkflowStep) → lookup k d ≡ some s → P s × (s.id ≡ k))
    → (k : String) (s : WorkflowStep) → lookup k (index ss d) ≡ some s
    → P s × (s.id ≡ k)
unfolding index
index-All P [] d all h k s e = h k s e
index-All P (x ∷ ss) d all h k s e = index-All P ss (insert x.id x d) all.1 filed k s e
  where
    filed : (j : String) (t : WorkflowStep) → lookup j (insert x.id x d) ≡ some t → P t × (t.id ≡ j)
    filed j t f = elim (Bool-cases (x.id == j)) [
      | inl same ↦
          let moved : x ≡ t = ground (arith, lookup-insert x.id j x d) in
          subst (λ u. P u × (u.id ≡ j)) moved (all.0, (eq_iff x.id j).0 same)
      | inr other ↦ h j t (ground (arith, lookup-insert x.id j x d))
    ]

-- Every id listed is filed.
pub index-known :
    (k : String) (ss : List WorkflowStep) (d : Dict WorkflowStep)
    → (contains k (ids ss) || is_some (lookup k d)) ≡ true
    → is_some (lookup k (index ss d)) ≡ true
unfolding index
index-known k [] d h = h
index-known k (x ∷ ss) d h =
    index-known k ss (insert x.id x d) (ground (arith, lookup-insert x.id k x d))

abbrev Succeeds : Traversal → Type 0
Succeeds r = (v : Visited) × (r ≡ visited v)

visit_each-Succeeds :
    (P : String → Type 0) (f : String → Visited → Traversal)
    → ((sid : String) (v : Visited) → P sid → Succeeds (f sid v))
    → (sids : List String) (v : Visited) → All P sids
    → Succeeds (visit_each f sids v)
unfolding visit_each
visit_each-Succeeds P f one [] v all = (v, refl)
visit_each-Succeeds P f one (d ∷ ds) v all =
    let (w, e) = one d v all.0 in
    let (u, e') = visit_each-Succeeds P f one ds w all.1 in (u, rw (e, and_then) e')

module _ (rank : String → ℕ) (by_id : Dict WorkflowStep) (known : List String)
    (filed : (k : String) (s : WorkflowStep)
      → lookup k by_id ≡ some s
      → IsRanked rank known s × (s.id ≡ k))
    (all_filed : (k : String) → contains k known ≡ true → is_some (lookup k by_id) ≡ true) where
  off_stack :
      (stack : List String) (sid : String)
      → All (λ x. rank sid < rank x) stack
      → contains sid stack ≡ false
  off_stack [] sid all = refl
  off_stack (x ∷ stack) sid all = elim (Bool-cases (x == sid)) [
    | inl same ↦ let e : x ≡ sid = (eq_iff x sid).0 same in absurd (omega (arith, all.0, ap rank e))
    | inr other ↦ rw other (off_stack stack sid all.1)
  ]

  All-below :
      (stack : List String) (lo hi : ℕ)
      → lo < hi
      → All (λ x. hi < rank x) stack
      → All (λ x. lo < rank x) stack
  All-below [] lo hi h all = tt
  All-below (x ∷ stack) lo hi h all = (omega (arith, h, all.0), All-below stack lo hi h all.1)

  -- The stack holds only steps of larger rank, so no step is met twice on it.
  visit-Succeeds :
      (fuel : ℕ) (stack : List String) (sid : String) (v : Visited)
      → HasFuel fuel by_id stack
      → All (λ x. rank sid < rank x) stack
      → contains sid known ≡ true
      → Succeeds (visit fuel by_id stack sid v)
  unfolding visit
  visit-Succeeds zero stack sid v h above k = absurd (HasFuel-nonzero by_id stack h)
  visit-Succeeds (suc fuel) stack sid v h above k =
      if_ind Succeeds (contains sid v.seen) (λ seen. (v, refl))
        λ new.
          if_ind Succeeds (contains sid stack) (λ loops. cc (off_stack stack sid above))
            λ off.
              Option_ind Succeeds (lookup sid by_id) (λ unknown. cc (all_filed sid k))
                λ step found.
                  let (ranked, named) = filed sid step found in
                  let (w, e) =
                    visit_each-Succeeds (λ n. (rank n < rank step.id) × (contains n known ≡ true))
                      (visit fuel by_id (sid ∷ stack))
                      (λ d u (lower, kn).
                        let below : rank d < rank sid = omega (arith, lower, ap rank named) in
                        visit-Succeeds fuel (sid ∷ stack) d u
                          (HasFuel-push fuel by_id stack sid h off found)
                          (below, All-below stack (rank d) (rank sid) below above) kn)
                      step.needs v ranked in
                  (finish sid step w, rw (e, and_then))

pub All-contains :
    (before after : List String) → All (λ k. contains k (before ++ after) ≡ true) after
All-contains before [] = tt
All-contains before (x ∷ after) = (
  ground (arith, contains-append x before (x ∷ after), eq_iff x x),
  subst (λ l. All (λ k. contains k l ≡ true) after) (append_assoc before (x ∷ []) after)
      (All-contains (before ++ x ∷ []) after),
)

-- A workflow whose needs are steps of it, and go down in some rank, can be ordered: `WorkflowError` and
-- `KeyError` are raised for no acyclic workflow.
pub in_dependency_order-acyclic :
    (rank : String → ℕ) (steps : List WorkflowStep)
    → All (IsRanked rank (ids steps)) steps
    → (v : Visited) × (in_dependency_order steps ≡ visited v)
unfolding in_dependency_order lookup
in_dependency_order-acyclic rank steps ranked =
    visit_each-Succeeds (λ k. contains k (ids steps) ≡ true)
      (visit (suc (length (index steps []))) (index steps []) [])
      (λ d v k.
        visit-Succeeds rank (index steps []) (ids steps)
          (index-All (IsRanked rank (ids steps)) steps [] ranked (λ j s e. cc))
          (λ j known. index-known j steps [] (rw known)) (suc (length (index steps []))) [] d v
          (HasFuel-start (index steps [])) tt k)
      (ids steps) unvisited (All-contains [] (ids steps))

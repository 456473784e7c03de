-- ===== src/Compile/Cycles.antt =====
-- comcmd/compile/compiler.py, `_check_cycles`: a depth-first search with colours that reports each back
-- edge whose cycle has no loop bound. A visit turns a white step grey, so it has one unit of
-- fuel more than there are steps (Compile/Cycles/Fuel).
pub mod Fuel
use company_command.Prelude.{
  ℕ, zero, suc, String, Bool, true, false, not, Option, none, some, List, [], ◌∷◌, ◌++◌, ◌==◌, any,
  contains, Dict, lookup, insert, length, if◌then◌else◌,
}
use company_command.Spec.{WorkflowStep}
use company_command.Compile.Codes.{Code, e_cycle_unbounded, when, has_count}

pub data Colour : Type 0 where
  white grey black : Colour

pub record Search : Type 0 where
  pub colours : Dict Colour
  pub errors : List Code

-- `stack[stack.index(dep):]`
abbrev from_member : String → List String → List String
from_member dep [] = []
from_member dep (s ∷ ss) = if s == dep then s ∷ ss else from_member dep ss

-- The cycle that an edge back to `dep` closes.
abbrev closed_cycle : String → List String → List String
closed_cycle dep stack = if contains dep stack then from_member dep stack ++ dep ∷ [] else dep ∷ []

-- `bound.get(x)`, where it is truthy
abbrev is_bounded : Dict (Option ℕ) → String → Bool
is_bounded bound x = elim (lookup x bound) [ none ↦ false | some b ↦ has_count b ]

-- A search that has run out of fuel is `none`.
abbrev pub then_search : Option Search → (Search → Option Search) → Option Search
then_search none f = none
then_search (some s) f = f s

-- `for dep in deps`, with what a white step does and what a grey one does
unfoldable pub each_dep :
    (white_dep : String → Search → Option Search) (grey_dep : String → Search → Search)
    → List String
    → Search
    → Option Search
each_dep white_dep grey_dep [] s = some s
each_dep white_dep grey_dep (d ∷ ds) s = elim (lookup d s.colours) [
  | some white ↦ then_search (white_dep d s) (each_dep white_dep grey_dep ds)
  | some grey ↦ each_dep white_dep grey_dep ds (grey_dep d s)
  | _ ↦ each_dep white_dep grey_dep ds s
]

module _ (graph : Dict (List String)) (bound : Dict (Option ℕ)) where
  abbrev pub needs_of : String → List String
  needs_of sid = elim (lookup sid graph) [ none ↦ [] | some deps ↦ deps ]

  abbrev pub report : List String → String → Search → Search
  report stack dep s = record s {
    errors =
        s.errors ++ when (not (any (is_bounded bound) (closed_cycle dep stack))) e_cycle_unbounded;
  }

  abbrev pub paint : String → Colour → Search → Search
  paint sid c s = record s { colours = insert sid c s.colours }

  unfoldable pub visit_step : ℕ → List String → String → Search → Option Search
  visit_step zero stack sid s = none
  visit_step (suc fuel) stack sid s =
      then_search
        (each_dep (λ d. visit_step fuel (stack ++ d ∷ []) d) (report stack) (needs_of sid)
          (paint sid grey s))
        (λ after. some (paint sid black after))

  -- `for sid in needs_graph: if color[sid] == WHITE: visit(sid, [sid])`
  unfoldable pub search_all : ℕ → List String → Search → Option Search
  search_all fuel [] s = some s
  search_all fuel (sid ∷ sids) s = elim (lookup sid s.colours) [
    | some white ↦ then_search (visit_step fuel (sid ∷ []) sid s) (search_all fuel sids)
    | _ ↦ search_all fuel sids s
  ]

abbrev pub keys_of : {A : Type 0} → Dict A → List String
keys_of [] = []
keys_of ((k, v) ∷ d) = k ∷ keys_of d

unfoldable pub graph_of : List WorkflowStep → Dict (List String) → Dict (List String)
graph_of [] graph = graph
graph_of (s ∷ ss) graph = graph_of ss (insert s.id s.needs graph)

unfoldable pub bounds_of : List WorkflowStep → Dict (Option ℕ) → Dict (Option ℕ)
bounds_of [] bound = bound
bounds_of (s ∷ ss) bound = bounds_of ss (insert s.id s.loop_bound bound)

abbrev all_white : Dict (List String) → Dict Colour
all_white [] = []
all_white ((k, deps) ∷ d) = (k, white) ∷ all_white d

unfoldable pub check_cycles : List WorkflowStep → Option (List Code)
check_cycles steps =
    let graph = graph_of steps [] in
    elim (search_all graph (bounds_of steps []) (suc (length graph)) (keys_of graph)
      (record { colours = all_white graph; errors = [] })) [ none ↦ none | some s ↦ some s.errors ]

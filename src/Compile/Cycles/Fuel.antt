-- ===== src/Compile/Cycles/Fuel.antt =====
-- About the fuel of the search of `_check_cycles` (comcmd/compile/compiler.py).
use native.Mathlib.Nat.{le_trans}
use company_command.Prelude.{
  ℕ, zero, suc, ◌+◌, ◌≤◌, String, ◌≡◌, ◌≢◌, refl, sym, subst, Option, none, some, List, [], ◌∷◌,
  ◌++◌, arith, ◌==◌, Dict, lookup, insert, length, Bool-cases, inl, inr,
}
use company_command.Spec.{WorkflowStep}
use company_command.Compile.Cycles.{
  Colour, white, grey, black, Search, then_search, each_dep, needs_of, report, paint, visit_step,
  search_all, keys_of, graph_of, bounds_of, all_white, check_cycles,
}

abbrev white_count : Colour → ℕ
white_count white = 1
white_count grey = 0
white_count black = 0

abbrev whites : Dict Colour → ℕ
whites [] = 0
whites ((k, c) ∷ d) = white_count c + whites d

whites-insert_grey :
    (k : String) (d : Dict Colour)
    → lookup k d ≡ some white
    → suc (whites (insert k grey d)) ≡ whites d
unfolding lookup insert
whites-insert_grey k [] e = absurd cc
whites-insert_grey k ((j, c) ∷ d) e = elim (Bool-cases (j == k)) [
  | inl same ↦ let found : c ≡ white = cc (rw same at e) in rw (same, found) (omega arith)
  | inr other ↦ rw other (omega (arith, whites-insert_grey k d (rw other at e)))
]

whites-insert_black : (k : String) (d : Dict Colour) → whites (insert k black d) ≤ whites d
unfolding insert
whites-insert_black k [] = omega arith
whites-insert_black k ((j, c) ∷ d) = elim (Bool-cases (j == k)) [
  | inl same ↦ rw same (omega arith)
  | inr other ↦ rw other (omega (arith, whites-insert_black k d))
]

-- The search has ended, with no more than `n` white steps.
abbrev Shrinks : ℕ → Option Search → Type 0
Shrinks n none = ⊥
Shrinks n (some s) = whites s.colours ≤ n

then_search-Shrinks :
    (m n : ℕ) (o : Option Search) (f : Search → Option Search)
    → Shrinks m o
    → ((s : Search) → whites s.colours ≤ m → Shrinks n (f s))
    → Shrinks n (then_search o f)
then_search-Shrinks m n none f h k = h
then_search-Shrinks m n (some s) f h k = k s h

Shrinks-mono : (m n : ℕ) (o : Option Search) → m ≤ n → Shrinks m o → Shrinks n o
Shrinks-mono m n none le h = h
Shrinks-mono m n (some s) le h = le_trans h le

-- A step that is visited when white, with fuel for all white steps.
abbrev Visits : ℕ → (String → Search → Option Search) → Type 0
Visits fuel visit =
    (d : String) (s : Search)
    → lookup d s.colours ≡ some white
    → whites s.colours ≤ fuel
    → Shrinks (whites s.colours) (visit d s)

each_dep-Shrinks :
    (fuel : ℕ) (white_dep : String → Search → Option Search) (grey_dep : String → Search → Search)
    → Visits fuel white_dep
    → ((d : String) (s : Search) → (grey_dep d s).colours ≡ s.colours)
    → (ds : List String) (s : Search) → whites s.colours ≤ fuel
    → Shrinks (whites s.colours) (each_dep white_dep grey_dep ds s)
unfolding each_dep
each_dep-Shrinks fuel w g visits keeps [] s le = omega arith
each_dep-Shrinks fuel w g visits keeps (d ∷ ds) s le =
    go (each_dep-Shrinks fuel w g visits keeps ds) (lookup d s.colours) refl
  where
    go :
        ((t : Search) → whites t.colours ≤ fuel → Shrinks (whites t.colours) (each_dep w g ds t))
        → (o : Option Colour) → lookup d s.colours ≡ o
        → Shrinks (whites s.colours) (each_dep w g (d ∷ ds) s)
    go rest none e = rw (e, each_dep) (rest s le)
    go rest (some white) e =
        rw (e, each_dep)
          (then_search-Shrinks (whites s.colours) (whites s.colours) (w d s) (each_dep w g ds)
            (visits d s e le)
            λ t less.
              Shrinks-mono (whites t.colours) (whites s.colours) (each_dep w g ds t) less
                (rest t (le_trans less le)))
    go rest (some grey) e =
        rw (e, each_dep)
          (subst (λ c. Shrinks (whites c) (each_dep w g ds (g d s))) (keeps d s)
            (rest (g d s) (subst (λ c. whites c ≤ fuel) (sym (keeps d s)) le)))
    go rest (some black) e = rw (e, each_dep) (rest s le)

module _ (graph : Dict (List String)) (bound : Dict (Option ℕ)) where
  visit_step-Shrinks :
      (fuel : ℕ) (stack : List String) (sid : String) (s : Search)
      → lookup sid s.colours ≡ some white
      → whites s.colours ≤ fuel
      → Shrinks (whites s.colours) (visit_step graph bound fuel stack sid s)
  unfolding visit_step
  visit_step-Shrinks zero stack sid s e le =
      absurd (omega (arith, whites-insert_grey sid s.colours e, le))
  visit_step-Shrinks (suc fuel) stack sid s e le =
      then_search-Shrinks (whites (insert sid grey s.colours)) (whites s.colours)
        (each_dep (λ d. visit_step graph bound fuel (stack ++ d ∷ []) d) (report graph bound stack)
          (needs_of graph bound sid) (paint graph bound sid grey s))
        (λ after. some (paint graph bound sid black after))
        (each_dep-Shrinks fuel (λ d. visit_step graph bound fuel (stack ++ d ∷ []) d)
          (report graph bound stack) (λ d t. visit_step-Shrinks fuel (stack ++ d ∷ []) d t)
          (λ d t. refl) (needs_of graph bound sid) (paint graph bound sid grey s)
          (omega (arith, whites-insert_grey sid s.colours e, le)))
        λ after less.
          omega
            (arith, whites-insert_grey sid s.colours e, less, whites-insert_black sid after.colours)

  search_all-Shrinks :
      (fuel : ℕ) (sids : List String) (s : Search)
      → whites s.colours ≤ fuel
      → Shrinks fuel (search_all graph bound fuel sids s)
  unfolding search_all
  search_all-Shrinks fuel [] s le = le
  search_all-Shrinks fuel (sid ∷ sids) s le =
      go (search_all-Shrinks fuel sids) (lookup sid s.colours) refl
    where
      go :
          ((t : Search)
            → whites t.colours ≤ fuel
            → Shrinks fuel (search_all graph bound fuel sids t))
          → (o : Option Colour) → lookup sid s.colours ≡ o
          → Shrinks fuel (search_all graph bound fuel (sid ∷ sids) s)
      go rest none e = rw (e, search_all) (rest s le)
      go rest (some white) e =
          rw (e, search_all)
            (then_search-Shrinks (whites s.colours) fuel
              (visit_step graph bound fuel (sid ∷ []) sid s) (search_all graph bound fuel sids)
              (visit_step-Shrinks fuel (sid ∷ []) sid s e le) λ t less. rest t (le_trans less le))
      go rest (some grey) e = rw (e, search_all) (rest s le)
      go rest (some black) e = rw (e, search_all) (rest s le)

whites-all_white : (graph : Dict (List String)) → whites (all_white graph) ≡ length graph
whites-all_white [] = refl
whites-all_white ((k, deps) ∷ d) = omega (arith, whites-all_white d)

-- The search for cycles ends with its report for every list of steps.
pub check_cycles-ends : (steps : List WorkflowStep) → check_cycles steps ≢ none
unfolding check_cycles
check_cycles-ends steps e = go _ refl (
    search_all-Shrinks graph (bounds_of steps []) (suc (length graph)) (keys_of graph) start
      (omega (arith, whites-all_white graph)))
  where
    graph : Dict (List String)
    graph = graph_of steps []

    start : Search
    start = record { colours = all_white graph; errors = [] }

    go :
        (o : Option Search)
        → search_all graph (bounds_of steps []) (suc (length graph)) (keys_of graph) start ≡ o
        → Shrinks (suc (length graph)) o
        → ⊥
    go none found h = h
    go (some s) found h = absurd (cc (e, found))
